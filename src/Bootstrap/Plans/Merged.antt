-- ===== src/Bootstrap/Plans/Merged.antt =====
-- The keys of a merged policy (bin/workspace_harbor_bootstrap.py).
use serena_workspace_orchest.Prelude.{
  ap, ◌∙◌, ◌≡◌, refl, subst, inl, inr, Bool, true, false, not, ◌&&◌, Option, none, some, String,
  arith, Bool-cases, Option-cases,
}
use serena_workspace_orchest.Prelude.Strings.{str_eq, eq_iff}
use serena_workspace_orchest.Json.{Value, Fields, field, end, get, put, get-put}
use serena_workspace_orchest.Bootstrap.Plans.Policy.{deep_merge, merge_value, has_key}

-- A dictionary holds a key once.
unfoldable pub is_unique : Fields → Bool
unfolding has_key
is_unique end = true
is_unique (field k v d) = not (has_key k d) && is_unique d

-- The value of a key that may be overridden.
abbrev pub merged : Option Value → Option Value → Option Value
merged old none = old
merged old (some new) = some (merge_value old new)

get-missing : (k : String) (d : Fields) → has_key k d ≡ false → get k d ≡ none
unfolding has_key
get-missing k d h = elim (Option-cases (get k d)) [
  | inl e ↦ e
  | inr (v, e) ↦ cc (rw (has_key, e) at h)
]

both : (a b : Bool) → not a && b ≡ true → (a ≡ false) × (b ≡ true)
both true b h = cc
both false b h = (refl, h)

-- If the override holds each of its keys once, each key of the merged dictionary has the value from
-- before if the override does not have the key, and otherwise the override's value, which is merged
-- with the one from before if both are dictionaries.
pub get-deep_merge :
    (key : String) (base override : Fields)
    → is_unique override ≡ true
    → get key (deep_merge base override) ≡ merged (get key base) (get key override)
unfolding deep_merge is_unique get
get-deep_merge key base end u = refl
get-deep_merge key base (field k v d) u =
    let (alone, rest) = both (has_key k d) (is_unique d) u in
    let value = merge_value (get k base) v in
    let later = get-deep_merge key (put k value base) d rest in
    let here = get-put k key value base in
    elim (Bool-cases (str_eq k key)) [
      | inr e ↦ later ∙ rw (here, e) refl
      | inl e ↦
          let same : k ≡ key = ground (arith, eq_iff k key) in
          let absent : get key d ≡ none =
            subst (λ x. get x d ≡ none) same (get-missing k d alone) in
          later ∙ rw (here, e, absent) (ap (λ x. some (merge_value (get x base) v)) same)
    ]
