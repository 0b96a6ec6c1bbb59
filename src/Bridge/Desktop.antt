-- ===== src/Bridge/Desktop.antt =====
-- bin/workspace_harbor_bridge.py: `find_desktop_host_owner`, from what the broker's status prints.
use serena_workspace_orchest.Prelude.{
  ℕ, all, ◌≡◌, refl, subst, inl, inr, Bool, true, false, not, ◌&&◌, ◌||◌, Option, none, some, List,
  [], ◌∷◌, String, arith, ltb, ◌==◌, if◌then◌else◌, List-cases,
}
use serena_workspace_orchest.Prelude.Strings.{codes, has_prefix, text_length}
use serena_workspace_orchest.Prelude.Int.{ℤ, pos, int_eq}
use serena_workspace_orchest.Json.{
  Value, bool, str, arr, Fields, Items, nil, cons, get, as_dict, holds_str,
}
use serena_workspace_orchest.Bridge.Incident.{is_low_hex}

-- The run of the broker: it cannot be made, or it completed; `none` as output is no JSON.
pub data StatusRun : Type 0 where
  unavailable : StatusRun
  completed : (returncode : ℤ) (stdout_bytes stderr_bytes : ℕ) (payload : Option Value) → StatusRun

abbrev pub is_healthy : Fields → Bool
is_healthy item = elim (get "healthy" item) [ some (bool b) ↦ b | _ ↦ false ]

unfoldable pub is_service_of : String → Fields → Bool
unfolding get
is_service_of canonical item =
    holds_str "project_root" item canonical
    && holds_str "backend" item "JetBrains"
    && is_healthy item

unfoldable pub matching : String → Items → List Fields
unfolding is_service_of
matching canonical nil = []
matching canonical (cons item items) =
    let rest = matching canonical items in
    elim (as_dict item) [
      | none ↦ rest
      | some d ↦ if is_service_of canonical d then d ∷ rest else rest
    ]

-- `CODEX_HOST_OWNER`
unfoldable pub is_host_owner : String → Bool
unfolding has_prefix
is_host_owner owner =
    has_prefix (codes "codex-host-") (codes owner)
    && text_length owner == 35
    && ends_hex (codes owner)
  where
    ends_hex : List ℕ → Bool
    ends_hex (_ ∷ _ ∷ _ ∷ _ ∷ _ ∷ _ ∷ _ ∷ _ ∷ _ ∷ _ ∷ _ ∷ rest) = all (λ c. is_low_hex c) rest
    ends_hex _ = false

-- The one owner in the list, if its text has the form of a host's.
unfoldable pub host_of : Option Value → Option String
unfolding is_host_owner
host_of (some (arr (cons (str owner) nil))) = if is_host_owner owner then some owner else none
host_of _ = none

unfoldable pub only_owner : List Fields → Option String
unfolding host_of get
only_owner (item ∷ []) = host_of (get "owners" item)
only_owner _ = none

unfoldable pub find_in : String → Option Value → Option String
unfolding only_owner matching
find_in canonical (some (arr items)) = only_owner (matching canonical items)
find_in canonical _ = none

unfoldable pub find_desktop_host_owner :
    (canonical : String) (max_output_bytes : ℕ) → StatusRun → Option String
unfolding find_in
find_desktop_host_owner canonical max_output_bytes unavailable = none
find_desktop_host_owner canonical max_output_bytes
      (completed returncode stdout_bytes stderr_bytes payload) =
    if not (int_eq returncode (pos 0))
      || ltb max_output_bytes stdout_bytes
      || ltb max_output_bytes stderr_bytes
    then none
    else find_in canonical payload

if_some :
    (b : Bool) (s owner : String)
    → (if b then some s else none) ≡ some owner
    → (b ≡ true) × (s ≡ owner)
if_some true s owner h = ground arith
if_some false s owner h = absurd (ground arith)

host_of_lem :
    (owners : Option Value) (owner : String)
    → host_of owners ≡ some owner
    → (owners ≡ some (arr (cons (str owner) nil))) × (is_host_owner owner ≡ true)
unfolding host_of
host_of_lem (some (arr (cons (str s) nil))) owner h =
    let (form, same) = if_some (is_host_owner s) s owner h in
    subst
      (λ o.
        (some (arr (cons (str s) nil)) ≡ some (arr (cons (str o) nil))) × (is_host_owner o ≡ true))
      same (refl, form)
host_of_lem none owner h = absurd (ground arith)
host_of_lem (some _) owner h = absurd (ground arith)

-- An owner is found only if exactly one healthy JetBrains service of the root is listed, and that
-- service has this one owner, of the form of a host's.
pub desktop_owner_lem :
    (canonical : String) (max_output_bytes : ℕ) (returncode : ℤ) (stdout_bytes stderr_bytes : ℕ)
    (items : Items) (owner : String)
    → find_desktop_host_owner canonical max_output_bytes
        (completed returncode stdout_bytes stderr_bytes (some (arr items)))
      ≡ some owner
    → (service : Fields) × (matching canonical items ≡ service ∷ [])
      × (get "owners" service ≡ some (arr (cons (str owner) nil)))
      × (is_host_owner owner ≡ true)
unfolding find_desktop_host_owner find_in only_owner
desktop_owner_lem canonical max_output_bytes returncode stdout_bytes stderr_bytes items owner h =
    elim (List-cases (matching canonical items)) [
      | inl e ↦ absurd (ground arith)
      | inr (service, others, e) ↦ elim (List-cases others) [
        | inr (second, rest, f) ↦ absurd (ground arith)
        | inl f ↦
            let (owners, form) = host_of_lem (get "owners" service) owner (ground arith) in
            (service, ground arith, owners, form)
      ]
    ]
