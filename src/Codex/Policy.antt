-- ===== src/Codex/Policy.antt =====
-- bin/workspace_harbor_codex.py: the policy on automatic restarts, `RestartPolicyStore`.
use serena_workspace_orchest.Prelude.{
  ◌≡◌, refl, inl, inr, Bool, true, false, not, ◌||◌, Option, none, some, String, arith,
  if◌then◌else◌, Option-cases,
}
use serena_workspace_orchest.Prelude.Int.{pos}
use serena_workspace_orchest.Prelude.Results.{Result, ok, err}
use serena_workspace_orchest.Json.{
  Value, bool, int, obj, Fields, field, end, get, holds_int, as_dict,
}

-- The policy's file: it is missing, its text is no JSON, or it holds a value.
pub data Stored : Type 0 where
  missing malformed : Stored
  holding : Value → Stored

abbrev pub policy : Bool → Fields
policy enabled =
    field "schema_version" (int (pos 1)) (field "automatic_codex_restart" (bool enabled) end)

abbrev pub is_bool : Option Value → Bool
is_bool (some (bool b)) = true
is_bool _ = false

unfoldable pub check_policy : Value → Result String Fields
unfolding get
check_policy payload = elim (as_dict payload) [
  | none ↦ err "invalid restart policy"
  | some d ↦
      if not (holds_int "schema_version" d (pos 1))
        || not (is_bool (get "automatic_codex_restart" d))
      then err "invalid restart policy"
      else ok d
]

-- `RestartPolicyStore.load`
unfoldable pub load_policy : Stored → Result String Fields
unfolding check_policy
load_policy missing = ok (policy false)
load_policy malformed = err "malformed JSON"
load_policy (holding payload) = check_policy payload

-- `RestartPolicyStore.write`: the payload that it returns, and the file that it leaves.
unfoldable pub write_policy : Bool → Fields × Stored
write_policy enabled = (policy enabled, holding (obj (policy enabled)))

-- `load()["automatic_codex_restart"]`
unfoldable pub is_enabled : Result String Fields → Bool
unfolding get
is_enabled (err e) = false
is_enabled (ok d) = elim (get "automatic_codex_restart" d) [ some (bool b) ↦ b | _ ↦ false ]

-- What `write` returns is what a later `load` reads back, with the flag that was given; and
-- restarts are allowed only if the file says so.
pub load-write_policy :
    (enabled : Bool)
    → (load_policy (write_policy enabled).1 ≡ ok (write_policy enabled).0)
      × (is_enabled (load_policy (write_policy enabled).1) ≡ enabled)
unfolding load_policy write_policy is_enabled
load-write_policy enabled = (refl, refl)

-- Restarts are enabled only by a file of schema version 1 in which the flag is true: a missing, a
-- malformed and an invalid file leave them off.
pub enabled_only_by_file :
    (stored : Stored)
    → is_enabled (load_policy stored) ≡ true
    → (d : Fields) × (stored ≡ holding (obj d))
      × (holds_int "schema_version" d (pos 1) ≡ true)
      × (get "automatic_codex_restart" d ≡ some (bool true))
unfolding load_policy is_enabled check_policy
enabled_only_by_file missing h = absurd (ground arith)
enabled_only_by_file malformed h = absurd (ground arith)
enabled_only_by_file (holding (obj d)) h = elim (Option-cases (get "automatic_codex_restart" d)) [
  | inl e ↦ absurd (ground arith)
  | inr (bool b, e) ↦ (d, refl, ground arith, ground arith)
  | inr (_, e) ↦ absurd (ground arith)
]
enabled_only_by_file (holding _) h = absurd (ground arith)
