-- ===== src/Bridge/Keys.antt =====
-- The keys of the configuration that are set, one by one (bin/workspace_harbor_bridge.py).
use serena_workspace_orchest.Prelude.{
  ℕ, ◌≡◌, sym, refl, if◌then◌else◌, false, ◌&&◌, Bool, inl, inr, true, some, List, Bool-cases, ◌∙◌,
}
use serena_workspace_orchest.Prelude.Strings.{codes, codes_eq}
use serena_workspace_orchest.Prelude.Reflect.{codes_eq_lem, codes_eq_of}
use serena_workspace_orchest.Bridge.Config.{Fields, set_field}

-- Two keys are not the same text.
apart :
    (k one other : List ℕ)
    → codes_eq one other ≡ false
    → (codes_eq k one && codes_eq k other) ≡ false
apart k one other differ = elim (Bool-cases (codes_eq k one)) [
  | inr e ↦ rw (e) refl
  | inl e ↦ elim (Bool-cases (codes_eq k other)) [
    | inr f ↦ rw (e, f) refl
    | inl f ↦
        absurd (cc (differ, codes_eq_of (sym (codes_eq_lem k one e) ∙ codes_eq_lem k other f)))
  ]
]

-- `set_field` by the tests for the four keys
abbrev chosen : Bool → Bool → Bool → Bool → List ℕ → Fields → Fields
chosen e t c a v fields =
    if e
    then record fields { enabled = some v }
    else if t
    then record fields { transport = some v }
    else if c
    then record fields { command = some v }
    else if a
    then record fields { args = some v }
    else fields

chosen-enabled :
    (e t c a : Bool) (v : List ℕ) (fields : Fields)
    → (chosen e t c a v fields).enabled ≡ (if e then some v else fields.enabled)
chosen-enabled true t c a v fields = refl
chosen-enabled false true c a v fields = refl
chosen-enabled false false true a v fields = refl
chosen-enabled false false false true v fields = refl
chosen-enabled false false false false v fields = refl

chosen-transport :
    (e t c a : Bool) (v : List ℕ) (fields : Fields)
    → (e && t) ≡ false
    → (chosen e t c a v fields).transport ≡ (if t then some v else fields.transport)
chosen-transport true true c a v fields h0 = cc
chosen-transport true false c a v fields h0 = refl
chosen-transport false true c a v fields h0 = refl
chosen-transport false false true a v fields h0 = refl
chosen-transport false false false true v fields h0 = refl
chosen-transport false false false false v fields h0 = refl

chosen-command :
    (e t c a : Bool) (v : List ℕ) (fields : Fields)
    → (e && c) ≡ false
    → (t && c) ≡ false
    → (chosen e t c a v fields).command ≡ (if c then some v else fields.command)
chosen-command true t true a v fields h0 h1 = cc
chosen-command true t false a v fields h0 h1 = refl
chosen-command false true true a v fields h0 h1 = cc
chosen-command false true false a v fields h0 h1 = refl
chosen-command false false true a v fields h0 h1 = refl
chosen-command false false false true v fields h0 h1 = refl
chosen-command false false false false v fields h0 h1 = refl

chosen-args :
    (e t c a : Bool) (v : List ℕ) (fields : Fields)
    → (e && a) ≡ false
    → (t && a) ≡ false
    → (c && a) ≡ false
    → (chosen e t c a v fields).args ≡ (if a then some v else fields.args)
chosen-args true t c true v fields h0 h1 h2 = cc
chosen-args true t c false v fields h0 h1 h2 = refl
chosen-args false true c true v fields h0 h1 h2 = cc
chosen-args false true c false v fields h0 h1 h2 = refl
chosen-args false false true true v fields h0 h1 h2 = cc
chosen-args false false true false v fields h0 h1 h2 = refl
chosen-args false false false true v fields h0 h1 h2 = refl
chosen-args false false false false v fields h0 h1 h2 = refl

pub set_enabled :
    (k v : List ℕ) (fields : Fields)
    → (set_field k v fields).enabled
      ≡ (if codes_eq k (codes "enabled") then some v else fields.enabled)
unfolding set_field
set_enabled k v fields =
    chosen-enabled (codes_eq k (codes "enabled")) (codes_eq k (codes "transport"))
      (codes_eq k (codes "command")) (codes_eq k (codes "args")) v fields

pub set_transport :
    (k v : List ℕ) (fields : Fields)
    → (set_field k v fields).transport
      ≡ (if codes_eq k (codes "transport") then some v else fields.transport)
unfolding set_field
set_transport k v fields =
    chosen-transport (codes_eq k (codes "enabled")) (codes_eq k (codes "transport"))
      (codes_eq k (codes "command")) (codes_eq k (codes "args")) v fields
      (apart k (codes "enabled") (codes "transport") refl)

pub set_command :
    (k v : List ℕ) (fields : Fields)
    → (set_field k v fields).command
      ≡ (if codes_eq k (codes "command") then some v else fields.command)
unfolding set_field
set_command k v fields =
    chosen-command (codes_eq k (codes "enabled")) (codes_eq k (codes "transport"))
      (codes_eq k (codes "command")) (codes_eq k (codes "args")) v fields
      (apart k (codes "enabled") (codes "command") refl)
      (apart k (codes "transport") (codes "command") refl)

pub set_args :
    (k v : List ℕ) (fields : Fields)
    → (set_field k v fields).args ≡ (if codes_eq k (codes "args") then some v else fields.args)
unfolding set_field
set_args k v fields =
    chosen-args (codes_eq k (codes "enabled")) (codes_eq k (codes "transport"))
      (codes_eq k (codes "command")) (codes_eq k (codes "args")) v fields
      (apart k (codes "enabled") (codes "args") refl)
      (apart k (codes "transport") (codes "args") refl)
      (apart k (codes "command") (codes "args") refl)
