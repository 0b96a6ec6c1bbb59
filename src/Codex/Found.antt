-- ===== src/Codex/Found.antt =====
-- What the lookup of the Codex app finds (bin/workspace_harbor_codex.py).
use serena_workspace_orchest.Prelude.{
  none, ℕ, ◌≡◌, refl, sym, subst, inl, inr, true, some, List, [], ◌∷◌, arith, Bool-cases,
  Option-cases, List-cases, Option, ap, ◌∙◌,
}
use serena_workspace_orchest.Prelude.Strings.{codes_eq}
use serena_workspace_orchest.Prelude.Reflect.{codes_eq_refl, codes_eq_lem}
use serena_workspace_orchest.Prelude.Int.{ℤ}
use serena_workspace_orchest.Codex.App.{
  CodexProcessIdentity, Machine, find_codex_app_identity, identity_matches, has_bundle, identify,
  candidate_pids, read_process, app_executable, app_bundle_id,
}

-- The identity is that of one process which runs the executable in the app's bundle.
pub record IsFound (machine : Machine) (identity : CodexProcessIdentity) : Type 0 where
  pub bundle_id : identity.bundle_id ≡ app_bundle_id
  pub executable : identity.executable ≡ app_executable
  pub bundle : has_bundle machine ≡ true
  pub process :
      read_process (machine.ps identity.pid) ≡ some (identity.started, identity.executable)

identity_matches_sound :
    (machine : Machine) (identity : CodexProcessIdentity)
    → identity_matches machine identity ≡ true
    → IsFound machine identity
unfolding identity_matches
identity_matches_sound machine identity h =
    elim (Option-cases (read_process (machine.ps identity.pid))) [
      | inl e ↦ absurd (ground arith)
      | inr ((started, executable), e) ↦ record {
        bundle_id = codes_eq_lem identity.bundle_id app_bundle_id (ground arith);
        executable = codes_eq_lem identity.executable app_executable (ground arith);
        bundle = ground arith;
        process = ground (
          arith,
          codes_eq_lem started identity.started,
          codes_eq_lem executable identity.executable,
        );
      }
    ]

identity_matches_complete :
    (machine : Machine) (identity : CodexProcessIdentity)
    → IsFound machine identity
    → identity_matches machine identity ≡ true
unfolding identity_matches
identity_matches_complete machine identity found =
    let here = found.process in
    let bundle = found.bundle in
    let id = found.bundle_id in
    let executable = found.executable in
    ground (
      arith,
      codes_eq_refl identity.started,
      codes_eq_refl identity.executable,
      codes_eq_refl app_executable,
      codes_eq_refl app_bundle_id,
    )

started_of : Option (List ℕ × List ℕ) → List ℕ
started_of none = []
started_of (some (started, executable)) = started

same_identity :
    (a b : CodexProcessIdentity)
    → a.pid ≡ b.pid
    → a.started ≡ b.started
    → a.executable ≡ b.executable
    → a.bundle_id ≡ b.bundle_id
    → a ≡ b
same_identity a b p s e i = cc

-- Of one process at most one identity matches: two that match on the same machine and have the same
-- process number are the same, with their start time, executable and bundle.
pub matching_is_unique :
    (machine : Machine) (a b : CodexProcessIdentity)
    → identity_matches machine a ≡ true
    → identity_matches machine b ≡ true
    → a.pid ≡ b.pid
    → a ≡ b
unfolding started_of
matching_is_unique machine a b h k same =
    let one = identity_matches_sound machine a h in
    let other = identity_matches_sound machine b k in
    let shown = sym one.process ∙ ap (λ pid. read_process (machine.ps pid)) same ∙ other.process in
    same_identity a b same (ap started_of shown) (one.executable ∙ sym other.executable)
      (one.bundle_id ∙ sym other.bundle_id)

abbrev found_at : ℤ → List ℕ → List ℕ → CodexProcessIdentity
found_at pid started executable = record {
  pid = pid;
  started = started;
  executable = executable;
  bundle_id = app_bundle_id;
}

identify_lem :
    (machine : Machine) (pid : ℤ) (identity : CodexProcessIdentity)
    → has_bundle machine ≡ true
    → identify machine pid ≡ some identity
    → (identity.pid ≡ pid) × IsFound machine identity
unfolding identify
identify_lem machine pid identity bundle h = elim (Option-cases (read_process (machine.ps pid))) [
  | inl e ↦ absurd (ground arith)
  | inr ((started, executable), e) ↦ elim (Bool-cases (codes_eq executable app_executable)) [
    | inl same ↦
        let found : identity ≡ found_at pid started executable = ground arith in
        subst (λ i. (i.pid ≡ pid) × IsFound machine i) (sym found)
          (
            refl,
            record {
              bundle_id = refl;
              executable = codes_eq_lem executable app_executable same;
              bundle = bundle;
              process = e;
            },
          )
    | inr other ↦ absurd (ground arith)
  ]
]

-- The lookup finds an identity only if `pgrep` prints exactly one process, whose it is, and the
-- identity matches at that moment.
pub found_matches :
    (machine : Machine) (identity : CodexProcessIdentity)
    → find_codex_app_identity machine ≡ some identity
    → (candidate_pids machine.pgrep ≡ identity.pid ∷ [])
      × (identity_matches machine identity ≡ true)
unfolding find_codex_app_identity
found_matches machine identity h = elim (List-cases (candidate_pids machine.pgrep)) [
  | inl e ↦ absurd (ground arith)
  | inr (pid, others, e) ↦ elim (List-cases others) [
    | inr (second, rest, f) ↦ absurd (ground arith)
    | inl f ↦ elim (Bool-cases (has_bundle machine)) [
      | inr off ↦ absurd (ground arith)
      | inl bundle ↦
          let (same, found) = identify_lem machine pid identity bundle (ground arith) in
          (ground arith, identity_matches_complete machine identity found)
    ]
  ]
]
