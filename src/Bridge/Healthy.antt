-- ===== src/Bridge/Healthy.antt =====
-- What the outcome of a handshake tells (bin/workspace_harbor_bridge.py).
use serena_workspace_orchest.Prelude.{
  ℕ, ◌+◌, ◌≡◌, refl, inl, inr, Bool, true, false, ◌||◌, Option, none, some, List, [], ◌∷◌, arith,
  leb, if◌then◌else◌, Bool-cases, not,
}
use serena_workspace_orchest.Prelude.Int.{ℤ}
use serena_workspace_orchest.Bridge.Handshake.{
  Parser, Progress, beginning, is_some, is_over, Round, handshake_round, handshake_loop,
  is_bad_exit,
}
use serena_workspace_orchest.Bridge.Session.{
  Surroundings, Child, Session, end_session, run_handshake, can_launch,
}

-- The end of a handshake that is healthy.
pub record IsHealthy (p : Progress) (exit : Option ℤ) : Type 0 where
  pub no_failure : p.failure ≡ none
  pub initialized : is_some p.initialized ≡ true
  pub requested : p.requested ≡ true
  pub listed : is_some p.tools_listed ≡ true
  pub expected : p.expected_found ≡ true
  pub exit_code : is_bad_exit exit ≡ false

-- A round whose deadline's test comes at the deadline or later.
abbrev pub reaches : ℕ → List Round → Bool
reaches deadline [] = false
reaches deadline (round ∷ rounds) = leb deadline round.now || reaches deadline rounds

late_round-over :
    (parse : Parser) (limit deadline : ℕ) (round : Round) (p : Progress)
    → leb deadline round.now ≡ true
    → is_over (handshake_round parse limit deadline round p) ≡ true
unfolding handshake_round
late_round-over parse limit deadline round p late = rw (late) refl

handshake_loop-over :
    (parse : Parser) (limit deadline : ℕ) (rounds : List Round) (p : Progress)
    → reaches deadline rounds ≡ true
    → is_over (handshake_loop parse limit deadline rounds p) ≡ true
unfolding handshake_loop
handshake_loop-over parse limit deadline [] p h = absurd (ground arith)
handshake_loop-over parse limit deadline (round ∷ rounds) p h = elim (Bool-cases (is_over p)) [
  | inl e ↦ rw (e) e
  | inr e ↦ elim (Bool-cases (leb deadline round.now)) [
    | inl f ↦ rw (e) (
        stays rounds (handshake_round parse limit deadline round p)
          (late_round-over parse limit deadline round p f))
    | inr f ↦ rw (e) (
        handshake_loop-over parse limit deadline rounds
          (handshake_round parse limit deadline round p) (ground arith))
  ]
]
  where
    stays :
        (left : List Round) (q : Progress)
        → is_over q ≡ true
        → is_over (handshake_loop parse limit deadline left q) ≡ true
    stays [] q o = o
    stays (r ∷ left) q o = rw (o) o

if_some :
    {A : Type 0} (b : Bool) (x y : Option A)
    → ((a : A) × (x ≡ some a))
    → ((a : A) × (y ≡ some a))
    → (a : A) × ((if b then x else y) ≡ some a)
if_some true x y one other = one
if_some false x y one other = other

-- A handshake has an outcome at the latest in the first round whose deadline's test comes at its
-- deadline, whatever the proxy prints.
pub handshake_ends :
    (parse : Parser) (limit started timeout : ℕ) (surroundings : Surroundings) (rounds : List Round)
    (child left : Child)
    → reaches (started + timeout) rounds ≡ true
    → (session : Session) × (run_handshake parse limit started timeout surroundings rounds child
          left
        ≡ some session)
unfolding run_handshake
handshake_ends parse limit started timeout surroundings rounds child left h =
    let p = handshake_loop parse limit (started + timeout) rounds beginning in
    if_some (not surroundings.has_project) _ _ (_, refl)
      (if_some (not surroundings.has_broker) _ _ (_, refl)
        (if_some (not (can_launch surroundings)) _ _ (_, refl)
          (
            end_session started child left p,
            rw (handshake_loop-over parse limit (started + timeout) rounds beginning h) refl,
          )))
