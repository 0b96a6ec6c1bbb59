-- ===== src/Bridge/Told.antt =====
-- What the journal is told of a handshake (bin/workspace_harbor_bridge.py).
use serena_workspace_orchest.Prelude.{
  ℕ, zero, suc, All, ◌+◌, ◌≡◌, refl, subst, inl, inr, Bool, true, false, not, ◌&&◌, ◌||◌, Option,
  none, some, List, [], ◌∷◌, String, ltb, Bool-cases, Option-cases, ◌++◌,
}
use serena_workspace_orchest.Prelude.Int.{ℤ}
use serena_workspace_orchest.Prelude.Strings.{is_empty, text_length, member}
use serena_workspace_orchest.Bridge.Incident.{is_hex_text, has_newline}
use serena_workspace_orchest.Bridge.Journal.{
  is_valid_event, is_event_reason, allowed_stages, allowed_outcomes, is_optional,
}
use serena_workspace_orchest.Bridge.Handshake.{
  Parser, Progress, beginning, is_some, is_over, Round, handshake_loop, conclude, is_bad_exit,
  by_stage, result,
}
use serena_workspace_orchest.Bridge.Sound.{IsNamed, beginning-IsSound, handshake_loop-IsSound}
use serena_workspace_orchest.Bridge.Session.{
  Signal, Child, Told, tells, Attempt, handshake_event, Surroundings, Session, initialized_then,
  last_told, end_child, end_session, run_handshake, unstarted, launch_failed, stop_diagnostic_group,
  can_launch,
}

-- The parts of an event that differ in one attempt are allowed.
abbrev pub IsAllowed : Told → Type 0
IsAllowed told =
    (member told.stage allowed_stages ≡ true)
    × (member told.outcome allowed_outcomes ≡ true)
    × IsNamed told.reason

-- The attempt's identifier, its root's digest and its times are of the form that events have.
pub record IsAttempt (attempt : Attempt) : Type 0 where
  pub attempt_id : is_hex_text 32 attempt.attempt_id ≡ true
  pub root_digest : is_hex_text 24 attempt.root_digest ≡ true
  pub timestamps :
      (number : ℕ)
      → (is_empty (attempt.timestamp number)
          || ltb 64 (text_length (attempt.timestamp number))
          || has_newline (attempt.timestamp number))
        ≡ false

and_true : {a b : Bool} → a ≡ true → b ≡ true → (a && b) ≡ true
and_true {a} {b} e f = rw (e, f) refl

negated : {a : Bool} → a ≡ false → not a ≡ true
negated {a} e = rw (e) refl

is_optional_reason :
    (reason : Option String) → IsNamed reason → is_optional (λ s. is_event_reason s) reason ≡ true
is_optional_reason none n = refl
is_optional_reason (some s) n = n

pub handshake_event-is_valid :
    (attempt : Attempt) (number : ℕ) (told : Told)
    → IsAttempt attempt
    → IsAllowed told
    → is_valid_event (handshake_event attempt number told) ≡ true
unfolding is_valid_event handshake_event
handshake_event-is_valid attempt number told a (stage, outcome, reason) =
    let head = and_true (and_true a.attempt_id (negated (a.timestamps number))) a.root_digest in
    let unowned = and_true (and_true head refl) refl in
    and_true
      (and_true (and_true (and_true unowned stage) outcome) (is_optional_reason told.reason reason))
      refl

-- How a session ends: one that does not start is unavailable, and tells its launch's failure alone;
-- otherwise the last event is that of the tools' list in a healthy one and else has its reason.
pub data IsEnding (surroundings : Surroundings) : Session → Type 0 where
  no_project :
      surroundings.has_project ≡ false → IsEnding surroundings (unstarted "project-missing" [])
  no_broker :
      surroundings.has_broker ≡ false → IsEnding surroundings (unstarted "broker-missing" [])
  no_launch :
      can_launch surroundings ≡ false
      → IsEnding surroundings (unstarted "broker-launch-failed" (launch_failed ∷ []))
  healthy :
      (session : Session) (before : ℕ)
      → session.result.status ≡ "healthy"
      → session.told ≡ initialized_then before (tells "tools-list" "ok" none)
      → IsEnding surroundings session
  failed :
      (session : Session) (before : ℕ) (stage : String)
      → session.result.status ≡ "failed"
      → session.told ≡ initialized_then before (tells stage "failed" (some session.result.reason))
      → IsEnding surroundings session

end_with-IsEnding :
    (surroundings : Surroundings) (started before : ℕ) (exit : Option ℤ) (signals : List Signal)
    (p : Progress)
    → IsEnding surroundings (record {
      result = conclude started exit p;
      told = initialized_then before (last_told exit p p.failure);
      signals = signals;
    })
unfolding conclude result
end_with-IsEnding surroundings started before exit signals p = elim (Option-cases p.failure) [
  | inl e ↦ elim (Bool-cases (is_bad_exit exit)) [
    | inl f ↦ rw (e, f) (failed _ before "handshake-cleanup" refl refl)
    | inr f ↦ rw (e, f) (healthy _ before refl refl)
  ]
  | inr (failure, e) ↦ rw (e) (failed _ before (by_stage p "initialize" "tools-list") refl refl)
]

of_some {ℓ} : {A : Type 0} (P : A → Type ℓ) {x y : A} → Option.some x ≡ some y → P x → P y
of_some P {x} {y} e p = subst P (cc) p

-- What holds of each way in which a session ends holds of a session.
pub run_handshake-cases :
    (parse : Parser) (limit started timeout : ℕ) (surroundings : Surroundings) (rounds : List Round)
    (child left : Child) (session : Session) (P : Session → Type 0)
    → run_handshake parse limit started timeout surroundings rounds child left ≡ some session
    → (surroundings.has_project ≡ false → P (unstarted "project-missing" []))
    → (surroundings.has_broker ≡ false → P (unstarted "broker-missing" []))
    → (can_launch surroundings ≡ false → P (unstarted "broker-launch-failed" (launch_failed ∷ [])))
    → (is_over (handshake_loop parse limit (started + timeout) rounds beginning) ≡ true
        → P (
            end_session started child left
              (handshake_loop parse limit (started + timeout) rounds beginning)))
    → P session
unfolding run_handshake
run_handshake-cases parse limit started timeout surroundings rounds child left session P h project
      broker launch rest =
    let p = handshake_loop parse limit (started + timeout) rounds beginning in
    elim (Bool-cases surroundings.has_project) [
      | inr e ↦ of_some P (rw (e) at h) (project e)
      | inl e ↦ elim (Bool-cases surroundings.has_broker) [
        | inr f ↦ of_some P (rw (e, f) at h) (broker f)
        | inl f ↦ elim (Bool-cases (can_launch surroundings)) [
          | inr g ↦ of_some P (rw (e, f, g) at h) (launch g)
          | inl g ↦ elim (Bool-cases (is_over p)) [
            | inr o ↦ cc
            | inl o ↦ of_some P (rw (e, f, g, o) at h) (rest o)
          ]
        ]
      ]
    ]

pub run_handshake-IsEnding :
    (parse : Parser) (limit started timeout : ℕ) (surroundings : Surroundings) (rounds : List Round)
    (child left : Child) (session : Session)
    → run_handshake parse limit started timeout surroundings rounds child left ≡ some session
    → IsEnding surroundings session
unfolding end_session
run_handshake-IsEnding parse limit started timeout surroundings rounds child left session h =
    let p = handshake_loop parse limit (started + timeout) rounds beginning in
    run_handshake-cases parse limit started timeout surroundings rounds child left session
      (IsEnding surroundings) h no_project no_broker no_launch
      (λ over.
        end_with-IsEnding surroundings started p.told (end_child child p.failure).0
          ((end_child child p.failure).1 ++ (stop_diagnostic_group left).1) p)

initialized_then-IsAllowed :
    (before : ℕ) (last : Told) → IsAllowed last → All IsAllowed (initialized_then before last)
unfolding initialized_then member
initialized_then-IsAllowed zero last a = (a, tt)
initialized_then-IsAllowed (suc before) last a =
    ((refl, refl, tt), initialized_then-IsAllowed before last a)

by_stage-IsAllowed :
    (p : Progress) (failure : String)
    → IsNamed (some failure)
    → IsAllowed (tells (by_stage p "initialize" "tools-list") "failed" (some failure))
unfolding member
by_stage-IsAllowed p failure n = elim (Bool-cases (is_some p.initialized)) [
  | inl e ↦ rw (e) (refl, refl, n)
  | inr e ↦ rw (e) (refl, refl, n)
]

last_told-IsAllowed :
    (exit : Option ℤ) (p : Progress) (failure : Option String)
    → IsNamed failure
    → IsAllowed (last_told exit p failure)
unfolding member is_event_reason
last_told-IsAllowed exit p (some failure) n = by_stage-IsAllowed p failure n
last_told-IsAllowed exit p none n = elim (Bool-cases (is_bad_exit exit)) [
  | inl f ↦ rw (f) (refl, refl, refl)
  | inr f ↦ rw (f) (refl, refl, tt)
]

pub run_handshake-IsAllowed :
    (parse : Parser) (limit started timeout : ℕ) (surroundings : Surroundings) (rounds : List Round)
    (child left : Child) (session : Session)
    → run_handshake parse limit started timeout surroundings rounds child left ≡ some session
    → All IsAllowed session.told
unfolding end_session member is_event_reason
run_handshake-IsAllowed parse limit started timeout surroundings rounds child left session h =
    let p = handshake_loop parse limit (started + timeout) rounds beginning in
    let named =
      (handshake_loop-IsSound parse limit (started + timeout) rounds beginning
        beginning-IsSound).named in
    run_handshake-cases parse limit started timeout surroundings rounds child left session
      (λ s. All IsAllowed s.told) h (λ e. tt) (λ e. tt) (λ e. ((refl, refl, refl), tt))
      (λ over.
        initialized_then-IsAllowed p.told (last_told (end_child child p.failure).0 p p.failure)
          (last_told-IsAllowed (end_child child p.failure).0 p p.failure named))

-- The journal admits each of the events from a number on.
abbrev pub are_valid : Attempt → ℕ → List Told → Bool
are_valid attempt number [] = true
are_valid attempt number (told ∷ rest) =
    is_valid_event (handshake_event attempt number told) && are_valid attempt (number + 1) rest

told-are_valid :
    (attempt : Attempt) (number : ℕ) (told : List Told)
    → IsAttempt attempt
    → All IsAllowed told
    → are_valid attempt number told ≡ true
told-are_valid attempt number [] i a = refl
told-are_valid attempt number (told ∷ rest) i (allowed, others) =
    and_true (handshake_event-is_valid attempt number told i allowed)
      (told-are_valid attempt (number + 1) rest i others)

-- The end of a handshake agrees with the events that it told: a session that does not start is
-- unavailable and tells at most that its launch failed; otherwise its events are successes of
-- `initialize` and a last one, the success of `tools-list` if the result is healthy and a failure
-- with the result's reason if it is not. The journal admits all of them, if the attempt's
-- identifier, its root's digest and its times have the form of an event's.
pub run_handshake_lem :
    (parse : Parser) (limit started timeout : ℕ) (surroundings : Surroundings) (rounds : List Round)
    (child left : Child) (session : Session) (attempt : Attempt)
    → run_handshake parse limit started timeout surroundings rounds child left ≡ some session
    → IsAttempt attempt
    → IsEnding surroundings session × (are_valid attempt 0 session.told ≡ true)
run_handshake_lem parse limit started timeout surroundings rounds child left session attempt h i = (
  run_handshake-IsEnding parse limit started timeout surroundings rounds child left session h,
  told-are_valid attempt 0 session.told i (
      run_handshake-IsAllowed parse limit started timeout surroundings rounds child left session h),
)
