-- ===== src/Bridge/Reported.antt =====
-- What the journal shows after a handshake (bin/workspace_harbor_bridge.py).
use serena_workspace_orchest.Prelude.{
  ℕ, zero, suc, All, ◌+◌, ◌≤◌, ◌≡◌, refl, subst, ◌⊎◌, inl, inr, true, none, some, List, [], ◌∷◌,
  ◌++◌,
}
use serena_workspace_orchest.Bridge.Journal.{BridgeEvent, Files, append, recent, is_valid_event}
use serena_workspace_orchest.Bridge.Kept.{append_is_recent}
use serena_workspace_orchest.Bridge.Handshake.{Parser, Round, HandshakeResult}
use serena_workspace_orchest.Bridge.Session.{
  Child, Told, tells, Attempt, handshake_event, append_events, Surroundings, Session,
  initialized_then, run_handshake, can_launch,
}
use serena_workspace_orchest.Bridge.Told.{
  IsAllowed, IsAttempt, handshake_event-is_valid, IsEnding, no_project, no_broker, no_launch,
  healthy, failed, run_handshake-IsEnding, run_handshake-IsAllowed,
}

append-is_done :
    (size : BridgeEvent → ℕ) (max_bytes backups : ℕ) (event : BridgeEvent) (files : Files)
    → is_valid_event event ≡ true
    → (append size max_bytes backups true event files).1 ≡ true
unfolding append
append-is_done size max_bytes backups event files e = rw (e) refl

-- The last of the events told is the last of the recent ones.
last_is_recent :
    (size : BridgeEvent → ℕ) (max_bytes backups : ℕ) (attempt : Attempt) (limit number before : ℕ)
    (last : Told) (files : Files)
    → IsAttempt attempt
    → All IsAllowed (initialized_then before last)
    → 1 ≤ limit
    → (k : ℕ) × (older : List BridgeEvent) × (recent backups attempt.root_digest limit (
          append_events size max_bytes backups true attempt number
            (initialized_then before last)
            files)
        ≡ older ++ handshake_event attempt k last ∷ [])
unfolding initialized_then append_events
last_is_recent size max_bytes backups attempt limit number zero last files i (allowed, others)
      positive =
    let event = handshake_event attempt number last in
    let (older, e) =
      append_is_recent size max_bytes backups true event files attempt.root_digest limit
        (append-is_done size max_bytes backups event files
          (handshake_event-is_valid attempt number last i allowed))
        refl positive in
    (number, older, e)
last_is_recent size max_bytes backups attempt limit number (suc before) last files i
      (allowed, others) positive =
    last_is_recent size max_bytes backups attempt limit (number + 1) before last
      (append size max_bytes backups true
        (handshake_event attempt number (tells "initialize" "ok" none)) files).0
      i others positive

-- An event's parts that agree with a result.
abbrev pub Agrees : HandshakeResult → Told → Type 0
Agrees result told =
    (result.status ≡ "healthy") × (told ≡ tells "tools-list" "ok" none)
    ⊎ (result.status ≡ "failed") × (told.outcome ≡ "failed") × (told.reason ≡ some result.reason)

ending-Agrees :
    (surroundings : Surroundings) (session : Session)
    → surroundings.has_project ≡ true
    → surroundings.has_broker ≡ true
    → can_launch surroundings ≡ true
    → IsEnding surroundings session
    → (before : ℕ) × (last : Told) × (session.told ≡ initialized_then before last)
      × Agrees session.result last
ending-Agrees surroundings _ p b l (no_project e) = absurd (cc)
ending-Agrees surroundings _ p b l (no_broker e) = absurd (cc)
ending-Agrees surroundings _ p b l (no_launch e) = absurd (cc)
ending-Agrees surroundings _ p b l (healthy session before status told) =
    (before, _, told, inl (status, refl))
ending-Agrees surroundings _ p b l (failed session before stage status told) =
    (before, _, told, inr (status, refl, refl))

-- If the proxy was launched and the journal can be written, its recent events for the root end with
-- an event of this attempt: the success of `tools-list` if the result is healthy, and else a failure
-- with the result's reason.
pub session_is_recent :
    (parse : Parser) (most started timeout : ℕ) (surroundings : Surroundings) (rounds : List Round)
    (child left : Child) (session : Session) (size : BridgeEvent → ℕ) (max_bytes backups : ℕ)
    (attempt : Attempt) (limit : ℕ) (files : Files)
    → run_handshake parse most started timeout surroundings rounds child left ≡ some session
    → surroundings.has_project ≡ true
    → surroundings.has_broker ≡ true
    → can_launch surroundings ≡ true
    → IsAttempt attempt
    → 1 ≤ limit
    → (last : Told) × Agrees session.result last
      × (k : ℕ) × (older : List BridgeEvent) × (recent backups attempt.root_digest limit
            (append_events size max_bytes backups true attempt 0 session.told files)
          ≡ older ++ handshake_event attempt k last ∷ [])
session_is_recent parse most started timeout surroundings rounds child left session size max_bytes
      backups attempt limit files h project broker launch i positive =
    let (before, last, told, agrees) = ending-Agrees surroundings session project broker launch (
      run_handshake-IsEnding parse most started timeout surroundings rounds child left session h) in
    let allowed =
      run_handshake-IsAllowed parse most started timeout surroundings rounds child left session h in
    let (k, older, e) =
      last_is_recent size max_bytes backups attempt limit 0 before last files i
        (subst (λ ts. All IsAllowed ts) told allowed) positive in
    (last, agrees, k, older, rw (told) e)
