-- ===== src/Bridge/Sound.antt =====
-- What holds throughout the loop of a handshake (bin/workspace_harbor_bridge.py).
use serena_workspace_orchest.Prelude.{
  ℕ, any, ◌+◌, ◌≡◌, refl, ◌⊎◌, inl, inr, true, false, not, ◌&&◌, ◌||◌, Option, none, some, List, [],
  ◌∷◌, ◌++◌, String, arith, ltb, leb, ◌==◌, Bool-cases, Option-cases, length,
}
use serena_workspace_orchest.Prelude.Int.{pos}
use serena_workspace_orchest.Json.{obj, Value, Fields, Items, get, as_dict, holds_int}
use serena_workspace_orchest.Bridge.Journal.{is_event_reason}
use serena_workspace_orchest.Bridge.Handshake.{
  Parser, Progress, beginning, is_some, is_over, fails, on_initialize, list_tools, on_tools,
  tools_of, on_message, on_line, on_lines, whole_lines, Stream, stdout, stderr, Event, blocked,
  chunk, on_stdout, on_chunk, on_event, on_events, Round, handshake_round, handshake_loop,
  HandshakeResult, conclude, is_bad_exit, has_expected, result, is_dict_at, no_events, by_stage,
}

-- A failure's name can be the reason of an event.
abbrev pub IsNamed : Option String → Type 0
IsNamed none = Unit
IsNamed (some reason) = is_event_reason reason ≡ true

-- What holds at each point of the loop: the tools' request is written exactly when the handshake
-- is initialized, the tools are listed only after that, and without an expected one it fails;
-- and a failure has the name of a reason.
pub record IsSound (p : Progress) : Type 0 where
  pub asked : p.requested ≡ is_some p.initialized
  pub ordered : (is_some p.tools_listed ≡ true) → is_some p.initialized ≡ true
  pub found :
      (is_some p.tools_listed ≡ true) → (p.expected_found ≡ true) ⊎ (is_some p.failure ≡ true)
  pub named : IsNamed p.failure

pub beginning-IsSound : IsSound beginning
beginning-IsSound = record {
  asked = refl;
  ordered = λ listed. absurd (ground arith);
  found = λ listed. absurd (ground arith);
  named = tt;
}

fails-IsSound :
    (p : Progress) (reason : String)
    → is_event_reason reason ≡ true
    → IsSound p
    → IsSound (fails p reason)
fails-IsSound p reason n h = record {
  asked = h.asked;
  ordered = h.ordered;
  found = λ listed. inr refl;
  named = n;
}

on_initialize-IsSound :
    (now : ℕ) (message : Fields) (p : Progress)
    → IsSound p
    → (is_some p.tools_listed ≡ false)
    → IsSound (on_initialize now message p)
unfolding on_initialize is_event_reason
on_initialize-IsSound now message p h unlisted =
    elim (Bool-cases (is_some (get "error" message) || not (is_dict_at "result" message))) [
      | inl e ↦ rw (e) (fails-IsSound p "initialize-error" refl h)
      | inr e ↦ rw (e) (record {
        asked = refl;
        ordered = λ listed. refl;
        found = λ listed. absurd (ground arith);
        named = h.named;
      })
    ]

list_tools-IsSound :
    (now : ℕ) (tools : Items) (p : Progress)
    → IsSound p
    → is_some p.initialized ≡ true
    → IsSound (list_tools now tools p)
unfolding list_tools is_event_reason
list_tools-IsSound now tools p h ready =
    elim (Bool-cases (has_expected (serena_workspace_orchest.Bridge.Handshake.tool_names tools))) [
      | inl e ↦ record {
        asked = h.asked;
        ordered = λ listed. ready;
        found = λ listed. inl e;
        named = rw (e) h.named;
      }
      | inr e ↦ record {
        asked = h.asked;
        ordered = λ listed. ready;
        found = λ listed. inr (ground arith);
        named = rw (e) refl;
      }
    ]

on_tools-IsSound :
    (now : ℕ) (message : Fields) (p : Progress) → IsSound p → IsSound (on_tools now message p)
unfolding on_tools is_event_reason
on_tools-IsSound now message p h = elim (Bool-cases (is_some p.initialized)) [
  | inr e ↦ rw (e) (fails-IsSound p "protocol-error" refl h)
  | inl e ↦ elim (Bool-cases (is_some (get "error" message))) [
    | inl f ↦ rw (e, f) (fails-IsSound p "tools-list-error" refl h)
    | inr f ↦ elim (Option-cases (tools_of message)) [
      | inl g ↦ rw (e, f, g) (fails-IsSound p "tools-list-error" refl h)
      | inr (tools, g) ↦ rw (e, f, g) (list_tools-IsSound now tools p h e)
    ]
  ]
]

on_message-IsSound :
    (now : ℕ) (message : Fields) (p : Progress)
    → IsSound p
    → is_some p.tools_listed ≡ false
    → IsSound (on_message now message p)
unfolding on_message
on_message-IsSound now message p h unlisted = elim (Bool-cases (holds_int "id" message (pos 1))) [
  | inl e ↦ rw (e) (on_initialize-IsSound now message p h unlisted)
  | inr e ↦ elim (Bool-cases (holds_int "id" message (pos 2))) [
    | inl f ↦ rw (e, f) (on_tools-IsSound now message p h)
    | inr f ↦ rw (e, f) h
  ]
]

on_line-IsSound :
    (parse : Parser) (now : ℕ) (line : List ℕ) (p : Progress)
    → IsSound p
    → is_some p.tools_listed ≡ false
    → IsSound (on_line parse now line p)
unfolding on_line is_event_reason
on_line-IsSound parse now line p h unlisted = elim (Option-cases (parse line)) [
  | inl e ↦ rw (on_line, e) (fails-IsSound p "protocol-error" refl h)
  | inr (v, e) ↦ rw (on_line, e) (on_value v)
]
  where
    on_value :
        (v : Value)
        → IsSound (elim (as_dict v) [
          | none ↦ fails p "protocol-error"
          | some message ↦ on_message now message p
        ])
    on_value (obj message) = on_message-IsSound now message p h unlisted
    on_value _ = fails-IsSound p "protocol-error" refl h

pub still_open : (p : Progress) → is_over p ≡ false → is_some p.tools_listed ≡ false
still_open p e = ground arith

on_lines-IsSound :
    (parse : Parser) (now : ℕ) (lines : List (List ℕ)) (p : Progress)
    → IsSound p
    → is_some p.tools_listed ≡ false
    → IsSound (on_lines parse now lines p)
unfolding on_lines
on_lines-IsSound parse now [] p h unlisted = h
on_lines-IsSound parse now (line ∷ lines) p h unlisted =
    let sound = on_line-IsSound parse now line p h unlisted in
    elim (Bool-cases (is_over (on_line parse now line p))) [
      | inl e ↦ rw (e) sound
      | inr e ↦ rw (e) (
          on_lines-IsSound parse now lines (on_line parse now line p) sound
            (still_open (on_line parse now line p) e))
    ]

on_stdout-IsSound :
    (parse : Parser) (now : ℕ) (bytes : List ℕ) (p : Progress)
    → IsSound p
    → is_some p.tools_listed ≡ false
    → IsSound (on_stdout parse now bytes p)
unfolding on_stdout is_event_reason
on_stdout-IsSound parse now bytes p h unlisted =
    let buffer = p.stdout_buffer ++ bytes in
    let kept : (b : List ℕ) → IsSound (record p { stdout_buffer = b }) =
      λ b. record { asked = h.asked; ordered = h.ordered; found = h.found; named = h.named } in
    elim (Bool-cases (
      ltb serena_workspace_orchest.Bridge.Handshake.buffer_limit (length buffer)
      && not (any (λ c. c == 10) buffer))) [
        | inl e ↦
            rw (e) (
              fails-IsSound (record p { stdout_buffer = buffer }) "output-limit" refl (kept buffer))
        | inr e ↦ rw (e) (
            on_lines-IsSound parse now (whole_lines buffer).0
              (record p { stdout_buffer = (whole_lines buffer).1 }) (kept (whole_lines buffer).1)
              unlisted)
      ]

on_chunk-IsSound :
    (parse : Parser) (limit : ℕ) (stream : Stream) (now : ℕ) (bytes : List ℕ) (p : Progress)
    → IsSound p
    → is_some p.tools_listed ≡ false
    → IsSound (on_chunk parse limit stream now bytes p)
unfolding on_chunk is_event_reason
on_chunk-IsSound parse limit stream now bytes p h unlisted =
    let counted : Progress = record p { total_bytes = p.total_bytes + length bytes } in
    let sound : IsSound counted = record {
      asked = h.asked;
      ordered = h.ordered;
      found = h.found;
      named = h.named;
    } in
    elim (Bool-cases (ltb limit (p.total_bytes + length bytes))) [
      | inl e ↦ rw (e) (fails-IsSound counted "output-limit" refl sound)
      | inr e ↦ rw (e) (on_stream stream)
    ]
  where
    on_stream :
        (s : Stream)
        → IsSound (elim s [
          | stderr ↦ record p { total_bytes = p.total_bytes + length bytes }
          | stdout ↦
              on_stdout parse now bytes (record p { total_bytes = p.total_bytes + length bytes })
        ])
    on_stream stderr = record {
      asked = h.asked;
      ordered = h.ordered;
      found = h.found;
      named = h.named;
    }
    on_stream stdout =
        on_stdout-IsSound parse now bytes (record p { total_bytes = p.total_bytes + length bytes })
          (record { asked = h.asked; ordered = h.ordered; found = h.found; named = h.named })
          unlisted

on_event-IsSound :
    (parse : Parser) (limit : ℕ) (event : Event) (p : Progress)
    → IsSound p
    → is_some p.tools_listed ≡ false
    → IsSound (on_event parse limit event p)
unfolding on_event
on_event-IsSound parse limit blocked p h unlisted = h
on_event-IsSound parse limit (chunk stream now []) p h unlisted = h
on_event-IsSound parse limit (chunk stream now (c ∷ cs)) p h unlisted =
    on_chunk-IsSound parse limit stream now (c ∷ cs) p h unlisted

on_events-IsSound :
    (parse : Parser) (limit : ℕ) (events : List Event) (p : Progress)
    → IsSound p
    → is_some p.tools_listed ≡ false
    → IsSound (on_events parse limit events p)
unfolding on_events
on_events-IsSound parse limit [] p h unlisted = h
on_events-IsSound parse limit (event ∷ events) p h unlisted =
    let after = on_event parse limit event p in
    let sound = on_event-IsSound parse limit event p h unlisted in
    elim (Bool-cases (is_over after)) [
      | inl e ↦ rw (e) sound
      | inr e ↦ rw (e) (on_events-IsSound parse limit events after sound (still_open after e))
    ]

stage_named :
    (p : Progress) → is_event_reason (by_stage p "initialize-timeout" "tools-list-timeout") ≡ true
unfolding is_event_reason
stage_named p = elim (Bool-cases (is_some p.initialized)) [
  | inl e ↦ rw (e) refl
  | inr e ↦ rw (e) refl
]

eof_named : (p : Progress) → is_event_reason (by_stage p "initialize-eof" "tools-list-eof") ≡ true
unfolding is_event_reason
eof_named p = elim (Bool-cases (is_some p.initialized)) [
  | inl e ↦ rw (e) refl
  | inr e ↦ rw (e) refl
]

handshake_round-IsSound :
    (parse : Parser) (limit deadline : ℕ) (round : Round) (p : Progress)
    → IsSound p
    → is_some p.tools_listed ≡ false
    → IsSound (handshake_round parse limit deadline round p)
unfolding handshake_round
handshake_round-IsSound parse limit deadline round p h unlisted =
    elim (Bool-cases (leb deadline round.now)) [
      | inl e ↦ rw (e) (fails-IsSound p _ (stage_named p) h)
      | inr e ↦ elim (Bool-cases (no_events round.events && round.exited)) [
        | inl f ↦ rw (e, f) (fails-IsSound p _ (eof_named p) h)
        | inr f ↦ rw (e, f) (on_events-IsSound parse limit round.events p h unlisted)
      ]
    ]

pub handshake_loop-IsSound :
    (parse : Parser) (limit deadline : ℕ) (rounds : List Round) (p : Progress)
    → IsSound p
    → IsSound (handshake_loop parse limit deadline rounds p)
unfolding handshake_loop
handshake_loop-IsSound parse limit deadline [] p h = h
handshake_loop-IsSound parse limit deadline (round ∷ rounds) p h = elim (Bool-cases (is_over p)) [
  | inl e ↦ rw (e) h
  | inr e ↦ rw (e) (
      handshake_loop-IsSound parse limit deadline rounds
        (handshake_round parse limit deadline round p)
        (handshake_round-IsSound parse limit deadline round p h (still_open p e)))
]
