-- ===== src/Bridge/Handshake.antt =====
-- bin/workspace_harbor_bridge.py: the loop of `run_handshake` and what it makes of its end. Times are in
-- milliseconds, `json.loads` of a line is a parameter, and writes to the proxy succeed.
use serena_workspace_orchest.Prelude.{
  ℕ, any, ◌+◌, ◌-◌, Bool, true, false, not, ◌&&◌, ◌||◌, Option, none, some, List, [], ◌∷◌, ◌++◌,
  String, ltb, leb, ◌==◌, if◌then◌else◌, length,
}
use serena_workspace_orchest.Prelude.Strings.{member}
use serena_workspace_orchest.Prelude.Int.{ℤ, pos, int_eq}
use serena_workspace_orchest.Json.{
  Value, obj, arr, Fields, Items, nil, cons, get, as_dict, as_str, holds_int,
}

abbrev pub expected_serena_tools : List String
expected_serena_tools = "initial_instructions" ∷ "activate_project" ∷ "get_symbols_overview" ∷ []

abbrev pub Parser : Type 0
Parser = List ℕ → Option Value

-- The variables of the loop; `requested` says that `_post_initialize_requests` was written, and
-- `told` counts the events of a successful stage `initialize` that were appended to the journal.
pub record Progress : Type 0 where
  pub initialized : Option ℕ
  pub told : ℕ
  pub requested : Bool
  pub tools_listed : Option ℕ
  pub tool_count : ℕ
  pub expected_found : Bool
  pub total_bytes : ℕ
  pub stdout_buffer : List ℕ
  pub failure : Option String

abbrev pub beginning : Progress
beginning = record {
  initialized = none;
  told = 0;
  requested = false;
  tools_listed = none;
  tool_count = 0;
  expected_found = false;
  total_bytes = 0;
  stdout_buffer = [];
  failure = none;
}

abbrev pub is_some {ℓ} : {A : Type ℓ} → Option A → Bool
is_some none = false
is_some (some a) = true

abbrev pub fails : Progress → String → Progress
fails p reason = record p { failure = some reason }

-- `failure is not None or tools_listed is not None`
abbrev pub is_over : Progress → Bool
is_over p = is_some p.failure || is_some p.tools_listed

-- The set of the tools' names, as a list without repetition.
unfoldable pub tool_name : Value → Option String
unfolding get
tool_name item = elim (as_dict item) [
  | none ↦ none
  | some d ↦ elim (get "name" d) [ none ↦ none | some v ↦ as_str v ]
]

unfoldable pub tool_names : Items → List String
unfolding tool_name member
tool_names nil = []
tool_names (cons item items) =
    let rest = tool_names items in
    elim (tool_name item) [
      | none ↦ rest
      | some name ↦ if member name rest then rest else name ∷ rest
    ]

-- `bool(names & EXPECTED_SERENA_TOOLS)`
unfoldable pub has_expected : List String → Bool
unfolding member
has_expected names = any (λ name. member name expected_serena_tools) names

unfoldable pub is_dict_at : String → Fields → Bool
unfolding get
is_dict_at key message = elim (get key message) [ none ↦ false | some v ↦ is_some (as_dict v) ]

-- The list of tools in a message's result.
unfoldable pub tools_of : Fields → Option Items
unfolding get
tools_of message = elim (get "result" message) [
  | some (obj payload) ↦ elim (get "tools" payload) [ some (arr tools) ↦ some tools | _ ↦ none ]
  | _ ↦ none
]

unfoldable pub on_initialize : ℕ → Fields → Progress → Progress
unfolding is_dict_at get
on_initialize now message p =
    if is_some (get "error" message) || not (is_dict_at "result" message)
    then fails p "initialize-error"
    else record p { initialized = some now; told = p.told + 1; requested = true }

unfoldable pub list_tools : ℕ → Items → Progress → Progress
unfolding tool_names has_expected
list_tools now tools p =
    let names = tool_names tools in
    record p {
      tool_count = length names;
      expected_found = has_expected names;
      tools_listed = some now;
      failure = if has_expected names then p.failure else some "expected-tool-missing";
    }

unfoldable pub on_tools : ℕ → Fields → Progress → Progress
unfolding tools_of list_tools get
on_tools now message p =
    if not (is_some p.initialized)
    then fails p "protocol-error"
    else if is_some (get "error" message)
    then fails p "tools-list-error"
    else elim (tools_of message) [
      | none ↦ fails p "tools-list-error"
      | some tools ↦ list_tools now tools p
    ]

unfoldable pub on_message : ℕ → Fields → Progress → Progress
unfolding on_initialize on_tools get
on_message now message p =
    if holds_int "id" message (pos 1)
    then on_initialize now message p
    else if holds_int "id" message (pos 2)
    then on_tools now message p
    else p

unfoldable pub on_line : Parser → ℕ → List ℕ → Progress → Progress
unfolding on_message
on_line parse now line p = elim (parse line) [
  | none ↦ fails p "protocol-error"
  | some v ↦ elim (as_dict v) [
    | none ↦ fails p "protocol-error"
    | some message ↦ on_message now message p
  ]
]

-- `partition(b"\n")` as long as there is a newline: the whole lines, and the rest.
unfoldable pub whole_lines : List ℕ → List (List ℕ) × List ℕ
whole_lines [] = ([], [])
whole_lines (c ∷ cs) =
    let (lines, rest) = whole_lines cs in
    if c == 10
    then ([] ∷ lines, rest)
    else elim lines [ [] ↦ ([], c ∷ rest) | line ∷ others ↦ ((c ∷ line) ∷ others, rest) ]

-- The lines up to the one that ends the loop.
unfoldable pub on_lines : Parser → ℕ → List (List ℕ) → Progress → Progress
unfolding on_line
on_lines parse now [] p = p
on_lines parse now (line ∷ lines) p =
    let p' = on_line parse now line p in
    let rest = on_lines parse now lines p' in if is_over p' then p' else rest

pub data Stream : Type 0 where
  stdout stderr : Stream

-- One event of the selector: the read raised `BlockingIOError`, or gave a chunk at a time. The
-- empty chunk is the end of the stream.
pub data Event : Type 0 where
  blocked : Event
  chunk : Stream → (now : ℕ) → List ℕ → Event

abbrev pub buffer_limit : ℕ
buffer_limit = 1_048_576

unfoldable pub on_stdout : Parser → ℕ → List ℕ → Progress → Progress
unfolding whole_lines on_lines
on_stdout parse now bytes p =
    let buffer = p.stdout_buffer ++ bytes in
    let (lines, rest) = whole_lines buffer in
    if ltb buffer_limit (length buffer) && not (any (λ c. c == 10) buffer)
    then fails (record p { stdout_buffer = buffer }) "output-limit"
    else on_lines parse now lines (record p { stdout_buffer = rest })

unfoldable pub on_chunk : Parser → ℕ → Stream → ℕ → List ℕ → Progress → Progress
unfolding on_stdout
on_chunk parse limit stream now bytes p =
    let counted = record p { total_bytes = p.total_bytes + length bytes } in
    if ltb limit counted.total_bytes
    then fails counted "output-limit"
    else elim stream [ stderr ↦ counted | stdout ↦ on_stdout parse now bytes counted ]

unfoldable pub on_event : Parser → ℕ → Event → Progress → Progress
unfolding on_chunk
on_event parse limit blocked p = p
on_event parse limit (chunk stream now []) p = p
on_event parse limit (chunk stream now (c ∷ cs)) p = on_chunk parse limit stream now (c ∷ cs) p

unfoldable pub on_events : Parser → ℕ → List Event → Progress → Progress
unfolding on_event
on_events parse limit [] p = p
on_events parse limit (event ∷ events) p =
    let p' = on_event parse limit event p in
    let rest = on_events parse limit events p' in if is_over p' then p' else rest

-- One round of the loop: the time at its deadline's test, what the selector gives, and whether the
-- proxy has ended.
pub record Round : Type 0 where
  pub now : ℕ
  pub events : List Event
  pub exited : Bool

abbrev pub by_stage : Progress → String → String → String
by_stage p before later = if is_some p.initialized then later else before

abbrev pub no_events : List Event → Bool
no_events [] = true
no_events (event ∷ events) = false

unfoldable pub handshake_round : Parser → ℕ → ℕ → Round → Progress → Progress
unfolding on_events
handshake_round parse limit deadline round p =
    if leb deadline round.now
    then fails p (by_stage p "initialize-timeout" "tools-list-timeout")
    else if no_events round.events && round.exited
    then fails p (by_stage p "initialize-eof" "tools-list-eof")
    else on_events parse limit round.events p

-- The loop, on the rounds that it makes.
unfoldable pub handshake_loop : Parser → ℕ → ℕ → List Round → Progress → Progress
unfolding handshake_round
handshake_loop parse limit deadline [] p = p
handshake_loop parse limit deadline (round ∷ rounds) p =
    let rest =
      handshake_loop parse limit deadline rounds (handshake_round parse limit deadline round p) in
    if is_over p then p else rest

pub record HandshakeResult : Type 0 where
  pub status : String
  pub reason : String
  pub initialize_ms : Option ℕ
  pub tools_list_ms : Option ℕ
  pub tool_count : ℕ
  pub expected_tool_found : Bool
  pub proxy_exit : Option ℤ

abbrev pub elapsed : Option ℕ → Option ℕ → Option ℕ
elapsed (some from) (some to) = some (to - from)
elapsed _ _ = none

-- `_result`
unfoldable pub result : ℕ → Option ℤ → Progress → String → String → HandshakeResult
result started exit p status reason = record {
  status = status;
  reason = reason;
  initialize_ms = elapsed (some started) p.initialized;
  tools_list_ms = elapsed p.initialized p.tools_listed;
  tool_count = p.tool_count;
  expected_tool_found = p.expected_found;
  proxy_exit = exit;
}

-- `exit_code not in {0, None}`
abbrev pub is_bad_exit : Option ℤ → Bool
is_bad_exit none = false
is_bad_exit (some code) = not (int_eq code (pos 0))

-- What follows the loop; `exit` is the proxy's exit code after it was waited for or stopped.
unfoldable pub conclude : ℕ → Option ℤ → Progress → HandshakeResult
unfolding result
conclude started exit p = elim p.failure [
  | some failure ↦ result started exit p "failed" failure
  | none ↦
      if is_bad_exit exit
      then result started exit p "failed" "proxy-exit-nonzero"
      else result started exit p "healthy" "handshake-complete"
]
