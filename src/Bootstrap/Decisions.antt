-- ===== src/Bootstrap/Decisions.antt =====
-- bin/workspace_harbor_bootstrap.py: `_read_state`, `_write_state` and `record_decision`. What
-- the files of a repository show of a language, and the digest of its custom command, are
-- parameters.
use serena_workspace_orchest.Prelude.{
  ℕ, Bool, true, false, not, ◌&&◌, Option, none, some, List, [], ◌∷◌, String, ◌==◌, if◌then◌else◌,
}
use Prim.Native.String.{String}
use serena_workspace_orchest.Prelude.Strings.{
  codes, codes_eq, codes_member, member, is_empty, str_eq,
}
use serena_workspace_orchest.Prelude.Int.{pos}
use serena_workspace_orchest.Prelude.Results.{Result, ok, err, ◌>>=◌, ◌>>◌, raise_if, or_raise}
use serena_workspace_orchest.Json.{
  Value, int, str, obj, Fields, field, end, get, put, as_dict, as_str, holds_int, holds_str,
}

-- The state's file: it is missing, its text is no JSON, or it holds a value.
pub data Stored : Type 0 where
  missing corrupt : Stored
  holding : Value → Stored

abbrev pub supported_languages : List String
supported_languages =
    "python" ∷ "rust" ∷ "go" ∷ "java" ∷ "kotlin" ∷ "typescript" ∷ "svelte" ∷ "vue" ∷ "angular"
    ∷ "csharp" ∷ "php" ∷ "ruby" ∷ "swift" ∷ "cpp" ∷ []

unfoldable pub all_codes : List String → List (List ℕ)
all_codes [] = []
all_codes (s ∷ ss) = codes s ∷ all_codes ss

-- `decision in allowed[category]`, and false for a category that is not allowed.
unfoldable pub is_allowed : List ℕ → String → Bool
unfolding codes_eq member
is_allowed category decision =
    if codes_eq category (codes "language")
    then member decision ("enable" ∷ "ignore" ∷ [])
    else if codes_eq category (codes "tracking")
    then member decision ("shared" ∷ "local" ∷ [])
    else if codes_eq category (codes "command")
    then member decision ("approve" ∷ "reject" ∷ [])
    else false

-- The subject that each category may have.
unfoldable pub is_subject : List ℕ → List ℕ → Bool
unfolding codes_eq codes_member all_codes
is_subject category subject =
    if codes_eq category (codes "tracking")
    then codes_eq subject (codes "serena-files")
    else if codes_eq category (codes "command")
    then codes_eq subject (codes "current")
    else codes_member subject (all_codes supported_languages)

-- `key.split(":", 1)`, or `none` without a colon.
unfoldable pub split_key : List ℕ → Option (List ℕ × List ℕ)
split_key [] = none
split_key (c ∷ cs) =
    let rest = split_key cs in
    if c == b':'
    then some ([], cs)
    else elim rest [ none ↦ none | some (category, subject) ↦ some (c ∷ category, subject) ]

unfoldable pub has_only : List String → Fields → Bool
unfolding member
has_only keys end = true
has_only keys (field k v d) = member k keys && has_only keys d

unfoldable pub text_at : String → Fields → Option String
unfolding get
text_at key d = elim (get key d) [ none ↦ none | some v ↦ as_str v ]

abbrev pub is_filled : Option String → Bool
is_filled none = false
is_filled (some s) = not (is_empty s)

unfoldable pub is_valid_entry : List ℕ → List ℕ → Fields → Bool
unfolding has_only text_at is_allowed is_subject
is_valid_entry category subject d =
    has_only ("decision" ∷ "evidence" ∷ "digest" ∷ []) d
    && is_filled (text_at "evidence" d)
    && is_filled (text_at "digest" d)
    && elim (text_at "decision" d) [ none ↦ false | some decision ↦ is_allowed category decision ]
    && is_subject category subject

unfoldable pub is_valid_item : String → Value → Bool
unfolding split_key is_valid_entry
is_valid_item key item = elim (split_key (codes key)) [
  | none ↦ false
  | some (category, subject) ↦ elim (as_dict item) [
    | none ↦ false
    | some d ↦ is_valid_entry category subject d
  ]
]

unfoldable pub are_valid_items : Fields → Bool
unfolding is_valid_item
are_valid_items end = true
are_valid_items (field k v d) = is_valid_item k v && are_valid_items d

abbrev pub decisions_of : Option Value → Option Fields
decisions_of none = none
decisions_of (some v) = as_dict v

-- The decisions in a state's dictionary.
unfoldable pub read_dict : Fields → Result String Fields
unfolding has_only are_valid_items get
read_dict d = do
  raise_if (not (has_only ("version" ∷ "decisions" ∷ []) d)) "invalid bootstrap state"
  raise_if (not (holds_int "version" d (pos 1))) "invalid bootstrap state"
  decisions ← or_raise (decisions_of (get "decisions" d)) "invalid bootstrap state"
  raise_if (not (are_valid_items decisions)) "invalid bootstrap decision"
  ok decisions

-- `_read_state(path)["decisions"]`
unfoldable pub read_state : Stored → Result String Fields
unfolding read_dict
read_state missing = ok end
read_state corrupt = err "corrupt bootstrap state"
read_state (holding v) = elim (as_dict v) [
  | none ↦ err "invalid bootstrap state"
  | some d ↦ read_dict d
]

-- `_write_state`, of a state with the decisions
unfoldable pub write_state : Fields → Stored
write_state decisions =
    holding (obj (field "version" (int (pos 1)) (field "decisions" (obj decisions) end)))

-- `a + b`
unfoldable pub join : String → String → String
join String.[] b = b
join (String.◌∷◌ c a) b = String.◌∷◌ c (join a b)

unfoldable pub decision_key : String → String → String
unfolding join
decision_key category subject = join category (join ":" subject)

-- What the walk over a repository finds: sources of a language, and its project files.
pub record Repository : Type 0 where
  pub has_source : String → Bool
  pub is_confirmed : String → Bool
  pub command_digest : Option String

-- `language_evidence`
unfoldable pub language_evidence : Repository → String → String
language_evidence repository language =
    if repository.has_source language
    then (if repository.is_confirmed language then "confirmed" else "source-only")
    else "absent"

-- `_decision_subject`
unfoldable pub decision_subject : Repository → String → String → Result String String
unfolding member language_evidence
decision_subject repository category subject =
    if str_eq category "language"
    then (if member subject supported_languages
        then ok (language_evidence repository subject)
        else err "unknown language")
    else if str_eq category "tracking"
    then (if str_eq subject "serena-files"
        then ok "tracking"
        else err "tracking subject must be serena-files")
    else if str_eq category "command"
    then (if str_eq subject "current"
        then or_raise repository.command_digest "no current custom command"
        else err "command subject must be current")
    else err "unknown decision category"

abbrev pub entry : String → String → Value
entry decision evidence = obj (
    field "decision" (str decision)
      (field "evidence" (str evidence) (field "digest" (str evidence) end)))

-- `record_decision`, under its lock: the file that it leaves
unfoldable pub record_decision :
    Repository
    → (category : String) (subject : String) (decision : String) → Stored
    → Result String Stored
unfolding decision_subject read_state write_state decision_key put is_allowed
record_decision repository category subject decision stored = do
  raise_if (not (is_allowed (codes category) decision)) "invalid decision"
  evidence ← decision_subject repository category subject
  decisions ← read_state stored
  ok (write_state (put (decision_key category subject) (entry decision evidence) decisions))

-- `language_decision`, on the decisions that were read
unfoldable pub language_decision : Repository → Fields → String → Option String
unfolding get text_at decision_key language_evidence
language_decision repository decisions language =
    elim (decisions_of (get (decision_key "language" language) decisions)) [
      | none ↦ none
      | some item ↦
          if holds_str "evidence" item (language_evidence repository language)
          then text_at "decision" item
          else none
    ]

-- `tracking_decision`, on the decisions that were read
unfoldable pub tracking_decision : Fields → Option String
unfolding get text_at decision_key member
tracking_decision decisions =
    elim (decisions_of (get (decision_key "tracking" "serena-files") decisions)) [
      | none ↦ none
      | some item ↦
          if not (holds_str "evidence" item "tracking")
          then none
          else elim (text_at "decision" item) [
            | none ↦ none
            | some decision ↦
                if member decision ("shared" ∷ "local" ∷ []) then some decision else none
          ]
    ]
