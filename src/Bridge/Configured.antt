-- ===== src/Bridge/Configured.antt =====
-- What a healthy configuration has (bin/workspace_harbor_bridge.py).
use serena_workspace_orchest.Prelude.{
  ℕ, ◌≡◌, ap, refl, [], ◌∷◌, Occurs, Option, none, length, ◌==◌, ◌++◌, suc, if◌then◌else◌, false,
  ◌&&◌, Bool, inl, inr, true, some, List, arith, Bool-cases, Option-cases, ◌∙◌,
}
use serena_workspace_orchest.Prelude.Strings.{codes, codes_eq, codes_member, split_lines, eq_iff}
use serena_workspace_orchest.Prelude.Shell.{shell_split}
use serena_workspace_orchest.Prelude.Int.{pos, int_eq, int_eq_iff}
use serena_workspace_orchest.Prelude.Reflect.{codes_eq_lem, member-Occurs}
use serena_workspace_orchest.Bridge.Keys.{set_enabled, set_transport, set_command, set_args}
use serena_workspace_orchest.Bridge.Lines.{LastValue, read_fields-LastValue}
use serena_workspace_orchest.Bridge.Config.{
  Fields, no_fields, split_colon, set_field, read_fields, are_arguments, is_subset, required,
  check_values, check_fields, parse_codex_mcp_get, CliRun, missing, timed_out, failed, completed,
  check_codex_serena_config,
}

-- The words of the arguments: `connect` and three more, among which each required option is.
pub record HasOptions (words : List (List ℕ)) : Type 0 where
  pub first : List ℕ
  pub second : List ℕ
  pub third : List ℕ
  pub are_words : words ≡ codes "connect" ∷ first ∷ second ∷ third ∷ []
  pub context : Occurs (codes "--context=codex") (first ∷ second ∷ third ∷ [])
  pub backend : Occurs (codes "--backend=JetBrains") (first ∷ second ∷ third ∷ [])
  pub mode : Occurs (codes "--add-mode=query-projects") (first ∷ second ∷ third ∷ [])

-- The last lines of the four keys, and the words of the arguments.
pub record IsConfigured (lines : List (List ℕ)) (expected_broker : List ℕ) : Type 0 where
  pub enabled : LastValue (codes "enabled") (codes "true") lines
  pub transport : LastValue (codes "transport") (codes "stdio") lines
  pub command : LastValue (codes "command") expected_broker lines
  pub args : List ℕ
  pub has_args : LastValue (codes "args") args lines
  pub words : List (List ℕ)
  pub split : shell_split args ≡ some words
  pub options : HasOptions words

both : (a b : Bool) → (a && b) ≡ true → (a ≡ true) × (b ≡ true)
both true b h = (refl, h)
both false b h = cc

too_long : (n : ℕ) (p q r : Bool) → ¬ ((suc (suc (suc (suc (suc n)))) == 4 && p && q && r) ≡ true)
too_long n p q r h = ground arith

are_arguments-HasOptions : (words : List (List ℕ)) → are_arguments words ≡ true → HasOptions words
unfolding are_arguments
are_arguments-HasOptions (w ∷ a ∷ b ∷ c ∷ []) h =
    let options = a ∷ b ∷ c ∷ [] in
    let has = λ (option : List ℕ). codes_member option options in
    let (front, needed) =
      both (codes_eq w (codes "connect") && is_subset options required) (is_subset required options)
        h in
    let (connects, known) =
      both (codes_eq w (codes "connect")) (is_subset options required) front in
    let (context, others) =
      both (has (codes "--context=codex"))
        (has (codes "--backend=JetBrains") && (has (codes "--add-mode=query-projects") && true))
        needed in
    let (backend, last) =
      both (has (codes "--backend=JetBrains")) (has (codes "--add-mode=query-projects") && true)
        others in
    record {
      first = a;
      second = b;
      third = c;
      are_words = ap (λ x. x ∷ options) (codes_eq_lem w (codes "connect") connects);
      context = member-Occurs (codes "--context=codex") options context;
      backend = member-Occurs (codes "--backend=JetBrains") options backend;
      mode =
          member-Occurs (codes "--add-mode=query-projects") options
            (both (has (codes "--add-mode=query-projects")) true last).0;
    }
are_arguments-HasOptions [] h = cc
are_arguments-HasOptions (w ∷ []) h = cc
are_arguments-HasOptions (w ∷ a ∷ []) h = cc
are_arguments-HasOptions (w ∷ a ∷ b ∷ []) h = cc
are_arguments-HasOptions (w ∷ a ∷ b ∷ c ∷ d ∷ rest) h = absurd (
    too_long (length rest) (codes_eq w (codes "connect"))
      (is_subset (a ∷ b ∷ c ∷ d ∷ rest) required) (is_subset required (a ∷ b ∷ c ∷ d ∷ rest)) h)

-- The checks on the four values, if they pass.
record Passed (expected_broker enabled transport command args : List ℕ) : Type 0 where
  is_enabled : codes_eq enabled (codes "true") ≡ true
  is_stdio : codes_eq transport (codes "stdio") ≡ true
  is_broker : codes_eq command expected_broker ≡ true
  words : List (List ℕ)
  split : shell_split args ≡ some words
  required : are_arguments words ≡ true

check_values-Passed :
    (expected_broker enabled transport command args : List ℕ)
    → (check_values expected_broker enabled transport command args).status ≡ "healthy"
    → Passed expected_broker enabled transport command args
unfolding check_values
check_values-Passed expected_broker enabled transport command args h =
    elim (Bool-cases (codes_eq enabled (codes "true"))) [
      | inr a ↦ absurd (ground (arith, a, eq_iff "invalid" "healthy"))
      | inl a ↦ elim (Bool-cases (codes_eq transport (codes "stdio"))) [
        | inr b ↦ absurd (ground (arith, b, eq_iff "invalid" "healthy"))
        | inl b ↦ elim (Bool-cases (codes_eq command expected_broker)) [
          | inr c ↦ absurd (ground (arith, c, eq_iff "invalid" "healthy"))
          | inl c ↦ elim (Option-cases (shell_split args)) [
            | inl d ↦ absurd (ground (arith, d, eq_iff "invalid" "healthy"))
            | inr (words, d) ↦ elim (Bool-cases (are_arguments words)) [
              | inr e ↦ absurd (ground (arith, e, eq_iff "invalid" "healthy"))
              | inl e ↦ record {
                is_enabled = a;
                is_stdio = b;
                is_broker = c;
                words = words;
                split = d;
                required = e;
              }
            ]
          ]
        ]
      ]
    ]

-- The values of the dictionary, if they pass.
record HasValues (fields : Fields) (expected_broker : List ℕ) : Type 0 where
  enabled : fields.enabled ≡ some (codes "true")
  transport : fields.transport ≡ some (codes "stdio")
  command : fields.command ≡ some expected_broker
  args : List ℕ
  has_args : fields.args ≡ some args
  words : List (List ℕ)
  split : shell_split args ≡ some words
  required : are_arguments words ≡ true

check_fields-HasValues :
    (expected_broker : List ℕ) (fields : Fields)
    → (check_fields expected_broker fields).status ≡ "healthy"
    → HasValues fields expected_broker
unfolding check_fields
check_fields-HasValues expected_broker fields h = elim (Option-cases fields.enabled) [
  | inl a ↦ absurd (ground (arith, eq_iff "invalid" "healthy"))
  | inr (enabled, a) ↦ elim (Option-cases fields.transport) [
    | inl b ↦ absurd (ground (arith, eq_iff "invalid" "healthy"))
    | inr (transport, b) ↦ elim (Option-cases fields.command) [
      | inl c ↦ absurd (ground (arith, eq_iff "invalid" "healthy"))
      | inr (command, c) ↦ elim (Option-cases fields.args) [
        | inl d ↦ absurd (ground (arith, eq_iff "invalid" "healthy"))
        | inr (args, d) ↦
            let passed =
              check_values-Passed expected_broker enabled transport command args
                (rw (a, b, c, d) at h) in
            record {
              enabled = a ∙ ap some (codes_eq_lem enabled (codes "true") passed.is_enabled);
              transport = b ∙ ap some (codes_eq_lem transport (codes "stdio") passed.is_stdio);
              command = c ∙ ap some (codes_eq_lem command expected_broker passed.is_broker);
              args = args;
              has_args = d;
              words = passed.words;
              split = passed.split;
              required = passed.required;
            }
      ]
    ]
  ]
]

-- A value that is read is that of the last line with its key.
from_lines :
    (key : List ℕ) (view : Fields → Option (List ℕ))
    → ((text : List ℕ) → split_colon (key ++ b':' ∷ text) ≡ some (key, text))
    → ((k v : List ℕ) (fields : Fields)
        → view (set_field k v fields) ≡ (if codes_eq k key then some v else view fields))
    → view no_fields ≡ none
    → (lines : List (List ℕ)) (value : List ℕ) → view (read_fields lines no_fields) ≡ some value
    → LastValue key value lines
from_lines key view colonless set empty lines value h =
    elim (read_fields-LastValue key view colonless set lines no_fields value h) [
      | inl found ↦ found
      | inr (others, before) ↦ absurd (cc (empty, before))
    ]

healthy_lines-IsConfigured :
    (broker : List ℕ) (lines : List (List ℕ))
    → HasValues (read_fields lines no_fields) broker
    → IsConfigured lines broker
unfolding split_colon
healthy_lines-IsConfigured broker lines h = record {
  enabled =
      from_lines (codes "enabled") (λ f. f.enabled) (λ text. refl) set_enabled refl lines
        (codes "true") h.enabled;
  transport =
      from_lines (codes "transport") (λ f. f.transport) (λ text. refl) set_transport refl lines
        (codes "stdio") h.transport;
  command =
      from_lines (codes "command") (λ f. f.command) (λ text. refl) set_command refl lines broker
        h.command;
  args = h.args;
  has_args =
      from_lines (codes "args") (λ f. f.args) (λ text. refl) set_args refl lines h.args h.has_args;
  words = h.words;
  split = h.split;
  options = are_arguments-HasOptions h.words h.required;
}

-- The configuration is reported healthy only if the command ended with code 0, and the last line of
-- what it printed with each of the keys says that it is enabled, over stdio, with the expected broker
-- as its command, and with `connect` and three options as its arguments, the required ones.
pub config-IsConfigured :
    (run : CliRun) (broker : List ℕ)
    → (check_codex_serena_config run broker).status ≡ "healthy"
    → (stdout : List ℕ) × (run ≡ completed (pos 0) stdout)
      × IsConfigured (split_lines stdout) broker
unfolding check_codex_serena_config parse_codex_mcp_get
config-IsConfigured missing broker h = absurd (ground (arith, eq_iff "unavailable" "healthy"))
config-IsConfigured timed_out broker h = absurd (ground (arith, eq_iff "unavailable" "healthy"))
config-IsConfigured failed broker h = absurd (ground (arith, eq_iff "unavailable" "healthy"))
config-IsConfigured (completed returncode stdout) broker h =
    elim (Bool-cases (int_eq returncode (pos 0))) [
      | inr e ↦ absurd (ground (arith, e, eq_iff "invalid" "healthy"))
      | inl e ↦
          let zero_code : returncode ≡ pos 0 = ground (arith, int_eq_iff returncode (pos 0)) in
          (
            stdout,
            ap (λ code. completed code stdout) zero_code,
            healthy_lines-IsConfigured broker (split_lines stdout) (
                check_fields-HasValues broker (read_fields (split_lines stdout) no_fields)
                  (rw e at h)),
          )
    ]
