-- ===== src/Bridge/Config.antt =====
-- bin/workspace_harbor_bridge.py: the check of the configuration, `parse_codex_mcp_get` and
-- `check_codex_serena_config`, from what `codex mcp get serena` prints.
use serena_workspace_orchest.Prelude.{
  ℕ, all, Bool, false, not, ◌&&◌, Option, none, some, List, [], ◌∷◌, String, ◌==◌, if◌then◌else◌,
  length,
}
use serena_workspace_orchest.Prelude.Strings.{codes, strip, split_lines, codes_eq, codes_member}
use serena_workspace_orchest.Prelude.Shell.{shell_split}
use serena_workspace_orchest.Prelude.Int.{ℤ, pos, int_eq}

pub record ConfigCheck : Type 0 where
  pub status : String
  pub reason : String
  pub command : Option (List ℕ)

abbrev pub check : String → String → Option (List ℕ) → ConfigCheck
check status reason command = record { status = status; reason = reason; command = command }

-- The dictionary at the keys that are taken.
pub record Fields : Type 0 where
  pub enabled : Option (List ℕ)
  pub transport : Option (List ℕ)
  pub command : Option (List ℕ)
  pub args : Option (List ℕ)

abbrev pub no_fields : Fields
no_fields = record { enabled = none; transport = none; command = none; args = none }

-- `stripped.split(":", 1)`, or `none` without a colon.
unfoldable pub split_colon : List ℕ → Option (List ℕ × List ℕ)
split_colon [] = none
split_colon (c ∷ cs) =
    let rest = split_colon cs in
    if c == b':'
    then some ([], cs)
    else elim rest [ none ↦ none | some (key, value) ↦ some (c ∷ key, value) ]

unfoldable pub set_field : List ℕ → List ℕ → Fields → Fields
unfolding codes_eq
set_field key value fields =
    if codes_eq key (codes "enabled")
    then record fields { enabled = some value }
    else if codes_eq key (codes "transport")
    then record fields { transport = some value }
    else if codes_eq key (codes "command")
    then record fields { command = some value }
    else if codes_eq key (codes "args")
    then record fields { args = some value }
    else fields

unfoldable pub read_fields : List (List ℕ) → Fields → Fields
unfolding split_colon set_field strip
read_fields [] fields = fields
read_fields (line ∷ lines) fields = elim (split_colon (strip line)) [
  | none ↦ read_fields lines fields
  | some (key, value) ↦ read_fields lines (set_field key (strip value) fields)
]

abbrev pub required : List (List ℕ)
required =
    codes "--context=codex" ∷ codes "--backend=JetBrains" ∷ codes "--add-mode=query-projects" ∷ []

abbrev pub is_subset : List (List ℕ) → List (List ℕ) → Bool
is_subset xs ys = all (λ x. codes_member x ys) xs

-- Four words: `connect`, and the required options in any order.
unfoldable pub are_arguments : List (List ℕ) → Bool
unfolding codes_member codes_eq
are_arguments [] = false
are_arguments (first ∷ options) =
    length (first ∷ options) == 4
    && codes_eq first (codes "connect")
    && is_subset options required
    && is_subset required options

unfoldable pub check_values :
    List ℕ
    → (enabled : List ℕ) (transport : List ℕ) (command : List ℕ) (args : List ℕ) → ConfigCheck
unfolding shell_split are_arguments codes_eq
check_values expected_broker enabled transport command args =
    if not (codes_eq enabled (codes "true"))
    then check "invalid" "disabled" (some command)
    else if not (codes_eq transport (codes "stdio"))
    then check "invalid" "wrong-transport" (some command)
    else if not (codes_eq command expected_broker)
    then check "invalid" "wrong-command" (some command)
    else elim (shell_split args) [
      | none ↦ check "invalid" "wrong-args" (some command)
      | some arguments ↦
          if are_arguments arguments
          then check "healthy" "configured" (some command)
          else check "invalid" "wrong-args" (some command)
    ]

unfoldable pub check_fields : List ℕ → Fields → ConfigCheck
unfolding check_values
check_fields expected_broker fields = elim fields.enabled [
  | none ↦ check "invalid" "missing-fields" fields.command
  | some enabled ↦ elim fields.transport [
    | none ↦ check "invalid" "missing-fields" fields.command
    | some transport ↦ elim fields.command [
      | none ↦ check "invalid" "missing-fields" none
      | some command ↦ elim fields.args [
        | none ↦ check "invalid" "missing-fields" (some command)
        | some args ↦ check_values expected_broker enabled transport command args
      ]
    ]
  ]
]

unfoldable pub parse_codex_mcp_get : List ℕ → List ℕ → ConfigCheck
unfolding check_fields read_fields split_lines
parse_codex_mcp_get output expected_broker =
    check_fields expected_broker (read_fields (split_lines output) no_fields)

-- The run of the Codex command: it cannot be executed, it took too long, it failed to start, or it
-- completed.
pub data CliRun : Type 0 where
  missing timed_out failed : CliRun
  completed : (returncode : ℤ) (stdout : List ℕ) → CliRun

unfoldable pub check_codex_serena_config : CliRun → List ℕ → ConfigCheck
unfolding parse_codex_mcp_get
check_codex_serena_config missing broker = check "unavailable" "codex-cli-missing" none
check_codex_serena_config timed_out broker = check "unavailable" "codex-cli-timeout" none
check_codex_serena_config failed broker = check "unavailable" "codex-cli-failed" none
check_codex_serena_config (completed returncode stdout) broker =
    if not (int_eq returncode (pos 0))
    then check "invalid" "serena-config-missing" none
    else parse_codex_mcp_get stdout broker
