-- ===== src/Bootstrap/Plans/Sources.antt =====
-- bin/workspace_harbor_bootstrap.py: `_contains_source` and the rules of `language_evidence`.
use serena_workspace_orchest.Prelude.{
  ℕ, any, ◌+◌, Bool, false, not, ◌&&◌, ◌||◌, Option, none, some, List, [], ◌∷◌, ◌++◌, String, leb,
  ◌==◌, if◌then◌else◌, length,
}
use serena_workspace_orchest.Prelude.Strings.{codes, codes_eq, codes_member, has_prefix, str_eq}
use serena_workspace_orchest.Bootstrap.Plans.Paths.{FilePath}
use serena_workspace_orchest.Bootstrap.Decisions.{all_codes, Repository}
use serena_workspace_orchest.Bootstrap.Plans.Data.{Tree, node, Directories, sub, leaf, Files}

-- `PRUNED_DIRECTORIES`
abbrev pub pruned_directories : List String
pruned_directories =
    ".git" ∷ ".idea" ∷ ".serena" ∷ ".venv" ∷ "venv" ∷ "node_modules" ∷ "target" ∷ "build" ∷ "dist"
    ∷ "vendor" ∷ "__pycache__" ∷ ".pytest_cache" ∷ ".mypy_cache" ∷ ".ruff_cache" ∷ []

-- The last dot of a name and what follows it; a name without a dot has none.
unfoldable pub last_dot : List ℕ → Option (List ℕ)
last_dot [] = none
last_dot (c ∷ cs) =
    let later = last_dot cs in
    elim later [ some s ↦ some s | none ↦ if c == b'.' then some (c ∷ cs) else none ]

-- `Path(name).suffix`: a dot in front of a name or at its end starts no suffix.
unfoldable pub suffix : List ℕ → List ℕ
unfolding last_dot
suffix [] = []
suffix (c ∷ cs) = elim (last_dot cs) [ none ↦ [] | some s ↦ if length s == 1 then [] else s ]

-- `lower`, as far as an ASCII letter can come of it: the sign for kelvin is the other character.
abbrev pub lower : ℕ → ℕ
lower c = if leb b'A' c && leb c b'Z' then c + 32 else if c == 0x212a then b'k' else c

unfoldable pub lowercase : List ℕ → List ℕ
lowercase [] = []
lowercase (c ∷ cs) = lower c ∷ lowercase cs

unfoldable pub has_suffix : List String → List ℕ → Bool
unfolding suffix lowercase codes_member all_codes
has_suffix suffixes name = codes_member (lowercase (suffix name)) (all_codes suffixes)

-- `_contains_source`
unfoldable mutual
  unfolding has_suffix codes_member all_codes

  pub contains_source : List String → Tree → Bool
  contains_source suffixes (node files directories) =
      any (has_suffix suffixes) files || any_directory suffixes directories

  pub any_directory : List String → Directories → Bool
  any_directory suffixes leaf = false
  any_directory suffixes (sub name is_symlink tree rest) =
      (not (codes_member name (all_codes pruned_directories))
        && not is_symlink
        && contains_source suffixes tree)
      || any_directory suffixes rest

-- The suffixes of a language's sources.
unfoldable pub suffixes_of : String → List String
suffixes_of language =
    if str_eq language "python"
    then ".py" ∷ ".pyi" ∷ []
    else if str_eq language "rust"
    then ".rs" ∷ []
    else if str_eq language "go"
    then ".go" ∷ []
    else if str_eq language "java"
    then ".java" ∷ []
    else if str_eq language "kotlin"
    then ".kt" ∷ ".kts" ∷ []
    else if str_eq language "typescript"
    then ".ts" ∷ ".tsx" ∷ ".js" ∷ ".jsx" ∷ []
    else if str_eq language "svelte"
    then ".svelte" ∷ []
    else if str_eq language "vue"
    then ".vue" ∷ []
    else if str_eq language "angular"
    then ".ts" ∷ []
    else if str_eq language "csharp"
    then ".cs" ∷ []
    else if str_eq language "php"
    then ".php" ∷ []
    else if str_eq language "ruby"
    then ".rb" ∷ []
    else if str_eq language "swift"
    then ".swift" ∷ []
    else if str_eq language "cpp"
    then ".c" ∷ ".cc" ∷ ".cpp" ∷ ".h" ∷ ".hpp" ∷ []
    else []

unfoldable pub directory_names : Directories → List (List ℕ)
directory_names leaf = []
directory_names (sub name is_symlink tree rest) = name ∷ directory_names rest

-- The names of the root's entries, files and directories.
unfoldable pub entry_names : Tree → List (List ℕ)
unfolding directory_names
entry_names (node files directories) = files ++ directory_names directories

unfoldable pub has_any : List String → List (List ℕ) → Bool
unfolding codes_member all_codes
has_any [] names = false
has_any (s ∷ ss) names = codes_member (codes s) names || has_any ss names

-- `root.glob("*.csproj")` yields a name.
unfoldable pub is_csproj : List ℕ → Bool
unfolding has_prefix codes_eq
is_csproj [] = false
is_csproj (c ∷ cs) = codes_eq (c ∷ cs) (codes ".csproj") || is_csproj cs

abbrev pub javascript_locks : List String
javascript_locks =
    "package-lock.json" ∷ "pnpm-lock.yaml" ∷ "yarn.lock" ∷ "bun.lock" ∷ "bun.lockb" ∷ []

abbrev pub jvm_builds : List String
jvm_builds = "build.gradle" ∷ "build.gradle.kts" ∷ "pom.xml" ∷ []

-- The project files that confirm a language.
unfoldable pub is_confirmed_by : List (List ℕ) → String → Bool
unfolding has_any is_csproj
is_confirmed_by names language =
    let has_package = has_any ("package.json" ∷ []) names in
    if str_eq language "python"
    then has_any ("pyproject.toml" ∷ []) names && has_any ("uv.lock" ∷ "poetry.lock" ∷ []) names
    else if str_eq language "rust"
    then has_any ("Cargo.toml" ∷ []) names && has_any ("Cargo.lock" ∷ []) names
    else if str_eq language "go"
    then has_any ("go.mod" ∷ []) names && has_any ("go.sum" ∷ []) names
    else if str_eq language "java" || str_eq language "kotlin"
    then has_any jvm_builds names
    else if str_eq language "typescript" || str_eq language "svelte" || str_eq language "vue"
    then has_package && has_any javascript_locks names
    else if str_eq language "angular"
    then has_any ("angular.json" ∷ []) names && has_package
    else if str_eq language "csharp"
    then any is_csproj names
    else if str_eq language "php"
    then has_any ("composer.lock" ∷ []) names
    else if str_eq language "ruby"
    then has_any ("Gemfile.lock" ∷ []) names
    else if str_eq language "swift"
    then has_any ("Package.resolved" ∷ []) names
    else if str_eq language "cpp"
    then has_any ("CMakeLists.txt" ∷ "meson.build" ∷ "Makefile" ∷ []) names
    else false

-- What `language_evidence` and `_decision_subject` find at a root.
unfoldable pub repository_at : Files → FilePath → Option String → Repository
unfolding contains_source suffixes_of entry_names is_confirmed_by
repository_at files root digest = record {
  has_source = λ language. contains_source (suffixes_of language) (files.tree root);
  is_confirmed = λ language. is_confirmed_by (entry_names (files.tree root)) language;
  command_digest = digest;
}
