-- ===== src/Ide/Version.antt =====
-- bin/workspace_harbor_ide.py: the version in the application's plist, and the paths that go
-- with it. A digit is an ASCII digit.
use serena_workspace_orchest.Prelude.{
  ℕ, all, Bool, true, false, ◌&&◌, Option, none, some, List, [], ◌∷◌, ◌++◌, String, leb, ◌==◌,
  if◌then◌else◌, length,
}
use serena_workspace_orchest.Prelude.Strings.{codes}
use serena_workspace_orchest.Prelude.Results.{Result, ok, err, ◌>>=◌, or_raise}

abbrev pub is_digit : ℕ → Bool
is_digit c = leb b'0' c && leb c b'9'

abbrev pub non_empty : List ℕ → Bool
non_empty [] = false
non_empty (c ∷ cs) = true

unfoldable pub is_digits : List ℕ → Bool
is_digits s = non_empty s && all (λ c. is_digit c) s

-- The part up to the first dot, and the parts behind it.
unfoldable pub split_dots : List ℕ → List ℕ × List (List ℕ)
split_dots [] = ([], [])
split_dots (c ∷ cs) =
    let (first, rest) = split_dots cs in if c == b'.' then ([], first ∷ rest) else (c ∷ first, rest)

unfoldable pub release_of : List ℕ → List (List ℕ) → Option (List ℕ × List ℕ)
unfolding is_digits
release_of year [] = none
release_of year (minor ∷ rest) =
    if length year == 4 && is_digits year && is_digits minor && all (λ s. is_digits s) rest
    then some (year, minor)
    else none

-- `VERSION_PATTERN.fullmatch(version)`, with its two groups.
unfoldable pub release : List ℕ → Option (List ℕ × List ℕ)
unfolding split_dots release_of
release version = let (year, rest) = split_dots version in release_of year rest

-- What is read of the plist: it cannot be read, or its version is no text or a text.
pub data Plist : Type 0 where
  unreadable : Plist
  version_is : Option (List ℕ) → Plist

unfoldable pub is_release : List ℕ → Bool
unfolding release
is_release version = elim (release version) [ none ↦ false | some r ↦ true ]

unfoldable pub app_version : Plist → Result String (List ℕ)
unfolding is_release
app_version unreadable = err "cannot identify configured IntelliJ application"
app_version (version_is none) = err "invalid IntelliJ version"
app_version (version_is (some version)) =
    if is_release version then ok version else err "invalid IntelliJ version"

-- A path: the parts of its text.
abbrev pub TextPath : Type 0
TextPath = List (List ℕ)

-- `configured_app`, with the variable `INTELLIJ_APP_PATH`
unfoldable pub configured_app :
    (expanduser : List ℕ → TextPath) → (home : TextPath) → Option (List ℕ) → TextPath
configured_app expanduser home (some (c ∷ cs)) = expanduser (c ∷ cs)
configured_app expanduser home _ = home ++ codes "Applications" ∷ codes "IntelliJ IDEA.app" ∷ []

-- The settings directory below the account's home.
unfoldable pub config_path : (home : TextPath) → List ℕ × List ℕ → TextPath
config_path home (year, minor) =
    home
    ++ codes "Library"
      ∷ codes "Application Support"
      ∷ codes "JetBrains"
      ∷ (codes "IntelliJIdea" ++ (year ++ b'.' ∷ minor))
      ∷ []

unfoldable pub config_dir : (home : TextPath) → Plist → Result String TextPath
unfolding app_version release config_path
config_dir home plist = do
  version ← app_version plist
  parts ← or_raise (release version) "invalid IntelliJ version"
  ok (config_path home parts)

unfoldable pub trusted_paths_file : (home : TextPath) → Plist → Result String TextPath
unfolding config_dir
trusted_paths_file home plist = do
  directory ← config_dir home plist
  ok (directory ++ codes "options" ∷ codes "trusted-paths.xml" ∷ [])
