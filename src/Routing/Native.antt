-- ===== src/Routing/Native.antt =====
-- bin/serena_hybrid_routing.py: `is_native_relative_file`. The file system is a parameter.
use serena_workspace_orchest.Prelude.{
  ℕ, ◌+◌, Bool, true, false, ◌&&◌, ◌||◌, Option, none, some, List, [], ◌∷◌, String, ltb, leb, ◌==◌,
  if◌then◌else◌, length,
}
use serena_workspace_orchest.Prelude.Strings.{codes, is_empty, str_eq, codes_eq, has_prefix}
use serena_workspace_orchest.Json.{Value, str}

abbrev pub native_suffixes : List String
native_suffixes =
    ".c" ∷ ".h" ∷ ".i" ∷ ".ii" ∷ ".cc" ∷ ".cpp" ∷ ".cxx" ∷ ".c++" ∷ ".cppm" ∷ ".ccm" ∷ ".cxxm"
    ∷ ".c++m" ∷ ".hpp" ∷ ".hh" ∷ ".hxx" ∷ ".h++" ∷ ".inl" ∷ ".ipp" ∷ ".ixx" ∷ ".tpp" ∷ ".txx"
    ∷ ".ino" ∷ []

-- A resolved path by the names below `/`. `resolve_root` is `Path(root).resolve(strict=True)`,
-- `resolve` is that of a text below a resolved root, and `none` an exception of either.
pub record FileSystem : Type 0 where
  pub resolve_root : String → Option (List String)
  pub resolve : List String → String → Option (List String)
  pub is_file : List String → Bool

-- `candidate.relative_to(root)` raises no exception.
unfoldable pub is_below : List String → List String → Bool
is_below [] candidate = true
is_below (r ∷ root) [] = false
is_below (r ∷ root) (c ∷ candidate) = str_eq r c && is_below root candidate

unfoldable pub last_name : List String → String
last_name [] = ""
last_name (name ∷ []) = name
last_name (name ∷ second ∷ rest) = last_name (second ∷ rest)

-- The text from its last dot on, if it has one.
unfoldable pub from_last_dot : List ℕ → Option (List ℕ)
from_last_dot [] = none
from_last_dot (c ∷ cs) =
    let rest = from_last_dot cs in
    elim rest [ some found ↦ some found | none ↦ if c == b'.' then some (c ∷ cs) else none ]

-- `candidate.suffix` for a name: a dot in front or at the end starts no suffix.
unfoldable pub suffix : List ℕ → List ℕ
unfolding from_last_dot
suffix [] = []
suffix (first ∷ name) = elim (from_last_dot name) [
  | none ↦ []
  | some found ↦ if ltb (length found) 2 then [] else found
]

-- `casefold`, as far as a native suffix can come of it: no other character folds to its letters.
abbrev pub lower : ℕ → ℕ
lower c = if leb b'A' c && leb c b'Z' then c + 32 else c

unfoldable pub casefold : List ℕ → List ℕ
casefold [] = []
casefold (c ∷ cs) = lower c ∷ casefold cs

unfoldable pub among : List ℕ → List String → Bool
unfolding codes_eq
among s [] = false
among s (x ∷ xs) = codes_eq s (codes x) || among s xs

unfoldable pub has_native_suffix : List String → Bool
unfolding last_name suffix casefold among
has_native_suffix candidate =
    among (casefold (suffix (codes (last_name candidate)))) native_suffixes

-- `Path(relative_path).is_absolute()`
unfoldable pub is_absolute : String → Bool
unfolding has_prefix
is_absolute path = has_prefix (b'/' ∷ []) (codes path)

unfoldable pub is_native_file : FileSystem → List String → String → Bool
unfolding is_below has_native_suffix
is_native_file fs root path = elim (fs.resolve root path) [
  | none ↦ false
  | some candidate ↦ is_below root candidate && fs.is_file candidate && has_native_suffix candidate
]

unfoldable pub is_native_text : FileSystem → String → String → Bool
unfolding is_absolute is_native_file
is_native_text fs root path =
    if is_empty path || is_absolute path then false else elim (fs.resolve_root root) [
      | none ↦ false
      | some canonical_root ↦ is_native_file fs canonical_root path
    ]

unfoldable pub is_native_relative_file : FileSystem → String → Option Value → Bool
unfolding is_native_text
is_native_relative_file fs root (some (str path)) = is_native_text fs root path
is_native_relative_file fs root _ = false
