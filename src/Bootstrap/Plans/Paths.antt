-- ===== src/Bootstrap/Plans/Paths.antt =====
-- bin/workspace_harbor_bootstrap.py: the file paths, absolute and without a dot or an empty part,
-- as the lists of their parts. The text of a part is held as code points.
use serena_workspace_orchest.Prelude.{
  ℕ, Bool, true, false, not, ◌&&◌, ◌||◌, List, [], ◌∷◌, ◌++◌, String, ◌==◌, if◌then◌else◌,
}
use serena_workspace_orchest.Prelude.Strings.{codes, codes_eq}

abbrev pub FilePath : Type 0
FilePath = List (List ℕ)

-- `text.split("/")`
unfoldable pub split_slashes : List ℕ → List (List ℕ)
split_slashes [] = [] ∷ []
split_slashes (c ∷ cs) =
    let rest = split_slashes cs in if c == b'/' then [] ∷ rest else add_to_first c rest
  where
    add_to_first : ℕ → List (List ℕ) → List (List ℕ)
    add_to_first c [] = (c ∷ []) ∷ []
    add_to_first c (part ∷ parts) = (c ∷ part) ∷ parts

-- An empty part and a dot are left out.
unfoldable pub without_dots : List (List ℕ) → FilePath
unfolding codes_eq
without_dots [] = []
without_dots (part ∷ parts) =
    let rest = without_dots parts in
    if codes_eq part [] || codes_eq part (codes ".") then rest else part ∷ rest

-- `Path(text).is_absolute()`
unfoldable pub is_absolute : List ℕ → Bool
is_absolute [] = false
is_absolute (c ∷ cs) = c == b'/'

-- A text with exactly two slashes in front names another root than one slash does: an empty first
-- part stands for it.
unfoldable pub has_second_root : List ℕ → Bool
unfolding is_absolute
has_second_root (c ∷ d ∷ cs) = c == b'/' && d == b'/' && not (is_absolute cs)
has_second_root _ = false

-- `base / text`
unfoldable pub join_text : FilePath → List ℕ → FilePath
unfolding split_slashes without_dots is_absolute has_second_root
join_text base text =
    let parts = without_dots (split_slashes text) in
    if is_absolute text then (if has_second_root text then [] ∷ parts else parts) else base ++ parts

-- `base / name` for a plain name
abbrev pub child : FilePath → String → FilePath
child base name = base ++ (codes name ∷ [])

unfoldable pub path_eq : FilePath → FilePath → Bool
unfolding codes_eq
path_eq [] [] = true
path_eq (x ∷ xs) (y ∷ ys) = codes_eq x y && path_eq xs ys
path_eq _ _ = false

-- `path == root or root in path.parents`
unfoldable pub is_within : FilePath → FilePath → Bool
unfolding codes_eq
is_within [] path = true
is_within (x ∷ root) [] = false
is_within (x ∷ root) (y ∷ path) = codes_eq x y && is_within root path

-- `root in path.parents`
unfoldable pub is_below : FilePath → FilePath → Bool
unfolding is_within path_eq
is_below root path = is_within root path && not (path_eq root path)

unfoldable pub path_member : FilePath → List FilePath → Bool
unfolding path_eq
path_member path [] = false
path_member path (p ∷ ps) = path_eq path p || path_member path ps
