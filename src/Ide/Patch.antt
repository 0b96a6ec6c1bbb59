-- ===== src/Ide/Patch.antt =====
-- Versions that differ in a later part share the settings directory (bin/workspace_harbor_ide.py).
use serena_workspace_orchest.Prelude.{
  ℕ, all, ◌≡◌, refl, inl, inr, true, false, none, some, List, [], ◌∷◌, ◌++◌, arith, ◌==◌,
  Bool-cases, Option-cases,
}
use serena_workspace_orchest.Prelude.Results.{ok}
use serena_workspace_orchest.Ide.Version.{
  TextPath, trusted_paths_file, is_digit, is_digits, split_dots, release_of, release, is_release,
  version_is, app_version, config_dir, config_path,
}

split_dots-append :
    (xs ys : List ℕ)
    → split_dots (xs ++ b'.' ∷ ys)
      ≡ ((split_dots xs).0, (split_dots xs).1 ++ (split_dots ys).0 ∷ (split_dots ys).1)
unfolding split_dots
split_dots-append [] ys = refl
split_dots-append (c ∷ xs) ys = elim (Bool-cases (c == b'.')) [
  | inl e ↦ rw (e, split_dots-append xs ys) refl
  | inr e ↦ rw (e, split_dots-append xs ys) refl
]

split_dots-digits : (ds : List ℕ) → all (λ c. is_digit c) ds ≡ true → split_dots ds ≡ (ds, [])
unfolding split_dots
split_dots-digits [] h = refl
split_dots-digits (d ∷ ds) h =
    let plain : (d == b'.') ≡ false = ground arith in
    let rest : all (λ c. is_digit c) ds ≡ true = ground arith in
    rw (plain, split_dots-digits ds rest) refl

all-one_more :
    (xs : List (List ℕ)) (x : List ℕ)
    → is_digits x ≡ true
    → all (λ s. is_digits s) (xs ++ x ∷ []) ≡ all (λ s. is_digits s) xs
all-one_more [] x h = ground (arith, h)
all-one_more (y ∷ xs) x h = rw (all-one_more xs x h) refl

release_of-append :
    (year : List ℕ) (rest : List (List ℕ)) (r : List ℕ × List ℕ) (ds : List ℕ)
    → is_digits ds ≡ true
    → release_of year rest ≡ some r
    → release_of year (rest ++ ds ∷ []) ≡ some r
unfolding release_of
release_of-append year [] r ds d h = absurd (ground arith)
release_of-append year (minor ∷ rest) r ds d h = rw (all-one_more rest ds d) h

release-append :
    (version ds : List ℕ) (r : List ℕ × List ℕ)
    → is_digits ds ≡ true
    → release version ≡ some r
    → release (version ++ b'.' ∷ ds) ≡ some r
unfolding release is_digits
release-append version ds r d h =
    let digits : all (λ c. is_digit c) ds ≡ true = ground arith in
    rw (split_dots-append version ds, split_dots-digits ds digits)
      (release_of-append (split_dots version).0 (split_dots version).1 r ds d h)

config_dir-release :
    (home : TextPath) (version : List ℕ) (r : List ℕ × List ℕ)
    → release version ≡ some r
    → config_dir home (version_is (some version)) ≡ ok (config_path home r)
unfolding config_dir app_version is_release
config_dir-release home version r e = ground (arith, e)

no_release :
    (home : TextPath) (version : List ℕ) (file : TextPath)
    → release version ≡ none
    → ¬ (trusted_paths_file home (version_is (some version)) ≡ ok file)
unfolding trusted_paths_file config_dir app_version is_release
no_release home version file e h = ground (arith, e)

-- A version followed by a further part of digits has the same release, and so the same registry of
-- trusted paths.
pub patch_keeps_config :
    (home : TextPath) (version ds : List ℕ) (file : TextPath)
    → is_digits ds ≡ true
    → trusted_paths_file home (version_is (some version)) ≡ ok file
    → trusted_paths_file home (version_is (some (version ++ b'.' ∷ ds))) ≡ ok file
unfolding trusted_paths_file
patch_keeps_config home version ds file d h = elim (Option-cases (release version)) [
  | inl e ↦ absurd (no_release home version file e h)
  | inr (r, e) ↦
      rw (config_dir-release home (version ++ b'.' ∷ ds) r (release-append version ds r d e))
        (rw (config_dir-release home version r e) at h)
]
