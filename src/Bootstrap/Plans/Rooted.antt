-- ===== src/Bootstrap/Plans/Rooted.antt =====
-- The boundaries and the inputs of a policy lie in the root (bin/workspace_harbor_bootstrap.py).
use serena_workspace_orchest.Prelude.{
  all, ◌≡◌, refl, subst, inl, inr, true, ◌&&◌, some, List, [], ◌∷◌, String, arith, Bool-cases,
  Option-cases,
}
use serena_workspace_orchest.Prelude.Strings.{codes}
use serena_workspace_orchest.Json.{Value, str, Fields, Items, cons, nil}
use serena_workspace_orchest.Bootstrap.Plans.Paths.{
  FilePath, is_within, is_below, join_text, is_absolute,
}
use serena_workspace_orchest.Bootstrap.Plans.Data.{Files}
use serena_workspace_orchest.Bootstrap.Plans.Policy.{items_at, dict_at}
use serena_workspace_orchest.Bootstrap.Plans.Planning.{unless_ignored, boundaries_of}
use serena_workspace_orchest.Bootstrap.Plans.Limits.{
  if_within, boundary_path, boundary_paths, input_path, input_paths,
}
use serena_workspace_orchest.Bootstrap.Plans.Contained.{is_within_refl}

pub some_injective {ℓ} : {A : Type ℓ} {x y : A} → some x ≡ some y → x ≡ y
some_injective h = cc

if_within-is_within :
    (root candidate path : FilePath)
    → if_within root candidate ≡ some path
    → is_within root path ≡ true
unfolding if_within
if_within-is_within root candidate path h = elim (Bool-cases (is_within root candidate)) [
  | inr f ↦ cc (rw (if_within, f) at h)
  | inl f ↦ subst (λ x. is_within root x ≡ true) (some_injective (rw (if_within, f) at h)) f
]

module _ (files : Files) (root : FilePath) where
  boundary_is_within :
      (value : Value) (path : FilePath)
      → boundary_path files root value ≡ some path
      → is_within root path ≡ true
  unfolding boundary_path is_below
  boundary_is_within (str value) path h =
      elim (Option-cases (files.resolve_strict (join_text root (codes value)))) [
        | inl e ↦ cc (rw (boundary_path, e) at h)
        | inr (candidate, e) ↦
            elim (Bool-cases (is_below root candidate && files.is_dir candidate)) [
              | inr f ↦ cc (rw (boundary_path, e, f) at h)
              | inl f ↦
                  subst (λ x. is_within root x ≡ true)
                    (some_injective (rw (boundary_path, e, f) at h)) (ground arith)
            ]
      ]
  boundary_is_within value path h = cc

  boundaries_are_within :
      (values : Items) (paths : List FilePath)
      → boundary_paths files root values ≡ some paths
      → all (is_within root) paths ≡ true
  unfolding boundary_paths
  boundaries_are_within nil paths h =
      subst (λ x. all (is_within root) x ≡ true) (some_injective h) refl
  boundaries_are_within (cons v vs) paths h = elim (Option-cases (boundary_path files root v)) [
    | inl e ↦ cc (rw (boundary_paths, e) at h)
    | inr (path, e) ↦ elim (Option-cases (boundary_paths files root vs)) [
      | inl f ↦ cc (rw (boundary_paths, e, f) at h)
      | inr (rest, f) ↦
          subst (λ x. all (is_within root) x ≡ true)
            (some_injective (rw (boundary_paths, e, f) at h))
            (rw (boundary_is_within v path e) (boundaries_are_within vs rest f))
    ]
  ]

  input_is_within :
      (value : String) (path : FilePath)
      → input_path files root value ≡ some path
      → is_within root path ≡ true
  unfolding input_path
  input_is_within value path h = elim (Bool-cases (is_absolute (codes value))) [
    | inl e ↦ cc (rw (input_path, e) at h)
    | inr e ↦ if_within-is_within root _ path (rw (input_path, e) at h)
  ]

  pub inputs_are_within :
      (values : List String) (paths : List FilePath)
      → input_paths files root values ≡ some paths
      → all (is_within root) paths ≡ true
  unfolding input_paths
  inputs_are_within [] paths h = subst (λ x. all (is_within root) x ≡ true) (some_injective h) refl
  inputs_are_within (v ∷ vs) paths h = elim (Option-cases (input_path files root v)) [
    | inl e ↦ cc (rw (input_paths, e) at h)
    | inr (path, e) ↦ elim (Option-cases (input_paths files root vs)) [
      | inl f ↦ cc (rw (input_paths, e, f) at h)
      | inr (rest, f) ↦
          subst (λ x. all (is_within root) x ≡ true) (some_injective (rw (input_paths, e, f) at h))
            (rw (input_is_within v path e) (inputs_are_within vs rest f))
    ]
  ]

  unless_ignored_are_within :
      (ignored paths : List FilePath)
      → all (is_within root) paths ≡ true
      → all (is_within root) (unless_ignored ignored paths) ≡ true
  unfolding unless_ignored
  unless_ignored_are_within ignored [] h = refl
  unless_ignored_are_within ignored (path ∷ paths) h =
      ground (arith, unless_ignored_are_within ignored paths)

  pub boundaries_of_are_within :
      (bootstrap : Fields) (paths : List FilePath)
      → boundaries_of files root bootstrap ≡ some paths
      → all (is_within root) paths ≡ true
  unfolding boundaries_of
  boundaries_of_are_within bootstrap paths h =
      elim (Option-cases (dict_at "boundaries" bootstrap)) [
        | inl e ↦ cc (rw (boundaries_of, e) at h)
        | inr (boundaries, e) ↦
            elim (Option-cases (boundary_paths files root (items_at "ignore" boundaries))) [
              | inl f ↦ cc (rw (boundaries_of, e, f) at h)
              | inr (ignored, f) ↦
                  elim (Option-cases (boundary_paths files root (items_at "include" boundaries))) [
                    | inl g ↦ cc (rw (boundaries_of, e, f, g) at h)
                    | inr (included, g) ↦
                        subst (λ x. all (is_within root) x ≡ true)
                          (some_injective (rw (boundaries_of, e, f, g) at h))
                          (rw (is_within_refl root) (
                            unless_ignored_are_within ignored included
                              (boundaries_are_within _ included g)))
                  ]
            ]
      ]
