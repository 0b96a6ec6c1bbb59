-- ===== src/Bootstrap/Plans/Contained.antt =====
-- The paths of the plans (bin/workspace_harbor_bootstrap.py).
use serena_workspace_orchest.Prelude.{
  all, ◌≡◌, refl, Bool, true, ◌&&◌, List, [], ◌∷◌, ◌++◌, String, arith,
}
use serena_workspace_orchest.Prelude.Strings.{codes}
use serena_workspace_orchest.Prelude.Reflect.{codes_eq_refl}
use serena_workspace_orchest.Bootstrap.Plans.Paths.{FilePath, is_within}
use serena_workspace_orchest.Bootstrap.Plans.Data.{Plan, Host}
use serena_workspace_orchest.Bootstrap.Plans.Recipes.{children, recipe, make_plan}

-- The directory, the inputs and the markers of a plan lie in the root.
unfoldable pub is_contained : FilePath → Plan → Bool
unfolding is_within
is_contained root plan =
    is_within root plan.cwd && all (is_within root) plan.inputs && all (is_within root) plan.markers

pub is_within_refl : (root : FilePath) → is_within root root ≡ true
unfolding is_within
is_within_refl [] = refl
is_within_refl (x ∷ root) = rw (codes_eq_refl x) (is_within_refl root)

pub is_within-append :
    (root path below : FilePath)
    → is_within root path ≡ true
    → is_within root (path ++ below) ≡ true
unfolding is_within
is_within-append [] path below h = refl
is_within-append (x ∷ root) [] below h = cc
is_within-append (x ∷ root) (y ∷ path) below h = ground (arith, is_within-append root path below)

pub all-append {ℓ} :
    {A : Type ℓ} (p : A → Bool) (front back : List A)
    → all p front ≡ true
    → all p back ≡ true
    → all p (front ++ back) ≡ true
all-append p [] back f b = b
all-append p (x ∷ front) back f b = ground (arith, all-append p front back)

children_are_within :
    (root boundary : FilePath) (names : List String)
    → is_within root boundary ≡ true
    → all (is_within root) (children boundary names) ≡ true
children_are_within root boundary [] h = refl
children_are_within root boundary (name ∷ names) h =
    rw (is_within-append root boundary (codes name ∷ []) h)
      (children_are_within root boundary names h)

pub recipe-is_contained :
    (host : Host) (root boundary : FilePath) (ecosystem : String) (argv names : List String)
    → is_within root boundary ≡ true
    → is_contained root (recipe host boundary ecosystem argv names) ≡ true
unfolding is_contained recipe make_plan
recipe-is_contained host root boundary ecosystem argv names h =
    rw (h, children_are_within root boundary names h) refl
