-- ===== src/Bootstrap/Plans/Inside.antt =====
-- The plans of a repository stay in its root (bin/workspace_harbor_bootstrap.py).
use serena_workspace_orchest.Prelude.{
  all, ◌≡◌, refl, subst, inl, inr, Bool, true, false, ◌&&◌, ◌||◌, Option, none, some, List, [], ◌∷◌,
  ◌++◌, String, if◌then◌else◌, Bool-cases, List-cases,
}
use serena_workspace_orchest.Prelude.Strings.{codes, has_infix, str_eq}
use serena_workspace_orchest.Prelude.Results.{
  ◌>>=◌, Result, ok, err, Result-cases, ok-injective, ok_of_bind,
}
use serena_workspace_orchest.Json.{Fields}
use serena_workspace_orchest.Bootstrap.Plans.Paths.{FilePath, child, is_within}
use serena_workspace_orchest.Bootstrap.Plans.Data.{Plan, Files, Host, Raised}
use serena_workspace_orchest.Bootstrap.Plans.Recipes.{
  Request, other_plans, plans_after, recipe, builtin, present, javascript, javascript_plan,
  Javascript, no_plan, planned, asks, read_package, is_ambiguous, python_plans, sourced_plans,
  managed_plans, present_names, is_bun, is_yarn_berry,
}
use serena_workspace_orchest.Bootstrap.Plans.Sources.{contains_source, jvm_builds, javascript_locks}
use serena_workspace_orchest.Bootstrap.Plans.Contained.{
  is_contained, all-append, recipe-is_contained,
}

-- What a result of plans holds of them.
abbrev pub Contains : FilePath → Result Raised (List Plan × List Request) → Type 0
Contains root (ok (plans, requests)) = all (is_contained root) plans ≡ true
Contains root (err e) = Unit

-- What a plan for JavaScript holds.
OfJavascript : FilePath → Javascript → Type 0
OfJavascript root no_plan = Unit
OfJavascript root (planned plan) = is_contained root plan ≡ true
OfJavascript root (asks request) = Unit

either_is_contained :
    (root : FilePath) (b : Bool) (p q : Plan)
    → is_contained root p ≡ true
    → is_contained root q ≡ true
    → is_contained root (if b then p else q) ≡ true
either_is_contained root true p q f g = f
either_is_contained root false p q f g = g

module _ (host : Host) (files : Files) (root boundary : FilePath)
    (inside : is_within root boundary ≡ true) where
  one :
      (ecosystem : String) (argv names : List String)
      → all (is_contained root) (recipe host boundary ecosystem argv names ∷ []) ≡ true
  one ecosystem argv names =
      rw (recipe-is_contained host root boundary ecosystem argv names inside) refl

  sourced_are_contained :
      (ecosystem : String) (argv : List String) (project lock suffix : String)
      → all
          (is_contained root)
          (sourced_plans host files boundary ecosystem argv project lock suffix)
        ≡ true
  unfolding sourced_plans
  sourced_are_contained ecosystem argv project lock suffix =
      elim (Bool-cases (
        present files boundary project
        && present files boundary lock
        && contains_source (suffix ∷ []) (files.tree boundary))) [
          | inr e ↦ rw (sourced_plans, e) refl
          | inl e ↦ rw (sourced_plans, e) (one ecosystem argv (project ∷ lock ∷ []))
        ]

  managed_are_contained : all (is_contained root) (managed_plans host files boundary) ≡ true
  unfolding managed_plans
  managed_are_contained = elim (List-cases (present_names files boundary jvm_builds)) [
    | inl e ↦ rw (managed_plans, e) refl
    | inr (build, builds, e) ↦ rw (managed_plans, e) (one "ide-managed" [] (build ∷ builds))
  ]

  javascript_plan-is_contained :
      (lock : String) (manifest : Fields)
      → is_contained root (javascript_plan host files boundary lock manifest) ≡ true
  unfolding javascript_plan
  javascript_plan-is_contained lock manifest =
      let made : (ecosystem : String) (argv : List String)
          → is_contained root (recipe host boundary ecosystem argv ("package.json" ∷ lock ∷ []))
            ≡ true =
        λ ecosystem argv.
          recipe-is_contained host root boundary ecosystem argv ("package.json" ∷ lock ∷ [])
            inside in
      either_is_contained root (str_eq lock "package-lock.json") _ _ (made "npm" _) (
        either_is_contained root (str_eq lock "pnpm-lock.yaml") _ _ (made "pnpm" _) (
          either_is_contained root (is_bun lock) _ _ (made "bun" _) (
            either_is_contained root
              (is_yarn_berry manifest || present files boundary ".yarnrc.yml") _ _
              (made "yarn-berry" _) (made "yarn-classic" _))))

  javascript_is_contained :
      (found : Javascript) → javascript host files boundary ≡ ok found → OfJavascript root found
  unfolding javascript OfJavascript
  javascript_is_contained found h = elim (Bool-cases (present files boundary "package.json")) [
    | inr e ↦ of_value no_plan tt (rw (javascript, e) at h)
    | inl e ↦ elim (Bool-cases (is_ambiguous (present_names files boundary javascript_locks))) [
      | inl f ↦ of_value (asks _) tt (rw (javascript, e, f) at h)
      | inr f ↦ elim (List-cases (present_names files boundary javascript_locks)) [
        | inl g ↦ of_value no_plan tt (rw (javascript, e, f, g) at h)
        | inr (lock, more, g) ↦ of_package lock (rw (javascript, e, f, g) at h)
      ]
    ]
  ]
    where
      of_value :
          (value : Javascript)
          → OfJavascript root value
          → ◌≡◌ {A = Result Raised Javascript} (ok value) (ok found)
          → OfJavascript root found
      of_value value holds same = subst (OfJavascript root) (ok-injective same) holds

      of_manifest :
          (lock : String) (manifest : Option Fields)
          → ◌≡◌ {A = Result Raised Javascript}
              (elim manifest [
                | none ↦ ok (asks (record { code = "invalid-package-json"; about = some boundary }))
                | some d ↦ ok (planned (javascript_plan host files boundary lock d))
              ])
              (ok found)
          → OfJavascript root found
      of_manifest lock none h = of_value _ tt h
      of_manifest lock (some d) h = of_value _ (javascript_plan-is_contained lock d) h

      of_package :
          (lock : String)
          → (read_package (files.document (child boundary "package.json")) >>= λ manifest.
              elim manifest [
                | none ↦ ok (asks (record { code = "invalid-package-json"; about = some boundary }))
                | some d ↦ ok (planned (javascript_plan host files boundary lock d))
              ])
            ≡ ok found
          → OfJavascript root found
      of_package lock h =
          let (manifest, e, rest) =
            ok_of_bind (read_package (files.document (child boundary "package.json"))) _ h in
          of_manifest lock manifest rest

  -- Contained plans of one result are in front of those of another.
  python_are_contained :
      (plans : List Plan)
      → python_plans host files boundary ≡ ok plans
      → all (is_contained root) plans ≡ true
  unfolding python_plans
  python_are_contained plans h = elim (Bool-cases (present files boundary "pyproject.toml")) [
    | inr e ↦ of_value [] refl (rw (python_plans, e) at h)
    | inl e ↦ elim (Bool-cases (present files boundary "uv.lock")) [
      | inl f ↦
          of_value _ (one "uv" _ ("pyproject.toml" ∷ "uv.lock" ∷ [])) (rw (python_plans, e, f) at h)
      | inr f ↦ elim (Bool-cases (present files boundary "poetry.lock")) [
        | inr g ↦ of_value [] refl (rw (python_plans, e, f, g) at h)
        | inl g ↦ elim (Result-cases (files.text (child boundary "pyproject.toml"))) [
          | inr (permission, t) ↦ cc (rw (python_plans, e, f, g, t) at h)
          | inl (text, t) ↦ elim (Bool-cases (has_infix (codes "[tool.poetry]") text)) [
            | inr i ↦ of_value [] refl (rw (python_plans, e, f, g, t, i) at h)
            | inl i ↦
                of_value _ (one "poetry" _ ("pyproject.toml" ∷ "poetry.lock" ∷ []))
                  (rw (python_plans, e, f, g, t, i) at h)
          ]
        ]
      ]
    ]
  ]
    where
      of_value :
          (value : List Plan)
          → all (is_contained root) value ≡ true
          → ◌≡◌ {A = Result Raised (List Plan)} (ok value) (ok plans)
          → all (is_contained root) plans ≡ true
      of_value value holds same =
          subst (λ x. all (is_contained root) x ≡ true) (ok-injective same) holds

  others_are_contained :
      (plans : List Plan) (found : List Plan × List Request)
      → all (is_contained root) plans ≡ true
      → other_plans host files boundary plans ≡ ok found
      → all (is_contained root) found.0 ≡ true
  unfolding other_plans
  others_are_contained plans found c h =
      let (python, e, rest) = ok_of_bind (python_plans host files boundary) _ h in
      let rust =
        sourced_plans host files boundary "rust" ("cargo" ∷ "fetch" ∷ "--locked" ∷ []) "Cargo.toml"
          "Cargo.lock" ".rs" in
      let go =
        sourced_plans host files boundary "go" ("go" ∷ "mod" ∷ "download" ∷ []) "go.mod" "go.sum"
          ".go" in
      let managed = managed_plans host files boundary in
      let inner = is_contained root in
      subst (λ (x : List Plan × List Request). all inner x.0 ≡ true) (ok-injective rest)
        (all-append inner plans (python ++ (rust ++ (go ++ managed))) c (
          all-append inner python (rust ++ (go ++ managed)) (python_are_contained python e) (
            all-append inner rust (go ++ managed)
              (sourced_are_contained "rust" ("cargo" ∷ "fetch" ∷ "--locked" ∷ []) "Cargo.toml"
                "Cargo.lock" ".rs")
              (all-append inner go managed
                (sourced_are_contained "go" ("go" ∷ "mod" ∷ "download" ∷ []) "go.mod" "go.sum"
                  ".go")
                managed_are_contained))))

  pub builtin-is_contained :
      (found : List Plan × List Request)
      → builtin host files boundary ≡ ok found
      → all (is_contained root) found.0 ≡ true
  unfolding builtin OfJavascript
  builtin-is_contained found h =
      let (first, e, rest) = ok_of_bind (javascript host files boundary) _ h in
      of_first first (javascript_is_contained first e) rest
    where
      of_first :
          (first : Javascript)
          → OfJavascript root first
          → plans_after host files boundary first ≡ ok found
          → all (is_contained root) found.0 ≡ true
      of_first no_plan c h = others_are_contained [] found refl h
      of_first (planned plan) c h = others_are_contained (plan ∷ []) found (rw (c) refl) h
      of_first (asks request) c h =
          subst (λ (x : List Plan × List Request). all (is_contained root) x.0 ≡ true)
            (ok-injective h) refl
