-- ===== src/Bridge/Start.antt =====
-- bin/workspace_harbor_bridge.py: the command and the environment with which `run_handshake` starts
-- the proxy. An environment is the list of its items, each name once.
use serena_workspace_orchest.Prelude.{
  ◌≡◌, refl, sym, ap, ◌∙◌, inl, inr, Bool, true, false, ◌||◌, Option, none, some, List, [], ◌∷◌,
  String, if◌then◌else◌, Bool-cases,
}
use serena_workspace_orchest.Prelude.Strings.{str_eq, eq_iff}

abbrev pub Environment : Type 0
Environment = List (String × String)

unfoldable pub lookup : String → Environment → Option String
lookup name [] = none
lookup name ((key, value) ∷ items) = if str_eq key name then some value else lookup name items

-- `environment.pop(name, None)`
unfoldable pub pop : String → Environment → Environment
pop name [] = []
pop name ((key, value) ∷ items) =
    if str_eq key name then pop name items else (key, value) ∷ pop name items

unfoldable pub put : String → String → Environment → Environment
put name value [] = (name, value) ∷ []
put name value ((key, old) ∷ items) =
    if str_eq key name then (key, value) ∷ items else (key, old) ∷ put name value items

-- `environment.update(extra)`
unfoldable pub update : Environment → Environment → Environment
unfolding put
update [] environment = environment
update ((name, value) ∷ items) environment = update items (put name value environment)

unfoldable pub proxy_environment : Option Environment → Environment → Environment
unfolding pop update
proxy_environment none environ = pop "WORKSPACE_HARBOR_OWNER_ID" (pop "CODEX_THREAD_ID" environ)
proxy_environment (some extra) environ =
    update extra (pop "WORKSPACE_HARBOR_OWNER_ID" (pop "CODEX_THREAD_ID" environ))

abbrev pub proxy_command : (broker : String) → (root : String) → List String
proxy_command broker root =
    broker ∷ "connect" ∷ "--project" ∷ root ∷ "--context=codex" ∷ "--backend=JetBrains"
    ∷ "--add-mode=query-projects" ∷ []

ite_again :
    {A : Type 0} (b : Bool) (x y z : A)
    → (if b then x else z) ≡ (if b then x else if b then y else z)
ite_again true x y z = refl
ite_again false x y z = refl

-- Two tests of a key for different names cannot both hold.
names_differ :
    (k key name : String) → str_eq k key ≡ false → str_eq k name ≡ true → str_eq key name ≡ false
names_differ k key name e f = elim (Bool-cases (str_eq key name)) [
  | inr g ↦ g
  | inl g ↦
      let same : k ≡ key = (eq_iff k name).0 f ∙ sym ((eq_iff key name).0 g) in
      absurd (cc (e, (eq_iff k key).1 same))
]

abbrev pub or_else : Option String → Option String → Option String
or_else (some value) other = some value
or_else none other = other

lookup-pop :
    (name key : String) (items : Environment)
    → lookup name (pop key items) ≡ (if str_eq key name then none else lookup name items)
unfolding lookup pop
lookup-pop name key [] = elim (Bool-cases (str_eq key name)) [
  | inl e ↦ rw (e) refl
  | inr e ↦ rw (e) refl
]
lookup-pop name key ((k, v) ∷ items) = elim (Bool-cases (str_eq k key)) [
  | inl e ↦
      let same : k ≡ key = (eq_iff k key).0 e in
      rw (e, same, lookup-pop name key items)
        (ite_again (str_eq key name) none (some v) (lookup name items))
  | inr e ↦ elim (Bool-cases (str_eq k name)) [
    | inl f ↦ rw (e, names_differ k key name e f, f) refl
    | inr f ↦ rw (e, f) (lookup-pop name key items)
  ]
]

lookup-put :
    (name key value : String) (items : Environment)
    → lookup name (put key value items)
      ≡ (if str_eq key name then some value else lookup name items)
unfolding lookup put
lookup-put name key value [] = refl
lookup-put name key value ((k, v) ∷ items) = elim (Bool-cases (str_eq k key)) [
  | inl e ↦
      let same : k ≡ key = (eq_iff k key).0 e in
      rw (e, same) (ite_again (str_eq key name) (some value) (some v) (lookup name items))
  | inr e ↦ elim (Bool-cases (str_eq k name)) [
    | inl f ↦ rw (e, names_differ k key name e f, f) refl
    | inr f ↦ rw (e, f) (lookup-put name key value items)
  ]
]

-- The last value that items give a name.
abbrev pub last_value : String → Environment → Option String
last_value name [] = none
last_value name ((key, value) ∷ items) = elim (last_value name items) [
  | some v ↦ some v
  | none ↦ if str_eq key name then some value else none
]

lookup-update :
    (name : String) (items environment : Environment)
    → lookup name (update items environment)
      ≡ or_else (last_value name items) (lookup name environment)
unfolding update
lookup-update name [] environment = refl
lookup-update name ((key, value) ∷ items) environment =
    lookup-update name items (put key value environment)
    ∙ ap (λ o. or_else (last_value name items) o) (lookup-put name key value environment)
    ∙ settled (last_value name items) (str_eq key name)
  where
    settled :
        (later : Option String) (b : Bool)
        → or_else later (if b then some value else lookup name environment)
          ≡ or_else
              (elim later [ some v ↦ some v | none ↦ if b then some value else none ])
              (lookup name environment)
    settled (some v) b = refl
    settled none true = refl
    settled none false = refl

abbrev pub is_hidden : String → Bool
is_hidden name = str_eq "WORKSPACE_HARBOR_OWNER_ID" name || str_eq "CODEX_THREAD_ID" name

popped :
    (name : String) (environ : Environment)
    → lookup name (pop "WORKSPACE_HARBOR_OWNER_ID" (pop "CODEX_THREAD_ID" environ))
      ≡ (if is_hidden name then none else lookup name environ)
popped name environ =
    lookup-pop name "WORKSPACE_HARBOR_OWNER_ID" (pop "CODEX_THREAD_ID" environ)
    ∙ ap (λ o. if str_eq "WORKSPACE_HARBOR_OWNER_ID" name then none else o)
        (lookup-pop name "CODEX_THREAD_ID" environ)
    ∙ either (str_eq "WORKSPACE_HARBOR_OWNER_ID" name) (str_eq "CODEX_THREAD_ID" name)
        (lookup name environ)
  where
    either :
        (a b : Bool) (o : Option String)
        → (if a then none else if b then none else o) ≡ (if a || b then none else o)
    either true b o = refl
    either false true o = refl
    either false false o = refl

-- A name has in the proxy's environment the last value that the extra items give it, and without
-- one its value in the caller's environment, where the identifiers of a task and of its owner are hidden.
pub lookup-proxy_environment :
    (name : String) (extra : Option Environment) (environ : Environment)
    → lookup name (proxy_environment extra environ)
      ≡ or_else
          (elim extra [ none ↦ none | some items ↦ last_value name items ])
          (if is_hidden name then none else lookup name environ)
unfolding proxy_environment
lookup-proxy_environment name none environ = popped name environ
lookup-proxy_environment name (some items) environ =
    lookup-update name items _ ∙ ap (λ o. or_else (last_value name items) o) (popped name environ)
