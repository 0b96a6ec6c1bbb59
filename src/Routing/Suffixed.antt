-- ===== src/Routing/Suffixed.antt =====
-- Which names have a native suffix (bin/serena_hybrid_routing.py).
use serena_workspace_orchest.Prelude.{
  ℕ, all, ◌≡◌, refl, sym, ap, subst, ◌∙◌, ◌⊎◌, inl, inr, Bool, true, false, not, ◌&&◌, none, some,
  List, [], ◌∷◌, ◌++◌, String, arith, ltb, ◌==◌, length, Occurs, Bool-cases, Option-cases,
}
use serena_workspace_orchest.Prelude.Strings.{codes, codes_eq}
use serena_workspace_orchest.Prelude.Reflect.{codes_eq_lem, codes_eq_of}
use serena_workspace_orchest.Routing.Native.{
  native_suffixes, last_name, from_last_dot, suffix, lower, casefold, among, has_native_suffix,
}

-- The last name is a first character, a stem and an extension that folds to a native suffix.
pub record HasSuffix (candidate : List String) : Type 0 where
  pub outer : List String
  pub name : String
  pub last : candidate ≡ outer ++ name ∷ []
  pub initial : ℕ
  pub stem : List ℕ
  pub extension : List ℕ
  pub parts : codes name ≡ initial ∷ stem ++ extension
  pub native : String
  pub is_native : Occurs native native_suffixes
  pub folds : casefold extension ≡ codes native

last_name_lem :
    (candidate : List String)
    → (candidate ≡ []) ⊎ ((outer : List String) × (candidate ≡ outer ++ last_name candidate ∷ []))
unfolding last_name
last_name_lem [] = inl refl
last_name_lem (name ∷ []) = inr ([], refl)
last_name_lem (name ∷ second ∷ rest) = elim (last_name_lem (second ∷ rest)) [
  | inl e ↦ absurd (cc e)
  | inr (outer, e) ↦ inr (name ∷ outer, ap (λ x. name ∷ x) e)
]

last_name-append : (outer : List String) (name : String) → last_name (outer ++ name ∷ []) ≡ name
unfolding last_name
last_name-append [] name = refl
last_name-append (a ∷ []) name = refl
last_name-append (a ∷ b ∷ outer) name = last_name-append (b ∷ outer) name

from_last_dot_lem :
    (s found : List ℕ) → from_last_dot s ≡ some found → (stem : List ℕ) × (s ≡ stem ++ found)
unfolding from_last_dot
from_last_dot_lem [] found h = cc
from_last_dot_lem (c ∷ cs) found h = elim (Option-cases (from_last_dot cs)) [
  | inr (f, e) ↦
      let (stem, split) = from_last_dot_lem cs f e in
      let same : f ≡ found = ground arith in
      (c ∷ stem, ap (λ x. c ∷ x) (split ∙ ap (λ x. stem ++ x) same))
  | inl e ↦ ([], ground arith)
]

among-Occurs :
    (s : List ℕ) (names : List String)
    → among s names ≡ true
    → (name : String) × Occurs name names × (s ≡ codes name)
unfolding among
among-Occurs s [] h = cc
among-Occurs s (x ∷ xs) h = elim (Bool-cases (codes_eq s (codes x))) [
  | inl e ↦ (x, inl refl, codes_eq_lem s (codes x) e)
  | inr e ↦ let (name, o, same) = among-Occurs s xs (ground arith) in (name, inr o, same)
]

Occurs-among :
    (s : List ℕ) (names : List String) (name : String)
    → Occurs name names
    → s ≡ codes name
    → among s names ≡ true
unfolding among
Occurs-among s [] name o e = absurd o
Occurs-among s (x ∷ xs) name (inl same) e = rw (codes_eq_of (e ∙ ap (λ n. codes n) same)) refl
Occurs-among s (x ∷ xs) name (inr o) e = ground (arith, Occurs-among s xs name o e)

abbrev no_dot : List ℕ → Bool
no_dot s = all (λ c. not (c == b'.')) s

-- A dot, and at least one more character, none of which is a dot.
abbrev is_plain : List ℕ → Bool
is_plain (c ∷ d ∷ cs) = c == b'.' && no_dot (d ∷ cs)
is_plain _ = false

native-is_plain :
    (names : List String)
    → all (λ n. is_plain (codes n)) names ≡ true
    → (name : String) → Occurs name names
    → is_plain (codes name) ≡ true
native-is_plain [] a name o = absurd o
native-is_plain (x ∷ xs) a name (inl e) =
    subst (λ n. is_plain (codes n) ≡ true) (sym e) (ground arith)
native-is_plain (x ∷ xs) a name (inr o) = native-is_plain xs (ground arith) name o

lower_dot : (c : ℕ) → (lower c == b'.') ≡ (c == b'.')
lower_dot c = ground arith

no_dot-casefold : (s : List ℕ) → no_dot (casefold s) ≡ no_dot s
unfolding casefold
no_dot-casefold [] = refl
no_dot-casefold (c ∷ cs) = rw (lower_dot c, no_dot-casefold cs) refl

is_plain-casefold : (s : List ℕ) → is_plain (casefold s) ≡ is_plain s
unfolding casefold
is_plain-casefold [] = refl
is_plain-casefold (c ∷ []) = refl
is_plain-casefold (c ∷ d ∷ cs) = rw (lower_dot c, lower_dot d, no_dot-casefold cs) refl

from_last_dot-no_dot : (s : List ℕ) → no_dot s ≡ true → from_last_dot s ≡ none
unfolding from_last_dot
from_last_dot-no_dot [] h = refl
from_last_dot-no_dot (c ∷ cs) h = ground (arith, from_last_dot-no_dot cs)

from_last_dot-here :
    (c : ℕ) (cs : List ℕ)
    → (c == b'.') ≡ true
    → from_last_dot cs ≡ none
    → from_last_dot (c ∷ cs) ≡ some (c ∷ cs)
unfolding from_last_dot
from_last_dot-here c cs e f = rw (from_last_dot, f, e) refl

from_last_dot-append :
    (stem extension : List ℕ)
    → is_plain extension ≡ true
    → from_last_dot (stem ++ extension) ≡ some extension
unfolding from_last_dot
from_last_dot-append [] (c ∷ d ∷ cs) h =
    from_last_dot-here c (d ∷ cs) (ground arith) (from_last_dot-no_dot (d ∷ cs) (ground arith))
from_last_dot-append [] [] h = cc
from_last_dot-append [] (c ∷ []) h = cc
from_last_dot-append (c ∷ stem) extension h =
    rw (from_last_dot, from_last_dot-append stem extension h) refl

suffix-found :
    (initial : ℕ) (rest found : List ℕ)
    → from_last_dot rest ≡ some found
    → ltb (length found) 2 ≡ false
    → suffix (initial ∷ rest) ≡ found
unfolding suffix
suffix-found initial rest found e f = rw (suffix, e, f) refl

-- A suffix that is native is the end of the name behind its first character.
suffix_lem :
    (name : List ℕ)
    → among (casefold (suffix name)) native_suffixes ≡ true
    → (initial : ℕ) × (stem : List ℕ) × (name ≡ initial ∷ stem ++ suffix name)
unfolding suffix among casefold
suffix_lem [] h = cc
suffix_lem (initial ∷ rest) h = elim (Option-cases (from_last_dot rest)) [
  | inl e ↦ absurd (cc (rw (suffix, e) at h))
  | inr (found, e) ↦ elim (Bool-cases (ltb (length found) 2)) [
    | inl f ↦ absurd (cc (rw (suffix, e, f) at h))
    | inr f ↦
        let (stem, split) = from_last_dot_lem rest found e in
        (
          initial,
          stem,
          ap (λ x. initial ∷ x)
              (split ∙ ap (λ x. stem ++ x) (sym (suffix-found initial rest found e f))),
        )
  ]
]

pub has_native_suffix-HasSuffix :
    (candidate : List String) → has_native_suffix candidate ≡ true → HasSuffix candidate
unfolding has_native_suffix among
has_native_suffix-HasSuffix candidate h =
    let name = last_name candidate in
    let (initial, stem, parts) = suffix_lem (codes name) h in
    let (native, o, folds) = among-Occurs (casefold (suffix (codes name))) native_suffixes h in
    elim (last_name_lem candidate) [
      | inl e ↦ absurd (cc (subst (λ c. has_native_suffix c ≡ true) e h))
      | inr (outer, last) ↦ record {
        outer = outer;
        name = name;
        last = last;
        initial = initial;
        stem = stem;
        extension = suffix (codes name);
        parts = parts;
        native = native;
        is_native = o;
        folds = folds;
      }
    ]

plain_length : (s : List ℕ) → is_plain s ≡ true → ltb (length s) 2 ≡ false
plain_length (c ∷ d ∷ cs) h = ground arith
plain_length [] h = cc
plain_length (c ∷ []) h = cc

pub HasSuffix-has_native_suffix :
    (candidate : List String) → HasSuffix candidate → has_native_suffix candidate ≡ true
unfolding has_native_suffix
HasSuffix-has_native_suffix candidate h =
    let plain : is_plain h.extension ≡ true =
      sym (is_plain-casefold h.extension)
      ∙ ap (λ s. is_plain s) h.folds
      ∙ native-is_plain native_suffixes refl h.native h.is_native in
    let named : last_name candidate ≡ h.name =
      ap last_name h.last ∙ last_name-append h.outer h.name in
    let ends : suffix (codes (last_name candidate)) ≡ h.extension =
      ap (λ n. suffix (codes n)) named
      ∙ ap suffix h.parts
      ∙ suffix-found h.initial (h.stem ++ h.extension) h.extension
          (from_last_dot-append h.stem h.extension plain) (plain_length h.extension plain) in
    Occurs-among (casefold (suffix (codes (last_name candidate)))) native_suffixes h.native
      h.is_native (ap casefold ends ∙ h.folds)
