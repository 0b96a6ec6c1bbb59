-- ===== src/Routing/Inside.antt =====
-- Where a tool call goes (bin/serena_hybrid_routing.py).
use serena_workspace_orchest.Prelude.{
  ℕ, ◌≢◌, ap, ◌∙◌, ◌↔◌, [], ◌∷◌, ◌++◌, ◌||◌, ◌&&◌, ◌==◌, ◌≡◌, refl, inl, inr, Bool, true, false,
  Option, none, some, List, String, arith, Bool-cases, Option-cases,
}
use Prim.Native.Char.{code}
use serena_workspace_orchest.Routing.Suffixed.{
  HasSuffix, has_native_suffix-HasSuffix, HasSuffix-has_native_suffix,
}
use serena_workspace_orchest.Prelude.Strings.{codes, has_prefix, is_empty, eq_iff}
use serena_workspace_orchest.Json.{Value, str}
use serena_workspace_orchest.Routing.Native.{
  FileSystem, is_native_relative_file, is_native_text, is_native_file, is_below, has_native_suffix,
  is_absolute,
}

-- The file that the argument names: a relative text, which resolves to a file below the resolved root
-- whose name has a native suffix.
pub record IsInside (fs : FileSystem) (root : String) (argument : Option Value) : Type 0 where
  pub path : String
  pub is_text : argument ≡ some (str path)
  pub first : ℕ
  pub others : List ℕ
  pub characters : codes path ≡ first ∷ others
  pub relative : first ≢ b'/'
  pub base : List String
  pub has_base : fs.resolve_root root ≡ some base
  pub candidate : List String
  pub resolved : fs.resolve base path ≡ some candidate
  pub inner : List String
  pub below : candidate ≡ base ++ inner
  pub file : fs.is_file candidate ≡ true
  pub suffixed : HasSuffix candidate

is_below-append :
    (base candidate : List String)
    → is_below base candidate ≡ true
    → (inner : List String) × (candidate ≡ base ++ inner)
unfolding is_below
is_below-append [] candidate h = (candidate, refl)
is_below-append (r ∷ base) [] h = cc
is_below-append (r ∷ base) (c ∷ candidate) h =
    let same : c ≡ r = ground (arith, eq_iff r c) in
    let (inner, e) = is_below-append base candidate (ground arith) in
    (inner, ap (λ x. x ∷ candidate) same ∙ ap (λ x. r ∷ x) e)

append-is_below : (base inner : List String) → is_below base (base ++ inner) ≡ true
unfolding is_below
append-is_below [] inner = refl
append-is_below (r ∷ base) inner = rw ((eq_iff r r).1 refl) (append-is_below base inner)

slash : (b : Bool) (c : ℕ) → (b || (b'/' == c && true)) ≡ false → c ≢ b'/'
slash b c h same = ground arith

no_slash : (c : ℕ) (cs : List ℕ) → c ≢ b'/' → has_prefix (b'/' ∷ []) (c ∷ cs) ≡ false
unfolding has_prefix
no_slash c cs differ = elim (Bool-cases (b'/' == c)) [
  | inl e ↦ absurd (differ (ground arith))
  | inr e ↦ rw (e) refl
]

neither : {a b : Bool} → a ≡ false → b ≡ false → (a || b) ≡ false
neither {a} {b} e f = rw (e, f) refl

relative_lem :
    (path : String)
    → (is_empty path || is_absolute path) ≡ false
    → (first : ℕ) × (others : List ℕ) × (codes path ≡ first ∷ others) × (first ≢ b'/')
unfolding is_absolute has_prefix
relative_lem String.[] h = cc
relative_lem (String.◌∷◌ c s) h =
    (code c, codes s, refl, slash (is_empty (String.◌∷◌ c s)) (code c) h)

relative_of :
    (path : String) (first : ℕ) (others : List ℕ)
    → codes path ≡ first ∷ others
    → first ≢ b'/'
    → (is_empty path || is_absolute path) ≡ false
unfolding is_absolute has_prefix
relative_of path first others e differ = elim (Bool-cases (is_empty path)) [
  | inl h ↦ absurd (cc (e, ap (λ p. codes p) ((eq_iff path "").0 h)))
  | inr h ↦ neither h (ap (has_prefix (b'/' ∷ [])) e ∙ no_slash first others differ)
]

inside_parts :
    (fs : FileSystem) (base candidate : List String)
    → (is_below base candidate && fs.is_file candidate && has_native_suffix candidate) ≡ true
    → ((inner : List String) × (candidate ≡ base ++ inner))
      × (fs.is_file candidate ≡ true)
      × HasSuffix candidate
inside_parts fs base candidate h =
    let (front, suffixed) =
      both (is_below base candidate && fs.is_file candidate) (has_native_suffix candidate) h in
    let (below, file) = both (is_below base candidate) (fs.is_file candidate) front in
    (is_below-append base candidate below, file, has_native_suffix-HasSuffix candidate suffixed)
  where
    both : (a b : Bool) → (a && b) ≡ true → (a ≡ true) × (b ≡ true)
    both true b h = (refl, h)
    both false b h = cc

is_native_text-IsInside :
    (fs : FileSystem) (root path : String)
    → is_native_text fs root path ≡ true
    → IsInside fs root (some (str path))
unfolding is_native_text is_native_file
is_native_text-IsInside fs root path h = elim (Bool-cases (is_empty path || is_absolute path)) [
  | inl a ↦ absurd (cc (rw (is_native_text, a) at h))
  | inr a ↦ elim (Option-cases (fs.resolve_root root)) [
    | inl e ↦ absurd (cc (rw (is_native_text, a, e) at h))
    | inr (base, e) ↦ elim (Option-cases (fs.resolve base path)) [
      | inl f ↦ absurd (cc (rw (is_native_text, a, e, is_native_file, f) at h))
      | inr (candidate, f) ↦
          let (first, others, characters, relative) = relative_lem path a in
          let ((inner, below), file, suffixed) =
            inside_parts fs base candidate (rw (is_native_text, a, e, is_native_file, f) at h) in
          record {
            path = path;
            is_text = refl;
            first = first;
            others = others;
            characters = characters;
            relative = relative;
            base = base;
            has_base = e;
            candidate = candidate;
            resolved = f;
            inner = inner;
            below = below;
            file = file;
            suffixed = suffixed;
          }
    ]
  ]
]

IsInside-is_native_text :
    (fs : FileSystem) (root path : String) (argument : Option Value) (h : IsInside fs root argument)
    → is_native_text fs root h.path ≡ true
unfolding is_native_text is_native_file
IsInside-is_native_text fs root path argument h =
    let below : is_below h.base h.candidate ≡ true =
      ap (is_below h.base) h.below ∙ append-is_below h.base h.inner in
    rw
      (
        is_native_text,
        relative_of h.path h.first h.others h.characters h.relative,
        h.has_base,
        is_native_file,
        h.resolved,
        below,
        h.file,
        HasSuffix-has_native_suffix h.candidate h.suffixed,
      )
      refl

of_text :
    (fs : FileSystem) (root path : String)
    → is_native_relative_file fs root (some (str path)) ≡ is_native_text fs root path
unfolding is_native_relative_file
of_text fs root path = refl

IsInside-sound :
    (fs : FileSystem) (root : String) (argument : Option Value)
    → is_native_relative_file fs root argument ≡ true
    → IsInside fs root argument
unfolding is_native_relative_file
IsInside-sound fs root (some (str path)) h = is_native_text-IsInside fs root path h
IsInside-sound fs root none h = absurd (ground arith)
IsInside-sound fs root (some _) h = absurd (ground arith)

-- A path counts as native exactly if it is a text that does not start with a slash and resolves,
-- symbolic links and `..` included, to a file at or below the resolved root, whose name is a first
-- character, a stem and an extension that is a native suffix in lower case.
pub native-IsInside :
    (fs : FileSystem) (root : String) (argument : Option Value)
    → (is_native_relative_file fs root argument ≡ true) ↔ IsInside fs root argument
native-IsInside fs root argument = (
  IsInside-sound fs root argument,
  λ h.
      ap (is_native_relative_file fs root) h.is_text
      ∙ of_text fs root h.path
      ∙ IsInside-is_native_text fs root h.path argument h,
)
