-- ===== src/Opener/LegacyText.antt =====
-- What the owner's file of the old lock names (bin/workspace_harbor_opener_queue.py).
use serena_workspace_orchest.Prelude.{
  ℕ, ◌≡◌, ◌≢◌, ◌≤◌, ◌+◌, refl, sym, ap, subst, ◌∙◌, ◌⊎◌, inl, inr, true, false, not, ◌&&◌, Option,
  none, some, List, [], ◌∷◌, ◌++◌, String, arith, if◌then◌else◌, ◌==◌, length, Occurs, Bool-cases,
  Option-cases,
}
use serena_workspace_orchest.Prelude.Int.{ℤ, pos}
use serena_workspace_orchest.Prelude.Digits.{parse_int}
use serena_workspace_orchest.Prelude.Strings.{codes, codes_eq, has_prefix, split_lines}
use serena_workspace_orchest.Prelude.Reflect.{codes_eq_lem, codes_eq_of, prefix_parts}
use serena_workspace_orchest.Opener.Owner.{is_positive}
use serena_workspace_orchest.Opener.Legacy.{
  LegacyOwner, TextFields, field_of, has_key, partition, parse_fields, legacy_owner, parse_owner,
}

partition_lem : (s key value : List ℕ) → partition s ≡ some (key, value) → s ≡ key ++ b'=' ∷ value
unfolding partition
partition_lem [] key value h = cc
partition_lem (c ∷ cs) key value h = elim (Bool-cases (c == b'=')) [
  | inl e ↦
      let sign : c ≡ b'=' = ground arith in
      let none_before : key ≡ [] = ground arith in
      let rest : cs ≡ value = ground arith in
      ap (λ x. x ∷ cs) sign
      ∙ ap (λ x. b'=' ∷ x) rest
      ∙ ap (λ x. x ++ b'=' ∷ value) (sym none_before)
  | inr e ↦ elim (Option-cases (partition cs)) [
    | inl f ↦ absurd (ground arith)
    | inr ((k, v), f) ↦
        let longer : c ∷ k ≡ key = ground arith in
        let rest : v ≡ value = ground arith in
        ap (λ x. c ∷ x) (partition_lem cs k v f)
        ∙ ap (λ x. x ++ b'=' ∷ v) longer
        ∙ ap (λ x. key ++ b'=' ∷ x) rest
  ]
]

-- A line that is read, with what is read of the rest.
parse_fields-line :
    (line : List ℕ) (lines : List (List ℕ)) (before fields : TextFields)
    → parse_fields (line ∷ lines) before ≡ some fields
    → (key : List ℕ) × (value : List ℕ) × (line ≡ key ++ b'=' ∷ value)
      × (parse_fields lines ((key, value) ∷ before) ≡ some fields)
unfolding parse_fields
parse_fields-line line lines before fields h = elim (Option-cases (partition line)) [
  | inl e ↦ absurd (cc (rw (parse_fields, e) at h))
  | inr ((key, value), e) ↦ elim (Bool-cases (has_key key before)) [
    | inl f ↦ absurd (cc (rw (parse_fields, e, f) at h))
    | inr f ↦ (key, value, partition_lem line key value e, rw (parse_fields, e, f) at h)
  ]
]

abbrev length_of : Option TextFields → ℕ
length_of none = 0
length_of (some fields) = length fields

abbrev from : String → Option TextFields → Option (List ℕ)
from name none = none
from name (some fields) = field_of name fields

parse_fields-length :
    (lines : List (List ℕ)) (before fields : TextFields)
    → parse_fields lines before ≡ some fields
    → length fields ≡ length lines + length before
unfolding parse_fields
parse_fields-length [] before fields h =
    let same : length fields ≡ length before = ap length_of (sym h) in omega (arith, same)
parse_fields-length (line ∷ lines) before fields h =
    let (key, value, split, rest) = parse_fields-line line lines before fields h in
    omega (arith, parse_fields-length lines ((key, value) ∷ before) fields rest)

field_here :
    (name : String) (found key value : List ℕ) (before : TextFields)
    → field_of name ((key, value) ∷ before) ≡ some found
    → ((key ≡ codes name) × (value ≡ found)) ⊎ (field_of name before ≡ some found)
unfolding field_of
field_here name found key value before h = elim (Bool-cases (codes_eq key (codes name))) [
  | inl e ↦ inl (codes_eq_lem key (codes name) e, ground arith)
  | inr e ↦ inr (rw (field_of, e) at h)
]

-- A field is one of before, or that of a line.
field_of-Occurs :
    (name : String) (found : List ℕ) (lines : List (List ℕ)) (before fields : TextFields)
    → parse_fields lines before ≡ some fields
    → field_of name fields ≡ some found
    → Occurs (codes name ++ b'=' ∷ found) lines ⊎ (field_of name before ≡ some found)
unfolding parse_fields
field_of-Occurs name found [] before fields h f = inr (ap (from name) h ∙ f)
field_of-Occurs name found (line ∷ lines) before fields h f =
    let (key, value, split, rest) = parse_fields-line line lines before fields h in
    elim (field_of-Occurs name found lines ((key, value) ∷ before) fields rest f) [
      | inl there ↦ inl (inr there)
      | inr here ↦ elim (field_here name found key value before here) [
        | inl (k, v) ↦ inl (
            inl
              (ap (λ x. x ++ b'=' ∷ found) (sym k) ∙ ap (λ x. key ++ b'=' ∷ x) (sym v) ∙ sym split))
        | inr further ↦ inr further
      ]
    ]

from_line :
    (name : String) (found : List ℕ) (lines : List (List ℕ)) (fields : TextFields)
    → parse_fields lines [] ≡ some fields
    → field_of name fields ≡ some found
    → Occurs (codes name ++ b'=' ∷ found) lines
unfolding field_of
from_line name found lines fields h f = elim (field_of-Occurs name found lines [] fields h f) [
  | inl there ↦ there
  | inr nowhere ↦ absurd (cc nowhere)
]

-- The text of the owner's file: three lines, in any order, with the process, its start time and an
-- absolute path.
pub record NamesOwner (text : String) (owner : LegacyOwner) : Type 0 where
  pub three : length (split_lines (codes text)) ≡ 3
  pub pid_text : List ℕ
  pub pid_line : Occurs (codes "pid=" ++ pid_text) (split_lines (codes text))
  pub number : parse_int 10 pid_text ≡ some owner.pid
  pub pid : ℕ
  pub positive : (owner.pid ≡ pos pid) × (1 ≤ pid)
  pub started_line :
      Occurs (codes "process_started=" ++ owner.process_started) (split_lines (codes text))
  pub started : owner.process_started ≢ []
  pub root : List ℕ
  pub root_line : Occurs (codes "project_root=/" ++ root) (split_lines (codes text))

-- The values of three fields that name an owner.
record Values (fields : TextFields) (owner : LegacyOwner) : Type 0 where
  three : length fields ≡ 3
  pid_text : List ℕ
  has_pid : field_of "pid" fields ≡ some pid_text
  has_started : field_of "process_started" fields ≡ some owner.process_started
  root : List ℕ
  has_root : field_of "project_root" fields ≡ some root
  number : parse_int 10 pid_text ≡ some owner.pid
  positive : is_positive owner.pid ≡ true
  started : codes_eq owner.process_started [] ≡ false
  absolute : has_prefix (b'/' ∷ []) root ≡ true

is_positive_lem : (n : ℤ) → is_positive n ≡ true → (m : ℕ) × ((n ≡ pos m) × (1 ≤ m))
unfolding is_positive
is_positive_lem (pos n) h = (n, (refl, ground arith))
is_positive_lem _ h = absurd (ground arith)

owner_values :
    (pid : ℤ) (started root : List ℕ) (owner : LegacyOwner)
    → (if is_positive pid && not (codes_eq started []) && has_prefix (b'/' ∷ []) root
        then some (record { pid = pid; process_started = started })
        else none)
      ≡ some owner
    → (pid ≡ owner.pid)
      × (started ≡ owner.process_started)
      × (is_positive pid ≡ true)
      × (codes_eq started [] ≡ false)
      × (has_prefix (b'/' ∷ []) root ≡ true)
owner_values pid started root owner h =
    elim (Bool-cases
      (is_positive pid && not (codes_eq started []) && has_prefix (b'/' ∷ []) root)) [
        | inr e ↦ absurd (cc (rw (e) at h))
        | inl e ↦
            let same : ◌≡◌ {A = LegacyOwner} (record { pid = pid; process_started = started })
                owner =
              cc (rw (e) at h) in
            (
              ap (λ o. o.pid) same,
              ap (λ o. o.process_started) same,
              ground arith,
              ground arith,
              ground arith,
            )
      ]

legacy_owner-Values :
    (fields : TextFields) (owner : LegacyOwner)
    → legacy_owner fields ≡ some owner
    → Values fields owner
unfolding legacy_owner
legacy_owner-Values (a ∷ b ∷ c ∷ []) owner h =
    let fields = a ∷ b ∷ c ∷ [] in
    elim (Option-cases (field_of "pid" fields)) [
      | inl e ↦ absurd (cc (rw (legacy_owner, e) at h))
      | inr (pid_text, e) ↦ elim (Option-cases (field_of "process_started" fields)) [
        | inl f ↦ absurd (cc (rw (legacy_owner, e, f) at h))
        | inr (started, f) ↦ elim (Option-cases (field_of "project_root" fields)) [
          | inl g ↦ absurd (cc (rw (legacy_owner, e, f, g) at h))
          | inr (root, g) ↦ elim (Option-cases (parse_int 10 pid_text)) [
            | inl k ↦ absurd (cc (rw (legacy_owner, e, f, g, k) at h))
            | inr (pid, k) ↦
                let (p, s, positive, filled, absolute) =
                  owner_values pid started root owner (rw (legacy_owner, e, f, g, k) at h) in
                record {
                  three = refl;
                  pid_text = pid_text;
                  has_pid = e;
                  has_started = f ∙ ap some s;
                  root = root;
                  has_root = g;
                  number = k ∙ ap some p;
                  positive = subst (λ n. is_positive n ≡ true) p positive;
                  started = subst (λ x. codes_eq x [] ≡ false) s filled;
                  absolute = absolute;
                }
          ]
        ]
      ]
    ]
legacy_owner-Values [] owner h = cc
legacy_owner-Values (a ∷ []) owner h = cc
legacy_owner-Values (a ∷ b ∷ []) owner h = cc
legacy_owner-Values (a ∷ b ∷ c ∷ d ∷ rest) owner h = cc

pub parse_owner-NamesOwner :
    (text : String) (owner : LegacyOwner)
    → parse_owner (some text) ≡ some owner
    → NamesOwner text owner
unfolding parse_owner codes_eq
parse_owner-NamesOwner text owner h =
    let lines = split_lines (codes text) in
    elim (Option-cases (parse_fields lines [])) [
      | inl e ↦ absurd (cc (rw (parse_owner, e) at h))
      | inr (fields, e) ↦
          let values = legacy_owner-Values fields owner (rw (parse_owner, e) at h) in
          let size = parse_fields-length lines [] fields e in
          let line = λ (name : String) (value : List ℕ) (f : field_of name fields ≡ some value).
            from_line name value lines fields e f in
          let (root, absolute) = prefix_parts (b'/' ∷ []) values.root values.absolute in
          let (pid, positive) = is_positive_lem owner.pid values.positive in
          record {
            three = omega (arith, size, values.three);
            pid_text = values.pid_text;
            pid_line = line "pid" values.pid_text values.has_pid;
            number = values.number;
            pid = pid;
            positive = positive;
            started_line = line "process_started" owner.process_started values.has_started;
            started = λ same. cc (values.started, codes_eq_of same);
            root = root;
            root_line =
                subst (λ r. Occurs (codes "project_root=" ++ r) lines) absolute
                  (line "project_root" values.root values.has_root);
          }
    ]
