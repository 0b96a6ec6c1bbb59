-- ===== src/Bridge/Kept.antt =====
-- What the bridge's journal keeps (bin/workspace_harbor_bridge.py).
use serena_workspace_orchest.Prelude.{
  ℕ, zero, suc, ◌+◌, ◌-◌, ◌≤◌, ◌≡◌, refl, sym, ap, inl, inr, Bool, true, false, ◌&&◌, ◌||◌, Option,
  none, some, List, [], ◌∷◌, ◌++◌, String, arith, leb, ◌==◌, Bool-cases, Option-cases, length, ◌∙◌,
}
use serena_workspace_orchest.Prelude.Strings.{eq_refl}
use serena_workspace_orchest.Bridge.Journal.{
  BridgeEvent, is_valid_event, Line, Files, total_size, file_size, move_found, move_up, rotate,
  rotate_if_needed, lines_of, write_line, append, is_digest, select, records, drop_first, recent,
}

total_size-append : (xs ys : List Line) → total_size (xs ++ ys) ≡ total_size xs + total_size ys
unfolding total_size
total_size-append [] ys = omega arith
total_size-append (x ∷ xs) ys = omega (arith, total_size-append xs ys)

-- No file of the journal is larger than the bound.
abbrev pub IsBounded : ℕ → Files → Type 0
IsBounded bound files = (i : ℕ) → file_size (files i) ≤ bound

move_found-IsBounded :
    (bound index : ℕ) (files : Files) (found : Option (List Line))
    → IsBounded bound files
    → file_size found ≤ bound
    → IsBounded bound (move_found index files found)
unfolding move_found file_size
move_found-IsBounded bound index files none h small i = h i
move_found-IsBounded bound index files (some ls) h small i = elim (Bool-cases (i == suc index)) [
  | inl f ↦ rw (f) small
  | inr f ↦ elim (Bool-cases (i == index)) [
    | inl g ↦ rw (f, g) (omega arith)
    | inr g ↦ rw (f, g) (h i)
  ]
]

move_up-IsBounded :
    (bound index : ℕ) (files : Files)
    → IsBounded bound files
    → IsBounded bound (move_up index files)
unfolding move_up
move_up-IsBounded bound index files h =
    move_found-IsBounded bound index files (files index) h (h index)

rotate-IsBounded :
    (bound backups : ℕ) (files : Files)
    → IsBounded bound files
    → IsBounded bound (rotate backups files)
unfolding rotate
rotate-IsBounded bound zero files h = h
rotate-IsBounded bound (suc index) files h =
    rotate-IsBounded bound index (move_up index files) (move_up-IsBounded bound index files h)

move_found-none :
    (files : Files) (found : Option (List Line))
    → files 0 ≡ found
    → move_found 0 files found 0 ≡ none
unfolding move_found
move_found-none files none e = e
move_found-none files (some ls) e = refl

-- After a rotation the journal itself is gone.
rotate-none : (backups : ℕ) (files : Files) → rotate (suc backups) files 0 ≡ none
unfolding rotate move_up
rotate-none zero files = move_found-none files (files 0) refl
rotate-none (suc index) files = rotate-none index (move_up (suc index) files)

rotated-size :
    (max_bytes backups incoming : ℕ) (files : Files)
    → incoming ≤ max_bytes
    → file_size (rotate_if_needed max_bytes (suc backups) incoming files 0) + incoming ≤ max_bytes
unfolding rotate_if_needed
rotated-size max_bytes backups incoming files fits =
    elim (Bool-cases (file_size (files 0) == 0 || leb (file_size (files 0) + incoming) max_bytes)) [
      | inl e ↦ rw (e) (ground arith)
      | inr e ↦ rw (e, rotate-none backups files, file_size) (omega (arith, fits))
    ]

rotate_if_needed-IsBounded :
    (bound max_bytes backups incoming : ℕ) (files : Files)
    → IsBounded bound files
    → IsBounded bound (rotate_if_needed max_bytes backups incoming files)
unfolding rotate_if_needed
rotate_if_needed-IsBounded bound max_bytes backups incoming files h =
    elim (Bool-cases (file_size (files 0) == 0 || leb (file_size (files 0) + incoming) max_bytes)) [
      | inl e ↦ rw (e) h
      | inr e ↦ rw (e) (rotate-IsBounded bound backups files h)
    ]

lines_of-size : (file : Option (List Line)) → total_size (lines_of file) ≡ file_size file
unfolding file_size total_size
lines_of-size none = refl
lines_of-size (some ls) = refl

write_line-IsBounded :
    (bound : ℕ) (l : Line) (files : Files)
    → IsBounded bound files
    → file_size (files 0) + l.bytes ≤ bound
    → IsBounded bound (write_line l files)
unfolding write_line file_size total_size
write_line-IsBounded bound l files h fits i = elim (Bool-cases (i == 0)) [
  | inl e ↦
      rw (e, total_size-append (lines_of (files 0)) (l ∷ []), lines_of-size (files 0))
        (omega (arith, fits))
  | inr e ↦ rw (e) (h i)
]

-- If there is a backup at least, no file is larger than the limit, and the event's line is not,
-- then no file is larger after the event is appended.
pub append-IsBounded :
    (size : BridgeEvent → ℕ) (max_bytes backups : ℕ) (ready : Bool) (event : BridgeEvent)
    (files : Files)
    → IsBounded max_bytes files
    → size event ≤ max_bytes
    → IsBounded max_bytes (append size max_bytes (suc backups) ready event files).0
unfolding append
append-IsBounded size max_bytes backups ready event files h fits =
    elim (Bool-cases (is_valid_event event && ready)) [
      | inr e ↦ rw (e) h
      | inl e ↦ rw (e) (
          write_line-IsBounded max_bytes (record { bytes = size event; event = some event })
            (rotate_if_needed max_bytes (suc backups) (size event) files)
            (rotate_if_needed-IsBounded max_bytes max_bytes (suc backups) (size event) files h)
            (rotated-size max_bytes backups (size event) files fits))
    ]

select-append :
    (expected : String) (xs ys : List Line)
    → select expected (xs ++ ys) ≡ select expected xs ++ select expected ys
unfolding select
select-append expected [] ys = refl
select-append expected (l ∷ xs) ys = elim (Option-cases l.event) [
  | inl e ↦ rw (e) (select-append expected xs ys)
  | inr (event, e) ↦
      elim (Bool-cases (is_valid_event event && is_digest expected event.root_digest)) [
        | inl f ↦ rw (e, f, select-append expected xs ys) refl
        | inr f ↦ rw (e, f) (select-append expected xs ys)
      ]
]

append_assoc : (xs ys zs : List BridgeEvent) → (xs ++ ys) ++ zs ≡ xs ++ (ys ++ zs)
append_assoc [] ys zs = refl
append_assoc (x ∷ xs) ys zs = rw (append_assoc xs ys zs) refl

write_line-zero :
    (l : Line) (files : Files) → write_line l files 0 ≡ some (lines_of (files 0) ++ l ∷ [])
unfolding write_line
write_line-zero l files = refl

write_line-suc :
    (l : Line) (files : Files) (index : ℕ) → write_line l files (suc index) ≡ files (suc index)
unfolding write_line
write_line-suc l files index =
    let apart : (suc index == 0) ≡ false = ground arith in rw (apart) refl

both_true : (a b : Bool) → (a && b) ≡ true → a ≡ true
both_true a b h = ground arith

not_zero : (n : ℕ) → 1 ≤ n → (n == 0) ≡ false
not_zero n h = ground arith

records-write_line :
    (expected : String) (backups : ℕ) (l : Line) (files : Files)
    → records expected backups (write_line l files)
      ≡ records expected backups files ++ select expected (l ∷ [])
unfolding records
records-write_line expected zero l files =
    rw (write_line-zero l files) (select-append expected (lines_of (files 0)) (l ∷ []))
records-write_line expected (suc index) l files =
    rw (write_line-suc l files index, records-write_line expected index l files)
      (sym (
        append_assoc (select expected (lines_of (files (suc index)))) (records expected index files)
          (select expected (l ∷ []))))

drop_first-append :
    (n : ℕ) (events : List BridgeEvent) (event : BridgeEvent)
    → n ≤ length events
    → drop_first n (events ++ event ∷ []) ≡ drop_first n events ++ event ∷ []
unfolding drop_first
drop_first-append zero events event h = refl
drop_first-append (suc n) [] event h = absurd (omega arith)
drop_first-append (suc n) (e ∷ events) event h = drop_first-append n events event (omega arith)

length_of_one_more :
    (events : List BridgeEvent) (event : BridgeEvent)
    → length (events ++ event ∷ []) ≡ suc (length events)
length_of_one_more [] event = refl
length_of_one_more (e ∷ events) event = ap suc (length_of_one_more events event)

length-drop_first :
    (n : ℕ) (events : List BridgeEvent) → length (drop_first n events) ≡ length events - n
unfolding drop_first
length-drop_first zero events = omega arith
length-drop_first (suc n) [] = omega arith
length-drop_first (suc n) (e ∷ events) = omega (arith, length-drop_first n events)

-- There are never more recent events than the limit.
pub recent_bound :
    (backups : ℕ) (expected : String) (limit : ℕ) (files : Files)
    → length (recent backups expected limit files) ≤ limit
unfolding recent
recent_bound backups expected limit files = elim (Bool-cases (limit == 0)) [
  | inl e ↦ rw (e) (omega arith)
  | inr e ↦
      rw
        (
          e,
          length-drop_first (length (records expected backups files) - limit)
              (records expected backups files),
        )
        (omega arith)
]

-- An event that was appended is the last of the recent events of its root, for every limit of at
-- least 1.
pub append_is_recent :
    (size : BridgeEvent → ℕ) (max_bytes backups : ℕ) (ready : Bool) (event : BridgeEvent)
    (files : Files) (expected : String) (limit : ℕ)
    → (append size max_bytes backups ready event files).1 ≡ true
    → event.root_digest ≡ some expected
    → 1 ≤ limit
    → (before : List BridgeEvent) × (recent backups expected limit
          (append size max_bytes backups ready event files).0
        ≡ before ++ event ∷ [])
unfolding append recent select
append_is_recent size max_bytes backups ready event files expected limit done of_root positive =
    elim (Bool-cases (is_valid_event event && ready)) [
      | inr e ↦ absurd (ground arith)
      | inl e ↦
          let kept = rotate_if_needed max_bytes backups (size event) files in
          let found = records expected backups kept in
          let valid = both_true (is_valid_event event) ready e in
          let l : Line = record { bytes = size event; event = some event } in
          let one : select expected (l ∷ []) ≡ event ∷ [] =
            rw (valid, of_root, eq_refl expected) refl in
          let all_found : records expected backups (write_line l kept) ≡ found ++ event ∷ [] =
            records-write_line expected backups l kept ∙ ap (λ x. found ++ x) one in
          let limited = not_zero limit positive in
          (
            drop_first (suc (length found) - limit) found,
            rw (e, limited, all_found, length_of_one_more found event)
                (drop_first-append (suc (length found) - limit) found event (omega arith)),
          )
    ]
