-- ===== src/Ide/Owned.antt =====
-- Which ports are IntelliJ's own (bin/workspace_harbor_ide.py).
use serena_workspace_orchest.Prelude.{
  ℕ, ◌≡◌, ◌≤◌, refl, sym, ap, subst, ◌∙◌, ◌↔◌, ◌⊎◌, inl, inr, true, List, [], ◌∷◌, ◌++◌, String,
  arith, Occurs, Bool-cases, List-cases,
}
use serena_workspace_orchest.Prelude.Int.{ℤ, pos, int_eq, int_eq_iff}
use serena_workspace_orchest.Prelude.Strings.{codes, strip, split_lines, codes_eq, has_prefix}
use serena_workspace_orchest.Prelude.Reflect.{
  codes_eq_lem, codes_eq_of, prefix_parts, has_prefix_append, any-Occurs, Occurs-any,
}
use serena_workspace_orchest.Opener.Process.{PsRun, unavailable, completed}
use serena_workspace_orchest.Ide.Listening.{
  Listens, processes-Listens, Listens-processes, processes-IsDistinct, single,
}
use serena_workspace_orchest.Ide.Process.{
  is_port, processes, listeners, is_intellij_command, runs_intellij, only_runs, intellij_owned_port,
}

-- A command is an executable, alone or with a space behind it.
abbrev pub Runs : List ℕ → List ℕ → Type 0
Runs executable command =
    (command ≡ executable) ⊎ ((args : List ℕ) × (command ≡ executable ++ 0x20 ∷ args))

append_one : (front back : List ℕ) → (front ++ 0x20 ∷ []) ++ back ≡ front ++ 0x20 ∷ back
append_one [] back = refl
append_one (c ∷ front) back = ap (λ x. c ∷ x) (append_one front back)

is_intellij_command-Runs :
    (command : List ℕ) (executables : List (List ℕ))
    → is_intellij_command command executables ≡ true
    → (executable : List ℕ) × Occurs executable executables × Runs executable command
unfolding is_intellij_command
is_intellij_command-Runs command executables h =
    let (executable, o, t) = any-Occurs _ executables h in
    elim (Bool-cases (codes_eq command executable)) [
      | inl e ↦ (executable, o, inl (codes_eq_lem command executable e))
      | inr e ↦
          let (args, split) = prefix_parts (executable ++ 0x20 ∷ []) command (ground arith) in
          (executable, o, inr (args, split ∙ append_one executable args))
    ]

Runs-is_intellij_command :
    (command executable : List ℕ) (executables : List (List ℕ))
    → Occurs executable executables
    → Runs executable command
    → is_intellij_command command executables ≡ true
unfolding is_intellij_command
Runs-is_intellij_command command executable executables o (inl e) =
    Occurs-any _ executables executable o (rw (codes_eq_of e) refl)
Runs-is_intellij_command command executable executables o (inr (args, e)) =
    Occurs-any _ executables executable o (
      ground (
        arith,
        subst (λ c. has_prefix (executable ++ 0x20 ∷ []) c ≡ true)
            (append_one executable args ∙ sym e) (has_prefix_append (executable ++ 0x20 ∷ []) args),
      ))

-- A port in range on which exactly one process listens, which runs an executable.
pub record IsOwned (port : ℤ) (executables : List (List ℕ)) (lsof : PsRun) (ps : List ℕ → PsRun)
    : Type 0 where
  pub number : ℕ
  pub is_number : port ≡ pos number
  pub in_range : (1 ≤ number) × (number ≤ 65_535)
  pub listing : String
  pub listed : lsof ≡ completed (pos 0) listing
  pub pid : List ℕ
  pub listens : Listens (split_lines (codes listing)) pid
  pub only : (other : List ℕ) → Listens (split_lines (codes listing)) other → other ≡ pid
  pub shown : String
  pub runs : ps pid ≡ completed (pos 0) shown
  pub executable : List ℕ
  pub configured : Occurs executable executables
  pub command : Runs executable (strip (codes shown))

is_port_lem : (port : ℤ) → is_port port ≡ true → (n : ℕ) × (port ≡ pos n) × ((1 ≤ n) × (n ≤ 65_535))
is_port_lem (pos n) h = (n, refl, (ground arith, ground arith))
is_port_lem _ h = absurd (ground arith)

listeners_lem :
    (lsof : PsRun) (pid : List ℕ)
    → listeners lsof ≡ pid ∷ []
    → (listing : String) × (lsof ≡ completed (pos 0) listing)
      × (processes (split_lines (codes listing)) ≡ pid ∷ [])
unfolding listeners
listeners_lem unavailable pid h = cc
listeners_lem (completed code listing) pid h = elim (Bool-cases (int_eq code (pos 0))) [
  | inr e ↦ absurd (cc (rw (e) at h))
  | inl e ↦ (listing, ap (λ c. completed c listing) ((int_eq_iff code (pos 0)).0 e), rw (e) at h)
]

runs_intellij_lem :
    (executables : List (List ℕ)) (run : PsRun)
    → runs_intellij executables run ≡ true
    → (shown : String) × (run ≡ completed (pos 0) shown)
      × (is_intellij_command (strip (codes shown)) executables ≡ true)
unfolding runs_intellij
runs_intellij_lem executables unavailable h = cc
runs_intellij_lem executables (completed code shown) h = elim (Bool-cases (int_eq code (pos 0))) [
  | inr e ↦ absurd (cc (rw (e) at h))
  | inl e ↦ (shown, ap (λ c. completed c shown) ((int_eq_iff code (pos 0)).0 e), rw (e) at h)
]

owned :
    (port : ℤ) (executables : List (List ℕ)) (lsof : PsRun) (ps : List ℕ → PsRun) (pid : List ℕ)
    → is_port port ≡ true
    → listeners lsof ≡ pid ∷ []
    → runs_intellij executables (ps pid) ≡ true
    → IsOwned port executables lsof ps
owned port executables lsof ps pid p l r =
    let (number, is_number, in_range) = is_port_lem port p in
    let (listing, listed, one) = listeners_lem lsof pid l in
    let lines = split_lines (codes listing) in
    let (shown, runs, c) = runs_intellij_lem executables (ps pid) r in
    let (executable, configured, command) =
      is_intellij_command-Runs (strip (codes shown)) executables c in
    record {
      number = number;
      is_number = is_number;
      in_range = in_range;
      listing = listing;
      listed = listed;
      pid = pid;
      listens = processes-Listens lines pid (subst (Occurs pid) (sym one) (inl refl));
      only = λ other named. elim (subst (Occurs other) one (Listens-processes lines other named)) [
        | inl same ↦ same
        | inr none_left ↦ absurd none_left
      ];
      shown = shown;
      runs = runs;
      executable = executable;
      configured = configured;
      command = command;
    }

in_range_lem : {port : ℤ} (n : ℕ) → port ≡ pos n → (1 ≤ n) × (n ≤ 65_535) → is_port port ≡ true
in_range_lem n e (low, high) = subst (λ p. is_port p ≡ true) (sym e) (ground arith)

listeners_of :
    (listing : String)
    → listeners (completed (pos 0) listing) ≡ processes (split_lines (codes listing))
unfolding listeners
listeners_of listing = refl

runs_of :
    (executables : List (List ℕ)) (shown : String)
    → runs_intellij executables (completed (pos 0) shown)
      ≡ is_intellij_command (strip (codes shown)) executables
unfolding runs_intellij
runs_of executables shown = refl

IsOwned-listeners :
    (port : ℤ) (executables : List (List ℕ)) (lsof : PsRun) (ps : List ℕ → PsRun)
    (h : IsOwned port executables lsof ps)
    → listeners lsof ≡ h.pid ∷ []
IsOwned-listeners port executables lsof ps h =
    let lines = split_lines (codes h.listing) in
    ap listeners h.listed
    ∙ listeners_of h.listing
    ∙ single h.pid (processes lines) (processes-IsDistinct lines)
        (Listens-processes lines h.pid h.listens)
        (λ other o. h.only other (processes-Listens lines other o))

IsOwned-runs :
    (port : ℤ) (executables : List (List ℕ)) (lsof : PsRun) (ps : List ℕ → PsRun)
    (h : IsOwned port executables lsof ps)
    → runs_intellij executables (ps h.pid) ≡ true
IsOwned-runs port executables lsof ps h =
    ap (runs_intellij executables) h.runs
    ∙ runs_of executables h.shown
    ∙ Runs-is_intellij_command (strip (codes h.shown)) h.executable executables h.configured
        h.command

IsOwned-sound :
    (port : ℤ) (executables : List (List ℕ)) (lsof : PsRun) (ps : List ℕ → PsRun)
    → intellij_owned_port port executables lsof ps ≡ true
    → IsOwned port executables lsof ps
unfolding intellij_owned_port only_runs
IsOwned-sound port executables lsof ps h = elim (Bool-cases (is_port port)) [
  | inr off ↦ absurd (ground (arith, off))
  | inl p ↦ elim (List-cases (listeners lsof)) [
    | inl e ↦ absurd (ground (arith, p))
    | inr (pid, others, e) ↦ elim (List-cases others) [
      | inr (second, rest, f) ↦ absurd (ground (arith, p))
      | inl f ↦ owned port executables lsof ps pid p (ground arith) (ground (arith, p))
    ]
  ]
]

IsOwned-complete :
    (port : ℤ) (executables : List (List ℕ)) (lsof : PsRun) (ps : List ℕ → PsRun)
    → IsOwned port executables lsof ps
    → intellij_owned_port port executables lsof ps ≡ true
unfolding intellij_owned_port only_runs
IsOwned-complete port executables lsof ps h =
    rw (in_range_lem h.number h.is_number h.in_range, IsOwned-listeners port executables lsof ps h)
      (IsOwned-runs port executables lsof ps h)

-- A port counts as IntelliJ's exactly if its number is from 1 to 65535, lsof ended with code 0 and
-- its lines name exactly one process, ps ended with code 0 for that process, and the command that ps
-- shows is a configured executable, alone or with arguments.
pub intellij_owned_port_iff :
    (port : ℤ) (executables : List (List ℕ)) (lsof : PsRun) (ps : List ℕ → PsRun)
    → (intellij_owned_port port executables lsof ps ≡ true) ↔ IsOwned port executables lsof ps
intellij_owned_port_iff port executables lsof ps =
    (IsOwned-sound port executables lsof ps, IsOwned-complete port executables lsof ps)
