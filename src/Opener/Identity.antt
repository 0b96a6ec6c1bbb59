-- ===== src/Opener/Identity.antt =====
-- The identity that a record of the launch queue names (bin/workspace_harbor_opener_queue.py).
use serena_workspace_orchest.Prelude.{
  ◌≡◌, Bool, true, false, ◌&&◌, none, some, String, arith, Option-cases, inl, inr, ap,
}
use serena_workspace_orchest.Prelude.Int.{ℤ, int_eq, int_eq_iff}
use serena_workspace_orchest.Prelude.Strings.{str_eq, eq_iff}
use serena_workspace_orchest.Prelude.Results.{ok, err}
use serena_workspace_orchest.Json.{
  Value, bool, int, str, Fields, get, as_int, as_str, eq_int, holds_int, holds_str, eq_str,
}
use serena_workspace_orchest.Opener.Process.{process_details}
use serena_workspace_orchest.Opener.Owner.{
  OwnerIdentity, Probe, matches, record_is_live, record_identity, identity_is_live, text_at, pid_at,
  started_at,
}
use serena_workspace_orchest.Opener.Order.{IsEntry}

-- `ps` shows the process of the identity.
unfoldable pub is_alive : Probe → OwnerIdentity → Bool
is_alive probe owner = elim (process_details (probe owner.pid)) [
  | err e ↦ false
  | ok found ↦ elim found [ none ↦ false | some details ↦ started_at details owner.process_started ]
]

unfoldable pub same_identity : OwnerIdentity → OwnerIdentity → Bool
same_identity o p =
    str_eq o.request_id p.request_id
    && int_eq o.pid p.pid
    && str_eq o.process_started p.process_started

eq_int-as_int : (v : Value) (n m : ℤ) → as_int v ≡ some n → eq_int v m ≡ true → n ≡ m
eq_int-as_int (int k) n m a e = ground (arith, int_eq_iff k m)
eq_int-as_int (bool true) n m a e = ground (arith, int_eq_iff n m)
eq_int-as_int (bool false) n m a e = ground (arith, int_eq_iff n m)
eq_int-as_int _ n m a e = absurd (ground arith)

eq_str-as_str : (v : Value) (s t : String) → as_str v ≡ some s → eq_str v t ≡ true → s ≡ t
eq_str-as_str (str x) s t a e = ground (arith, eq_iff x t)
eq_str-as_str _ s t a e = absurd (ground arith)

text_at-holds :
    (k : String) (r : Fields) (s t : String) → text_at k r ≡ some s → holds_str k r t ≡ true → s ≡ t
unfolding text_at
text_at-holds k r s t a h = elim (Option-cases (get k r)) [
  | inl e ↦ absurd (ground arith)
  | inr (v, e) ↦ eq_str-as_str v s t (ground arith) (ground arith)
]

pid_at-holds :
    (k : String) (r : Fields) (n m : ℤ) → pid_at k r ≡ some n → holds_int k r m ≡ true → n ≡ m
unfolding pid_at
pid_at-holds k r n m a h = elim (Option-cases (get k r)) [
  | inl e ↦ absurd (ground arith)
  | inr (v, e) ↦ eq_int-as_int v n m (ground arith) (ground arith)
]

record_identity-parts :
    (r : Fields) (phase : String) (identity : OwnerIdentity)
    → record_identity r phase ≡ ok identity
    → (text_at "request_id" r ≡ some identity.request_id)
      × (pid_at "pid" r ≡ some identity.pid)
      × (text_at "process_started" r ≡ some identity.process_started)
unfolding record_identity
record_identity-parts r phase identity e = ground arith

-- A complete record matches only the identity that it names.
pub entry_identity :
    (r : Fields) (o : OwnerIdentity) (h : IsEntry r)
    → matches r o ≡ true
    → (h.identity.request_id ≡ o.request_id)
      × (h.identity.pid ≡ o.pid)
      × (h.identity.process_started ≡ o.process_started)
unfolding matches
entry_identity r o h m =
    let (a, b, c) = record_identity-parts r "queue-state" h.identity h.identified in
    (
      text_at-holds "request_id" r h.identity.request_id o.request_id a (ground arith),
      pid_at-holds "pid" r h.identity.pid o.pid b (ground arith),
      text_at-holds "process_started" r h.identity.process_started o.process_started c
          (ground arith),
    )

pub same_identity-of-matches :
    (r : Fields) (o p : OwnerIdentity)
    → IsEntry r
    → matches r o ≡ true
    → matches r p ≡ true
    → same_identity o p ≡ true
unfolding same_identity
same_identity-of-matches r o p h mo mp = ground (
  arith,
  entry_identity r o h mo,
  entry_identity r p h mp,
  eq_iff o.request_id p.request_id,
  int_eq_iff o.pid p.pid,
  eq_iff o.process_started p.process_started,
)

-- A record whose process is shown to run is live, if its check does not fail.
pub live_of_alive :
    (probe : Probe) (r : Fields) (o : OwnerIdentity) (live : Bool)
    → IsEntry r
    → matches r o ≡ true
    → is_alive probe o ≡ true
    → record_is_live probe r "queue-state" ≡ ok live
    → record_is_live probe r "queue-state" ≡ ok true
unfolding is_alive record_is_live identity_is_live
live_of_alive probe r o live h m alive e =
    let (a, b, c) = entry_identity r o h m in
    ground (arith, h.identified, ap process_details (ap probe b))
