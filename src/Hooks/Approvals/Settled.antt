-- ===== src/Hooks/Approvals/Settled.antt =====
-- What one call does with an approval, and the calls after it.
use text.Mathlib.TextEquality.{eq_iff}
use text.Mathlib.TextPositions.{eq_refl}
use terminal_x.Common.{
  ℕ, ◌+◌, ◌<◌, ◌≡◌, ◌≢◌, refl, true, false, String, none, some, arith, if◌then◌else◌, string_key,
  ◌==◌,
}
use terminal_x.Common.Maps.{lookup, lookup-adjust, lookup-insert}
use terminal_x.Proto.Messages.{Approval, ApprovalStatus, is_pending}
use terminal_x.Hooks.Approvals.{
  Store, Pending, Choice, Decision, add, decide, close, get, pending_item, mark, status_of, settle,
  register, duplicate, dedupe_window,
}

-- What one method call did with an approval: it got the status and the decider, and no other
-- approval changed.
pub record Settles (s s' : Store) (key : String) (p : Pending) (status : ApprovalStatus)
    (by : String) (now : ℕ) : Type 0 where
  pub recorded : get s' key ≡ some (mark status by now p.a)
  pub others : (j : String) → j ≢ key → get s' j ≡ get s j
  pub no_longer : (is_pending status ≡ false) → pending_item s' key ≡ none

settle-Settles :
    (s : Store) (key : String) (p : Pending) (status : ApprovalStatus) (by : String) (now : ℕ)
    (d : Decision)
    → lookup key s.items ≡ some p
    → Settles s (settle s key p status by now d).1 key p status by now
unfolding settle get
settle-Settles s key p status by now d e = record {
  recorded = ground (
    arith,
    eq_refl key,
    lookup-adjust key key (λ q. record q { a = mark status by now q.a }) s.items,
  );
  others = λ j ne. ground (
    arith,
    eq_iff key j,
    lookup-adjust j key (λ q. record q { a = mark status by now q.a }) s.items,
  );
  no_longer = λ np. ground (
    arith,
    eq_refl key,
    lookup-adjust key key (λ q. record q { a = mark status by now q.a }) s.items,
  );
}

pub pending_item-lookup :
    (s : Store) (key : String) (p : Pending)
    → pending_item s key ≡ some p
    → (lookup key s.items ≡ some p) × (is_pending p.a.status ≡ true)
pending_item-lookup s key p e = ground arith

pub decide_lem :
    (s : Store) (key : String) (choice : Choice) (by : String) (now : ℕ)
    → (pending_item s key ≡ none → decide s key choice by now ≡ (none, s))
      × ((p : Pending)
          → pending_item s key ≡ some p
          → ((decide s key choice by now).0 ≡ some (mark (status_of choice) by now p.a))
            × Settles s (decide s key choice by now).1 key p (status_of choice) by now)
unfolding decide
decide_lem s key choice by now = (
  λ e. rw (e, decide),
  λ p e. (
    rw (e, decide) (unfold settle in refl),
    rw (e, decide) (settle-Settles s key p _ by now _ (pending_item-lookup s key p e).0),
  ),
)

pub close_lem :
    (s : Store) (key : String) (status : ApprovalStatus) (by : String) (now : ℕ)
    → (pending_item s key ≡ none → close s key status by now ≡ (none, s))
      × ((p : Pending)
          → pending_item s key ≡ some p
          → ((close s key status by now).0 ≡ some (mark status by now p.a))
            × Settles s (close s key status by now).1 key p status by now)
unfolding close
close_lem s key status by now = (
  λ e. rw (e, close),
  λ p e. (
    rw (e, close) (unfold settle in refl),
    rw (e, close) (settle-Settles s key p status by now _ (pending_item-lookup s key p e).0),
  ),
)

pub status_of-not_pending : (c : Choice) → is_pending (status_of c) ≡ false
status_of-not_pending c = ground arith

pub get-register :
    (s : Store) (a : Approval) (j : String)
    → get (register s a) j ≡ (if a.key == j then some a else get s j)
unfolding get register
get-register s a j = ground (
  arith,
  lookup-insert j a.key (record { a = a; ch = some s.next_chan }) s.items,
  lookup-insert j a.key (record { a = a; ch = none }) s.items,
)

duplicate-register :
    (s : Store) (a : Approval) (later : ℕ)
    → a.status ≡ ApprovalStatus.pending
    → later < a.created_at + dedupe_window
    → duplicate (register s a) a later ≡ some a
unfolding register
duplicate-register s a later e l = ground (
  arith,
  eq_refl a.key,
  lookup-insert a.key a.key (record { a = a; ch = some s.next_chan }) s.items,
  lookup-insert a.key a.key (record { a = a; ch = none }) s.items,
)

-- A decision about a pending approval returns it with the status allowed exactly for the text allow,
-- and otherwise denied, stores just that, and leaves it not pending.
pub decide_pending :
    (s : Store) (key j : String) (choice : Choice) (by : String) (now : ℕ) (p : Pending)
    → pending_item s key ≡ some p
    → ((decide s key choice by now).0 ≡ some (mark (status_of choice) by now p.a))
      × (get (decide s key choice by now).1 j
          ≡ (if key == j then some (mark (status_of choice) by now p.a) else get s j))
      × (pending_item (decide s key choice by now).1 key ≡ none)
decide_pending s key j choice by now p e =
    let (r, d) = (decide_lem s key choice by now).1 p e in
    (
      r,
      ground (arith, eq_iff key j, d.recorded, d.others j),
      d.no_longer (status_of-not_pending choice),
    )

-- A repeated request within the dedupe window of a pending one is answered with the stored approval
-- and changes nothing.
pub add_duplicate :
    (s : Store) (a : Approval) (p : Pending) (now : ℕ)
    → lookup a.key s.items ≡ some p
    → is_pending p.a.status ≡ true
    → now < p.a.created_at + dedupe_window
    → add s a now ≡ (p.a, true, s)
unfolding add
add_duplicate s a p now h o l = ground arith

-- A request that repeats none is stored as pending, under its key alone, and for the dedupe window
-- from its creation on, the store recognises its repetition.
pub add_fresh :
    (s : Store) (a : Approval) (now later : ℕ) (j : String)
    → duplicate s a now ≡ none
    → later < a.created_at + dedupe_window
    → ((add s a now).0 ≡ record a { status = ApprovalStatus.pending })
      × ((add s a now).1 ≡ false)
      × (get (add s a now).2 j
          ≡ (if a.key == j then some (record a { status = ApprovalStatus.pending }) else get s j))
      × (duplicate (add s a now).2 a later ≡ some (record a { status = ApprovalStatus.pending }))
unfolding add
add_fresh s a now later j e l =
    let fresh = record a { status = ApprovalStatus.pending } in
    rw (e, add) (refl, refl, get-register s fresh j, duplicate-register s fresh later refl l)
