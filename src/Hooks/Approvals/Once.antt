-- ===== src/Hooks/Approvals/Once.antt =====
-- An approval that was settled, in any later run of calls.
use text.Mathlib.TextEquality.{eq_iff}
use mathlib.Core.Path.{subst}
use terminal_x.Common.{
  ℕ, ◌≡◌, ◌≢◌, ◌⊎◌, inl, inr, refl, ap, Bool, true, false, String, Option, none, some, List, [],
  ◌∷◌, All, arith, string_key, nat_key, ◌==◌, Bool-cases, Option-cases,
}
use terminal_x.Common.Maps.{lookup}
use terminal_x.Proto.Messages.{Approval, ApprovalStatus, is_pending}
use terminal_x.Hooks.Approvals.{
  Store, Pending, Choice, Decision, add, register, duplicate, decide, close, close_each,
  close_session, pending_for_session, receive, sweep, get, pending_item,
}
use terminal_x.Hooks.Approvals.Settled.{
  Settles, decide_lem, close_lem, status_of-not_pending, get-register,
}
use terminal_x.Hooks.Approvals.Invariant.{Inv, decide-Inv, close-Inv}
use terminal_x.Hooks.Approvals.Runs.{
  Call, step, run, step-Inv, closing, lookup-sweep_items, receive-chans,
}

-- No pending approval has the key.
abbrev Closed : String → Store → Type 0
Closed key s = pending_item s key ≡ none

-- A call that does not register the key.
abbrev pub Other : String → Call → Type 0
Other key (Call.adds a) = a.key ≢ key
Other key _ = Unit

get-Closed : (key : String) (s s' : Store) → get s' key ≡ get s key → Closed key s → Closed key s'
unfolding get
get-Closed key s s' e n = elim (Option-cases (lookup key s'.items)) [
  | inl f ↦ ground (arith, f)
  | inr (p, f) ↦ elim (Option-cases (lookup key s.items)) [
    | inl g ↦ ground (arith, e, f, g, n)
    | inr (q, g) ↦ ground (arith, e, f, g, n)
  ]
]

-- What settles another key, or this one, leaves it closed.
Settles-Closed :
    (key j : String) (s s' : Store) (p : Pending) (status : ApprovalStatus) (by : String) (now : ℕ)
    → is_pending status ≡ false
    → Settles s s' j p status by now
    → Closed key s
    → Closed key s'
Settles-Closed key j s s' p status by now np d n = elim (Bool-cases (key == j)) [
  | inl e ↦
      subst (λ i. Closed i s') ((eq_iff j key).0 (ground (arith, e, eq_iff key j, eq_iff j key)))
        (d.no_longer np)
  | inr e ↦ get-Closed key s s' (d.others key (λ q. ground (arith, e, eq_iff key j, q))) n
]

decide-Closed :
    (key j : String) (s : Store) (choice : Choice) (by : String) (now : ℕ)
    → Closed key s
    → Closed key (decide s j choice by now).1
decide-Closed key j s choice by now n =
    let (refused, settles) = decide_lem s j choice by now in
    elim (Option-cases (pending_item s j)) [
      | inl e ↦ rw (refused e) n
      | inr (p, e) ↦
          Settles-Closed key j s _ p _ by now (status_of-not_pending choice) (settles p e).1 n
    ]

close-Closed :
    (key j : String) (s : Store) (status : ApprovalStatus) (by : String) (now : ℕ)
    → is_pending status ≡ false
    → Closed key s
    → Closed key (close s j status by now).1
close-Closed key j s status by now np n =
    let (refused, settles) = close_lem s j status by now in
    elim (Option-cases (pending_item s j)) [
      | inl e ↦ rw (refused e) n
      | inr (p, e) ↦ Settles-Closed key j s _ p _ by now np (settles p e).1 n
    ]

close_each-Closed :
    (key : String) (s : Store) (as' : List Approval) (status : ApprovalStatus) (by : String)
    (now : ℕ)
    → is_pending status ≡ false
    → Closed key s
    → Closed key (close_each s as' status by now).1
unfolding close_each
close_each-Closed key s [] status by now np n = n
close_each-Closed key s (a ∷ as') status by now np n =
    close_each-Closed key (close s a.key status by now).1 as' status by now np
      (close-Closed key a.key s status by now np n)

add-Closed :
    (key : String) (s : Store) (a : Approval) (now : ℕ)
    → a.key ≢ key
    → Closed key s
    → Closed key (add s a now).2
unfolding add
add-Closed key s a now ne n =
    let fresh = record a { status = ApprovalStatus.pending } in
    elim (Option-cases (duplicate s a now)) [
      | inr (old, e) ↦ rw (e, add) n
      | inl e ↦
          rw (e, add)
            (get-Closed key s (register s fresh)
              (ground (arith, ne, eq_iff a.key key, get-register s fresh key)) n)
    ]

sweep-Closed :
    (key : String) (s : Store) (max_age now : ℕ)
    → Inv s
    → Closed key s
    → Closed key (sweep s max_age now)
unfolding sweep
sweep-Closed key s max_age now v n =
    ground (arith, n, lookup-sweep_items key now max_age s.items v.distinct)

receive-Closed :
    (key : String) (s s' : Store) (c : ℕ) (d : Decision)
    → receive s c ≡ some (d, s')
    → Closed key s
    → Closed key s'
receive-Closed key s s' c d r n = subst (Closed key) (receive-chans s s' c d r).1 n

step-Closed :
    (key : String) (s : Store) (now : ℕ) (c : Call)
    → Inv s
    → Other key c
    → Closed key s
    → Closed key (step s now c)
unfolding step close_session
step-Closed key s now (Call.adds a) v o n = add-Closed key s a now o n
step-Closed key s now (Call.decides j choice by) v o n = decide-Closed key j s choice by now n
step-Closed key s now (Call.closes j true by) v o n = close-Closed key j s _ by now refl n
step-Closed key s now (Call.closes j false by) v o n = close-Closed key j s _ by now refl n
step-Closed key s now (Call.closes_session sid by) v o n =
    close_each-Closed key s (pending_for_session s sid) _ by now refl n
step-Closed key s now (Call.receives c) v o n = elim (Option-cases (receive s c)) [
  | inl e ↦ rw e n
  | inr ((d, s'), e) ↦ rw e (receive-Closed key s s' c d e n)
]
step-Closed key s now (Call.sweeps max_age) v o n = sweep-Closed key s max_age now v n

run-Closed :
    (key : String) (s : Store) (cs : List (ℕ × Call))
    → Inv s
    → All (λ c. Other key c.1) cs
    → Closed key s
    → Closed key (run s cs)
unfolding run
run-Closed key s [] v os n = n
run-Closed key s ((now, c) ∷ cs) v (o, os) n =
    run-Closed key (step s now c) cs (step-Inv s now c v) os (step-Closed key s now c v o n)

decided-Closed :
    (s : Store) (key : String) (choice : Choice) (by : String) (now : ℕ) (a : Approval)
    → (decide s key choice by now).0 ≡ some a
    → Closed key (decide s key choice by now).1
decided-Closed s key choice by now a e =
    let (refused, settles) = decide_lem s key choice by now in
    elim (Option-cases (pending_item s key)) [
      | inl n ↦ cc (refused n)
      | inr (p, q) ↦ (settles p q).1.no_longer (status_of-not_pending choice)
    ]

closing-Closed :
    (s : Store) (key : String) (timeout : Bool) (by : String) (now : ℕ) (a : Approval)
    → (close s key (closing timeout) by now).0 ≡ some a
    → Closed key (close s key (closing timeout) by now).1
closing-Closed s key timeout by now a e =
    let (refused, settles) = close_lem s key (closing timeout) by now in
    elim (Option-cases (pending_item s key)) [
      | inl n ↦ cc (refused n)
      | inr (p, q) ↦ (settles p q).1.no_longer (ground arith)
    ]

-- Once an approval of a store that keeps its invariant is decided, or closed by the local terminal or a
-- timeout, then after any further calls, among them decisions, closings and sweeps, none of which
-- registers its key again, no decision and no closing of it succeeds or changes the store.
pub settled_once :
    (s s' : Store) (key : String) (choice : Choice) (timeout : Bool) (by : String) (now : ℕ)
    (a : Approval) (cs : List (ℕ × Call))
    → Inv s
    → (decide s key choice by now ≡ (some a, s'))
      ⊎ (close s key (closing timeout) by now ≡ (some a, s'))
    → All (λ c. Other key c.1) cs
    → (later : Choice) (end : ApprovalStatus) (who : String) (t : ℕ)
    → (decide (run s' cs) key later who t ≡ (none, run s' cs))
      × (close (run s' cs) key end who t ≡ (none, run s' cs))
settled_once s s' key choice timeout by now a cs v h os later end who t =
    let shut = run-Closed key s' cs kept os gone in
    ((decide_lem (run s' cs) key later who t).0 shut, (close_lem (run s' cs) key end who t).0 shut)
  where
    ap_first : {x : Option Approval × Store} → x ≡ (some a, s') → x.0 ≡ some a
    ap_first e = ap (λ y. y.0) e

    gone : Closed key s'
    gone = elim h [
      | inl e ↦ subst (λ x. Closed key x.1) e (decided-Closed s key choice by now a (ap_first e))
      | inr e ↦ subst (λ x. Closed key x.1) e (closing-Closed s key timeout by now a (ap_first e))
    ]

    kept : Inv s'
    kept = elim h [
      | inl e ↦ subst (λ x. Inv x.1) e (decide-Inv s key choice by now v)
      | inr e ↦ subst (λ x. Inv x.1) e (close-Inv s key (closing timeout) by now (ground arith) v)
    ]
