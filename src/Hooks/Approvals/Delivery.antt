-- ===== src/Hooks/Approvals/Delivery.antt =====
-- The way of a decision to the handler that is blocked on it.
use terminal_x.Common.{
  ℕ, ◌≡◌, inl, inr, true, String, Option, none, some, arith, string_key, nat_key, Option-cases,
}
use terminal_x.Common.Maps.{lookup, insert, lookup-adjust, lookup-insert}
use terminal_x.Proto.Messages.{is_hook}
use terminal_x.Hooks.Approvals.Invariant.{Inv}
use terminal_x.Hooks.Approvals.Settled.{pending_item-lookup}
use terminal_x.Hooks.Approvals.{
  Store, Pending, Choice, Decision, decide, receive, wait, pending_item, settle, offer,
}

abbrev empty : Option Decision
empty = none

receive-full :
    (s : Store) (c : ℕ) (d : Decision)
    → lookup c s.chans ≡ some (some d)
    → receive s c ≡ some (d, record s { chans = insert c none s.chans })
unfolding receive
receive-full s c d e = rw (e, receive)

receive-empty : (s : Store) (c : ℕ) → lookup c s.chans ≡ some none → receive s c ≡ none
unfolding receive
receive-empty s c e = rw (e, receive)

-- The decision lies in the channel of the approval.
decided-chan :
    (s : Store) (key : String) (p : Pending) (c : ℕ) (choice : Choice) (by : String) (now : ℕ)
    → Inv s
    → pending_item s key ≡ some p
    → p.ch ≡ some c
    → lookup c (decide s key choice by now).1.chans
      ≡ some (some (record { decision = choice; by = by }))
unfolding decide settle
decided-chan s key p c choice by now v e h =
    let d : Decision = record { decision = choice; by = by } in
    let (there, open_still) = pending_item-lookup s key p e in
    rw (e, decide)
      (rw h
        (ground (arith, lookup-adjust c c (offer d) s.chans, v.waiting key p c there h open_still)))

-- A decision goes into the empty channel of its pending approval, and comes out once.
pub decide-received :
    (s : Store) (key : String) (p : Pending) (c : ℕ) (choice : Choice) (by : String) (now : ℕ)
    → Inv s
    → pending_item s key ≡ some p
    → p.ch ≡ some c
    → (s'' : Store) × (receive s c ≡ none)
      × (receive (decide s key choice by now).1 c
          ≡ some (record { decision = choice; by = by }, s''))
      × (receive s'' c ≡ none)
decide-received s key p c choice by now v e q =
    let (there, open_still) = pending_item-lookup s key p e in
    let s' = (decide s key choice by now).1 in
    let s'' : Store = record s' { chans = insert c none s'.chans } in
    (
      s'',
      receive-empty s c (v.waiting key p c there q open_still),
      receive-full s' c _ (decided-chan s key p c choice by now v e q),
      receive-empty s'' c (ground (arith, lookup-insert c c empty s'.chans)),
    )

-- In a store that keeps the invariant, a decision about a pending level A approval reaches the handler
-- that waits for it: the channel that
-- `wait` hands out was empty, now gives that decision, and after that is empty again.
pub decide-receive :
    (s : Store) (key : String) (p : Pending) (choice : Choice) (by : String) (now : ℕ)
    → Inv s
    → pending_item s key ≡ some p
    → is_hook p.a.level ≡ true
    → (c : ℕ) × (s'' : Store) × (wait s key ≡ some c)
      × (receive s c ≡ none)
      × (receive (decide s key choice by now).1 c
          ≡ some (record { decision = choice; by = by }, s''))
      × (receive s'' c ≡ none)
unfolding wait
decide-receive s key p choice by now v e h = elim (Option-cases p.ch) [
  | inl n ↦ absurd (v.hooked key p (pending_item-lookup s key p e).0 h n)
  | inr (c, q) ↦
      let (s'', before, got, left) = decide-received s key p c choice by now v e q in
      (c, s'', rw ((pending_item-lookup s key p e).0, wait) q, before, got, left)
]
