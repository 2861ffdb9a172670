-- ===== src/Hooks/Approvals/Runs.antt =====
-- The invariant under the sweep and the receive, and after any run of calls.
use text.Mathlib.TextEquality.{eq_iff}
use mathlib.Core.Path.{subst}
use terminal_x.Common.{
  ℕ, ◌≡◌, inl, inr, refl, Bool, true, false, String, Option, none, some, List, [], ◌∷◌, arith,
  if◌then◌else◌, string_key, nat_key, Option-cases,
}
use terminal_x.Common.Maps.{IsMap, lookup, insert, lookup-insert}
use terminal_x.Proto.Messages.{Approval, ApprovalStatus, is_pending}
use terminal_x.Hooks.Approvals.{
  Store, Pending, Choice, Decision, new_store, add, decide, close, close_session, receive, sweep,
  sweep_items, expired,
}
use terminal_x.Hooks.Approvals.Invariant.{Inv, new_store-Inv, add-Inv, decide-Inv, close-Inv}
use terminal_x.Hooks.Approvals.Closings.{close_session-Inv}

abbrev empty : Option Decision
empty = none

-- A sweep drops the approvals that were settled longer ago than `max_age`, and only those.
pub lookup-sweep_items :
    (k : String) (now max_age : ℕ) (m : List (String × Pending))
    → IsMap m
    → lookup k (sweep_items now max_age m)
      ≡ elim (lookup k m) [ none ↦ none | some p ↦ if expired now max_age p then none else some p ]
unfolding sweep_items lookup
lookup-sweep_items k now max_age [] h = refl
lookup-sweep_items k now max_age ((i, p) ∷ m) h =
    ground (arith, eq_iff i k, lookup-sweep_items k now max_age m h.1)

sweep_items-IsMap :
    (now max_age : ℕ) (m : List (String × Pending)) → IsMap m → IsMap (sweep_items now max_age m)
unfolding sweep_items
sweep_items-IsMap now max_age [] h = tt
sweep_items-IsMap now max_age ((k, p) ∷ m) h =
    ground (arith, lookup-sweep_items k now max_age m h.1, sweep_items-IsMap now max_age m h.1)

pub sweep-Inv : (s : Store) (max_age now : ℕ) → Inv s → Inv (sweep s max_age now)
unfolding sweep
sweep-Inv s max_age now v = record {
  distinct = sweep_items-IsMap now max_age s.items v.distinct;
  keyed = λ k p e. ground (arith, lookup-sweep_items k now max_age s.items v.distinct, v.keyed k p);
  fresh = v.fresh;
  used = λ k p c e f.
      ground (arith, lookup-sweep_items k now max_age s.items v.distinct, v.used k p c);
  waiting = λ k p c e f g.
      ground (arith, lookup-sweep_items k now max_age s.items v.distinct, v.waiting k p c);
  hooked = λ k p e f g.
      ground (arith, lookup-sweep_items k now max_age s.items v.distinct, v.hooked k p);
  apart = λ j k p q c e f g i. ground (
    arith,
    lookup-sweep_items j now max_age s.items v.distinct,
    lookup-sweep_items k now max_age s.items v.distinct,
    v.apart j k p q c,
  );
}

-- What a receive that gets something does.
pub receive-chans :
    (s s' : Store) (c : ℕ) (d : Decision)
    → receive s c ≡ some (d, s')
    → (lookup c s.chans ≡ some (some d)) × (record s { chans = insert c none s.chans } ≡ s')
unfolding receive
receive-chans s s' c d r = elim (Option-cases (lookup c s.chans)) [
  | inl e ↦ cc (rw (e, receive) at r)
  | inr (none, e) ↦ cc (rw (e, receive) at r)
  | inr (some x, e) ↦ let r' = rw (e, receive) at r in ground (arith, r')
]

emptied-Inv :
    (s : Store) (c : ℕ) (d : Decision)
    → lookup c s.chans ≡ some (some d)
    → Inv s
    → Inv (record s { chans = insert c none s.chans })
emptied-Inv s c d e v = record {
  distinct = v.distinct;
  keyed = v.keyed;
  fresh = λ b l. ground (arith, lookup-insert b c empty s.chans, v.fresh b);
  used = v.used;
  waiting = λ k p b f g h. ground (arith, lookup-insert b c empty s.chans, v.waiting k p b);
  hooked = v.hooked;
  apart = v.apart;
}

pub receive-Inv :
    (s s' : Store) (c : ℕ) (d : Decision) → receive s c ≡ some (d, s') → Inv s → Inv s'
receive-Inv s s' c d r v =
    let (full, e) = receive-chans s s' c d r in subst Inv e (emptied-Inv s c d full v)

-- The calls that the agent makes; a closing is by the local terminal or by a timeout.
pub data Call : Type 0 where
  adds : Approval → Call
  decides : String → Choice → String → Call
  closes : String → Bool → String → Call
  closes_session : ℕ → String → Call
  receives : ℕ → Call
  sweeps : ℕ → Call

abbrev pub closing : Bool → ApprovalStatus
closing true = ApprovalStatus.fallback
closing false = ApprovalStatus.closed_local

abbrev taken : Store → Option (Decision × Store) → Store
taken s none = s
taken s (some (d, s')) = s'

unfoldable pub step : Store → ℕ → Call → Store
step s now (adds a) = (add s a now).2
step s now (decides key choice by) = (decide s key choice by now).1
step s now (closes key timeout by) = (close s key (closing timeout) by now).1
step s now (closes_session sid by) = (close_session s sid ApprovalStatus.closed_local by now).1
step s now (receives c) = taken s (receive s c)
step s now (sweeps max_age) = sweep s max_age now

unfoldable pub run : Store → List (ℕ × Call) → Store
unfolding step
run s [] = s
run s ((now, c) ∷ cs) = run (step s now c) cs

closing-not_pending : (timeout : Bool) → is_pending (closing timeout) ≡ false
closing-not_pending timeout = ground arith

pub step-Inv : (s : Store) (now : ℕ) (c : Call) → Inv s → Inv (step s now c)
unfolding step
step-Inv s now (adds a) v = add-Inv s a now v
step-Inv s now (decides key choice by) v = decide-Inv s key choice by now v
step-Inv s now (closes key timeout by) v =
    close-Inv s key (closing timeout) by now (closing-not_pending timeout) v
step-Inv s now (closes_session sid by) v =
    close_session-Inv ApprovalStatus.closed_local by now refl s sid v
step-Inv s now (receives c) v = elim (Option-cases (receive s c)) [
  | inl e ↦ rw e v
  | inr ((d, s'), e) ↦ rw e (receive-Inv s s' c d e v)
]
step-Inv s now (sweeps max_age) v = sweep-Inv s max_age now v

run-Inv : (s : Store) (cs : List (ℕ × Call)) → Inv s → Inv (run s cs)
unfolding run
run-Inv s [] v = v
run-Inv s ((now, c) ∷ cs) v = run-Inv (step s now c) cs (step-Inv s now c v)

-- After any calls at any times on a new store, the approvals have distinct keys, those decided through
-- a hook have a channel of their own, and the channel of a pending one exists and is empty, so the
-- decision that is sent into it is never dropped.
pub run-new_store-Inv : (cs : List (ℕ × Call)) → Inv (run new_store cs)
run-new_store-Inv cs = run-Inv new_store cs new_store-Inv
