-- ===== src/Hooks/Approvals/Invariant.antt =====
-- What holds of the approvals and their channels between two method calls.
use text.Mathlib.TextEquality.{eq_iff}
use terminal_x.Common.{
  ℕ, ◌<◌, ◌≤◌, ◌≡◌, ◌≢◌, ◌⊎◌, inl, inr, refl, true, false, String, Option, none, some, List, arith,
  string_key, nat_key, Option-cases, ◌==◌, Bool-cases,
}
use terminal_x.Common.Maps.{IsMap, insert-IsMap, adjust-IsMap, lookup, lookup-adjust, lookup-insert}
use terminal_x.Proto.Messages.{Approval, ApprovalStatus, is_pending, is_hook}
use terminal_x.Hooks.Approvals.Settled.{pending_item-lookup, status_of-not_pending}
use terminal_x.Hooks.Approvals.{
  Store, Pending, Choice, Decision, new_store, add, decide, close, pending_item, mark, status_of,
  settle, register, duplicate, send, offer,
}

-- Keys are distinct; channels are numbered as they are made, and no two approvals share one; an
-- approval has a channel if its decision goes back through a hook; and while it is pending its
-- channel is empty.
pub record Inv (s : Store) : Type 0 where
  pub distinct : IsMap s.items
  pub keyed : (k : String) (p : Pending) → lookup k s.items ≡ some p → p.a.key ≡ k
  pub fresh : (c : ℕ) → s.next_chan ≤ c → lookup c s.chans ≡ none
  pub used :
      (k : String) (p : Pending) (c : ℕ)
      → lookup k s.items ≡ some p
      → p.ch ≡ some c
      → c < s.next_chan
  pub waiting :
      (k : String) (p : Pending) (c : ℕ)
      → lookup k s.items ≡ some p
      → p.ch ≡ some c
      → is_pending p.a.status ≡ true
      → lookup c s.chans ≡ some none
  pub hooked :
      (k : String) (p : Pending)
      → lookup k s.items ≡ some p
      → is_hook p.a.level ≡ true
      → p.ch ≢ none
  pub apart :
      (j k : String) (p q : Pending) (c : ℕ)
      → lookup j s.items ≡ some p
      → lookup k s.items ≡ some q
      → p.ch ≡ some c
      → q.ch ≡ some c
      → j ≡ k

pub new_store-Inv : Inv new_store
unfolding new_store lookup
new_store-Inv = record {
  distinct = tt;
  keyed = λ k p e. cc;
  fresh = λ c l. refl;
  used = λ k p c e. cc;
  waiting = λ k p c e. cc;
  hooked = λ k p e. cc;
  apart = λ j k p q c e. cc;
}

abbrev empty : Option Decision
empty = none

register-Inv : (s : Store) (a : Approval) → Inv s → Inv (register s a)
unfolding register
register-Inv s a v = elim (Bool-cases (is_hook a.level)) [
  | inl h ↦
      let item : Pending = record { a = a; ch = some s.next_chan } in
      rw (h, register)
        (record {
          distinct = insert-IsMap a.key item s.items v.distinct;
          keyed = λ k p e.
              ground (arith, eq_iff a.key k, lookup-insert k a.key item s.items, v.keyed k p);
          fresh = λ c l. ground (arith, lookup-insert c s.next_chan empty s.chans, v.fresh c);
          used = λ k p c e f. ground (arith, lookup-insert k a.key item s.items, v.used k p c);
          waiting = λ k p c e f g. ground (
            arith,
            lookup-insert k a.key item s.items,
            v.waiting k p c,
            v.used k p c,
            lookup-insert c s.next_chan empty s.chans,
          );
          hooked = λ k p e f g. ground (arith, lookup-insert k a.key item s.items, v.hooked k p);
          apart = λ j k p q c e f g i. ground (
            arith,
            lookup-insert j a.key item s.items,
            lookup-insert k a.key item s.items,
            eq_iff a.key j,
            eq_iff a.key k,
            v.used j p c,
            v.used k q c,
            v.apart j k p q c,
          );
        })
  | inr h ↦
      let item : Pending = record { a = a; ch = none } in
      rw (h, register)
        (record {
          distinct = insert-IsMap a.key item s.items v.distinct;
          keyed = λ k p e.
              ground (arith, eq_iff a.key k, lookup-insert k a.key item s.items, v.keyed k p);
          fresh = v.fresh;
          used = λ k p c e f. ground (arith, lookup-insert k a.key item s.items, v.used k p c);
          waiting =
              λ k p c e f g. ground (arith, lookup-insert k a.key item s.items, v.waiting k p c);
          hooked = λ k p e f g. ground (arith, lookup-insert k a.key item s.items, v.hooked k p);
          apart = λ j k p q c e f g i. ground (
            arith,
            lookup-insert j a.key item s.items,
            lookup-insert k a.key item s.items,
            eq_iff a.key j,
            eq_iff a.key k,
            v.apart j k p q c,
          );
        })
]

lookup-send :
    (c : ℕ) (ch : Option ℕ) (d : Decision) (chans : List (ℕ × Option Decision))
    → ch ≢ some c
    → lookup c (send ch d chans) ≡ lookup c chans
lookup-send c none d chans h = refl
lookup-send c (some x) d chans h = ground (arith, lookup-adjust c x (offer d) chans)

send-none :
    (c : ℕ) (ch : Option ℕ) (d : Decision) (chans : List (ℕ × Option Decision))
    → lookup c chans ≡ none
    → lookup c (send ch d chans) ≡ none
send-none c none d chans h = h
send-none c (some x) d chans h = ground (arith, lookup-adjust c x (offer d) chans)

-- What an approval was before a change of the approval `key` into `p` with another status.
record Before (s : Store) (key : String) (status : ApprovalStatus) (k : String) (q : Pending)
    : Type 0 where
  old : Pending
  there : lookup k s.items ≡ some old
  name : q.a.key ≡ old.a.key
  channel : q.ch ≡ old.ch
  level : q.a.level ≡ old.a.level
  change : ((k ≡ key) × (q.a.status ≡ status)) ⊎ ((k ≢ key) × (q.a.status ≡ old.a.status))

module _ (s : Store) (key : String) (p : Pending) (status : ApprovalStatus) (by : String) (now : ℕ)
    (d : Decision) (e : lookup key s.items ≡ some p) where
  before :
      (k : String) (q : Pending)
      → lookup k (settle s key p status by now d).1.items ≡ some q
      → Before s key status k q
  unfolding settle
  before k q g = elim (Bool-cases (key == k)) [
    | inl t ↦
        let same = (eq_iff key k).0 t in
        record {
          old = p;
          there = ground arith;
          name = ground (arith, lookup-adjust k key f s.items);
          channel = ground (arith, lookup-adjust k key f s.items);
          level = ground (arith, lookup-adjust k key f s.items);
          change = inl (ground arith, ground (arith, lookup-adjust k key f s.items));
        }
    | inr t ↦ record {
      old = q;
      there = ground (arith, lookup-adjust k key f s.items);
      name = refl;
      channel = refl;
      level = refl;
      change = inr (ground (arith, eq_iff key k), refl);
    }
  ]
    where
      f : Pending → Pending
      f q = record q { a = mark status by now q.a }

  settle-Inv : is_pending status ≡ false → Inv s → Inv (settle s key p status by now d).1
  unfolding settle
  settle-Inv np v = record {
    distinct = adjust-IsMap key (λ q. record q { a = mark status by now q.a }) s.items v.distinct;
    keyed = λ k q g. let b = before k q g in ground (arith, b.there, b.name, v.keyed k b.old);
    fresh = λ c l. send-none c p.ch d s.chans (v.fresh c l);
    used =
        λ k q c g h. let b = before k q g in ground (arith, v.used k b.old c, b.there, b.channel);
    waiting = λ k q c g h i.
        let b = before k q g in
        ground (
          arith,
          b.there,
          b.channel,
          b.change,
          v.waiting k b.old c,
          v.apart k key b.old p c,
          lookup-send c p.ch d s.chans,
        );
    hooked = λ k q g h i.
        let b = before k q g in ground (arith, b.there, b.channel, b.level, v.hooked k b.old);
    apart = λ j k q r c g h i l.
        let b = before j q g in
        let b' = before k r h in
        ground (arith, b.there, b.channel, b'.there, b'.channel, v.apart j k b.old b'.old c);
  }

pub add-Inv : (s : Store) (a : Approval) (now : ℕ) → Inv s → Inv (add s a now).2
unfolding add
add-Inv s a now v = elim (Option-cases (duplicate s a now)) [
  | inl e ↦ rw (e, add) (register-Inv s (record a { status = ApprovalStatus.pending }) v)
  | inr (old, e) ↦ rw (e, add) v
]

pub decide-Inv :
    (s : Store) (key : String) (choice : Choice) (by : String) (now : ℕ)
    → Inv s
    → Inv (decide s key choice by now).1
unfolding decide
decide-Inv s key choice by now v = elim (Option-cases (pending_item s key)) [
  | inl e ↦ rw (e, decide) v
  | inr (p, e) ↦
      rw (e, decide)
        (settle-Inv s key p (status_of choice) by now _ (pending_item-lookup s key p e).0
          (status_of-not_pending choice) v)
]

pub close-Inv :
    (s : Store) (key : String) (status : ApprovalStatus) (by : String) (now : ℕ)
    → is_pending status ≡ false
    → Inv s
    → Inv (close s key status by now).1
unfolding close
close-Inv s key status by now np v = elim (Option-cases (pending_item s key)) [
  | inl e ↦ rw (e, close) v
  | inr (p, e) ↦
      rw (e, close) (settle-Inv s key p status by now _ (pending_item-lookup s key p e).0 np v)
]
