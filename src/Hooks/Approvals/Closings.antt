-- ===== src/Hooks/Approvals/Closings.antt =====
-- What closing several approvals returns, and what adding one leaves in the store.
use mathlib.Core.Path.{subst}
use text.Mathlib.TextPositions.{eq_refl}
use text.Mathlib.TextEquality.{eq_iff}
use terminal_x.Common.{
  ℕ, ◌≡◌, ◌≢◌, inl, inr, refl, sym, ◌∙◌, ap, true, false, String, none, some, List, All, [], ◌∷◌,
  arith, Bool-cases, Option-cases, string_key, ◌==◌,
}
use terminal_x.Common.Maps.{lookup, lookup-insert}
use terminal_x.Proto.Messages.{Approval, ApprovalStatus, is_pending, is_hook}
use terminal_x.Hooks.Approvals.{
  Store, Pending, get, close, close_each, close_session, pending_for_session, pending_item, mark,
  add, register, duplicate, wait,
}
use terminal_x.Hooks.Approvals.Sorting.{In}
use terminal_x.Hooks.Approvals.Settled.{close_lem, pending_item-lookup}
use terminal_x.Hooks.Approvals.Invariant.{Inv, close-Inv}
use terminal_x.Hooks.Approvals.Sessions.{open_at}

-- The store has the approval as it is, and it is settled.
pub record SettledIn (s : Store) (a : Approval) : Type 0 where
  pub stored : get s a.key ≡ some a
  pub settled : is_pending a.status ≡ false

pending_item-get :
    (s : Store) (k : String) (p : Pending)
    → pending_item s k ≡ some p
    → (get s k ≡ some p.a) × (is_pending p.a.status ≡ true)
unfolding get
pending_item-get s k p e =
    let (there, open_still) = pending_item-lookup s k p e in (rw (there, get), open_still)

open-pending_item :
    (s : Store) (k : String) (a : Approval)
    → get s k ≡ some a
    → is_pending a.status ≡ true
    → (p : Pending) × (pending_item s k ≡ some p) × (p.a ≡ a)
unfolding get
open-pending_item s k a e o = elim (Option-cases (lookup k s.items)) [
  | inl n ↦ cc (rw (n, get) at e)
  | inr (p, h) ↦ (p, ground (arith, rw (h, get) at e), ground (arith, rw (h, get) at e))
]

module _ (status : ApprovalStatus) (by : String) (now : ℕ) (final : is_pending status ≡ false) where
  pub close-keeps :
      (s : Store) (k j : String) (b : Approval)
      → get s j ≡ some b
      → is_pending b.status ≡ false
      → get (close s k status by now).1 j ≡ some b
  close-keeps s k j b e shut = elim (Option-cases (pending_item s k)) [
    | inl n ↦ rw ((close_lem s k status by now).0 n) e
    | inr (p, q) ↦
        let (there, open_still) = pending_item-get s k p q in
        ((close_lem s k status by now).1 p q).1.others j (λ same. ground (arith, there, e, same))
        ∙ e
  ]

  close_each-keeps :
      (s : Store) (as' : List Approval) (j : String) (b : Approval)
      → get s j ≡ some b
      → is_pending b.status ≡ false
      → get (close_each s as' status by now).1 j ≡ some b
  unfolding close_each
  close_each-keeps s [] j b e shut = e
  close_each-keeps s (a ∷ as') j b e shut =
      close_each-keeps (close s a.key status by now).1 as' j b (close-keeps s a.key j b e shut) shut

  -- What is closed is settled, under its key.
  pub close-SettledIn :
      (s : Store) (k : String) (a : Approval)
      → Inv s
      → (close s k status by now).0 ≡ some a
      → SettledIn (close s k status by now).1 a
  close-SettledIn s k a v e = elim (Option-cases (pending_item s k)) [
    | inl n ↦ cc ((close_lem s k status by now).0 n)
    | inr (p, q) ↦
        let (out, done) = (close_lem s k status by now).1 p q in
        let name : p.a.key ≡ k = v.keyed k p (pending_item-lookup s k p q).0 in
        subst (SettledIn (close s k status by now).1) (ground (arith, out, e)) (record {
          stored =
              subst (λ i. get (close s k status by now).1 i ≡ some (mark status by now p.a))
                (sym name) done.recorded;
          settled = final;
        })
  ]

  close_each-Inv :
      (s : Store) (as' : List Approval) → Inv s → Inv (close_each s as' status by now).1
  unfolding close_each
  close_each-Inv s [] v = v
  close_each-Inv s (a ∷ as') v =
      close_each-Inv (close s a.key status by now).1 as' (close-Inv s a.key status by now final v)

  pub close_each-SettledIn :
      (s : Store) (as' : List Approval)
      → Inv s
      → All (SettledIn (close_each s as' status by now).1) (close_each s as' status by now).0
  unfolding close_each
  close_each-SettledIn s [] v = tt
  close_each-SettledIn s (a ∷ as') v =
      let s1 = (close s a.key status by now).1 in
      let rest = close_each-SettledIn s1 as' (close-Inv s a.key status by now final v) in
      elim (Option-cases (close s a.key status by now).0) [
        | inl n ↦ rw n rest
        | inr (b, e) ↦
            let done = close-SettledIn s a.key b v e in
            rw e (
              record {
                stored = close_each-keeps s1 as' b.key b done.stored done.settled;
                settled = done.settled;
              },
              rest,
            )
      ]

  -- What was pending and is not any more is returned.
  close_each_complete :
      (s : Store) (as' : List Approval) (k : String) (a : Approval)
      → get s k ≡ some a
      → is_pending a.status ≡ true
      → open_at (close_each s as' status by now).1 k ≡ false
      → In (mark status by now a) (close_each s as' status by now).0
  unfolding close_each
  close_each_complete s [] k a e o shut = absurd (ground (arith, e, o, shut))
  close_each_complete s (b ∷ as') k a e o shut = elim (Bool-cases (b.key == k)) [
    | inl same ↦
        let at_k = (eq_iff b.key k).0 same in
        let (p, q, is_a) = open-pending_item s k a e o in
        let out = ((close_lem s k status by now).1 p q).0 in
        rw (at_k, out) (inl (ap (mark status by now) is_a))
    | inr differs ↦
        let s1 = (close s b.key status by now).1 in
        let still : get s1 k ≡ some a =
          others s b.key k a (λ q. ground (arith, eq_iff b.key k, q, differs)) e in
        let rest = close_each_complete s1 as' k a still o shut in
        elim (Option-cases (close s b.key status by now).0) [
          | inl n ↦ rw n rest
          | inr (c, f) ↦ rw f (inr rest)
        ]
  ]
    where
      others :
          (s : Store) (i j : String) (a : Approval)
          → j ≢ i
          → get s j ≡ some a
          → get (close s i status by now).1 j ≡ some a
      others s i j a ne e = elim (Option-cases (pending_item s i)) [
        | inl n ↦ rw ((close_lem s i status by now).0 n) e
        | inr (p, q) ↦ ((close_lem s i status by now).1 p q).1.others j ne ∙ e
      ]

  pub close_session-Inv : (s : Store) (sid : ℕ) → Inv s → Inv (close_session s sid status by now).1
  unfolding close_session
  close_session-Inv s sid v = close_each-Inv s (pending_for_session s sid) v

  pub close_session-SettledIn :
      (s : Store) (sid : ℕ)
      → Inv s
      → All (SettledIn (close_session s sid status by now).1) (close_session s sid status by now).0
  unfolding close_session
  close_session-SettledIn s sid v = close_each-SettledIn s (pending_for_session s sid) v

  pub close_session_complete :
      (s : Store) (sid : ℕ) (k : String) (a : Approval)
      → get s k ≡ some a
      → is_pending a.status ≡ true
      → open_at (close_session s sid status by now).1 k ≡ false
      → In (mark status by now a) (close_session s sid status by now).0
  unfolding close_session
  close_session_complete s sid k a e o shut =
      close_each_complete s (pending_for_session s sid) k a e o shut

-- The stored approval is in the store, pending, under its key.
pub add-pending_item :
    (s : Store) (a : Approval) (now : ℕ)
    → Inv s
    → (p : Pending) × (pending_item (add s a now).2 (add s a now).0.key ≡ some p)
      × (p.a ≡ (add s a now).0)
unfolding add register
add-pending_item s a now v = elim (Option-cases (duplicate s a now)) [
  | inr (old, e) ↦ elim (Option-cases (lookup a.key s.items)) [
    | inl n ↦ cc (rw (n, duplicate) at e)
    | inr (p, q) ↦
        rw (e, add)
          (
            p,
            ground (arith, rw (q, duplicate) at e, q, v.keyed a.key p q),
            ground (arith, rw (q, duplicate) at e),
          )
  ]
  | inl e ↦ elim (Bool-cases (is_hook a.level)) [
    | inl h ↦
        rw (e, h, add, register)
          (
            record { a = record a { status = ApprovalStatus.pending }; ch = some s.next_chan },
            ground (
              arith,
              eq_refl a.key,
              lookup-insert a.key a.key
                  (record {
                    a = record a { status = ApprovalStatus.pending };
                    ch = some s.next_chan;
                  })
                  s.items,
            ),
            refl,
          )
    | inr h ↦
        rw (e, h, add, register)
          (
            record { a = record a { status = ApprovalStatus.pending }; ch = none },
            ground (
              arith,
              eq_refl a.key,
              lookup-insert a.key a.key
                  (record { a = record a { status = ApprovalStatus.pending }; ch = none }) s.items,
            ),
            refl,
          )
  ]
]

pub wait-pending_item :
    (s : Store) (k : String) (p : Pending) → pending_item s k ≡ some p → wait s k ≡ p.ch
unfolding wait
wait-pending_item s k p e = rw ((pending_item-lookup s k p e).0, wait)
