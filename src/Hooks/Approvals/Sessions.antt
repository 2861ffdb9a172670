-- ===== src/Hooks/Approvals/Sessions.antt =====
-- Closing all that a session still waits for.
use mathlib.Core.Path.{subst}
use text.Mathlib.TextEquality.{eq_iff}
use terminal_x.Common.{
  ℕ, ◌≡◌, ◌≢◌, inl, inr, refl, sym, ◌∙◌, ap, Bool, true, false, String, Option, none, some, List,
  [], ◌∷◌, if◌then◌else◌, nat_beq, nat_beq_iff, arith, Bool-cases, Option-cases, string_key, ◌==◌,
}
use terminal_x.Common.Maps.{lookup, IsMap}
use terminal_x.Proto.Messages.{Approval, ApprovalStatus, is_pending}
use terminal_x.Hooks.Approvals.{
  Store, Pending, get, close, close_each, close_session, pending_for_session, pending, pending_of,
  of_session, pending_item,
}
use terminal_x.Hooks.Approvals.Sorting.{In, sort_by-In, In-sort_by}
use terminal_x.Hooks.Approvals.Settled.{close_lem}
use terminal_x.Hooks.Approvals.Invariant.{Inv}

-- The approval of that key is pending.
abbrev pub is_open : Option Approval → Bool
is_open none = false
is_open (some a) = is_pending a.status

abbrev pub open_at : Store → String → Bool
open_at s k = is_open (get s k)

pending_item-none : (s : Store) (k : String) → pending_item s k ≡ none → open_at s k ≡ false
unfolding get
pending_item-none s k e = ground arith

module _ (status : ApprovalStatus) (by : String) (now : ℕ) (final : is_pending status ≡ false) where
  close_other : (s : Store) (k j : String) → j ≢ k → get (close s k status by now).1 j ≡ get s j
  close_other s k j ne = elim (Option-cases (pending_item s k)) [
    | inl e ↦ rw ((close_lem s k status by now).0 e)
    | inr (p, e) ↦ ((close_lem s k status by now).1 p e).1.others j ne
  ]

  close_self : (s : Store) (k : String) → open_at (close s k status by now).1 k ≡ false
  close_self s k = elim (Option-cases (pending_item s k)) [
    | inl e ↦ rw ((close_lem s k status by now).0 e) (pending_item-none s k e)
    | inr (p, e) ↦ ap is_open ((close_lem s k status by now).1 p e).1.recorded ∙ final
  ]

  close_shut :
      (s : Store) (k j : String)
      → open_at s j ≡ false
      → open_at (close s k status by now).1 j ≡ false
  close_shut s k j h = elim (Bool-cases (j == k)) [
    | inl e ↦
        subst (λ i. open_at (close s k status by now).1 i ≡ false) (sym ((eq_iff j k).0 e))
          (close_self s k)
    | inr e ↦ ap is_open (close_other s k j (λ q. cc ((eq_iff j k).1 q))) ∙ h
  ]

  each_shut :
      (s : Store) (as' : List Approval) (j : String)
      → open_at s j ≡ false
      → open_at (close_each s as' status by now).1 j ≡ false
  unfolding close_each
  each_shut s [] j h = h
  each_shut s (a ∷ as') j h =
      each_shut (close s a.key status by now).1 as' j (close_shut s a.key j h)

  each_closed :
      (s : Store) (as' : List Approval) (a : Approval)
      → In a as'
      → open_at (close_each s as' status by now).1 a.key ≡ false
  unfolding close_each
  each_closed s [] a h = absurd h
  each_closed s (b ∷ as') a (inl e) = each_shut (close s b.key status by now).1 as' a.key (
      subst (λ (x : Approval). open_at (close s b.key status by now).1 x.key ≡ false) e
        (close_self s b.key))
  each_closed s (b ∷ as') a (inr i) = each_closed (close s b.key status by now).1 as' a i

  each_other :
      (s : Store) (as' : List Approval) (j : String)
      → ((a : Approval) → In a as' → a.key ≢ j)
      → get (close_each s as' status by now).1 j ≡ get s j
  unfolding close_each
  each_other s [] j h = refl
  each_other s (a ∷ as') j h =
      each_other (close s a.key status by now).1 as' j (λ b i. h b (inr i))
      ∙ close_other s a.key j (λ e. h a (inl refl) (sym e))

-- The list of a session's pending approvals.
pending_of-In :
    (k : String) (p : Pending) (m : List (String × Pending))
    → lookup k m ≡ some p
    → is_pending p.a.status ≡ true
    → In p.a (pending_of m)
unfolding pending_of lookup
pending_of-In k p [] e h = cc
pending_of-In k p ((i, q) ∷ m) e h = elim (Bool-cases (i == k)) [
  | inl t ↦ ground arith
  | inr t ↦ ground (arith, pending_of-In k p m)
]

In-pending_of :
    (a : Approval) (m : List (String × Pending))
    → IsMap m
    → In a (pending_of m)
    → (k : String) × (p : Pending) × (lookup k m ≡ some p) × (p.a ≡ a)
unfolding pending_of lookup
In-pending_of a [] h i = absurd i
In-pending_of a ((k, q) ∷ m) h i = elim (Bool-cases (is_pending q.a.status)) [
  | inl t ↦ elim (rw t at i) [
    | inl e ↦ (k, q, ground (arith, eq_iff k k), e)
    | inr j ↦ later (In-pending_of a m h.1 j)
  ]
  | inr t ↦ later (In-pending_of a m h.1 (rw t at i))
]
  where
    later :
        (j : String) × (p : Pending) × (lookup j m ≡ some p) × (p.a ≡ a)
        → (j : String) × (p : Pending) × (lookup j ((k, q) ∷ m) ≡ some p) × (p.a ≡ a)
    later (j, p, e, f) = (j, p, ground (arith, h.0, eq_iff k j), f)

of_session-In :
    (sid : ℕ) (a : Approval) (as' : List Approval)
    → In a as'
    → a.sid ≡ sid
    → In a (of_session sid as')
unfolding of_session
of_session-In sid a [] h e = h
of_session-In sid a (b ∷ as') h e = ground (arith, of_session-In sid a as')

In-of_session :
    (sid : ℕ) (a : Approval) (as' : List Approval)
    → In a (of_session sid as')
    → In a as' × (a.sid ≡ sid)
unfolding of_session
In-of_session sid a [] h = absurd h
In-of_session sid a (b ∷ as') h = ground (arith, In-of_session sid a as')

get-lookup : (s : Store) (k : String) (p : Pending) → lookup k s.items ≡ some p → get s k ≡ some p.a
unfolding get
get-lookup s k p e = rw (e, get)

lookup-get :
    (s : Store) (k : String) (a : Approval)
    → get s k ≡ some a
    → (p : Pending) × (lookup k s.items ≡ some p) × (p.a ≡ a)
unfolding get
lookup-get s k a e = elim (Option-cases (lookup k s.items)) [
  | inl n ↦ cc (rw (n, get) at e)
  | inr (p, h) ↦ (p, h, ground (arith, rw (h, get) at e))
]

-- The pending approvals of a session are those with its sid, each under its key.
listed :
    (s : Store) (sid : ℕ) (k : String) (a : Approval)
    → Inv s
    → get s k ≡ some a
    → is_pending a.status ≡ true
    → a.sid ≡ sid
    → In a (pending_for_session s sid) × (a.key ≡ k)
unfolding pending_for_session pending
listed s sid k a v e h q =
    let (p, there, same) = lookup-get s k a e in
    let i : In p.a (pending_of s.items) = pending_of-In k p s.items there (ground arith) in
    (
      of_session-In sid a _
          (sort_by-In (λ x. x.created_at) a (pending_of s.items)
            (subst (λ x. In x (pending_of s.items)) same i))
          q,
      ap (λ (x : Approval). x.key) (sym same) ∙ v.keyed k p there,
    )

unlisted :
    (s : Store) (sid : ℕ) (k : String) (a : Approval)
    → Inv s
    → get s k ≡ some a
    → a.sid ≢ sid
    → (b : Approval) → In b (pending_for_session s sid)
    → b.key ≢ k
unfolding pending_for_session pending
unlisted s sid k a v e ne b i same =
    let (j, q) = In-of_session sid b _ i in
    let (l, p, there, is_b) =
      In-pending_of b s.items v.distinct
        (In-sort_by (λ x. x.created_at) b (pending_of s.items) j) in
    let at_k : l ≡ k = sym (v.keyed l p there) ∙ ap (λ (x : Approval). x.key) is_b ∙ same in
    let found : get s l ≡ some p.a = get-lookup s l p there in
    ne (ground (arith, found, at_k, is_b, e, q))

close_session_both :
    (s : Store) (sid : ℕ) (status : ApprovalStatus) (by : String) (now : ℕ)
    → Inv s
    → is_pending status ≡ false
    → (k : String) (a : Approval) → get s k ≡ some a
    → let s' = (close_session s sid status by now).1 in
      (a.sid ≡ sid → open_at s' k ≡ false) × (a.sid ≢ sid → get s' k ≡ some a)
unfolding close_session
close_session_both s sid status by now v final k a e = (
  λ q. elim (Bool-cases (is_pending a.status)) [
    | inl h ↦
        let (i, name) = listed s sid k a v e h q in
        subst (λ j. open_at (close_each s (pending_for_session s sid) status by now).1 j ≡ false)
          name (each_closed status by now final s (pending_for_session s sid) a i)
    | inr h ↦ each_shut status by now final s (pending_for_session s sid) k (ap is_open e ∙ h)
  ],
  λ ne.
      each_other status by now final s (pending_for_session s sid) k (unlisted s sid k a v e ne)
      ∙ e,
)

-- In a store that keeps the invariant, closing a session with a final status leaves no approval of that
-- session pending, and leaves every
-- approval of another session as it was.
pub close_session_lem :
    (s : Store) (sid : ℕ) (status : ApprovalStatus) (by : String) (now : ℕ) (k : String)
    (a : Approval)
    → Inv s
    → is_pending status ≡ false
    → get s k ≡ some a
    → if nat_beq a.sid sid
      then open_at (close_session s sid status by now).1 k ≡ false
      else get (close_session s sid status by now).1 k ≡ some a
close_session_lem s sid status by now k a v final e =
    let (own, other) = close_session_both s sid status by now v final k a e in
    elim (Bool-cases (nat_beq a.sid sid)) [
      | inl h ↦ rw h (own ((nat_beq_iff a.sid sid).0 h))
      | inr h ↦ rw h (other (λ q. ground (arith, nat_beq_iff a.sid sid)))
    ]
