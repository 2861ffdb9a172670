-- ===== src/Relay/Persisted/Restart.antt =====
-- What the hub knows of a decided approval after a restart.
use terminal_x.Common.{
  ℕ, ◌≡◌, refl, true, false, ◌&&◌, String, take, ◌∙◌, Option, none, some, List, [], ◌∷◌, arith,
  string_key, inl, inr, Option-cases,
}
use terminal_x.Common.Maps.{lookup, insert, lookup-insert}
use terminal_x.Proto.Messages.{Approval, ApprovalStatus, is_pending}
use terminal_x.Proto.Envelope.{DecisionText}
use terminal_x.Relay.Hub.{Server, Out}
use terminal_x.Relay.Hub.Approvals.{
  decide_approval, already, Request, is_verdict, status_for, announce, or_hint,
}
use terminal_x.Relay.Hub.Decisions.{known, decide_approval_lem}
use terminal_x.Relay.Store.{Store}
use terminal_x.Relay.Store.Sql.{
  first, affects, select, order_by, first-holds, first-update, affects-select, affects-take,
  affects-order_by, affects-update_undone,
}
use terminal_x.Relay.Store.Times.{time_ptr}
use terminal_x.Relay.Store.Records.{
  has_key, scan_approvals, newer, has_key, set_approval_status, get_approval, list_approvals,
  append_audit,
}
use terminal_x.Relay.Persisted.{write, write_all, load_approvals, load_state}

get-set_approval_status :
    (key : String) (status : ApprovalStatus) (by : String) (at : ℕ) (st : Store) (a : Approval)
    → get_approval key st ≡ some a
    → get_approval key (set_approval_status key status by at st).0
      ≡ some (record a { status = status; decided_by = by; decided_at = time_ptr (some at) })
unfolding get_approval set_approval_status
get-set_approval_status key status by at st a e =
    let set : Approval → Approval =
      λ a. record a { status = status; decided_by = by; decided_at = some at } in
    elim (Option-cases (first (has_key key) st.approvals)) [
      | inl n ↦ absurd (ground (arith, n, e))
      | inr (b, f) ↦ ground (
        arith,
        f,
        e,
        first-holds (has_key key) st.approvals b f,
        first-update (has_key key) (has_key key) set st.approvals (λ a. refl),
      )
    ]

scan-has_key :
    (key : String) (as' : List Approval)
    → affects (has_key key) (scan_approvals as') ≡ affects (has_key key) as'
unfolding affects scan_approvals
scan-has_key key [] = refl
scan-has_key key (a ∷ as') = ground (arith, scan-has_key key as')

lookup-load_approvals :
    (key : String) (as' : List Approval) (m : List (String × Approval))
    → affects (has_key key) as' ≡ false
    → lookup key m ≡ none
    → lookup key (load_approvals as' m) ≡ none
unfolding affects load_approvals
lookup-load_approvals key [] m h e = e
lookup-load_approvals key (a ∷ as') m h e =
    lookup-load_approvals key as' (insert a.key a m) (ground arith)
      (ground (arith, lookup-insert key a.key a m))

-- What has no pending row in the store is not in the hub after a start.
lookup-load_state :
    (date : ℕ → List ℕ) (key : String) (st : Store)
    → affects (λ a. has_key key a && is_pending a.status) st.approvals ≡ false
    → lookup key (load_state date st).approvals ≡ none
unfolding load_state list_approvals
lookup-load_state date key st h =
    let pending = select (λ (a : Approval). is_pending a.status) st.approvals in
    let sorted = order_by (newer date) pending in
    let in_order = affects-order_by (has_key key) (newer date) pending in
    let selected = affects-select (has_key key) (λ a. is_pending a.status) st.approvals in
    lookup-load_approvals key _ []
      (scan-has_key key (take 200 sorted)
        ∙ affects-take (has_key key) 200 sorted (in_order ∙ selected ∙ h))
      (unfold lookup in refl)

settled_for : (d : DecisionText) → is_pending (status_for d) ≡ false
settled_for d = ground arith

in_hub :
    (s : Server) (key : String) (row : Option Approval) (a : Approval)
    → row ≡ some a
    → (b : Approval) × (known s key row ≡ some b)
in_hub s key row a e = elim (Option-cases (lookup key s.approvals)) [
  | inl n ↦ (a, ground (arith, n, e))
  | inr (b, f) ↦ (b, ground (arith, f))
]

refused_settled :
    (s : Server) (key : String) (q : Request) (row : Option Approval) (a : Approval) (now : ℕ)
    → lookup key s.approvals ≡ none
    → row ≡ some a
    → is_pending a.status ≡ false
    → is_verdict q.decision ≡ true
    → ((decide_approval s key q row now).1 ≡ [])
      × ((decide_approval s key q row now).2 ≡ some (already a.status))
unfolding decide_approval
refused_settled s key q row a now e f p v = ground (arith, e, f, p, v)

write-announce :
    (key : String) (r : Request) (now conn : ℕ) (device : String) (a b : Approval) (st : Store)
    → get_approval key st ≡ some a
    → (get_approval key (write_all (announce key r now conn device b) now st)
        ≡ some (record a {
          status = status_for r.decision;
          decided_by = r.actor;
          decided_at = time_ptr (some now);
        }))
      × (affects
            (λ a. has_key key a && is_pending a.status)
            (write_all (announce key r now conn device b) now st).approvals
          ≡ false)
unfolding write_all write append_audit get_approval set_approval_status
write-announce key r now conn device a b st e = (
  get-set_approval_status key (status_for r.decision) r.actor now st a e,
  affects-update_undone _ (has_key key) _ st.approvals (λ a h. ground arith)
      (λ a. ground (arith, settled_for r.decision)),
)

-- If a decision on an approval that is in the store succeeds, then after a restart of the relay on what the decision wrote,
-- a later allow or deny on its key is refused with the status of the first, and nothing is sent.
pub decided_survives :
    (date : ℕ → List ℕ) (s s' : Server) (key : String) (r q : Request) (st : Store) (a : Approval)
    (now later : ℕ) (out : List Out)
    → decide_approval s key r (get_approval key st) now ≡ (s', out, none)
    → get_approval key st ≡ some a
    → is_verdict q.decision ≡ true
    → ((decide_approval
          (load_state date (write_all out now st))
          key
          q
          (get_approval key (write_all out now st))
          later).1
        ≡ [])
      × ((decide_approval
            (load_state date (write_all out now st))
            key
            q
            (get_approval key (write_all out now st))
            later).2
          ≡ some (already (status_for r.decision)))
decided_survives date s s' key r q st a now later out e f v =
    let (b, k) = in_hub s key (get_approval key st) a f in
    let (conn, _, sent, _, _, _, _) =
      decide_approval_lem s s' key r (get_approval key st) now out b e k in
    rw sent (
      let device = or_hint b.device_id r.device_hint in
      let (row, settled) = write-announce key r now conn device a b st f in
      refused_settled _ key q _ _ later (lookup-load_state date key _ settled) row
        (settled_for r.decision) v)
