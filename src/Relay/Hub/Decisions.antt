-- ===== src/Relay/Hub/Decisions.antt =====
-- The approvals of the hub: a console's decisions and the agents' closings.
use Prim.Native.String.{◌++◌}
use terminal_x.Common.{
  ℕ, ◌≡◌, ◌≢◌, true, false, String, Option, none, some, List, [], ◌∷◌, string_key, nat_key, ◌==◌,
  if◌then◌else◌, arith, inl, inr, Option-cases,
}
use mathlib.Core.Path.{subst}
use terminal_x.Common.Maps.{lookup, insert, lookup-insert}
use terminal_x.Proto.Messages.{Approval, is_pending, is_hook}
use terminal_x.Proto.Envelope.{Msg, MsgType, blank}
use terminal_x.Relay.Hub.{Server, Out}
use terminal_x.Relay.Hub.Approvals.{
  decide_approval, DecideError, Request, decided, announce, or_hint, conn_to, is_verdict,
  status_for, decision_text, on_approval_closed, closed, closed_status, or_local,
}

-- The approval that the cache or else the store has for the key.
abbrev pub known : Server → String → Option Approval → Option Approval
known s key row = elim (lookup key s.approvals) [ none ↦ row | some a ↦ some a ]

decide_approval_parts :
    (s s' : Server) (key : String) (r : Request) (row : Option Approval) (now : ℕ) (out : List Out)
    (a : Approval)
    → decide_approval s key r row now ≡ (s', out, none)
    → known s key row ≡ some a
    → (is_verdict r.decision ≡ true)
      × (is_pending a.status ≡ true)
      × (is_hook a.level ≡ true)
      × (lookup key s'.approvals ≡ some (decided r now a))
      × (conn_to s (or_hint a.device_id r.device_hint) ≢ none)
      × ((conn : ℕ)
          → conn_to s (or_hint a.device_id r.device_hint) ≡ some conn
          → out ≡ announce key r now conn (or_hint a.device_id r.device_hint) a)
unfolding decide_approval
decide_approval_parts s s' key r row now out a e k = ground (
  arith,
  lookup-insert key key (decided r now a) s.approvals,
  lookup-insert key key (decided r now a) (insert key a s.approvals),
  string_key.agrees_iff key key,
)

-- A decision that succeeds was on a pending approval of level A of a device that is connected: its record
-- gets the status, the decider and the time, and what leaves is, in this order, the store write of the
-- same, one message with the decision to that device's connection, the audit entry and the broadcast.
pub decide_approval_lem :
    (s s' : Server) (key : String) (r : Request) (row : Option Approval) (now : ℕ) (out : List Out)
    (a : Approval)
    → decide_approval s key r row now ≡ (s', out, none)
    → known s key row ≡ some a
    → (conn : ℕ) × (conn_to s (or_hint a.device_id r.device_hint) ≡ some conn)
      × (out
          ≡ Out.set_approval_status key (status_for r.decision) r.actor now
            ∷ Out.to_agent conn (record (blank MsgType.approval_decide) {
              req_id = r.req_id;
              device_id = or_hint a.device_id r.device_hint;
              client_id = r.client_id;
              sid = a.sid;
              key = key;
              decision = r.decision;
              by = r.actor;
            })
            ∷ Out.audit r.actor
                (or_hint a.device_id r.device_hint)
                a.sid
                "approval.decide"
                (decision_text r.decision ++ " " ++ a.tool ++ " " ++ a.summary)
            ∷ Out.broadcast (record (blank MsgType.approval_closed) {
              device_id = or_hint a.device_id r.device_hint;
              sid = a.sid;
              key = key;
              decision = r.decision;
              by = r.actor;
              approval = some (record a {
                status = status_for r.decision;
                decided_by = r.actor;
                decided_at = some now;
              });
            })
            ∷ [])
      × (lookup key s'.approvals
          ≡ some (record a {
            status = status_for r.decision;
            decided_by = r.actor;
            decided_at = some now;
          }))
      × (is_verdict r.decision ≡ true)
      × (is_pending a.status ≡ true)
      × (is_hook a.level ≡ true)
decide_approval_lem s s' key r row now out a e k =
    let (v, p, l, d, live, sent) = decide_approval_parts s s' key r row now out a e k in
    elim (Option-cases (conn_to s (or_hint a.device_id r.device_hint))) [
      | inl n ↦ elim (live n) [ ]
      | inr (conn, c) ↦ (conn, c, sent conn c, d, v, p, l)
    ]

at_key :
    (s : Server) (key j : String)
    → lookup key s.approvals ≡ none
    → key ≡ j
    → lookup j s.approvals ≡ none
at_key s key j e q = subst (λ x. lookup x s.approvals ≡ none) q e

-- A refused decision sends nothing, and leaves every approval as it was known.
pub decide_approval_refused :
    (s s' : Server) (key j : String) (r : Request) (row : Option Approval) (now : ℕ)
    (out : List Out) (e : DecideError)
    → decide_approval s key r row now ≡ (s', out, some e)
    → (out ≡ [])
      × (known s' j (if key == j then row else none) ≡ known s j (if key == j then row else none))
unfolding decide_approval
decide_approval_refused s s' key j r row now out e h =
    elim (Option-cases (lookup key s.approvals)) [
      | inr (a, k) ↦ ground arith
      | inl k ↦ elim (Option-cases row) [
        | inl k' ↦ ground arith
        | inr (a, k') ↦ ground (
          arith,
          string_key.agrees_iff key j,
          lookup-insert j key a s.approvals,
          at_key s key j k,
        )
      ]
    ]

-- An agent's `approval.closed` for the key of a cached approval settles it if it is pending, and leaves
-- a settled one alone.
pub on_approval_closed_lem :
    (s : Server) (device : String) (m : Msg) (now : ℕ) (a : Approval)
    → m.key ≢ ""
    → lookup m.key s.approvals ≡ some a
    → (lookup m.key (on_approval_closed s device m now).0.approvals
        ≡ some (
            if is_pending a.status
            then record a {
              status = closed_status m.decision;
              decided_by = or_local m.by;
              decided_at = some now;
            }
            else a))
      × (is_pending (closed m now a).status ≡ false)
unfolding on_approval_closed
on_approval_closed_lem s device m now a k e = ground (
  arith,
  string_key.agrees_iff m.key "",
  string_key.agrees_iff m.key m.key,
  lookup-insert m.key m.key (closed m now a) s.approvals,
)
