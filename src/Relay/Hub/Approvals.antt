-- ===== src/Relay/Hub/Approvals.antt =====
-- Approvals in the hub: `decideApproval` (internal/relay/hub.go), `onApprovalNew` and
-- `onApprovalClosed` (ws_agent.go). The hub's cache shares its approvals with nobody.
use Prim.Native.String.{◌++◌}
use terminal_x.Common.{
  ℕ, Bool, true, false, not, String, Option, none, some, List, [], ◌∷◌, if◌then◌else◌, string_key,
  nat_key, ◌==◌, nat_beq,
}
use terminal_x.Common.Maps.{lookup, insert}
use terminal_x.Proto.Messages.{Approval, ApprovalStatus, ApprovalLevel, is_pending, is_hook}
use terminal_x.Proto.Envelope.{Msg, MsgType, DecisionText, blank}
use terminal_x.Relay.Hub.{Server, DeviceState, Out}

pub data DecideError : Type 0 where
  bad_decision not_found device_offline : DecideError
  already : ApprovalStatus → DecideError
  wrong_level : ApprovalLevel → DecideError

abbrev pub is_verdict : DecisionText → Bool
is_verdict DecisionText.allow = true
is_verdict DecisionText.deny = true
is_verdict _ = false

abbrev pub status_for : DecisionText → ApprovalStatus
status_for DecisionText.deny = ApprovalStatus.denied
status_for _ = ApprovalStatus.allowed

abbrev pub decision_text : DecisionText → String
decision_text DecisionText.unset = ""
decision_text DecisionText.allow = "allow"
decision_text DecisionText.deny = "deny"
decision_text DecisionText.fallback = "fallback"
decision_text (DecisionText.other x) = x

abbrev pub or_hint : String → String → String
or_hint device hint = if device == "" then hint else device

abbrev pub conn_to : Server → String → Option ℕ
conn_to s device = elim (lookup device s.devices) [ none ↦ none | some d ↦ d.conn ]

-- What a console's request carries besides the key.
pub record Request : Type 0 where
  pub decision : DecisionText
  pub actor : String
  pub device_hint : String
  pub req_id : String
  pub client_id : String

abbrev pub decided : Request → ℕ → Approval → Approval
decided r now a = record a {
  status = status_for r.decision;
  decided_by = r.actor;
  decided_at = some now;
}

-- The store write, the message to the agent, the audit entry and the broadcast, in this order.
abbrev pub announce : String → Request → ℕ → ℕ → String → Approval → List Out
announce key r now conn device a =
    Out.set_approval_status key (status_for r.decision) r.actor now
    ∷ Out.to_agent conn (record (blank MsgType.approval_decide) {
      req_id = r.req_id;
      device_id = device;
      client_id = r.client_id;
      sid = a.sid;
      key = key;
      decision = r.decision;
      by = r.actor;
    })
    ∷ Out.audit r.actor device a.sid "approval.decide"
        (decision_text r.decision ++ " " ++ a.tool ++ " " ++ a.summary)
    ∷ Out.broadcast (record (blank MsgType.approval_closed) {
      device_id = device;
      sid = a.sid;
      key = key;
      decision = r.decision;
      by = r.actor;
      approval = some (decided r now a);
    })
    ∷ []

-- What is done with the approval `a` that the cache has under the key; an error of the last component is what
-- the code returns.
abbrev pub decide_found :
    Server → String → Request → Approval → ℕ → Server × List Out × Option DecideError
decide_found s key r a now =
    if not (is_pending a.status)
    then (s, [], some (already a.status))
    else if not (is_hook a.level)
    then (s, [], some (wrong_level a.level))
    else elim (conn_to s (or_hint a.device_id r.device_hint)) [
      | none ↦ (s, [], some device_offline)
      | some conn ↦ (
        record s { approvals = insert key (decided r now a) s.approvals },
        announce key r now conn (or_hint a.device_id r.device_hint) a,
        none,
      )
    ]

-- The second critical section of a decision whose key was not in the cache: the row that the store gave without
-- the mutex goes into the cache, over what is there by now.
abbrev pub decide_missed :
    Server → String → Request → Approval → ℕ → Server × List Out × Option DecideError
decide_missed s key r row now =
    decide_found (record s { approvals = insert key row s.approvals }) key r row now

-- A decision that no other handler comes between; `row` is what the store answers for the key.
unfoldable pub decide_approval :
    Server → String → Request → Option Approval → ℕ → Server × List Out × Option DecideError
decide_approval s key r row now =
    if not (is_verdict r.decision)
    then (s, [], some bad_decision)
    else elim (lookup key s.approvals) [
      | some a ↦ decide_found s key r a now
      | none ↦ elim row [ none ↦ (s, [], some not_found) | some a ↦ decide_missed s key r a now ]
    ]

abbrev pub or_pending : ApprovalStatus → ApprovalStatus
or_pending ApprovalStatus.unset = ApprovalStatus.pending
or_pending status = status

abbrev pub filled : String → ℕ → ℕ → Approval → Approval
filled device sid now a = record a {
  device_id = device;
  status = or_pending a.status;
  created_at = if nat_beq a.created_at 0 then now else a.created_at;
  sid = if nat_beq a.sid 0 then sid else a.sid;
}

abbrev pub device_name : Option DeviceState → String
device_name none = ""
device_name (some d) = d.info.name

abbrev pub session_name : ℕ → Option DeviceState → String
session_name sid none = ""
session_name sid (some d) = elim (lookup sid d.sessions) [ none ↦ "" | some si ↦ si.name ]

abbrev notify : Server → String → Approval → List Out
notify s device ap =
    if is_pending ap.status
    then Out.webhook ap (device_name (lookup device s.devices))
        (session_name ap.sid (lookup device s.devices))
      ∷ []
    else []

abbrev add_new : Server → String → Msg → Approval → Server × List Out
add_new s device m ap = (
  record s { approvals = insert ap.key ap s.approvals },
  Out.upsert_approval ap
      ∷ Out.broadcast (record m { device_id = device; approval = some ap; sid = ap.sid })
      ∷ notify s device ap,
)

unfoldable pub on_approval_new : Server → String → Msg → ℕ → Server × List Out
on_approval_new s device m now = elim m.approval [
  | none ↦ (s, [])
  | some a ↦ if a.key == "" then (s, []) else add_new s device m (filled device m.sid now a)
]

abbrev pub closed_status : DecisionText → ApprovalStatus
closed_status DecisionText.fallback = ApprovalStatus.fallback
closed_status _ = ApprovalStatus.closed_local

abbrev pub or_local : String → String
or_local by = if by == "" then "local" else by

abbrev pub closed : Msg → ℕ → Approval → Approval
closed m now a =
    if is_pending a.status
    then record a {
      status = closed_status m.decision;
      decided_by = or_local m.by;
      decided_at = some now;
    }
    else a

abbrev persisted : Msg → ℕ → Approval → List Out → List Out
persisted m now a out =
    if is_pending a.status
    then Out.set_approval_status m.key (closed_status m.decision) (or_local m.by) now ∷ out
    else out

unfoldable pub on_approval_closed : Server → String → Msg → ℕ → Server × List Out
on_approval_closed s device m now =
    if m.key == "" then (s, []) else elim (lookup m.key s.approvals) [
      | none ↦ (s, Out.broadcast (record m { device_id = device; approval = none }) ∷ [])
      | some a ↦ (
        record s { approvals = insert m.key (closed m now a) s.approvals },
        persisted m now a (
            Out.broadcast
              (record m { device_id = device; approval = some (closed m now a); sid = a.sid })
            ∷ []),
      )
    ]
