-- ===== src/Relay/Hub/Requests.antt =====
-- `agentFor` and `handleClientMsg` (internal/relay/ws_client.go). The handler is given the client's id
-- and the decision that `decideApproval` needs from outside: the store's row and the time.
use Prim.Native.String.{◌++◌}
use terminal_x.Common.{
  ℕ, not, ◌&&◌, String, Option, none, some, List, [], ◌∷◌, if◌then◌else◌, string_key, nat_key, ◌==◌,
  nat_beq,
}
use terminal_x.Common.Maps.{lookup}
use mathlib.Core.List.{◌++◌ as append}
use terminal_x.Proto.Messages.{Approval, ApprovalStatus, ApprovalLevel, Tool}
use terminal_x.Proto.Envelope.{Msg, MsgType, OpenRequest, blank}
use terminal_x.Relay.Hub.{Server, Out, owner_of}
use terminal_x.Relay.Hub.Clients.{attach, detach}
use terminal_x.Relay.Hub.Approvals.{
  decide_approval, Request, DecideError, bad_decision, not_found, already, wrong_level,
  device_offline,
}

-- The device of a request: its own, or the owner of its sid.
abbrev pub device_for : Server → Msg → String
device_for s m =
    if m.device_id == "" && not (nat_beq m.sid 0) then owner_of s m.sid else m.device_id

abbrev pub agent_for : Server → Msg → Option ℕ
agent_for s m = elim (lookup (device_for s m) s.devices) [ none ↦ none | some d ↦ d.conn ]

abbrev pub type_text : MsgType → String
type_text (MsgType.other x) = x
type_text MsgType.agent_hello = "agent.hello"
type_text MsgType.heartbeat = "heartbeat"
type_text MsgType.session_opened = "session.opened"
type_text MsgType.session_state = "session.state"
type_text MsgType.session_exited = "session.exited"
type_text MsgType.session_closed = "session.closed"
type_text MsgType.session_updated = "session.updated"
type_text MsgType.approval_new = "approval.new"
type_text MsgType.approval_closed = "approval.closed"
type_text MsgType.client_hello = "client.hello"
type_text MsgType.session_open = "session.open"
type_text MsgType.session_attach = "session.attach"
type_text MsgType.session_detach = "session.detach"
type_text MsgType.session_resize = "session.resize"
type_text MsgType.session_signal = "session.signal"
type_text MsgType.session_close = "session.close"
type_text MsgType.session_set_mode = "session.set_mode"
type_text MsgType.approval_decide = "approval.decide"
type_text MsgType.device_list = "device.list"
type_text MsgType.device_state = "device.state"
type_text MsgType.session_list = "session.list"
type_text MsgType.approval_list = "approval.list"
type_text MsgType.ack = "ack"
type_text MsgType.error = "error"

abbrev pub status_text : ApprovalStatus → String
status_text ApprovalStatus.unset = ""
status_text ApprovalStatus.pending = "pending"
status_text ApprovalStatus.allowed = "allowed"
status_text ApprovalStatus.denied = "denied"
status_text ApprovalStatus.closed_local = "closed_local"
status_text ApprovalStatus.fallback = "fallback"
status_text (ApprovalStatus.other x) = x

abbrev pub level_text : ApprovalLevel → String
level_text ApprovalLevel.hook = "A"
level_text ApprovalLevel.keys = "B"
level_text ApprovalLevel.suspect = "C"
level_text (ApprovalLevel.other x) = x

abbrev pub error_text : DecideError → String
error_text bad_decision = "decision must be allow or deny"
error_text not_found = "approval not found"
error_text device_offline = "device offline"
error_text (already status) = "approval already " ++ status_text status
error_text (wrong_level level) =
    "approval level " ++ level_text level ++ " is answered in the terminal, not by decision"

abbrev pub tool_text : Tool → String
tool_text Tool.unset = ""
tool_text Tool.claude = "claude"
tool_text Tool.codex = "codex"
tool_text Tool.grok = "grok"
tool_text Tool.shell = "shell"
tool_text (Tool.other x) = x

abbrev send_error : String → Msg → String → String → Out
send_error cid m device text = Out.to_client cid (record (blank MsgType.error) {
  req_id = m.req_id;
  device_id = device;
  sid = m.sid;
  error = text;
})

abbrev open_detail : Option OpenRequest → String
open_detail none = ""
open_detail (some o) = tool_text o.tool ++ " " ++ o.shell ++ " " ++ o.cwd

abbrev audit_of : String → String → Msg → List Out
audit_of cid device m = elim m.t [
  | MsgType.session_open ↦
      Out.audit ("web:" ++ cid) device 0 "session.open" (open_detail m.open_req) ∷ []
  | MsgType.session_close ↦ Out.audit ("web:" ++ cid) device m.sid "session.close" "" ∷ []
  | MsgType.session_signal ↦ Out.audit ("web:" ++ cid) device m.sid "session.signal" m.sig ∷ []
  | _ ↦ []
]

-- What the agent gets: the request with the client's id and the device found for it.
abbrev pub forwarded : Server → String → Msg → Msg
forwarded s cid m = record m { client_id = cid; device_id = device_for s m }

abbrev forward : Server → String → Msg → Server × List Out
forward s cid m = elim (agent_for s m) [
  | none ↦ (s, send_error cid m (device_for s m) "device offline" ∷ [])
  | some conn ↦ (s, Out.to_agent conn (forwarded s cid m) ∷ audit_of cid (device_for s m) m)
]

abbrev on_attach : Server → String → Msg → Server × List Out
on_attach s cid m = elim (agent_for s m) [
  | none ↦ (s, send_error cid m (device_for s m) "device offline" ∷ [])
  | some conn ↦ elim (attach s cid m.sid (device_for s m)) [
    | none ↦ (s, send_error cid m (device_for s m) "unknown session" ∷ [])
    | some s' ↦ (s', Out.to_agent conn (forwarded s cid m) ∷ [])
  ]
]

abbrev detach_device : Server → Msg → String
detach_device s m = if m.device_id == "" then owner_of s m.sid else m.device_id

abbrev detach_ack : String → Msg → String → Out
detach_ack cid m device =
    Out.to_client cid
      (record (blank MsgType.ack) { req_id = m.req_id; device_id = device; sid = m.sid })

abbrev on_detach : Server → String → Msg → Server × List Out
on_detach s cid m = elim (lookup (detach_device s m) s.devices) [
  | none ↦ (detach s cid m.sid, detach_ack cid m (detach_device s m) ∷ [])
  | some d ↦ elim d.conn [
    | none ↦ (detach s cid m.sid, detach_ack cid m (detach_device s m) ∷ [])
    | some conn ↦ (
      detach s cid m.sid,
      Out.to_agent conn (record m { client_id = cid; device_id = detach_device s m })
          ∷ detach_ack cid m (detach_device s m)
          ∷ [],
    )
  ]
]

abbrev pub request_of : String → Msg → Request
request_of cid m = record {
  decision = m.decision;
  actor = "web:" ++ cid;
  device_hint = m.device_id;
  req_id = m.req_id;
  client_id = cid;
}

abbrev answer : String → Msg → List Out → Option DecideError → List Out
answer cid m out (some e) = send_error cid m m.device_id (error_text e) ∷ []
answer cid m out none = append out (
    Out.to_client cid
      (record (blank MsgType.ack) { req_id = m.req_id; key = m.key; decision = m.decision })
    ∷ [])

abbrev on_decide : Server → String → Msg → Option Approval → ℕ → Server × List Out
on_decide s cid m row now =
    let (s', out, e) = decide_approval s m.key (request_of cid m) row now in
    (s', answer cid m out e)

unfoldable pub handle_client_msg : Server → String → Msg → Option Approval → ℕ → Server × List Out
handle_client_msg s cid m row now = elim m.t [
  | MsgType.client_hello ↦ (
    s,
    Out.to_client cid (record (blank MsgType.ack) { req_id = m.req_id; client_id = cid }) ∷ [],
  )
  | MsgType.session_attach ↦ on_attach s cid m
  | MsgType.session_detach ↦ on_detach s cid m
  | MsgType.session_open ↦ forward s cid m
  | MsgType.session_resize ↦ forward s cid m
  | MsgType.session_signal ↦ forward s cid m
  | MsgType.session_close ↦ forward s cid m
  | MsgType.session_set_mode ↦ forward s cid m
  | MsgType.approval_decide ↦ on_decide s cid m row now
  | _ ↦ (s, send_error cid m m.device_id ("unknown message type " ++ type_text m.t) ∷ [])
]
