-- ===== src/Proto/Envelope.antt =====
-- `Msg` of internal/proto/messages.go, the one envelope of the control plane. A field that is left out
-- has its zero value, as in `blank`.
use terminal_x.Common.{ℕ, ℤ, String, Option, none, List, []}
use terminal_x.Proto.Messages.{
  SessionInfo, DeviceInfo, Approval, Heartbeat, Resumable, SessionState, NeedKind, Source,
  Confidence, ApprovalMode, Tool,
}

pub data MsgType : Type 0 where
  agent_hello heartbeat session_opened session_state session_exited session_closed session_updated
        approval_new approval_closed :
      MsgType
  client_hello session_open session_attach session_detach session_resize session_signal
        session_close session_set_mode approval_decide :
      MsgType
  device_list device_state session_list approval_list ack error : MsgType
  other : String → MsgType

-- The texts of a decision; `unset` is the empty one, and `fallback` is what an agent reports when a
-- hook timed out.
pub data DecisionText : Type 0 where
  unset allow deny fallback : DecisionText
  other : String → DecisionText

pub record OpenRequest : Type 0 where
  pub shell : String
  pub cwd : String
  pub tool : Tool
  pub name : String
  pub preset : String
  pub permission_mode : String
  pub approval_mode : ApprovalMode
  pub resume : String
  pub cols : ℕ
  pub rows : ℕ
  pub extra : List String

pub record Msg : Type 0 where
  pub t : MsgType
  pub req_id : String
  pub device_id : String
  pub client_id : String
  pub sid : ℕ
  pub agent_id : String
  pub version : String
  pub os : String
  pub caps : List String
  pub sessions : List SessionInfo
  pub session : Option SessionInfo
  pub devices : List DeviceInfo
  pub device : Option DeviceInfo
  pub approvals : List Approval
  pub approval : Option Approval
  pub heartbeat : Option Heartbeat
  pub open_req : Option OpenRequest
  pub last_seq : ℕ
  pub cols : ℕ
  pub rows : ℕ
  pub sig : String
  pub mode : ApprovalMode
  pub state : SessionState
  pub kind : NeedKind
  pub source : Source
  pub confidence : Confidence
  pub code : Option ℤ
  pub resumable : Option Resumable
  pub key : String
  pub decision : DecisionText
  pub by : String
  pub error : String

-- A message of type `ty` with no other field.
abbrev pub blank : MsgType → Msg
blank ty = record {
  t = ty;
  req_id = "";
  device_id = "";
  client_id = "";
  sid = 0;
  agent_id = "";
  version = "";
  os = "";
  caps = [];
  sessions = [];
  session = none;
  devices = [];
  device = none;
  approvals = [];
  approval = none;
  heartbeat = none;
  open_req = none;
  last_seq = 0;
  cols = 0;
  rows = 0;
  sig = "";
  mode = ApprovalMode.unset;
  state = SessionState.unset;
  kind = NeedKind.unset;
  source = Source.unset;
  confidence = Confidence.unset;
  code = none;
  resumable = none;
  key = "";
  decision = DecisionText.unset;
  by = "";
  error = "";
}
