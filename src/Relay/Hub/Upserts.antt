-- ===== src/Relay/Hub/Upserts.antt =====
-- `onSessionUpsert`, `onSessionState`, `onSessionExited`, `onSessionClosed` and the dispatch of
-- `handleAgentMsg` (internal/relay/ws_agent.go).
use terminal_x.Common.{
  ℕ, false, String, none, some, List, [], ◌∷◌, if◌then◌else◌, string_key, nat_key, ◌==◌, nat_beq,
}
use terminal_x.Common.Maps.{lookup, insert, delete, adjust}
use terminal_x.Proto.Messages.{
  SessionInfo, SessionState, NeedKind, Source, Confidence, ApprovalMode, Tool,
}
use terminal_x.Proto.Envelope.{Msg, MsgType, blank}
use terminal_x.Relay.Hub.{Server, DeviceState, Out, owner_of, register_sid, forget_sid}
use terminal_x.Relay.Hub.Agents.{on_agent_hello, on_heartbeat}
use terminal_x.Relay.Hub.Approvals.{on_approval_new, on_approval_closed}

-- `proto.SessionInfo{SID: sid, State: StateUnknown}`
abbrev pub unknown_session : ℕ → SessionInfo
unknown_session sid = record {
  sid = sid;
  device_id = "";
  name = "";
  tool = Tool.unset;
  shell = "";
  cwd = "";
  preset = "";
  permission_mode = "";
  approval_mode = ApprovalMode.unset;
  state = SessionState.unknown;
  kind = NeedKind.unset;
  source = Source.unset;
  confidence = Confidence.unset;
  started_at = 0;
  last_output_at = 0;
  cols = 0;
  rows = 0;
  seq = 0;
  cost_usd = none;
  context_pct = none;
  exit_code = none;
  resumable = none;
  pty_alive = false;
}

abbrev pub put_session : SessionInfo → DeviceState → DeviceState
put_session si d = record d { sessions = insert si.sid si d.sessions }

abbrev in_use : ℕ → Msg → ℕ → Out
in_use conn m sid = Out.to_agent conn (record (blank MsgType.error) {
  req_id = m.req_id;
  client_id = m.client_id;
  sid = sid;
  error = "sid already in use by another device";
})

-- `si` has the device's id.
unfoldable pub upsert : Server → ℕ → String → Msg → SessionInfo → Server × List Out
upsert s conn device m si = elim (lookup device s.devices) [
  | none ↦ (s, [])
  | some d ↦ elim (register_sid s si.sid device) [
    | none ↦ (s, in_use conn m si.sid ∷ [])
    | some s' ↦ (
      record s' { devices = insert device (put_session si d) s'.devices },
      Out.broadcast (record m { device_id = device; sid = si.sid; session = some si }) ∷ [],
    )
  ]
]

unfoldable pub on_session_upsert : Server → ℕ → String → Msg → Server × List Out
on_session_upsert s conn device m = elim m.session [
  | some si ↦ upsert s conn device m (record si { device_id = device })
  | none ↦
      if nat_beq m.sid 0
      then (s, [])
      else upsert s conn device m (record (unknown_session m.sid) { device_id = device })
]

abbrev or_state : SessionState → SessionState → SessionState
or_state SessionState.unset old = old
or_state new old = new

abbrev or_source : Source → Source → Source
or_source Source.unset old = old
or_source new old = new

abbrev or_confidence : Confidence → Confidence → Confidence
or_confidence Confidence.unset old = old
or_confidence new old = new

abbrev pub stated : String → Msg → SessionInfo → SessionInfo
stated device m si = elim m.session [
  | some new ↦ record new { device_id = device }
  | none ↦ record si {
    state = or_state m.state si.state;
    kind = m.kind;
    source = or_source m.source si.source;
    confidence = or_confidence m.confidence si.confidence;
  }
]

abbrev pub on_session : ℕ → (SessionInfo → SessionInfo) → DeviceState → DeviceState
on_session sid f d = record d { sessions = adjust sid f d.sessions }

unfoldable pub on_session_state : Server → String → Msg → Server × List Out
on_session_state s device m = (
  record s { devices = adjust device (on_session m.sid (stated device m)) s.devices },
  Out.broadcast (record m { device_id = device }) ∷ [],
)

abbrev pub exited : Msg → SessionInfo → SessionInfo
exited m si = record si {
  state = SessionState.exited;
  pty_alive = false;
  exit_code = m.code;
  resumable = m.resumable;
}

unfoldable pub on_session_exited : Server → String → Msg → Server × List Out
on_session_exited s device m = (
  record s { devices = adjust device (on_session m.sid (exited m)) s.devices },
  Out.broadcast (record m { device_id = device }) ∷ [],
)

abbrev pub without_session : ℕ → DeviceState → DeviceState
without_session sid d = record d { sessions = delete sid d.sessions }

unfoldable pub on_session_closed : Server → String → Msg → Server × List Out
on_session_closed s device m =
    let s1 = record s { devices = adjust device (without_session m.sid) s.devices } in
    (
      if owner_of s m.sid == device then forget_sid s1 m.sid else s1,
      Out.broadcast (record m { device_id = device }) ∷ [],
    )

abbrev reply : Server → String → Msg → List Out
reply s device m =
    if m.client_id == ""
    then Out.broadcast (record m { device_id = device }) ∷ []
    else elim (lookup m.client_id s.clients) [
      | none ↦ []
      | some _ ↦ Out.to_client m.client_id (record m { device_id = device }) ∷ []
    ]

unfoldable pub handle_agent_msg : Server → ℕ → String → Msg → ℕ → Server × List Out
handle_agent_msg s conn device m now = elim m.t [
  | MsgType.agent_hello ↦ on_agent_hello s conn device m now
  | MsgType.heartbeat ↦ on_heartbeat s conn device m now
  | MsgType.session_opened ↦ on_session_upsert s conn device m
  | MsgType.session_updated ↦ on_session_upsert s conn device m
  | MsgType.session_state ↦ on_session_state s device m
  | MsgType.session_exited ↦ on_session_exited s device m
  | MsgType.session_closed ↦ on_session_closed s device m
  | MsgType.approval_new ↦ on_approval_new s device m now
  | MsgType.approval_closed ↦ on_approval_closed s device m now
  | MsgType.ack ↦ (s, reply s device m)
  | MsgType.error ↦ (s, reply s device m)
  | _ ↦ (s, Out.broadcast (record m { device_id = device }) ∷ [])
]
