-- ===== src/Relay/Hub/Agents.antt =====
-- Agent connections (internal/relay/ws_agent.go): connect and disconnect of `handleAgentWS`, the
-- handlers of `handleAgentMsg` that keep the sessions, `pingLoop`'s measurement; `revokeDevice`
-- (hub.go) and `sweepOnce` (server.go). A connection is a number, `device` the device it is for.
use terminal_x.Common.{
  ℕ, ◌-◌, Bool, true, false, String, Option, none, some, List, [], ◌∷◌, ◌++◌, if◌then◌else◌,
  string_key, nat_key, ◌==◌, nat_beq, ltb,
}
use terminal_x.Common.Maps.{lookup, insert, delete, adjust, map_entries}
use terminal_x.Proto.Messages.{SessionInfo, DeviceInfo, SessionHealth, Heartbeat}
use terminal_x.Proto.Envelope.{Msg, MsgType, blank}
use terminal_x.Relay.Hub.{
  Server, DeviceState, Out, owner_of, register_sid, forget_sid, forget_sids, current,
  broadcast_device_state, broadcast_device_list, broadcast_session_list,
}

-- `newDeviceState` of the store's row
abbrev pub new_device_state : DeviceInfo → DeviceState
new_device_state row = record {
  info = record row { online = false; rtt_ms = 0; power = "" };
  sessions = [];
  conn = none;
}

abbrev pub state_or_new : Option DeviceState → DeviceInfo → DeviceState
state_or_new none row = new_device_state row
state_or_new (some d) row = d

abbrev pub closing : Option ℕ → List Out
closing none = []
closing (some conn) = Out.close_agent conn ∷ []

abbrev pub online : ℕ → ℕ → DeviceState → DeviceState
online conn now d = record d {
  info = record d.info { online = true; last_seen = now };
  conn = some conn;
}

-- `row` is the device that the store found for the token.
unfoldable pub agent_connect : Server → ℕ → DeviceInfo → ℕ → Server × List Out
agent_connect s conn row now =
    let d = state_or_new (lookup row.id s.devices) row in
    let s' = record s {
      devices = insert row.id (online conn now d) s.devices;
      agents = insert conn (record { device_id = row.id; last_heartbeat = now; rtt = 0 }) s.agents;
    } in
    (s', closing d.conn ++ broadcast_device_state s' row.id)

abbrev pub offline : DeviceState → DeviceState
offline d = record d { info = record d.info { online = false; rtt_ms = 0 }; conn = none }

-- Every client of a session of the device waits for the next snapshot.
abbrev pub mark_pending : Server → String → ℕ → List (String × Bool) → List (String × Bool)
mark_pending s device sid atts =
    if owner_of s sid == device then map_entries (λ _ _. true) atts else atts

unfoldable pub agent_disconnect : Server → ℕ → String → Server × List Out
agent_disconnect s conn device = elim (current s conn device) [
  | none ↦ (s, broadcast_device_state s device)
  | some d ↦
      let s' = record s {
        devices = insert device (offline d) s.devices;
        attachments = map_entries (mark_pending s device) s.attachments;
      } in
      (s', broadcast_device_state s' device)
]

-- The loop over a hello's sessions; `fresh` is the new session set so far.
unfoldable pub hello_sessions :
    Server → String → List (ℕ × SessionInfo) → List SessionInfo → Server × List (ℕ × SessionInfo)
hello_sessions s device fresh [] = (s, fresh)
hello_sessions s device fresh (si ∷ sis) = elim (register_sid s si.sid device) [
  | none ↦ hello_sessions s device fresh sis
  | some s' ↦ hello_sessions s' device (insert si.sid (record si { device_id = device }) fresh) sis
]

unfoldable pub forget_unseen : Server → List (ℕ × SessionInfo) → List (ℕ × SessionInfo) → Server
forget_unseen s fresh [] = s
forget_unseen s fresh ((sid, _) ∷ old) = elim (lookup sid fresh) [
  | none ↦ forget_unseen (forget_sid s sid) fresh old
  | some _ ↦ forget_unseen s fresh old
]

abbrev or_old : String → String → String
or_old text old = if text == "" then old else text

abbrev pub greeted : Msg → ℕ → List (ℕ × SessionInfo) → DeviceState → DeviceState
greeted m now fresh d = record d {
  info = record d.info {
    os = or_old m.os d.info.os;
    agent_version = or_old m.version d.info.agent_version;
    last_seen = now;
  };
  sessions = fresh;
}

abbrev pub beat : ℕ → ℕ → Server → Server
beat conn now s = record s {
  agents = adjust conn (λ a. record a { last_heartbeat = now }) s.agents;
}

unfoldable pub on_agent_hello : Server → ℕ → String → Msg → ℕ → Server × List Out
on_agent_hello s conn device m now = elim (current s conn device) [
  | none ↦ (s, [])
  | some d ↦
      let (s1, fresh) = hello_sessions (beat conn now s) device [] m.sessions in
      let s2 = forget_unseen s1 fresh d.sessions in
      let s3 = record s2 { devices = insert device (greeted m now fresh d) s2.devices } in
      (
        s3,
        Out.touch_device device now m.os m.version
            ∷ Out.to_agent conn
                (record (blank MsgType.ack) { req_id = m.req_id; device_id = device })
            ∷ (broadcast_device_state s3 device ++ broadcast_session_list s3 device),
      )
]

abbrev pub refreshed : SessionHealth → SessionInfo → SessionInfo
refreshed h si = record si {
  pty_alive = h.pty_alive;
  last_output_at = if nat_beq h.last_output_at 0 then si.last_output_at else h.last_output_at;
  seq = if ltb si.seq h.seq then h.seq else si.seq;
}

unfoldable pub health : List SessionHealth → List (ℕ × SessionInfo) → List (ℕ × SessionInfo)
health [] m = m
health (h ∷ hs) m = health hs (adjust h.sid (refreshed h) m)

abbrev pub heard : Option Heartbeat → ℕ → DeviceState → DeviceState
heard none now d = record d { info = record d.info { last_seen = now } }
heard (some hb) now d = record d {
  info = record d.info { last_seen = now; power = or_old hb.power d.info.power };
  sessions = health hb.sessions d.sessions;
}

-- The echo is the message verbatim.
unfoldable pub on_heartbeat : Server → ℕ → String → Msg → ℕ → Server × List Out
on_heartbeat s conn device m now = elim (current s conn device) [
  | none ↦ (s, [])
  | some d ↦
      let s1 = beat conn now s in
      let s2 = record s1 { devices = insert device (heard m.heartbeat now d) s1.devices } in
      (
        s2,
        Out.echo_to_agent conn m
            ∷ Out.touch_device device now "" ""
            ∷ broadcast_device_state s2 device,
      )
]

abbrev pub timed : ℕ → DeviceState → DeviceState
timed ms d = record d { info = record d.info { rtt_ms = ms } }

unfoldable pub on_ping : Server → ℕ → String → ℕ → Server
on_ping s conn device ms =
    let s1 = record s { agents = adjust conn (λ a. record a { rtt = ms }) s.agents } in
    elim (current s conn device) [
      | none ↦ s1
      | some d ↦ record s1 { devices = insert device (timed ms d) s1.devices }
    ]

-- `refused` is the store's answer; the code returns its error before it changes anything.
unfoldable pub revoke_device : Server → String → String → Bool → Server × List Out
revoke_device s device actor refused = if refused then (s, []) else elim (lookup device s.devices) [
  | none ↦ (s, Out.audit actor device 0 "device.revoke" "" ∷ broadcast_device_list s)
  | some d ↦
      let s1 = forget_sids s d.sessions in
      let s2 = record s1 { devices = delete device s1.devices } in
      (
        s2,
        closing d.conn ++ (Out.audit actor device 0 "device.revoke" "" ∷ broadcast_device_list s2),
      )
]

abbrev pub is_stale : Server → ℕ → ℕ → ℕ → Bool
is_stale s now timeout conn = elim (lookup conn s.agents) [
  | none ↦ false
  | some a ↦ ltb timeout (now - a.last_heartbeat)
]

abbrev stale_conn : Server → ℕ → ℕ → Option ℕ → List Out → List Out
stale_conn s now timeout none out = out
stale_conn s now timeout (some conn) out =
    if is_stale s now timeout conn then Out.close_agent conn ∷ out else out

unfoldable pub sweep_devices : Server → ℕ → ℕ → List (String × DeviceState) → List Out
sweep_devices s now timeout [] = []
sweep_devices s now timeout ((_, d) ∷ m) =
    stale_conn s now timeout d.conn (sweep_devices s now timeout m)

-- It only closes; the connections' read loops then unregister.
unfoldable pub sweep_once : Server → ℕ → ℕ → List Out
sweep_once s now timeout = sweep_devices s now timeout s.devices
