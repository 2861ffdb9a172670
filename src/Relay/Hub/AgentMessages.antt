-- ===== src/Relay/Hub/AgentMessages.antt =====
-- The agents' messages and the two agreements.
use terminal_x.Common.{
  ℕ, ◌≡◌, ◌≢◌, refl, String, Option, none, some, List, [], ◌∷◌, string_key, nat_key, arith,
  Option-cases, inl, inr,
}
use terminal_x.Common.Maps.{lookup, adjust, lookup-adjust, lookup-insert}
use terminal_x.Proto.Messages.{SessionInfo, SessionHealth, Heartbeat}
use terminal_x.Proto.Envelope.{Msg}
use terminal_x.Relay.Hub.{Server, DeviceState, current, register_sid}
use terminal_x.Relay.Hub.Frames.{is_some}
use terminal_x.Relay.Hub.Approvals.{on_approval_new, on_approval_closed}
use terminal_x.Relay.Hub.Agents.{
  on_agent_hello, on_heartbeat, beat, hello_sessions, health, heard, refreshed,
}
use terminal_x.Relay.Hub.Upserts.{
  handle_agent_msg, on_session_upsert, on_session_state, on_session_exited, on_session_closed,
  upsert, unknown_session, without_session,
}
use terminal_x.Relay.Hub.Owners.{has, Owned}
use terminal_x.Relay.Hub.Ownership.{
  on_agent_hello-Owned, on_session_upsert-Owned, on_session_state-Owned, on_session_exited-Owned,
  on_session_closed-Owned,
}
use terminal_x.Relay.Hub.Attached.{Mirrored, forget_sid-Mirrored}
use terminal_x.Relay.Hub.Preserved.{
  SameSessions, SameClients, register_sid-clients, forget_unseen-Mirrored, hello_sessions-Mirrored,
}

on_approval-same :
    (s : Server) (device : String) (m : Msg) (now : ℕ)
    → (SameSessions s (on_approval_new s device m now).0
        × SameClients s (on_approval_new s device m now).0)
      × (SameSessions s (on_approval_closed s device m now).0
          × SameClients s (on_approval_closed s device m now).0)
unfolding on_approval_new on_approval_closed
on_approval-same s device m now = ground arith

heartbeat-clients :
    (s : Server) (conn : ℕ) (device : String) (m : Msg) (now : ℕ)
    → SameClients s (on_heartbeat s conn device m now).0
unfolding on_heartbeat
heartbeat-clients s conn device m now = ground arith

health-has :
    (hs : List SessionHealth) (m : List (ℕ × SessionInfo)) (j : ℕ)
    → is_some (lookup j (health hs m)) ≡ is_some (lookup j m)
unfolding health
health-has [] m j = refl
health-has (h ∷ hs) m j =
    ground
      (arith, health-has hs (adjust h.sid (refreshed h) m) j, lookup-adjust j h.sid (refreshed h) m)

has-heard :
    (o : Option Heartbeat) (now : ℕ) (d : DeviceState) (j : ℕ)
    → has (some (heard o now d)) j ≡ has (some d) j
has-heard none now d j = refl
has-heard (some hb) now d j = health-has hb.sessions d.sessions j

on_heartbeat-Owned :
    (s : Server) (conn : ℕ) (device : String) (m : Msg) (now : ℕ)
    → Owned s
    → Owned (on_heartbeat s conn device m now).0
unfolding on_heartbeat
on_heartbeat-Owned s conn device m now h sid d = elim (Option-cases (lookup device s.devices)) [
  | inl e ↦ ground (arith, h sid d)
  | inr (ds, e) ↦ ground (
    arith,
    h sid d,
    string_key.agrees_iff device d,
    has-heard m.heartbeat now ds sid,
    lookup-insert d device (heard m.heartbeat now ds) s.devices,
  )
]

on_agent_hello-Mirrored :
    (s : Server) (conn : ℕ) (device : String) (m : Msg) (now : ℕ)
    → Mirrored s
    → Mirrored (on_agent_hello s conn device m now).0
unfolding on_agent_hello
on_agent_hello-Mirrored s conn device m now h sid k = elim (Option-cases (current s conn device)) [
  | inl e ↦ ground (arith, h sid k)
  | inr (d, e) ↦
      let r = hello_sessions (beat conn now s) device [] m.sessions in
      ground (
        arith,
        h sid k,
        forget_unseen-Mirrored r.0 r.1 d.sessions
            (hello_sessions-Mirrored (beat conn now s) device [] m.sessions h) sid k,
      )
]

upsert-clients :
    (s : Server) (conn : ℕ) (device : String) (m : Msg) (si : SessionInfo)
    → SameClients s (upsert s conn device m si).0
unfolding upsert
upsert-clients s conn device m si = elim (Option-cases (register_sid s si.sid device)) [
  | inl e ↦ ground arith
  | inr (s', e) ↦ ground (arith, register_sid-clients s s' si.sid device e)
]

on_session_upsert-clients :
    (s : Server) (conn : ℕ) (device : String) (m : Msg)
    → SameClients s (on_session_upsert s conn device m).0
unfolding on_session_upsert
on_session_upsert-clients s conn device m = elim (Option-cases m.session) [
  | inl e ↦ ground (
    arith,
    upsert-clients s conn device m (record (unknown_session m.sid) { device_id = device }),
  )
  | inr (si, e) ↦ ground (arith, upsert-clients s conn device m (record si { device_id = device }))
]

on_session_closed-Mirrored :
    (s : Server) (device : String) (m : Msg)
    → Mirrored s
    → Mirrored (on_session_closed s device m).0
unfolding on_session_closed
on_session_closed-Mirrored s device m h sid k =
    let s1 = record s { devices = adjust device (without_session m.sid) s.devices } in
    ground (arith, h sid k, forget_sid-Mirrored s1 m.sid h sid k)

-- Every message of an agent leaves each device with exactly the session ids that it owns.
pub handle_agent_msg-Owned :
    (s : Server) (conn : ℕ) (device : String) (m : Msg) (now : ℕ)
    → device ≢ ""
    → Owned s
    → Owned (handle_agent_msg s conn device m now).0
unfolding handle_agent_msg
handle_agent_msg-Owned s conn device m now n h sid d = ground (
  arith,
  h sid d,
  on_agent_hello-Owned s conn device m now h sid d,
  on_heartbeat-Owned s conn device m now h sid d,
  on_session_upsert-Owned s conn device m h sid d,
  on_session_state-Owned s device m h sid d,
  on_session_exited-Owned s device m h sid d,
  on_session_closed-Owned s device m n h sid d,
  on_approval-same s device m now,
)

-- Every message of an agent leaves the two records of the attachments in agreement.
pub handle_agent_msg-Mirrored :
    (s : Server) (conn : ℕ) (device : String) (m : Msg) (now : ℕ)
    → Mirrored s
    → Mirrored (handle_agent_msg s conn device m now).0
unfolding handle_agent_msg on_session_state on_session_exited
handle_agent_msg-Mirrored s conn device m now h sid d = ground (
  arith,
  h sid d,
  on_agent_hello-Mirrored s conn device m now h sid d,
  heartbeat-clients s conn device m now,
  on_session_upsert-clients s conn device m,
  on_session_closed-Mirrored s device m h sid d,
  on_approval-same s device m now,
)
