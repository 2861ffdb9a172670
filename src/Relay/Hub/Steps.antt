-- ===== src/Relay/Hub/Steps.antt =====
-- The hub as a transition system: the handlers of both kinds of WebSocket connection, the decision over HTTP and
-- the revocation of a device are steps, in any order and interleaving. What the other HTTP handlers change in
-- the hub, a new device or a name, is no step; the sweep of silent connections changes nothing in it.
use terminal_x.Common.{
  ℕ, ◌≡◌, ◌≢◌, refl, Bool, false, String, Option, none, some, List, [], string_key, nat_key, arith,
  Option-cases, inl, inr, ◌⊎◌,
}
use terminal_x.Common.Maps.{lookup, lookup-insert}
use terminal_x.Proto.Messages.{Approval, DeviceInfo}
use terminal_x.Proto.Envelope.{Msg}
use terminal_x.Proto.Frame.{Result, FrameError, peek_header, ok, err}
use terminal_x.Relay.Hub.{Server, Out}
use terminal_x.Relay.Hub.Maps.{att}
use terminal_x.Relay.Hub.Frames.{route_agent_frame}
use terminal_x.Relay.Hub.Approvals.{Request, decide_approval, decide_missed}
use terminal_x.Relay.Hub.Clients.{client_connect, client_disconnect}
use terminal_x.Relay.Hub.Requests.{handle_client_msg}
use terminal_x.Relay.Hub.Agents.{agent_connect, agent_disconnect, on_ping, revoke_device, timed}
use terminal_x.Relay.Hub.Upserts.{handle_agent_msg}
use terminal_x.Relay.Hub.Routing.{route_agent_frame_marks}
use terminal_x.Relay.Hub.Owners.{has, Owned}
use terminal_x.Relay.Hub.Ownership.{
  agent_connect-Owned, agent_disconnect-Owned, revoke_device-Owned,
}
use terminal_x.Relay.Hub.Attached.{Mirrored, client_connect-Mirrored, client_disconnect-Mirrored}
use terminal_x.Relay.Hub.Preserved.{
  SameSessions, SameClients, same-Owned, same-Mirrored, handle_client_msg-sessions,
  handle_client_msg-Mirrored, decide_approval-same, decide_missed-same, agent_disconnect-Mirrored,
  revoke_device-Mirrored, agent_connect-clients, client-sessions,
}
use terminal_x.Relay.Hub.AgentMessages.{handle_agent_msg-Owned, handle_agent_msg-Mirrored}

-- A step is a handler's run, but for a decision whose key was not in the cache: that is also the step of its
-- second critical section alone, with any row, which comes at any time later. A connecting client's id is one that no connected client has, a client
-- whose message is handled is connected, and no device has the empty id.
pub data Step : Server → Server → Type 0 where
  agent_connects :
      (s : Server) (conn : ℕ) (row : DeviceInfo) (now : ℕ) → Step s (agent_connect s conn row now).0
  agent_disconnects :
      (s : Server) (conn : ℕ) (device : String) → Step s (agent_disconnect s conn device).0
  agent_sends :
      (s : Server) (conn : ℕ) (device : String) (m : Msg) (now : ℕ)
      → device ≢ ""
      → Step s (handle_agent_msg s conn device m now).0
  agent_streams :
      (s s' : Server) (device : String) (frame : List ℕ) (out : List Out)
      → route_agent_frame s device frame ≡ some (s', out)
      → Step s s'
  agent_answers_ping :
      (s : Server) (conn : ℕ) (device : String) (ms : ℕ) → Step s (on_ping s conn device ms)
  client_connects :
      (s : Server) (cid login : String)
      → lookup cid s.clients ≡ none
      → Step s (client_connect s cid login).0
  client_disconnects : (s : Server) (cid : String) → Step s (client_disconnect s cid)
  client_sends :
      (s : Server) (cid : String) (m : Msg) (row : Option Approval) (now : ℕ)
      → lookup cid s.clients ≢ none
      → Step s (handle_client_msg s cid m row now).0
  decides :
      (s : Server) (key : String) (r : Request) (row : Option Approval) (now : ℕ)
      → Step s (decide_approval s key r row now).0
  resumes_decision :
      (s : Server) (key : String) (r : Request) (row : Approval) (now : ℕ)
      → Step s (decide_missed s key r row now).0
  revokes :
      (s : Server) (device actor : String) (refused : Bool)
      → Step s (revoke_device s device actor refused).0

-- `New`: the devices of the store, without sessions, and its pending approvals.
abbrev pub Initial : Server → Type 0
Initial s =
    ((sid : ℕ) (d : String) → has (lookup d s.devices) sid ≡ false)
    × (s.clients ≡ [])
    × (s.sid_owner ≡ [])
    × (s.attachments ≡ [])

pub data Reachable : Server → Type 0 where
  start : (s : Server) → Initial s → Reachable s
  later : (s s' : Server) → Reachable s → Step s s' → Reachable s'

frame_header :
    (frame : List ℕ)
    → ((x : FrameError) × (peek_header frame ≡ err x))
      ⊎ ((t : ℕ) × (sid : ℕ) × (peek_header frame ≡ ok (t, sid)))
frame_header frame = go (peek_header frame) refl
  where
    go :
        (r : Result (ℕ × ℕ))
        → peek_header frame ≡ r
        → ((x : FrameError) × (peek_header frame ≡ err x))
          ⊎ ((t : ℕ) × (sid : ℕ) × (peek_header frame ≡ ok (t, sid)))
    go (err x) e = inl (x, e)
    go (ok (t, sid)) e = inr (t, sid, e)

stream-clients :
    (s s' : Server) (device : String) (frame : List ℕ) (out : List Out)
    → route_agent_frame s device frame ≡ some (s', out)
    → (s'.clients ≡ s.clients) × SameSessions s s'
unfolding route_agent_frame
stream-clients s s' device frame out e = ground arith

streamed :
    (s s' : Server) (device : String) (frame : List ℕ) (out : List Out) (x : FrameError)
    → peek_header frame ≡ err x
    → ¬ (route_agent_frame s device frame ≡ some (s', out))
unfolding route_agent_frame
streamed s s' device frame out x p e = ground arith

stream-Mirrored :
    (s s' : Server) (device : String) (frame : List ℕ) (out : List Out)
    → route_agent_frame s device frame ≡ some (s', out)
    → Mirrored s
    → Mirrored s' × SameSessions s s'
stream-Mirrored s s' device frame out e h = elim (frame_header frame) [
  | inl (x, p) ↦ elim (streamed s s' device frame out x p e) [ ]
  | inr (t, sid, p) ↦ (
    λ j k. ground (
      arith,
      h j k,
      stream-clients s s' device frame out e,
      route_agent_frame_marks s s' device frame out t sid j k p e,
    ),
    (stream-clients s s' device frame out e).1,
  )
]

ping-same :
    (s : Server) (conn : ℕ) (device : String) (ms : ℕ)
    → SameClients s (on_ping s conn device ms)
      × ((sid : ℕ) (d : String)
          → has (lookup d (on_ping s conn device ms).devices) sid ≡ has (lookup d s.devices) sid)
      × ((on_ping s conn device ms).sid_owner ≡ s.sid_owner)
unfolding on_ping
ping-same s conn device ms = elim (Option-cases (lookup device s.devices)) [
  | inl e ↦ ground arith
  | inr (ds, e) ↦ (
    ground arith,
    λ sid d.
        ground
          (arith, string_key.agrees_iff device d, lookup-insert d device (timed ms ds) s.devices),
    ground arith,
  )
]

ping-Owned :
    (s : Server) (conn : ℕ) (device : String) (ms : ℕ) → Owned s → Owned (on_ping s conn device ms)
ping-Owned s conn device ms h sid d =
    let p = ping-same s conn device ms in ground (arith, h sid d, p.1 sid d, p.2)

Step-Owned : (s s' : Server) → Step s s' → Mirrored s → Owned s → Owned s'
Step-Owned s _ (agent_connects _ conn row now) m h = agent_connect-Owned s conn row now h
Step-Owned s _ (agent_disconnects _ conn device) m h = agent_disconnect-Owned s conn device h
Step-Owned s _ (agent_sends _ conn device msg now n) m h =
    handle_agent_msg-Owned s conn device msg now n h
Step-Owned s _ (agent_streams _ s' device frame out e) m h =
    same-Owned s s' (stream-Mirrored s s' device frame out e m).1 h
Step-Owned s _ (agent_answers_ping _ conn device ms) m h = ping-Owned s conn device ms h
Step-Owned s _ (client_connects _ cid login n) m h =
    same-Owned s (client_connect s cid login).0 (client-sessions s cid login).0 h
Step-Owned s _ (client_disconnects _ cid) m h =
    same-Owned s (client_disconnect s cid) (client-sessions s cid "").1 h
Step-Owned s _ (client_sends _ cid msg row now n) m h =
    same-Owned s (handle_client_msg s cid msg row now).0
      (handle_client_msg-sessions s cid msg row now) h
Step-Owned s _ (decides _ key r row now) m h =
    same-Owned s (decide_approval s key r row now).0 (decide_approval-same s key r row now).0 h
Step-Owned s _ (resumes_decision _ key r row now) m h =
    same-Owned s (decide_missed s key r row now).0 (decide_missed-same s key r row now).0 h
Step-Owned s _ (revokes _ device actor refused) m h = revoke_device-Owned s device actor refused h

Step-Mirrored : (s s' : Server) → Step s s' → Mirrored s → Mirrored s'
Step-Mirrored s _ (agent_connects _ conn row now) h =
    same-Mirrored s (agent_connect s conn row now).0 (agent_connect-clients s conn row now) h
Step-Mirrored s _ (agent_disconnects _ conn device) h = agent_disconnect-Mirrored s conn device h
Step-Mirrored s _ (agent_sends _ conn device msg now n) h =
    handle_agent_msg-Mirrored s conn device msg now h
Step-Mirrored s _ (agent_streams _ s' device frame out e) h =
    (stream-Mirrored s s' device frame out e h).0
Step-Mirrored s _ (agent_answers_ping _ conn device ms) h =
    same-Mirrored s (on_ping s conn device ms) (ping-same s conn device ms).0 h
Step-Mirrored s _ (client_connects _ cid login n) h = client_connect-Mirrored s cid login n h
Step-Mirrored s _ (client_disconnects _ cid) h = client_disconnect-Mirrored s cid h
Step-Mirrored s _ (client_sends _ cid msg row now n) h =
    handle_client_msg-Mirrored s cid msg row now n h
Step-Mirrored s _ (decides _ key r row now) h =
    same-Mirrored s (decide_approval s key r row now).0 (decide_approval-same s key r row now).1 h
Step-Mirrored s _ (resumes_decision _ key r row now) h =
    same-Mirrored s (decide_missed s key r row now).0 (decide_missed-same s key r row now).1 h
Step-Mirrored s _ (revokes _ device actor refused) h =
    revoke_device-Mirrored s device actor refused h

-- In every state that the handlers of agents and consoles, the decisions over HTTP and the revocation of devices
-- reach from the start, in any order, a device owns exactly the session ids of its session set, and every connected
-- client's own map holds exactly its attachments.
pub Reachable-Owned : (s : Server) → Reachable s → Owned s × Mirrored s
Reachable-Owned s (start _ (d, c, o, a)) = (
  λ sid k. rw (o, d sid k) (unfold lookup in refl),
  λ sid k. rw (c, a) (unfold lookup att in refl),
)
Reachable-Owned s (later s0 _ r step) =
    let (h, m) = Reachable-Owned s0 r in (Step-Owned s0 s step m h, Step-Mirrored s0 s step m)
