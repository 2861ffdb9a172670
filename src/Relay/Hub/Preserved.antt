-- ===== src/Relay/Hub/Preserved.antt =====
-- The handlers of the hub and the two agreements: of the owners with the session sets, and of the two
-- records of an attachment.
use terminal_x.Common.{
  ℕ, ◌≡◌, ◌≢◌, Bool, true, String, Option, none, some, List, [], ◌∷◌, string_key, nat_key, arith,
  Option-cases, inl, inr,
}
use terminal_x.Common.Maps.{lookup, map_entries, lookup-map_entries}
use terminal_x.Proto.Messages.{Approval, DeviceInfo, SessionInfo}
use terminal_x.Proto.Envelope.{Msg}
use terminal_x.Relay.Hub.{Server, forget_sid, register_sid}
use terminal_x.Relay.Hub.Maps.{att, or_nil}
use terminal_x.Relay.Hub.Approvals.{decide_approval, decide_missed, Request}
use terminal_x.Relay.Hub.Clients.{client_connect, client_disconnect, attach, detach}
use terminal_x.Relay.Hub.Requests.{handle_client_msg, device_for, request_of}
use terminal_x.Relay.Hub.Agents.{
  agent_connect, agent_disconnect, revoke_device, mark_pending, hello_sessions, forget_unseen,
}
use terminal_x.Relay.Hub.Owners.{Owned}
use terminal_x.Relay.Hub.Attached.{
  Mirrored, flag, attach-Mirrored, detach-Mirrored, forget_sid-Mirrored, forget_sids-Mirrored,
}

-- Two states with the same session maps, and two with the same attachments.
abbrev pub SameSessions : Server → Server → Type 0
SameSessions s s' = (s'.devices ≡ s.devices) × (s'.sid_owner ≡ s.sid_owner)

abbrev pub SameClients : Server → Server → Type 0
SameClients s s' = (s'.clients ≡ s.clients) × (s'.attachments ≡ s.attachments)

pub same-Owned : (s s' : Server) → SameSessions s s' → Owned s → Owned s'
same-Owned s s' (e, f) h = rw (e, f) h

pub same-Mirrored : (s s' : Server) → SameClients s s' → Mirrored s → Mirrored s'
same-Mirrored s s' (e, f) h = rw (e, f) h

pub decide_approval-same :
    (s : Server) (key : String) (r : Request) (row : Option Approval) (now : ℕ)
    → SameSessions s (decide_approval s key r row now).0
      × SameClients s (decide_approval s key r row now).0
unfolding decide_approval
decide_approval-same s key r row now = ground arith

pub decide_missed-same :
    (s : Server) (key : String) (r : Request) (row : Approval) (now : ℕ)
    → SameSessions s (decide_missed s key r row now).0
      × SameClients s (decide_missed s key r row now).0
decide_missed-same s key r row now = ground arith

pub handle_client_msg-sessions :
    (s : Server) (cid : String) (m : Msg) (row : Option Approval) (now : ℕ)
    → SameSessions s (handle_client_msg s cid m row now).0
unfolding handle_client_msg attach detach
handle_client_msg-sessions s cid m row now =
    ground (arith, decide_approval-same s m.key (request_of cid m) row now)

-- Every message of a connected console leaves the two records of the attachments in agreement.
pub handle_client_msg-Mirrored :
    (s : Server) (cid : String) (m : Msg) (row : Option Approval) (now : ℕ)
    → lookup cid s.clients ≢ none
    → Mirrored s
    → Mirrored (handle_client_msg s cid m row now).0
unfolding handle_client_msg
handle_client_msg-Mirrored s cid m row now live h sid k =
    elim (Option-cases (attach s cid m.sid (device_for s m))) [
      | inl e ↦ ground (
        arith,
        h sid k,
        detach-Mirrored s cid m.sid h sid k,
        decide_approval-same s m.key (request_of cid m) row now,
      )
      | inr (s', e) ↦ ground (
        arith,
        h sid k,
        detach-Mirrored s cid m.sid h sid k,
        decide_approval-same s m.key (request_of cid m) row now,
        attach-Mirrored s s' cid m.sid (device_for s m) e live h sid k,
      )
    ]

pub forget_unseen-Mirrored :
    (s : Server) (fresh old : List (ℕ × SessionInfo))
    → Mirrored s
    → Mirrored (forget_unseen s fresh old)
unfolding forget_unseen
forget_unseen-Mirrored s fresh [] h = h
forget_unseen-Mirrored s fresh ((sid, _) ∷ old) h = elim (Option-cases (lookup sid fresh)) [
  | inl e ↦
      rw (e, forget_unseen)
        (forget_unseen-Mirrored (forget_sid s sid) fresh old (forget_sid-Mirrored s sid h))
  | inr (x, e) ↦ rw (e, forget_unseen) (forget_unseen-Mirrored s fresh old h)
]

pub register_sid-clients :
    (s s' : Server) (sid : ℕ) (device : String)
    → register_sid s sid device ≡ some s'
    → SameClients s s'
unfolding register_sid
register_sid-clients s s' sid device e = ground arith

pub hello_sessions-Mirrored :
    (s : Server) (device : String) (fresh : List (ℕ × SessionInfo)) (sis : List SessionInfo)
    → Mirrored s
    → Mirrored (hello_sessions s device fresh sis).0
unfolding hello_sessions
hello_sessions-Mirrored s device fresh [] h = h
hello_sessions-Mirrored s device fresh (si ∷ sis) h =
    elim (Option-cases (register_sid s si.sid device)) [
      | inl e ↦ rw (e, hello_sessions) (hello_sessions-Mirrored s device fresh sis h)
      | inr (s', e) ↦
          rw (e, hello_sessions)
            (hello_sessions-Mirrored s' device _ sis
              (same-Mirrored s s' (register_sid-clients s s' si.sid device e) h))
    ]

att-marked :
    (s : Server) (device : String) (m : List (ℕ × List (String × Bool))) (sid : ℕ) (cid : String)
    → flag (att (map_entries (mark_pending s device) m) sid cid) ≡ flag (att m sid cid)
unfolding att lookup
att-marked s device m sid cid = ground (
  arith,
  lookup-map_entries sid (mark_pending s device) m,
  lookup-map_entries cid (λ _ _. true) (or_nil (lookup sid m)),
)

pub agent_disconnect-Mirrored :
    (s : Server) (conn : ℕ) (device : String)
    → Mirrored s
    → Mirrored (agent_disconnect s conn device).0
unfolding agent_disconnect
agent_disconnect-Mirrored s conn device h sid cid =
    ground (arith, h sid cid, att-marked s device s.attachments sid cid)

pub revoke_device-Mirrored :
    (s : Server) (device actor : String) (refused : Bool)
    → Mirrored s
    → Mirrored (revoke_device s device actor refused).0
unfolding revoke_device
revoke_device-Mirrored s device actor refused h sid k =
    elim (Option-cases (lookup device s.devices)) [
      | inl e ↦ ground (arith, h sid k)
      | inr (d, e) ↦ ground (arith, h sid k, forget_sids-Mirrored s d.sessions h sid k)
    ]

-- What the hub's other handlers leave alone.
pub agent_connect-clients :
    (s : Server) (conn : ℕ) (row : DeviceInfo) (now : ℕ)
    → SameClients s (agent_connect s conn row now).0
unfolding agent_connect
agent_connect-clients s conn row now = ground arith

pub client-sessions :
    (s : Server) (cid login : String)
    → SameSessions s (client_connect s cid login).0 × SameSessions s (client_disconnect s cid)
unfolding client_connect client_disconnect
client-sessions s cid login = ground arith
