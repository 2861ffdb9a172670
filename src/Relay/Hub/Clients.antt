-- ===== src/Relay/Hub/Clients.antt =====
-- Console connections (internal/relay/ws_client.go): connect and disconnect of `handleClientWS`,
-- `agentFor` and `handleClientMsg`. A handler's critical sections run without another between them,
-- except that an attachment may be entered in a later state than the agent was looked up in.
use terminal_x.Common.{
  ℕ, Bool, true, String, Option, none, some, List, [], ◌∷◌, ◌++◌, if◌then◌else◌, string_key,
  nat_key, ◌==◌,
}
use terminal_x.Common.Maps.{lookup, insert, delete, adjust}
use terminal_x.Proto.Envelope.{MsgType, blank}
use terminal_x.Relay.Hub.{
  Server, ClientConn, DeviceState, Out, owner_of, session_list, device_list, pending_approvals,
}
use terminal_x.Relay.Hub.Maps.{Attachments, drop_att, put_att}

unfoldable pub session_lists : String → List (String × DeviceState) → List Out
session_lists cid [] = []
session_lists cid ((id, d) ∷ m) =
    Out.to_client cid
      (record (blank MsgType.session_list) { device_id = id; sessions = session_list d.sessions })
    ∷ session_lists cid m

-- The new client's id is random; `cid` is the one it got.
unfoldable pub client_connect : Server → String → String → Server × List Out
client_connect s cid login = (
  record s { clients = insert cid (record { login_id = login; attached = [] }) s.clients },
  (Out.to_client cid
          (record (blank MsgType.device_list) { client_id = cid; devices = device_list s.devices })
        ∷ session_lists cid s.devices)
      ++ (Out.to_client cid
            (record (blank MsgType.approval_list) { approvals = pending_approvals s.approvals })
          ∷ []),
)

unfoldable pub drop_all : String → List (ℕ × Bool) → Attachments → Attachments
drop_all cid [] m = m
drop_all cid ((sid, _) ∷ sids) m = drop_all cid sids (drop_att sid cid m)

unfoldable pub client_disconnect : Server → String → Server
client_disconnect s cid = elim (lookup cid s.clients) [
  | none ↦ s
  | some c ↦ record s {
    clients = delete cid s.clients;
    attachments = drop_all cid c.attached s.attachments;
  }
]

abbrev pub put_sid : ℕ → ClientConn → ClientConn
put_sid sid c = record c { attached = insert sid true c.attached }

-- The second critical section of an attach; `none` is "unknown session".
unfoldable pub attach : Server → String → ℕ → String → Option Server
attach s cid sid device =
    if owner_of s sid == device
    then some (record s {
      attachments = put_att sid cid true s.attachments;
      clients = adjust cid (put_sid sid) s.clients;
    })
    else none

abbrev pub cut_sid : ℕ → ClientConn → ClientConn
cut_sid sid c = record c { attached = delete sid c.attached }

unfoldable pub detach : Server → String → ℕ → Server
detach s cid sid = record s {
  attachments = drop_att sid cid s.attachments;
  clients = adjust cid (cut_sid sid) s.clients;
}
