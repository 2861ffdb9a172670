-- ===== src/Relay/Hub.antt =====
-- The state of the relay's `Server` (internal/relay/server.go, hub.go) and its locked helpers. The
-- mutex makes each critical section one step. A connection is a number in place of a pointer; `out`
-- is what an operation sends, closes and stores, in order. Iteration over a map follows the list.
pub mod Maps
pub mod Frames
pub mod Approvals
pub mod Clients
pub mod Requests
pub mod Agents
pub mod Upserts
pub mod Attached
pub mod Routing
pub mod Decisions
pub mod Owners
pub mod Ownership
pub mod Preserved
pub mod AgentMessages
pub mod Steps
pub mod Replay
mod Tests
use terminal_x.Common.{
  ℕ, ◌≡◌, Bool, true, false, not, ◌&&◌, String, Option, none, some, List, [], ◌∷◌, if◌then◌else◌,
  string_key, nat_key, ◌==◌,
}
use terminal_x.Common.Maps.{lookup, insert, delete, map_entries}
use terminal_x.Proto.Messages.{SessionInfo, DeviceInfo, Approval, ApprovalStatus, is_pending}
use terminal_x.Proto.Envelope.{Msg, MsgType, blank}

pub record DeviceState : Type 0 where
  pub info : DeviceInfo
  pub sessions : List (ℕ × SessionInfo)
  pub conn : Option ℕ

-- `attached` is a map[uint32]bool that holds true only.
pub record ClientConn : Type 0 where
  pub login_id : String
  pub attached : List (ℕ × Bool)

pub record AgentConn : Type 0 where
  pub device_id : String
  pub last_heartbeat : ℕ
  pub rtt : ℕ

pub record Server : Type 0 where
  pub devices : List (String × DeviceState)
  pub clients : List (String × ClientConn)
  pub sid_owner : List (ℕ × String)
  pub attachments : List (ℕ × List (String × Bool))
  pub approvals : List (String × Approval)
  pub agents : List (ℕ × AgentConn)

-- What leaves the hub: messages and frames to one connection or to all consoles, closed connections,
-- writes to the store, audit entries and notifications.
pub data Out : Type 0 where
  to_agent : ℕ → Msg → Out
  to_client : String → Msg → Out
  broadcast : Msg → Out
  echo_to_agent : ℕ → Msg → Out
  frame_to_agent : ℕ → List ℕ → Out
  frame_to_client : String → List ℕ → Out
  close_agent : ℕ → Out
  touch_device : String → ℕ → String → String → Out
  upsert_approval : Approval → Out
  set_approval_status : String → ApprovalStatus → String → ℕ → Out
  audit : String → String → ℕ → String → String → Out
  webhook : Approval → String → String → Out

abbrev pub or_empty : Option String → String
or_empty none = ""
or_empty (some d) = d

-- `s.sidOwner[sid]`, the empty string for none
abbrev pub owner_of : Server → ℕ → String
owner_of s sid = or_empty (lookup sid s.sid_owner)

abbrev pub is_true : Option Bool → Bool
is_true none = false
is_true (some b) = b

-- `c.attached[sid]`
abbrev pub is_attached : ClientConn → ℕ → Bool
is_attached c sid = is_true (lookup sid c.attached)

unfoldable pub session_list : List (ℕ × SessionInfo) → List SessionInfo
session_list [] = []
session_list ((sid, si) ∷ m) = si ∷ session_list m

unfoldable pub device_list : List (String × DeviceState) → List DeviceInfo
device_list [] = []
device_list ((id, d) ∷ m) = d.info ∷ device_list m

unfoldable pub pending_approvals : List (String × Approval) → List Approval
pending_approvals [] = []
pending_approvals ((k, a) ∷ m) =
    let rest = pending_approvals m in if is_pending a.status then a ∷ rest else rest

-- `none` is the refusal of a sid that another device owns.
unfoldable pub register_sid : Server → ℕ → String → Option Server
register_sid s sid device = elim (lookup sid s.sid_owner) [
  | none ↦ some (record s { sid_owner = insert sid device s.sid_owner })
  | some owner ↦
      if owner == device
      then some (record s { sid_owner = insert sid device s.sid_owner })
      else none
]

abbrev pub detached : ℕ → ClientConn → ClientConn
detached sid c = record c { attached = delete sid c.attached }

unfoldable pub forget_sid : Server → ℕ → Server
forget_sid s sid = record s {
  sid_owner = delete sid s.sid_owner;
  attachments = delete sid s.attachments;
  clients = map_entries (λ _ c. detached sid c) s.clients;
}

unfoldable pub forget_sids : Server → List (ℕ × SessionInfo) → Server
forget_sids s [] = s
forget_sids s ((sid, _) ∷ m) = forget_sids (forget_sid s sid) m

-- `broadcastDeviceState`, `broadcastDeviceList` and `broadcastSessionList`
abbrev pub broadcast_device_state : Server → String → List Out
broadcast_device_state s id = elim (lookup id s.devices) [
  | none ↦ []
  | some d ↦
      broadcast (record (blank MsgType.device_state) { device_id = id; device = some d.info }) ∷ []
]

abbrev pub broadcast_device_list : Server → List Out
broadcast_device_list s =
    broadcast (record (blank MsgType.device_list) { devices = device_list s.devices }) ∷ []

abbrev pub broadcast_session_list : Server → String → List Out
broadcast_session_list s id = elim (lookup id s.devices) [
  | none ↦ []
  | some d ↦
      broadcast
        (record (blank MsgType.session_list) { device_id = id; sessions = session_list d.sessions })
      ∷ []
]

-- Whether `device` is connected through `conn`, as handlers of one connection check.
abbrev pub current : Server → ℕ → String → Option DeviceState
current s conn device = elim (lookup device s.devices) [
  | none ↦ none
  | some d ↦ elim d.conn [ none ↦ none | some c ↦ if c == conn then some d else none ]
]
