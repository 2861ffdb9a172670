-- ===== src/Relay/Persisted.antt =====
-- The relay's hub on its store: what `decideApproval`, `audit` and `touchDevice` (internal/relay/hub.go), `onApprovalNew` and
-- `onApprovalClosed` (ws_agent.go) write, and `loadState` (server.go) at the next start.
pub mod Restart
use terminal_x.Common.{
  ℕ, ◌≡◌, refl, true, false, ◌&&◌, String, take, ◌∙◌, Option, none, some, List, [], ◌∷◌, arith,
  string_key, inl, inr, Option-cases,
}
use terminal_x.Common.Maps.{lookup, insert, lookup-insert}
use terminal_x.Proto.Messages.{Approval, ApprovalStatus, DeviceInfo, is_pending}
use terminal_x.Proto.Envelope.{DecisionText}
use terminal_x.Relay.Hub.{Server, DeviceState, Out}
use terminal_x.Relay.Hub.Agents.{new_device_state}
use terminal_x.Relay.Hub.Approvals.{
  decide_approval, already, Request, is_verdict, status_for, announce, or_hint,
}
use terminal_x.Relay.Hub.Decisions.{known, decide_approval_lem}
use terminal_x.Relay.Store.{Store, Device, list_devices, touch_device}
use terminal_x.Relay.Store.Sql.{
  first, affects, select, order_by, first-holds, first-update, affects-select, affects-take,
  affects-order_by, affects-update_undone,
}
use terminal_x.Relay.Store.Times.{time_ptr}
use terminal_x.Relay.Store.Records.{
  has_key, scan_approvals, newer, has_key, upsert_approval, set_approval_status, get_approval,
  list_approvals, append_audit,
}

-- What one output writes at a time; the rest leaves the store alone.
unfoldable pub write : Out → ℕ → Store → Store
write (Out.touch_device id at os version) now st = touch_device id at os version st
write (Out.upsert_approval a) now st = upsert_approval a st
write (Out.set_approval_status key status by at) now st =
    (set_approval_status key status by at st).0
write (Out.audit actor device sid action detail) now st =
    append_audit
      (record {
        id = 0;
        at = now;
        actor = actor;
        device_id = device;
        sid = sid;
        action = action;
        detail = detail;
      })
      now st
write _ now st = st

unfoldable pub write_all : List Out → ℕ → Store → Store
write_all [] now st = st
write_all (o ∷ out) now st = write_all out now (write o now st)

-- The columns of a device that `newDeviceState` takes.
abbrev pub device_info : Device → DeviceInfo
device_info d = record {
  id = d.id;
  name = d.name;
  os = d.os;
  agent_version = d.agent_version;
  online = false;
  last_seen = d.last_seen;
  rtt_ms = 0;
  fingerprint = d.fingerprint;
  power = "";
}

unfoldable pub load_devices :
    List Device → List (String × DeviceState) → List (String × DeviceState)
load_devices [] m = m
load_devices (d ∷ ds) m = load_devices ds (insert d.id (new_device_state (device_info d)) m)

unfoldable pub load_approvals : List Approval → List (String × Approval) → List (String × Approval)
load_approvals [] m = m
load_approvals (a ∷ as') m = load_approvals as' (insert a.key a m)

unfoldable pub load_state : (ℕ → List ℕ) → Store → Server
load_state date st = record {
  devices = load_devices (list_devices date st) [];
  clients = [];
  sid_owner = [];
  attachments = [];
  approvals = load_approvals (list_approvals date true 0 st) [];
  agents = [];
}
