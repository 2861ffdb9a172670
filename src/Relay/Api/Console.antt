-- ===== src/Relay/Api/Console.antt =====
-- The handlers of the console behind `requireLogin`, of internal/relay/api.go: devices, approvals, the audit log and the
-- webhook's URL. `again` is the time of the handler's own look at the login session.
use terminal_x.Common.{
  ℕ, ltb, not, ◌&&◌, ◌||◌, Bool, true, false, String, Option, none, some, [], if◌then◌else◌,
  string_key, ◌==◌, nat_beq,
}
use terminal_x.Common.Maps.{lookup, adjust}
use terminal_x.Session.Heuristic.Prompt.{codes}
use terminal_x.Proto.Messages.{DeviceInfo}
use terminal_x.Proto.Envelope.{DecisionText}
use terminal_x.Relay.Hub.{
  Server, DeviceState, device_list, pending_approvals, broadcast_device_list,
}
use terminal_x.Relay.Hub.Agents as agents
use terminal_x.Relay.Hub.Approvals.{decide_approval, DecideError, decision_text}
use terminal_x.Relay.Hub.Approvals as hub_approvals
use terminal_x.Relay.Auth.{LoginSession}
use terminal_x.Relay.Hub.Requests.{error_text}
use terminal_x.Relay.Pairing.{trim_space, is_nil}
use terminal_x.Relay.Persisted.{write_all}
use terminal_x.Relay.Store.{StoreError, rename_device, revoke_device}
use terminal_x.Relay.Store.Records.{
  get_approval, list_approvals, list_audit, get_setting, set_setting,
}
use terminal_x.Relay.Api.{
  Library, Relay, Request, Body, Cookie, Reply, Step, refuse, bad_json, store_error, audited,
  with_session, web,
}

unfoldable pub handle_devices : Relay → Step
handle_devices r =
    (Reply.answer 200 Cookie.kept (Body.device_infos (device_list r.hub.devices)), [], r)

-- `deviceInfoLocked`, the zero record for an unknown device
abbrev pub info_of : Option DeviceState → DeviceInfo
info_of none = record {
  id = "";
  name = "";
  os = "";
  agent_version = "";
  online = false;
  last_seen = 0;
  rtt_ms = 0;
  fingerprint = "";
  power = "";
}
info_of (some d) = d.info

abbrev pub rename_in : String → String → Server → Server
rename_in id name s = record s {
  devices = adjust id (λ d. record d { info = record d.info { name = name } }) s.devices;
}

abbrev pub renamed_as : String → String → ℕ → LoginSession → Relay → Step
renamed_as id name now ls r = (
  Reply.answer 200 Cookie.kept (Body.device_info (info_of (lookup id r.hub.devices))),
  broadcast_device_list r.hub,
  audited (web ls) id "device.rename" name now r,
)

unfoldable pub handle_device_rename : Library → Request → String → Option String → ℕ → Relay → Step
handle_device_rename lib q id none again r = bad_json r
handle_device_rename lib q id (some name) again r =
    let trimmed = trim_space (codes name) in
    let new = lib.text trimmed in
    if is_nil trimmed
    then refuse 400 "name required" r
    else let (s, e) = rename_device id new r.store in
      elim e [
        | some x ↦ store_error x (record r { store = s })
        | none ↦
            with_session (renamed_as id new again) q again
              (record r { store = s; hub = rename_in id new r.hub })
      ]

abbrev pub is_refused : Option StoreError → Bool
is_refused none = false
is_refused (some _) = true

-- `revokeDevice` on the store and the hub. It writes its audit entry itself.
unfoldable pub revoke_as : String → ℕ → LoginSession → Relay → Step
revoke_as id now ls r =
    let (s, e) = revoke_device id now r.store in
    let (hub, out) = agents.revoke_device r.hub id (web ls) (is_refused e) in
    let r1 = record r { hub = hub; store = write_all out now s } in
    elim e [ some x ↦ store_error x r1 | none ↦ (Reply.answer 200 Cookie.kept Body.ok, out, r1) ]

unfoldable pub handle_device_revoke : Request → String → ℕ → Relay → Step
handle_device_revoke q id again = with_session (revoke_as id again) q again

-- `limit` is 0 for a query without a positive number.
unfoldable pub handle_approvals : Library → String → ℕ → Relay → Step
handle_approvals lib status limit r =
    if status == "" || status == "pending"
    then (
      Reply.answer 200 Cookie.kept (Body.approval_list (pending_approvals r.hub.approvals)),
      [],
      r,
    )
    else if status == "all"
    then (
      Reply.answer 200 Cookie.kept
          (Body.approval_list (list_approvals lib.date false limit r.store)),
      [],
      r,
    )
    else refuse 400 "status must be pending or all" r

-- `apiError`'s status of a refused decision
abbrev pub decide_status : DecideError → ℕ
decide_status DecideError.bad_decision = 400
decide_status DecideError.not_found = 404
decide_status DecideError.device_offline = 503
decide_status (DecideError.already _) = 409
decide_status (DecideError.wrong_level _) = 400

unfoldable pub decide_as : String → DecisionText → String → ℕ → LoginSession → Relay → Step
decide_as key decision device_id now ls r =
    let request : hub_approvals.Request = record {
      decision = decision;
      actor = web ls;
      device_hint = device_id;
      req_id = "";
      client_id = "";
    } in
    let (hub, out, e) = decide_approval r.hub key request (get_approval key r.store) now in
    let r1 = record r { hub = hub; store = write_all out now r.store } in
    elim e [
      | some x ↦ refuse (decide_status x) (error_text x) r1
      | none ↦ (Reply.answer 200 Cookie.kept (Body.decided key (decision_text decision)), out, r1)
    ]

unfoldable pub handle_approval_decide :
    Request → String → Option (DecisionText × String) → ℕ → Relay → Step
handle_approval_decide q key none again r = bad_json r
handle_approval_decide q key (some (decision, device_id)) again r =
    with_session (decide_as key decision device_id again) q again r

abbrev pub audit_limit : ℕ → ℕ
audit_limit limit = if nat_beq limit 0 then 100 else if ltb 1000 limit then 1000 else limit

unfoldable pub handle_audit : ℕ → Relay → Step
handle_audit limit r =
    (Reply.answer 200 Cookie.kept (Body.audit_log (list_audit (audit_limit limit) r.store)), [], r)

abbrev pub webhook_key : String
webhook_key = "webhook_url"

unfoldable pub handle_webhook_get : Relay → Step
handle_webhook_get r =
    (Reply.answer 200 Cookie.kept (Body.webhook_url (get_setting webhook_key r.store)), [], r)

abbrev pub is_web : Option (String × String) → Bool
is_web none = false
is_web (some (scheme, host)) = (scheme == "http" || scheme == "https") && not (host == "")

unfoldable pub handle_webhook_put : Library → Request → Option String → ℕ → Relay → Step
handle_webhook_put lib q none again r = bad_json r
handle_webhook_put lib q (some url) again r =
    let u = lib.text (trim_space (codes url)) in
    if not (u == "") && not (is_web (lib.parse_url u))
    then refuse 400 "url must be http(s)" r
    else with_session
        (λ ls r1. (
          Reply.answer 200 Cookie.kept (Body.webhook_url u),
          [],
          audited (web ls) "" "settings.webhook" u again r1,
        ))
        q again (record r { store = set_setting webhook_key u r.store })
