-- ===== src/Relay/Api/Agreement.antt =====
-- The hub has exactly the devices that are stored and not revoked.
use terminal_x.Common.{
  ℕ, ◌≡◌, refl, ◌∙◌, ap, Bool, true, false, ◌&&◌, ◌||◌, String, Option, none, some, List, [], ◌∷◌,
  arith, Option-cases, inl, inr, string_key, ◌==◌, if◌then◌else◌, not,
}
use terminal_x.Common.Maps.{lookup, insert, lookup-insert, lookup-adjust, lookup-delete}
use terminal_x.Relay.Auth.{LoginSession}
use terminal_x.Relay.Hub.{Server, DeviceState}
use terminal_x.Relay.Hub.Agents as agents
use terminal_x.Relay.Hub.Owners.{forget_sids-devices}
use terminal_x.Relay.Persisted.{load_devices, load_state, device_info, write, write_all}
use terminal_x.Relay.Store.{
  Store, Device, has_id, is_live, owns, is_null, create_device, list_devices, scan_devices,
  revoke_device, rename_device, device_by_token_hash,
}
use terminal_x.Relay.Store.Revocation.{scan-has_id}
use terminal_x.Relay.Store.Records.{append_audit}
use terminal_x.Relay.Store.Sql.{
  affects, select, order_by, update, first, affects-order_by, affects-select, affects-append,
  affects-update_same, first-affects, first-holds,
}
use terminal_x.Relay.Store.Times.{fmt_time, before}
use terminal_x.Relay.Api.{Library, Relay, hash_token, web}
use terminal_x.Relay.Api.Pairs.{pair_device}
use terminal_x.Relay.Api.Console.{revoke_as, rename_in, is_refused}
use terminal_x.Relay.Api.Tokens.{agent_device, register_agent}
use terminal_x.Relay.Api.Handled.{Same}

abbrev pub has_device : Option DeviceState → Bool
has_device none = false
has_device (some _) = true

abbrev pub Agrees : Relay → Type 0
Agrees r =
    (id : String) → has_device (lookup id r.hub.devices) ≡ affects (is_live id) r.store.devices

pub Same-Agrees : (r r' : Relay) → Same r r' → Agrees r → Agrees r'
Same-Agrees r r' (s, h) a id = rw (s, h) (a id)

lookup-load_devices :
    (id : String) (ds : List Device) (m : List (String × DeviceState))
    → has_device (lookup id (load_devices ds m))
      ≡ (affects (has_id id) ds || has_device (lookup id m))
unfolding load_devices affects
lookup-load_devices id [] m = refl
lookup-load_devices id (d ∷ ds) m =
    let st = agents.new_device_state (device_info d) in
    ground (arith, lookup-load_devices id ds (insert d.id st m), lookup-insert id d.id st m)

nil_lookup : (id : String) → lookup {V = DeviceState} id [] ≡ none
unfolding lookup
nil_lookup id = refl

pub load_state-Agrees : (lib : Library) (r : Relay) → r.hub ≡ load_state lib.date r.store → Agrees r
unfolding load_state list_devices
load_state-Agrees lib r e id =
    let less : Device → Device → Bool =
      λ a b. before (fmt_time lib.date a.created_at) (fmt_time lib.date b.created_at) in
    let live = select (λ (d : Device). is_null d.revoked_at) r.store.devices in
    let listed =
      scan-has_id id (order_by less live)
      ∙ affects-order_by (has_id id) less live
      ∙ affects-select (has_id id) (λ d. is_null d.revoked_at) r.store.devices in
    rw e (
      lookup-load_devices id (scan_devices (order_by less live)) []
      ∙ ground (arith, listed, nil_lookup id))

pub pair_device-Agrees :
    (ip tok : String) (d : Device) (now : ℕ) (r : Relay)
    → d.revoked_at ≡ none
    → Agrees r
    → Agrees (pair_device ip tok d now r).2
unfolding pair_device create_device write append_audit affects
pair_device-Agrees ip tok d now r live a id =
    let st = agents.new_device_state (device_info d) in
    ground (
      arith,
      live,
      a id,
      lookup-insert id d.id st r.hub.devices,
      affects-append (is_live id) r.store.devices (d ∷ []),
    )

pub rename-Agrees :
    (j name : String) (r : Relay)
    → Agrees r
    → Agrees (record r { store = (rename_device j name r.store).0; hub = rename_in j name r.hub })
unfolding rename_device
rename-Agrees j name r a id = ground (
  arith,
  a id,
  lookup-adjust id j (λ (d : DeviceState). record d { info = record d.info { name = name } })
      r.hub.devices,
  affects-update_same (is_live id) (is_live j) (λ d. record d { name = name }) r.store.devices
      (λ d. refl),
)

-- A revocation of one device changes no other.
live-revoke :
    (id j : String) (now : ℕ) (ds : List Device)
    → affects
        (is_live id)
        (update (is_live j) (λ d. record d { revoked_at = some now; token_hash = "" }) ds)
      ≡ (if j == id then false else affects (is_live id) ds)
unfolding affects update
live-revoke id j now [] = ground arith
live-revoke id j now (d ∷ ds) = ground (
  arith,
  live-revoke id j now ds,
  string_key.agrees_iff j id,
  string_key.agrees_iff d.id id,
  string_key.agrees_iff d.id j,
)

lookup_same : (j id : String) (m : List (String × DeviceState)) → j ≡ id → lookup j m ≡ lookup id m
lookup_same j id m e = ap (λ k. lookup k m) e

live_at :
    (j id : String) (ds : List Device)
    → (j == id) ≡ true
    → affects (is_live j) ds ≡ affects (is_live id) ds
live_at j id ds e = ap (λ k. affects (is_live k) ds) ((string_key.agrees_iff j id).0 e)

lookup-revoke_device :
    (s : Server) (id j actor : String) (refused : Bool)
    → has_device (lookup id (agents.revoke_device s j actor refused).0.devices)
      ≡ (if not refused && j == id then false else has_device (lookup id s.devices))
unfolding agents.revoke_device
lookup-revoke_device s id j actor true = refl
lookup-revoke_device s id j actor false = elim (Option-cases (lookup j s.devices)) [
  | inl n ↦ ground (arith, n, string_key.agrees_iff j id, lookup_same j id s.devices)
  | inr (d, e) ↦ ground (arith, e, forget_sids-devices s d.sessions, lookup-delete id j s.devices)
]

write-revoke_device :
    (s : Server) (j actor : String) (refused : Bool) (now : ℕ) (st : Store)
    → (write_all (agents.revoke_device s j actor refused).1 now st).devices ≡ st.devices
unfolding agents.revoke_device write_all write append_audit
write-revoke_device s j actor true now st = refl
write-revoke_device s j actor false now st = elim (Option-cases (lookup j s.devices)) [
  | inl n ↦ rw n refl
  | inr (d, e) ↦ elim (Option-cases d.conn) [
    | inl n ↦ ground (arith, e, n)
    | inr (c, n) ↦ ground (arith, e, n)
  ]
]

revoke_as-devices :
    (j : String) (now : ℕ) (ls : LoginSession) (r : Relay)
    → ((revoke_as j now ls r).2.store.devices ≡ (revoke_device j now r.store).0.devices)
      × ((revoke_as j now ls r).2.hub
          ≡ (agents.revoke_device r.hub j (web ls) (is_refused (revoke_device j now r.store).1)).0)
unfolding revoke_as
revoke_as-devices j now ls r =
    let refused = is_refused (revoke_device j now r.store).1 in
    ground (arith, write-revoke_device r.hub j (web ls) refused now (revoke_device j now r.store).0)

pub revoke_as-Agrees :
    (j : String) (now : ℕ) (ls : LoginSession) (r : Relay)
    → Agrees r
    → Agrees (revoke_as j now ls r).2
unfolding revoke_device
revoke_as-Agrees j now ls r a id =
    let refused = is_refused (revoke_device j now r.store).1 in
    let (devices, hub) = revoke_as-devices j now ls r in
    rw (devices, hub)
      (lookup-revoke_device r.hub id j (web ls) refused
        ∙ ground (arith, a id, live-revoke id j now r.store.devices, live_at j id r.store.devices))

token_live :
    (hash : String) (s : Store) (d : Device)
    → device_by_token_hash hash s ≡ some d
    → affects (is_live d.id) s.devices ≡ true
unfolding device_by_token_hash
token_live hash s d e = elim (Option-cases (first (owns hash) s.devices)) [
  | inl n ↦ absurd (ground (arith, n, e))
  | inr (row, f) ↦
      let same : row.id ≡ d.id = ground (arith, f, e) in
      let live : is_live d.id row ≡ true =
        ground (
          arith,
          first-holds (owns hash) s.devices row f,
          same,
          string_key.agrees_iff row.id d.id,
        ) in
      first-affects (owns hash) (is_live d.id) s.devices row f live
]

pub register-Agrees :
    (d : Device) (conn now : ℕ) (r : Relay)
    → affects (is_live d.id) r.store.devices ≡ true
    → Agrees r
    → Agrees (register_agent d conn now r).2
unfolding register_agent agents.agent_connect
register-Agrees d conn now r live a id =
    let st = agents.state_or_new (lookup d.id r.hub.devices) (device_info d) in
    ground (
      arith,
      a id,
      live,
      live_at d.id id r.store.devices,
      lookup-insert id d.id (agents.online conn now st) r.hub.devices,
    )

-- If nothing comes between the look at the token and the registration, the device is not revoked.
pub admitted-Agrees :
    (lib : Library) (tok : String) (d : Device) (conn now : ℕ) (r : Relay)
    → agent_device lib tok r ≡ some d
    → Agrees r
    → Agrees (register_agent d conn now r).2
unfolding agent_device
admitted-Agrees lib tok d conn now r e =
    register-Agrees d conn now r (token_live (hash_token lib tok) r.store d e)
