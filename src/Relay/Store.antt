-- ===== src/Relay/Store.antt =====
-- internal/relay/store/store.go: the relay's tables, and the devices. A row holds its columns; a time is
-- held as the time, and compared as the text that stands in the column. An optional time of 0 is the
-- empty text, which is not NULL. A disk that fails is left out.
pub mod Times
pub mod Sql
pub mod Counts
pub mod Codes
pub mod Records
pub mod Steps
pub mod Revocation
pub mod Redemption
pub mod Expiry
pub mod Log
mod Tests
use terminal_x.Common.{
  ℕ, Bool, true, false, not, ◌&&◌, String, Option, none, some, List, [], ◌∷◌, ◌++◌, if◌then◌else◌,
  string_key, ◌==◌,
}
use terminal_x.Proto.Messages.{Approval}
use terminal_x.Relay.Store.Times.{fmt_time, time_ptr, before}
use terminal_x.Relay.Store.Sql.{select, first, update, affects, order_by}

pub record Device : Type 0 where
  pub id : String
  pub name : String
  pub os : String
  pub agent_version : String
  pub token_hash : String
  pub pubkey : String
  pub fingerprint : String
  pub created_at : ℕ
  pub last_seen : ℕ
  pub revoked_at : Option ℕ

pub record PairCode : Type 0 where
  pub code : String
  pub created_at : ℕ
  pub expires_at : ℕ
  pub used_at : Option ℕ
  pub attempts : ℕ

pub record AuditEntry : Type 0 where
  pub id : ℕ
  pub at : ℕ
  pub actor : String
  pub device_id : String
  pub sid : ℕ
  pub action : String
  pub detail : String

-- `last_id` is the counter of the audit table's ids.
pub record Store : Type 0 where
  pub devices : List Device
  pub pair_codes : List PairCode
  pub approvals : List Approval
  pub audit : List AuditEntry
  pub last_id : ℕ
  pub settings : List (String × String)

-- `failed` is an error of the database: a row with the primary key is there.
pub data StoreError : Type 0 where
  not_found failed : StoreError

abbrev pub is_null : Option ℕ → Bool
is_null none = true
is_null (some _) = false

abbrev pub has_id : String → Device → Bool
has_id id d = d.id == id

abbrev pub is_live : String → Device → Bool
is_live id d = d.id == id && is_null d.revoked_at

unfoldable pub create_device : Device → Store → Store × Option StoreError
create_device d s = if affects (has_id d.id) s.devices then (s, some StoreError.failed) else (
  record s { devices = s.devices ++ record d { revoked_at = time_ptr d.revoked_at } ∷ [] },
  none,
)

abbrev pub scan_device : Device → Device
scan_device d = record d { revoked_at = time_ptr d.revoked_at }

abbrev pub scanned : Option Device → Option Device
scanned none = none
scanned (some d) = some (scan_device d)

-- `none` is ErrNotFound.
unfoldable pub get_device : String → Store → Option Device
get_device id s = scanned (first (has_id id) s.devices)

abbrev pub owns : String → Device → Bool
owns hash d = d.token_hash == hash && is_null d.revoked_at

unfoldable pub device_by_token_hash : String → Store → Option Device
device_by_token_hash hash s = if hash == "" then none else scanned (first (owns hash) s.devices)

unfoldable pub scan_devices : List Device → List Device
scan_devices [] = []
scan_devices (d ∷ ds) = scan_device d ∷ scan_devices ds

unfoldable pub list_devices : (ℕ → List ℕ) → Store → List Device
list_devices date s = scan_devices (
    order_by (λ a b. before (fmt_time date a.created_at) (fmt_time date b.created_at))
      (select (λ d. is_null d.revoked_at) s.devices))

-- An UPDATE of the devices, which is an error when no row is affected.
abbrev pub update_device : (Device → Bool) → (Device → Device) → Store → Store × Option StoreError
update_device p f s = (
  record s { devices = update p f s.devices },
  if affects p s.devices then none else some StoreError.not_found,
)

unfoldable pub rename_device : String → String → Store → Store × Option StoreError
rename_device id name = update_device (is_live id) (λ d. record d { name = name })

abbrev pub or_kept : String → String → String
or_kept new old = if new == "" then old else new

unfoldable pub touch_device : String → ℕ → String → String → Store → Store
touch_device id at os version s = record s {
  devices =
      update (has_id id)
        (λ d. record d {
          last_seen = at;
          os = or_kept os d.os;
          agent_version = or_kept version d.agent_version;
        })
        s.devices;
}

unfoldable pub revoke_device : String → ℕ → Store → Store × Option StoreError
revoke_device id at =
    update_device (is_live id) (λ d. record d { revoked_at = some at; token_hash = "" })
