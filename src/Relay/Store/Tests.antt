-- ===== src/Relay/Store/Tests.antt =====
-- The properties at a small store, and what the texts of times do within a second.
use terminal_x.Common.{
  ℕ, suc, ◌+◌, ◌/◌, ◌%◌, ◌^◌, ◌<◌, ◌*◌, ◌≡◌, ◌≢◌, refl, true, false, none, some, List, [], ◌∷◌,
  arith, if◌then◌else◌, ltb,
}
use terminal_x.Relay.Store.{
  Store, Device, PairCode, AuditEntry, StoreError, create_device, has_id, device_by_token_hash,
  list_devices, rename_device, revoke_device, touch_device,
}
use terminal_x.Relay.Store.Codes.{has_code, create_pair_code, get_pair_code, redeem_pair_code}
use terminal_x.Relay.Store.Records.{append_audit, list_audit, at_or_now}
use terminal_x.Relay.Store.Sql.{affects, first}
use terminal_x.Relay.Store.Times.{Calendar, second, year_10000, before, fmt_time, digits}
use terminal_x.Relay.Store.Steps.{Step, Later}
use terminal_x.Relay.Store.Revocation.{finds, revoked_forever}
use terminal_x.Relay.Store.Expiry.{new_store, redeem_in_time}
use terminal_x.Relay.Store.Log.{list_audit-append_audit}

-- One letter for each second.
abbrev one_letter : ℕ → List ℕ
one_letter s = s ∷ []

in_order : (a b : ℕ) → a < b → b < year_10000 → before (one_letter a) (one_letter b) ≡ true
unfolding before
in_order a b h y = ground arith

abbrev calendar : Calendar
calendar = record { date = one_letter; same_length = λ a b h k. refl; in_order = in_order }

abbrev laptop : Device
laptop = record {
  id = "d1";
  name = "laptop";
  os = "linux";
  agent_version = "1";
  token_hash = "h1";
  pubkey = "";
  fingerprint = "AAAA-BBBB";
  created_at = 5;
  last_seen = 5;
  revoked_at = none;
}

abbrev one_device : Store
one_device = record new_store { devices = laptop ∷ [] }

revokes : (revoke_device "d1" 7 one_device).1 ≡ none
unfolding revoke_device affects
revokes = refl

abbrev revoked : Store
revoked = (revoke_device "d1" 7 one_device).0

abbrev touched : Store
touched = touch_device "d1" 8 "linux" "2" revoked

revoked_forever_example :
    (finds "d1" (device_by_token_hash "h1" touched) ≡ false)
    × (affects (has_id "d1") (list_devices one_letter touched) ≡ false)
    × ((rename_device "d1" "desktop" touched).1 ≡ some StoreError.not_found)
    × ((revoke_device "d1" 9 touched).1 ≡ some StoreError.not_found)
    × ((create_device (record laptop { id = "d1" }) touched).1 ≡ some StoreError.failed)
revoked_forever_example =
    revoked_forever one_letter "d1" "h1" "desktop" 7 9 laptop one_device touched revokes
      (Later.then revoked touched Later.here (Step.touches_device "d1" 8 "linux" "2"))

-- A code that expires nine seconds after the start of time.
abbrev code : PairCode
code = record {
  code = "ABCDEFGH";
  created_at = 3 * second;
  expires_at = 9 * second;
  used_at = none;
  attempts = 0;
}

abbrev with_code : Store
with_code = (create_pair_code code new_store).0

abbrev making : Later one_letter new_store with_code
making = Later.then new_store with_code Later.here (Step.creates_pair_code code)

abbrev after_redeeming : Store
after_redeeming = (redeem_pair_code one_letter "ABCDEFGH" (5 * second) with_code).0

there : first (has_code "ABCDEFGH") with_code.pair_codes ≡ some code
unfolding create_pair_code first affects
there = refl

other_second : ((5 * second) / second) ≢ (code.expires_at / second)
other_second e = absurd (omega (arith, e))

redeem_in_time_example :
    ((redeem_pair_code one_letter "ABCDEFGH" (5 * second) with_code).1
      ≡ (if ltb (5 * second) code.expires_at then none else some StoreError.not_found))
    × (get_pair_code "ABCDEFGH" after_redeeming
        ≡ some (record code {
          used_at = if ltb (5 * second) code.expires_at then some (5 * second) else none;
        }))
redeem_in_time_example =
    redeem_in_time calendar "ABCDEFGH" (5 * second) code with_code making there refl other_second
      (omega arith) (omega arith) (omega arith) (omega arith)

-- Within a second the texts are out of order: half a second after its expiry a code is still redeemed, and half a second
-- before it no more.
abbrev expiring_at : ℕ → Store
expiring_at t = record new_store { pair_codes = record code { expires_at = t } ∷ [] }

redeemed_late :
    (redeem_pair_code one_letter "ABCDEFGH" (9 * second + 500000000) (expiring_at (9 * second))).1
    ≡ none
unfolding redeem_pair_code affects before fmt_time digits
redeemed_late = refl

refused_early :
    (redeem_pair_code one_letter "ABCDEFGH" (9 * second) (expiring_at (9 * second + 500000000))).1
    ≡ some StoreError.not_found
unfolding redeem_pair_code affects before fmt_time digits
refused_early = refl

abbrev entry : AuditEntry
entry = record {
  id = 0;
  at = 0;
  actor = "web:u-1";
  device_id = "";
  sid = 0;
  action = "pair.new";
  detail = "";
}

list_audit-append_audit_example :
    list_audit 5 (append_audit entry 8 with_code)
    ≡ record entry {
      id = suc with_code.last_id;
      at = at_or_now entry.at 8;
      sid = entry.sid % 2 ^ 32;
    }
      ∷ list_audit 4 with_code
list_audit-append_audit_example = list_audit-append_audit one_letter entry 8 3 with_code making
