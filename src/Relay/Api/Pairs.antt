-- ===== src/Relay/Api/Pairs.antt =====
-- `handlePairNew` and `handlePairRedeem` of internal/relay/api.go. The random codes, the new device's token and
-- the digits of its id are arguments.
use Prim.Native.String.{◌++◌}
use terminal_x.Common.{
  ℕ, ◌+◌, ◌-◌, ◌*◌, not, Bool, true, String, Option, none, some, List, [], ◌∷◌, if◌then◌else◌,
  string_key, ◌==◌, nat_beq, length, drop, ltb,
}
use terminal_x.Common.Maps.{insert}
use terminal_x.Session.Heuristic.Prompt.{codes}
use terminal_x.Relay.Auth as auth
use terminal_x.Relay.Hub.{broadcast_device_list}
use terminal_x.Relay.Hub.Agents.{new_device_state}
use terminal_x.Relay.Pairing.{new_pair_code, normalize_pair_code, trim_space, is_nil}
use terminal_x.Relay.Persisted.{device_info}
use terminal_x.Relay.Store.{Store, Device, StoreError, create_device}
use terminal_x.Relay.Store.Codes.{
  create_pair_code, inc_pair_attempts, redeem_pair_code, purge_pair_codes,
}
use terminal_x.Relay.Store.Times.{second}
use terminal_x.Relay.Api.{
  Library, Relay, Request, Body, Cookie, Reply, Step, refuse, bad_json, store_error, audited,
  client_ip, session_from_request, web, hash_token, fingerprint,
}

abbrev pub one_day : ℕ
one_day = 24 * 60 * 60 * second

-- At most as many tries as there are codes; the code that was stored.
unfoldable pub try_codes : Library → List (List ℕ) → ℕ → ℕ → Store → Option (List ℕ) × Store
try_codes lib [] now ttl s = (none, s)
try_codes lib (b ∷ bs) now ttl s =
    let code = new_pair_code b in
    let (s1, e) =
      create_pair_code
        (record {
          code = lib.text code;
          created_at = now;
          expires_at = now + ttl;
          used_at = none;
          attempts = 0;
        })
        s in
    let rest = try_codes lib bs now ttl s1 in elim e [ none ↦ (some code, s1) | some _ ↦ rest ]

-- `random` holds the bytes of five tries. The login session is looked up first, and used last.
unfoldable pub handle_pair_new : Library → List (List ℕ) → Request → ℕ → Relay → Step
handle_pair_new lib random q now r =
    let (ls, r0) = session_from_request q now r in
    let (code, s) =
      try_codes lib random now r0.pair_code_ttl
        (purge_pair_codes lib.date (now - one_day) r0.store) in
    let r1 = record r0 { store = s } in
    elim code [
      | none ↦ store_error StoreError.failed r1
      | some c ↦ elim ls [
        | none ↦ (Reply.crashed, [], r1)
        | some ls ↦ (
          Reply.answer 200 Cookie.kept (Body.pair_code c (now + r0.pair_code_ttl)),
          [],
          audited (web ls) "" "pair.new" "" now r1,
        )
      ]
    ]

pub record PairRequest : Type 0 where
  pub code : String
  pub name : String
  pub os : String
  pub agent_version : String
  pub pubkey : String

-- Go's `len`, of the UTF-8
unfoldable pub byte_length : List ℕ → ℕ
byte_length [] = 0
byte_length (c ∷ t) =
    (if ltb c 0x80 then 1 else if ltb c 0x800 then 2 else if ltb c 0x10000 then 3 else 4)
    + byte_length t

-- The attempt counts against the code, its key and the caller's.
unfoldable pub pair_failed : String → String → String → ℕ → Relay → Step
pair_failed ip code reason now r =
    let limiter = (auth.fail r.limiter ("pair:ip:" ++ ip) now).1 in
    let r1 = record r {
      store = inc_pair_attempts code r.store;
      limiter = (auth.fail limiter ("pair:code:" ++ code) now).1;
    } in
    refuse 400 "invalid or expired pairing code"
      (audited ("anon:" ++ ip) "" "pair.failed" reason now r1)

abbrev pub name_or : Library → List ℕ → String → String
name_or lib digits name =
    let trimmed = trim_space (codes name) in
    if is_nil trimmed
    then "device-" ++ lib.text (drop (length digits - 4) digits)
    else lib.text trimmed

abbrev pub or_hash : String → String → String
or_hash pubkey hash = if pubkey == "" then hash else pubkey

abbrev pub new_device : Library → PairRequest → String → List ℕ → ℕ → Device
new_device lib p tok digits now =
    let hash = hash_token lib tok in
    record {
      id = "dev_" ++ lib.text digits;
      name = name_or lib digits p.name;
      os = p.os;
      agent_version = p.agent_version;
      token_hash = hash;
      pubkey = p.pubkey;
      fingerprint = fingerprint lib (or_hash p.pubkey hash);
      created_at = now;
      last_seen = now;
      revoked_at = none;
    }

-- After the code was redeemed: the device is stored and put into the hub, or the database refuses it.
unfoldable pub pair_device : String → String → Device → ℕ → Relay → Step
pair_device ip tok d now r =
    let (s, e) = create_device d r.store in
    let r1 = record r { store = s } in
    elim e [
      | some x ↦ store_error x r1
      | none ↦
          let hub = record r1.hub {
            devices = insert d.id (new_device_state (device_info d)) r1.hub.devices;
          } in
          (
            Reply.answer 200 Cookie.kept (Body.paired d.id tok d.fingerprint d.name),
            broadcast_device_list hub,
            audited ("anon:" ++ ip) d.id "pair.redeem" (d.name ++ " " ++ d.fingerprint) now
                (record r1 { hub = hub }),
          )
    ]

-- Whether the caller or the code is locked; the code is looked at only if the caller is not.
abbrev pub pair_locked : String → String → ℕ → auth.Lockout → Bool × auth.Lockout
pair_locked ip code now l =
    let (caller, l1) = auth.locked l ("pair:ip:" ++ ip) now in
    if caller then (true, l1) else auth.locked l1 ("pair:code:" ++ code) now

-- The attempt of a caller that is not locked, with a code of the right length.
unfoldable pub redeem_code :
    Library → String → String → PairRequest → String → List ℕ → ℕ → Relay → Step
redeem_code lib ip code p tok digits now r =
    let (s, e) = redeem_pair_code lib.date code now r.store in
    let r1 = record r { store = s } in
    elim e [
      | some StoreError.not_found ↦ pair_failed ip code "code not redeemable" now r1
      | some StoreError.failed ↦ store_error StoreError.failed r1
      | none ↦
          pair_device ip tok (new_device lib p tok digits now) now
            (record r1 { limiter = auth.reset r.limiter ("pair:ip:" ++ ip) })
    ]

unfoldable pub handle_pair_redeem :
    Library → Request → Option PairRequest → String → List ℕ → ℕ → Relay → Step
handle_pair_redeem lib q none tok digits now r = bad_json r
handle_pair_redeem lib q (some p) tok digits now r =
    let ip = lib.text (client_ip q) in
    let typed = normalize_pair_code lib.upper (codes p.code) in
    let code = lib.text typed in
    let (is_locked, limiter) = pair_locked ip code now r.limiter in
    let r1 = record r { limiter = limiter } in
    if is_locked
    then refuse 429 "too many failed attempts, locked for 15 minutes" r1
    else if not (nat_beq (byte_length typed) 8)
    then pair_failed ip code "bad code format" now r1
    else redeem_code lib ip code p tok digits now r1
