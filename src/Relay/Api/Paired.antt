-- ===== src/Relay/Api/Paired.antt =====
-- Pairing, from the new code to the device.
use Prim.Native.String.{◌++◌}
use terminal_x.Common.{
  ℕ, ◌+◌, ◌-◌, ◌/◌, ◌%◌, ◌<◌, ◌≡◌, ◌≢◌, refl, true, false, String, none, some, List, [], ◌∷◌, arith,
  Bool-cases, Option-cases, inl, inr, ltb, zero, suc, string_key, All, length, get_or,
}
use terminal_x.Common.Maps.{lookup, lookup-insert}
use terminal_x.Session.Heuristic.Prompt.{codes}
use terminal_x.Relay.Auth as auth
use terminal_x.Relay.Hub.{Out}
use terminal_x.Relay.Hub.Agents.{new_device_state}
use terminal_x.Relay.Pairing.{normalize_pair_code, new_pair_code, pair_alphabet}
use terminal_x.Relay.Persisted.{write, device_info}
use terminal_x.Relay.Store.{
  Store, Device, PairCode, create_device, has_id, owns, device_by_token_hash,
}
use terminal_x.Relay.Store.Codes.{
  has_code, create_pair_code, redeemable, redeem_pair_code, purge_pair_codes,
}
use terminal_x.Relay.Store.Records.{append_audit}
use terminal_x.Relay.Store.Sql.{affects, first, first-affects, first-holds, first-append_none}
use terminal_x.Relay.Store.Times.{Calendar, second, year_10000, fmt_time-before}
use terminal_x.Relay.Api.{
  Library, Relay, Request, Body, Cookie, Reply, client_ip, hash_token, session_from_request,
}
use terminal_x.Relay.Api.Pairs.{
  PairRequest, handle_pair_new, handle_pair_redeem, try_codes, pair_device, new_device, redeem_code,
  pair_locked, byte_length, one_day,
}

alphabet_narrow :
    (xs : List ℕ) (i : ℕ)
    → All (λ c. ltb c 0x80 ≡ true) xs
    → i < length xs
    → ltb (get_or xs i 0) 0x80 ≡ true
alphabet_narrow [] i h l = absurd (omega arith)
alphabet_narrow (x ∷ xs) zero h l = h.0
alphabet_narrow (x ∷ xs) (suc i) h l = alphabet_narrow xs i h.1 (omega arith)

pub byte_length-new_pair_code : (b : List ℕ) → byte_length (new_pair_code b) ≡ length b
unfolding byte_length new_pair_code
byte_length-new_pair_code [] = refl
byte_length-new_pair_code (v ∷ b) =
    let narrow = alphabet_narrow pair_alphabet (v % 32) (ground arith) (omega arith) in
    ground (arith, narrow, byte_length-new_pair_code b)

abbrev pub row_of : Library → List ℕ → ℕ → ℕ → PairCode
row_of lib code now ttl = record {
  code = lib.text code;
  created_at = now;
  expires_at = now + ttl;
  used_at = none;
  attempts = 0;
}

create_pair_code-first :
    (p : PairCode) (s : Store)
    → (create_pair_code p s).1 ≡ none
    → p.used_at ≡ none
    → first (has_code p.code) (create_pair_code p s).0.pair_codes ≡ some p
unfolding create_pair_code first
create_pair_code-first p s e n = elim (Bool-cases (affects (has_code p.code) s.pair_codes)) [
  | inl t ↦ absurd (ground (arith, e, t))
  | inr f ↦ ground (
    arith,
    f,
    n,
    string_key.agrees_iff p.code p.code,
    first-append_none (has_code p.code) s.pair_codes (p ∷ []) f,
  )
]

try_codes-first :
    (lib : Library) (random : List (List ℕ)) (now ttl : ℕ) (s s' : Store) (code : List ℕ)
    → All (λ b. length b ≡ 8) random
    → try_codes lib random now ttl s ≡ (some code, s')
    → (first (has_code (lib.text code)) s'.pair_codes ≡ some (row_of lib code now ttl))
      × (byte_length code ≡ 8)
unfolding try_codes
try_codes-first lib [] now ttl s s' code h e = absurd (ground (arith, e))
try_codes-first lib (b ∷ bs) now ttl s s' code h e =
    let row = row_of lib (new_pair_code b) now ttl in
    elim (Option-cases (create_pair_code row s).1) [
      | inl n ↦ ground (
        arith,
        rw (n, try_codes) at e,
        create_pair_code-first row s n refl,
        byte_length-new_pair_code b,
        h.0,
      )
      | inr (x, f) ↦
          try_codes-first lib bs now ttl (create_pair_code row s).0 s' code h.1
            (rw (f, try_codes) at e)
    ]

new_code-first :
    (lib : Library) (random : List (List ℕ)) (q : Request) (now : ℕ) (r r' : Relay) (out : List Out)
    (code : List ℕ) (expires : ℕ)
    → All (λ b. length b ≡ 8) random
    → handle_pair_new lib random q now r
      ≡ (Reply.answer 200 Cookie.kept (Body.pair_code code expires), out, r')
    → (first (has_code (lib.text code)) r'.store.pair_codes
        ≡ some (row_of lib code now r.pair_code_ttl))
      × (byte_length code ≡ 8)
unfolding handle_pair_new session_from_request write append_audit
new_code-first lib random q now r r' out code expires h e =
    let s = purge_pair_codes lib.date (now - one_day) r.store in
    let tried = try_codes lib random now r.pair_code_ttl s in
    ground (arith, e, try_codes-first lib random now r.pair_code_ttl s tried.1 code h)

pair_device_lem :
    (ip tok : String) (d : Device) (now : ℕ) (r : Relay)
    → affects (has_id d.id) r.store.devices ≡ false
    → affects (owns d.token_hash) r.store.devices ≡ false
    → d.token_hash ≢ ""
    → d.revoked_at ≡ none
    → ((pair_device ip tok d now r).0
        ≡ Reply.answer 200 Cookie.kept (Body.paired d.id tok d.fingerprint d.name))
      × (device_by_token_hash d.token_hash (pair_device ip tok d now r).2.store ≡ some d)
      × (lookup d.id (pair_device ip tok d now r).2.hub.devices
          ≡ some (new_device_state (device_info d)))
unfolding pair_device create_device device_by_token_hash first write append_audit
pair_device_lem ip tok d now r fresh none_owns ne live = ground (
  arith,
  fresh,
  none_owns,
  live,
  string_key.agrees_iff d.token_hash "",
  string_key.agrees_iff d.token_hash d.token_hash,
  string_key.agrees_iff d.id d.id,
  first-append_none (owns d.token_hash) r.store.devices (d ∷ []) none_owns,
  lookup-insert d.id d.id (new_device_state (device_info d)) r.hub.devices,
)

redeem_code_lem :
    (cal : Calendar) (lib : Library) (ip code : String) (p : PairRequest) (tok : String)
    (digits : List ℕ) (now : ℕ) (row : PairCode) (r : Relay)
    → lib.date ≡ cal.date
    → first (has_code code) r.store.pair_codes ≡ some row
    → row.used_at ≡ none
    → 0 < now
    → now / second < row.expires_at / second
    → row.expires_at / second < year_10000
    → redeem_code lib ip code p tok digits now r
      ≡ pair_device ip tok (new_device lib p tok digits now) now (record r {
        store = (redeem_pair_code lib.date code now r.store).0;
        limiter = auth.reset r.limiter ("pair:ip:" ++ ip);
      })
unfolding redeem_code redeem_pair_code
redeem_code_lem cal lib ip code p tok digits now row r same e unused pos h top =
    let in_order = fmt_time-before cal now row.expires_at pos h top in
    let accepted : redeemable lib.date code now row ≡ true =
      rw same (
        ground (arith, first-holds (has_code code) r.store.pair_codes row e, unused, in_order.0)) in
    let there =
      first-affects (has_code code) (redeemable lib.date code now) r.store.pair_codes row e
        accepted in
    rw (there, redeem_code, redeem_pair_code) refl

-- A console gets a code for pairing; a machine whose user types the code, in any way that reads as it, before the second in
-- which it expires, and which is not locked out, gets a device, whose token the store finds and which the hub has without a
-- connection. The id and the token are new, random codes have eight characters, and no year is after 9999.
pub pairing_works :
    (cal : Calendar) (lib : Library) (random : List (List ℕ)) (q q' : Request) (p : PairRequest)
    (tok : String) (digits code : List ℕ) (now later expires : ℕ) (r r' : Relay) (out : List Out)
    → lib.date ≡ cal.date
    → All (λ b. length b ≡ 8) random
    → handle_pair_new lib random q now r
      ≡ (Reply.answer 200 Cookie.kept (Body.pair_code code expires), out, r')
    → normalize_pair_code lib.upper (codes p.code) ≡ code
    → (pair_locked (lib.text (client_ip q')) (lib.text code) later r'.limiter).0 ≡ false
    → 0 < later
    → later / second < (now + r.pair_code_ttl) / second
    → (now + r.pair_code_ttl) / second < year_10000
    → affects (has_id (new_device lib p tok digits later).id) r'.store.devices ≡ false
    → affects (owns (hash_token lib tok)) r'.store.devices ≡ false
    → hash_token lib tok ≢ ""
    → ((handle_pair_redeem lib q' (some p) tok digits later r').0
        ≡ Reply.answer 200 Cookie.kept (
            Body.paired
              (new_device lib p tok digits later).id
              tok
              (new_device lib p tok digits later).fingerprint
              (new_device lib p tok digits later).name))
      × (device_by_token_hash
            (hash_token lib tok)
            (handle_pair_redeem lib q' (some p) tok digits later r').2.store
          ≡ some (new_device lib p tok digits later))
      × (lookup
            (new_device lib p tok digits later).id
            (handle_pair_redeem lib q' (some p) tok digits later r').2.hub.devices
          ≡ some (new_device_state (device_info (new_device lib p tok digits later))))
unfolding handle_pair_redeem redeem_pair_code
pairing_works cal lib random q q' p tok digits code now later expires r r' out same eight h typed
      free pos early top fresh none_owns ne =
    let ip = lib.text (client_ip q') in
    let limiter = (pair_locked ip (lib.text code) later r'.limiter).1 in
    let r1 = record r' { limiter = limiter } in
    let (row, bytes) = new_code-first lib random q now r r' out code expires eight h in
    let d = new_device lib p tok digits later in
    let paired =
      redeem_code_lem cal lib ip (lib.text code) p tok digits later
        (row_of lib code now r.pair_code_ttl) r1 same row refl pos early top in
    rw (typed, free, bytes, paired)
      (pair_device_lem ip tok d later
        (record r1 {
          store = (redeem_pair_code lib.date (lib.text code) later r'.store).0;
          limiter = auth.reset limiter ("pair:ip:" ++ ip);
        })
        fresh none_owns ne refl)
