-- ===== src/Relay/Api/Tests.antt =====
-- The properties at a relay with one console that is logged in.
use terminal_x.Common.{
  ℕ, ◌*◌, ◌<◌, ◌≡◌, ◌≢◌, refl, Bool, true, false, String, Option, none, some, List, [], ◌∷◌, arith,
  string_key,
}
use terminal_x.Common.Maps.{lookup, insert}
use terminal_x.Proto.Messages.{Approval, ApprovalLevel, ApprovalMode, ApprovalStatus}
use terminal_x.Proto.Envelope.{DecisionText}
use terminal_x.Session.Heuristic.Prompt.{codes}
use terminal_x.Relay.Auth as auth
use terminal_x.Relay.Hub.{Server, Out}
use terminal_x.Relay.Hub.Agents.{new_device_state}
use terminal_x.Relay.Hub.Approvals.{decide_approval, already, status_for}
use terminal_x.Relay.Hub.Approvals as hub_approvals
use terminal_x.Relay.Pairing.{
  new_pair_code, normalize_pair_code, trim_left, trim_right, stripped, is_space,
}
use terminal_x.Relay.Persisted.{
  load_state, load_devices, load_approvals, write, write_all, device_info,
}
use terminal_x.Relay.Persisted.Restart.{decided_survives}
use terminal_x.Relay.Store.{
  Store, Device, PairCode, create_device, list_devices, scan_devices, device_by_token_hash,
}
use terminal_x.Relay.Store.Records.{
  get_approval, set_setting, append_audit, list_approvals, scan_approvals,
}
use terminal_x.Relay.Store.Codes.{create_pair_code, purge_pair_codes, redeem_pair_code}
use terminal_x.Relay.Store.Redemption.{created}
use terminal_x.Relay.Store.Expiry.{new_store}
use terminal_x.Relay.Store.Steps.{Step as StoreStep, Later}
use terminal_x.Relay.Store.Sql.{affects, first, select, update, order_by}
use terminal_x.Relay.Store.Times.{Calendar, second, year_10000, before, fmt_time, digits}
use terminal_x.Relay.Api.{
  Library, Relay, Request, Body, Cookie, Reply, Step, refuse, hash_token, client_ip, password_ok,
  same_bytes, session_from_request, require_login,
}
use terminal_x.Relay.Api.Console.{handle_webhook_put}
use terminal_x.Relay.Api.Logins.{handle_login}
use terminal_x.Relay.Api.Locks.{login_key, logins_at, login_locked}
use terminal_x.Relay.Api.Pairs.{
  PairRequest, try_codes, byte_length, redeem_code, pair_device, handle_pair_new,
  handle_pair_redeem, new_device, pair_locked,
}
use terminal_x.Relay.Api.Paired.{pairing_works}
use terminal_x.Relay.Api.Once.{is_paired, code_of, pair_once}
use terminal_x.Relay.Api.Handled.{Handled, starts, serves}
use terminal_x.Relay.Api.Agreement.{Agrees}
use terminal_x.Relay.Api.Agreed.{Served-Agrees}

-- One letter for each second, and for each code point.
abbrev one_letter : ℕ → List ℕ
one_letter s = s ∷ []

in_order : (a b : ℕ) → a < b → b < year_10000 → before (one_letter a) (one_letter b) ≡ true
unfolding before
in_order a b h y = ground arith

abbrev calendar : Calendar
calendar = record { date = one_letter; same_length = λ a b h k. refl; in_order = in_order }

abbrev letters : List ℕ → String
letters [] = ""
letters (c ∷ t) = String.◌∷◌ "x" (letters t)

abbrev library : Library
library = record {
  date = one_letter;
  upper = λ c. c;
  text = letters;
  sha256 = codes;
  hex = letters;
  base32 = λ t. t;
  parse_url = λ u. none;
}

abbrev peer : Request
peer = record { forwarded_for = []; real_ip = []; remote = codes "10.0.0.1"; cookie = none }

abbrev no_hub : Server
no_hub = record {
  devices = [];
  clients = [];
  sid_owner = [];
  attachments = [];
  approvals = [];
  agents = [];
}

abbrev relay : Relay
relay = record {
  hub = no_hub;
  store = new_store;
  limiter = record { after = 2; window = 60; ents = [] };
  logins = record { ttl = 1000 * second; sess = [] };
  admin_password = "secret";
  pair_code_ttl = 300 * second;
}

abbrev wrong : String
wrong = "guess"

is_wrong : password_ok library wrong relay ≡ false
unfolding same_bytes
is_wrong = refl

no_failure : lookup (login_key library peer) relay.limiter.ents ≡ none
unfolding lookup
no_failure = refl

login_locked_example :
    handle_login library peer
      (some "secret")
      "t"
      "u"
      150
      (logins_at library peer wrong "t" "u" (100 ∷ 130 ∷ []) relay)
    ≡ refuse 429 "too many failed logins, try again later"
        (logins_at library peer wrong "t" "u" (100 ∷ 130 ∷ []) relay)
login_locked_example =
    login_locked library peer wrong "secret" "t" "u" 100 (130 ∷ []) 150 relay is_wrong no_failure
      refl (omega arith, omega arith, tt) (omega arith)

-- The console logs in at the first second.
abbrev console : Request
console = record peer { cookie = some "t" }

abbrev logged_in : Relay
logged_in = record relay { logins = (auth.create relay.logins "t" "u" second).1 }

abbrev bytes : List (List ℕ)
bytes = (0 ∷ 1 ∷ 2 ∷ 3 ∷ 4 ∷ 5 ∷ 6 ∷ 7 ∷ []) ∷ []

abbrev code : List ℕ
code = codes "ABCDEFGH"

abbrev pairing : Step
pairing = handle_pair_new library bytes console (2 * second) logged_in

abbrev laptop : PairRequest
laptop = record {
  code = "abcd-efgh";
  name = "laptop";
  os = "linux";
  agent_version = "1";
  pubkey = "";
}

abbrev device : Device
device = new_device library laptop "token" (codes "01234567") (3 * second)

abbrev redeeming : Step
redeeming =
    handle_pair_redeem library peer (some laptop) "token" (codes "01234567") (3 * second) pairing.2

gives_code :
    pairing ≡ (Reply.answer 200 Cookie.kept (Body.pair_code code (302 * second)), [], pairing.2)
unfolding handle_pair_new session_from_request auth.get auth.create auth.purge lookup insert
    try_codes create_pair_code affects new_pair_code purge_pair_codes select
gives_code = refl

reads_as : normalize_pair_code library.upper (codes laptop.code) ≡ code
unfolding normalize_pair_code stripped trim_left trim_right is_space
reads_as = refl

unlocked :
    (pair_locked
      (library.text (client_ip peer))
      (library.text code)
      (3 * second)
      pairing.2.limiter).0
    ≡ false
unfolding handle_pair_new session_from_request auth.get auth.create auth.purge lookup insert
    try_codes create_pair_code affects new_pair_code purge_pair_codes select auth.locked write
    append_audit
unlocked = refl

no_devices : pairing.2.store.devices ≡ []
unfolding handle_pair_new session_from_request auth.get auth.create auth.purge lookup insert
    try_codes create_pair_code affects new_pair_code purge_pair_codes select write append_audit
no_devices = refl

no_row : (p : Device → Bool) → affects p pairing.2.store.devices ≡ false
unfolding affects
no_row p = rw no_devices refl

some_hash : hash_token library "token" ≢ ""
some_hash = ground (arith, string_key.agrees_iff (hash_token library "token") "")

pairing_works_example :
    (redeeming.0
      ≡ Reply.answer 200 Cookie.kept (Body.paired device.id "token" device.fingerprint device.name))
    × (device_by_token_hash (hash_token library "token") redeeming.2.store ≡ some device)
    × (lookup device.id redeeming.2.hub.devices ≡ some (new_device_state (device_info device)))
pairing_works_example =
    pairing_works calendar library bytes console peer laptop "token" (codes "01234567") code
      (2 * second) (3 * second) (302 * second) logged_in pairing.2 [] refl (refl, tt) gives_code
      reads_as unlocked (omega arith) (omega arith) (omega arith) (no_row _) (no_row _) some_hash

-- The store of one code, at which the code is used twice.
abbrev code_row : PairCode
code_row = record {
  code = library.text code;
  created_at = 2 * second;
  expires_at = 302 * second;
  used_at = none;
  attempts = 0;
}

abbrev with_code : Relay
with_code = record relay { store = (create_pair_code code_row new_store).0 }

abbrev first_try : Step
first_try =
    handle_pair_redeem library peer (some laptop) "token" (codes "01234567") (3 * second) with_code

succeeds : is_paired first_try.0 ≡ true
unfolding handle_pair_redeem client_ip normalize_pair_code stripped trim_left trim_right is_space
    auth.locked lookup byte_length redeem_code redeem_pair_code create_pair_code affects before
    fmt_time digits update pair_device create_device
succeeds = refl

abbrev nothing_new : Later one_letter first_try.2.store first_try.2.store
nothing_new = Later.here

no_new_code : created (code_of library laptop) nothing_new ≡ 0
unfolding created
no_new_code = refl

pair_once_example :
    (is_paired
        (handle_pair_redeem library peer
          (some laptop)
          "token2"
          (codes "89abcdef")
          (4 * second)
          first_try.2).0
      ≡ false)
    × ((handle_pair_redeem library peer
          (some laptop)
          "token2"
          (codes "89abcdef")
          (4 * second)
          first_try.2).2.store.devices
        ≡ first_try.2.store.devices)
    × ((handle_pair_redeem library peer
          (some laptop)
          "token2"
          (codes "89abcdef")
          (4 * second)
          first_try.2).2.hub
        ≡ first_try.2.hub)
pair_once_example =
    pair_once library peer peer laptop laptop "token" "token2" (codes "01234567") (codes "89abcdef")
      (3 * second) (4 * second) with_code first_try.2
      (Later.then new_store with_code.store Later.here (StoreStep.creates_pair_code code_row))
      succeeds nothing_new no_new_code refl

-- A login that expires between the two looks at it: the handler runs into a nil pointer, after it has written.
abbrev expired : Step
expired =
    require_login (handle_webhook_put library console (some "") (2000 * second)) console
      (2 * second) logged_in

crashes : expired.0 ≡ Reply.crashed
unfolding handle_webhook_put session_from_request auth.get auth.create auth.purge lookup insert
    trim_left trim_right set_setting
crashes = refl

started : no_hub ≡ load_state one_letter new_store
unfolding load_state load_devices load_approvals list_devices list_approvals select order_by
    scan_devices scan_approvals
started = refl

Served-Agrees_example : Agrees (handle_login library peer (some "secret") "t" "u" 5 relay).2
Served-Agrees_example =
    Served-Agrees library (handle_login library peer (some "secret") "t" "u" 5 relay).2 (
      serves relay (handle_login library peer (some "secret") "t" "u" 5 relay).2
        (starts relay started) (Handled.logs_in peer (some "secret") "t" "u" 5))

-- A pending question in the store and the hub, whose device is connected.
abbrev question : Approval
question = record {
  key = "k1";
  sid = 7;
  device_id = "d1";
  agent = "claude";
  tool = "Bash";
  summary = "rm";
  input = "";
  cwd = "/";
  level = ApprovalLevel.hook;
  mode = ApprovalMode.remote_first;
  created_at = 5;
  hook_timeout_at = none;
  status = ApprovalStatus.pending;
  decided_by = "";
  decided_at = none;
}

abbrev asked : Store
asked = record new_store { approvals = question ∷ [] }

abbrev connected : Server
connected = record no_hub {
  devices = ("d1", record (new_device_state (device_info device)) { conn = some 1 }) ∷ [];
}

abbrev allow_it : hub_approvals.Request
allow_it = record {
  decision = DecisionText.allow;
  actor = "web:u";
  device_hint = "";
  req_id = "";
  client_id = "";
}

asked_row : get_approval "k1" asked ≡ some question
unfolding get_approval first
asked_row = refl

abbrev deciding : Server × List Out × Option hub_approvals.DecideError
deciding = decide_approval connected "k1" allow_it (get_approval "k1" asked) 9

decides : deciding ≡ (deciding.0, deciding.1, none)
unfolding decide_approval lookup get_approval first insert
decides = refl

abbrev restarted : Server × List Out × Option hub_approvals.DecideError
restarted =
    decide_approval (load_state one_letter (write_all deciding.1 9 asked)) "k1" allow_it
      (get_approval "k1" (write_all deciding.1 9 asked)) 10

decided_survives_example :
    (restarted.1 ≡ []) × (restarted.2 ≡ some (already (status_for allow_it.decision)))
decided_survives_example =
    decided_survives one_letter connected deciding.0 "k1" allow_it allow_it asked question 9 10
      deciding.1 decides asked_row refl
