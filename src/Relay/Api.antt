-- ===== src/Relay/Api.antt =====
-- The relay's HTTP handlers (internal/relay/api.go, auth.go): the relay is the hub, the store, the counters of failures and the
-- login sessions. A body is given decoded, `none` for one that `readJSON` refuses; the readings of the clock in one
-- handler are one, but for the second look at the login session. A handler answers, and what it sends to consoles and agents
-- is a list of the hub's outputs; what it writes stands in the store.
pub mod Logins
pub mod Pairs
pub mod Console
pub mod Paired
pub mod Once
pub mod Locks
pub mod Tokens
pub mod Handled
pub mod Agreement
pub mod Agreed
mod Tests
use Prim.Native.String.{◌++◌}
use terminal_x.Common.{
  ℕ, Bool, true, false, ◌&&◌, String, Option, none, some, List, [], ◌∷◌, if◌then◌else◌, nat_beq,
  take, drop,
}
use mathlib.Core.List.{◌++◌ as append}
use terminal_x.Proto.Messages.{Approval, DeviceInfo}
use terminal_x.Relay.Hub.{Server, Out}
use terminal_x.Relay.Auth.{Lockout, LoginSession, LoginSessions}
use terminal_x.Relay.Auth as auth
use terminal_x.Relay.Pairing.{trim_space, is_nil}
use terminal_x.Relay.Persisted.{write}
use terminal_x.Relay.Store.{Store, AuditEntry, StoreError}

-- Go's standard library: the calendar, unicode.ToUpper, a text of code points, SHA-256, hex and base32, and a URL's scheme and host.
pub record Library : Type 0 where
  pub date : ℕ → List ℕ
  pub upper : ℕ → ℕ
  pub text : List ℕ → String
  pub sha256 : String → List ℕ
  pub hex : List ℕ → String
  pub base32 : List ℕ → List ℕ
  pub parse_url : String → Option (String × String)

pub record Relay : Type 0 where
  pub hub : Server
  pub store : Store
  pub limiter : Lockout
  pub logins : LoginSessions
  pub admin_password : String
  pub pair_code_ttl : ℕ

-- The headers that the handlers read, `remote` the host of the peer.
pub record Request : Type 0 where
  pub forwarded_for : List ℕ
  pub real_ip : List ℕ
  pub remote : List ℕ
  pub cookie : Option String

pub data Body : Type 0 where
  error : String → Body
  ok : Body
  anonymous : Body
  authenticated : LoginSession → Body
  pair_code : List ℕ → ℕ → Body
  paired : String → String → String → String → Body
  device_info : DeviceInfo → Body
  device_infos : List DeviceInfo → Body
  approval_list : List Approval → Body
  decided : String → String → Body
  audit_log : List AuditEntry → Body
  webhook_url : String → Body

-- The cookie that an answer sets: a token and its age in seconds, or none to keep.
pub data Cookie : Type 0 where
  kept cleared : Cookie
  token : String → ℕ → Cookie

-- `crashed` is a nil pointer, which net/http turns into a closed connection.
pub data Reply : Type 0 where
  answer : ℕ → Cookie → Body → Reply
  crashed : Reply

abbrev pub Step : Type 0
Step = Reply × List Out × Relay

abbrev pub refuse : ℕ → String → Relay → Step
refuse status text r = (Reply.answer status Cookie.kept (Body.error text), [], r)

-- `readJSON`'s error of a body that is no JSON; what the library says of the error is left out of the texts.
abbrev pub bad_json : Relay → Step
bad_json = refuse 400 "bad json"

-- `writeErr` of the store's errors
abbrev pub store_error : StoreError → Relay → Step
store_error StoreError.not_found = refuse 404 "not found"
store_error StoreError.failed = refuse 500 "store"

abbrev pub audited : String → String → String → String → ℕ → Relay → Relay
audited actor device action detail now r = record r {
  store = write (Out.audit actor device 0 action detail) now r.store;
}

unfoldable pub first_item : List ℕ → List ℕ
first_item [] = []
first_item (c ∷ t) = let rest = first_item t in if nat_beq c b',' then [] else c ∷ rest

unfoldable pub client_ip : Request → List ℕ
client_ip q =
    if is_nil q.forwarded_for
    then (if is_nil q.real_ip then q.remote else trim_space q.real_ip)
    else trim_space (first_item q.forwarded_for)

unfoldable pub same_bytes : List ℕ → List ℕ → Bool
same_bytes [] [] = true
same_bytes [] (y ∷ ys) = false
same_bytes (x ∷ xs) [] = false
same_bytes (x ∷ xs) (y ∷ ys) = nat_beq x y && same_bytes xs ys

abbrev pub password_ok : Library → String → Relay → Bool
password_ok lib pw r = same_bytes (lib.sha256 pw) (lib.sha256 r.admin_password)

abbrev pub hash_token : Library → String → String
hash_token lib tok = lib.hex (lib.sha256 tok)

abbrev pub fingerprint : Library → String → String
fingerprint lib material =
    let enc = lib.base32 (lib.sha256 material) in
    lib.text (append (take 4 enc) (b'-' ∷ take 4 (drop 4 enc)))

unfoldable pub session_from_request : Request → ℕ → Relay → Option LoginSession × Relay
session_from_request q now r = elim q.cookie [
  | none ↦ (none, r)
  | some tok ↦ let (ls, logins) = auth.get r.logins tok now in (ls, record r { logins = logins })
]

abbrev pub require_login : (Relay → Step) → Request → ℕ → Relay → Step
require_login next q now r =
    let (ls, r1) = session_from_request q now r in
    elim ls [ none ↦ refuse 401 "not authenticated" r1 | some _ ↦ next r1 ]

abbrev pub web : LoginSession → String
web ls = "web:" ++ ls.id

-- The login session of a handler behind `requireLogin`, which it takes to be there.
abbrev pub with_session : (LoginSession → Relay → Step) → Request → ℕ → Relay → Step
with_session next q now r =
    let (ls, r1) = session_from_request q now r in
    elim ls [ none ↦ (Reply.crashed, [], r1) | some ls ↦ next ls r1 ]
