-- ===== src/Relay/Api/Logins.antt =====
-- `handleLogin`, `handleLogout` and `handleMe` of internal/relay/api.go. The new token and its id are arguments.
use Prim.Native.String.{◌++◌}
use terminal_x.Common.{ℕ, ◌/◌, not, String, Option, none, some, [], if◌then◌else◌}
use terminal_x.Relay.Auth as auth
use terminal_x.Relay.Api.{
  Library, Relay, Request, Body, Cookie, Reply, Step, refuse, bad_json, audited, client_ip,
  password_ok, session_from_request, web,
}
use terminal_x.Relay.Store.Times.{second}

unfoldable pub handle_login : Library → Request → Option String → String → String → ℕ → Relay → Step
handle_login lib q none tok id now r = bad_json r
handle_login lib q (some password) tok id now r =
    let ip = lib.text (client_ip q) in
    let key = "login:" ++ ip in
    let (is_locked, limiter) = auth.locked r.limiter key now in
    let r1 = record r { limiter = limiter } in
    if is_locked
    then refuse 429 "too many failed logins, try again later" r1
    else if not (password_ok lib password r1)
    then refuse 401 "wrong password" (
        audited ("anon:" ++ ip) "" "login.failed" "" now
          (record r1 { limiter = (auth.fail limiter key now).1 }))
    else let (ls, logins) = auth.create r.logins tok id now in
      (
        Reply.answer 200 (Cookie.token tok (r.logins.ttl / second)) (Body.authenticated ls),
        [],
        audited (web ls) "" "login" ip now
            (record r1 { limiter = auth.reset limiter key; logins = logins }),
      )

unfoldable pub handle_logout : Request → ℕ → Relay → Step
handle_logout q now r = elim q.cookie [
  | none ↦ (Reply.answer 200 Cookie.cleared Body.ok, [], r)
  | some tok ↦
      let (ls, r1) = session_from_request q now r in
      let r2 : Relay = elim ls [ none ↦ r1 | some ls ↦ audited (web ls) "" "logout" "" now r1 ] in
      (
        Reply.answer 200 Cookie.cleared Body.ok,
        [],
        record r2 { logins = auth.revoke r2.logins tok },
      )
]

unfoldable pub handle_me : Request → ℕ → Relay → Step
handle_me q now r =
    let (ls, r1) = session_from_request q now r in
    elim ls [
      | none ↦ (Reply.answer 200 Cookie.kept Body.anonymous, [], r1)
      | some ls ↦ (Reply.answer 200 Cookie.kept (Body.authenticated ls), [], r1)
    ]
