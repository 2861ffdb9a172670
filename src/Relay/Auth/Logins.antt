-- ===== src/Relay/Auth/Logins.antt =====
-- The life of a login session.
use terminal_x.Common.{
  ℕ, ◌+◌, ◌≤◌, ◌≡◌, ◌≢◌, String, none, some, List, [], ◌∷◌, arith, if◌then◌else◌, string_key, ltb,
}
use terminal_x.Common.Maps.{lookup, insert, lookup-insert, lookup-delete}
use terminal_x.Relay.Auth.{LoginSession, LoginSessions, create, get, revoke, purge}

lookup-purge :
    (tok : String) (now : ℕ) (ls : LoginSession) (m : List (String × LoginSession))
    → lookup tok m ≡ some ls
    → now ≤ ls.expires_at
    → lookup tok (purge now m) ≡ some ls
unfolding lookup purge
lookup-purge tok now ls [] h l = ground arith
lookup-purge tok now ls ((k, v) ∷ m) h l = ground (arith, lookup-purge tok now ls m)

-- With a token that is not empty, the session that a login creates is found under its token until it expires, is not found once it has
-- expired, and is not found once it was revoked.
pub create_lem :
    (l : LoginSessions) (tok id : String) (now later : ℕ)
    → tok ≢ ""
    → ((get (create l tok id now).1 tok later).0
        ≡ (if ltb (now + l.ttl) later then none else some (create l tok id now).0))
      × ((get (revoke (create l tok id now).1 tok) tok later).0 ≡ none)
unfolding get create revoke
create_lem l tok id now later ne =
    let ls : LoginSession = record { id = id; created_at = now; expires_at = now + l.ttl } in
    ground (
      arith,
      string_key.agrees_iff tok "",
      string_key.agrees_iff tok tok,
      lookup-insert tok tok ls l.sess,
      lookup-purge tok now ls (insert tok ls l.sess),
      lookup-delete tok tok (purge now (insert tok ls l.sess)),
    )
