-- ===== src/Relay/Auth.antt =====
-- internal/relay/auth.go: the lockout after failed logins and the console's login sessions. Each method is
-- one step under its mutex, `now` the clock's reading in it; the random token and id are arguments.
-- `now.Sub(t)` is compared with a positive duration only, so a time in the future counts as none ago.
pub mod Lockouts
pub mod Logins
mod Tests
use terminal_x.Common.{
  ℕ, suc, ◌+◌, ◌-◌, Bool, true, false, ◌||◌, String, Option, none, some, List, [], ◌∷◌, ltb, leb,
  if◌then◌else◌, string_key, ◌==◌,
}
use terminal_x.Common.Maps.{lookup, insert, delete}

pub record LockEntry : Type 0 where
  pub fails : ℕ
  pub last_fail : ℕ
  pub locked_until : ℕ

pub record Lockout : Type 0 where
  pub after : ℕ
  pub window : ℕ
  pub ents : List (String × LockEntry)

abbrev pub stale : Lockout → ℕ → LockEntry → Bool
stale l now e = ltb l.window (now - e.last_fail)

unfoldable pub locked : Lockout → String → ℕ → Bool × Lockout
locked l key now = elim (lookup key l.ents) [
  | none ↦ (false, l)
  | some e ↦
      if ltb now e.locked_until
      then (true, l)
      else if stale l now e
      then (false, record l { ents = delete key l.ents })
      else (false, l)
]

-- The entry that a failure counts in: none, and a stale one, start again.
abbrev pub counted : Lockout → ℕ → Option LockEntry → LockEntry
counted l now none = record { fails = 0; last_fail = 0; locked_until = 0 }
counted l now (some e) =
    if stale l now e then record { fails = 0; last_fail = 0; locked_until = 0 } else e

-- Whether the key just got locked, and the new counters.
unfoldable pub fail : Lockout → String → ℕ → Bool × Lockout
fail l key now =
    let e = counted l now (lookup key l.ents) in
    if leb l.after (suc e.fails)
    then (
      true,
      record l {
        ents =
            insert key (record { fails = 0; last_fail = now; locked_until = now + l.window })
              l.ents;
      },
    )
    else (
      false,
      record l {
        ents =
            insert key
              (record { fails = suc e.fails; last_fail = now; locked_until = e.locked_until })
              l.ents;
      },
    )

unfoldable pub reset : Lockout → String → Lockout
reset l key = record l { ents = delete key l.ents }

pub record LoginSession : Type 0 where
  pub id : String
  pub created_at : ℕ
  pub expires_at : ℕ

pub record LoginSessions : Type 0 where
  pub ttl : ℕ
  pub sess : List (String × LoginSession)

unfoldable pub purge : ℕ → List (String × LoginSession) → List (String × LoginSession)
purge now [] = []
purge now ((tok, ls) ∷ m) =
    let rest = purge now m in if ltb ls.expires_at now then rest else (tok, ls) ∷ rest

unfoldable pub create : LoginSessions → String → String → ℕ → LoginSession × LoginSessions
create l tok id now =
    let ls : LoginSession = record { id = id; created_at = now; expires_at = now + l.ttl } in
    (ls, record l { sess = purge now (insert tok ls l.sess) })

unfoldable pub get : LoginSessions → String → ℕ → Option LoginSession × LoginSessions
get l tok now = if tok == "" then (none, l) else elim (lookup tok l.sess) [
  | none ↦ (none, l)
  | some ls ↦
      if ltb ls.expires_at now then (none, record l { sess = delete tok l.sess }) else (some ls, l)
]

unfoldable pub revoke : LoginSessions → String → LoginSessions
revoke l tok = record l { sess = delete tok l.sess }
