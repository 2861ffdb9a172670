-- ===== src/Relay/Auth/Lockouts.antt =====
-- Failures of a key in a row, and the lock.
use terminal_x.Common.{
  ℕ, suc, ◌+◌, ◌<◌, ◌≤◌, ◌≡◌, sym, ap, true, false, Bool, String, none, some, List, [], ◌∷◌, length,
  arith, if◌then◌else◌, string_key, ◌==◌,
}
use mathlib.Core.Path.{subst}
use terminal_x.Common.Maps.{lookup, lookup-insert}
use terminal_x.Relay.Auth.{Lockout, LockEntry, locked, fail, counted}

-- Failures of one key, one after the other; whether the last of them locked it.
unfoldable pub fails_at : Lockout → String → List ℕ → Bool × Lockout
fails_at l key [] = (false, l)
fails_at l key (now ∷ []) = fail l key now
fails_at l key (now ∷ t ∷ ts) = fails_at (fail l key now).1 key (t ∷ ts)

-- The times come in order, none more than the window after the one before, the first of them after `last`.
abbrev pub Paced : ℕ → ℕ → List ℕ → Type 0
Paced window last [] = Unit
Paced window last (t ∷ ts) = (last ≤ t) × (t ≤ last + window) × Paced window t ts

-- A failure that locks a key keeps it locked for the window, and no failure touches another key.
pub fail_lem :
    (l : Lockout) (key j : String) (now later : ℕ)
    → (fail l key now).0 ≡ true
    → later < now + l.window
    → (locked (fail l key now).1 key later ≡ (true, (fail l key now).1))
      × (lookup j (fail l key now).1.ents ≡ (
          if key == j
          then some (record { fails = 0; last_fail = now; locked_until = now + l.window })
          else lookup j l.ents))
unfolding fail locked
fail_lem l key j now later e b =
    let new : LockEntry = record { fails = 0; last_fail = now; locked_until = now + l.window } in
    ground (
      arith,
      string_key.agrees_iff key j,
      string_key.agrees_iff key key,
      lookup-insert key key new l.ents,
      lookup-insert j key new l.ents,
    )

pub count_fail :
    (l : Lockout) (key : String) (now : ℕ)
    → suc (counted l now (lookup key l.ents)).fails < l.after
    → ((fail l key now).0 ≡ false)
      × (lookup key (fail l key now).1.ents
          ≡ some (record {
            fails = suc (counted l now (lookup key l.ents)).fails;
            last_fail = now;
            locked_until = (counted l now (lookup key l.ents)).locked_until;
          }))
      × ((fail l key now).1.after ≡ l.after)
      × ((fail l key now).1.window ≡ l.window)
unfolding fail
count_fail l key now b =
    let e = counted l now (lookup key l.ents) in
    let new : LockEntry = record {
      fails = suc e.fails;
      last_fail = now;
      locked_until = e.locked_until;
    } in
    ground (arith, string_key.agrees_iff key key, lookup-insert key key new l.ents)

pub last_fail_locks :
    (l : Lockout) (key : String) (now : ℕ)
    → l.after ≤ suc (counted l now (lookup key l.ents)).fails
    → (fail l key now).0 ≡ true
unfolding fail
last_fail_locks l key now b = ground arith

locks_from :
    (l : Lockout) (key : String) (e : LockEntry) (t : ℕ) (ts : List ℕ)
    → lookup key l.ents ≡ some e
    → Paced l.window e.last_fail (t ∷ ts)
    → e.fails + length (t ∷ ts) ≡ l.after
    → (fails_at l key (t ∷ ts)).0 ≡ true
unfolding fails_at
locks_from l key e t [] h p n = last_fail_locks l key t (ground (arith, h))
locks_from l key e t (u ∷ ts) h p n =
    let same : counted l t (lookup key l.ents) ≡ e = ground (arith, h) in
    let (f, g, a, w) = count_fail l key t (ground (arith, same)) in
    locks_from (fail l key t).1 key _ u ts g (subst (λ x. Paced x t (u ∷ ts)) (sym w) p.2)
      (ground (arith, ap (λ (x : LockEntry). x.fails) same, a, n))

-- As many failures in a row as the lockout allows, none more than the window after the one before, lock a
-- key that had no failure: the last of them reports it.
pub fails_lock :
    (l : Lockout) (key : String) (t : ℕ) (ts : List ℕ)
    → lookup key l.ents ≡ none
    → Paced l.window t ts
    → length (t ∷ ts) ≡ l.after
    → (fails_at l key (t ∷ ts)).0 ≡ true
unfolding fails_at
fails_lock l key t [] h p n = last_fail_locks l key t (ground (arith, h))
fails_lock l key t (u ∷ ts) h p n =
    let none_yet : counted l t (lookup key l.ents)
        ≡ record { fails = 0; last_fail = 0; locked_until = 0 } =
      ground (arith, h) in
    let zero_fails : (counted l t (lookup key l.ents)).fails ≡ 0 =
      ap (λ (x : LockEntry). x.fails) none_yet in
    let (f, g, a, w) = count_fail l key t (ground (arith, zero_fails)) in
    locks_from (fail l key t).1 key _ u ts g (subst (λ x. Paced x t (u ∷ ts)) (sym w) p)
      (ground (arith, zero_fails, a, n))
