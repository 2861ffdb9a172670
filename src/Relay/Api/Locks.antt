-- ===== src/Relay/Api/Locks.antt =====
-- Failed logins lock a caller out.
use Prim.Native.String.{◌++◌}
use terminal_x.Common.{
  ℕ, suc, ◌+◌, ◌<◌, ◌≤◌, ◌≡◌, refl, sym, ap, ◌∙◌, true, false, String, none, some, List, [], ◌∷◌,
  arith, length, string_key,
}
use mathlib.Core.Path.{subst}
use terminal_x.Common.Maps.{lookup}
use terminal_x.Relay.Auth.{Lockout, LockEntry, locked, fail, counted}
use terminal_x.Relay.Auth.Lockouts.{Paced, count_fail, last_fail_locks, fail_lem}
use terminal_x.Relay.Api.{Library, Relay, Request, password_ok, client_ip, refuse}
use terminal_x.Relay.Api.Logins.{handle_login}

abbrev pub login_key : Library → Request → String
login_key lib q = "login:" ++ lib.text (client_ip q)

-- Logins with one password, one after the other.
unfoldable pub logins_at : Library → Request → String → String → String → List ℕ → Relay → Relay
logins_at lib q password tok id [] r = r
logins_at lib q password tok id (t ∷ ts) r =
    logins_at lib q password tok id ts (handle_login lib q (some password) tok id t r).2

abbrev pub last_of : ℕ → List ℕ → ℕ
last_of t [] = t
last_of t (u ∷ ts) = last_of u ts

failed_login :
    (lib : Library) (q : Request) (password tok id : String) (now : ℕ) (r : Relay)
    → password_ok lib password r ≡ false
    → locked r.limiter (login_key lib q) now ≡ (false, r.limiter)
    → ((handle_login lib q (some password) tok id now r).2.limiter
        ≡ (fail r.limiter (login_key lib q) now).1)
      × ((handle_login lib q (some password) tok id now r).2.admin_password ≡ r.admin_password)
unfolding handle_login
failed_login lib q password tok id now r wrong free = ground (arith, wrong, free)

still_free :
    (l : Lockout) (key : String) (e : LockEntry) (now : ℕ)
    → lookup key l.ents ≡ some e
    → e.locked_until ≡ 0
    → e.last_fail ≤ now
    → now ≤ e.last_fail + l.window
    → (locked l key now ≡ (false, l)) × (counted l now (lookup key l.ents) ≡ e)
unfolding locked
still_free l key e now f z a b = ground (arith, f, z)

logins_lock :
    (lib : Library) (q : Request) (password tok id : String) (t : ℕ) (ts : List ℕ) (later : ℕ)
    (r : Relay)
    → password_ok lib password r ≡ false
    → locked r.limiter (login_key lib q) t ≡ (false, r.limiter)
    → (counted r.limiter t (lookup (login_key lib q) r.limiter.ents)).locked_until ≡ 0
    → (counted r.limiter t (lookup (login_key lib q) r.limiter.ents)).fails + length (t ∷ ts)
      ≡ r.limiter.after
    → Paced r.limiter.window t ts
    → later < last_of t ts + r.limiter.window
    → locked (logins_at lib q password tok id (t ∷ ts) r).limiter (login_key lib q) later
      ≡ (true, (logins_at lib q password tok id (t ∷ ts) r).limiter)
unfolding logins_at
logins_lock lib q password tok id t [] later r wrong free zero n p b =
    let (same, _) = failed_login lib q password tok id t r wrong free in
    let key = login_key lib q in
    rw same (
      (fail_lem r.limiter key key t later (last_fail_locks r.limiter key t (omega (arith, n))) b).0)
logins_lock lib q password tok id t (u ∷ ts) later r wrong free zero n p b =
    let key = login_key lib q in
    let r1 = (handle_login lib q (some password) tok id t r).2 in
    let (same, pass) = failed_login lib q password tok id t r wrong free in
    let (_, entry, after, window) = count_fail r.limiter key t (omega (arith, n)) in
    let e : LockEntry = record {
      fails = suc (counted r.limiter t (lookup key r.limiter.ents)).fails;
      last_fail = t;
      locked_until = (counted r.limiter t (lookup key r.limiter.ents)).locked_until;
    } in
    let found : lookup key r1.limiter.ents ≡ some e =
      subst (λ l. lookup key l.ents ≡ some e) (sym same) entry in
    let same_after : r1.limiter.after ≡ r.limiter.after = ap (λ l. l.after) same ∙ after in
    let same_window : r1.limiter.window ≡ r.limiter.window = ap (λ l. l.window) same ∙ window in
    let (free1, counts) =
      still_free r1.limiter key e u found zero p.0 (omega (arith, p.1, same_window)) in
    logins_lock lib q password tok id u ts later r1 (rw pass wrong) free1 (rw counts zero)
      (rw counts (omega (arith, n, same_after))) (subst (λ w. Paced w u ts) (sym same_window) p.2)
      (omega (arith, b, same_window))

locked_login :
    (lib : Library) (q : Request) (any tok id : String) (now : ℕ) (r : Relay)
    → locked r.limiter (login_key lib q) now ≡ (true, r.limiter)
    → handle_login lib q (some any) tok id now r
      ≡ refuse 429 "too many failed logins, try again later" r
unfolding handle_login
locked_login lib q any tok id now r e = rw e refl

-- As many logins with a wrong password as the lockout allows, from a caller that had no failure before, none more than the window after the one before,
-- lock the caller out: until the window after the last of them has passed, a login from there is refused, whatever the password, and changes nothing.
pub login_locked :
    (lib : Library) (q : Request) (password any tok id : String) (t : ℕ) (ts : List ℕ) (later : ℕ)
    (r : Relay)
    → password_ok lib password r ≡ false
    → lookup (login_key lib q) r.limiter.ents ≡ none
    → length (t ∷ ts) ≡ r.limiter.after
    → Paced r.limiter.window t ts
    → later < last_of t ts + r.limiter.window
    → handle_login lib q (some any) tok id later (logins_at lib q password tok id (t ∷ ts) r)
      ≡ refuse 429 "too many failed logins, try again later"
          (logins_at lib q password tok id (t ∷ ts) r)
unfolding locked
login_locked lib q password any tok id t ts later r wrong new n p b =
    let key = login_key lib q in
    let free : locked r.limiter key t ≡ (false, r.limiter) = ground (arith, new) in
    let none_yet : counted r.limiter t (lookup key r.limiter.ents) ≡ counted r.limiter t none =
      rw new refl in
    locked_login lib q any tok id later _ (
      logins_lock lib q password tok id t ts later r wrong free (ground (arith, none_yet))
        (ground (arith, none_yet, n)) p b)
