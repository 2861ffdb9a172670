-- ===== src/Relay/Store/Expiry.antt =====
-- Pair codes are redeemed in time.
use terminal_x.Common.{
  ℕ, suc, ◌/◌, ◌<◌, ◌≤◌, ◌≡◌, ◌≢◌, ltb, refl, not, String, none, some, List, [], ◌∷◌, arith,
  if◌then◌else◌, string_key, ◌==◌, Bool-cases, inl, inr,
}
use terminal_x.Relay.Store.{Store, PairCode, StoreError, rename_device, touch_device, revoke_device}
use terminal_x.Relay.Store.Codes.{
  has_code, get_pair_code, create_pair_code, inc_pair_attempts, redeemable, redeem_pair_code,
  purge_pair_codes,
}
use terminal_x.Relay.Store.Records.{upsert_approval, set_approval_status, append_audit, set_setting}
use terminal_x.Relay.Store.Sql.{first, affects, count, first-affects, first-update, first-holds}
use terminal_x.Relay.Store.Counts.{
  count-append, count-select, count-update_same, count_none, first_unique,
}
use terminal_x.Relay.Store.Times.{
  Calendar, second, year_10000, fmt_time, fmt_time-before, time_ptr, before,
}
use terminal_x.Relay.Store.Steps.{Step, Later}
use terminal_x.Relay.Store.Redemption.{create-device_codes}

-- A code is the key of its table.
abbrev pub Unique : Store → Type 0
Unique s = (code : String) → count (has_code code) s.pair_codes ≤ 1

create-Unique : (p : PairCode) (s : Store) → Unique s → Unique (create_pair_code p s).0
unfolding create_pair_code count
create-Unique p s u code = elim (Bool-cases (affects (has_code p.code) s.pair_codes)) [
  | inl e ↦ rw e (u code)
  | inr e ↦
      let row = record p { used_at = time_ptr p.used_at } in
      rw e (elim (Bool-cases (p.code == code)) [
        | inl y ↦
            let fresh = count_none (has_code p.code) s.pair_codes e in
            let none_yet = rw ((string_key.agrees_iff p.code code).0 y) at fresh in
            ground (arith, count-append (has_code code) s.pair_codes (row ∷ []), none_yet)
        | inr n ↦ ground (arith, count-append (has_code code) s.pair_codes (row ∷ []), u code)
      ])
]

pub later-Unique : (date : ℕ → List ℕ) (s t : Store) → Later date s t → Unique s → Unique t
unfolding rename_device touch_device revoke_device inc_pair_attempts redeem_pair_code
    purge_pair_codes upsert_approval set_approval_status append_audit set_setting
later-Unique date s _ Later.here u = u
later-Unique date s _ (Later.then t v l (Step.creates_device d)) u =
    λ code. rw (create-device_codes d t) (later-Unique date s t l u code)
later-Unique date s _ (Later.then t v l (Step.renames_device j name)) u = later-Unique date s t l u
later-Unique date s _ (Later.then t v l (Step.touches_device j at os version)) u =
    later-Unique date s t l u
later-Unique date s _ (Later.then t v l (Step.revokes_device j at)) u = later-Unique date s t l u
later-Unique date s _ (Later.then t v l (Step.creates_pair_code p)) u =
    create-Unique p t (later-Unique date s t l u)
later-Unique date s _ (Later.then t v l (Step.counts_attempt c)) u = λ code.
    rw
      (count-update_same (has_code code) (has_code c) (λ p. record p { attempts = suc p.attempts })
        t.pair_codes (λ p e. refl))
      (later-Unique date s t l u code)
later-Unique date s _ (Later.then t v l (Step.redeems_pair_code c now)) u = λ code.
    rw
      (count-update_same (has_code code) (redeemable date c now)
        (λ p. record p { used_at = some now }) t.pair_codes (λ p e. refl))
      (later-Unique date s t l u code)
later-Unique date s _ (Later.then t v l (Step.purges_pair_codes cutoff)) u = λ code. omega (
  arith,
  later-Unique date s t l u code,
  count-select (has_code code)
      (λ p. not (before (fmt_time date p.expires_at) (fmt_time date cutoff))) t.pair_codes,
)
later-Unique date s _ (Later.then t v l (Step.upserts_approval a)) u = later-Unique date s t l u
later-Unique date s _ (Later.then t v l (Step.sets_approval_status key status by at)) u =
    later-Unique date s t l u
later-Unique date s _ (Later.then t v l (Step.appends_audit e now)) u = later-Unique date s t l u
later-Unique date s _ (Later.then t v l (Step.sets_setting k v')) u = later-Unique date s t l u

-- The tables of a new database.
abbrev pub new_store : Store
new_store = record {
  devices = [];
  pair_codes = [];
  approvals = [];
  audit = [];
  last_id = 0;
  settings = [];
}

-- In every state of the store after the start, an unused code that is there is redeemed exactly if the time is before its time of expiry,
-- provided that the two are not in one second, and that neither is Go's zero time or after the year 9999; and it is used then and
-- not otherwise.
pub redeem_in_time :
    (c : Calendar) (code : String) (now : ℕ) (p : PairCode) (s : Store)
    → Later c.date new_store s
    → first (has_code code) s.pair_codes ≡ some p
    → p.used_at ≡ none
    → (now / second) ≢ (p.expires_at / second)
    → 0 < now
    → 0 < p.expires_at
    → now / second < year_10000
    → p.expires_at / second < year_10000
    → ((redeem_pair_code c.date code now s).1
        ≡ (if ltb now p.expires_at then none else some StoreError.not_found))
      × (get_pair_code code (redeem_pair_code c.date code now s).0
          ≡ some (record p { used_at = if ltb now p.expires_at then some now else none }))
unfolding redeem_pair_code get_pair_code
redeem_in_time c code now p s l e unused n hn hx yn yx =
    let q = redeemable c.date code now in
    let used : PairCode → PairCode = λ p. record p { used_at = some now } in
    let row = first-holds (has_code code) s.pair_codes p e in
    let after = first-update (has_code code) q used s.pair_codes (λ p. refl) in
    let one = later-Unique c.date new_store s l (λ code. unfold count in omega arith) code in
    elim (Bool-cases (ltb now p.expires_at)) [
      | inl t ↦
          let in_order = fmt_time-before c now p.expires_at hn (ground (arith, n, t)) yx in
          let there =
            first-affects (has_code code) q s.pair_codes p e
              (ground (arith, row, unused, in_order.0)) in
          (rw (t, there) refl, ground (arith, t, after, e, row, unused, in_order.0))
      | inr f ↦
          let in_order = fmt_time-before c p.expires_at now hx (ground (arith, n, f)) yn in
          let none_there =
            first_unique (has_code code) q s.pair_codes p one (λ p h. ground arith) e
              (ground (arith, in_order.1)) in
          (rw (f, none_there) refl, ground (arith, f, after, e, unused, in_order.1))
    ]
