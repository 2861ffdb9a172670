-- ===== src/Relay/Store/Redemption.antt =====
-- Pair codes are redeemed at most once, and in time.
use terminal_x.Common.{
  ℕ, suc, ◌+◌, ◌≤◌, ◌≡◌, refl, Bool, true, not, ◌&&◌, String, Option, none, some, List, [], ◌∷◌,
  arith, string_key, ◌==◌, Bool-cases, inl, inr,
}
use terminal_x.Relay.Store.{
  Store, Device, PairCode, StoreError, is_null, has_id, create_device, rename_device, touch_device,
  revoke_device,
}
use terminal_x.Relay.Store.Codes.{
  has_code, create_pair_code, inc_pair_attempts, redeemable, redeem_pair_code, purge_pair_codes,
}
use terminal_x.Relay.Store.Records.{upsert_approval, set_approval_status, append_audit, set_setting}
use terminal_x.Relay.Store.Sql.{affects, count}
use terminal_x.Relay.Store.Counts.{
  count-append, count-select, count-update_same, count-update_undone,
}
use terminal_x.Relay.Store.Times.{fmt_time, time_ptr, before}
use terminal_x.Relay.Store.Steps.{Step, Later}

abbrev pub is_unused : String → PairCode → Bool
is_unused code p = p.code == code && is_null p.used_at

abbrev one_if : Option StoreError → Bool → ℕ
one_if none true = 1
one_if _ _ = 0

-- How often a run creates the code.
unfoldable pub created : {date : ℕ → List ℕ} (code : String) {s t : Store} → Later date s t → ℕ
created code Later.here = 0
created code (Later.then t u l (Step.creates_pair_code p)) =
    created code l + one_if (create_pair_code p t).1 (p.code == code)
created code (Later.then t u l _) = created code l

-- How often it is redeemed.
unfoldable pub redeemed : {date : ℕ → List ℕ} (code : String) {s t : Store} → Later date s t → ℕ
redeemed code Later.here = 0
redeemed {date = date} code (Later.then t u l (Step.redeems_pair_code c now)) =
    redeemed code l + one_if (redeem_pair_code date c now t).1 (c == code)
redeemed code (Later.then t u l _) = redeemed code l

create_counts :
    (code : String) (p : PairCode) (s : Store)
    → count (is_unused code) (create_pair_code p s).0.pair_codes
      ≤ count (is_unused code) s.pair_codes + one_if (create_pair_code p s).1 (p.code == code)
unfolding create_pair_code count
create_counts code p s = elim (Bool-cases (affects (has_code p.code) s.pair_codes)) [
  | inl e ↦ rw e (omega arith)
  | inr e ↦
      let row = record p { used_at = time_ptr p.used_at } in
      rw e (ground (arith, count-append (is_unused code) s.pair_codes (row ∷ [])))
]

redeem_counts :
    (date : ℕ → List ℕ) (code c : String) (now : ℕ) (s : Store)
    → one_if (redeem_pair_code date c now s).1 (c == code)
        + count (is_unused code) (redeem_pair_code date c now s).0.pair_codes
      ≤ count (is_unused code) s.pair_codes
unfolding redeem_pair_code
redeem_counts date code c now s =
    let q = redeemable date c now in
    let used : PairCode → PairCode = λ p. record p { used_at = some now } in
    elim (Bool-cases (c == code)) [
      | inl y ↦
          let counts =
            count-update_undone (is_unused code) q used s.pair_codes
              (λ p e. ground (
                arith,
                string_key.agrees_iff p.code c,
                string_key.agrees_iff c code,
                string_key.agrees_iff p.code code,
              ))
              (λ p e. ground arith) in
          ground (arith, counts)
      | inr n ↦
          let counts = count-update_same (is_unused code) q used s.pair_codes (λ p e. ground (
            arith,
            string_key.agrees_iff p.code c,
            string_key.agrees_iff c code,
            string_key.agrees_iff p.code code,
          )) in
          ground (arith, counts)
    ]

pub create-device_codes : (d : Device) (s : Store) → (create_device d s).0.pair_codes ≡ s.pair_codes
unfolding create_device
create-device_codes d s = elim (Bool-cases (affects (has_id d.id) s.devices)) [
  | inl e ↦ rw e refl
  | inr e ↦ rw e refl
]

-- In every run of the store, a pair code is redeemed at most as often as it is created in the run or was there
-- unused at its start.
pub redeemed-created :
    (date : ℕ → List ℕ) (code : String) (s t : Store) (l : Later date s t)
    → redeemed code l + count (is_unused code) t.pair_codes
      ≤ created code l + count (is_unused code) s.pair_codes
unfolding redeemed created rename_device touch_device revoke_device inc_pair_attempts
    purge_pair_codes upsert_approval set_approval_status append_audit set_setting
redeemed-created date code s _ Later.here = omega arith
redeemed-created date code s _ (Later.then t u l (Step.creates_device d)) =
    rw (create-device_codes d t) (redeemed-created date code s t l)
redeemed-created date code s _ (Later.then t u l (Step.renames_device j name)) =
    redeemed-created date code s t l
redeemed-created date code s _ (Later.then t u l (Step.touches_device j at os version)) =
    redeemed-created date code s t l
redeemed-created date code s _ (Later.then t u l (Step.revokes_device j at)) =
    redeemed-created date code s t l
redeemed-created date code s _ (Later.then t u l (Step.creates_pair_code p)) =
    omega (arith, redeemed-created date code s t l, create_counts code p t)
redeemed-created date code s _ (Later.then t u l (Step.counts_attempt c)) =
    rw
      (count-update_same (is_unused code) (has_code c) (λ p. record p { attempts = suc p.attempts })
        t.pair_codes (λ p e. refl))
      (redeemed-created date code s t l)
redeemed-created date code s _ (Later.then t u l (Step.redeems_pair_code c now)) =
    omega (arith, redeemed-created date code s t l, redeem_counts date code c now t)
redeemed-created date code s _ (Later.then t u l (Step.purges_pair_codes cutoff)) = omega (
  arith,
  redeemed-created date code s t l,
  count-select (is_unused code)
      (λ p. not (before (fmt_time date p.expires_at) (fmt_time date cutoff))) t.pair_codes,
)
redeemed-created date code s _ (Later.then t u l (Step.upserts_approval a)) =
    redeemed-created date code s t l
redeemed-created date code s _ (Later.then t u l (Step.sets_approval_status key status by at)) =
    redeemed-created date code s t l
redeemed-created date code s _ (Later.then t u l (Step.appends_audit e now)) =
    redeemed-created date code s t l
redeemed-created date code s _ (Later.then t u l (Step.sets_setting k v)) =
    redeemed-created date code s t l
