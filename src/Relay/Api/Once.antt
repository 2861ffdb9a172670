-- ===== src/Relay/Api/Once.antt =====
-- A pairing code pairs one device at most.
use terminal_x.Common.{
  ℕ, ◌≡◌, refl, sym, Bool, true, false, String, none, some, List, arith, Bool-cases, Option-cases,
  inl, inr, nat_beq,
}
use mathlib.Core.Path.{subst}
use terminal_x.Session.Heuristic.Prompt.{codes}
use terminal_x.Relay.Pairing.{normalize_pair_code}
use terminal_x.Relay.Store.{Store, Device, PairCode, StoreError}
use terminal_x.Relay.Store.Codes.{has_code, redeemable, redeem_pair_code, inc_pair_attempts}
use terminal_x.Relay.Store.Records.{append_audit}
use terminal_x.Relay.Store.Redemption.{is_unused, created, redeemed-created, create-device_codes}
use terminal_x.Relay.Store.Expiry.{new_store, later-Unique, Unique}
use terminal_x.Relay.Store.Sql.{affects, count, affects_mono}
use terminal_x.Relay.Store.Counts.{count_none, affects_none, count_mono, count-update_undone}
use terminal_x.Relay.Store.Steps.{Later}
use Prim.Native.String.{◌++◌}
use terminal_x.Relay.Auth as auth
use terminal_x.Relay.Persisted.{write}
use terminal_x.Relay.Api.{Library, Relay, Request, Body, Reply, client_ip}
use terminal_x.Relay.Api.Pairs.{
  PairRequest, new_device, redeem_code, handle_pair_redeem, pair_device, pair_failed, pair_locked,
  byte_length,
}

-- Whether the answer gives out a device.
abbrev pub is_paired : Reply → Bool
is_paired (Reply.answer _ _ (Body.paired _ _ _ _)) = true
is_paired _ = false

abbrev pub code_of : Library → PairRequest → String
code_of lib p = lib.text (normalize_pair_code lib.upper (codes p.code))

redeemed_used :
    (date : ℕ → List ℕ) (code : String) (now : ℕ) (s : Store)
    → Unique s
    → (redeem_pair_code date code now s).1 ≡ none
    → affects (is_unused code) (redeem_pair_code date code now s).0.pair_codes ≡ false
unfolding redeem_pair_code
redeemed_used date code now s u e =
    let used : PairCode → PairCode = λ p. record p { used_at = some now } in
    let once =
      count-update_undone (is_unused code) (redeemable date code now) used s.pair_codes
        (λ p h. ground (arith, h)) (λ p h. ground arith) in
    let rows =
      count_mono (is_unused code) (has_code code) s.pair_codes (λ p h. ground (arith, h)) in
    affects_none (is_unused code) _ (ground (arith, once, rows, u code, e))

affects_not :
    {A : Type 0} (p q : A → Bool) (as' : List A)
    → ((a : A) → p a ≡ true → q a ≡ true)
    → affects q as' ≡ false
    → affects p as' ≡ false
affects_not p q as' h e = ground (arith, affects_mono p q as' h)

redeem_code_refused :
    (lib : Library) (ip code : String) (p : PairRequest) (tok : String) (digits : List ℕ) (now : ℕ)
    (r : Relay)
    → affects (is_unused code) r.store.pair_codes ≡ false
    → redeem_code lib ip code p tok digits now r
      ≡ pair_failed ip code "code not redeemable" now
          (record r { store = (redeem_pair_code lib.date code now r.store).0 })
unfolding redeem_code redeem_pair_code
redeem_code_refused lib ip code p tok digits now r h =
    let none_left =
      affects_not (redeemable lib.date code now) (is_unused code) r.store.pair_codes
        (λ p e. ground (arith, e)) h in
    rw (none_left, redeem_code, redeem_pair_code) refl

-- A code without an unused row is refused, and nothing of the devices and the hub changes.
refused_unused :
    (lib : Library) (q : Request) (p : PairRequest) (tok : String) (digits : List ℕ) (now : ℕ)
    (r : Relay)
    → affects (is_unused (code_of lib p)) r.store.pair_codes ≡ false
    → (is_paired (handle_pair_redeem lib q (some p) tok digits now r).0 ≡ false)
      × ((handle_pair_redeem lib q (some p) tok digits now r).2.store.devices ≡ r.store.devices)
      × ((handle_pair_redeem lib q (some p) tok digits now r).2.hub ≡ r.hub)
unfolding handle_pair_redeem redeem_pair_code pair_failed inc_pair_attempts write append_audit
refused_unused lib q p tok digits now r h =
    let code = code_of lib p in
    let limiter = (pair_locked (lib.text (client_ip q)) code now r.limiter).1 in
    let refused =
      redeem_code_refused lib (lib.text (client_ip q)) code p tok digits now
        (record r { limiter = limiter }) h in
    elim (Bool-cases (pair_locked (lib.text (client_ip q)) code now r.limiter).0) [
      | inl l ↦ rw l (refl, refl, refl)
      | inr l ↦
          rw l
            (elim (Bool-cases
              (nat_beq (byte_length (normalize_pair_code lib.upper (codes p.code))) 8)) [
                | inr n ↦ rw n (refl, refl, refl)
                | inl n ↦ rw (n, refused) (refl, refl, refl)
              ])
    ]

pair_device-codes :
    (ip tok : String) (d : Device) (now : ℕ) (r : Relay)
    → (pair_device ip tok d now r).2.store.pair_codes ≡ r.store.pair_codes
unfolding pair_device write append_audit
pair_device-codes ip tok d now r = let same = create-device_codes d r.store in ground (arith, same)

redeem_code_used :
    (lib : Library) (ip code : String) (p : PairRequest) (tok : String) (digits : List ℕ) (now : ℕ)
    (r : Relay)
    → Unique r.store
    → is_paired (redeem_code lib ip code p tok digits now r).0 ≡ true
    → affects (is_unused code) (redeem_code lib ip code p tok digits now r).2.store.pair_codes
      ≡ false
unfolding redeem_code pair_failed
redeem_code_used lib ip code p tok digits now r u h =
    elim (Option-cases (redeem_pair_code lib.date code now r.store).1) [
      | inl e ↦
          let r1 = record r {
            store = (redeem_pair_code lib.date code now r.store).0;
            limiter = auth.reset r.limiter ("pair:ip:" ++ ip);
          } in
          rw (e, redeem_code, pair_device-codes ip tok (new_device lib p tok digits now) now r1)
            (redeemed_used lib.date code now r.store u e)
      | inr (StoreError.not_found, e) ↦ absurd (ground (arith, rw (e, redeem_code) at h))
      | inr (StoreError.failed, e) ↦ absurd (ground (arith, rw (e, redeem_code) at h))
    ]

paired_used :
    (lib : Library) (q : Request) (p : PairRequest) (tok : String) (digits : List ℕ) (now : ℕ)
    (r : Relay)
    → Unique r.store
    → is_paired (handle_pair_redeem lib q (some p) tok digits now r).0 ≡ true
    → affects
        (is_unused (code_of lib p))
        (handle_pair_redeem lib q (some p) tok digits now r).2.store.pair_codes
      ≡ false
unfolding handle_pair_redeem pair_failed
paired_used lib q p tok digits now r u h =
    let code = code_of lib p in
    let ip = lib.text (client_ip q) in
    let limiter = (pair_locked ip code now r.limiter).1 in
    elim (Bool-cases (pair_locked ip code now r.limiter).0) [
      | inl l ↦ absurd (ground (arith, rw l at h))
      | inr l ↦
          elim (Bool-cases
            (nat_beq (byte_length (normalize_pair_code lib.upper (codes p.code))) 8)) [
              | inr n ↦ absurd (ground (arith, rw (l, n) at h))
              | inl n ↦
                  rw (l, n)
                    (redeem_code_used lib ip code p tok digits now (record r { limiter = limiter })
                      u (rw (l, n) at h))
            ]
    ]

-- After a pairing code was redeemed, in a state that the store reached from its start, in every later state of
-- the store in which the code was not created anew, a request with the code, typed in any way that reads as it,
-- is answered without a device, and leaves the devices of the store and the hub as they are.
pub pair_once :
    (lib : Library) (q q' : Request) (p p' : PairRequest) (tok tok' : String)
    (digits digits' : List ℕ) (now later : ℕ) (r r' : Relay)
    → Later lib.date new_store r.store
    → is_paired (handle_pair_redeem lib q (some p) tok digits now r).0 ≡ true
    → (l : Later lib.date (handle_pair_redeem lib q (some p) tok digits now r).2.store r'.store)
    → created (code_of lib p) l ≡ 0
    → code_of lib p' ≡ code_of lib p
    → (is_paired (handle_pair_redeem lib q' (some p') tok' digits' later r').0 ≡ false)
      × ((handle_pair_redeem lib q' (some p') tok' digits' later r').2.store.devices
          ≡ r'.store.devices)
      × ((handle_pair_redeem lib q' (some p') tok' digits' later r').2.hub ≡ r'.hub)
pair_once lib q q' p p' tok tok' digits digits' now later r r' reach h l none_new same =
    let code = code_of lib p in
    let done = (handle_pair_redeem lib q (some p) tok digits now r).2.store in
    let unique =
      later-Unique lib.date new_store r.store reach (λ code. unfold count in omega arith) in
    let used =
      count_none (is_unused code) done.pair_codes (paired_used lib q p tok digits now r unique h) in
    let runs = redeemed-created lib.date code done r'.store l in
    let none_left =
      affects_none (is_unused code) r'.store.pair_codes (omega (arith, runs, used, none_new)) in
    refused_unused lib q' p' tok' digits' later r'
      (subst (λ c. affects (is_unused c) r'.store.pair_codes ≡ false) (sym same) none_left)
