-- ===== src/Relay/Store/Codes.antt =====
-- The pair codes of internal/relay/store/store.go.
use terminal_x.Common.{
  ℕ, suc, Bool, not, ◌&&◌, String, Option, none, some, List, [], ◌∷◌, ◌++◌, if◌then◌else◌,
  string_key, ◌==◌,
}
use terminal_x.Relay.Store.{Store, PairCode, StoreError, is_null}
use terminal_x.Relay.Store.Times.{fmt_time, time_ptr, before}
use terminal_x.Relay.Store.Sql.{select, first, update, affects}

abbrev pub has_code : String → PairCode → Bool
has_code code p = p.code == code

unfoldable pub create_pair_code : PairCode → Store → Store × Option StoreError
create_pair_code p s =
    if affects (has_code p.code) s.pair_codes then (s, some StoreError.failed) else (
      record s { pair_codes = s.pair_codes ++ record p { used_at = time_ptr p.used_at } ∷ [] },
      none,
    )

-- `none` is ErrNotFound.
unfoldable pub get_pair_code : String → Store → Option PairCode
get_pair_code code s = elim (first (has_code code) s.pair_codes) [
  | none ↦ none
  | some p ↦ some (record p { used_at = time_ptr p.used_at })
]

unfoldable pub inc_pair_attempts : String → Store → Store
inc_pair_attempts code s = record s {
  pair_codes = update (has_code code) (λ p. record p { attempts = suc p.attempts }) s.pair_codes;
}

-- The code is unused and its time of expiry, as a text, is after now.
abbrev pub redeemable : (ℕ → List ℕ) → String → ℕ → PairCode → Bool
redeemable date code now p =
    p.code == code && is_null p.used_at && before (fmt_time date now) (fmt_time date p.expires_at)

unfoldable pub redeem_pair_code : (ℕ → List ℕ) → String → ℕ → Store → Store × Option StoreError
redeem_pair_code date code now s = (
  record s {
    pair_codes =
        update (redeemable date code now) (λ p. record p { used_at = some now }) s.pair_codes;
  },
  if affects (redeemable date code now) s.pair_codes then none else some StoreError.not_found,
)

unfoldable pub purge_pair_codes : (ℕ → List ℕ) → ℕ → Store → Store
purge_pair_codes date cutoff s = record s {
  pair_codes =
      select (λ p. not (before (fmt_time date p.expires_at) (fmt_time date cutoff))) s.pair_codes;
}
