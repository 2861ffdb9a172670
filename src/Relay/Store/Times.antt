-- ===== src/Relay/Store/Times.antt =====
-- The time columns of internal/relay/store/store.go. They hold the texts of `fmtTime`, RFC 3339 with
-- nanoseconds in UTC, and SQLite compares them as texts. A text is its list of bytes. `date` is Go's
-- calendar, the nineteen bytes `2006-01-02T15:04:05` of a second counted from the zero time.
use terminal_x.Common.{
  ℕ, zero, suc, ◌+◌, ◌/◌, ◌%◌, ◌^◌, ◌<◌, ◌≡◌, Bool, true, false, Option, none, some, List, [], ◌∷◌,
  ◌++◌, if◌then◌else◌, ltb, nat_beq, length, arith,
}

abbrev pub second : ℕ
second = 10 ^ 9

-- The digits of a fraction without the zeros at its end.
unfoldable pub digits : ℕ → ℕ → List ℕ
digits zero n = []
digits (suc k) n = if nat_beq n 0 then [] else (48 + n / 10 ^ k) ∷ digits k (n % 10 ^ k)

abbrev pub fraction : ℕ → List ℕ
fraction n = if nat_beq n 0 then [] else 46 ∷ digits 9 n

unfoldable pub fmt_time : (ℕ → List ℕ) → ℕ → List ℕ
fmt_time date t =
    if nat_beq t 0 then [] else date (t / second) ++ (fraction (t % second) ++ 90 ∷ [])

-- `fmtTimePtr`, and `parseTimePtr` of its text: Go's zero time is the same as none.
abbrev pub time_ptr : Option ℕ → Option ℕ
time_ptr none = none
time_ptr (some t) = if nat_beq t 0 then none else some t

-- `<` on texts
unfoldable pub before : List ℕ → List ℕ → Bool
before [] [] = false
before [] (y ∷ ys) = true
before (x ∷ xs) [] = false
before (x ∷ xs) (y ∷ ys) = if nat_beq x y then before xs ys else ltb x y

-- The seconds before the year 10000, up to which a year has four digits.
abbrev pub year_10000 : ℕ
year_10000 = 315537897600

-- Go's calendar, up to the year 10000: all texts are of one length, and in the order of the seconds.
pub record Calendar : Type 0 where
  pub date : ℕ → List ℕ
  pub same_length : (a b : ℕ) → a < year_10000 → b < year_10000 → length (date a) ≡ length (date b)
  pub in_order : (a b : ℕ) → a < b → b < year_10000 → before (date a) (date b) ≡ true

before-append :
    (u v x y : List ℕ) → length u ≡ length v → before u v ≡ true → before (u ++ x) (v ++ y) ≡ true
unfolding before
before-append [] [] x y n h = absurd (ground (arith, h))
before-append [] (b ∷ v) x y n h = absurd (omega (arith, n))
before-append (a ∷ u) [] x y n h = absurd (omega (arith, n))
before-append (a ∷ u) (b ∷ v) x y n h = ground (arith, before-append u v x y (omega (arith, n)))

before_asym : (u v : List ℕ) → before u v ≡ true → before v u ≡ false
unfolding before
before_asym [] [] h = ground arith
before_asym [] (b ∷ v) h = ground arith
before_asym (a ∷ u) [] h = ground (arith, h)
before_asym (a ∷ u) (b ∷ v) h = ground (arith, before_asym u v)

-- A text that is not before another by an earlier second is of the same second or a later one.
pub fmt_time-before :
    (c : Calendar) (a b : ℕ)
    → 0 < a
    → a / second < b / second
    → b / second < year_10000
    → (before (fmt_time c.date a) (fmt_time c.date b) ≡ true)
      × (before (fmt_time c.date b) (fmt_time c.date a) ≡ false)
unfolding fmt_time
fmt_time-before c a b p h m =
    let first = c.date (a / second) in
    let later = c.date (b / second) in
    let tail = fraction (a % second) ++ 90 ∷ [] in
    let end = fraction (b % second) ++ 90 ∷ [] in
    let ordered : before (first ++ tail) (later ++ end) ≡ true =
      before-append first later tail end (c.same_length (a / second) (b / second) (omega arith) m)
        (c.in_order (a / second) (b / second) h m) in
    ground (arith, ordered, before_asym (first ++ tail) (later ++ end) ordered)
