-- ===== src/Proto/Frame/Words.antt =====
-- encoding/binary.BigEndian on the word sizes that frame.go uses, and the uint32 / int32 conversion.
use terminal_x.Common.{
  ℤ, pos, negsuc, ℕ, ◌+◌, ◌-◌, ◌*◌, ◌/◌, ◌%◌, ◌^◌, ◌<◌, ◌≡◌, List, ◌∷◌, ltb, if◌then◌else◌, get_or,
  arith,
}

-- byte(v >> k) for k = 8 * i
abbrev pub byte_at : ℕ → ℕ → ℕ
byte_at v i = v / 2 ^ (8 * i) % 256

-- The bytes of the word, then `rest`.
unfoldable pub put_u16 : ℕ → List ℕ → List ℕ
put_u16 v rest = byte_at v 1 ∷ byte_at v 0 ∷ rest

unfoldable pub put_u32 : ℕ → List ℕ → List ℕ
put_u32 v rest = byte_at v 3 ∷ byte_at v 2 ∷ byte_at v 1 ∷ byte_at v 0 ∷ rest

unfoldable pub put_u64 : ℕ → List ℕ → List ℕ
put_u64 v rest =
    byte_at v 7
    ∷ byte_at v 6
    ∷ byte_at v 5
    ∷ byte_at v 4
    ∷ byte_at v 3
    ∷ byte_at v 2
    ∷ byte_at v 1
    ∷ byte_at v 0
    ∷ rest

-- The word at index `i`.
unfoldable pub get_u16 : List ℕ → ℕ → ℕ
get_u16 b i = get_or b i 0 * 2 ^ 8 + get_or b (i + 1) 0

unfoldable pub get_u32 : List ℕ → ℕ → ℕ
get_u32 b i =
    get_or b i 0 * 2 ^ 24
    + get_or b (i + 1) 0 * 2 ^ 16
    + get_or b (i + 2) 0 * 2 ^ 8
    + get_or b (i + 3) 0

unfoldable pub get_u64 : List ℕ → ℕ → ℕ
get_u64 b i =
    get_or b i 0 * 2 ^ 56
    + get_or b (i + 1) 0 * 2 ^ 48
    + get_or b (i + 2) 0 * 2 ^ 40
    + get_or b (i + 3) 0 * 2 ^ 32
    + get_or b (i + 4) 0 * 2 ^ 24
    + get_or b (i + 5) 0 * 2 ^ 16
    + get_or b (i + 6) 0 * 2 ^ 8
    + get_or b (i + 7) 0

-- uint32(code), for an int32 `code`
unfoldable pub u32_of_int32 : ℤ → ℕ
u32_of_int32 (pos n) = n % 2 ^ 32
u32_of_int32 (negsuc n) = 2 ^ 32 - 1 - n % 2 ^ 32

-- int32(v), for a uint32 `v`
unfoldable pub int32_of_u32 : ℕ → ℤ
int32_of_u32 v = if ltb v (2 ^ 31) then pos v else negsuc (2 ^ 32 - 1 - v)

abbrev pub IsInt32 : ℤ → Type 0
IsInt32 (pos n) = n < 2 ^ 31
IsInt32 (negsuc n) = n < 2 ^ 31

pub bytes_u16 : (v : ℕ) → v < 2 ^ 16 → byte_at v 1 * 2 ^ 8 + byte_at v 0 ≡ v
bytes_u16 v h = omega arith

pub bytes_u32 :
    (v : ℕ)
    → v < 2 ^ 32
    → byte_at v 3 * 2 ^ 24 + byte_at v 2 * 2 ^ 16 + byte_at v 1 * 2 ^ 8 + byte_at v 0 ≡ v
bytes_u32 v h = omega arith

pub bytes_u64 :
    (v : ℕ)
    → v < 2 ^ 64
    → byte_at v 7 * 2 ^ 56
        + byte_at v 6 * 2 ^ 48
        + byte_at v 5 * 2 ^ 40
        + byte_at v 4 * 2 ^ 32
        + byte_at v 3 * 2 ^ 24
        + byte_at v 2 * 2 ^ 16
        + byte_at v 1 * 2 ^ 8
        + byte_at v 0
      ≡ v
bytes_u64 v h = omega arith

pub int32_of_u32-u32_of_int32 : (c : ℤ) → IsInt32 c → int32_of_u32 (u32_of_int32 c) ≡ c
unfolding int32_of_u32 u32_of_int32
int32_of_u32-u32_of_int32 (pos n) h = ground arith
int32_of_u32-u32_of_int32 (negsuc n) h = ground arith
