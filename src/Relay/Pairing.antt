-- ===== src/Relay/Pairing.antt =====
-- internal/relay/pair.go: pairing codes, on lists of code points; the random bytes are an argument. `upper` is
-- Go's unicode.ToUpper on what is not ASCII.
pub mod Typed
mod Tests
use terminal_x.Common.{
  ℕ, ◌+◌, ◌-◌, ◌%◌, Bool, true, false, ◌&&◌, ◌||◌, List, [], ◌∷◌, if◌then◌else◌, leb, nat_beq,
  length, get_or,
}
use terminal_x.Session.Heuristic.Prompt.{codes}

abbrev pub pair_alphabet : List ℕ
pair_alphabet = codes "ABCDEFGHJKLMNPQRSTUVWXYZ23456789"

unfoldable pub new_pair_code : List ℕ → List ℕ
new_pair_code [] = []
new_pair_code (v ∷ b) = get_or pair_alphabet (v % length pair_alphabet) 0 ∷ new_pair_code b

-- unicode.IsSpace
unfoldable pub is_space : ℕ → Bool
is_space c =
    (leb 9 c && leb c 13)
    || nat_beq c 32
    || nat_beq c 0x85
    || nat_beq c 0xa0
    || nat_beq c 0x1680
    || (leb 0x2000 c && leb c 0x200a)
    || nat_beq c 0x2028
    || nat_beq c 0x2029
    || nat_beq c 0x202f
    || nat_beq c 0x205f
    || nat_beq c 0x3000

-- strings.TrimSpace, first at the left
unfoldable pub trim_left : List ℕ → List ℕ
trim_left [] = []
trim_left (c ∷ t) = let rest = trim_left t in if is_space c then rest else c ∷ t

abbrev pub is_nil : List ℕ → Bool
is_nil [] = true
is_nil (_ ∷ _) = false

unfoldable pub trim_right : List ℕ → List ℕ
trim_right [] = []
trim_right (c ∷ t) = let rest = trim_right t in if is_nil rest && is_space c then [] else c ∷ rest

abbrev pub trim_space : List ℕ → List ℕ
trim_space t = trim_right (trim_left t)

-- strings.ToUpper, letter by letter
abbrev pub to_upper : (ℕ → ℕ) → ℕ → ℕ
to_upper upper c = if leb 0x80 c then upper c else if leb b'a' c && leb c b'z' then c - 32 else c

abbrev pub is_separator : ℕ → Bool
is_separator c = nat_beq c b'-' || nat_beq c b' '

unfoldable pub stripped : (ℕ → ℕ) → List ℕ → List ℕ
stripped upper [] = []
stripped upper (c ∷ t) =
    let rest = stripped upper t in
    if is_separator (to_upper upper c) then rest else to_upper upper c ∷ rest

unfoldable pub normalize_pair_code : (ℕ → ℕ) → List ℕ → List ℕ
normalize_pair_code upper c = stripped upper (trim_space c)
