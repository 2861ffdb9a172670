-- ===== src/Session/Heuristic/Prompt.antt =====
-- `MatchPrompt`: the regular expression
-- (?i)\(y/n\)|\[y/n\]|\(y/N\)|allow\?|\?\s*$|›\s*$ on the line without blanks at its end.
-- None of its letters folds to a character that is not ASCII.
use Prim.Native.Char.{code}
use terminal_x.Common.{
  ℕ, ◌+◌, Bool, true, false, ◌&&◌, ◌||◌, List, [], ◌∷◌, String, leb, nat_beq, if◌then◌else◌,
}

-- The code points of a text.
abbrev pub codes : String → List ℕ
codes String.[] = []
codes (String.◌∷◌ c s) = code c ∷ codes s

abbrev fold_case : ℕ → ℕ
fold_case c = if leb b'A' c && leb c b'Z' then c + 32 else c

-- The pattern is in lower case.
unfoldable pub starts_with : List ℕ → List ℕ → Bool
starts_with [] text = true
starts_with (p ∷ pat) [] = false
starts_with (p ∷ pat) (c ∷ text) = nat_beq p (fold_case c) && starts_with pat text

unfoldable pub contains : List ℕ → List ℕ → Bool
unfolding starts_with
contains pat [] = starts_with pat []
contains pat (c ∷ text) = starts_with pat (c ∷ text) || contains pat text

-- \s in RE2
abbrev pub is_space : ℕ → Bool
is_space c = nat_beq c 9 || nat_beq c 10 || nat_beq c 12 || nat_beq c 13 || nat_beq c 32

abbrev pub is_blank : ℕ → Bool
is_blank c = nat_beq c 9 || nat_beq c 32

unfoldable pub all_of : (ℕ → Bool) → List ℕ → Bool
all_of p [] = true
all_of p (c ∷ text) = p c && all_of p text

-- `mark\s*$`
unfoldable pub ends_with : ℕ → List ℕ → Bool
unfolding all_of
ends_with mark [] = false
ends_with mark (c ∷ text) = (nat_beq c mark && all_of is_space text) || ends_with mark text

-- strings.TrimRight(line, " \t")
unfoldable pub trim_right : List ℕ → List ℕ
unfolding all_of
trim_right [] = []
trim_right (c ∷ text) =
    let rest = trim_right text in if all_of is_blank (c ∷ text) then [] else c ∷ rest

unfoldable pub match_prompt : List ℕ → Bool
unfolding contains ends_with trim_right
match_prompt line =
    let text = trim_right line in
    contains (codes "(y/n)") text
    || contains (codes "[y/n]") text
    || contains (codes "allow?") text
    || ends_with b'?' text
    || ends_with 0x203a text
