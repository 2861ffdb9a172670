-- ===== src/Session/Cmdline/Sh.antt =====
-- What a POSIX shell reads from a line of words: blanks separate them, single quotes and the backslash
-- quote, and any other character with a meaning of its own, or an end of line, is refused.
use terminal_x.Common.{
  ℕ, ◌≡◌, refl, sym, ap, ◌∙◌, Bool, true, false, ◌||◌, String, Option, none, some, List, [], ◌∷◌,
  ◌++◌, append_assoc, append-nil, nat_beq, nat_beq_iff, if◌then◌else◌, All, arith, Bool-cases, inl,
  inr,
}
use terminal_x.Session.Heuristic.Prompt.{codes}
use terminal_x.Session.Cmdline.{
  Text, ShellKind, member, contains_any, replace_all, quote, backslash, specials, quote_arg, join,
  map_text,
}

pub data Mode : Type 0 where
  plain quoting escaping : Mode

abbrev is_blank : ℕ → Bool
is_blank c = nat_beq c b' ' || nat_beq c b'\t'

abbrev pub is_newline : ℕ → Bool
is_newline c = nat_beq c b'\n' || nat_beq c b'\r'

abbrev cons_some : Text → Option (List Text) → Option (List Text)
cons_some w none = none
cons_some w (some ws) = some (w ∷ ws)

-- The characters that the standard has quoted: those with a meaning wherever they stand, and those with one
-- in some places.
abbrev posix_special : Text
posix_special = codes "|&;<>()$`\\\"' \t*?[#~%{}!"

is_special : ℕ → Bool
is_special c = member c posix_special

-- `word` is what was read of the current word, and `begun` whether there is one.
read : Text → Text → Bool → Mode → Option (List Text)
read [] word begun plain = some (if begun then word ∷ [] else [])
read [] word begun _ = none
read (c ∷ s) word begun plain =
    let rest = read s [] false plain in
    let quoted_on = read s word true quoting in
    let escaped_on = read s word true escaping in
    let on = read s (word ++ c ∷ []) true plain in
    if is_blank c
    then (if begun then cons_some word rest else rest)
    else if nat_beq c quote
    then quoted_on
    else if nat_beq c backslash
    then escaped_on
    else if is_special c || is_newline c
    then none
    else on
read (c ∷ s) word begun quoting =
    let close = read s word true plain in
    let on = read s (word ++ c ∷ []) true quoting in if nat_beq c quote then close else on
read (c ∷ s) word begun escaping = read s (word ++ c ∷ []) true plain

unfoldable pub sh_words : Text → Option (List Text)
unfolding read is_special
sh_words s = read s [] false plain

-- No end of line in it.
abbrev pub OneLine : Text → Type 0
OneLine s = All (λ c. is_newline c ≡ false) s

ordinary :
    (c : ℕ)
    → is_special c ≡ false
    → (is_blank c ≡ false) × (nat_beq c quote ≡ false) × (nat_beq c backslash ≡ false)
unfolding is_special
ordinary c h = (ground arith, ground arith, ground arith)

member-All :
    (c : ℕ) (xs ys : Text)
    → All (λ x. member x ys ≡ true) xs
    → member c ys ≡ false
    → member c xs ≡ false
member-All c [] ys h n = refl
member-All c (x ∷ xs) ys (h, hs) n =
    ground (arith, member-All c xs ys hs n, h, nat_beq_iff c x, nat_beq_iff x c)

-- Every one of them is a character for which the code quotes.
special_quoted : (c : ℕ) → member c specials ≡ false → is_special c ≡ false
unfolding is_special
special_quoted c n = member-All c posix_special specials all n
  where
    all : All (λ x. member x specials ≡ true) posix_special
    all = ground arith

one_special :
    (c : ℕ) (s : Text)
    → contains_any (c ∷ s) specials ≡ false
    → (is_special c ≡ false) × (contains_any s specials ≡ false)
unfolding contains_any is_special
one_special c s h = elim (Bool-cases (member c specials)) [
  | inl e ↦ cc (rw e at h)
  | inr e ↦ (special_quoted c e, rw e at h)
]

read-on :
    (c : ℕ) (s word : Text) (begun : Bool)
    → is_special c ≡ false
    → is_newline c ≡ false
    → read (c ∷ s) word begun plain ≡ read s (word ++ c ∷ []) true plain
unfolding read
read-on c s word begun p n = let (b, q, k) = ordinary c p in rw (b, q, k, p, n)

read-plain :
    (s rest word : Text)
    → contains_any s specials ≡ false
    → OneLine s
    → read (s ++ rest) word true plain ≡ read rest (word ++ s) true plain
read-plain [] rest word a l = rw append-nil
read-plain (c ∷ s) rest word a (n, l) =
    let (p, a') = one_special c s a in
    read-on c (s ++ rest) word true p n
    ∙ read-plain s rest (word ++ c ∷ []) a' l
    ∙ ap (λ x. read rest x true plain) (append_assoc word (c ∷ []) s)

replaced : ℕ → Text → Text
replaced c s = replace_all (c ∷ s) quote (quote ∷ backslash ∷ quote ∷ quote ∷ [])

read-quoted :
    (s rest word : Text)
    → read
        (replace_all s quote (quote ∷ backslash ∷ quote ∷ quote ∷ []) ++ (quote ∷ rest))
        word
        true
        quoting
      ≡ read rest (word ++ s) true plain
unfolding read replace_all
read-quoted [] rest word = rw append-nil
read-quoted (c ∷ s) rest word = elim (Bool-cases (nat_beq c quote)) [
  | inl e ↦ rw ((nat_beq_iff c quote).0 e) (
      read-quoted s rest (word ++ quote ∷ [])
      ∙ ap (λ x. read rest x true plain) (append_assoc word (quote ∷ []) s))
  | inr e ↦
      rw (e, e)
        (read-quoted s rest (word ++ c ∷ [])
          ∙ ap (λ x. read rest x true plain) (append_assoc word (c ∷ []) s))
]

-- A quoted argument is read as the argument, whatever follows it.
read-quote_arg :
    (name : String) (s rest : Text)
    → OneLine s
    → read (quote_arg (ShellKind.other name) s ++ rest) [] false plain ≡ read rest s true plain
unfolding quote_arg read replace_all
read-quote_arg name [] rest l = read-quoted [] rest []
read-quote_arg name (c ∷ s) rest l = elim (Bool-cases (contains_any (c ∷ s) specials)) [
  | inl e ↦ rw e (
      ap (λ x. read x [] true quoting)
        (append_assoc (replace_all (c ∷ s) quote (quote ∷ backslash ∷ quote ∷ quote ∷ []))
          (quote ∷ []) rest)
      ∙ read-quoted (c ∷ s) rest [])
  | inr e ↦
      let (p, a) = one_special c s e in
      rw e (read-on c (s ++ rest) [] false p l.0 ∙ read-plain s rest (c ∷ []) a l.1)
]

pub sh_words-join :
    (name : String) (ws : List Text)
    → All OneLine ws
    → sh_words (join (map_text (quote_arg (ShellKind.other name)) ws)) ≡ some ws
unfolding sh_words join read
sh_words-join name [] l = refl
sh_words-join name (w ∷ []) (l, _) =
    ap (λ x. read x [] false plain) (sym (append-nil (quote_arg (ShellKind.other name) w)))
    ∙ read-quote_arg name w [] l
sh_words-join name (w ∷ v ∷ ws) (l, ls) =
    read-quote_arg name w (b' ' ∷ join (map_text (quote_arg (ShellKind.other name)) (v ∷ ws))) l
    ∙ ap (cons_some w) (sh_words-join name (v ∷ ws) ls)
