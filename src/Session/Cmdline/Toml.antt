-- ===== src/Session/Cmdline/Toml.antt =====
-- What TOML reads from an array of basic strings, without the blanks and escapes that the program never
-- writes.
use terminal_x.Common.{
  ℕ, ◌≡◌, refl, ap, ◌∙◌, Bool, false, not, ◌&&◌, ◌||◌, Option, none, some, List, [], ◌∷◌, ◌++◌,
  append_assoc, append-nil, nat_beq, nat_beq_iff, ltb, if◌then◌else◌, All, arith, Bool-cases, inl,
  inr,
}
use terminal_x.Session.Cmdline.{
  Text, double_quote, backslash, toml_char, toml_escape, toml_items, toml_string_array,
}

pub data Mode : Type 0 where
  opening expecting inside escaping closing : Mode

-- A control character, which a basic string may not hold; the tab is none of them.
abbrev pub is_control : ℕ → Bool
is_control c = (ltb c 32 && not (nat_beq c 9)) || nat_beq c 127

abbrev ends : Text → Option (List Text)
ends [] = some []
ends (_ ∷ _) = none

abbrev cons_some : Text → Option (List Text) → Option (List Text)
cons_some w none = none
cons_some w (some ws) = some (w ∷ ws)

read : Text → Text → Mode → Option (List Text)
read [] word mode = none
read (c ∷ s) word opening =
    let string = read s [] inside in
    if nat_beq c double_quote then string else if nat_beq c b']' then ends s else none
read (c ∷ s) word expecting =
    let string = read s [] inside in if nat_beq c double_quote then string else none
read (c ∷ s) word inside =
    let close = read s [] closing in
    let escape = read s word escaping in
    let on = read s (word ++ c ∷ []) inside in
    if nat_beq c double_quote
    then cons_some word close
    else if nat_beq c backslash
    then escape
    else if is_control c
    then none
    else on
read (c ∷ s) word escaping =
    let slash = read s (word ++ backslash ∷ []) inside in
    let double = read s (word ++ double_quote ∷ []) inside in
    let newline = read s (word ++ b'\n' ∷ []) inside in
    if nat_beq c backslash
    then slash
    else if nat_beq c double_quote
    then double
    else if nat_beq c b'n'
    then newline
    else none
read (c ∷ s) word closing =
    let next = read s [] expecting in
    if nat_beq c b',' then next else if nat_beq c b']' then ends s else none

abbrev array : Text → Option (List Text)
array [] = none
array (c ∷ s) = if nat_beq c b'[' then read s [] opening else none

unfoldable pub toml_strings : Text → Option (List Text)
unfolding read
toml_strings s = array s

-- Texts that a basic string can hold: a line feed is escaped.
abbrev pub Writable : Text → Type 0
Writable s = All (λ c. is_control c && not (nat_beq c b'\n') ≡ false) s

read-char :
    (c : ℕ) (s word : Text)
    → is_control c && not (nat_beq c b'\n') ≡ false
    → read (toml_char c ++ s) word inside ≡ read s (word ++ c ∷ []) inside
unfolding read
read-char c s word h = elim (Bool-cases (nat_beq c backslash)) [
  | inl e ↦ rw ((nat_beq_iff c backslash).0 e) refl
  | inr e ↦ elim (Bool-cases (nat_beq c double_quote)) [
    | inl f ↦ rw ((nat_beq_iff c double_quote).0 f) refl
    | inr f ↦ elim (Bool-cases (nat_beq c b'\n')) [
      | inl g ↦ rw ((nat_beq_iff c b'\n').0 g) refl
      | inr g ↦ ground (arith, e, f, g)
    ]
  ]
]

read-escape :
    (p s word : Text)
    → Writable p
    → read (toml_escape p ++ (double_quote ∷ s)) word inside
      ≡ cons_some (word ++ p) (read s [] closing)
unfolding toml_escape read
read-escape [] s word h = rw append-nil
read-escape (c ∷ p) s word (h, hs) =
    ap (λ x. read x word inside) (append_assoc (toml_char c) (toml_escape p) (double_quote ∷ s))
    ∙ (read-char c (toml_escape p ++ (double_quote ∷ s)) word h
        ∙ (read-escape p s (word ++ c ∷ []) hs
            ∙ ap (λ x. cons_some x (read s [] closing)) (append_assoc word (c ∷ []) p)))

closed :
    (items : List Text)
    → All Writable items
    → read (toml_items false items ++ b']' ∷ []) [] closing ≡ some items
unfolding read toml_items
closed [] h = refl
closed (p ∷ items) (h, hs) =
    ap (λ x. read x [] inside)
      (append_assoc (toml_escape p) (double_quote ∷ toml_items false items) (b']' ∷ []))
    ∙ (read-escape p (toml_items false items ++ b']' ∷ []) [] h
        ∙ ap (cons_some p) (closed items hs))

-- The array that is rendered reads back as its items, if no item holds a control character but tabs and
-- line feeds.
pub toml_strings-toml_string_array :
    (items : List Text) → All Writable items → toml_strings (toml_string_array items) ≡ some items
unfolding toml_strings toml_string_array toml_items read
toml_strings-toml_string_array [] h = refl
toml_strings-toml_string_array (p ∷ items) (h, hs) =
    ap (λ x. read x [] inside)
      (append_assoc (toml_escape p) (double_quote ∷ toml_items false items) (b']' ∷ []))
    ∙ (read-escape p (toml_items false items ++ b']' ∷ []) [] h
        ∙ ap (cons_some p) (closed items hs))
