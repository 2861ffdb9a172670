-- ===== src/Relay/Pairing/Typed.antt =====
-- A pairing code as people type it.
use terminal_x.Common.{
  ℕ, zero, suc, ◌+◌, ◌%◌, ◌<◌, ◌≤◌, ◌≡◌, refl, Bool, true, false, ◌&&◌, ◌||◌, List, [], ◌∷◌, ◌++◌,
  leb, length, get_or, All, arith, Bool-cases, inl, inr,
}
use mathlib.Core.Path.{subst}
use terminal_x.Relay.Pairing.{
  pair_alphabet, new_pair_code, is_space, trim_left, trim_right, is_nil, is_separator, stripped,
  normalize_pair_code,
}

-- Letters in either case, and dashes and blanks anywhere.
pub data Typed : List ℕ → List ℕ → Type 0 where
  end : Typed [] []
  separated : (c : ℕ) (t k : List ℕ) → is_separator c ≡ true → Typed t k → Typed (c ∷ t) k
  as_is : (c : ℕ) (t k : List ℕ) → Typed t k → Typed (c ∷ t) (c ∷ k)
  lower : (c : ℕ) (t k : List ℕ) → b'A' ≤ c → c ≤ b'Z' → Typed t k → Typed ((c + 32) ∷ t) (c ∷ k)

-- An upper case letter or a digit.
abbrev is_code_char : ℕ → Bool
is_code_char c = (leb b'A' c && leb c b'Z') || (leb b'0' c && leb c b'9')

abbrev IsCode : List ℕ → Type 0
IsCode k = All (λ c. is_code_char c ≡ true) k

get_or-All : (xs : List ℕ) (i : ℕ) → IsCode xs → i < length xs → is_code_char (get_or xs i 0) ≡ true
get_or-All [] i h l = absurd (omega arith)
get_or-All (x ∷ xs) zero h l = h.0
get_or-All (x ∷ xs) (suc i) h l = get_or-All xs i h.1 (omega arith)

alphabet-IsCode : IsCode pair_alphabet
alphabet-IsCode = ground arith

new_pair_code-IsCode : (b : List ℕ) → IsCode (new_pair_code b)
unfolding new_pair_code
new_pair_code-IsCode [] = tt
new_pair_code-IsCode (v ∷ b) =
    (get_or-All pair_alphabet (v % 32) alphabet-IsCode (omega arith), new_pair_code-IsCode b)

stripped-Typed : (upper : ℕ → ℕ) (t k : List ℕ) → IsCode k → Typed t k → stripped upper t ≡ k
unfolding stripped
stripped-Typed upper _ _ h end = refl
stripped-Typed upper _ k h (separated c t _ s y) = ground (arith, stripped-Typed upper t k h y)
stripped-Typed upper _ _ h (as_is c t k y) = ground (arith, h.0, stripped-Typed upper t k h.1 y)
stripped-Typed upper _ _ h (lower c t k a z y) = ground (arith, stripped-Typed upper t k h.1 y)

is_nil-eq : (t : List ℕ) → is_nil t ≡ true → t ≡ []
is_nil-eq [] e = refl
is_nil-eq (c ∷ t) e = absurd (ground (arith, e))

abbrev IsBlank : List ℕ → Type 0
IsBlank t = All (λ c. is_space c ≡ true) t

trim_left-blanks : (back : List ℕ) → IsBlank back → trim_left back ≡ []
unfolding trim_left
trim_left-blanks [] h = refl
trim_left-blanks (c ∷ back) h = ground (arith, h.0, trim_left-blanks back h.1)

-- What is left of a typed code with blanks after it is the same.
trim_left-Typed :
    (t k back : List ℕ)
    → IsCode k
    → Typed t k
    → IsBlank back
    → (t' : List ℕ) × (blanks : List ℕ) × Typed t' k
      × IsBlank blanks
      × (trim_left (t ++ back) ≡ t' ++ blanks)
unfolding trim_left is_space
trim_left-Typed _ _ back h end b = ([], [], end, tt, trim_left-blanks back b)
trim_left-Typed _ k back h (separated c t _ s y) b = elim (Bool-cases (is_space c)) [
  | inl e ↦ rw e (trim_left-Typed t k back h y b)
  | inr e ↦ rw e ((c ∷ t), back, separated c t k s y, b, refl)
]
trim_left-Typed _ _ back h (as_is c t k y) b =
    let inside : is_space c ≡ false = ground (arith, h.0) in
    rw inside ((c ∷ t), back, as_is c t k y, b, refl)
trim_left-Typed _ _ back h (lower c t k a z y) b =
    let inside : is_space (c + 32) ≡ false = ground arith in
    rw inside (((c + 32) ∷ t), back, lower c t k a z y, b, refl)

trim_left-front : (front rest : List ℕ) → IsBlank front → trim_left (front ++ rest) ≡ trim_left rest
unfolding trim_left
trim_left-front [] rest h = refl
trim_left-front (c ∷ front) rest h = ground (arith, h.0, trim_left-front front rest h.1)

-- Blanks alone are trimmed away.
trim_right-blanks : (back : List ℕ) → IsBlank back → trim_right back ≡ []
unfolding trim_right
trim_right-blanks [] h = refl
trim_right-blanks (c ∷ back) h = ground (arith, h.0, trim_right-blanks back h.1)

trim_right-Typed :
    (t k back : List ℕ) → IsCode k → Typed t k → IsBlank back → Typed (trim_right (t ++ back)) k
unfolding trim_right is_space
trim_right-Typed _ _ back h end b = rw (trim_right-blanks back b) end
trim_right-Typed _ k back h (separated c t _ s y) b =
    let rest = trim_right-Typed t k back h y b in
    elim (Bool-cases (is_nil (trim_right (t ++ back)) && is_space c)) [
      | inl e ↦
          rw e
            (subst (λ t. Typed t k) (is_nil-eq (trim_right (t ++ back)) (ground (arith, e))) rest)
      | inr e ↦ rw e (separated c _ k s rest)
    ]
trim_right-Typed _ _ back h (as_is c t k y) b =
    let inside : is_space c ≡ false = ground (arith, h.0) in
    let kept : (is_nil (trim_right (t ++ back)) && is_space c) ≡ false = ground (arith, inside) in
    rw kept (as_is c _ k (trim_right-Typed t k back h.1 y b))
trim_right-Typed _ _ back h (lower c t k a z y) b =
    let inside : is_space (c + 32) ≡ false = ground arith in
    let kept : (is_nil (trim_right (t ++ back)) && is_space (c + 32)) ≡ false =
      ground (arith, inside) in
    rw kept (lower c _ k a z (trim_right-Typed t k back h.1 y b))

-- However a generated code is typed, in upper or lower case, with dashes and blanks in it and blanks of any kind around it, it is read as
-- the code.
pub normalize-new_pair_code :
    (upper : ℕ → ℕ) (b front typed back : List ℕ)
    → Typed typed (new_pair_code b)
    → IsBlank front
    → IsBlank back
    → normalize_pair_code upper (front ++ (typed ++ back)) ≡ new_pair_code b
unfolding normalize_pair_code
normalize-new_pair_code upper b front typed back y f e =
    let code = new_pair_code-IsCode b in
    let (t, blanks, y', b', same) = trim_left-Typed typed (new_pair_code b) back code y e in
    rw (trim_left-front front (typed ++ back) f, same)
      (stripped-Typed upper (trim_right (t ++ blanks)) (new_pair_code b) code
        (trim_right-Typed t (new_pair_code b) blanks code y' b'))
