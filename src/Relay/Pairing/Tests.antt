-- ===== src/Relay/Pairing/Tests.antt =====
-- A code of three characters, typed in lower case with a dash and a blank.
use terminal_x.Common.{ℕ, ◌≡◌, refl, true, List, [], ◌∷◌, ◌++◌, arith}
use terminal_x.Session.Heuristic.Prompt.{codes}
use terminal_x.Relay.Pairing.{new_pair_code, normalize_pair_code, is_space}
use terminal_x.Relay.Pairing.Typed.{Typed, end, separated, as_is, lower, normalize-new_pair_code}

abbrev random : List ℕ
random = 0 ∷ 33 ∷ 24 ∷ []

abbrev typed : List ℕ
typed = codes "a-B 2"

is_typed : Typed typed (new_pair_code random)
unfolding new_pair_code
is_typed =
    lower b'A' _ _ (omega arith) (omega arith)
      (separated b'-' _ _ refl (as_is b'B' _ _ (separated b' ' _ _ refl (as_is b'2' _ _ end))))

tab : is_space 9 ≡ true
unfolding is_space
tab = refl

normalize-new_pair_code_example :
    normalize_pair_code (λ c. c) ((9 ∷ []) ++ (typed ++ (9 ∷ []))) ≡ new_pair_code random
normalize-new_pair_code_example =
    normalize-new_pair_code (λ c. c) random (9 ∷ []) typed (9 ∷ []) is_typed (tab, tt) (tab, tt)
