-- ===== src/Relay/Store/Counts.antt =====
-- How many rows of a table meet a condition, after the statements of Relay.Store.Sql.
use terminal_x.Common.{
  ◌+◌, ◌≤◌, ◌≡◌, refl, Bool, true, false, some, List, [], ◌∷◌, ◌++◌, if◌then◌else◌, arith,
}
use terminal_x.Relay.Store.Sql.{select, first, update, affects, count}

module _ {ℓ} {A : Type ℓ} where
  pub count-append :
      (p : A → Bool) (as' bs : List A) → count p (as' ++ bs) ≡ count p as' + count p bs
  unfolding count
  count-append p [] bs = ground arith
  count-append p (a ∷ as') bs = ground (arith, count-append p as' bs)

  pub count-select : (p q : A → Bool) (as' : List A) → count p (select q as') ≤ count p as'
  unfolding count select
  count-select p q [] = omega arith
  count-select p q (a ∷ as') = ground (arith, count-select p q as')

  pub count-update_same :
      (p q : A → Bool) (f : A → A) (as' : List A)
      → ((a : A) → q a ≡ true → p (f a) ≡ p a)
      → count p (update q f as') ≡ count p as'
  unfolding count update
  count-update_same p q f [] h = refl
  count-update_same p q f (a ∷ as') h = ground (arith, h a, count-update_same p q f as' h)

  -- An update of rows that are counted, after which they are not.
  pub count-update_undone :
      (p q : A → Bool) (f : A → A) (as' : List A)
      → ((a : A) → q a ≡ true → p a ≡ true)
      → ((a : A) → q a ≡ true → p (f a) ≡ false)
      → count p (update q f as') + (if affects q as' then 1 else 0) ≤ count p as'
  unfolding count update affects
  count-update_undone p q f [] h g = omega arith
  count-update_undone p q f (a ∷ as') h g =
      ground (arith, h a, g a, count-update_undone p q f as' h g)

  pub count_none : (p : A → Bool) (as' : List A) → affects p as' ≡ false → count p as' ≡ 0
  unfolding count affects
  count_none p [] e = refl
  count_none p (a ∷ as') e = ground (arith, count_none p as')

  none_left :
      (p q : A → Bool) (as' : List A)
      → ((b : A) → q b ≡ true → p b ≡ true)
      → count p as' ≡ 0
      → affects q as' ≡ false
  unfolding count affects
  none_left p q [] h n = refl
  none_left p q (b ∷ as') h n = ground (arith, h b, none_left p q as' h)

  -- If only one row meets a condition, it is the one that the query finds.
  pub first_unique :
      (p q : A → Bool) (as' : List A) (a : A)
      → count p as' ≤ 1
      → ((b : A) → q b ≡ true → p b ≡ true)
      → first p as' ≡ some a
      → q a ≡ false
      → affects q as' ≡ false
  unfolding count first affects
  first_unique p q [] a n h e f = refl
  first_unique p q (b ∷ as') a n h e f =
      ground (arith, h b, e, first_unique p q as' a, none_left p q as' h)

  pub affects_none : (p : A → Bool) (as' : List A) → count p as' ≡ 0 → affects p as' ≡ false
  unfolding affects count
  affects_none p [] e = refl
  affects_none p (a ∷ as') e = ground (arith, affects_none p as')

  pub count_mono :
      (p q : A → Bool) (as' : List A)
      → ((a : A) → p a ≡ true → q a ≡ true)
      → count p as' ≤ count q as'
  unfolding count
  count_mono p q [] h = omega arith
  count_mono p q (a ∷ as') h = ground (arith, h a, count_mono p q as' h)
