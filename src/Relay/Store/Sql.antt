-- ===== src/Relay/Store/Sql.antt =====
-- The statements that internal/relay/store/store.go runs on its tables, in SQL's meaning. A table is the list of its rows
-- in the order of insertion, which is the order of rows that compare equal, where SQL leaves the order open.
use terminal_x.Common.{
  ℕ, zero, suc, ◌≡◌, refl, Bool, true, false, ◌||◌, ◌&&◌, Option, none, some, List, [], ◌∷◌, ◌++◌,
  take, if◌then◌else◌, arith,
}

module _ {ℓ} {A : Type ℓ} where
  -- `SELECT … WHERE p`
  unfoldable pub select : (A → Bool) → List A → List A
  select p [] = []
  select p (a ∷ as') = let rest = select p as' in if p a then a ∷ rest else rest

  -- the first row of such a query
  unfoldable pub first : (A → Bool) → List A → Option A
  first p [] = none
  first p (a ∷ as') = if p a then some a else first p as'

  -- `UPDATE … SET f WHERE p`
  unfoldable pub update : (A → Bool) → (A → A) → List A → List A
  update p f [] = []
  update p f (a ∷ as') = (if p a then f a else a) ∷ update p f as'

  -- Whether a statement with this condition affects a row.
  unfoldable pub affects : (A → Bool) → List A → Bool
  affects p [] = false
  affects p (a ∷ as') = p a || affects p as'

  unfoldable pub place : (A → A → Bool) → A → List A → List A
  place less a [] = a ∷ []
  place less a (b ∷ bs) = if less b a then b ∷ place less a bs else a ∷ b ∷ bs

  -- `ORDER BY`, by what comes before what
  unfoldable pub order_by : (A → A → Bool) → List A → List A
  order_by less [] = []
  order_by less (a ∷ as') = place less a (order_by less as')

  affects-place :
      (p : A → Bool) (less : A → A → Bool) (a : A) (bs : List A)
      → affects p (place less a bs) ≡ (p a || affects p bs)
  unfolding affects place
  affects-place p less a [] = refl
  affects-place p less a (b ∷ bs) = ground (arith, affects-place p less a bs)

  pub affects-order_by :
      (p : A → Bool) (less : A → A → Bool) (as' : List A)
      → affects p (order_by less as') ≡ affects p as'
  unfolding affects order_by
  affects-order_by p less [] = refl
  affects-order_by p less (a ∷ as') =
      ground (arith, affects-order_by p less as', affects-place p less a (order_by less as'))

  pub affects-select :
      (p q : A → Bool) (as' : List A) → affects p (select q as') ≡ affects (λ a. p a && q a) as'
  unfolding affects select
  affects-select p q [] = refl
  affects-select p q (a ∷ as') = ground (arith, affects-select p q as')

  pub affects-take :
      (p : A → Bool) (n : ℕ) (as' : List A) → affects p as' ≡ false → affects p (take n as') ≡ false
  unfolding affects
  affects-take p zero as' h = refl
  affects-take p (suc n) [] h = refl
  affects-take p (suc n) (a ∷ as') h = ground (arith, affects-take p n as')

  pub affects-first :
      (p q : A → Bool) (as' : List A) (a : A)
      → affects p as' ≡ false
      → first q as' ≡ some a
      → p a ≡ false
  unfolding affects first
  affects-first p q [] a h e = ground (arith, e)
  affects-first p q (b ∷ as') a h e = ground (arith, affects-first p q as' a)

  -- An update whose new rows meet the condition no more often than the old ones.
  pub affects-update :
      (p q : A → Bool) (f : A → A) (as' : List A)
      → ((a : A) → p a ≡ false → q a ≡ true → p (f a) ≡ false)
      → affects p as' ≡ false
      → affects p (update q f as') ≡ false
  unfolding affects update
  affects-update p q f [] h n = refl
  affects-update p q f (a ∷ as') h n = ground (arith, h a, affects-update p q f as' h)

  pub affects-append :
      (p : A → Bool) (as' bs : List A) → affects p (as' ++ bs) ≡ (affects p as' || affects p bs)
  unfolding affects
  affects-append p [] bs = refl
  affects-append p (a ∷ as') bs = ground (arith, affects-append p as' bs)

  -- An update that does not touch what the condition reads.
  pub affects-update_same :
      (p q : A → Bool) (f : A → A) (as' : List A)
      → ((a : A) → p (f a) ≡ p a)
      → affects p (update q f as') ≡ affects p as'
  unfolding affects update
  affects-update_same p q f [] h = refl
  affects-update_same p q f (a ∷ as') h = ground (arith, h a, affects-update_same p q f as' h)

  -- An update of all rows that meet the condition, after which they do not.
  pub affects-update_undone :
      (p q : A → Bool) (f : A → A) (as' : List A)
      → ((a : A) → q a ≡ false → p a ≡ false)
      → ((a : A) → p (f a) ≡ false)
      → affects p (update q f as') ≡ false
  unfolding affects update
  affects-update_undone p q f [] h g = refl
  affects-update_undone p q f (a ∷ as') h g =
      ground (arith, h a, g a, affects-update_undone p q f as' h g)

  pub affects_mono :
      (p q : A → Bool) (as' : List A)
      → ((a : A) → p a ≡ true → q a ≡ true)
      → affects p as' ≡ true
      → affects q as' ≡ true
  unfolding affects
  affects_mono p q [] h e = e
  affects_mono p q (a ∷ as') h e = ground (arith, h a, affects_mono p q as' h)

  -- `COUNT(*) … WHERE p`
  unfoldable pub count : (A → Bool) → List A → ℕ
  count p [] = 0
  count p (a ∷ as') = let rest = count p as' in if p a then suc rest else rest

  pub update_none :
      (p : A → Bool) (f : A → A) (as' : List A) → affects p as' ≡ false → update p f as' ≡ as'
  unfolding update affects
  update_none p f [] e = refl
  update_none p f (a ∷ as') e = ground (arith, update_none p f as')

  -- The first row of a query is in the table and meets the condition.
  pub first-affects :
      (p q : A → Bool) (as' : List A) (a : A)
      → first p as' ≡ some a
      → q a ≡ true
      → affects q as' ≡ true
  unfolding first affects
  first-affects p q [] a e h = ground (arith, e)
  first-affects p q (b ∷ as') a e h = ground (arith, e, first-affects p q as' a)

  pub first-update :
      (p q : A → Bool) (f : A → A) (as' : List A)
      → ((a : A) → p (f a) ≡ p a)
      → first p (update q f as')
        ≡ elim (first p as') [ none ↦ none | some a ↦ some (if q a then f a else a) ]
  unfolding first update
  first-update p q f [] h = refl
  first-update p q f (a ∷ as') h = ground (arith, h a, first-update p q f as' h)

  pub first-holds : (p : A → Bool) (as' : List A) (a : A) → first p as' ≡ some a → p a ≡ true
  unfolding first
  first-holds p [] a e = ground (arith, e)
  first-holds p (b ∷ as') a e = ground (arith, e, first-holds p as' a)

  pub first-append_none :
      (p : A → Bool) (as' bs : List A) → affects p as' ≡ false → first p (as' ++ bs) ≡ first p bs
  unfolding affects first
  first-append_none p [] bs h = refl
  first-append_none p (a ∷ as') bs h = ground (arith, first-append_none p as' bs)
