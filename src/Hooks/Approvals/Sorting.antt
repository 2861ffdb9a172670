-- ===== src/Hooks/Approvals/Sorting.antt =====
-- Insertion sort by a number, which stands for `sort.Slice` by time.
use mathlib.Core.Logic.{◌⊎◌, inl, inr}
use terminal_x.Common.{ℕ, ◌≡◌, List, [], ◌∷◌, ltb, if◌then◌else◌, Bool-cases}

-- `a` is an item of the list.
abbrev pub In : {A : Type 0} → A → List A → Type 0
In a [] = ⊥
In a (b ∷ bs) = (b ≡ a) ⊎ In a bs

module _ {A : Type 0} (rank : A → ℕ) where
  unfoldable pub place : A → List A → List A
  place a [] = a ∷ []
  place a (b ∷ bs) = if ltb (rank b) (rank a) then b ∷ place a bs else a ∷ b ∷ bs

  unfoldable pub sort_by : List A → List A
  unfolding place
  sort_by [] = []
  sort_by (a ∷ as') = place a (sort_by as')

  place-In : (x a : A) (bs : List A) → (a ≡ x) ⊎ In x bs → In x (place a bs)
  unfolding place
  place-In x a [] h = h
  place-In x a (b ∷ bs) h = elim (Bool-cases (ltb (rank b) (rank a))) [
    | inl t ↦ rw t (elim h [
      | inl e ↦ inr (place-In x a bs (inl e))
      | inr (inl e) ↦ inl e
      | inr (inr i) ↦ inr (place-In x a bs (inr i))
    ])
    | inr t ↦ rw t h
  ]

  In-place : (x a : A) (bs : List A) → In x (place a bs) → (a ≡ x) ⊎ In x bs
  unfolding place
  In-place x a [] h = h
  In-place x a (b ∷ bs) h = elim (Bool-cases (ltb (rank b) (rank a))) [
    | inl t ↦ elim (rw t at h) [
      | inl e ↦ inr (inl e)
      | inr i ↦ elim (In-place x a bs i) [ inl e ↦ inl e | inr j ↦ inr (inr j) ]
    ]
    | inr t ↦ rw t at h
  ]

  -- Sorting keeps the items.
  pub sort_by-In : (x : A) (as' : List A) → In x as' → In x (sort_by as')
  unfolding sort_by
  sort_by-In x [] h = h
  sort_by-In x (a ∷ as') h =
      place-In x a (sort_by as') (elim h [ inl e ↦ inl e | inr i ↦ inr (sort_by-In x as' i) ])

  pub In-sort_by : (x : A) (as' : List A) → In x (sort_by as') → In x as'
  unfolding sort_by
  In-sort_by x [] h = h
  In-sort_by x (a ∷ as') h = elim (In-place x a (sort_by as') h) [
    | inl e ↦ inl e
    | inr i ↦ inr (In-sort_by x as' i)
  ]
