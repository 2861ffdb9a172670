-- ===== src/Session/Ring/Copy.antt =====
-- Go's `copy` of a slice into another.
use terminal_x.Common.{
  ℕ, zero, suc, ◌+◌, ◌<◌, ◌≤◌, ◌≡◌, ◌⊎◌, inr, refl, ap, List, [], ◌∷◌, length, get_or, arith,
}
use native.Mathlib.Nat.{suc-add, zero-add}

-- `copy(dst[off:], src)`: stops at the end of either.
unfoldable pub copy_at : List ℕ → ℕ → List ℕ → List ℕ
copy_at [] off src = []
copy_at (x ∷ dst) (suc off) src = x ∷ copy_at dst off src
copy_at (x ∷ dst) zero [] = x ∷ dst
copy_at (x ∷ dst) zero (y ∷ src) = y ∷ copy_at dst zero src

pub length-copy_at :
    (dst : List ℕ) (off : ℕ) (src : List ℕ) → length (copy_at dst off src) ≡ length dst
unfolding copy_at
length-copy_at [] off src = refl
length-copy_at (x ∷ dst) (suc off) src = ap suc (length-copy_at dst off src)
length-copy_at (x ∷ dst) zero [] = refl
length-copy_at (x ∷ dst) zero (y ∷ src) = ap suc (length-copy_at dst zero src)

-- Outside of what is copied nothing changes.
pub copy_at_outside :
    (dst : List ℕ) (off : ℕ) (src : List ℕ) (j : ℕ)
    → (j < off) ⊎ (off + length src ≤ j)
    → get_or (copy_at dst off src) j 0 ≡ get_or dst j 0
unfolding copy_at
copy_at_outside [] off src j h = refl
copy_at_outside (x ∷ dst) (suc off) src zero h = refl
copy_at_outside (x ∷ dst) (suc off) src (suc j) h = copy_at_outside dst off src j (omega arith)
copy_at_outside (x ∷ dst) zero [] j h = refl
copy_at_outside (x ∷ dst) zero (y ∷ src) zero h = absurd (omega arith)
copy_at_outside (x ∷ dst) zero (y ∷ src) (suc j) h =
    copy_at_outside dst zero src j (inr (omega arith))

pub copy_at_inside :
    (dst : List ℕ) (off : ℕ) (src : List ℕ) (i : ℕ)
    → i < length src
    → off + i < length dst
    → get_or (copy_at dst off src) (off + i) 0 ≡ get_or src i 0
unfolding copy_at
copy_at_inside [] off src i h k = absurd (omega arith)
copy_at_inside (x ∷ dst) (suc off) src i h k =
    rw suc-add (copy_at_inside dst off src i h (omega arith))
copy_at_inside (x ∷ dst) zero [] i h k = absurd (omega arith)
copy_at_inside (x ∷ dst) zero (y ∷ src) zero h k = refl
copy_at_inside (x ∷ dst) zero (y ∷ src) (suc i) h k =
    rw zero-add (rw zero-add at (copy_at_inside dst zero src i (omega arith) (omega arith)))
