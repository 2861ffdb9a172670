-- ===== src/Common/Maps.antt =====
-- Go maps as association lists. Iteration follows the list; Go leaves its order open, so no result
-- that depends on it is stated.
use terminal_x.Common.Tests.{Key, ◌==◌, if◌then◌else◌}
use mathlib.Core.Path.{◌≡◌, refl}
use mathlib.Core.List.{List, [], ◌∷◌}
use mathlib.Core.Option.{Option, none, some}
use native.Mathlib.Omega.{arith}

module _ {ℓ κ} {K : Type ℓ} {V : Type κ} ⦃e : Key K⦄ where
  unfoldable pub lookup : K → List (K × V) → Option V
  lookup k [] = none
  lookup k ((j, v) ∷ m) = if j == k then some v else lookup k m

  unfoldable pub insert : K → V → List (K × V) → List (K × V)
  insert k v [] = (k, v) ∷ []
  insert k v ((j, w) ∷ m) = if j == k then (k, v) ∷ m else (j, w) ∷ insert k v m

  unfoldable pub delete : K → List (K × V) → List (K × V)
  delete k [] = []
  delete k ((j, w) ∷ m) = if j == k then delete k m else (j, w) ∷ delete k m

  -- Changes the value of a key that is there.
  unfoldable pub adjust : K → (V → V) → List (K × V) → List (K × V)
  adjust k f [] = []
  adjust k f ((j, w) ∷ m) = if j == k then (j, f w) ∷ m else (j, w) ∷ adjust k f m

  pub lookup-insert :
      (j k : K) (v : V) (m : List (K × V))
      → lookup j (insert k v m) ≡ (if k == j then some v else lookup j m)
  unfolding lookup insert
  lookup-insert j k v [] = refl
  lookup-insert j k v ((i, w) ∷ m) =
      ground (arith, e.agrees_iff k j, e.agrees_iff i k, e.agrees_iff i j, lookup-insert j k v m)

  pub lookup-delete :
      (j k : K) (m : List (K × V)) → lookup j (delete k m) ≡ (if k == j then none else lookup j m)
  unfolding lookup delete
  lookup-delete j k [] = ground arith
  lookup-delete j k ((i, w) ∷ m) =
      ground (arith, e.agrees_iff k j, e.agrees_iff i k, e.agrees_iff i j, lookup-delete j k m)

  pub lookup-adjust :
      (j k : K) (f : V → V) (m : List (K × V))
      → lookup j (adjust k f m)
        ≡ (if k == j then elim (lookup j m) [ none ↦ none | some v ↦ some (f v) ] else lookup j m)
  unfolding lookup adjust
  lookup-adjust j k f [] = ground arith
  lookup-adjust j k f ((i, w) ∷ m) =
      ground (arith, e.agrees_iff k j, e.agrees_iff i k, e.agrees_iff i j, lookup-adjust j k f m)

  -- No key occurs twice.
  abbrev pub IsMap : List (K × V) → Type κ
  IsMap [] = Unit
  IsMap ((k, v) ∷ m) = (lookup k m ≡ none) × IsMap m

  pub insert-IsMap : (k : K) (v : V) (m : List (K × V)) → IsMap m → IsMap (insert k v m)
  unfolding insert
  insert-IsMap k v [] h = (unfold lookup in refl, tt)
  insert-IsMap k v ((i, w) ∷ m) h =
      ground
        (arith, e.agrees_iff i k, e.agrees_iff k i, lookup-insert i k v m, insert-IsMap k v m h.1)

  pub delete-IsMap : (k : K) (m : List (K × V)) → IsMap m → IsMap (delete k m)
  unfolding delete
  delete-IsMap k [] h = tt
  delete-IsMap k ((i, w) ∷ m) h = ground (arith, lookup-delete i k m, delete-IsMap k m h.1)

  pub adjust-IsMap : (k : K) (f : V → V) (m : List (K × V)) → IsMap m → IsMap (adjust k f m)
  unfolding adjust
  adjust-IsMap k f [] h = tt
  adjust-IsMap k f ((i, w) ∷ m) h =
      ground
        (arith, e.agrees_iff i k, e.agrees_iff k i, lookup-adjust i k f m, adjust-IsMap k f m h.1)

  -- Every value changed, by its key.
  unfoldable pub map_entries : (K → V → V) → List (K × V) → List (K × V)
  map_entries f [] = []
  map_entries f ((j, v) ∷ m) = (j, f j v) ∷ map_entries f m

  pub lookup-map_entries :
      (k : K) (f : K → V → V) (m : List (K × V))
      → lookup k (map_entries f m) ≡ elim (lookup k m) [ none ↦ none | some v ↦ some (f k v) ]
  unfolding lookup map_entries
  lookup-map_entries k f [] = refl
  lookup-map_entries k f ((i, v) ∷ m) = ground (arith, e.agrees_iff i k, lookup-map_entries k f m)
