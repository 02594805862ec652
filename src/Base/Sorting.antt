-- ===== src/Base/Sorting.antt =====
-- `sort.Ints`, `sort.Strings`, `slices.Sort`: insertion sort. Their results do not depend on the
-- algorithm, since equal elements cannot be told apart.
use mathlib.Core.List.{List, [], ◌∷◌}
use mathlib.Core.Bool.{Bool, true, false}
use Prim.Native.Nat.{Ordering}
use Prim.Native.String.{String, compare}
use native.Mathlib.Omega.{arith}
use sonarr_remediator.Base.Lists.{All}
use sonarr_remediator.Base.Int.{ℤ, ltb_ℤ}
use sonarr_remediator.Base.Tests.{if◌then◌else◌}

module _ {ℓ} {A : Type ℓ} (less : A → A → Bool) where
  unfoldable pub insert_sorted : A → List A → List A
  insert_sorted x [] = x ∷ []
  insert_sorted x (y ∷ ys) = if less y x then y ∷ insert_sorted x ys else x ∷ y ∷ ys

  unfoldable pub sort : List A → List A
  unfolding insert_sorted
  sort [] = []
  sort (x ∷ xs) = insert_sorted x (sort xs)

  insert_sorted-All {κ} :
      (P : A → Type κ) (x : A) (ys : List A) → P x → All P ys → All P (insert_sorted x ys)
  unfolding insert_sorted
  insert_sorted-All P x [] h k = (h, tt)
  insert_sorted-All P x (y ∷ ys) h k = ground (arith, insert_sorted-All P x ys h k.1)

  pub sort-All {κ} : (P : A → Type κ) (xs : List A) → All P xs → All P (sort xs)
  unfolding sort
  sort-All P [] h = tt
  sort-All P (x ∷ xs) h = insert_sorted-All P x (sort xs) h.0 (sort-All P xs h.1)

-- `sort.Ints`.
unfoldable pub sort_ints : List ℤ → List ℤ
sort_ints = sort ltb_ℤ

-- The order of Go's `<` on texts.
unfoldable pub string_less : String → String → Bool
string_less s t = elim (compare s t) [ Ordering.lt ↦ true | _ ↦ false ]

unfoldable pub sort_strings : List String → List String
unfolding string_less
sort_strings = sort string_less

pub sort_ints-All {κ} : (P : ℤ → Type κ) (xs : List ℤ) → All P xs → All P (sort_ints xs)
unfolding sort_ints
sort_ints-All P xs h = sort-All ltb_ℤ P xs h
