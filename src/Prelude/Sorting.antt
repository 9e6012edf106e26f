-- ===== src/Prelude/Sorting.antt =====
-- Python's stable sort with `reverse=True`: the greatest first, and equal items in their order. A
-- test says which of two items has the smaller key.
use mathlib.Core.Path.{◌≡◌, refl}
use mathlib.Core.Bool.{Bool, true, false}
use mathlib.Core.List.{List, [], ◌∷◌}
use Prim.Native.Nat.{suc}
use native.Mathlib.Omega.{arith}
use stock_advisor.Prelude.Tests.{if◌then◌else◌, if_elim, if_cases}
use stock_advisor.Prelude.Lists.{length}

module _ {ℓ} {A : Type ℓ} (below : A → A → Bool) where
  unfoldable pub insert_desc : A → List A → List A
  insert_desc x [] = x ∷ []
  insert_desc x (y ∷ ys) = let rest = insert_desc x ys in if below x y then y ∷ rest else x ∷ y ∷ ys

  unfoldable pub sort_desc : List A → List A
  sort_desc [] = []
  sort_desc (x ∷ xs) = insert_desc x (sort_desc xs)

  -- No item is below the one after it.
  abbrev pub IsDescending : List A → Type 0
  IsDescending [] = Unit
  IsDescending (x ∷ []) = Unit
  IsDescending (x ∷ (y ∷ ys)) = (below x y ≡ false) × IsDescending (y ∷ ys)

  -- An item may stand before a list if it is not below the first of it.
  abbrev IsAbove : A → List A → Type 0
  IsAbove x [] = Unit
  IsAbove x (y ∷ ys) = below x y ≡ false

  cons-IsDescending : (x : A) (ys : List A) → IsAbove x ys → IsDescending ys → IsDescending (x ∷ ys)
  cons-IsDescending x [] p q = tt
  cons-IsDescending x (y ∷ ys) p q = (p, q)

  tail-IsDescending : (x : A) (ys : List A) → IsDescending (x ∷ ys) → IsAbove x ys × IsDescending ys
  tail-IsDescending x [] p = (tt, tt)
  tail-IsDescending x (y ∷ ys) p = p

  insert_desc-IsAbove :
      (x y : A) (ys : List A) → IsAbove x ys → below x y ≡ false → IsAbove x (insert_desc y ys)
  unfolding insert_desc
  insert_desc-IsAbove x y [] p q = q
  insert_desc-IsAbove x y (z ∷ ys) p q =
      let P : List A → Type 0 = IsAbove x in if_elim P (below y z) _ _ p q

  insert_desc-IsDescending :
      ((x y : A) → below x y ≡ true → below y x ≡ false)
      → (x : A) (ys : List A) → IsDescending ys
      → IsDescending (insert_desc x ys)
  unfolding insert_desc
  insert_desc-IsDescending asym x [] p = tt
  insert_desc-IsDescending asym x (y ∷ ys) p =
      let P : List A → Type 0 = IsDescending in
      let q = tail-IsDescending y ys p in
      if_cases P (below x y) _ _
        (λ e.
          cons-IsDescending y (insert_desc x ys) (insert_desc-IsAbove y x ys q.0 (asym x y e))
            (insert_desc-IsDescending asym x ys q.1))
        (λ e. cons-IsDescending x (y ∷ ys) e p)

  -- A sorted list is in order, if of two items at most one is below the other.
  pub sort_desc-IsDescending :
      ((x y : A) → below x y ≡ true → below y x ≡ false)
      → (xs : List A) → IsDescending (sort_desc xs)
  unfolding sort_desc
  sort_desc-IsDescending asym [] = tt
  sort_desc-IsDescending asym (x ∷ xs) =
      insert_desc-IsDescending asym x (sort_desc xs) (sort_desc-IsDescending asym xs)

  length-insert_desc : (x : A) (ys : List A) → length (insert_desc x ys) ≡ suc (length ys)
  unfolding insert_desc
  length-insert_desc x [] = refl
  length-insert_desc x (y ∷ ys) = ground (arith, length-insert_desc x ys)

  -- It has as many items.
  pub length-sort_desc : (xs : List A) → length (sort_desc xs) ≡ length xs
  unfolding sort_desc
  length-sort_desc [] = refl
  length-sort_desc (x ∷ xs) =
      omega (arith, length-insert_desc x (sort_desc xs), length-sort_desc xs)
