-- ===== src/Strategy/Universe/Members.antt =====
-- What a list without repetitions holds.
-- A text is in a joined list if it is in one of the two.
use stock_advisor.Prelude.{
  ◌&&◌, ◌++◌, Bool-cases, List, String, [], arith, eq_iff, member, not, refl, ◌||◌, ◌∷◌, ◌≡◌,
  length, ◌≤◌,
}
use stock_advisor.Strategy.Universe.{dedup_from, dedup}

pub member-append :
    (t : String) (xs ys : List String) → member t (xs ++ ys) ≡ (member t xs || member t ys)
member-append t [] ys = refl
member-append t (x ∷ xs) ys = ground (arith, member-append t xs ys)

pub member-dedup_from :
    (t : String) (seen xs : List String)
    → member t (dedup_from seen xs) ≡ (member t xs && not (member t seen))
unfolding dedup_from
member-dedup_from t seen [] = refl
member-dedup_from t seen (x ∷ xs) = ground (
  arith,
  Bool-cases (member x seen),
  eq_iff x t,
  member-dedup_from t seen xs,
  member-dedup_from t (x ∷ seen) xs,
)

pub member-dedup : (t : String) (xs : List String) → member t (dedup xs) ≡ member t xs
unfolding dedup
member-dedup t xs = ground (arith, member-dedup_from t [] xs)

length-dedup_from : (seen xs : List String) → length (dedup_from seen xs) ≤ length xs
unfolding dedup_from
length-dedup_from seen [] = omega arith
length-dedup_from seen (x ∷ xs) =
    ground (
      arith,
      Bool-cases (member x seen),
      length-dedup_from seen xs,
      length-dedup_from (x ∷ seen) xs,
    )

pub length-dedup : (xs : List String) → length (dedup xs) ≤ length xs
unfolding dedup
length-dedup xs = length-dedup_from [] xs
