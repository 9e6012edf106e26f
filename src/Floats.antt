-- ===== src/Floats.antt =====
-- Python's `float`, as an instance argument: all that the code does with one. `decimal m k` is the
-- literal m / 10 ^ k. Nothing is assumed of the operations; where a theorem needs a law of IEEE
-- comparisons or arithmetic it takes the record `IsOrdered` below, which NaN does not break.
pub mod Fixed
use stock_advisor.Prelude.{ℕ, ◌≡◌, Bool, true, false, arith, if◌then◌else◌}
use stock_advisor.Prelude.Int.{ℤ, pos, negsuc}

pub record Double (F : Type 0) : Type 0 where
  pub of_int : ℤ → F
  pub decimal : ℤ → ℕ → F
  pub add : F → F → F
  pub sub : F → F → F
  pub mul : F → F → F
  pub div : F → F → F
  pub floor_div : F → F → F
  pub negate : F → F
  pub lt : F → F → Bool
  pub le : F → F → Bool
  pub eq : F → F → Bool
  pub truncate : F → ℤ
  pub round : F → ℕ → F

module _ {F : Type 0} ⦃d : Double F⦄ where
  infixl 65 ◌⊕◌ ◌⊖◌
  infixl 70 ◌⊗◌ ◌⊘◌
  infix 50 ◌<?◌ ◌≤?◌
  abbrev pub ◌⊕◌ : F → F → F
  x ⊕ y = d.add x y

  abbrev pub ◌⊖◌ : F → F → F
  x ⊖ y = d.sub x y

  abbrev pub ◌⊗◌ : F → F → F
  x ⊗ y = d.mul x y

  abbrev pub ◌⊘◌ : F → F → F
  x ⊘ y = d.div x y

  -- `x < y` and `x <= y`; the code's `x > y` is `y <? x`
  abbrev pub ◌<?◌ : F → F → Bool
  x <? y = d.lt x y

  abbrev pub ◌≤?◌ : F → F → Bool
  x ≤? y = d.le x y

  abbrev pub int : ℤ → F
  int = d.of_int

  -- the literals 0, n and -n
  abbrev pub num : ℕ → F
  num n = d.of_int (pos n)

  abbrev pub nought : F
  nought = d.of_int (pos 0)

  -- `max(a, b)` and `min(a, b)`: Python keeps the first of two that compare equal.
  abbrev pub max_f : F → F → F
  max_f a b = if a <? b then b else a

  abbrev pub min_f : F → F → F
  min_f a b = if b <? a then b else a

  -- A number in a condition is true unless it is zero.
  abbrev pub truthy : F → Bool
  truthy x = if d.eq x nought then false else true

-- What IEEE arithmetic grants to numbers that compare. A comparison that is true has no NaN in it.
pub record IsOrdered (F : Type 0) ⦃d : Double F⦄ : Type 0 where
  pub le_trans : (x y z : F) → d.le x y ≡ true → d.le y z ≡ true → d.le x z ≡ true
  pub le_of_lt : (x y : F) → d.lt x y ≡ true → d.le x y ≡ true
  pub not-lt_of_le : (x y : F) → d.le x y ≡ true → d.lt y x ≡ false
