-- ===== src/Portfolio/Trades/Lookup.antt =====
-- What a manual trade does to the position in each ticker, and when it is refused.
use stock_advisor.Prelude.{
  ◌≡◌, arith, refl, String, List, some, ◌++◌, if◌then◌else◌, ◌∷◌, str_eq, [], eq_iff, none, Option,
  Option-cases, inl, inr, ◌↔◌, false,
}
use stock_advisor.Portfolio.Holding.{Holding, held, update_first, without}
use stock_advisor.Floats.{Double, ◌⊖◌, ◌≤?◌, nought, ◌<?◌, ◌⊕◌, ◌⊗◌, ◌⊘◌}
use stock_advisor.Portfolio.Trades.{
  new_holding, reduce, apply_buy, apply_sell, enlarge, returned, average_price,
}

module _ {F : Type 0} where
  pub held-append_one :
      (j : String) (h : Holding F) (hs : List (Holding F))
      → held j (hs ++ (h ∷ []))
        ≡ elim (held j hs) [ some g ↦ some g | none ↦ if str_eq h.ticker j then some h else none ]
  unfolding held
  held-append_one j h [] = refl
  held-append_one j h (g ∷ hs) = ground (arith, held-append_one j h hs)

  -- A function that keeps the ticker changes what is found under that ticker alone.
  pub held-update_first :
      (t j : String) (f : Holding F → Holding F) (hs : List (Holding F))
      → ((h : Holding F) → (f h).ticker ≡ h.ticker)
      → held j (update_first t f hs)
        ≡ elim (held j hs) [ some h ↦ some (if str_eq t j then f h else h) | none ↦ none ]
  unfolding held update_first
  held-update_first t j f [] keep = refl
  held-update_first t j f (h ∷ hs) keep = ground (
    arith,
    keep h,
    eq_iff h.ticker t,
    eq_iff h.ticker j,
    eq_iff t j,
    held-update_first t j f hs keep,
  )

  pub held-without :
      (t j : String) (hs : List (Holding F))
      → held j (without t hs) ≡ (if str_eq t j then none else held j hs)
  unfolding held without
  held-without t j [] = ground arith
  held-without t j (h ∷ hs) =
      ground (arith, eq_iff h.ticker t, eq_iff h.ticker j, eq_iff t j, held-without t j hs)

module _ {F : Type 0} ⦃d : Double F⦄ where
  -- What the position in the traded ticker is after a buy: a first one at the price that was paid, or
  -- one of both quantities at the average of what they cost.
  abbrev pub bought : F → F → String → Option (Holding F) → Option (Holding F)
  bought q price t none = some (record {
    ticker = t;
    name = some t;
    quantity = q;
    buy_price = price;
    current_price = some price;
    sector = some "Unknown";
  })
  bought q price t (some h) = some (record h {
    quantity = h.quantity ⊕ q;
    buy_price = (h.quantity ⊗ h.buy_price ⊕ q ⊗ price) ⊘ (h.quantity ⊕ q);
  })

  -- What it is after a sale: the quantity is taken off, and the position gone if nothing is left.
  abbrev pub sold : F → Option (Holding F) → Option (Holding F)
  sold q none = none
  sold q (some h) =
      if (h.quantity ⊖ q) ≤? nought then none else some (record h { quantity = h.quantity ⊖ q })

  -- After a buy that succeeds a ticker that was not held has the bought quantity at the price that
  -- was paid, its own text as name and the sector "Unknown"; a position that was held has both
  -- quantities together, at the average of their prices by quantity, and its other fields as
  -- before; all other positions are as before.
  pub held-apply_buy :
      (hs : List (Holding F)) (t : String) (q p : F) (out : List (Holding F)) (j : String)
      → apply_buy hs t q p ≡ returned out
      → held j out ≡ (if str_eq t j then bought q p t (held t hs) else held j hs)
  unfolding apply_buy enlarge new_holding average_price
  held-apply_buy hs t q p out j e = ground (
    arith,
    eq_iff t j,
    held-append_one j (new_holding t q p) hs,
    held-update_first t j (enlarge q p) hs (λ h. refl),
  )

  -- After a sale that succeeds the position in its ticker has the sold quantity taken off, which
  -- enlarges it where that quantity is negative, or it is gone where what is left is at most 0;
  -- its other fields and all other positions are as before.
  pub held-apply_sell :
      (hs : List (Holding F)) (t : String) (q : F) (out : List (Holding F)) (j : String)
      → apply_sell hs t q ≡ returned out
      → held j out ≡ (if str_eq t j then sold q (held t hs) else held j hs)
  unfolding apply_sell reduce
  held-apply_sell hs t q out j e =
      let left = update_first t (reduce q) hs in
      ground
        (arith, eq_iff t j, held-update_first t j (reduce q) hs (λ h. refl), held-without t j left)

  -- A sale succeeds exactly when the ticker is held, in a quantity that is not below the one sold.
  pub apply_sell-returned_iff :
      (hs : List (Holding F)) (t : String) (q : F)
      → ((out : List (Holding F)) × (apply_sell hs t q ≡ returned out))
        ↔ ((h : Holding F) × (held t hs ≡ some h) × ((h.quantity <? q) ≡ false))
  unfolding apply_sell
  apply_sell-returned_iff hs t q = (
    λ (out, e). elim (Option-cases (held t hs)) [
      | inl n ↦ absurd (ground arith)
      | inr (h, s) ↦ (h, s, ground arith)
    ],
    λ (h, s, b).
        let left = update_first t (reduce q) hs in
        (if (h.quantity ⊖ q) ≤? nought then without t left else left, ground arith),
  )
