-- ===== src/Portfolio/Trades/Invariant.antt =====
-- What every manual trade keeps: no ticker twice, and no position that is empty or negative.
use stock_advisor.Prelude.{
  ◌++◌, All, List, Option-cases, String, [], arith, eq_iff, false, inl, inr, none, refl, some, ◌∷◌,
  ◌≡◌,
}
use stock_advisor.Floats.{Double, nought, ◌≤?◌}
use stock_advisor.Portfolio.Holding.{Holding, held, update_first, without}
use stock_advisor.Portfolio.Trades.{
  apply_buy, apply_sell, apply_trade_action, enlarge, new_holding, returned, reduce,
}
use stock_advisor.Portfolio.Trades.Lookup.{held-append_one, held-update_first, held-without}

module _ {F : Type 0} where
  -- No ticker stands twice in the list.
  abbrev pub IsDistinct : List (Holding F) → Type 0
  IsDistinct [] = Unit
  IsDistinct (h ∷ hs) = (held h.ticker hs ≡ none) × IsDistinct hs

  append_one-IsDistinct :
      (h : Holding F) (hs : List (Holding F))
      → IsDistinct hs
      → held h.ticker hs ≡ none
      → IsDistinct (hs ++ (h ∷ []))
  unfolding held
  append_one-IsDistinct h [] v n = (refl, tt)
  append_one-IsDistinct h (g ∷ hs) v n = ground (
    arith,
    eq_iff h.ticker g.ticker,
    eq_iff g.ticker h.ticker,
    held-append_one g.ticker h hs,
    append_one-IsDistinct h hs v.1,
  )

  update_first-IsDistinct :
      (t : String) (f : Holding F → Holding F) (hs : List (Holding F))
      → ((h : Holding F) → (f h).ticker ≡ h.ticker)
      → IsDistinct hs
      → IsDistinct (update_first t f hs)
  unfolding update_first
  update_first-IsDistinct t f [] keep v = tt
  update_first-IsDistinct t f (h ∷ hs) keep v = ground (
    arith,
    keep h,
    held-update_first t h.ticker f hs keep,
    update_first-IsDistinct t f hs keep v.1,
  )

  without-IsDistinct :
      (t : String) (hs : List (Holding F)) → IsDistinct hs → IsDistinct (without t hs)
  unfolding without
  without-IsDistinct t [] v = tt
  without-IsDistinct t (h ∷ hs) v =
      ground (arith, held-without t h.ticker hs, without-IsDistinct t hs v.1)

module _ {F : Type 0} ⦃d : Double F⦄ where
  -- Whatever the action, a trade that succeeds leaves no ticker listed twice if none was.
  pub apply_trade_action-IsDistinct :
      (hs : List (Holding F)) (t action : String) (q p : F) (out : List (Holding F))
      → IsDistinct hs
      → apply_trade_action hs t action q p ≡ returned out
      → IsDistinct out
  unfolding apply_trade_action apply_buy apply_sell new_holding enlarge reduce
  apply_trade_action-IsDistinct hs t action q p out v e = ground (
    arith,
    append_one-IsDistinct (new_holding t q p) hs v,
    update_first-IsDistinct t (enlarge q p) hs (λ h. refl) v,
    update_first-IsDistinct t (reduce q) hs (λ h. refl) v,
    without-IsDistinct t (update_first t (reduce q) hs),
  )

  -- The test by which a position counts as open.
  abbrev pub IsOpen : Holding F → Type 0
  IsOpen h = (h.quantity ≤? nought) ≡ false

  without-All-IsOpen :
      (t : String) (hs : List (Holding F)) → All IsOpen hs → All IsOpen (without t hs)
  unfolding without
  without-All-IsOpen t [] v = tt
  without-All-IsOpen t (h ∷ hs) v = ground (arith, without-All-IsOpen t hs v.1)

  without-update_first :
      (t : String) (f : Holding F → Holding F) (hs : List (Holding F))
      → ((h : Holding F) → (f h).ticker ≡ h.ticker)
      → without t (update_first t f hs) ≡ without t hs
  unfolding without update_first
  without-update_first t f [] keep = refl
  without-update_first t f (h ∷ hs) keep = ground (arith, keep h, without-update_first t f hs keep)

  update_first-All-IsOpen :
      (t : String) (f : Holding F → Holding F) (hs : List (Holding F)) (h : Holding F)
      → held t hs ≡ some h
      → IsOpen (f h)
      → All IsOpen hs
      → All IsOpen (update_first t f hs)
  unfolding held update_first
  update_first-All-IsOpen t f [] h s o v = tt
  update_first-All-IsOpen t f (g ∷ hs) h s o v = ground (arith, update_first-All-IsOpen t f hs h)

  -- A sale that succeeds leaves only open positions if there were only open ones: a position sold
  -- out is dropped.
  pub apply_sell-IsOpen :
      (hs : List (Holding F)) (t : String) (q : F) (out : List (Holding F))
      → All IsOpen hs
      → apply_sell hs t q ≡ returned out
      → All IsOpen out
  unfolding apply_sell reduce
  apply_sell-IsOpen hs t q out v e = elim (Option-cases (held t hs)) [
    | inl n ↦ absurd (ground arith)
    | inr (h, s) ↦ ground (
      arith,
      without-update_first t (reduce q) hs (λ h. refl),
      without-All-IsOpen t hs v,
      update_first-All-IsOpen t (reduce q) hs h s,
    )
  ]
