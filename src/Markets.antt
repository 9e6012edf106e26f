-- ===== src/Markets.antt =====
-- utils/market.py: which market a ticker belongs to. Tickers are ASCII texts, so `str.isdigit` is a
-- test for the digits 0 to 9.
use stock_advisor.Prelude.{
  ℕ, Bool, true, false, not, ◌&&◌, List, [], ◌∷◌, leb, codes, if◌then◌else◌, String, ◌≡◌, refl,
}
use stock_advisor.Floats.{Double, ◌⊖◌, ◌⊗◌, ◌⊘◌, ◌≤?◌, num, nought}

abbrev pub is_digit : ℕ → Bool
is_digit c = leb b'0' c && leb c b'9'

unfoldable pub all_digits : List ℕ → Bool
all_digits [] = true
all_digits (c ∷ cs) = is_digit c && all_digits cs

-- `str.isdigit`: false on the empty text
unfoldable pub isdigit : List ℕ → Bool
unfolding all_digits
isdigit [] = false
isdigit (c ∷ cs) = all_digits (c ∷ cs)

unfoldable pub is_kr : String → Bool
unfolding isdigit
is_kr ticker = isdigit (codes ticker)

unfoldable pub is_us : String → Bool
unfolding isdigit
is_us ticker = not (isdigit (codes ticker))

unfoldable pub market_type : String → String
market_type ticker = if is_kr ticker then "KR" else "US"

unfoldable pub profit_pct : {F : Type 0} ⦃d : Double F⦄ → F → F → ℕ → F
profit_pct ⦃d⦄ current invested decimals =
    if invested ≤? nought
    then nought
    else d.round ((current ⊖ invested) ⊘ invested ⊗ num 100) decimals

samsung : is_kr "005930" ≡ true
unfolding is_kr
samsung = refl
