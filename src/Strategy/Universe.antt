-- ===== src/Strategy/Universe.antt =====
-- The tickers that are watched: `_norm_ticker` and `_update_target_universe` of
-- services/strategy/trading_strategy_service.py, which services/base/scheduler_service.py repeats, and
-- `_get_top10_market_cap_tickers`. A Python set stands as a list without repetitions. Tickers are ASCII
-- texts; the rankings and the portfolio are arguments.
pub mod Members
use stock_advisor.Prelude.{
  ◌&&◌, ◌++◌, ◌-◌, ◌==◌, Bool, List, Option, String, [], codes, false, filter, if◌then◌else◌, leb,
  length, ltb, map, member, none, not, some, str_eq, suc, take, true, zero, ◌||◌, ℕ, ◌∷◌,
}
use stock_advisor.Floats.{◌<?◌, Double, num, ◌⊖◌}
use stock_advisor.MarketData.Registry.{States, prune_states, strip_left, strip_right, zeros}
use stock_advisor.Markets.{is_kr}
use Prim.Native.Char.{Char, code}
use stock_advisor.Portfolio.Sync.{isalpha}

abbrev letters : String
letters = "ABCDEFGHIJKLMNOPQRSTUVWXYZ"

abbrev char_at : ℕ → Char → String → Char
char_at n default String.[] = default
char_at zero default (String.◌∷◌ c s) = c
char_at (suc n) default (String.◌∷◌ c s) = char_at n default s

abbrev is_lower : ℕ → Bool
is_lower c = leb b'a' c && leb c b'z'

-- `str.upper`
unfoldable pub upper : String → String
upper String.[] = String.[]
upper (String.◌∷◌ c s) =
    String.◌∷◌ (if is_lower (code c) then char_at (code c - b'a') c letters else c) (upper s)

-- `(text or "").strip().upper()`
unfoldable pub clean : Option String → String
clean none = ""
clean (some t) = upper (strip_left (strip_right t))

-- `_norm_ticker`
unfoldable pub norm_ticker : Option String → String
norm_ticker ticker =
    let t = clean ticker in
    let n = length (codes t) in if is_kr t && ltb n 6 then zeros (6 - n) t else t

unfoldable pub is_kr_code : String → Bool
is_kr_code t = is_kr t && length (codes t) == 6

-- `list(dict.fromkeys(...))`: the first of each, in order.
unfoldable pub dedup_from : List String → List String → List String
dedup_from seen [] = []
dedup_from seen (t ∷ ts) = elim (member t seen) [
  | true ↦ dedup_from seen ts
  | false ↦ t ∷ dedup_from (t ∷ seen) ts
]

unfoldable pub dedup : List String → List String
unfolding dedup_from
dedup ts = dedup_from [] ts

-- The rankings by market value, at most 100 each, and the tickers of the portfolio.
pub record Rankings : Type 0 where
  pub top_krx : List String
  pub top_us : List String
  pub held_tickers : List (Option String)

unfoldable pub kr_holdings : Rankings → List String
kr_holdings r = dedup (filter is_kr_code (map norm_ticker r.held_tickers))

unfoldable pub us_holdings : Rankings → List String
us_holdings r = dedup (filter isalpha (map norm_ticker r.held_tickers))

unfoldable pub all_kr : Rankings → List String
all_kr r = dedup (filter is_kr_code (map (λ t. norm_ticker (some t)) r.top_krx) ++ kr_holdings r)

unfoldable pub all_us : Rankings → List String
all_us r = dedup (filter isalpha (map (λ t. norm_ticker (some t)) r.top_us) ++ us_holdings r)

unfoldable pub target_universe : Rankings → List String
target_universe r = dedup (all_kr r ++ all_us r)

-- `_top10_cache`
pub record TopCache (F : Type 0) : Type 0 where
  pub timestamp : F
  pub tickers : List String

module _ {F : Type 0} ⦃d : Double F⦄ where
  -- `_update_target_universe`: the universe, and the live states without the others.
  unfoldable pub update_target_universe : Rankings → States F → List String × States F
  update_target_universe r states =
      let universe = target_universe r in (universe, prune_states universe states)

  -- `_get_top10_market_cap_tickers`, where `none` is a download that raises; six hours are 21600
  -- seconds.
  unfoldable pub get_top10_market_cap_tickers :
      F → Option (List String × List String) → TopCache F → List String × TopCache F
  get_top10_market_cap_tickers now download cache =
      if (now ⊖ cache.timestamp) <? num 21600
      then (cache.tickers, cache)
      else (let top10 : List String = elim download [
        | none ↦ cache.tickers
        | some (kr, us) ↦ dedup (take 10 kr ++ take 10 us)
      ] in
          (top10, record { timestamp = now; tickers = top10 }))
