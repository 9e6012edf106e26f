-- ===== src/MarketData/Tests.antt =====
-- Runs of the live states, and their theorems at concrete inputs.
use stock_advisor.Floats.Fixed.{Fixed, fixed_double}
use stock_advisor.Prelude.{
  ℕ, List, Option, String, [], arith, eq_iff, false, map, none, not, refl, some, true, ◌↔◌, ◌∷◌,
  ◌≡◌, ◌≢◌, ◌⊎◌,
}
use stock_advisor.MarketData.Loading.{
  Financials, Warmup, full_api_warmup, snapshot_rsi, warmup_price,
}
use stock_advisor.MarketData.Loading.Readiness.{IsPositive, full_api_warmup-is_ready}
use stock_advisor.MarketData.Registry.{
  LiveData, OpenMarkets, States, is_admitted, loaded_entry, new_tickers, normalize_kr_ticker,
  normalized, on_realtime_data, register_batch, register_each, register_ticker,
  should_skip_by_market_hours, strip_left, strip_right, zeros,
}
use stock_advisor.Tickers.State.{TickerState, fresh_state, is_ready, long_ema}
use stock_advisor.Markets.{all_digits, is_kr, isdigit}
use stock_advisor.Prelude.Dict.{insert, lookup}
use stock_advisor.MarketData.Registry.Entries.{is_entered, on_realtime_data-fails_iff}
use stock_advisor.Floats.{nought, num}
use stock_advisor.Prelude.Int.{◌*ℤ◌, ◌+ℤ◌, ◌-ℤ◌}

short_code : normalize_kr_ticker " 5930 " ≡ "005930"
unfolding normalize_kr_ticker strip_left strip_right zeros is_kr isdigit all_digits
short_code = refl

abbrev live : TickerState Fixed
unfolding fresh_state
live = record (fresh_state "AAPL") {
  current_price = num 110;
  rsi = num 50;
  ema = (60, num 100) ∷ [];
}

-- The average of 60 days is 100, which compares as a number does.
comparable :
    (v : Fixed) → long_ema live ≡ some v → fixed_double.lt nought v ≡ not (fixed_double.le v nought)
unfolding ◌*ℤ◌ ◌+ℤ◌ ◌-ℤ◌
comparable v e = ground arith

abbrev sixty : List Fixed
sixty =
    map (λ (n : ℕ). num 100)
      (1 ∷ 2 ∷ 3 ∷ 4 ∷ 5 ∷ 6 ∷ 7 ∷ 8 ∷ 9 ∷ 10 ∷ 11 ∷ 12 ∷ 13 ∷ 14 ∷ 15 ∷ 16 ∷ 17 ∷ 18 ∷ 19 ∷ 20 ∷ 21
        ∷ 22 ∷ 23 ∷ 24 ∷ 25 ∷ 26 ∷ 27 ∷ 28 ∷ 29 ∷ 30 ∷ 31 ∷ 32 ∷ 33 ∷ 34 ∷ 35 ∷ 36 ∷ 37 ∷ 38 ∷ 39
        ∷ 40 ∷ 41 ∷ 42 ∷ 43 ∷ 44 ∷ 45 ∷ 46 ∷ 47 ∷ 48 ∷ 49 ∷ 50 ∷ 51 ∷ 52 ∷ 53 ∷ 54 ∷ 55 ∷ 56 ∷ 57
        ∷ 58 ∷ 59 ∷ [])

abbrev world : Warmup Fixed
world = record {
  basic_price = some (num 101);
  history = num 99 ∷ sixty;
  ewm = λ n. num 100;
  last_rsi = some (num 40);
  dcf_val = num 0;
}

price_is_above : IsPositive (warmup_price world (num 99))
unfolding warmup_price ◌*ℤ◌ ◌+ℤ◌ ◌-ℤ◌
price_is_above = record { is_truthy = refl; above = refl; not_below = refl }

rsi_is_above : IsPositive (snapshot_rsi world)
unfolding snapshot_rsi ◌*ℤ◌ ◌+ℤ◌ ◌-ℤ◌
rsi_is_above = record { is_truthy = refl; above = refl; not_below = refl }

ewm_is_above : (n : ℕ) → IsPositive (fixed_double.round (world.ewm n) 2)
unfolding ◌*ℤ◌ ◌+ℤ◌ ◌-ℤ◌
ewm_is_above n = record { is_truthy = refl; above = refl; not_below = refl }

full_api_warmup-is_ready_example : is_ready (full_api_warmup world (fresh_state "AAPL")) ≡ true
unfolding fresh_state
full_api_warmup-is_ready_example =
    full_api_warmup-is_ready world (fresh_state "AAPL") (num 99) sixty refl refl (ground arith)
      price_is_above rsi_is_above ewm_is_above

abbrev us_open : OpenMarkets
us_open = record { is_kr_open = false; is_us_open = true }

abbrev closed : OpenMarkets
closed = record { is_kr_open = false; is_us_open = false }

abbrev no_rows : String → Option (Financials Fixed)
no_rows t = none

abbrev watched : States Fixed
watched = ("AAPL", live) ∷ []

msft_entered : is_entered us_open ("MSFT" ∷ []) watched "MSFT" ≡ true
unfolding is_entered normalized normalize_kr_ticker strip_left strip_right zeros is_kr isdigit
    all_digits lookup is_admitted
msft_entered = refl

msft_found :
    lookup "MSFT" (register_batch us_open no_rows ("MSFT" ∷ []) watched).0
    ≡ some (fresh_state "MSFT")
unfolding register_batch register_each new_tickers normalized normalize_kr_ticker strip_left
    strip_right zeros is_kr isdigit all_digits lookup insert is_admitted loaded_entry
msft_found = refl

abbrev tick : LiveData Fixed
tick = record {
  price = some (num 70);
  opened = none;
  high = none;
  low = none;
  rate = none;
  live_volume = none;
}

not_empty : ◌≢◌ {A = String} "5930" ""
not_empty = ground (arith, eq_iff "5930" "")

-- The message of a Korean stock under its short code, with no market open.
short_code_fails : on_realtime_data closed no_rows "5930" tick watched ≡ none
unfolding on_realtime_data register_ticker register_batch register_each new_tickers normalized
    normalize_kr_ticker strip_left strip_right zeros is_kr isdigit all_digits lookup insert
    is_admitted loaded_entry
short_code_fails = refl

on_realtime_data-fails_iff_example :
    (on_realtime_data closed no_rows "5930" tick watched ≡ none) ↔ (
      (lookup "5930" watched ≡ none)
      × ((normalize_kr_ticker "5930" ≢ "5930")
          ⊎ (should_skip_by_market_hours closed "5930" ≡ true)))
on_realtime_data-fails_iff_example =
    on_realtime_data-fails_iff closed no_rows "5930" tick watched not_empty
