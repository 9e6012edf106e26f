-- ===== src/MarketData/Views.antt =====
-- `build_trading_signals` and `build_watch_item` of services/market/market_data_service.py.
use stock_advisor.Prelude.{
  ◌++◌, List, Option, String, [], if◌then◌else◌, none, some, ◌∷◌, ◌≡◌, ap, refl, sym, ◌∙◌,
}
use stock_advisor.Floats.{◌<?◌, Double, int, nought, num, truthy, ◌⊖◌, ◌⊗◌, ◌⊘◌}
use stock_advisor.Prelude.Dict.{Dict}
use stock_advisor.Tickers.State.{TickerState, ema_at}
use stock_advisor.Prelude.Int.{pos}

-- The cached figures of a ticker that the signals read.
pub record Info (F : Type 0) : Type 0 where
  pub info_rsi : Option F
  pub info_price : Option F
  pub fair_value_dcf : Option F
  pub ema200 : Option F

-- An entry of a list: the ticker, its price, and the figure and the upside that it shows.
pub record SignalEntry (F : Type 0) : Type 0 where
  pub entry_ticker : String
  pub entry_price : Option F
  pub figure : F
  pub upside_pct : Option F
  pub signal_kind : String

pub record Lists (F : Type 0) : Type 0 where
  pub oversold : List (SignalEntry F)
  pub overbought : List (SignalEntry F)
  pub undervalued : List (SignalEntry F)
  pub ema200_support : List (SignalEntry F)

pub record WatchItem (F : Type 0) : Type 0 where
  pub watch_ticker : String
  pub watch_price : F
  pub change : F
  pub watch_rate : F
  pub watch_volume : F
  pub watch_rsi : F
  pub ma20 : Option F

module _ {F : Type 0} ⦃d : Double F⦄ where
  -- `abs`
  abbrev pub abs_f : F → F
  abs_f x = if x <? nought then d.negate x else x

  unfoldable pub oversold_entry : String → Info F → Option (SignalEntry F)
  oversold_entry t i = elim i.info_rsi [
    | none ↦ none
    | some rsi ↦
        if rsi <? num 30
        then some (record {
          entry_ticker = t;
          entry_price = i.info_price;
          figure = rsi;
          upside_pct = none;
          signal_kind = "BUY";
        })
        else none
  ]

  unfoldable pub overbought_entry : String → Info F → Option (SignalEntry F)
  overbought_entry t i = elim i.info_rsi [
    | none ↦ none
    | some rsi ↦
        if num 70 <? rsi
        then some (record {
          entry_ticker = t;
          entry_price = i.info_price;
          figure = rsi;
          upside_pct = none;
          signal_kind = "SELL";
        })
        else none
  ]

  -- A figure of 0 counts as missing.
  abbrev pub nonzero : Option F → Option F
  nonzero none = none
  nonzero (some x) = if truthy x then some x else none

  unfoldable pub undervalued_entry : String → Info F → Option (SignalEntry F)
  undervalued_entry t i = elim (nonzero i.fair_value_dcf) [
    | none ↦ none
    | some dcf ↦ elim (nonzero i.info_price) [
      | none ↦ none
      | some price ↦
          if price <? dcf ⊗ d.decimal (pos 8) 1
          then some (record {
            entry_ticker = t;
            entry_price = some price;
            figure = d.round dcf 2;
            upside_pct = some (d.round ((dcf ⊖ price) ⊘ price ⊗ num 100) 1);
            signal_kind = "BUY";
          })
          else none
    ]
  ]

  unfoldable pub support_entry : String → Info F → Option (SignalEntry F)
  support_entry t i = elim (nonzero i.ema200) [
    | none ↦ none
    | some ema ↦ elim (nonzero i.info_price) [
      | none ↦ none
      | some price ↦
          if abs_f (price ⊖ ema) ⊘ ema <? d.decimal (pos 2) 2
          then some (record {
            entry_ticker = t;
            entry_price = some price;
            figure = d.round ema 2;
            upside_pct = none;
            signal_kind = "WATCH";
          })
          else none
    ]
  ]

  abbrev pub append_if : List (SignalEntry F) → Option (SignalEntry F) → List (SignalEntry F)
  append_if xs none = xs
  append_if xs (some x) = xs ++ x ∷ []

  -- The loop over the data, which appends to the four lists.
  unfoldable pub signals_from : Dict (Info F) → Lists F → Lists F
  signals_from [] acc = acc
  signals_from ((t, i) ∷ rest) acc = signals_from rest (record {
    oversold = append_if acc.oversold (oversold_entry t i);
    overbought = append_if acc.overbought (overbought_entry t i);
    undervalued = append_if acc.undervalued (undervalued_entry t i);
    ema200_support = append_if acc.ema200_support (support_entry t i);
  })

  unfoldable pub build_trading_signals : Dict (Info F) → Lists F
  build_trading_signals data' =
      signals_from data'
        (record { oversold = []; overbought = []; undervalued = []; ema200_support = [] })

  unfoldable pub build_watch_item : String → TickerState F → WatchItem F
  build_watch_item ticker s = record {
    watch_ticker = ticker;
    watch_price = s.current_price;
    change = if nought <? s.prev_close then s.current_price ⊖ s.prev_close else nought;
    watch_rate = s.change_rate;
    watch_volume = int s.volume;
    watch_rsi = s.rsi;
    ma20 = ema_at 20 s.ema;
  }

  -- The entries that a test finds, in the order of the data.
  abbrev pub entries :
      (String → Info F → Option (SignalEntry F)) → Dict (Info F) → List (SignalEntry F)
  entries f [] = []
  entries f ((t, i) ∷ rest) = elim (f t i) [ none ↦ entries f rest | some x ↦ x ∷ entries f rest ]

  append-last :
      (acc : List (SignalEntry F)) (x : SignalEntry F) (xs : List (SignalEntry F))
      → (acc ++ x ∷ []) ++ xs ≡ acc ++ x ∷ xs
  append-last [] x xs = refl
  append-last (y ∷ acc) x xs = ap (λ r. y ∷ r) (append-last acc x xs)

  append-step :
      (acc : List (SignalEntry F)) (o : Option (SignalEntry F)) (xs : List (SignalEntry F))
      → append_if acc o ++ xs
        ≡ acc ++ elim o as (λ r. List (SignalEntry F)) [ none ↦ xs | some x ↦ x ∷ xs ]
  append-step acc none xs = refl
  append-step acc (some x) xs = append-last acc x xs

  append-none : (acc : List (SignalEntry F)) → acc ++ [] ≡ acc
  append-none [] = refl
  append-none (x ∷ acc) = ap (λ r. x ∷ r) (append-none acc)

  signals_from-entries :
      (data' : Dict (Info F)) (acc : Lists F)
      → ((signals_from data' acc).oversold ≡ acc.oversold ++ entries oversold_entry data')
        × ((signals_from data' acc).overbought ≡ acc.overbought ++ entries overbought_entry data')
        × ((signals_from data' acc).undervalued
            ≡ acc.undervalued ++ entries undervalued_entry data')
        × ((signals_from data' acc).ema200_support
            ≡ acc.ema200_support ++ entries support_entry data')
  unfolding signals_from
  signals_from-entries [] acc = (
    sym (append-none acc.oversold),
    sym (append-none acc.overbought),
    sym (append-none acc.undervalued),
    sym (append-none acc.ema200_support),
  )
  signals_from-entries ((t, i) ∷ rest) acc =
      let next : Lists F = record {
        oversold = append_if acc.oversold (oversold_entry t i);
        overbought = append_if acc.overbought (overbought_entry t i);
        undervalued = append_if acc.undervalued (undervalued_entry t i);
        ema200_support = append_if acc.ema200_support (support_entry t i);
      } in
      let more = signals_from-entries rest next in
      (
        more.0 ∙ append-step acc.oversold (oversold_entry t i) (entries oversold_entry rest),
        more.1 ∙ append-step acc.overbought (overbought_entry t i) (entries overbought_entry rest),
        more.2
            ∙ append-step acc.undervalued (undervalued_entry t i) (entries undervalued_entry rest),
        more.3 ∙ append-step acc.ema200_support (support_entry t i) (entries support_entry rest),
      )

  -- Each list of signals has the entries that its test finds, in the order of the data.
  pub build_trading_signals-entries :
      (data' : Dict (Info F))
      → build_trading_signals data' ≡ record {
        oversold = entries oversold_entry data';
        overbought = entries overbought_entry data';
        undervalued = entries undervalued_entry data';
        ema200_support = entries support_entry data';
      }
  unfolding build_trading_signals
  build_trading_signals-entries data' =
      let p =
        signals_from-entries data'
          (record { oversold = []; overbought = []; undervalued = []; ema200_support = [] }) in
      λ i. record {
        oversold = p.0 i;
        overbought = p.1 i;
        undervalued = p.2 i;
        ema200_support = p.3 i;
      }
