-- ===== src/Tickers/State.antt =====
-- The dataclass `TickerState` of models/ticker_state.py and its methods. The dict `ema` has its keys
-- as numbers already, and `bollinger`, which nothing in the class reads, is left out.
use stock_advisor.Prelude.{
  ◌+◌, ◌==◌, Bool, List, Option, String, [], false, if◌then◌else◌, map, none, not, some, true, ◌||◌,
  ℕ, ◌∷◌,
}
use stock_advisor.Floats.{◌<?◌, Double, nought, num, truthy, ◌≤?◌, ◌⊕◌, ◌⊖◌, ◌⊗◌, ◌⊘◌}
use stock_advisor.Prelude.Int.{pos, ℤ}

pub record TickerState (F : Type 0) : Type 0 where
  pub ticker : String
  pub name : String
  pub current_price : F
  pub open_price : F
  pub high_price : F
  pub low_price : F
  pub prev_close : F
  pub volume : ℤ
  pub change_rate : F
  pub ema : List (ℕ × F)
  pub rsi : F
  pub dcf_value : F
  pub target_buy_price : F
  pub target_sell_price : F

-- A message from the socket: the fields that it has, already read as numbers.
pub record SocketData (F : Type 0) : Type 0 where
  pub stck_prpr : Option F
  pub stck_oprc : Option F
  pub stck_hgpr : Option F
  pub stck_lwpr : Option F
  pub rt_cd : Option F
  pub acml_vol : Option ℤ

module _ {F : Type 0} where
  -- `ema.get(n)`
  unfoldable pub ema_at : ℕ → List (ℕ × F) → Option F
  ema_at n [] = none
  ema_at n ((k, v) ∷ rest) = if k == n then some v else ema_at n rest

  -- `ema[n] = v`
  unfoldable pub set_ema : ℕ → F → List (ℕ × F) → List (ℕ × F)
  set_ema n v [] = (n, v) ∷ []
  set_ema n v ((k, w) ∷ rest) = if k == n then (k, v) ∷ rest else (k, w) ∷ set_ema n v rest

  -- `d.get(key, old)`
  abbrev pub get_or : Option F → F → F
  get_or none old = old
  get_or (some x) old = x

module _ {F : Type 0} ⦃d : Double F⦄ where
  -- `TickerState(ticker=ticker)`
  unfoldable pub fresh_state : String → TickerState F
  fresh_state t = record {
    ticker = t;
    name = "";
    current_price = nought;
    open_price = nought;
    high_price = nought;
    low_price = nought;
    prev_close = nought;
    volume = pos 0;
    change_rate = nought;
    ema = [];
    rsi = nought;
    dcf_value = nought;
    target_buy_price = nought;
    target_sell_price = nought;
  }

  -- One step of the estimate: (price * alpha) + (old * (1 - alpha)), alpha = 2 / (period + 1).
  unfoldable pub next_ema : F → ℕ → F → F
  next_ema price period old =
      let alpha = num 2 ⊘ num (period + 1) in d.round (price ⊗ alpha ⊕ old ⊗ (num 1 ⊖ alpha)) 2

  unfoldable pub recalculate_indicators : TickerState F → TickerState F
  recalculate_indicators s = elim s.ema [
    | [] ↦ s
    | e ∷ rest ↦
        if s.current_price ≤? nought
        then s
        else record s { ema = map (λ (n, v). (n, next_ema s.current_price n v)) s.ema }
  ]

  -- `change_rate` is reset to 0 where the message has none; every other field keeps its value.
  unfoldable pub update_from_socket : TickerState F → SocketData F → TickerState F
  update_from_socket s m = recalculate_indicators (record s {
    current_price = get_or m.stck_prpr s.current_price;
    open_price = get_or m.stck_oprc s.open_price;
    high_price = get_or m.stck_hgpr s.high_price;
    low_price = get_or m.stck_lwpr s.low_price;
    change_rate = get_or m.rt_cd nought;
    volume = elim m.acml_vol [ none ↦ s.volume | some v ↦ v ];
  })

  -- `update_indicators`: entries that are None are passed over.
  unfoldable pub merge_emas : List (ℕ × Option F) → List (ℕ × F) → List (ℕ × F)
  merge_emas [] ema = ema
  merge_emas ((n, none) ∷ rest) ema = merge_emas rest ema
  merge_emas ((n, some v) ∷ rest) ema = merge_emas rest (set_ema n v ema)

  unfoldable pub update_indicators :
      TickerState F → List (ℕ × Option F) → Option F → Option F → TickerState F
  update_indicators s emas dcf rsi = record s {
    ema = merge_emas emas s.ema;
    dcf_value = get_or dcf s.dcf_value;
    rsi = get_or rsi s.rsi;
  }

  unfoldable pub is_undervalued : TickerState F → Bool
  is_undervalued s = if nought <? s.dcf_value then s.current_price <? s.dcf_value else false

  -- `x or rest`, for a number that may be missing
  abbrev pub or_else : Option F → Option F → Option F
  or_else none rest = rest
  or_else (some x) rest = if truthy x then some x else rest

  -- `ema.get(200) or ema.get(120) or ema.get(60)`
  unfoldable pub long_ema : TickerState F → Option F
  long_ema s = or_else (ema_at 200 s.ema) (or_else (ema_at 120 s.ema) (ema_at 60 s.ema))

  unfoldable pub is_ready : TickerState F → Bool
  is_ready s =
      if s.current_price ≤? nought
      then false
      else if s.rsi ≤? nought
      then false
      else elim (long_ema s) [
        | none ↦ false
        | some v ↦ if not (truthy v) || v ≤? nought then false else true
      ]
