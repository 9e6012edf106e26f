-- ===== src/MarketHours/Closing.antt =====
-- `_is_near_market_close` of services/strategy/trading_strategy_service.py, with the clock and
-- `Config.KIS_IS_VTS` as arguments, as in `Sessions`. Minutes are not negative.
use stock_advisor.Prelude.{
  ◌&&◌, ◌*◌, ◌-◌, Bool, String, arith, false, if◌then◌else◌, leb, not, true, ℕ, ◌≡◌, ◌≤◌,
}
use stock_advisor.MarketHours.Sessions.{
  Moment, is_kr_market_open, is_us_market_open, is_weekend, time,
}
use stock_advisor.Markets.{is_kr}
use stock_advisor.MarketHours.Holidays.{is_us_market_holiday}

-- `now.weekday() < 5 and (close_time - timedelta(minutes=minutes)) <= now <= close_time`; a start
-- before midnight is before every time of the day.
unfoldable pub in_last_minutes : Moment → ℕ → ℕ → Bool
in_last_minutes now close_time minutes =
    not (is_weekend now)
    && leb (close_time - minutes * 60_000_000) now.time
    && leb now.time close_time

unfoldable pub is_near_market_close : Bool → Moment → Moment → Bool → String → ℕ → Bool
is_near_market_close is_vts now_kr now_us allow_extended ticker minutes =
    if is_kr ticker
    then in_last_minutes now_kr (if allow_extended && not is_vts then time 18 0 else time 15 30)
        minutes
    else in_last_minutes now_us (if allow_extended then time 20 0 else time 16 0) minutes

-- Near the close, for a lead of at most 390 minutes, the Korean market is open for a Korean ticker.
pub near_close-open_kr :
    (is_vts : Bool) (now_kr now_us : Moment) (extended : Bool) (ticker : String) (minutes : ℕ)
    → minutes ≤ 390
    → is_kr ticker ≡ true
    → is_near_market_close is_vts now_kr now_us extended ticker minutes ≡ true
    → is_kr_market_open is_vts now_kr extended ≡ true
unfolding is_near_market_close in_last_minutes is_kr_market_open
near_close-open_kr is_vts now_kr now_us extended ticker minutes few kr near =
    ground (arith, kr, few, near)

-- Near the close, for a lead of at most 390 minutes and a ticker that is not Korean, the US market is
-- open if trading is live and the day is no holiday.
pub near_close-open_us :
    (now_kr now_us : Moment) (extended : Bool) (ticker : String) (minutes : ℕ)
    → minutes ≤ 390
    → is_kr ticker ≡ false
    → is_us_market_holiday now_us.today ≡ false
    → is_near_market_close false now_kr now_us extended ticker minutes ≡ true
    → is_us_market_open false now_us extended ≡ true
unfolding is_near_market_close in_last_minutes is_us_market_open
near_close-open_us now_kr now_us extended ticker minutes few us working near =
    ground (arith, us, working, few, near)
