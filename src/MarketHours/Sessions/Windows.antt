-- ===== src/MarketHours/Sessions/Windows.antt =====
-- How the opening hours relate: sessions, extended hours, paper trading and the strategy window.
use stock_advisor.Prelude.{ℕ, ◌-◌, ◌*◌, ◌≤◌, ◌<◌, ◌≡◌, Bool, true, false, ◌||◌, arith}
use stock_advisor.MarketHours.Sessions.{
  Moment, time, day_length, is_time_between, is_kr_market_open, is_kr_after_hours_open,
  is_us_market_open, minutes_before, is_strategy_window_open, should_fetch,
}

-- With paper trading (VTS) allowing extended hours changes nothing; without it extended hours only
-- add to the regular session.
pub extended_hours_kr :
    (now : Moment)
    → (is_kr_market_open true now true ≡ is_kr_market_open true now false)
      × (is_kr_market_open false now false ≡ true → is_kr_market_open false now true ≡ true)
unfolding is_kr_market_open
extended_hours_kr now = ground arith

pub extended_hours_us :
    (now : Moment)
    → (is_us_market_open true now true ≡ is_us_market_open true now false)
      × (is_us_market_open false now false ≡ true → is_us_market_open false now true ≡ true)
unfolding is_us_market_open
extended_hours_us now = ground arith

-- The Korean after-hours session does not overlap the regular one, and live trading with extended
-- hours covers it.
pub after_hours_kr :
    (now : Moment)
    → is_kr_after_hours_open now ≡ true
    → (is_kr_market_open false now false ≡ false) × (is_kr_market_open false now true ≡ true)
unfolding is_kr_after_hours_open is_kr_market_open
after_hours_kr now h = ground arith

minutes_before-eq :
    (h lead : ℕ)
    → lead ≤ 240
    → time 4 0 ≤ h
    → h < day_length
    → minutes_before h lead ≡ h - lead * 60_000_000
unfolding minutes_before
minutes_before-eq h lead hl lo hi = omega arith

-- Up to four hours of lead time the strategy window contains both markets' sessions.
pub open-in-window :
    (is_vts : Bool) (now_kr now_us : Moment) (allow_extended : Bool) (lead : ℕ)
    → lead ≤ 240
    → (is_kr_market_open is_vts now_kr allow_extended
        || is_us_market_open is_vts now_us allow_extended)
      ≡ true
    → is_strategy_window_open is_vts now_kr now_us allow_extended lead ≡ true
unfolding is_kr_market_open is_us_market_open is_strategy_window_open is_time_between
open-in-window is_vts now_kr now_us allow_extended lead hl h = ground (
  arith,
  minutes_before-eq (time 9 0) lead,
  minutes_before-eq (time 9 30) lead,
  minutes_before-eq (time 4 0) lead,
)

-- An open market is always fetched from, and an open US market is not on a weekend or a holiday.
pub open-should_fetch :
    (is_vts : Bool) (now_kr now_us : Moment)
    → (is_kr_market_open is_vts now_kr false ≡ true → should_fetch "KR" now_kr ≡ true)
      × (is_us_market_open is_vts now_us false ≡ true → should_fetch "US" now_us ≡ true)
unfolding is_kr_market_open is_us_market_open should_fetch
open-should_fetch is_vts now_kr now_us = (ground arith, ground arith)
