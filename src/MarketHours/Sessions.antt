-- ===== src/MarketHours/Sessions.antt =====
-- The opening hours of services/market/market_hour_service.py. `datetime.now(tz)` is an argument, a
-- date and a time of day in microseconds; so is `Config.KIS_IS_VTS`.
pub mod Windows
use stock_advisor.Prelude.{
  ℕ, ◌+◌, ◌-◌, ◌*◌, ◌%◌, Bool, true, false, not, ◌&&◌, ◌||◌, ltb, leb, if◌then◌else◌, String,
  str_eq,
}
use stock_advisor.Calendar.{Date, ordinal, weekday}
use stock_advisor.MarketHours.Holidays.{is_us_market_holiday}

-- One reading of the clock in one time zone.
pub record Moment : Type 0 where
  pub today : Date
  pub time : ℕ

-- `time(h, m)`
abbrev pub time : ℕ → ℕ → ℕ
time h m = (h * 60 + m) * 60_000_000

abbrev pub day_length : ℕ
day_length = 86_400_000_000

abbrev pub is_weekend : Moment → Bool
is_weekend now = leb 5 (weekday (ordinal now.today))

-- `_is_time_between`
unfoldable pub is_time_between : ℕ → ℕ → ℕ → Bool
is_time_between now start end =
    if leb start end then leb start now && leb now end else leb start now || leb now end

unfoldable pub is_kr_market_open : Bool → Moment → Bool → Bool
is_kr_market_open is_vts now allow_extended =
    if is_weekend now
    then false
    else let kr_allow_extended = allow_extended && not is_vts in
      let end_time = if kr_allow_extended then time 18 0 else time 15 30 in
      leb (time 9 0) now.time && leb now.time end_time

unfoldable pub is_kr_after_hours_open : Moment → Bool
is_kr_after_hours_open now =
    if is_weekend now then false else leb (time 15 40) now.time && leb now.time (time 18 0)

unfoldable pub is_us_market_open : Bool → Moment → Bool → Bool
is_us_market_open is_vts now allow_extended =
    if is_weekend now
    then false
    else if is_us_market_holiday now.today
    then false
    else let us_allow_extended = allow_extended && not is_vts in
      let start_time = if us_allow_extended then time 4 0 else time 9 30 in
      let end_time = if us_allow_extended then time 20 0 else time 16 0 in
      leb start_time now.time && leb now.time end_time

-- `(datetime.combine(day, start) - timedelta(minutes=lead)).time()`: the time of day wraps round.
unfoldable pub minutes_before : ℕ → ℕ → ℕ
minutes_before start lead = (start + day_length - lead * 60_000_000 % day_length) % day_length

unfoldable pub is_strategy_window_open : Bool → Moment → Moment → Bool → ℕ → Bool
is_strategy_window_open is_vts now_kr now_us allow_extended pre_open_lead_minutes =
    if is_weekend now_kr && is_weekend now_us
    then false
    else let kr_start = minutes_before (time 9 0) pre_open_lead_minutes in
      let kr_allow_extended = allow_extended && not is_vts in
      let kr_end = if kr_allow_extended then time 18 0 else time 15 30 in
      let kr_open = not (is_weekend now_kr) && is_time_between now_kr.time kr_start kr_end in
      let us_allow_extended = allow_extended && not is_vts in
      let us_market_start = if us_allow_extended then time 4 0 else time 9 30 in
      let us_market_end = if us_allow_extended then time 20 0 else time 16 0 in
      let us_start = minutes_before us_market_start pre_open_lead_minutes in
      let us_open =
        not (is_weekend now_us)
        && not (is_us_market_holiday now_us.today)
        && is_time_between now_us.time us_start us_market_end in
      kr_open || us_open

-- `should_fetch`, for a market name already in upper case and the clock of its time zone
unfoldable pub should_fetch : String → Moment → Bool
should_fetch market now =
    if is_weekend now
    then false
    else if str_eq market "KR"
    then leb (time 9 0) now.time && leb now.time (time 16 30)
    else leb (time 9 30) now.time && leb now.time (time 17 30)

unfoldable pub can_fetch_history : Bool
can_fetch_history = true
