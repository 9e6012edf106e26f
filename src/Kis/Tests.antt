-- ===== src/Kis/Tests.antt =====
-- Runs of services/kis/kis_service.py against servers that answer in a fixed way, and the theorems at
-- them.
use stock_advisor.Floats.Fixed.{Fixed, fixed_double}
use stock_advisor.Kis.{
  Body, Response, answer, get_account_parts, digits_of, drop_chars, first_chars, is_rate_limited,
}
use stock_advisor.Kis.Orders.{
  KisConfig, Sent, send_order, send_overseas_order, send_after_hours_order, success, error,
  no_output, retries_over, accepted_result, after_hours_dvsn_of, failure, judge, post_order,
  send_domestic_order, send_loop,
}
use stock_advisor.Kis.Orders.Once.{IsSentOnce, orders-IsSentOnce}
use stock_advisor.Kis.Token.{TokenState, get_access_token, in_memory, valid}
use stock_advisor.Kis.Token.Fresh.{IsBacked, get_access_token-IsBacked}
use stock_advisor.Kis.Balance.{BalanceAnswer, lost, with_body, get_balance}
use stock_advisor.Kis.Balance.Fallback.{first_of, or_last, get_balance-first_of}
use stock_advisor.Prelude.{
  Option, String, false, none, refl, some, suc, true, zero, ℕ, ◌≡◌, ◌≤◌, str_eq,
}
use stock_advisor.Floats.{num}
use stock_advisor.Prelude.Int.{pos, ◌*ℤ◌, ◌+ℤ◌, ◌-ℤ◌}
use stock_advisor.Markets.{is_kr}
use stock_advisor.MarketData.Registry.{strip_left, strip_right}

abbrev body_of : String → Option String → Body
body_of rt_cd msg_cd = record {
  rt_cd = some rt_cd;
  msg_cd = msg_cd;
  msg1 = some "text";
  limit_text = false;
  has_output = false;
}

-- A server that limits the first attempt and takes the second.
abbrev second_time : ℕ → Response
second_time zero = answer 500 (some (body_of "1" (some "EGW00201")))
second_time (suc n) = answer 200 (some (body_of "0" none))

abbrev limited : ℕ → Response
limited n = answer 429 (some (body_of "1" (some "EGW00201")))

abbrev config : KisConfig
config = record {
  account = "50162391-01";
  is_vts = false;
  after_hours_enabled = true;
  after_hours_dvsn = "";
  get_api_info = λ name. name;
}

account_number : get_account_parts "50162391-01" ≡ ("50162391", "01")
unfolding get_account_parts digits_of first_chars drop_chars
account_number = refl

order_on_second_attempt :
    let r : Sent Fixed = send_order config second_time "005930" (pos 3) (num 100) true in
    (r.result ≡ success) × (r.attempts ≡ 2)
unfolding send_order post_order send_domestic_order send_loop judge failure accepted_result
    is_rate_limited get_account_parts digits_of first_chars drop_chars ◌*ℤ◌ ◌+ℤ◌ ◌-ℤ◌
order_on_second_attempt = (refl, refl)

-- The broker took the order, and the caller sees an error.
overseas_without_output :
    let r : Sent Fixed =
      send_overseas_order config second_time "AAPL" (pos 3) (num 100) true "NASD" in
    r.result ≡ error no_output
unfolding send_overseas_order post_order send_domestic_order send_loop judge failure accepted_result
    is_rate_limited get_account_parts digits_of first_chars drop_chars ◌*ℤ◌ ◌+ℤ◌ ◌-ℤ◌
overseas_without_output = refl

limited_three_times :
    let r : Sent Fixed = send_after_hours_order config limited true "005930" (pos 3) true none in
    (r.result ≡ error retries_over) × (r.attempts ≡ 3)
unfolding send_after_hours_order after_hours_dvsn_of post_order send_domestic_order send_loop judge
    failure accepted_result is_rate_limited get_account_parts digits_of first_chars drop_chars ◌*ℤ◌
    ◌+ℤ◌ ◌-ℤ◌ is_kr strip_left strip_right
limited_three_times = (refl, refl)

orders-IsSentOnce_example :
    IsSentOnce {F = Fixed} second_time
      (send_order config second_time "005930" (pos 3) (num 100) true)
    × IsSentOnce {F = Fixed} second_time
        (send_after_hours_order config second_time true "005930" (pos 3) true none)
    × IsSentOnce {F = Fixed} second_time
        (send_overseas_order config second_time "005930" (pos 3) (num 100) true "NASD")
orders-IsSentOnce_example =
    orders-IsSentOnce {F = Fixed} config second_time "005930" "NASD" (pos 3) (num 100) true true
      none

-- An old token in memory, and a newer one in the file.
abbrev two_tokens : TokenState Fixed
two_tokens = record { memory = some ("old", num 50); file = some ("new", num 900) }

token_of_file :
    let r = get_access_token (num 100) (some "third") true two_tokens in
    (r.token ≡ some "new") × (r.asked ≡ false)
unfolding get_access_token in_memory valid ◌*ℤ◌ ◌+ℤ◌ ◌-ℤ◌
token_of_file = (refl, refl)

get_access_token-IsBacked_example :
    let r = get_access_token (num 100) (some "third") true two_tokens in
    IsBacked (num 100) r r.token
get_access_token-IsBacked_example =
    get_access_token-IsBacked (num 100) (some "third") true two_tokens

abbrev third_time : ℕ → BalanceAnswer ℕ
third_time zero = lost
third_time (suc zero) = with_body 200 false 5
third_time (suc (suc n)) = with_body 200 true 7

account_is_there : str_eq (get_account_parts "50162391-01").0 "" ≡ false
unfolding get_account_parts digits_of first_chars drop_chars
account_is_there = refl

get_balance-first_of_example :
    let r = get_balance "50162391-01" third_time (some 3) in
    (r.result ≡ or_last (first_of third_time 0 3) (some 3))
    × (r.last_balance ≡ r.result)
    × (r.attempts ≤ 3)
get_balance-first_of_example =
    get_balance-first_of "50162391-01" third_time (some 3) account_is_there
