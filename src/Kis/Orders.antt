-- ===== src/Kis/Orders.antt =====
-- Orders of services/kis/kis_service.py: `_send_domestic_order`, `send_order`, `send_after_hours_order` and
-- `send_overseas_order`. The numbers of the transactions, `get_api_info`, are an argument; a token is
-- taken to be at hand.
pub mod Once
use stock_advisor.Prelude.{
  ◌&&◌, Bool, Option, String, false, if◌then◌else◌, leb, ltb, none, not, some, str_eq, suc, true,
  zero, ◌||◌, ℕ,
}
use stock_advisor.Floats.{◌<?◌, Double, nought, ◌≤?◌}
use stock_advisor.Kis.{
  Body, Response, broken, get_account_parts, is_rate_limited, is_text, rate_limit_code, answer,
}
use stock_advisor.Markets.{is_kr}
use stock_advisor.MarketData.Registry.{strip_left, strip_right}
use stock_advisor.Prelude.Int.{ℤ}

pub record KisOrder (F : Type 0) : Type 0 where
  pub account : String × String
  pub tr_id : String
  pub ticker : String
  pub quantity : ℤ
  pub ord_dvsn : String
  pub ord_price : Option F
  pub exchange : Option String

pub data KisError : Type 0 where
  bad_account no_price no_output crashed retries_over : KisError

pub data KisResult : Type 0 where
  success : KisResult
  failed : String → KisResult
  error : KisError → KisResult
  blocked : KisResult

-- What one attempt comes to.
pub data Attempt : Type 0 where
  again : Attempt
  final : KisResult → Attempt

abbrev pub max_retries : ℕ
max_retries = 3

abbrev or_text : Option String → String → String
or_text none rest = rest
or_text (some t) rest = if str_eq t "" then rest else t

-- `data.get("msg1") or data.get("msg_cd") or "unknown"`, and `data['msg1']` of the overseas order, where a
-- missing key is an exception.
unfoldable pub failure : Bool → Body → KisResult
failure abroad b =
    if abroad
    then (elim b.msg1 [ none ↦ error crashed | some m ↦ failed m ])
    else failed (or_text b.msg1 (or_text b.msg_cd "unknown"))

-- The result of an accepted order: abroad a missing `output` is an exception.
unfoldable pub accepted_result : Bool → Body → KisResult
accepted_result abroad b = if abroad && not b.has_output then error no_output else success

-- The body of the loop, for the attempts left after this one. Statuses from 400 on raise.
unfoldable pub judge : Bool → ℕ → Response → Attempt
judge abroad left broken = final (error crashed)
judge abroad left (answer status body) =
    if is_rate_limited status body
    then again
    else if leb 400 status
    then final (error crashed)
    else (elim body [
      | none ↦ final (error crashed)
      | some b ↦ elim b.rt_cd [
        | none ↦ final (error crashed)
        | some rt_cd ↦
            if str_eq rt_cd "0"
            then final (accepted_result abroad b)
            else if is_text b.msg_cd rate_limit_code && ltb 0 left
            then again
            else final (failure abroad b)
      ]
    ])

-- The loop, with the number of attempts left and the number of those made.
unfoldable pub send_loop : Bool → (ℕ → Response) → ℕ → ℕ → KisResult × ℕ
send_loop abroad server zero made = (error retries_over, made)
send_loop abroad server (suc left) made = elim (judge abroad left (server made)) [
  | again ↦ send_loop abroad server left (suc made)
  | final r ↦ (r, suc made)
]

-- The result, the order that is posted, and the number of attempts.
pub record Sent (F : Type 0) : Type 0 where
  pub result : KisResult
  pub order : Option (KisOrder F)
  pub attempts : ℕ

module _ {F : Type 0} where
  abbrev pub unsent : KisResult → Sent F
  unsent r = record { result = r; order = none; attempts = 0 }

  unfoldable pub post_order : Bool → (ℕ → Response) → KisOrder F → Sent F
  post_order abroad server o =
      if str_eq (o.account).0 ""
      then unsent (error bad_account)
      else (let r = send_loop abroad server max_retries 0 in
          record { result = r.0; order = some o; attempts = r.1 })

  -- `_send_domestic_order`
  unfoldable pub send_domestic_order :
      (ℕ → Response) → String → String → String → ℤ → String → Option F → Sent F
  send_domestic_order server account tr_id ticker quantity ord_dvsn ord_price =
      post_order false server (record {
        account = get_account_parts account;
        tr_id = tr_id;
        ticker = ticker;
        quantity = quantity;
        ord_dvsn = ord_dvsn;
        ord_price = ord_price;
        exchange = none;
      })

-- The name of a transaction.
abbrev pub api_name : Bool → String
api_name is_buy = if is_buy then "주식주문_매수" else "주식주문_매도"

abbrev pub overseas_api_name : Bool → String
overseas_api_name is_buy = if is_buy then "해외주식_미국매수" else "해외주식_미국매도"

-- The configuration.
pub record KisConfig : Type 0 where
  pub account : String
  pub is_vts : Bool
  pub after_hours_enabled : Bool
  pub after_hours_dvsn : String
  pub get_api_info : String → String

-- `ord_dvsn or Config.KIS_AFTER_HOURS_ORD_DVSN or "81"`
unfoldable pub after_hours_dvsn_of : KisConfig → Option String → String
after_hours_dvsn_of c ord_dvsn =
    let configured = if str_eq c.after_hours_dvsn "" then "81" else c.after_hours_dvsn in
    let given : String = elim ord_dvsn [
      | none ↦ configured
      | some s ↦ if str_eq s "" then configured else s
    ] in
    strip_left (strip_right given)

module _ {F : Type 0} ⦃d : Double F⦄ (c : KisConfig) (server : ℕ → Response) where
  -- `send_order`: at a price if it is positive, else at the market.
  unfoldable pub send_order : String → ℤ → F → Bool → Sent F
  send_order ticker quantity price is_buy =
      send_domestic_order server c.account (c.get_api_info (api_name is_buy)) ticker quantity
        (if nought <? price then "00" else "01") (if nought <? price then some price else none)

  -- `send_after_hours_order`, for a clock at which the session is open or not.
  unfoldable pub send_after_hours_order : Bool → String → ℤ → Bool → Option String → Sent F
  send_after_hours_order is_open ticker quantity is_buy ord_dvsn =
      if c.is_vts || not c.after_hours_enabled || not (is_kr ticker) || not is_open
      then unsent blocked
      else send_domestic_order server c.account (c.get_api_info (api_name is_buy)) ticker quantity
          (after_hours_dvsn_of c ord_dvsn) none

  -- `send_overseas_order`: the account is looked at before the price.
  unfoldable pub send_overseas_order : String → ℤ → F → Bool → String → Sent F
  send_overseas_order ticker quantity price is_buy market =
      let account = get_account_parts c.account in
      if str_eq account.0 ""
      then unsent (error bad_account)
      else if price ≤? nought
      then unsent (error no_price)
      else post_order true server (record {
        account = account;
        tr_id = c.get_api_info (overseas_api_name is_buy);
        ticker = ticker;
        quantity = quantity;
        ord_dvsn = "00";
        ord_price = some price;
        exchange = some market;
      })
