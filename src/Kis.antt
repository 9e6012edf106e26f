-- ===== src/Kis.antt =====
-- services/kis/kis_service.py: the account number, the throttle, the access token, orders and balances.
-- The server is an argument: what it answers to the attempts of one call, counted from 0. The waits
-- between attempts and log lines are left out.
pub mod Token
pub mod Orders
pub mod Balance
mod Tests
use Prim.Native.Char.{code}
use stock_advisor.Prelude.{
  ◌&&◌, ◌==◌, Bool, Option, String, [], codes, false, if◌then◌else◌, leb, length, none, some,
  str_eq, suc, zero, ◌||◌, ℕ, ◌∷◌,
}
use stock_advisor.Floats.{◌<?◌, Double, nought, ◌⊖◌}
use stock_advisor.Prelude.Int.{pos}

-- The parts of an answer that are looked at. `limit_text` says that "초당 거래건수" is in `msg1`,
-- `has_output` that there is an `output`.
pub record Body : Type 0 where
  pub rt_cd : Option String
  pub msg_cd : Option String
  pub msg1 : Option String
  pub limit_text : Bool
  pub has_output : Bool

-- An exception on the way, or a status with a body, which may be no JSON.
pub data Response : Type 0 where
  broken : Response
  answer : ℕ → Option Body → Response

abbrev pub is_text : Option String → String → Bool
is_text none s = false
is_text (some t) s = str_eq t s

-- `KIS_RATE_LIMIT_MSG_CD`
abbrev pub rate_limit_code : String
rate_limit_code = "EGW00201"

-- `_is_rate_limited_response`
unfoldable pub is_rate_limited : ℕ → Option Body → Bool
is_rate_limited status none = false
is_rate_limited status (some b) =
    (status == 429 || status == 500) && (is_text b.msg_cd rate_limit_code || b.limit_text)

abbrev is_ascii_digit : ℕ → Bool
is_ascii_digit c = leb b'0' c && leb c b'9'

unfoldable pub digits_of : String → String
digits_of String.[] = String.[]
digits_of (String.◌∷◌ c s) =
    let rest = digits_of s in if is_ascii_digit (code c) then String.◌∷◌ c rest else rest

unfoldable pub first_chars : ℕ → String → String
first_chars zero s = String.[]
first_chars (suc n) String.[] = String.[]
first_chars (suc n) (String.◌∷◌ c s) = String.◌∷◌ c (first_chars n s)

unfoldable pub drop_chars : ℕ → String → String
drop_chars zero s = s
drop_chars (suc n) String.[] = String.[]
drop_chars (suc n) (String.◌∷◌ c s) = drop_chars n s

-- `_get_account_parts`, for a number of ASCII characters.
unfoldable pub get_account_parts : String → String × String
get_account_parts raw =
    let digits = digits_of raw in
    let n = length (codes digits) in
    if leb 10 n
    then (first_chars 8 digits, first_chars 2 (drop_chars 8 digits))
    else if n == 8
    then (digits, "01")
    else ("", "01")

module _ {F : Type 0} ⦃d : Double F⦄ where
  -- `_min_req_interval`
  abbrev pub min_req_interval : F
  min_req_interval = d.decimal (pos 55) 2

  -- `_throttle_request`: how long it sleeps, from the time and that of the last request. The time
  -- after the sleep is kept as the last one.
  unfoldable pub throttle : F → F → F
  throttle now last_req_ts =
      let elapsed = now ⊖ last_req_ts in
      if elapsed <? min_req_interval then min_req_interval ⊖ elapsed else nought
