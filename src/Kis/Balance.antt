-- ===== src/Kis/Balance.antt =====
-- Balances of services/kis/kis_service.py: `get_balance`, `get_overseas_balance` and
-- `get_overseas_available_cash`. Headers with a token are taken to be at hand; the holdings and the
-- summary are what the server sends.
pub mod Fallback
use stock_advisor.Prelude.{
  ◌&&◌, Bool, List, Option, String, [], if◌then◌else◌, ltb, none, some, str_eq, suc, zero, ℕ, ◌∷◌,
}
use stock_advisor.Floats.{◌<?◌, Double, nought}
use stock_advisor.Kis.{get_account_parts}

-- An answer with the parts that are looked at: whether `rt_cd` is "0", and the contents.
pub data BalanceAnswer (B : Type 0) : Type 0 where
  lost : BalanceAnswer B
  status_only : ℕ → BalanceAnswer B
  with_body : ℕ → Bool → B → BalanceAnswer B

pub record BalanceCall (B : Type 0) : Type 0 where
  pub result : Option B
  pub last_balance : Option B
  pub attempts : ℕ

abbrev pub overseas_tr_ids : List String
overseas_tr_ids = "VTTS3012R" ∷ "TTTS3012R" ∷ "VTTT3012R" ∷ "TTTT3012R" ∷ []

module _ {B : Type 0} where
  -- The contents of a good answer; all else leads to another attempt, or to the end of the loop.
  unfoldable pub good : BalanceAnswer B → Option B
  good lost = none
  good (status_only status) = none
  good (with_body status ok b) = if ltb status 400 && ok then some b else none

  -- The loop over the attempts, with those left and those made.
  unfoldable pub balance_loop : (ℕ → BalanceAnswer B) → ℕ → ℕ → Option B × ℕ
  balance_loop server zero made = (none, made)
  balance_loop server (suc left) made = elim (good (server made)) [
    | none ↦ balance_loop server left (suc made)
    | some b ↦ (some b, suc made)
  ]

  -- `get_balance`, with the balance of the last success; MAX_BALANCE_RETRIES is 3.
  unfoldable pub get_balance : String → (ℕ → BalanceAnswer B) → Option B → BalanceCall B
  get_balance account server last =
      if str_eq (get_account_parts account).0 ""
      then record { result = none; last_balance = last; attempts = 0 }
      else (let r = balance_loop server 3 0 in
          elim r.0 [
            | none ↦ record { result = last; last_balance = last; attempts = r.1 }
            | some b ↦ record { result = some b; last_balance = some b; attempts = r.1 }
          ])

  -- The loop over the transactions of `get_overseas_balance`.
  unfoldable pub first_good : (String → BalanceAnswer B) → List String → Option B
  first_good server [] = none
  first_good server (tr ∷ rest) = elim (good (server tr)) [
    | none ↦ first_good server rest
    | some b ↦ some b
  ]

  unfoldable pub get_overseas_balance : String → (String → BalanceAnswer B) → Option B
  get_overseas_balance account server =
      if str_eq (get_account_parts account).0 "" then none else first_good server overseas_tr_ids

-- `get_overseas_available_cash`: it asks for the first stock of the overseas balance; an amount is
-- stored as the setting PORTFOLIO_USD_CASH_BALANCE where it is returned. `first_code` gives the code
-- of the first holding, and the answer has `ord_psbl_frcr_amt` as a number.
module _ {F : Type 0} ⦃d : Double F⦄ {B : Type 0} where
  unfoldable pub get_overseas_available_cash :
      String
      → (String → BalanceAnswer B)
      → (B → Option String)
      → (String → BalanceAnswer F)
      → Option F
  get_overseas_available_cash account server first_code ask =
      elim (get_overseas_balance account server) [
        | none ↦ none
        | some b ↦ elim (first_code b) [
          | none ↦ none
          | some c ↦ if str_eq c "" then none else (elim (good (ask c)) [
            | none ↦ none
            | some usd ↦ if nought <? usd then some usd else none
          ])
        ]
      ]
