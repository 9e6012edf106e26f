-- ===== src/Kis/Balance/Fallback.antt =====
-- What `get_balance` of services/kis/kis_service.py answers, from the answers of the server.
use stock_advisor.Prelude.{
  ◌+◌, Option, Option-cases, arith, none, refl, some, suc, zero, ℕ, ◌≡◌, ◌≤◌, String, false, str_eq,
}
use stock_advisor.Kis.Balance.{BalanceAnswer, balance_loop, good, get_balance}
use stock_advisor.Kis.{get_account_parts}

module _ {B : Type 0} where
  -- The first good answer from an attempt on, if one of the next ones is good.
  unfoldable pub first_of : (ℕ → BalanceAnswer B) → ℕ → ℕ → Option B
  first_of server made zero = none
  first_of server made (suc n) = elim (good (server made)) [
    | none ↦ first_of server (suc made) n
    | some b ↦ some b
  ]

  balance_loop-first_of :
      (server : ℕ → BalanceAnswer B) (left made : ℕ)
      → ((balance_loop server left made).0 ≡ first_of server made left)
        × ((balance_loop server left made).1 ≤ made + left)
  unfolding balance_loop first_of
  balance_loop-first_of server zero made = (refl, omega arith)
  balance_loop-first_of server (suc left) made =
      let ih = balance_loop-first_of server left (suc made) in
      (
        ground (arith, ih.0, Option-cases (good (server made))),
        ground (arith, ih.1, Option-cases (good (server made))),
      )

  unfoldable pub or_last : Option B → Option B → Option B
  or_last none last = last
  or_last (some b) last = some b

  -- With an account number that can be read, get_balance asks at most three times and returns the
  -- first good answer of these, or, if there is none, the last balance; what it returns is the
  -- last balance afterwards.
  pub get_balance-first_of :
      (account : String) (server : ℕ → BalanceAnswer B) (last : Option B)
      → str_eq (get_account_parts account).0 "" ≡ false
      → let r = get_balance account server last in
        (r.result ≡ or_last (first_of server 0 3) last)
        × (r.last_balance ≡ r.result)
        × (r.attempts ≤ 3)
  unfolding get_balance or_last
  get_balance-first_of account server last p =
      let b = balance_loop-first_of server 3 0 in
      (
        ground (arith, p, b.0, Option-cases (first_of server 0 3)),
        ground (arith, p, Option-cases (balance_loop server 3 0).0),
        ground (arith, p, b.1, Option-cases (balance_loop server 3 0).0),
      )
