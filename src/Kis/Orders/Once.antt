-- ===== src/Kis/Orders/Once.antt =====
-- An order of services/kis/kis_service.py is carried out at most once.
-- The server took the order: a status below 400 that is no rate limit, with "0" as its code.
use stock_advisor.Prelude.{
  ◌+◌, ◌&&◌, Bool, Bool-cases, Option-cases, arith, false, if◌then◌else◌, leb, none, refl, some,
  suc, true, zero, ◌||◌, ℕ, ◌≡◌, Option, String, if_elim, not, str_eq, sym, ◌≤◌,
}
use stock_advisor.Kis.Orders.{
  Attempt, KisResult, accepted_result, KisError, bad_account, no_price, no_output, crashed,
  retries_over, again, blocked, error, failed, success, failure, final, judge, KisConfig, KisOrder,
  Sent, post_order, send_after_hours_order, send_domestic_order, send_loop, send_order,
  send_overseas_order,
}
use stock_advisor.Kis.{Body, Response, broken, is_rate_limited, is_text, answer, get_account_parts}
use stock_advisor.Floats.{Double, nought, ◌≤?◌}
use stock_advisor.Markets.{is_kr}
use stock_advisor.Prelude.Int.{ℤ}

unfoldable pub accepted : Response → Bool
accepted broken = false
accepted (answer status body) =
    if is_rate_limited status body || leb 400 status
    then false
    else (elim body [ none ↦ false | some b ↦ is_text b.rt_cd "0" ])

-- How many of the answers from the first on were acceptances.
unfoldable pub accepted_in : (ℕ → Response) → ℕ → ℕ → ℕ
accepted_in server first zero = 0
accepted_in server first (suc n) =
    (if accepted (server first) then 1 else 0) + accepted_in server (suc first) n

-- The results after an acceptance: success, and the exception on a missing `output`.
abbrev is_exception_of_output : KisError → Bool
is_exception_of_output bad_account = false
is_exception_of_output no_price = false
is_exception_of_output no_output = true
is_exception_of_output crashed = false
is_exception_of_output retries_over = false

abbrev pub is_done : KisResult → Bool
is_done success = true
is_done (failed m) = false
is_done (error e) = is_exception_of_output e
is_done blocked = false

abbrev ends_well : Attempt → Bool
ends_well again = false
ends_well (final r) = is_done r

failure-is_done : (abroad : Bool) (b : Body) → is_done (failure abroad b) ≡ false
unfolding failure
failure-is_done abroad b = ground (arith, Bool-cases abroad, Option-cases b.msg1)

accepted_result-is_done : (abroad : Bool) (b : Body) → is_done (accepted_result abroad b) ≡ true
unfolding accepted_result
accepted_result-is_done abroad b = ground (arith, Bool-cases (abroad && not b.has_output))

judge-body :
    (abroad : Bool) (left status : ℕ) (b : Body)
    → is_rate_limited status (some b) ≡ false
    → leb 400 status ≡ false
    → ends_well (judge abroad left (answer status (some b))) ≡ is_text b.rt_cd "0"
unfolding judge
judge-body abroad left status b p q =
    ground (
      arith,
      p,
      q,
      failure-is_done abroad b,
      accepted_result-is_done abroad b,
      Option-cases b.rt_cd,
    )

-- An attempt ends well exactly if the server took the order.
judge-accepted :
    (abroad : Bool) (left : ℕ) (r : Response) → ends_well (judge abroad left r) ≡ accepted r
unfolding judge accepted
judge-accepted abroad left broken = refl
judge-accepted abroad left (answer status none) =
    ground (arith, Bool-cases (is_rate_limited status none))
judge-accepted abroad left (answer status (some b)) = ground (
  arith,
  Bool-cases (is_rate_limited status (some b)),
  Bool-cases (leb 400 status),
  judge-body abroad left status b,
)

-- What a loop comes to that made some attempts before: how many it makes, and that the last one alone
-- was taken, if any was.
abbrev IsOnce : (ℕ → Response) → ℕ → ℕ → KisResult × ℕ → Type 0
IsOnce server left made r =
    (n : ℕ) × (r.1 ≡ made + n)
    × (n ≤ left)
    × (accepted_in server made n ≡ (if is_done r.0 then 1 else 0))

after_again :
    (server : ℕ → Response) (left made : ℕ) (r : KisResult × ℕ)
    → accepted (server made) ≡ false
    → IsOnce server left (suc made) r
    → IsOnce server (suc left) made r
unfolding accepted_in
after_again server left made r p q =
    (suc q.0, omega (arith, q.1), omega (arith, q.2), ground (arith, p, q.3))

send_loop-step :
    (abroad : Bool) (server : ℕ → Response) (left made : ℕ) (a : Attempt)
    → ends_well a ≡ accepted (server made)
    → IsOnce server left (suc made) (send_loop abroad server left (suc made))
    → IsOnce server
        (suc left)
        made
        (elim a [ again ↦ send_loop abroad server left (suc made) | final r ↦ (r, suc made) ])
unfolding accepted_in
send_loop-step abroad server left made again p q =
    after_again server left made (send_loop abroad server left (suc made)) (sym p) q
send_loop-step abroad server left made (final r) p q =
    (1, omega arith, omega arith, ground (arith, p))

send_loop-IsOnce :
    (abroad : Bool) (server : ℕ → Response) (left made : ℕ)
    → IsOnce server left made (send_loop abroad server left made)
unfolding send_loop accepted_in
send_loop-IsOnce abroad server zero made = (0, omega arith, omega arith, refl)
send_loop-IsOnce abroad server (suc left) made =
    send_loop-step abroad server left made (judge abroad left (server made))
      (judge-accepted abroad left (server made)) (send_loop-IsOnce abroad server left (suc made))

abbrev pub IsSentOnce : {F : Type 0} → (ℕ → Response) → Sent F → Type 0
IsSentOnce server s =
    (s.attempts ≤ 3) × (accepted_in server 0 s.attempts ≡ (if is_done s.result then 1 else 0))

module _ {F : Type 0} where
  post_order-IsSentOnce :
      (abroad : Bool) (server : ℕ → Response) (o : KisOrder F)
      → IsSentOnce server (post_order abroad server o)
  unfolding post_order accepted_in
  post_order-IsSentOnce abroad server o =
      let P : Sent F → Type 0 = IsSentOnce server in
      let r = send_loop-IsOnce abroad server 3 0 in
      if_elim P (str_eq (o.account).0 "") _ _ (omega arith, refl)
        (
          omega (arith, r.1, r.2),
          (let e : (send_loop abroad server 3 0).1 ≡ r.0 = omega (arith, r.1) in rw e r.3),
        )

module _ {F : Type 0} ⦃d : Double F⦄ where
  -- Whatever the server answers, send_order, send_after_hours_order and send_overseas_order make
  -- at most three attempts, and the server accepts exactly one of them if the result is success or
  -- the exception on a missing output, and none otherwise.
  pub orders-IsSentOnce :
      (c : KisConfig) (server : ℕ → Response) (ticker market : String) (quantity : ℤ) (price : F)
      (is_buy is_open : Bool) (ord_dvsn : Option String)
      → IsSentOnce server (send_order c server ticker quantity price is_buy)
        × IsSentOnce {F = F} server
            (send_after_hours_order c server is_open ticker quantity is_buy ord_dvsn)
        × IsSentOnce server (send_overseas_order c server ticker quantity price is_buy market)
  unfolding send_order send_after_hours_order send_overseas_order send_domestic_order accepted_in
  orders-IsSentOnce c server ticker market quantity price is_buy is_open ord_dvsn =
      let P : Sent F → Type 0 = IsSentOnce server in
      (
        post_order-IsSentOnce false server _,
        if_elim P (c.is_vts || not c.after_hours_enabled || not (is_kr ticker) || not is_open) _ _
            (omega arith, refl) (post_order-IsSentOnce false server _),
        if_elim P (str_eq (get_account_parts c.account).0 "") _ _ (omega arith, refl)
            (if_elim P (price ≤? nought) _ _ (omega arith, refl)
              (post_order-IsSentOnce true server _)),
      )
