-- ===== src/Releases/Months.antt =====
-- The past release dates of services/market/economic_calendar_service.py, one for each month.
-- No two of the dates are of one month, and none is of a month of the list `seen`.
use stock_advisor.Calendar.{Date}
use stock_advisor.Prelude.{
  List, [], arith, false, length, suc, ℕ, ◌∷◌, ◌≡◌, ◌≤◌, ◌-◌, ◌==◌, Option, bool_cases, if_cases,
  if_elim, none, some, ◌<◌,
}
use stock_advisor.Releases.{first_of_months, month_seen, get_past_release_dates}

abbrev pub AreFresh : List Date → List Date → Type 0
AreFresh seen [] = Unit
AreFresh seen (t ∷ dates) = (month_seen t seen ≡ false) × AreFresh (t ∷ seen) dates

first_of_months-AreFresh :
    (room : ℕ) (seen dates : List Date) → AreFresh seen (first_of_months room seen dates)
unfolding first_of_months
first_of_months-AreFresh room seen [] = tt
first_of_months-AreFresh room seen (t ∷ dates) =
    let P : List Date → Type 0 = AreFresh seen in
    let Q : List Date → Type 0 = AreFresh (t ∷ seen) in
    bool_cases P (month_seen t seen) _ _
      (λ e. if_elim P (room == 0) _ _ tt (first_of_months-AreFresh room seen dates))
      (λ e. (
        e,
        if_elim Q (room - 1 == 0) _ _ tt (first_of_months-AreFresh (room - 1) (t ∷ seen) dates),
      ))

length-first_of_months :
    (room : ℕ) (seen dates : List Date) → 0 < room → length (first_of_months room seen dates) ≤ room
unfolding first_of_months
length-first_of_months room seen [] p = omega arith
length-first_of_months room seen (t ∷ dates) p =
    let P : List Date → Type 0 = λ xs. length xs ≤ room in
    let Q : List Date → Type 0 = λ xs. suc (length xs) ≤ room in
    bool_cases P (month_seen t seen) _ _
      (λ e. if_elim P (room == 0) _ _ (omega arith) (length-first_of_months room seen dates p))
      (λ e.
        if_cases Q (room - 1 == 0) _ _ (λ _. omega arith)
          (λ f.
            let more : 0 < room - 1 = ground arith in
            omega (arith, length-first_of_months (room - 1) (t ∷ seen) dates more)))

-- At most the wanted number of past release dates is returned, if that is positive, and no two
-- of them are of one month of a year.
pub get_past_release_dates-AreFresh :
    (n : ℕ) (answer : Option (List Date))
    → AreFresh [] (get_past_release_dates (suc n) answer)
      × (length (get_past_release_dates (suc n) answer) ≤ suc n)
unfolding get_past_release_dates
get_past_release_dates-AreFresh n none = (tt, omega arith)
get_past_release_dates-AreFresh n (some dates) = (
  first_of_months-AreFresh (suc n) [] dates,
  length-first_of_months (suc n) [] dates (omega arith),
)
