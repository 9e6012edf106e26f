-- ===== src/Kis/Token/Fresh.antt =====
-- Which token `get_access_token` of services/kis/kis_service.py returns.
use stock_advisor.Prelude.{
  ◌&&◌, Bool, Bool-cases, Option, String, arith, false, inl, inr, none, not, option_cases, refl,
  some, str_eq, true, ◌≡◌, ◌⊎◌,
}
use stock_advisor.Floats.{◌<?◌, Double, num, ◌⊕◌}
use stock_advisor.Kis.Token.{
  TokenCall, TokenState, get_access_token, in_memory, request_token, valid,
}
use stock_advisor.Settings.Repository.{written}

module _ {F : Type 0} ⦃d : Double F⦄ where
  -- A token that is returned is the one in memory; it is new, or has not expired.
  abbrev pub IsBacked : F → TokenCall F → Option String → Type 0
  IsBacked now r none = Unit
  IsBacked now r (some t) =
      (expiry : F) × (r.state.memory ≡ some (t, expiry))
      × ((r.asked ≡ true) ⊎ (d.lt now expiry ≡ true))

  abbrev IsGood : F → TokenCall F → Type 0
  IsGood now r = IsBacked now r r.token

  request_token-IsGood :
      (now : F) (issued : Option String) (written : Bool) (s : TokenState F)
      → IsGood now (request_token now issued written s)
  unfolding request_token
  request_token-IsGood now none written s = tt
  request_token-IsGood now (some t) true s = (now ⊕ num 7200, refl, inl refl)
  request_token-IsGood now (some t) false s = tt

  valid-lt :
      (now : F) (o : Option (String × F)) (p : String × F)
      → valid now o ≡ some p
      → d.lt now p.1 ≡ true
  unfolding valid
  valid-lt now none p e = cc
  valid-lt now (some (t, x)) p e = ground (arith, e, Bool-cases (d.lt now x))

  in_memory-eq :
      (now : F) (o : Option (String × F)) (p : String × F)
      → in_memory now o ≡ some p
      → (o ≡ some p) × (d.lt now p.1 ≡ true)
  unfolding in_memory
  in_memory-eq now none p e = (cc, cc)
  in_memory-eq now (some (t, x)) p e = (
    ground (arith, e, Bool-cases (not (str_eq t "") && now <? x)),
    ground (arith, e, Bool-cases (str_eq t ""), Bool-cases (d.lt now x)),
  )

  -- A token that get_access_token returns is the one in memory after the call, and unless the
  -- server was asked for it, it has not expired.
  pub get_access_token-IsBacked :
      (now : F) (issued : Option String) (written : Bool) (s : TokenState F)
      → let r = get_access_token now issued written s in IsBacked now r r.token
  unfolding get_access_token
  get_access_token-IsBacked now issued written s =
      option_cases (IsGood now) (in_memory now s.memory) _ _
        (λ _.
          option_cases (IsGood now) (valid now s.file) _ _
            (λ _. request_token-IsGood now issued written s)
            (λ p e. (p.1, refl, inr (valid-lt now s.file p e))))
        (λ p e. (p.1, (in_memory-eq now s.memory p e).0, inr (in_memory-eq now s.memory p e).1))
