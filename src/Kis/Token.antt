-- ===== src/Kis/Token.antt =====
-- `get_access_token` of services/kis/kis_service.py: the token in memory, in the file, or from the server.
-- A token that is the empty text counts as none.
pub mod Fresh
use stock_advisor.Prelude.{
  ◌&&◌, Bool, Option, String, false, if◌then◌else◌, none, not, some, str_eq, true,
}
use stock_advisor.Floats.{◌<?◌, Double, num, ◌⊕◌}
use stock_advisor.Macro.Cache.{expiry}
use stock_advisor.Settings.Repository.{written}

pub record TokenState (F : Type 0) : Type 0 where
  pub memory : Option (String × F)
  pub file : Option (String × F)

-- What a call gives: the token or an exception, the state, and whether the server was asked.
pub record TokenCall (F : Type 0) : Type 0 where
  pub token : Option String
  pub state : TokenState F
  pub asked : Bool

module _ {F : Type 0} ⦃d : Double F⦄ where
  -- A pair of a token and an expiry that still holds.
  unfoldable pub valid : F → Option (String × F) → Option (String × F)
  valid now none = none
  valid now (some (t, expiry)) = if now <? expiry then some (t, expiry) else none

  -- `if cls._access_token and ...`
  unfoldable pub in_memory : F → Option (String × F) → Option (String × F)
  in_memory now none = none
  in_memory now (some (t, expiry)) =
      if not (str_eq t "") && now <? expiry then some (t, expiry) else none

  -- A new token lasts two hours; `issued` is the server's answer, and `written` says whether the file
  -- could be written. An exception of the writing is raised after the token is in memory.
  unfoldable pub request_token : F → Option String → Bool → TokenState F → TokenCall F
  request_token now none written s = record { token = none; state = s; asked = true }
  request_token now (some t) written s =
      let fresh = some (t, now ⊕ num 7200) in
      if written
      then record { token = some t; state = record { memory = fresh; file = fresh }; asked = true }
      else record { token = none; state = record s { memory = fresh }; asked = true }

  unfoldable pub get_access_token : F → Option String → Bool → TokenState F → TokenCall F
  get_access_token now issued written s = elim (in_memory now s.memory) [
    | some (t, e) ↦ record { token = some t; state = s; asked = false }
    | none ↦ elim (valid now s.file) [
      | some (t, e) ↦ record {
        token = some t;
        state = record s { memory = some (t, e) };
        asked = false;
      }
      | none ↦ request_token now issued written s
    ]
  ]
