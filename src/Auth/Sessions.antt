-- ===== src/Auth/Sessions.antt =====
-- app/auth.py: from a token's making to its end.
use monitoring_service.Prelude.{ℕ, ◌+◌, ◌*◌, ◌/◌, ◌≡◌, Bool, none, some, arith, ltb, if◌then◌else◌}
use monitoring_service.Prelude.Text.{Text}
use monitoring_service.Prelude.Text.Decimal.{str, int-str}
use monitoring_service.Prelude.Tables.{first_where}
use monitoring_service.Model.{User, Database, second}
use monitoring_service.Store.Integrity.Users.{DistinctUsers, found_by_id}
use monitoring_service.Store.{body, http_exception}
use monitoring_service.Auth.{
  Claims, Jwt, TokenSettings, user_from_token, get_current_user, create_access_token, expire_time,
}

-- What PyJWT documents: a token decodes with its key and its algorithm to its claims, until the
-- second of its `exp`, which it stores without a fraction.
pub record IsJwt (jwt : Jwt) : Type 0 where
  pub decodes :
      (claims : Claims) (key algorithm : Text) (now : ℕ)
      → jwt.decode now (jwt.encode claims key algorithm) key algorithm ≡ (
          if ltb now (claims.exp / second * second)
          then some (record { sub = some claims.sub })
          else none)

-- The time up to which a token that is made at `now` is taken.
abbrev pub expiry : TokenSettings → ℕ → ℕ
expiry settings now = (expire_time settings + now) / second * second

module _ (jwt : Jwt) (law : IsJwt jwt) (settings : TokenSettings) where
  -- Where users' keys are distinct, a token that is made for a stored user is that user's until its
  -- expiry, and is refused with 401 from then on.
  pub token_lifetime :
      (test : User → Bool) (db : Database) (user : User) (made now : ℕ)
      → DistinctUsers db.users
      → first_where test db.users ≡ some user
      → get_current_user jwt settings now
          (create_access_token jwt settings made (str user.id) none)
          db
        ≡ (if ltb now (expiry settings made) then body user else http_exception 401)
  unfolding get_current_user user_from_token create_access_token
  token_lifetime test db user made now d h = ground (
    arith,
    law.decodes (record { sub = str user.id; exp = expire_time settings + made })
        settings.secret_key settings.algorithm now,
    int-str user.id,
    found_by_id test db.users user d h,
  )
