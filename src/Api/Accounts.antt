-- ===== src/Api/Accounts.antt =====
-- app/api.py: the routes `register` and `login`. An exception of `enforce` ends the handler with 429.
mod Examples
pub mod Login
use monitoring_service.Prelude.{ℕ, Bool, true, false, Option, none, some, List, [], if◌then◌else◌}
use monitoring_service.Prelude.Text.{Text, text}
use monitoring_service.Prelude.Text.Str.{strip}
use monitoring_service.Prelude.Text.Decimal.{str}
use monitoring_service.Model.{User, Database}
use monitoring_service.RateLimit.{
  Redis, Limiter, Enforced, admitted, too_many_requests, client_ip, enforce,
}
use monitoring_service.Auth.{
  Jwt, Hasher, TokenSettings, Calls, get_user, get_password_hash, authenticate_user,
  create_access_token,
}
use monitoring_service.Store.{Outcome, returns, Response, body, http_exception, add_user}

-- What the routes call: `lower` is `str.lower`, and `dummy_salt` made DUMMY_HASH.
pub record Services : Type 1 where
  pub redis : Redis
  pub jwt : Jwt
  pub hasher : Hasher
  pub tokens : TokenSettings
  pub lower : Text → Text
  pub dummy_salt : ℕ
  pub allow_registration : Bool

-- A request for an account or for a token. The clock is read by each call of `enforce`, for the
-- row or for the token, and the hash of a new password takes a salt.
pub record Credentials : Type 0 where
  pub host : Option Text
  pub email : Text
  pub password : Text
  pub ip_time : ℕ
  pub email_time : ℕ
  pub made_at : ℕ
  pub salt : ℕ

-- `UserRead`
pub record UserRead : Type 0 where
  pub id : ℕ
  pub email : Text
  pub created_at : ℕ

abbrev pub user_read : User → UserRead
user_read u = record { id = u.id; email = u.email; created_at = u.created_at }

module _ (services : Services) where
  open services use {redis, jwt, hasher, tokens, lower, dummy_salt, allow_registration}

  -- What the routes change: the limits' counters, the database, the calls of the password hash.
  pub record Site : Type 0 where
    pub limiter : Limiter redis
    pub db : Database
    pub calls : Calls

  -- `.strip().lower()`
  abbrev pub normalised : Text → Text
  normalised email = lower (strip email)

  -- `register` past its limit.
  unfoldable pub register_user : Credentials → Database → Database × Response UserRead
  register_user c db = elim (get_user (normalised c.email) db) [
    | some _ ↦ (db, http_exception 400)
    | none ↦
        let (db', added) =
          add_user (normalised c.email) (get_password_hash hasher c.salt c.password) c.made_at db in
        (db', elim added [ returns user ↦ body (user_read user) | _ ↦ http_exception 400 ])
  ]

  unfoldable pub register : Credentials → Site → Site × Response UserRead
  register c site =
      if allow_registration
      then (let (limiter, ip) =
            enforce redis (text "register_ip") (client_ip c.host) 5 3600 c.ip_time site.limiter in
          let site' : Site = record site { limiter = limiter } in
          elim ip [
            | too_many_requests _ ↦ (site', http_exception 429)
            | admitted ↦
                let (db, answer) = register_user c site.db in (record site' { db = db }, answer)
          ])
      else (site, http_exception 403)

  -- `login` past its limits: the access token.
  unfoldable pub login_user : Credentials → Database → Calls → Response Text × Calls
  login_user c db calls =
      let (user, calls') =
        authenticate_user hasher dummy_salt (normalised c.email) c.password db calls in
      (
        elim user [
          | none ↦ http_exception 401
          | some u ↦ body (create_access_token jwt tokens c.made_at (str u.id) none)
        ],
        calls',
      )

  unfoldable pub login : Credentials → Site → Site × Response Text
  login c site =
      let (limiter, ip) =
        enforce redis (text "login_ip") (client_ip c.host) 20 60 c.ip_time site.limiter in
      elim ip [
        | too_many_requests _ ↦ (record site { limiter = limiter }, http_exception 429)
        | admitted ↦
            let (limiter', email) =
              enforce redis (text "login_email") (normalised c.email) 5 60 c.email_time limiter in
            elim email [
              | too_many_requests _ ↦ (record site { limiter = limiter' }, http_exception 429)
              | admitted ↦
                  let (answer, calls') = login_user c site.db site.calls in
                  (record site { limiter = limiter'; calls = calls' }, answer)
            ]
      ]
