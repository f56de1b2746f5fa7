-- ===== src/Auth.antt =====
-- app/auth.py: tokens and passwords. `Jwt` stands for PyJWT and `Hasher` for pwdlib.
mod Examples
pub mod Fakes
pub mod Sessions
pub mod Passwords
use monitoring_service.Prelude.{
  ℕ, ◌+◌, ◌*◌, Bool, true, false, ◌&&◌, Option, none, some, List, [], ◌∷◌, ◌++◌, ◌==◌,
  if◌then◌else◌,
}
use monitoring_service.Prelude.Text.{Text, text, text_eq}
use monitoring_service.Prelude.Text.Decimal.{int}
use monitoring_service.Prelude.Tables.{first_where}
use monitoring_service.Model.{User, Database, second}
use monitoring_service.Store.{Response, body, http_exception}

-- The claims of `create_access_token`: `exp` is the time of a `datetime`.
pub record Claims : Type 0 where
  pub sub : Text
  pub exp : ℕ

-- What `decode` returns, as far as it is read: `sub` may be missing.
pub record Payload : Type 0 where
  pub sub : Option Text

-- `encode` with a key and an algorithm; `decode` at a time, `none` for an `InvalidTokenError`.
pub record Jwt : Type 0 where
  pub encode : Claims → Text → Text → Text
  pub decode : ℕ → Text → Text → Text → Option Payload

-- A hash is made with a random salt.
pub record Hasher : Type 0 where
  pub hash : ℕ → Text → Text
  pub verify : Text → Text → Bool

-- SECRET_KEY, ALGORITHM and ACCESS_TOKEN_EXPIRE_MINUTES of app/config.py.
pub record TokenSettings : Type 0 where
  pub secret_key : Text
  pub algorithm : Text
  pub access_token_expire_minutes : ℕ

-- `User.id == user_id`, for an integer with its sign.
abbrev pub is_id : Bool × ℕ → ℕ → Bool
is_id (true, n) i = n == 0 && i == 0
is_id (false, n) i = i == n

-- ACCESS_TOKEN_EXPIRE_TIME
abbrev pub expire_time : TokenSettings → ℕ
expire_time settings = settings.access_token_expire_minutes * (60 * second)

-- `not(expires_delta)`: None, or a delta of zero.
abbrev pub delta_or_default : TokenSettings → Option ℕ → ℕ
delta_or_default settings none = expire_time settings
delta_or_default settings (some delta) = if delta == 0 then expire_time settings else delta

module _ (jwt : Jwt) (settings : TokenSettings) where
  unfoldable pub user_from_token : ℕ → Text → Database → Option User
  user_from_token now token db =
      elim (jwt.decode now token settings.secret_key settings.algorithm) [
        | none ↦ none
        | some payload ↦ elim payload.sub [
          | none ↦ none
          | some sub ↦ elim (int sub) [
            | none ↦ none
            | some user_id ↦ first_where (λ (u : User). is_id user_id u.id) db.users
          ]
        ]
      ]

  unfoldable pub get_current_user : ℕ → Text → Database → Response User
  get_current_user now token db = elim (user_from_token now token db) [
    | none ↦ http_exception 401
    | some user ↦ body user
  ]

  unfoldable pub create_access_token : ℕ → Text → Option ℕ → Text
  create_access_token now sub expires_delta =
      jwt.encode (record { sub = sub; exp = delta_or_default settings expires_delta + now })
        settings.secret_key settings.algorithm

unfoldable pub get_user : Text → Database → Option User
get_user email db = first_where (λ (u : User). text_eq u.email email) db.users

-- The calls of `password_hash.verify`, each with its password and its hash.
abbrev pub Calls : Type 0
Calls = List (Text × Text)

module _ (hasher : Hasher) where
  unfoldable pub get_password_hash : ℕ → Text → Text
  get_password_hash salt password = hasher.hash salt password

  unfoldable pub verify_password : Text → Text → Calls → Bool × Calls
  verify_password password hashed calls =
      (hasher.verify password hashed, calls ++ (password, hashed) ∷ [])

  -- DUMMY_HASH, made when the module is loaded.
  abbrev pub dummy_hash : ℕ → Text
  dummy_hash salt = hasher.hash salt (text "dummypassword")

  unfoldable pub authenticate_user : ℕ → Text → Text → Database → Calls → Option User × Calls
  authenticate_user dummy_salt email password db calls = elim (get_user email db) [
    | none ↦ (none, (verify_password password (dummy_hash dummy_salt) calls).1)
    | some user ↦
        let (matches, calls') = verify_password password user.hashed_password calls in
        (if matches then some user else none, calls')
  ]
