-- ===== src/Api/Accounts/Examples.antt =====
-- A registration and a login after it, and the theorems at them.
use monitoring_service.Prelude.{ℕ, ◌≡◌, refl, true, some, none, [], ◌∷◌, ltb, if◌then◌else◌}
use monitoring_service.Prelude.Text.{Text, text}
use monitoring_service.Prelude.Text.Str.{strip, is_space}
use monitoring_service.Prelude.Text.Decimal.{str}
use monitoring_service.Model.{User, empty, second}
use monitoring_service.Store.{body, http_exception, add_user}
use monitoring_service.Store.Integrity.Reachable.{Reachable, start, next, user_added}
use monitoring_service.RateLimit.{client_ip, enforce, limit_key, window_of}
use monitoring_service.RateLimit.Memory.{memory}
use monitoring_service.Auth.{
  get_user, get_password_hash, authenticate_user, verify_password, get_current_user,
  create_access_token,
}
use monitoring_service.Auth.Fakes.{plain_jwt, plain_jwt-IsJwt, plain_hasher, plain_hasher-IsHasher}
use monitoring_service.Auth.Sessions.{expiry}
use monitoring_service.Api.Accounts.{
  Services, Credentials, Site, UserRead, user_read, normalised, register_user, register, login_user,
  login,
}
use monitoring_service.Api.Accounts.Login.{login_session, register_login}

abbrev services : Services
services = record {
  redis = memory;
  jwt = plain_jwt;
  hasher = plain_hasher;
  tokens = record {
    secret_key = text "k";
    algorithm = text "HS256";
    access_token_expire_minutes = 30;
  };
  lower = λ s. s;
  dummy_salt = 0;
  allow_registration = true;
}

abbrev ann : Credentials
ann = record {
  host = some (text "::1");
  email = text " ann@b.c";
  password = text "secret";
  ip_time = second;
  email_time = second;
  made_at = second;
  salt = 7;
}

abbrev nobody : Site services
nobody = record { limiter = record { store = []; rate_limited = [] }; db = empty; calls = [] }

abbrev account : UserRead
account = record { id = 1; email = text "ann@b.c"; created_at = second }

registered : (register services ann nobody).1 ≡ body account
unfolding register register_user enforce client_ip limit_key window_of str get_user add_user
    get_password_hash strip is_space
registered = refl

register_login_example :
    (token : Text) × ((login_user services ann (register services ann nobody).0.db []).0
      ≡ body token)
    × (u : User) × (account ≡ user_read u)
    × ((now : ℕ)
        → get_current_user plain_jwt services.tokens now token (register services ann nobody).0.db
          ≡ (if ltb now (expiry services.tokens second) then body u else http_exception 401))
register_login_example =
    register_login services plain_jwt-IsJwt plain_hasher-IsHasher ann ann nobody account [] start
      registered refl refl

abbrev after : Site services
after = record nobody { db = (add_user (text "ann@b.c") (7 ∷ text "secret") second empty).0 }

after-Reachable : Reachable after.db
after-Reachable = next start (user_added (text "ann@b.c") (7 ∷ text "secret") second empty)

abbrev token : Text
token = create_access_token plain_jwt services.tokens second (str 1) none

logged_in : (login services ann after).1 ≡ body token
unfolding login login_user enforce client_ip limit_key window_of str get_user add_user
    authenticate_user verify_password create_access_token strip is_space
logged_in = refl

login_session_example :
    (u : User) × (get_user (normalised services (text " ann@b.c")) after.db ≡ some u)
    × (plain_hasher.verify (text "secret") u.hashed_password ≡ true)
    × ((now : ℕ)
        → get_current_user plain_jwt services.tokens now token after.db
          ≡ (if ltb now (expiry services.tokens second) then body u else http_exception 401))
login_session_example =
    login_session services plain_jwt-IsJwt ann after token after-Reachable logged_in
