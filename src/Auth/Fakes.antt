-- ===== src/Auth/Fakes.antt =====
-- A token format and a password hash that meet what `IsJwt` and `IsHasher` ask.
use monitoring_service.Prelude.{
  ℕ, ◌*◌, ◌/◌, refl, Bool, false, Option, none, some, [], ◌∷◌, ltb, if◌then◌else◌,
}
use monitoring_service.Prelude.Text.{Text, text_eq, text_eq_refl}
use monitoring_service.Model.{second}
use monitoring_service.Auth.{Payload, Jwt, Hasher}
use monitoring_service.Auth.Sessions.{IsJwt}
use monitoring_service.Auth.Passwords.{IsHasher}

-- The time stands before the subject.
abbrev pub plain_decode : ℕ → Text → Option Payload
plain_decode now [] = none
plain_decode now (exp ∷ sub) =
    if ltb now (exp / second * second) then some (record { sub = some sub }) else none

abbrev pub plain_jwt : Jwt
plain_jwt = record {
  encode = λ claims key algorithm. claims.exp ∷ claims.sub;
  decode = λ now token key algorithm. plain_decode now token;
}

pub plain_jwt-IsJwt : IsJwt plain_jwt
plain_jwt-IsJwt = record { decodes = λ claims key algorithm now. refl }

-- The salt stands before the password.
abbrev pub plain_verify : Text → Text → Bool
plain_verify password [] = false
plain_verify password (salt ∷ hashed) = text_eq password hashed

abbrev pub plain_hasher : Hasher
plain_hasher = record { hash = λ salt password. salt ∷ password; verify = plain_verify }

pub plain_hasher-IsHasher : IsHasher plain_hasher
plain_hasher-IsHasher = record { matches = λ salt password. text_eq_refl password }
