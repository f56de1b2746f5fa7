-- ===== src/Auth/Passwords.antt =====
-- app/auth.py, `authenticate_user`: whom it lets in, and what it costs.
use monitoring_service.Prelude.{ℕ, ◌≡◌, ◌↔◌, true, Option, none, some, [], ◌∷◌, ◌++◌, arith}
use monitoring_service.Prelude.Text.{Text}
use monitoring_service.Model.{User, Database}
use monitoring_service.Auth.{
  Hasher, Calls, get_user, verify_password, authenticate_user, dummy_hash,
}

-- What pwdlib documents: a password matches its own hash.
pub record IsHasher (hasher : Hasher) : Type 0 where
  pub matches :
      (salt : ℕ) (password : Text) → hasher.verify password (hasher.hash salt password) ≡ true

-- The hash that is verified: the user's, or the dummy's where there is no such user.
abbrev pub verified_hash : Hasher → ℕ → Option User → Text
verified_hash hasher dummy_salt none = dummy_hash hasher dummy_salt
verified_hash hasher dummy_salt (some user) = user.hashed_password

-- An email and a password are let in exactly as a stored user with this email whose hash the
-- password matches; and whether or not there is such a user, the password is verified exactly once.
pub authenticate_user_lem :
    (hasher : Hasher) (dummy_salt : ℕ) (email password : Text) (db : Database) (calls : Calls)
    (user : User)
    → (((authenticate_user hasher dummy_salt email password db calls).0 ≡ some user)
        ↔ ((get_user email db ≡ some user) × (hasher.verify password user.hashed_password ≡ true)))
      × ((authenticate_user hasher dummy_salt email password db calls).1
          ≡ calls ++ (password, verified_hash hasher dummy_salt (get_user email db)) ∷ [])
unfolding authenticate_user verify_password
authenticate_user_lem hasher dummy_salt email password db calls user = (ground arith, ground arith)
