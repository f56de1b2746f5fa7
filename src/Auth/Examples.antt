-- ===== src/Auth/Examples.antt =====
-- One user, and the theorems about tokens and passwords at them.
use monitoring_service.Prelude.{◌≡◌, ◌↔◌, true, some, [], ◌∷◌, ◌++◌}
use monitoring_service.Prelude.Text.{text}
use monitoring_service.Model.{User, Database, empty}
use monitoring_service.Auth.{get_user, authenticate_user}
use monitoring_service.Auth.Fakes.{plain_hasher}
use monitoring_service.Auth.Passwords.{authenticate_user_lem, verified_hash}

abbrev ann : User
ann = record {
  id = 12;
  email = text "ann@b.c";
  hashed_password = b'x' ∷ text "secret";
  created_at = 0;
}

abbrev stored : Database
stored = record empty { users = ann ∷ [] }

authenticate_user_lem_example :
    (((authenticate_user plain_hasher 0 (text "ann@b.c") (text "secret") stored []).0 ≡ some ann)
      ↔ ((get_user (text "ann@b.c") stored ≡ some ann)
          × (plain_hasher.verify (text "secret") ann.hashed_password ≡ true)))
    × ((authenticate_user plain_hasher 0 (text "ann@b.c") (text "secret") stored []).1
        ≡ []
          ++ (text "secret", verified_hash plain_hasher 0 (get_user (text "ann@b.c") stored)) ∷ [])
authenticate_user_lem_example =
    authenticate_user_lem plain_hasher 0 (text "ann@b.c") (text "secret") stored [] ann
