-- ===== src/Seed.antt =====
-- scripts/seed_demo.py: the demo account with its endpoints.
pub mod Again
mod Examples
use monitoring_service.Prelude.{
  ℕ, Bool, true, false, ◌&&◌, Option, none, some, List, [], ◌∷◌, ◌==◌, if◌then◌else◌,
}
use monitoring_service.Prelude.Text.{Text, text, text_eq}
use monitoring_service.Prelude.Tables.{any_where}
use monitoring_service.Model.{User, Endpoint, Database}
use monitoring_service.Auth.{Hasher, get_user, get_password_hash}
use monitoring_service.Store.{returns, add_user, add_endpoint}

abbrev pub demo_email : Text
demo_email = text "demo@example.com"

abbrev pub demo_endpoints : List (Text × ℕ)
demo_endpoints =
    (text "https://example.com", 60)
    ∷ (text "https://www.wikipedia.org", 120)
    ∷ (text "https://httpbin.org/status/200", 60)
    ∷ (text "https://httpbin.org/status/503", 60)
    ∷ []

-- A run of the script: its argument, the salt of a hash, the time of a new account, and the two times
-- that a new endpoint of a URL takes.
pub record Seeding : Type 0 where
  pub password : Text
  pub salt : ℕ
  pub created_at : ℕ
  pub times : Text → ℕ × ℕ

-- `Endpoint.user_id == user.id, Endpoint.url == url`
abbrev pub owns : ℕ → Text → List Endpoint → Bool
owns user_id url = any_where (λ (e : Endpoint). e.user_id == user_id && text_eq e.url url)

-- The body of the loop; the row is one that `add_endpoint` makes.
unfoldable pub seed_endpoint : Seeding → ℕ → Text × ℕ → Database → Database
seed_endpoint s user_id (url, interval) db =
    if owns user_id url db.endpoints
    then db
    else (add_endpoint (s.times url).0 (s.times url).1 user_id url interval db).0

unfoldable pub seed_endpoints : Seeding → ℕ → List (Text × ℕ) → Database → Database
seed_endpoints s user_id [] db = db
seed_endpoints s user_id (e ∷ es) db = seed_endpoints s user_id es (seed_endpoint s user_id e db)

-- The account, found or made; `none` is an exception at the commit.
unfoldable pub seed_user : Hasher → Seeding → Database → Database × Option User
seed_user hasher s db = elim (get_user demo_email db) [
  | some user ↦ (db, some user)
  | none ↦
      let (db', added) =
        add_user demo_email (get_password_hash hasher s.salt s.password) s.created_at db in
      (db', elim added [ returns user ↦ some user | _ ↦ none ])
]

unfoldable pub main : Hasher → Seeding → Database → Database
main hasher s db =
    let (db', user) = seed_user hasher s db in
    elim user [ none ↦ db' | some u ↦ seed_endpoints s u.id demo_endpoints db' ]
