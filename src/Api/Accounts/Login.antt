-- ===== src/Api/Accounts/Login.antt =====
-- app/api.py with app/auth.py: from an account to a token, and from the token back to the account.
use monitoring_service.Prelude.{
  ℕ, ◌≡◌, ◌∙◌, ap, refl, inl, inr, true, none, some, [], ◌∷◌, ◌++◌, arith, ltb, Bool-cases,
  Option-cases, if◌then◌else◌,
}
use monitoring_service.Prelude.Text.{Text, text_eq, text_eq_refl}
use monitoring_service.Prelude.Text.Decimal.{str}
use monitoring_service.Prelude.Tables.{first_where, first_where-append}
use monitoring_service.Model.{User, Database}
use monitoring_service.Store.{body, http_exception, add_user, email_taken}
use monitoring_service.Store.Integrity.Reachable.{Reachable, next, user_added}
use monitoring_service.Store.Integrity.Users.{Reachable-DistinctUsers}
use monitoring_service.Auth.{
  Calls, get_user, get_password_hash, authenticate_user, get_current_user, create_access_token,
}
use monitoring_service.Auth.Passwords.{IsHasher, authenticate_user_lem}
use monitoring_service.Auth.Sessions.{IsJwt, expiry, token_lifetime}
use monitoring_service.Api.Accounts.{
  Services, Credentials, Site, UserRead, user_read, normalised, register_user, register, login_user,
  login,
}

found_in :
    (email : Text) (db' db : Database) (u : User)
    → db'.users ≡ db.users ++ u ∷ []
    → get_user email db ≡ none
    → u.email ≡ email
    → get_user email db' ≡ some u
unfolding get_user
found_in email db' db u added none_before same =
    ap (first_where (λ (x : User). text_eq x.email email)) added
    ∙ first_where-append (λ (x : User). text_eq x.email email) db.users u none_before
        (rw same (text_eq_refl email))

module _ (services : Services) where
  open services use {jwt, hasher, tokens, dummy_salt}

  body-login_user :
      (c : Credentials) (db : Database) (calls : Calls) (token : Text)
      → (login_user services c db calls).0 ≡ body token
      → (u : User) × (get_user (normalised services c.email) db ≡ some u)
        × (hasher.verify c.password u.hashed_password ≡ true)
        × (token ≡ create_access_token jwt tokens c.made_at (str u.id) none)
  unfolding login_user
  body-login_user c db calls token e =
      elim (Option-cases
        (authenticate_user hasher dummy_salt (normalised services c.email) c.password db calls).0) [
          | inl f ↦ ground arith
          | inr (u, f) ↦
              let lemma =
                authenticate_user_lem hasher dummy_salt (normalised services c.email) c.password db
                  calls u in
              let (found, matches) = lemma.0.0 f in (u, found, matches, ground arith)
        ]

  login_user-body :
      (c : Credentials) (db : Database) (calls : Calls) (u : User)
      → get_user (normalised services c.email) db ≡ some u
      → hasher.verify c.password u.hashed_password ≡ true
      → (login_user services c db calls).0
        ≡ body (create_access_token jwt tokens c.made_at (str u.id) none)
  unfolding login_user
  login_user-body c db calls u found matches =
      let lemma =
        authenticate_user_lem hasher dummy_salt (normalised services c.email) c.password db calls
          u in
      rw (login_user, lemma.0.1 (found, matches)) refl

  body-login :
      (c : Credentials) (site : Site services) (token : Text)
      → (login services c site).1 ≡ body token
      → (login_user services c site.db site.calls).0 ≡ body token
  unfolding login
  body-login c site token e = ground arith

  -- In any database that the program's calls lead to: a token that `login` answers is of a stored
  -- user with the request's email, in its normal form, whose hash the password matches; it opens
  -- that user's session until its expiry, and is refused with 401 from then on.
  pub login_session :
      (law : IsJwt jwt) (c : Credentials) (site : Site services) (token : Text)
      → Reachable site.db
      → (login services c site).1 ≡ body token
      → (u : User) × (get_user (normalised services c.email) site.db ≡ some u)
        × (hasher.verify c.password u.hashed_password ≡ true)
        × ((now : ℕ)
            → get_current_user jwt tokens now token site.db
              ≡ (if ltb now (expiry tokens c.made_at) then body u else http_exception 401))
  unfolding get_user
  login_session law c site token r e =
      let (u, found, matches, made) =
        body-login_user c site.db site.calls token (body-login c site token e) in
      (
        u,
        found,
        matches,
        (λ now.
            ap (λ t. get_current_user jwt tokens now t site.db) made
            ∙ token_lifetime jwt law tokens _ site.db u c.made_at now (Reachable-DistinctUsers r)
                found),
      )

  body-register :
      (c : Credentials) (site : Site services) (account : UserRead)
      → (register services c site).1 ≡ body account
      → ((register_user services c site.db).1 ≡ body account)
        × ((register services c site).0.db ≡ (register_user services c site.db).0)
  unfolding register
  body-register c site account e = ground arith

  body-register_user :
      (c : Credentials) (db : Database) (account : UserRead)
      → (register_user services c db).1 ≡ body account
      → (u : User) × (account ≡ user_read u)
        × (get_user (normalised services c.email) (register_user services c db).0 ≡ some u)
        × (u.hashed_password ≡ hasher.hash c.salt c.password)
  unfolding register_user add_user get_password_hash
  body-register_user c db account e =
      let u : User = record {
        id = db.seq.user_seq;
        email = normalised services c.email;
        hashed_password = hasher.hash c.salt c.password;
        created_at = c.made_at;
      } in
      elim (Option-cases (get_user (normalised services c.email) db)) [
        | inr (v, f) ↦ ground arith
        | inl none_before ↦ elim (Bool-cases (email_taken (normalised services c.email) db.users)) [
          | inl taken ↦ ground arith
          | inr free ↦ (
            u,
            ground arith,
            found_in (normalised services c.email) (register_user services c db).0 db u
                (ground arith) none_before refl,
            refl,
          )
        ]
      ]

  register_user-Reachable :
      (c : Credentials) (db : Database) → Reachable db → Reachable (register_user services c db).0
  unfolding register_user
  register_user-Reachable c db r = elim (Option-cases (get_user (normalised services c.email) db)) [
    | inl e ↦ rw (e, register_user) (next r (user_added _ _ c.made_at db))
    | inr (u, e) ↦ rw (e, register_user) r
  ]

  -- An account that `register` has made can log in: past its limits, `login` answers a request with
  -- this email, up to case and white space around, and this password with a token, and the token
  -- opens a session of the account until its expiry. The first database is one that the program's
  -- calls lead to.
  pub register_login :
      (jwt_law : IsJwt jwt) (hasher_law : IsHasher hasher) (c again : Credentials)
      (site : Site services) (account : UserRead) (calls : Calls)
      → Reachable site.db
      → (register services c site).1 ≡ body account
      → normalised services again.email ≡ normalised services c.email
      → again.password ≡ c.password
      → (token : Text) × ((login_user services again (register services c site).0.db calls).0
          ≡ body token)
        × (u : User) × (account ≡ user_read u)
        × ((now : ℕ)
            → get_current_user jwt tokens now token (register services c site).0.db
              ≡ (if ltb now (expiry tokens again.made_at) then body u else http_exception 401))
  unfolding get_user
  register_login jwt_law hasher_law c again site account calls r e same_email same_password =
      let (made, after) = body-register c site account e in
      let db' = (register services c site).0.db in
      let (u, same, found, hashed) = body-register_user c site.db account made in
      let there : get_user (normalised services again.email) db' ≡ some u =
        ap (λ m. get_user m db') same_email
        ∙ ap (get_user (normalised services c.email)) after
        ∙ found in
      let matches : hasher.verify again.password u.hashed_password ≡ true =
        ap (λ p. hasher.verify p u.hashed_password) same_password
        ∙ ap (hasher.verify c.password) hashed
        ∙ hasher_law.matches c.salt c.password in
      (
        create_access_token jwt tokens again.made_at (str u.id) none,
        login_user-body again db' calls u there matches,
        u,
        same,
        (λ now.
            token_lifetime jwt jwt_law tokens _ db' u again.made_at now
              (Reachable-DistinctUsers {db = db'} (rw after (register_user-Reachable c site.db r)))
              there),
      )
