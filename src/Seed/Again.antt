-- ===== src/Seed/Again.antt =====
-- scripts/seed_demo.py: what a run leaves, and a run after it.
use monitoring_service.Prelude.{
  ℕ, ◌≡◌, ◌∙◌, ap, refl, inl, inr, Bool, true, false, ◌&&◌, Option, none, some, List, [], ◌∷◌, ◌++◌,
  arith, All, ◌==◌, Bool-cases, Option-cases,
}
use monitoring_service.Prelude.Text.{Text, text_eq, text_eq_refl}
use monitoring_service.Prelude.Tables.{any_where, any_where-append, first_where, first_where-append}
use monitoring_service.Model.{User, Endpoint, Database}
use monitoring_service.Auth.{Hasher, get_user, get_password_hash}
use monitoring_service.Store.{add_user, add_endpoint, user_exists, email_taken}
use monitoring_service.Seed.{
  demo_email, demo_endpoints, Seeding, owns, seed_endpoint, seed_endpoints, seed_user, main,
}

any_where_kept :
    (test : Endpoint → Bool) (rows : List Endpoint) (new : Endpoint)
    → any_where test rows ≡ true
    → any_where test (rows ++ new ∷ []) ≡ true
any_where_kept test rows new h = ground (arith, any_where-append test rows (new ∷ []))

any_where_new :
    (test : Endpoint → Bool) (rows : List Endpoint) (new : Endpoint)
    → test new ≡ true
    → any_where test (rows ++ new ∷ []) ≡ true
any_where_new test rows new h = ground (arith, any_where-append test rows (new ∷ []))

own_row : (user_id : ℕ) (url : Text) → (user_id == user_id && text_eq url url) ≡ true
own_row user_id url = ground (arith, text_eq_refl url)

module _ (s : Seeding) (user_id : ℕ) where
  users-seed_endpoint :
      (e : Text × ℕ) (db : Database) → (seed_endpoint s user_id e db).users ≡ db.users
  unfolding seed_endpoint add_endpoint
  users-seed_endpoint e db = ground arith

  users-seed_endpoints :
      (es : List (Text × ℕ)) (db : Database) → (seed_endpoints s user_id es db).users ≡ db.users
  unfolding seed_endpoints
  users-seed_endpoints [] db = refl
  users-seed_endpoints (e ∷ es) db =
      users-seed_endpoints es (seed_endpoint s user_id e db) ∙ users-seed_endpoint e db

  -- An endpoint that is there stays, and the one that a pass of the loop is for is there after it.
  owns-seed_endpoint :
      (e : Text × ℕ) (url : Text) (db : Database)
      → owns user_id url db.endpoints ≡ true
      → owns user_id url (seed_endpoint s user_id e db).endpoints ≡ true
  unfolding seed_endpoint add_endpoint
  owns-seed_endpoint e url db h = elim (Bool-cases (owns user_id e.0 db.endpoints)) [
    | inl there ↦ rw there h
    | inr new ↦ elim (Bool-cases (user_exists user_id db)) [
      | inl u ↦ rw (new, u) (any_where_kept _ db.endpoints _ h)
      | inr u ↦ rw (new, u) h
    ]
  ]

  owns-seed_endpoint_self :
      (e : Text × ℕ) (db : Database)
      → user_exists user_id db ≡ true
      → owns user_id e.0 (seed_endpoint s user_id e db).endpoints ≡ true
  unfolding seed_endpoint add_endpoint
  owns-seed_endpoint_self e db h = elim (Bool-cases (owns user_id e.0 db.endpoints)) [
    | inl there ↦ rw there there
    | inr new ↦ rw (new, h) (any_where_new _ db.endpoints _ (own_row user_id e.0))
  ]

  owns-seed_endpoints :
      (es : List (Text × ℕ)) (url : Text) (db : Database)
      → owns user_id url db.endpoints ≡ true
      → owns user_id url (seed_endpoints s user_id es db).endpoints ≡ true
  unfolding seed_endpoints
  owns-seed_endpoints [] url db h = h
  owns-seed_endpoints (e ∷ es) url db h =
      owns-seed_endpoints es url (seed_endpoint s user_id e db) (owns-seed_endpoint e url db h)

  seed_endpoints-owned :
      (es : List (Text × ℕ)) (db : Database)
      → user_exists user_id db ≡ true
      → All (λ e. owns user_id e.0 (seed_endpoints s user_id es db).endpoints ≡ true) es
  unfolding seed_endpoints
  seed_endpoints-owned [] db h = tt
  seed_endpoints-owned (e ∷ es) db h =
      let db' = seed_endpoint s user_id e db in
      (
        owns-seed_endpoints es e.0 db' (owns-seed_endpoint_self e db h),
        seed_endpoints-owned es db' (
            ap (λ us. user_exists user_id (record db { users = us })) (users-seed_endpoint e db)
            ∙ h),
      )

  seed_endpoints_again :
      (es : List (Text × ℕ)) (db : Database)
      → All (λ e. owns user_id e.0 db.endpoints ≡ true) es
      → seed_endpoints s user_id es db ≡ db
  unfolding seed_endpoints seed_endpoint
  seed_endpoints_again [] db h = refl
  seed_endpoints_again (e ∷ es) db h = rw h.0 (seed_endpoints_again es db h.1)

free_email :
    (email : Text) (us : List User)
    → first_where (λ (u : User). text_eq u.email email) us ≡ none
    → email_taken email us ≡ false
free_email email [] h = refl
free_email email (u ∷ us) h = ground (arith, free_email email us)

user_exists-first_where :
    (test : User → Bool) (us : List User) (u : User) (db : Database)
    → db.users ≡ us
    → first_where test us ≡ some u
    → user_exists u.id db ≡ true
user_exists-first_where test us u db e h = rw e (go us h)
  where
    go :
        (us : List User)
        → first_where test us ≡ some u
        → elim (first_where (λ (x : User). x.id == u.id) us) [ none ↦ false | some _ ↦ true ] ≡ true
    go [] h = cc
    go (x ∷ us) h = ground (arith, go us)

-- The account is found after the run, and is the one that the loop has used.
seed_user_found :
    (hasher : Hasher) (s : Seeding) (db : Database)
    → (u : User) × ((seed_user hasher s db).1 ≡ some u)
      × (get_user demo_email (seed_user hasher s db).0 ≡ some u)
unfolding seed_user get_user add_user
seed_user_found hasher s db = elim (Option-cases (get_user demo_email db)) [
  | inr (u, found) ↦ (u, ground arith, ground arith)
  | inl new ↦
      let free = free_email demo_email db.users new in
      let made : User = record {
        id = db.seq.user_seq;
        email = demo_email;
        hashed_password = get_password_hash hasher s.salt s.password;
        created_at = s.created_at;
      } in
      (
        made,
        rw (seed_user, new, free) refl,
        rw (seed_user, new, free) (first_where-append _ db.users _ new refl),
      )
]

main_made :
    (hasher : Hasher) (s : Seeding) (db : Database) (u : User)
    → (seed_user hasher s db).1 ≡ some u
    → main hasher s db ≡ seed_endpoints s u.id demo_endpoints (seed_user hasher s db).0
unfolding main
main_made hasher s db u h = rw (main, h) refl

seed_user_there :
    (hasher : Hasher) (s : Seeding) (db : Database) (u : User)
    → get_user demo_email db ≡ some u
    → seed_user hasher s db ≡ (db, some u)
unfolding seed_user
seed_user_there hasher s db u h = rw (seed_user, h) refl

main_there :
    (hasher : Hasher) (s : Seeding) (db : Database) (u : User)
    → get_user demo_email db ≡ some u
    → main hasher s db ≡ seed_endpoints s u.id demo_endpoints db
main_there hasher s db u h =
    let there = seed_user_there hasher s db u h in
    main_made hasher s db u (ap (λ q. q.1) there)
    ∙ ap (λ (q : Database × Option User). seed_endpoints s u.id demo_endpoints q.0) there

-- Whatever the database, a run of the script leaves the demo account with an endpoint for each of
-- the demo URLs, and another run after it, whatever its password and times, changes nothing.
pub main-main :
    (hasher : Hasher) (s again : Seeding) (db : Database)
    → ((u : User) × (get_user demo_email (main hasher s db) ≡ some u)
        × All (λ e. owns u.id e.0 (main hasher s db).endpoints ≡ true) demo_endpoints)
      × (main hasher again (main hasher s db) ≡ main hasher s db)
unfolding get_user
main-main hasher s again db =
    let (u, made, found) = seed_user_found hasher s db in
    let db' = (seed_user hasher s db).0 in
    let left = seed_endpoints s u.id demo_endpoints db' in
    let there = user_exists-first_where _ db'.users u db' refl found in
    let owned = seed_endpoints-owned s u.id demo_endpoints db' there in
    let still : get_user demo_email left ≡ some u =
      ap (first_where (λ (x : User). text_eq x.email demo_email))
        (users-seed_endpoints s u.id demo_endpoints db')
      ∙ found in
    rw (main_made hasher s db u made) (
      (u, still, owned),
      main_there hasher again left u still
          ∙ seed_endpoints_again again u.id demo_endpoints left owned,
    )
