-- ===== src/Seed/Examples.antt =====
-- Two runs of the script on a database with another user, and the theorem at them.
use monitoring_service.Prelude.{◌≡◌, some, true, All}
use monitoring_service.Prelude.Text.{text}
use monitoring_service.Model.{User, Database, empty}
use monitoring_service.Auth.{get_user}
use monitoring_service.Auth.Fakes.{plain_hasher}
use monitoring_service.Store.{add_user}
use monitoring_service.Seed.{demo_email, demo_endpoints, Seeding, owns, main}
use monitoring_service.Seed.Again.{main-main}

abbrev others : Database
others = (add_user (text "ann@b.c") (text "hash") 3 empty).0

abbrev first_run : Seeding
first_run = record { password = text "demo"; salt = 7; created_at = 10; times = λ _. (11, 12) }

abbrev second_run : Seeding
second_run = record { password = text "other"; salt = 8; created_at = 20; times = λ _. (21, 22) }

main-main_example :
    ((u : User) × (get_user demo_email (main plain_hasher first_run others) ≡ some u)
      × All
          (λ e. owns u.id e.0 (main plain_hasher first_run others).endpoints ≡ true)
          demo_endpoints)
    × (main plain_hasher second_run (main plain_hasher first_run others)
        ≡ main plain_hasher first_run others)
main-main_example = main-main plain_hasher first_run second_run others
