-- ===== src/Store/Status.antt =====
-- app/db.py: the status query of the endpoint list, and the count of overdue endpoints.
pub mod Overdue
use monitoring_service.Prelude.{
  ℕ, zero, suc, ◌+◌, ◌*◌, Bool, false, ◌&&◌, Option, none, some, List, [], ◌∷◌, map, ltb, leb, ◌==◌,
  if◌then◌else◌,
}
use monitoring_service.Prelude.Text.{Text}
use monitoring_service.Prelude.Tables.{select, count_where, first_where}
use monitoring_service.Model.{Endpoint, CheckResult, Database, second}
use monitoring_service.Dispatcher.{latest_result}

pub record EndpointRead : Type 0 where
  pub id : ℕ
  pub url : Text
  pub interval_seconds : ℕ
  pub is_active : Bool
  pub next_check_at : ℕ
  pub latest_status_code : Option ℕ
  pub latest_checked_at : Option ℕ
  pub is_overdue : Bool

-- GREATEST passes over NULL.
abbrev pub greatest : Option ℕ → ℕ → ℕ
greatest none b = b
greatest (some a) b = if leb a b then b else a

abbrev pub checked_at_of : Option CheckResult → Option ℕ
checked_at_of none = none
checked_at_of (some r) = some r.checked_at

abbrev pub status_code_of : Option CheckResult → Option ℕ
status_code_of none = none
status_code_of (some r) = r.status_code

-- e.is_active AND now() > GREATEST(…) + (interval_seconds + :grace) * INTERVAL '1 second', for the
-- latest result `lr` of the lateral join.
unfoldable pub is_overdue : ℕ → ℕ → Option CheckResult → Endpoint → Bool
is_overdue grace now lr e =
    e.is_active
    && ltb (greatest (checked_at_of lr) e.monitoring_since + (e.interval_seconds + grace) * second)
        now

unfoldable pub read_endpoint : ℕ → ℕ → List CheckResult → Endpoint → EndpointRead
read_endpoint grace now results e =
    let lr = latest_result e.id results in
    record {
      id = e.id;
      url = e.url;
      interval_seconds = e.interval_seconds;
      is_active = e.is_active;
      next_check_at = e.next_check_at;
      latest_status_code = status_code_of lr;
      latest_checked_at = checked_at_of lr;
      is_overdue = is_overdue grace now lr e;
    }

-- ORDER BY e.id
unfoldable pub insert_by_id : Endpoint → List Endpoint → List Endpoint
insert_by_id e [] = e ∷ []
insert_by_id e (f ∷ es) = if leb e.id f.id then e ∷ f ∷ es else f ∷ insert_by_id e es

unfoldable pub order_by_id : List Endpoint → List Endpoint
order_by_id [] = []
order_by_id (e ∷ es) = insert_by_id e (order_by_id es)

-- LIMIT and OFFSET
abbrev pub take {ℓ} : {A : Type ℓ} → ℕ → List A → List A
take zero xs = []
take (suc n) [] = []
take (suc n) (x ∷ xs) = x ∷ take n xs

abbrev pub drop {ℓ} : {A : Type ℓ} → ℕ → List A → List A
drop zero xs = xs
drop (suc n) [] = []
drop (suc n) (x ∷ xs) = drop n xs

unfoldable pub get_endpoints_with_status : ℕ → ℕ → ℕ → ℕ → ℕ → Database → List EndpointRead
get_endpoints_with_status grace now user_id limit offset db =
    map (read_endpoint grace now db.results) (
      take limit
        (drop offset (order_by_id (select (λ (e : Endpoint). e.user_id == user_id) db.endpoints))))

unfoldable pub get_endpoint_with_status : ℕ → ℕ → ℕ → ℕ → Database → Option EndpointRead
get_endpoint_with_status grace now endpoint_id user_id db =
    elim (first_where (λ (e : Endpoint). e.user_id == user_id && e.id == endpoint_id)
      db.endpoints) [ none ↦ none | some e ↦ some (read_endpoint grace now db.results e) ]

-- The WHERE of the count, a text of its own: `lr` has the column `checked_at` alone.
unfoldable pub is_counted : ℕ → ℕ → Option ℕ → Endpoint → Bool
is_counted grace now checked_at e =
    e.is_active
    && ltb (greatest checked_at e.monitoring_since + (e.interval_seconds + grace) * second) now

unfoldable pub count_overdue_endpoints : ℕ → ℕ → Database → ℕ
count_overdue_endpoints grace now db =
    count_where
      (λ (e : Endpoint). is_counted grace now (checked_at_of (latest_result e.id db.results)) e)
      db.endpoints
