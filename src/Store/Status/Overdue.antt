-- ===== src/Store/Status/Overdue.antt =====
-- app/db.py: what is overdue on the page of endpoints, in the gauge and after an edit; its pages.
use monitoring_service.Prelude.{
  ℕ, zero, suc, ◌+◌, ◌*◌, ◌≤◌, ◌≡◌, ap, ◌∙◌, sym, refl, inl, inr, Bool, not, ltb, ◌&&◌, ◌||◌,
  Option-cases, true, false, Option, none, some, List, [], ◌∷◌, ◌++◌, map, arith, ◌==◌,
}
use monitoring_service.Prelude.Tables.{select, count_where, all_where}
use monitoring_service.Model.{Endpoint, CheckResult, Database, second}
use monitoring_service.Dispatcher.{latest_result}
use monitoring_service.Store.{EndpointPatch, apply_patch, reschedules, patched}
use monitoring_service.Store.Status.{
  EndpointRead, greatest, checked_at_of, is_overdue, is_counted, read_endpoint, take, drop,
  order_by_id, get_endpoints_with_status, count_overdue_endpoints,
}

abbrev pub overdue_reads : List EndpointRead → ℕ
overdue_reads = count_where (λ (r : EndpointRead). r.is_overdue)

-- Neither the start of the monitoring nor any result of the endpoint is within `d` of the time.
unfoldable pub is_silent : ℕ → ℕ → List CheckResult → Endpoint → Bool
is_silent d now results e =
    ltb (e.monitoring_since + d) now
    && all_where (λ (r : CheckResult). not (r.endpoint_id == e.id) || ltb (r.checked_at + d) now)
        results

-- What overdue is to mean: the endpoint is active, and an interval and the grace have gone by
-- since its monitoring began and since every one of its results.
abbrev pub is_late : ℕ → ℕ → List CheckResult → Endpoint → Bool
is_late grace now results e =
    e.is_active && is_silent ((e.interval_seconds + grace) * second) now results e

latest-checked :
    (d now i : ℕ) (results : List CheckResult)
    → all_where
        (λ (r : CheckResult). not (r.endpoint_id == i) || ltb (r.checked_at + d) now)
        results
      ≡ (elim (latest_result i results) [ none ↦ true | some l ↦ ltb (l.checked_at + d) now ])
unfolding latest_result
latest-checked d now i [] = refl
latest-checked d now i (r ∷ rs) = elim (Option-cases (latest_result i rs)) [
  | inl e ↦ ground (arith, latest-checked d now i rs)
  | inr (l, e) ↦ ground (arith, latest-checked d now i rs)
]

greatest_le : (a : Option ℕ) (b : ℕ) → b ≤ greatest a b
greatest_le none b = omega arith
greatest_le (some a) b = ground arith

since-apply_patch :
    (now : ℕ) (p : EndpointPatch) (e : Endpoint)
    → reschedules p e ≡ true
    → ((apply_patch now p e).monitoring_since ≡ now)
      × ((apply_patch now p e).interval_seconds ≡ patched p.interval_seconds e.interval_seconds)
unfolding apply_patch
since-apply_patch now p e h = rw h (refl, refl)

not_overdue_before :
    (grace later : ℕ) (lr : Option CheckResult) (e : Endpoint)
    → later ≤ e.monitoring_since + (e.interval_seconds + grace) * second
    → is_overdue grace later lr e ≡ false
unfolding is_overdue
not_overdue_before grace later lr e h =
    ground (arith, greatest_le (checked_at_of lr) e.monitoring_since)

-- Both queries find overdue what is late.
after_both :
    (d now since : ℕ) (lr : Option CheckResult)
    → ltb (greatest (checked_at_of lr) since + d) now
      ≡ (ltb (since + d) now && (elim lr [ none ↦ true | some l ↦ ltb (l.checked_at + d) now ]))
after_both d now since none = ground arith
after_both d now since (some l) = ground arith

is_counted-is_late :
    (grace now : ℕ) (results : List CheckResult) (e : Endpoint)
    → is_counted grace now (checked_at_of (latest_result e.id results)) e
      ≡ is_late grace now results e
unfolding is_counted is_silent
is_counted-is_late grace now results e =
    let d = (e.interval_seconds + grace) * second in
    ap (λ b. e.is_active && b)
      (after_both d now e.monitoring_since (latest_result e.id results)
        ∙ ap (λ b. ltb (e.monitoring_since + d) now && b) (sym (latest-checked d now e.id results)))

is_overdue-is_late :
    (grace now : ℕ) (results : List CheckResult) (e : Endpoint)
    → is_overdue grace now (latest_result e.id results) e ≡ is_late grace now results e
unfolding is_overdue is_silent
is_overdue-is_late grace now results e =
    let d = (e.interval_seconds + grace) * second in
    ap (λ b. e.is_active && b)
      (after_both d now e.monitoring_since (latest_result e.id results)
        ∙ ap (λ b. ltb (e.monitoring_since + d) now && b) (sym (latest-checked d now e.id results)))

count_where_same :
    (f g : Endpoint → Bool) (es : List Endpoint)
    → ((e : Endpoint) → f e ≡ g e)
    → count_where f es ≡ count_where g es
count_where_same f g [] h = refl
count_where_same f g (e ∷ es) h = rw (h e, count_where_same f g es h) refl

overdue_reads-late :
    (grace now : ℕ) (results : List CheckResult) (es : List Endpoint)
    → overdue_reads (map (read_endpoint grace now results) es)
      ≡ count_where (is_late grace now results) es
unfolding read_endpoint
overdue_reads-late grace now results [] = refl
overdue_reads-late grace now results (e ∷ es) =
    rw (is_overdue-is_late grace now results e, overdue_reads-late grace now results es) refl

-- The count of the gauge is the number of endpoints, of all users, that are late, and so many are
-- shown as overdue by a read of every endpoint at that time.
pub count_overdue-late :
    (grace now : ℕ) (db : Database)
    → (count_overdue_endpoints grace now db
        ≡ count_where (is_late grace now db.results) db.endpoints)
      × (overdue_reads (map (read_endpoint grace now db.results) db.endpoints)
          ≡ count_where (is_late grace now db.results) db.endpoints)
unfolding count_overdue_endpoints
count_overdue-late grace now db = (
  count_where_same _ (is_late grace now db.results) db.endpoints
      (is_counted-is_late grace now db.results),
  overdue_reads-late grace now db.results db.endpoints,
)

-- A later read of an endpoint whose edit was a rescheduling one is not overdue until the interval
-- and the grace have passed since the edit, whatever its results.
pub not_overdue-apply_patch :
    (grace now later : ℕ) (p : EndpointPatch) (e : Endpoint) (results : List CheckResult)
    → reschedules p e ≡ true
    → later ≤ now + ((patched p.interval_seconds e.interval_seconds) + grace) * second
    → (read_endpoint grace later results (apply_patch now p e)).is_overdue ≡ false
unfolding read_endpoint
not_overdue-apply_patch grace now later p e results h le =
    let since = since-apply_patch now p e h in
    not_overdue_before grace later (latest_result (apply_patch now p e).id results)
      (apply_patch now p e) (rw (since.0, since.1) le)

zero_add : (m : ℕ) → m ≡ 0 + m
zero_add m = omega arith

suc_add : (n m : ℕ) → suc (n + m) ≡ suc n + m
suc_add n m = omega arith

module _ {ℓ} {A : Type ℓ} where
  take_nil : (n : ℕ) → take {A = A} n [] ≡ []
  take_nil zero = refl
  take_nil (suc n) = refl

  drop_nil : (n : ℕ) → drop {A = A} n [] ≡ []
  drop_nil zero = refl
  drop_nil (suc n) = refl

  take-append-drop : (n m : ℕ) (xs : List A) → take n xs ++ take m (drop n xs) ≡ take (n + m) xs
  take-append-drop zero m xs = ap (λ k. take k xs) (zero_add m)
  take-append-drop (suc n) m [] = take_nil m ∙ sym (take_nil (suc n + m))
  take-append-drop (suc n) m (x ∷ xs) =
      ap (λ r. x ∷ r) (take-append-drop n m xs) ∙ ap (λ k. take k (x ∷ xs)) (suc_add n m)

  drop-drop : (n m : ℕ) (xs : List A) → drop m (drop n xs) ≡ drop (n + m) xs
  drop-drop zero m xs = ap (λ k. drop k xs) (zero_add m)
  drop-drop (suc n) m [] = drop_nil m ∙ sym (drop_nil (suc n + m))
  drop-drop (suc n) m (x ∷ xs) = drop-drop n m xs ∙ ap (λ k. drop k (x ∷ xs)) (suc_add n m)

  map-append {κ} :
      {B : Type κ} (f : A → B) (xs ys : List A) → map f (xs ++ ys) ≡ map f xs ++ map f ys
  map-append f [] ys = refl
  map-append f (x ∷ xs) ys = ap (λ r. f x ∷ r) (map-append f xs ys)

-- Two pages that follow each other are one page of their joint size: paging neither repeats nor
-- skips an endpoint.
pub pages-append :
    (grace now user_id n m offset : ℕ) (db : Database)
    → get_endpoints_with_status grace now user_id n offset db
        ++ get_endpoints_with_status grace now user_id m (offset + n) db
      ≡ get_endpoints_with_status grace now user_id (n + m) offset db
unfolding get_endpoints_with_status
pages-append grace now user_id n m offset db =
    let rows = order_by_id (select (λ (e : Endpoint). e.user_id == user_id) db.endpoints) in
    sym (
      map-append (read_endpoint grace now db.results) (take n (drop offset rows))
        (take m (drop (offset + n) rows)))
    ∙ ap (map (read_endpoint grace now db.results)) (
        ap (λ r. take n (drop offset rows) ++ take m r) (sym (drop-drop offset n rows))
        ∙ take-append-drop n m (drop offset rows))
