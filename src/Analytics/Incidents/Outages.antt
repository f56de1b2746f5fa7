-- ===== src/Analytics/Incidents/Outages.antt =====
-- app/db.py, `get_endpoint_incidents`: the query's rows beside the maximal runs of down checks.
use mathlib.Core.List.{reverse-cons, map-append}
use monitoring_service.Prelude.{
  ℕ, ◌-◌, ◌/◌, ◌<◌, ◌≡◌, refl, ap, sym, ◌∙◌, inl, inr, none, List, [], ◌∷◌, ◌++◌, map, reverse,
  arith, All, Bool-cases, length, if◌then◌else◌,
}
use monitoring_service.Prelude.Tables.{All-append}
use monitoring_service.Model.{CheckResult, second}
use monitoring_service.Analytics.Incidents.{
  is_up, mark, Group, group_by_run, Incident, incident_of, incidents_of, min_time, max_time,
  least_error, insert_latest, latest_first, down_rows,
}
use monitoring_service.Analytics.Incidents.Runs.{down_runs, starts_down, prepend}
use monitoring_service.Analytics.Incidents.Numbering.{Increasing, number, grouped-eq-number}
use monitoring_service.Analytics.Incidents.Grouping.{All-reverse, chunks, group-eq-chunks}
use monitoring_service.Analytics.Incidents.Chunks.{
  numbered_down, numbered_down-NonFalling, runs_of, chunks-eq-down_runs,
}

abbrev pub last_time : ℕ → List CheckResult → ℕ
last_time t [] = t
last_time t (r ∷ rs) = last_time r.checked_at rs

-- The outage that a run of checks is.
unfoldable pub outage : List CheckResult → Incident
outage [] = incident_of []
outage (r ∷ rs) = record {
  started_at = r.checked_at;
  ended_at = last_time r.checked_at rs;
  duration_seconds = (last_time r.checked_at rs - r.checked_at) / second;
  checks = length (r ∷ rs);
  error = least_error (r ∷ rs);
}

min_time-first :
    (t : ℕ) (rs : List CheckResult) → All (λ s. t < s.checked_at) rs → min_time t rs ≡ t
unfolding min_time
min_time-first t [] h = refl
min_time-first t (r ∷ rs) h = ground (arith, min_time-first t rs h.1)

max_time-last :
    (t : ℕ) (rs : List CheckResult)
    → All (λ s. t < s.checked_at) rs
    → Increasing rs
    → max_time t rs ≡ last_time t rs
unfolding max_time
max_time-last t [] h g = refl
max_time-last t (r ∷ rs) h g = ground (arith, max_time-last r.checked_at rs g.0 g.1)

incident_of-outage : (run : List CheckResult) → Increasing run → incident_of run ≡ outage run
unfolding incident_of outage
incident_of-outage [] h = refl
incident_of-outage (r ∷ rs) h =
    rw (min_time-first r.checked_at rs h.0, max_time-last r.checked_at rs h.0 h.1) refl

-- a run with a check, all of it after `t`
abbrev After : ℕ → List CheckResult → Type 0
After t [] = ⊥
After t (r ∷ rs) = (t < r.checked_at) × All (λ s. t < s.checked_at) rs

down_runs-After :
    (t : ℕ) (rows : List CheckResult)
    → All (λ s. t < s.checked_at) rows
    → All (After t) (down_runs rows)
unfolding down_runs
down_runs-After t [] h = tt
down_runs-After t (r ∷ rs) h = go (down_runs rs) (down_runs-After t rs h.1)
  where
    go :
        (rest : List (List CheckResult))
        → All (After t) rest
        → All
            (After t)
            (if is_up r then rest else if starts_down rs then prepend r rest else (r ∷ []) ∷ rest)
    go [] g = ground arith
    go ([] ∷ runs) g = absurd g.0
    go ((s ∷ ss) ∷ runs) g = ground (arith, h.0)

abbrev Ascending : List (List CheckResult) → Type 0
Ascending [] = Unit
Ascending ([] ∷ runs) = ⊥
Ascending ((r ∷ rs) ∷ runs) = Increasing (r ∷ rs) × All (After r.checked_at) runs × Ascending runs

down_runs-Ascending : (rows : List CheckResult) → Increasing rows → Ascending (down_runs rows)
unfolding down_runs
down_runs-Ascending [] h = tt
down_runs-Ascending (r ∷ rs) h =
    go (down_runs rs) (down_runs-After r.checked_at rs h.0) (down_runs-Ascending rs h.1)
  where
    go :
        (rest : List (List CheckResult))
        → All (After r.checked_at) rest
        → Ascending rest
        → Ascending
            (if is_up r then rest else if starts_down rs then prepend r rest else (r ∷ []) ∷ rest)
    go [] f g = ground arith
    go ([] ∷ runs) f g = absurd g
    go ((s ∷ ss) ∷ runs) f g = elim (Bool-cases (is_up r)) [
      | inl up ↦ rw up g
      | inr down ↦ elim (Bool-cases (starts_down rs)) [
        | inl on ↦ rw down (rw on ((f.0, g.0), f.1, g.2))
        | inr ends ↦ rw down (rw ends ((tt, tt), f, g))
      ]
    ]

map-outage :
    (runs : List (List CheckResult)) → Ascending runs → map incident_of runs ≡ map outage runs
map-outage [] h = refl
map-outage ([] ∷ runs) h = absurd h
map-outage ((r ∷ rs) ∷ runs) h = cc (incident_of-outage (r ∷ rs) h.0, map-outage runs h.2)

abbrev EarlierThan : Incident → Incident → Type 0
EarlierThan i j = j.started_at < i.started_at

-- every incident starts later than those after it
abbrev Descending : List Incident → Type 0
Descending [] = Unit
Descending (i ∷ is) = All (EarlierThan i) is × Descending is

Descending-snoc :
    (is : List Incident) (j : Incident)
    → Descending is
    → All (λ i. j.started_at < i.started_at) is
    → Descending (is ++ j ∷ [])
Descending-snoc [] j h g = (tt, tt)
Descending-snoc (i ∷ is) j h g =
    (All-append (EarlierThan i) is (j ∷ []) h.0 (g.0, tt), Descending-snoc is j h.1 g.1)

latest_first-Descending : (is : List Incident) → Descending is → latest_first is ≡ is
unfolding latest_first insert_latest
latest_first-Descending [] h = refl
latest_first-Descending (i ∷ is) h =
    ap (insert_latest i) (latest_first-Descending is h.1) ∙ first is h.0
  where
    first : (js : List Incident) → All (EarlierThan i) js → insert_latest i js ≡ i ∷ js
    first [] g = refl
    first (j ∷ js) g = ground arith

map-reverse {ℓ κ} :
    {A : Type ℓ} {B : Type κ} (f : A → B) (xs : List A) → map f (reverse xs) ≡ reverse (map f xs)
map-reverse f [] = refl
map-reverse f (x ∷ xs) =
    ap (map f) (reverse-cons x xs)
    ∙ map-append f (reverse xs) (x ∷ [])
    ∙ ap (λ l. l ++ f x ∷ []) (map-reverse f xs)
    ∙ sym (reverse-cons (f x) (map f xs))

starts-After :
    (t : ℕ) (runs : List (List CheckResult))
    → All (After t) runs
    → All (λ (i : Incident). t < i.started_at) (map outage runs)
unfolding outage
starts-After t [] h = tt
starts-After t ([] ∷ runs) h = absurd h.0
starts-After t ((r ∷ rs) ∷ runs) h = (h.0.0, starts-After t runs h.1)

outages-Descending :
    (runs : List (List CheckResult)) → Ascending runs → Descending (reverse (map outage runs))
unfolding outage
outages-Descending [] h = tt
outages-Descending ([] ∷ runs) h = absurd h
outages-Descending ((r ∷ rs) ∷ runs) h = rw (reverse-cons (outage (r ∷ rs)) (map outage runs)) (
    Descending-snoc (reverse (map outage runs)) (outage (r ∷ rs)) (outages-Descending runs h.2) (
      All-reverse (λ (i : Incident). r.checked_at < i.started_at) (map outage runs)
        (starts-After r.checked_at runs h.1)))

map-incident_of :
    (gs : List Group) → map (λ (g : Group). incident_of g.1) gs ≡ map incident_of (runs_of gs)
map-incident_of [] = refl
map-incident_of (g ∷ gs) = ap (λ l. incident_of g.1 ∷ l) (map-incident_of gs)

-- The groups are the runs, the last first.
runs_of-group :
    (rows : List CheckResult)
    → runs_of (group_by_run (numbered_down 0 none rows)) ≡ reverse (down_runs rows)
runs_of-group rows =
    ap runs_of (group-eq-chunks (numbered_down 0 none rows) (numbered_down-NonFalling 0 none rows))
    ∙ map-reverse (λ (g : Group). g.1) (chunks (numbered_down 0 none rows))
    ∙ ap reverse (chunks-eq-down_runs 0 none rows)

-- Over checks in the order of distinct times, the incidents of the query are the outages of the
-- maximal runs of down checks, the latest first.
pub incidents_of-eq-outages :
    (rows : List CheckResult)
    → Increasing rows
    → incidents_of rows ≡ reverse (map outage (down_runs rows))
unfolding incidents_of numbered_down
incidents_of-eq-outages rows h =
    let runs = down_runs rows in
    let asc = down_runs-Ascending rows h in
    let same : map (λ (g : Group). incident_of g.1)
          (group_by_run (down_rows (number 0 (mark none rows))))
        ≡ reverse (map outage runs) =
      map-incident_of (group_by_run (numbered_down 0 none rows))
      ∙ ap (map incident_of) (runs_of-group rows)
      ∙ map-reverse incident_of runs
      ∙ ap reverse (map-outage runs asc) in
    rw (grouped-eq-number rows h)
      (ap latest_first same ∙ latest_first-Descending _ (outages-Descending runs asc))
