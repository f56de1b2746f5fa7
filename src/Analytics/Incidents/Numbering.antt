-- ===== src/Analytics/Incidents/Numbering.antt =====
-- Over rows at distinct times in order, the window count numbers the runs in one pass.
use mathlib.Core.List.{append_assoc}
use monitoring_service.Prelude.{
  ℕ, ◌+◌, ◌≤◌, ◌<◌, ◌≡◌, refl, ap, ◌∙◌, Bool, ◌&&◌, Option, none, some, List, [], ◌∷◌, ◌++◌, map,
  arith, leb, All, if◌then◌else◌,
}
use monitoring_service.Prelude.Tables.{count_where, count_where-append, All-append, All-mono}
use monitoring_service.Model.{CheckResult}
use monitoring_service.Analytics.Incidents.{Marked, mark, starts_run, run_id, Numbered, is_up}

abbrev pub Increasing : List CheckResult → Type 0
Increasing [] = Unit
Increasing (r ∷ rs) = All (λ s. r.checked_at < s.checked_at) rs × Increasing rs

-- A running number, one more at each row where the state changes.
unfoldable pub number : ℕ → List Marked → List Numbered
number n [] = []
number n (m ∷ ms) = let k = n + (if starts_run m then 1 else 0) in (k, m.row) ∷ number k ms

abbrev counted : ℕ → Marked → Bool
counted t x = leb x.row.checked_at t && starts_run x

count-until :
    (t : ℕ) (ms : List Marked)
    → All (λ x. x.row.checked_at ≤ t) ms
    → count_where (counted t) ms ≡ count_where starts_run ms
count-until t [] h = refl
count-until t (m ∷ ms) h = ground (arith, count-until t ms h.1)

count-after :
    (t : ℕ) (ms : List Marked) → All (λ x. t < x.row.checked_at) ms → count_where (counted t) ms ≡ 0
count-after t [] h = refl
count-after t (m ∷ ms) h = ground (arith, count-after t ms h.1)

run_id-split :
    (before after : List Marked) (m : Marked)
    → All (λ x. x.row.checked_at < m.row.checked_at) before
    → All (λ x. m.row.checked_at < x.row.checked_at) after
    → run_id (before ++ m ∷ after) m
      ≡ count_where starts_run before + (if starts_run m then 1 else 0)
unfolding run_id
run_id-split before after m hb ha =
    let t = m.row.checked_at in
    count_where-append (counted t) before (m ∷ after)
    ∙ ground (
      arith,
      count-until t before (
          All-mono (λ (x : Marked). x.row.checked_at < t) (λ (x : Marked). x.row.checked_at ≤ t)
            before (λ x h. omega arith) hb),
      count-after t after ha,
    )

-- times strictly rise along the rows and from each row of `before` to each of them
abbrev Follows : List Marked → List Marked → Type 0
Follows before ms = All (λ m. All (λ x. x.row.checked_at < m.row.checked_at) before) ms

abbrev IncreasingMarks : List Marked → Type 0
IncreasingMarks [] = Unit
IncreasingMarks (m ∷ ms) = All (λ x. m.row.checked_at < x.row.checked_at) ms × IncreasingMarks ms

Follows-snoc :
    (before ms : List Marked) (m : Marked)
    → Follows before ms
    → All (λ x. m.row.checked_at < x.row.checked_at) ms
    → Follows (before ++ m ∷ []) ms
Follows-snoc before [] m h g = tt
Follows-snoc before (x ∷ ms) m h g = (
  All-append (λ y. y.row.checked_at < x.row.checked_at) before (m ∷ []) h.0 (g.0, tt),
  Follows-snoc before ms m h.1 g.1,
)

map-run_id :
    (before ms : List Marked)
    → Follows before ms
    → IncreasingMarks ms
    → map (λ m. (run_id (before ++ ms) m, m.row)) ms ≡ number (count_where starts_run before) ms
unfolding number
map-run_id before [] f i = refl
map-run_id before (m ∷ ms) f i =
    let rest = map-run_id (before ++ m ∷ []) ms (Follows-snoc before ms m f.1 i.0) i.1 in
    let here : count_where starts_run (before ++ m ∷ [])
        ≡ count_where starts_run before + (if starts_run m then 1 else 0) =
      count_where-append starts_run before (m ∷ []) ∙ ground arith in
    let rest' = rw (append_assoc before (m ∷ []) ms, here) at rest in
    let k : ℕ = count_where starts_run before + (if starts_run m then 1 else 0) in
    rw (run_id-split before ms m f.0 i.0) (ap (λ (l : List Numbered). (k, m.row) ∷ l) rest')

-- the marks of rows at rising times are at rising times
All-mark :
    (t : ℕ) (prev : Option Bool) (rows : List CheckResult)
    → All (λ s. t < s.checked_at) rows
    → All (λ x. t < x.row.checked_at) (mark prev rows)
unfolding mark
All-mark t prev [] h = tt
All-mark t prev (r ∷ rs) h = (h.0, All-mark t (some (is_up r)) rs h.1)

mark-IncreasingMarks :
    (prev : Option Bool) (rows : List CheckResult)
    → Increasing rows
    → IncreasingMarks (mark prev rows)
unfolding mark
mark-IncreasingMarks prev [] h = tt
mark-IncreasingMarks prev (r ∷ rs) h =
    (All-mark r.checked_at (some (is_up r)) rs h.0, mark-IncreasingMarks (some (is_up r)) rs h.1)

Follows-nil : (ms : List Marked) → Follows [] ms
Follows-nil [] = tt
Follows-nil (m ∷ ms) = (tt, Follows-nil ms)

-- The window count over rows at distinct times is the running number.
pub grouped-eq-number :
    (rows : List CheckResult)
    → Increasing rows
    → map (λ (m : Marked). (run_id (mark none rows) m, m.row)) (mark none rows)
      ≡ number 0 (mark none rows)
grouped-eq-number rows h =
    map-run_id [] (mark none rows) (Follows-nil (mark none rows)) (mark-IncreasingMarks none rows h)
