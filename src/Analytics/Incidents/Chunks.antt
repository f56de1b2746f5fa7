-- ===== src/Analytics/Incidents/Chunks.antt =====
-- The chunks of the numbered down rows are the runs of down rows.
use native.Mathlib.Nat.{add-zero}
use monitoring_service.Prelude.{
  ℕ, suc, ◌+◌, ◌≤◌, ◌≡◌, refl, ap, inl, inr, Bool, true, false, Option, some, List, [], ◌∷◌, map,
  arith, All, Bool-cases, ◌==◌, if◌then◌else◌,
}
use monitoring_service.Model.{CheckResult}
use monitoring_service.Analytics.Incidents.{is_up, mark, differs, Numbered, down_rows, Group}
use monitoring_service.Analytics.Incidents.Runs.{down_runs, starts_down, prepend}
use monitoring_service.Analytics.Incidents.Numbering.{number}
use monitoring_service.Analytics.Incidents.Grouping.{join, chunks, NonFalling, All-chunks}

-- The down rows with their numbers, after a row in the state `prev` with the number `n`.
unfoldable pub numbered_down : ℕ → Option Bool → List CheckResult → List Numbered
numbered_down n prev rows = down_rows (number n (mark prev rows))

-- the number of a row in the state `up`
abbrev step : ℕ → Option Bool → Bool → ℕ
step n prev up = n + (if differs up prev then 1 else 0)

module _ (n : ℕ) (prev : Option Bool) (r : CheckResult) (rs : List CheckResult) where
  numbered_down-up :
      is_up r ≡ true
      → numbered_down n prev (r ∷ rs) ≡ numbered_down (step n prev true) (some true) rs
  unfolding numbered_down number mark
  numbered_down-up up = rw up

  numbered_down-down :
      is_up r ≡ false
      → numbered_down n prev (r ∷ rs)
        ≡ (step n prev false, r) ∷ numbered_down (step n prev false) (some false) rs
  unfolding numbered_down number mark
  numbered_down-down down = rw down

numbered_down-nil : (n : ℕ) (prev : Option Bool) → numbered_down n prev [] ≡ []
unfolding numbered_down number mark
numbered_down-nil n prev = refl

numbered_down-ge :
    (n low : ℕ) (prev : Option Bool) (rows : List CheckResult)
    → low ≤ n
    → All (λ (y : Numbered). low ≤ y.0) (numbered_down n prev rows)
numbered_down-ge n low prev [] h = rw (numbered_down-nil n prev) tt
numbered_down-ge n low prev (r ∷ rs) h = elim (Bool-cases (is_up r)) [
  | inl up ↦
      rw (numbered_down-up n prev r rs up)
        (numbered_down-ge (step n prev true) low (some true) rs (omega arith))
  | inr down ↦
      rw (numbered_down-down n prev r rs down)
        (omega arith, numbered_down-ge (step n prev false) low (some false) rs (omega arith))
]

pub numbered_down-NonFalling :
    (n : ℕ) (prev : Option Bool) (rows : List CheckResult) → NonFalling (numbered_down n prev rows)
numbered_down-NonFalling n prev [] = rw (numbered_down-nil n prev) tt
numbered_down-NonFalling n prev (r ∷ rs) = elim (Bool-cases (is_up r)) [
  | inl up ↦
      rw (numbered_down-up n prev r rs up)
        (numbered_down-NonFalling (step n prev true) (some true) rs)
  | inr down ↦
      let k : ℕ = step n prev false in
      rw (numbered_down-down n prev r rs down) (
        numbered_down-ge k k (some false) rs (omega arith),
        numbered_down-NonFalling k (some false) rs,
      )
]

-- after a down row, an up row opens a new number
numbered_down-gt :
    (n : ℕ) (rows : List CheckResult)
    → starts_down rows ≡ false
    → All (λ (y : Numbered). suc n ≤ y.0) (numbered_down n (some false) rows)
numbered_down-gt n [] h = rw (numbered_down-nil n (some false)) tt
numbered_down-gt n (r ∷ rs) h =
    rw (numbered_down-up n (some false) r rs (ground arith))
      (numbered_down-ge (n + 1) (suc n) (some true) rs (omega arith))

join_head :
    (k : ℕ) (r : CheckResult) (cs : List Group)
    → (rs : List CheckResult) × (cs' : List Group) × (join k r cs ≡ (k, rs) ∷ cs')
join_head k r [] = (r ∷ [], [], refl)
join_head k r ((j, rs) ∷ cs) = elim (Bool-cases (k == j)) [
  | inl same ↦ (r ∷ rs, cs, ground arith)
  | inr other ↦ (r ∷ [], (j, rs) ∷ cs, ground arith)
]

-- after a down row, a down row goes on with its number
chunks_head :
    (n : ℕ) (rows : List CheckResult)
    → starts_down rows ≡ true
    → (rs : List CheckResult) × (cs : List Group) × (chunks (numbered_down n (some false) rows)
        ≡ (n, rs) ∷ cs)
unfolding chunks
chunks_head n [] h = cc
chunks_head n (r ∷ rs) h =
    let (run, cs, e) = join_head n r (chunks (numbered_down n (some false) rs)) in
    (run, cs, rw (numbered_down-down n (some false) r rs (ground arith)) (rw add-zero e))

abbrev pub runs_of : List Group → List (List CheckResult)
runs_of = map (λ (c : Group). c.1)

join-new :
    (k : ℕ) (r : CheckResult) (cs : List Group)
    → All (λ (c : Group). suc k ≤ c.0) cs
    → join k r cs ≡ (k, r ∷ []) ∷ cs
join-new k r [] h = refl
join-new k r ((j, rs) ∷ cs) h = ground arith

join-same :
    (k : ℕ) (r : CheckResult) (rs : List CheckResult) (cs : List Group)
    → join k r ((k, rs) ∷ cs) ≡ (k, r ∷ rs) ∷ cs
join-same k r rs cs = ground arith

-- A down row opens a run or is put in front of the run that follows it.
join-run :
    (n : ℕ) (r : CheckResult) (rs : List CheckResult)
    → runs_of (chunks (numbered_down n (some false) rs)) ≡ down_runs rs
    → runs_of (join n r (chunks (numbered_down n (some false) rs)))
      ≡ (if starts_down rs then prepend r (down_runs rs) else (r ∷ []) ∷ down_runs rs)
join-run n r rs ih = elim (Bool-cases (starts_down rs)) [
  | inl goes_on ↦
      let (run, cs, e) = chunks_head n rs goes_on in
      rw goes_on (rw (e, join-same) (rw (← ih, e) refl))
  | inr ends ↦ rw ends (
      rw
        (join-new n r (chunks (numbered_down n (some false) rs))
          (All-chunks (suc n) (numbered_down n (some false) rs) (numbered_down-gt n rs ends)))
        (ap (λ (l : List (List CheckResult)). (r ∷ []) ∷ l) ih))
]

pub chunks-eq-down_runs :
    (n : ℕ) (prev : Option Bool) (rows : List CheckResult)
    → runs_of (chunks (numbered_down n prev rows)) ≡ down_runs rows
unfolding chunks down_runs
chunks-eq-down_runs n prev [] = rw (numbered_down-nil n prev)
chunks-eq-down_runs n prev (r ∷ rs) = elim (Bool-cases (is_up r)) [
  | inl up ↦
      rw (numbered_down-up n prev r rs up)
        (rw up (chunks-eq-down_runs (step n prev true) (some true) rs))
  | inr down ↦
      let k : ℕ = step n prev false in
      rw (numbered_down-down n prev r rs down)
        (rw down (join-run k r rs (chunks-eq-down_runs k (some false) rs)))
]
