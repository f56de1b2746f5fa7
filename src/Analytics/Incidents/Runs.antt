-- ===== src/Analytics/Incidents/Runs.antt =====
-- The reference for the incidents: the maximal runs of consecutive checks that are down.
use monitoring_service.Prelude.{Bool, false, not, List, [], ◌∷◌, if◌then◌else◌}
use monitoring_service.Model.{CheckResult}
use monitoring_service.Analytics.Incidents.{is_up}

abbrev pub starts_down : List CheckResult → Bool
starts_down [] = false
starts_down (r ∷ rs) = not (is_up r)

abbrev pub prepend : CheckResult → List (List CheckResult) → List (List CheckResult)
prepend r [] = (r ∷ []) ∷ []
prepend r (run ∷ runs) = (r ∷ run) ∷ runs

-- Oldest first.
unfoldable pub down_runs : List CheckResult → List (List CheckResult)
down_runs [] = []
down_runs (r ∷ rs) =
    let rest = down_runs rs in
    if is_up r then rest else if starts_down rs then prepend r rest else (r ∷ []) ∷ rest
