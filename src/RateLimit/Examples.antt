-- ===== src/RateLimit/Examples.antt =====
-- Three requests of one address in a window that admits two, and the theorems at them.
use monitoring_service.Prelude.{ℕ, ◌*◌, ◌≡◌, refl, List, [], ◌∷◌, arith}
use monitoring_service.Prelude.Text.{Text, text}
use monitoring_service.Prelude.Text.Decimal.{str}
use monitoring_service.Model.{second}
use monitoring_service.RateLimit.{Limiter, limit_key, window_of, enforce}
use monitoring_service.RateLimit.Memory.{memory, memory_laws}
use monitoring_service.RateLimit.Keys.{limit_key_injective}
use monitoring_service.RateLimit.Admission.{
  Request, admitted_for, requests_for, least, IsAvailable, enforce_admits,
}

abbrev ask : ℕ → Request
ask now = record {
  name = text "login_ip";
  identity = text "::1";
  limit = 2;
  window_seconds = 60;
  now = now;
}

abbrev requests : List Request
requests = ask second ∷ ask (2 * second) ∷ ask (3 * second) ∷ []

abbrev fresh : Limiter memory
fresh = record { store = []; rate_limited = [] }

abbrev key : Text
key = limit_key (text "login_ip") (text "::1") 0

requests-IsAvailable : IsAvailable memory requests fresh
unfolding enforce limit_key str window_of
requests-IsAvailable = ((1, refl), ((2, refl), ((3, refl), tt)))

asked : requests_for key requests ≡ 3
unfolding limit_key window_of str
asked = refl

enforce_admits_example :
    admitted_for memory key requests fresh ≡ least (requests_for key requests) 2
enforce_admits_example =
    enforce_admits memory memory_laws (text "login_ip") (text "::1") 2 60 0 requests fresh
      (omega arith) (omega arith) (omega arith)
      ((λ e. (refl, refl)), ((λ e. (refl, refl)), ((λ e. (refl, refl)), tt))) (omega arith)
      requests-IsAvailable (λ t. refl)

limit_key_injective_example :
    (text "login_ip" ≡ text "login_ip") × (text "::1" ≡ text "::1") × (◌≡◌ {A = ℕ} 0 0)
limit_key_injective_example =
    limit_key_injective (text "login_ip") (text "login_ip") (text "::1") (text "::1") 0 0
      (omega arith) (omega arith) refl
