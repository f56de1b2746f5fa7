-- ===== src/RateLimit/Windows.antt =====
-- app/rate_limit.py: the windows, and the seconds of Retry-After.
use native.Mathlib.Nat.{
  div-div-eq-div-mul, mul-div-le, lt-mul-div-succ, mul-add-div, div-eq_of_lt, mod-lt, div-add-mod,
  mul_comm,
}
use monitoring_service.Prelude.{ℕ, ◌+◌, ◌-◌, ◌*◌, ◌/◌, ◌%◌, ◌≤◌, ◌<◌, ◌≡◌, ap, sym, ◌∙◌, arith}
use monitoring_service.Model.{second}
use monitoring_service.RateLimit.{window_of, retry_after}

-- A window is its number of seconds long.
pub window_of_bounds :
    (now ws : ℕ)
    → 0 < ws
    → (ws * second * window_of now ws ≤ now) × (now < ws * second * (window_of now ws + 1))
unfolding window_of
window_of_bounds now ws h = (mul-div-le now (ws * second), lt-mul-div-succ now (omega arith))

in_seconds : (now ws : ℕ) → window_of now ws ≡ now / second / ws
unfolding window_of
in_seconds now ws = ap (λ d. now / d) (mul_comm ws second) ∙ sym (div-div-eq-div-mul now second ws)

quotient : (q r ws : ℕ) → r < ws → (ws * q + r) / ws ≡ q
quotient q r ws h =
    let small : r / ws ≡ 0 = div-eq_of_lt h in mul-add-div (omega arith) q r ∙ omega (arith, small)

later_second : (now k : ℕ) → (now + k * second) / second ≡ now / second + k
later_second now k = omega arith

-- Retry-After is from 1 second to the window's length; a client that waits so long is in the next
-- window, and one that waits a second less is not.
pub retry_after_bounds :
    (now ws : ℕ)
    → 0 < ws
    → (1 ≤ retry_after now ws)
      × (retry_after now ws ≤ ws)
      × (window_of (now + retry_after now ws * second) ws ≡ window_of now ws + 1)
      × (window_of (now + (retry_after now ws - 1) * second) ws ≡ window_of now ws)
unfolding retry_after
retry_after_bounds now ws h =
    let s = now / second in
    let q = s / ws in
    let r = s % ws in
    let split : ws * q + r ≡ s = div-add-mod s ws in
    let below : r < ws = mod-lt s h in
    let next : s + (ws - r) ≡ ws * (q + 1) + 0 = grind arith in
    let last : s + (ws - r - 1) ≡ ws * q + (ws - 1) = omega (arith, split, below) in
    (
      omega (arith, below),
      omega (arith, below),
      in_seconds (now + (ws - r) * second) ws
          ∙ ap (λ t. t / ws) (later_second now (ws - r) ∙ next)
          ∙ quotient (q + 1) 0 ws h
          ∙ ap (λ t. t + 1) (sym (in_seconds now ws)),
      in_seconds (now + (ws - r - 1) * second) ws
          ∙ ap (λ t. t / ws) (later_second now (ws - r - 1) ∙ last)
          ∙ quotient q (ws - 1) ws (omega arith)
          ∙ sym (in_seconds now ws),
    )
