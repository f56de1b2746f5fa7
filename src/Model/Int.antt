-- ===== src/Model/Int.antt =====
-- Python's signed integers, as far as the program compares them: a threshold is any integer.
use monitoring_service.Prelude.{ℕ, suc, Bool, true, leb}

-- `negsuc n` is -(n + 1).
pub data ℤ : Type 0 where
  pos : ℕ → ℤ
  negsuc : ℕ → ℤ

-- The test a ≤ b of an integer against a count.
abbrev pub leb_ℤ : ℤ → ℕ → Bool
leb_ℤ (pos n) b = leb n b
leb_ℤ (negsuc n) b = true

-- The integer of a sign and a size.
abbrev pub of_sign : Bool → ℕ → ℤ
of_sign true (suc n) = negsuc n
of_sign _ n = pos n
