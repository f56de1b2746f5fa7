-- ===== src/Prelude/Text/Decimal.antt =====
-- Python's `str` and `int` between numbers and decimal texts. `int` takes white space around, a sign,
-- and single underscores between digits; the digits of other scripts are left out.
use monitoring_service.Prelude.Tests.{
  ◌==◌, ==_refl, ==_iff, leb, ltb, if◌then◌else◌, All, Bool-cases,
}
use monitoring_service.Prelude.Text.{Text, text_eq, text_eq_refl, text_eq→eq}
use monitoring_service.Prelude.Text.Str.{is_space, any_space, strip, strip-no_space}
use Prim.Native.Nat.{ℕ, zero, suc, ◌+◌, ◌-◌, ◌*◌, ◌/◌, ◌%◌, ◌≤◌}
use mathlib.Core.Path.{◌≡◌, refl, ap, sym, ◌∙◌}
use mathlib.Core.Logic.{inl, inr}
use mathlib.Core.Bool.{Bool, true, false, ◌&&◌, ◌||◌}
use mathlib.Core.Option.{Option, none, some}
use mathlib.Core.List.{[], ◌∷◌}
use native.Mathlib.Omega.{arith}

-- The digits of `n` before `out`, on fuel: each round divides by ten, so `n` is enough.
unfoldable pub digits : ℕ → ℕ → Text → Text
digits zero n out = out
digits (suc fuel) n out =
    let rest = digits fuel (n / 10) ((b'0' + n % 10) ∷ out) in if n == 0 then out else rest

-- str(n)
unfoldable pub str : ℕ → Text
str n = if n == 0 then b'0' ∷ [] else digits n n []

abbrev pub is_digit : ℕ → Bool
is_digit c = leb b'0' c && leb c b'9'

-- The digits of `int`'s argument; `after` tells whether the character before was a digit.
unfoldable pub scan : Bool → Text → ℕ → Option ℕ
scan after [] n = if after then some n else none
scan after (c ∷ s) n =
    let rest = scan (is_digit c) s (if is_digit c then n * 10 + (c - b'0') else n) in
    if is_digit c || (c == b'_' && after) then rest else none

-- The integer as its sign and its size.
abbrev pub signed : Bool → Option ℕ → Option (Bool × ℕ)
signed negative none = none
signed negative (some n) = some (negative, n)

unfoldable pub scan_signed : Text → Option (Bool × ℕ)
scan_signed [] = none
scan_signed (c ∷ s) =
    if c == b'-'
    then signed true (scan false s 0)
    else if c == b'+'
    then signed false (scan false s 0)
    else signed false (scan false (c ∷ s) 0)

-- int(s); `none` is a `ValueError`.
unfoldable pub int : Text → Option (Bool × ℕ)
int s = scan_signed (strip s)

abbrev pub IsDigit : ℕ → Type 0
IsDigit c = (b'0' ≤ c) × (c ≤ b'9')

pub digits-IsDigit : (fuel n : ℕ) (out : Text) → All IsDigit out → All IsDigit (digits fuel n out)
unfolding digits
digits-IsDigit zero n out h = h
digits-IsDigit (suc fuel) n out h =
    ground
      (arith, digits-IsDigit fuel (n / 10) ((b'0' + n % 10) ∷ out) ((omega arith, omega arith), h))

pub str-IsDigit : (n : ℕ) → All IsDigit (str n)
unfolding str
str-IsDigit n = ground (arith, digits-IsDigit n n [])

scan_last :
    (after : Bool) (n : ℕ) (out : Text)
    → scan after ((b'0' + n % 10) ∷ out) (n / 10) ≡ scan true out n
unfolding scan
scan_last after n out =
    let digit : is_digit (b'0' + n % 10) ≡ true = ground arith in
    let value : n / 10 * 10 + (b'0' + n % 10 - b'0') ≡ n = omega arith in rw (digit, value) refl

scan-digits :
    (fuel n : ℕ) (out : Text) → n ≤ fuel → scan false (digits fuel n out) 0 ≡ scan (ltb 0 n) out n
unfolding digits
scan-digits zero n out h = let none_left : n ≡ 0 = omega arith in rw none_left refl
scan-digits (suc fuel) n out h = ground (
  arith,
  scan-digits fuel (n / 10) ((b'0' + n % 10) ∷ out) (omega arith),
  scan_last (ltb 0 (n / 10)) n out,
)

digits-no_space : (s : Text) → All IsDigit s → any_space s ≡ false
unfolding is_space
digits-no_space [] h = refl
digits-no_space (c ∷ s) h = ground (arith, digits-no_space s h.1)

scan_signed-digits : (s : Text) → All IsDigit s → scan_signed s ≡ signed false (scan false s 0)
unfolding scan_signed scan
scan_signed-digits [] h = refl
scan_signed-digits (c ∷ s) h = ground arith

scan-str : (n : ℕ) → scan false (str n) 0 ≡ some n
unfolding str scan
scan-str n = elim (Bool-cases (n == 0)) [
  | inl e ↦ ground arith
  | inr e ↦ rw e (ground (arith, scan-digits n n [] (omega arith)))
]

-- `int` reads back what `str` writes.
pub int-str : (n : ℕ) → int (str n) ≡ some (false, n)
unfolding int
int-str n =
    ap scan_signed (strip-no_space (str n) (digits-no_space (str n) (str-IsDigit n)))
    ∙ scan_signed-digits (str n) (str-IsDigit n)
    ∙ ap (signed false) (scan-str n)

-- The same with a sign.
pub int-str_negative : (n : ℕ) → int (b'-' ∷ str n) ≡ some (true, n)
unfolding int scan_signed is_space
int-str_negative n =
    ap scan_signed (strip-no_space (b'-' ∷ str n) (digits-no_space (str n) (str-IsDigit n)))
    ∙ ap (signed true) (scan-str n)

number_or : ℕ → Option (Bool × ℕ) → ℕ
number_or d none = d
number_or d (some (negative, n)) = n

pub str_injective : (m n : ℕ) → str m ≡ str n → m ≡ n
unfolding number_or
str_injective m n e = ap (number_or 0) (sym (int-str m) ∙ ap int e ∙ int-str n)

-- Two numbers have one text exactly if they are the same.
pub text_eq-str : (m n : ℕ) → text_eq (str m) (str n) ≡ (m == n)
text_eq-str m n = elim (Bool-cases (text_eq (str m) (str n))) [
  | inl e ↦
      let same : m ≡ n = str_injective m n (text_eq→eq (str m) (str n) e) in
      e ∙ sym (rw same (==_refl n))
  | inr e ↦ elim (Bool-cases (m == n)) [
    | inl f ↦
        let same : m ≡ n = (==_iff m n).0 f in
        let equal : text_eq (str m) (str n) ≡ true = rw same (text_eq_refl (str n)) in
        cc (sym e ∙ equal)
    | inr f ↦ e ∙ sym f
  ]
]
