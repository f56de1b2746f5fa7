-- ===== src/RateLimit/Keys.antt =====
-- app/rate_limit.py: the keys of the counters.
use monitoring_service.Prelude.{
  ℕ, ◌≡◌, ◌≢◌, ap, sym, ◌∙◌, refl, Bool, false, Option, some, [], ◌∷◌, ◌++◌, arith, All,
}
use monitoring_service.Prelude.Text.{Text}
use monitoring_service.Prelude.Text.Decimal.{str, int, int-str, str-IsDigit, IsDigit}
use monitoring_service.Prelude.Tables.{All-mono}
use monitoring_service.RateLimit.{limit_key}

-- The text has no colon.
abbrev pub LacksColon : Text → Type 0
LacksColon = All (λ c. c ≢ b':')

first_colon :
    (a b r s : Text)
    → LacksColon a
    → LacksColon b
    → a ++ b':' ∷ r ≡ b ++ b':' ∷ s
    → (a ≡ b) × (r ≡ s)
first_colon [] [] r s h k e = (refl, cc)
first_colon [] (d ∷ b) r s h k e = absurd (k.0 (cc))
first_colon (c ∷ a) [] r s h k e = absurd (h.0 (cc))
first_colon (c ∷ a) (d ∷ b) r s h k e =
    let (same, rest) = first_colon a b r s h.1 k.1 (cc) in (cc, rest)

no_colon : (a r s : Text) → LacksColon r → r ≢ a ++ b':' ∷ s
no_colon [] [] s h e = cc
no_colon [] (c ∷ r) s h e = h.0 (cc)
no_colon (d ∷ a) [] s h e = cc
no_colon (d ∷ a) (c ∷ r) s h e = no_colon a r s h.1 (cc)

last_colon :
    (a b r s : Text)
    → LacksColon r
    → LacksColon s
    → a ++ b':' ∷ r ≡ b ++ b':' ∷ s
    → (a ≡ b) × (r ≡ s)
last_colon [] [] r s h k e = (refl, cc)
last_colon [] (d ∷ b) r s h k e = absurd (no_colon b r s h (cc))
last_colon (c ∷ a) [] r s h k e = absurd (no_colon a s r k (cc))
last_colon (c ∷ a) (d ∷ b) r s h k e = let (same, rest) = last_colon a b r s h k (cc) in (cc, rest)

str-LacksColon : (n : ℕ) → LacksColon (str n)
str-LacksColon n =
    All-mono IsDigit (λ c. c ≢ b':') (str n) (λ c d e. absurd (omega arith)) (str-IsDigit n)

str_injective : (n m : ℕ) → str n ≡ str m → n ≡ m
str_injective n m e =
    let same : ◌≡◌ {A = Option (Bool × ℕ)} (some (false, n)) (some (false, m)) =
      sym (int-str n) ∙ ap int e ∙ int-str m in
    cc

-- Two counters have one key only if they are of one limit, one identity and one window, whatever
-- characters the identity has, where the limits' names have no colon.
pub limit_key_injective :
    (name name' identity identity' : Text) (window window' : ℕ)
    → LacksColon name
    → LacksColon name'
    → limit_key name identity window ≡ limit_key name' identity' window'
    → (name ≡ name') × (identity ≡ identity') × (window ≡ window')
unfolding limit_key
limit_key_injective name name' identity identity' window window' h h' e =
    let (same_name, rest) = first_colon name name' _ _ h h' (cc) in
    let (same_identity, digits) =
      last_colon identity identity' (str window) (str window') (str-LacksColon window)
        (str-LacksColon window') rest in
    (same_name, same_identity, str_injective window window' digits)
