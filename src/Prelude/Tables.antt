-- ===== src/Prelude/Tables.antt =====
-- Tables as lists of rows in storage order, and what the program's SQL does with them: a WHERE
-- clause is a Boolean test on the row.
use Prim.Native.Nat.{ℕ, ◌+◌, ◌≤◌}
use mathlib.Core.Path.{◌≡◌, refl}
use mathlib.Core.Bool.{Bool, true, false, not, ◌&&◌, ◌||◌}
use mathlib.Core.Option.{Option, none, some}
use mathlib.Core.List.{List, [], ◌∷◌, ◌++◌}
use native.Mathlib.Omega.{arith}
use monitoring_service.Prelude.Tests.{if◌then◌else◌, length, All}

module _ {ℓ} {A : Type ℓ} where
  -- SELECT … WHERE test
  abbrev pub select : (A → Bool) → List A → List A
  select test [] = []
  select test (x ∷ xs) = let rest = select test xs in if test x then x ∷ rest else rest

  -- `.first()` of such a query
  abbrev pub first_where : (A → Bool) → List A → Option A
  first_where test [] = none
  first_where test (x ∷ xs) = if test x then some x else first_where test xs

  -- UPDATE … SET change WHERE test
  abbrev pub update_where : (A → Bool) → (A → A) → List A → List A
  update_where test change [] = []
  update_where test change (x ∷ xs) = (if test x then change x else x) ∷ update_where test change xs

  -- DELETE … WHERE test
  abbrev pub delete_where : (A → Bool) → List A → List A
  delete_where test = select (λ x. not (test x))

  -- SELECT count(*) … WHERE test
  abbrev pub count_where : (A → Bool) → List A → ℕ
  count_where test [] = 0
  count_where test (x ∷ xs) = (if test x then 1 else 0) + count_where test xs

  -- EXISTS (SELECT … WHERE test)
  abbrev pub any_where : (A → Bool) → List A → Bool
  any_where test [] = false
  any_where test (x ∷ xs) = test x || any_where test xs

  abbrev pub all_where : (A → Bool) → List A → Bool
  all_where test [] = true
  all_where test (x ∷ xs) = test x && all_where test xs

  pub any_where-append :
      (test : A → Bool) (xs ys : List A)
      → any_where test (xs ++ ys) ≡ any_where test xs || any_where test ys
  any_where-append test [] ys = refl
  any_where-append test (x ∷ xs) ys = ground (arith, any_where-append test xs ys)

  pub any_where_mono :
      (small big : A → Bool) (xs : List A)
      → ((x : A) → big x ≡ false → small x ≡ false)
      → any_where big xs ≡ false
      → any_where small xs ≡ false
  any_where_mono small big [] f h = refl
  any_where_mono small big (x ∷ xs) f h = ground (arith, f x, any_where_mono small big xs f)

  -- Where no row passes the test, nothing is deleted or changed.
  pub delete_where_none :
      (test : A → Bool) (xs : List A) → any_where test xs ≡ false → delete_where test xs ≡ xs
  delete_where_none test [] h = refl
  delete_where_none test (x ∷ xs) h = ground (arith, delete_where_none test xs)

  pub update_where_none :
      (test : A → Bool) (change : A → A) (xs : List A)
      → any_where test xs ≡ false
      → update_where test change xs ≡ xs
  update_where_none test change [] h = refl
  update_where_none test change (x ∷ xs) h = ground (arith, update_where_none test change xs)

  pub update_where-append :
      (test : A → Bool) (change : A → A) (xs ys : List A)
      → update_where test change (xs ++ ys)
        ≡ update_where test change xs ++ update_where test change ys
  update_where-append test change [] ys = refl
  update_where-append test change (x ∷ xs) ys =
      ground (arith, update_where-append test change xs ys)

  pub length-select :
      (test : A → Bool) (xs : List A) → length (select test xs) ≡ count_where test xs
  length-select test [] = refl
  length-select test (x ∷ xs) = ground (arith, length-select test xs)

  pub count_where-le : (test : A → Bool) (xs : List A) → count_where test xs ≤ length xs
  count_where-le test [] = omega arith
  count_where-le test (x ∷ xs) = ground (arith, count_where-le test xs)

  pub count_where-append :
      (test : A → Bool) (xs ys : List A)
      → count_where test (xs ++ ys) ≡ count_where test xs + count_where test ys
  count_where-append test [] ys = omega arith
  count_where-append test (x ∷ xs) ys = ground (arith, count_where-append test xs ys)

  pub select-append :
      (test : A → Bool) (xs ys : List A) → select test (xs ++ ys) ≡ select test xs ++ select test ys
  select-append test [] ys = refl
  select-append test (x ∷ xs) ys = ground (arith, select-append test xs ys)

  pub select_idem : (test : A → Bool) (xs : List A) → select test (select test xs) ≡ select test xs
  select_idem test [] = refl
  select_idem test (x ∷ xs) = ground (arith, select_idem test xs)

  pub All-append {κ} : (P : A → Type κ) (xs ys : List A) → All P xs → All P ys → All P (xs ++ ys)
  All-append P [] ys hx hy = hy
  All-append P (x ∷ xs) ys hx hy = (hx.0, All-append P xs ys hx.1 hy)

  pub All-mono {κ μ} :
      (P : A → Type κ) (Q : A → Type μ) (xs : List A) → ((x : A) → P x → Q x) → All P xs → All Q xs
  All-mono P Q [] f h = tt
  All-mono P Q (x ∷ xs) f h = (f x h.0, All-mono P Q xs f h.1)

  pub All-select {κ} :
      (P : A → Type κ) (test : A → Bool) (xs : List A) → All P xs → All P (select test xs)
  All-select P test [] h = tt
  All-select P test (x ∷ xs) h = ground (arith, All-select P test xs h.1)

  -- The rows that are left have what the old rows with a true test have.
  pub All-select_mono {κ μ} :
      (P : A → Type κ) (Q : A → Type μ) (test : A → Bool) (xs : List A)
      → ((x : A) → test x ≡ true → P x → Q x)
      → All P xs
      → All Q (select test xs)
  All-select_mono P Q test [] f h = tt
  All-select_mono P Q test (x ∷ xs) f h = ground (arith, f x, All-select_mono P Q test xs f h.1)

  pub All-update_where {κ} :
      (P : A → Type κ) (test : A → Bool) (change : A → A) (xs : List A)
      → ((x : A) → P x → P (change x))
      → All P xs
      → All P (update_where test change xs)
  All-update_where P test change [] f h = tt
  All-update_where P test change (x ∷ xs) f h =
      (ground (arith, f x), All-update_where P test change xs f h.1)

  -- What a query returns passes its test.
  pub All-select_test : (test : A → Bool) (xs : List A) → All (λ x. test x ≡ true) (select test xs)
  All-select_test test [] = tt
  All-select_test test (x ∷ xs) = ground (arith, All-select_test test xs)

  -- The row that `.first()` returns is in the table and passes the test.
  pub All-first_where {κ} :
      (P : A → Type κ) (test : A → Bool) (xs : List A) (x : A)
      → All P xs
      → first_where test xs ≡ some x
      → P x × (test x ≡ true)
  All-first_where P test [] x h e = cc
  All-first_where P test (y ∷ xs) x h e = ground (arith, All-first_where P test xs x h.1)

  -- A row at the end is found where no row before it is.
  pub first_where-append :
      (test : A → Bool) (xs : List A) (y : A)
      → first_where test xs ≡ none
      → test y ≡ true
      → first_where test (xs ++ y ∷ []) ≡ some y
  first_where-append test [] y h t = rw t refl
  first_where-append test (x ∷ xs) y h t = ground (arith, first_where-append test xs y)
