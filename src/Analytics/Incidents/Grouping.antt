-- ===== src/Analytics/Incidents/Grouping.antt =====
-- Grouping rows by numbers that do not fall is cutting them into chunks, the last chunk first.
use mathlib.Core.List.{reverse_aux-eq, reverse-cons, append_assoc}
use monitoring_service.Prelude.{
  ℕ, ◌≤◌, ◌<◌, ◌≡◌, refl, ap, sym, ◌∙◌, inl, inr, Bool-cases, List, [], ◌∷◌, ◌++◌, reverse, arith,
  ◌==◌, All, if◌then◌else◌,
}
use monitoring_service.Prelude.Tables.{All-append, All-mono}
use monitoring_service.Model.{CheckResult}
use monitoring_service.Analytics.Incidents.{Numbered, Group, insert_group, group_by_run}

abbrev pub join : ℕ → CheckResult → List Group → List Group
join k r [] = (k, r ∷ []) ∷ []
join k r ((j, rs) ∷ cs) = if k == j then (j, r ∷ rs) ∷ cs else (k, r ∷ []) ∷ (j, rs) ∷ cs

-- Rows next to each other with one number make a chunk.
unfoldable pub chunks : List Numbered → List Group
chunks [] = []
chunks ((k, r) ∷ rest) = join k r (chunks rest)

abbrev pub NonFalling : List Numbered → Type 0
NonFalling [] = Unit
NonFalling (x ∷ xs) = All (λ (y : Numbered). x.0 ≤ y.0) xs × NonFalling xs

abbrev RisingKeys : List Group → Type 0
RisingKeys [] = Unit
RisingKeys (c ∷ cs) = All (λ (d : Group). c.0 < d.0) cs × RisingKeys cs

pub All-chunks :
    (n : ℕ) (xs : List Numbered)
    → All (λ (y : Numbered). n ≤ y.0) xs
    → All (λ (c : Group). n ≤ c.0) (chunks xs)
unfolding chunks
All-chunks n [] h = tt
All-chunks n ((k, r) ∷ rest) h = join-All (chunks rest) (All-chunks n rest h.1)
  where
    join-All :
        (cs : List Group)
        → All (λ (c : Group). n ≤ c.0) cs
        → All (λ (c : Group). n ≤ c.0) (join k r cs)
    join-All [] g = ground arith
    join-All ((j, rs) ∷ cs) g = ground arith

join-RisingKeys :
    (k : ℕ) (r : CheckResult) (cs : List Group)
    → All (λ (c : Group). k ≤ c.0) cs
    → RisingKeys cs
    → RisingKeys (join k r cs)
join-RisingKeys k r [] h g = (tt, tt)
join-RisingKeys k r ((j, rs) ∷ cs) h g = elim (Bool-cases (k == j)) [
  | inl same ↦ rw same g
  | inr other ↦
      let lt : k < j = ground arith in
      rw other (
        (
          lt,
          All-mono (λ (c : Group). j < c.0) (λ (c : Group). k < c.0) cs (λ c l. omega arith) g.0,
        ),
        g,
      )
]

chunks-RisingKeys : (xs : List Numbered) → NonFalling xs → RisingKeys (chunks xs)
unfolding chunks
chunks-RisingKeys [] h = tt
chunks-RisingKeys ((k, r) ∷ rest) h =
    join-RisingKeys k r (chunks rest) (All-chunks k rest h.0) (chunks-RisingKeys rest h.1)

-- an insertion passes over groups with other numbers
insert_group-append :
    (k : ℕ) (r : CheckResult) (gs hs : List Group)
    → All (λ (g : Group). k < g.0) gs
    → insert_group k r (gs ++ hs) ≡ gs ++ insert_group k r hs
unfolding insert_group
insert_group-append k r [] hs h = refl
insert_group-append k r (g ∷ gs) hs h = ground (arith, insert_group-append k r gs hs h.1)

pub All-reverse {ℓ κ} : {A : Type ℓ} (P : A → Type κ) (xs : List A) → All P xs → All P (reverse xs)
All-reverse P [] h = tt
All-reverse P (x ∷ xs) h =
    rw (reverse_aux-eq xs (x ∷ []))
      (All-append P (reverse xs) (x ∷ []) (All-reverse P xs h.1) (h.0, tt))

insert_group-reverse :
    (k : ℕ) (r : CheckResult) (cs : List Group)
    → All (λ (c : Group). k ≤ c.0) cs
    → RisingKeys cs
    → insert_group k r (reverse cs) ≡ reverse (join k r cs)
unfolding insert_group
insert_group-reverse k r [] h g = refl
insert_group-reverse k r ((j, rs) ∷ cs) h g =
    let above =
      All-reverse (λ (c : Group). k < c.0) cs
        (All-mono (λ (c : Group). j < c.0) (λ (c : Group). k < c.0) cs (λ c l. omega arith) g.0) in
    ap (insert_group k r) (reverse-cons (j, rs) cs)
    ∙ insert_group-append k r (reverse cs) ((j, rs) ∷ []) above
    ∙ elim (Bool-cases (k == j)) [
      | inl same ↦ rw same (sym (reverse-cons (j, r ∷ rs) cs))
      | inr other ↦ rw other (
          sym (
            reverse-cons (k, r ∷ []) ((j, rs) ∷ cs)
            ∙ ap (λ (l : List Group). l ++ (k, r ∷ []) ∷ []) (reverse-cons (j, rs) cs)
            ∙ append_assoc (reverse cs) ((j, rs) ∷ []) ((k, r ∷ []) ∷ [])))
    ]

pub group-eq-chunks : (xs : List Numbered) → NonFalling xs → group_by_run xs ≡ reverse (chunks xs)
unfolding group_by_run chunks
group-eq-chunks [] h = refl
group-eq-chunks ((k, r) ∷ rest) h =
    ap (insert_group k r) (group-eq-chunks rest h.1)
    ∙ insert_group-reverse k r (chunks rest) (All-chunks k rest h.0) (chunks-RisingKeys rest h.1)
