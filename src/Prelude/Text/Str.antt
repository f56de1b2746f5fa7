-- ===== src/Prelude/Text/Str.antt =====
-- Methods of Python's `str` that the program calls.
use monitoring_service.Prelude.Tests.{◌==◌, leb, if◌then◌else◌, All}
use monitoring_service.Prelude.Text.{Text}
use Prim.Native.Nat.{ℕ}
use mathlib.Core.Path.{◌≡◌, refl, ap, ◌∙◌}
use mathlib.Core.Bool.{Bool, false, ◌&&◌, ◌||◌}
use mathlib.Core.List.{List, [], ◌∷◌, ◌++◌}
use native.Mathlib.Omega.{arith}

-- The white space of `str.isspace` and `str.strip`.
unfoldable pub is_space : ℕ → Bool
is_space c =
    leb 9 c && leb c 13
    || leb 28 c && leb c 32
    || c == 133
    || c == 160
    || c == 5760
    || leb 8192 c && leb c 8202
    || c == 8232
    || c == 8233
    || c == 8239
    || c == 8287
    || c == 12288

-- any(ch.isspace() for ch in s)
abbrev pub any_space : Text → Bool
any_space [] = false
any_space (c ∷ s) = is_space c || any_space s

unfoldable pub lstrip : Text → Text
lstrip [] = []
lstrip (c ∷ s) = let rest = lstrip s in if is_space c then rest else c ∷ s

unfoldable pub rstrip : Text → Text
rstrip [] = []
rstrip (c ∷ s) = elim (rstrip s) [ [] ↦ if is_space c then [] else c ∷ [] | d ∷ t ↦ c ∷ d ∷ t ]

unfoldable pub strip : Text → Text
unfolding lstrip rstrip
strip s = rstrip (lstrip s)

-- s.partition(sep), without the separator: all of `s` and nothing, where there is none.
unfoldable pub partition : ℕ → Text → Text × Text
partition sep [] = ([], [])
partition sep (c ∷ s) =
    let (before, after) = partition sep s in if c == sep then ([], s) else (c ∷ before, after)

-- c in s
abbrev pub contains : ℕ → Text → Bool
contains c [] = false
contains c (d ∷ s) = c == d || contains c s

-- The parts of a text around a code point, never none: s.split(sep).
abbrev add_code : ℕ → List Text → List Text
add_code c [] = (c ∷ []) ∷ []
add_code c (part ∷ parts) = (c ∷ part) ∷ parts

unfoldable pub split : ℕ → Text → List Text
split sep [] = [] ∷ []
split sep (c ∷ s) = let rest = split sep s in if c == sep then [] ∷ rest else add_code c rest

-- sep.join(parts)
abbrev pub join : ℕ → List Text → Text
join sep [] = []
join sep (part ∷ []) = part
join sep (part ∷ next ∷ parts) = part ++ sep ∷ join sep (next ∷ parts)

split-last : (sep : ℕ) (s : Text) → contains sep s ≡ false → split sep s ≡ s ∷ []
unfolding split
split-last sep [] h = refl
split-last sep (c ∷ s) h = ground (arith, split-last sep s)

split-append :
    (sep : ℕ) (s t : Text) → contains sep s ≡ false → split sep (s ++ sep ∷ t) ≡ s ∷ split sep t
unfolding split
split-append sep [] t h = ground arith
split-append sep (c ∷ s) t h = ground (arith, split-append sep s t)

-- Parts that do not hold the separator come back.
pub split-join :
    (sep : ℕ) (part : Text) (parts : List Text)
    → All (λ (p : Text). contains sep p ≡ false) (part ∷ parts)
    → split sep (join sep (part ∷ parts)) ≡ part ∷ parts
split-join sep part [] h = split-last sep part h.0
split-join sep part (next ∷ parts) h =
    split-append sep part (join sep (next ∷ parts)) h.0
    ∙ ap (λ rest. part ∷ rest) (split-join sep next parts h.1)

pub contains-append :
    (c : ℕ) (s t : Text) → contains c s ≡ false → contains c t ≡ false → contains c (s ++ t) ≡ false
contains-append c [] t a b = b
contains-append c (d ∷ s) t a b = ground (arith, contains-append c s t)

lstrip-no_space : (s : Text) → any_space s ≡ false → lstrip s ≡ s
unfolding lstrip
lstrip-no_space [] h = refl
lstrip-no_space (c ∷ s) h = ground arith

rstrip-no_space : (s : Text) → any_space s ≡ false → rstrip s ≡ s
unfolding rstrip
rstrip-no_space [] h = refl
rstrip-no_space (c ∷ []) h = ground arith
rstrip-no_space (c ∷ d ∷ s) h = ground (arith, rstrip-no_space (d ∷ s))

-- A text with no white space is its own strip.
pub strip-no_space : (s : Text) → any_space s ≡ false → strip s ≡ s
unfolding strip
strip-no_space s h = ap rstrip (lstrip-no_space s h) ∙ rstrip-no_space s h
