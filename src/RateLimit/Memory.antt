-- ===== src/RateLimit/Memory.antt =====
-- A Redis in memory, which meets what `IsRedis` asks: the latest entry of a key counts.
use monitoring_service.Prelude.{
  ℕ, ◌+◌, ◌*◌, ◌≤◌, ◌<◌, ◌≡◌, ◌≢◌, refl, some, List, [], ◌∷◌, arith, ltb, inl, inr, Bool-cases,
  if◌then◌else◌,
}
use monitoring_service.Prelude.Text.{Text, text_eq, text_eq→eq, text_eq_refl}
use monitoring_service.Model.{second}
use monitoring_service.RateLimit.{Redis}
use monitoring_service.RateLimit.Admission.{IsRedis}

-- A key, its number, and the time at which it expires.
pub record Entry : Type 0 where
  pub key : Text
  pub number : ℕ
  pub expires_at : ℕ

abbrev pub count_at : List Entry → ℕ → Text → ℕ
count_at [] t key = 0
count_at (e ∷ es) t key =
    if text_eq e.key key then if ltb t e.expires_at then e.number else 0 else count_at es t key

abbrev pub memory : Redis
memory = record {
  Store = List Entry;
  execute = λ s now key ttl.
      let n = count_at s now key + 1 in
      (some n, record { key = key; number = n; expires_at = now + ttl * second } ∷ s);
}

pub memory-kept :
    (s : List Entry) (now : ℕ) (key : Text) (ttl n t : ℕ)
    → (memory.execute s now key ttl).0 ≡ some n
    → now ≤ t
    → t < now + ttl * second
    → count_at (memory.execute s now key ttl).1 t key ≡ n
memory-kept s now key ttl n t e from below = ground (arith, text_eq_refl key)

pub memory-others :
    (s : List Entry) (now : ℕ) (key : Text) (ttl t : ℕ) (other : Text)
    → other ≢ key
    → count_at (memory.execute s now key ttl).1 t other ≡ count_at s t other
memory-others s now key ttl t other ne = elim (Bool-cases (text_eq key other)) [
  | inl e ↦ absurd (ne (cc (text_eq→eq key other e)))
  | inr e ↦ rw e refl
]

pub memory-increments :
    (s : List Entry) (now : ℕ) (key : Text) (ttl n : ℕ)
    → (memory.execute s now key ttl).0 ≡ some n
    → n ≡ count_at s now key + 1
memory-increments s now key ttl n e = ground arith

abbrev pub memory_laws : IsRedis memory
memory_laws = record {
  count = count_at;
  increments = memory-increments;
  kept = memory-kept;
  others = memory-others;
}
