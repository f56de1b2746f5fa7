-- ===== src/RateLimit/Admission.antt =====
-- app/rate_limit.py, `enforce`: what a sequence of requests is answered, under what Redis documents
-- of INCR and EXPIRE.
use monitoring_service.Prelude.{
  ℕ, ◌+◌, ◌*◌, ◌≤◌, ◌<◌, ◌≡◌, ◌≢◌, ap, sym, ◌∙◌, inl, inr, false, ◌&&◌, some, List, [], ◌∷◌, arith,
  leb, All, Bool-cases, if◌then◌else◌,
}
use monitoring_service.Prelude.Text.{Text, text_eq, text_eq→eq, text_eq_refl}
use monitoring_service.Prelude.Tables.{count_where}
use monitoring_service.Model.{second}
use monitoring_service.RateLimit.{
  Redis, Limiter, Enforced, is_admitted, limit_key, window_of, enforce,
}
use monitoring_service.RateLimit.Keys.{LacksColon, limit_key_injective}
use monitoring_service.RateLimit.Windows.{window_of_bounds}

-- What Redis documents: `count` is the number under a key at a time, 0 where there is none. INCR
-- answers that number plus one, which stands under the key until EXPIRE's seconds are over; a
-- transaction on one key leaves the others alone.
pub record IsRedis (redis : Redis) : Type 0 where
  pub count : redis.Store → ℕ → Text → ℕ
  pub increments :
      (s : redis.Store) (now : ℕ) (key : Text) (ttl n : ℕ)
      → (redis.execute s now key ttl).0 ≡ some n
      → n ≡ count s now key + 1
  pub kept :
      (s : redis.Store) (now : ℕ) (key : Text) (ttl n t : ℕ)
      → (redis.execute s now key ttl).0 ≡ some n
      → now ≤ t
      → t < now + ttl * second
      → count (redis.execute s now key ttl).1 t key ≡ n
  pub others :
      (s : redis.Store) (now : ℕ) (key : Text) (ttl t : ℕ) (other : Text)
      → other ≢ key
      → count (redis.execute s now key ttl).1 t other ≡ count s t other

-- One call of `enforce`, with the clock.
pub record Request : Type 0 where
  pub name : Text
  pub identity : Text
  pub limit : ℕ
  pub window_seconds : ℕ
  pub now : ℕ

abbrev pub key_of : Request → Text
key_of r = limit_key r.name r.identity (window_of r.now r.window_seconds)

-- The requests come in the order of their times, none before `t`.
abbrev pub InOrder : ℕ → List Request → Type 0
InOrder t [] = Unit
InOrder t (r ∷ rs) = (t ≤ r.now) × InOrder r.now rs

-- The requests counted under one key.
abbrev pub requests_for : Text → List Request → ℕ
requests_for key = count_where (λ (r : Request). text_eq (key_of r) key)

abbrev pub least : ℕ → ℕ → ℕ
least a b = if leb a b then a else b

text_ne : (a b : Text) → text_eq a b ≡ false → b ≢ a
text_ne a b h e = cc (text_eq_refl a)

window_end : (ws window : ℕ) → ws * second * (window + 1) ≡ ws * second * window + ws * second
window_end ws window = grind arith

module _ (redis : Redis) where
  abbrev pub served : Request → Limiter redis → Limiter redis × Enforced
  served r = enforce redis r.name r.identity r.limit r.window_seconds r.now

  -- No request meets a `RedisError`.
  abbrev pub IsAvailable : List Request → Limiter redis → Type 0
  IsAvailable [] l = Unit
  IsAvailable (r ∷ rs) l =
      ((n : ℕ) × ((redis.execute l.store r.now (key_of r) r.window_seconds).0 ≡ some n))
      × IsAvailable rs (served r l).0

  -- How many requests of one key are let through.
  abbrev pub admitted_for : Text → List Request → Limiter redis → ℕ
  admitted_for key [] l = 0
  admitted_for key (r ∷ rs) l =
      (if text_eq (key_of r) key && is_admitted (served r l).1 then 1 else 0)
      + admitted_for key rs (served r l).0

  store-enforce :
      (r : Request) (l : Limiter redis)
      → (served r l).0.store ≡ (redis.execute l.store r.now (key_of r) r.window_seconds).1
  unfolding enforce
  store-enforce r l = ground arith

  enforce_counted :
      (r : Request) (l : Limiter redis) (n : ℕ)
      → (redis.execute l.store r.now (key_of r) r.window_seconds).0 ≡ some n
      → is_admitted (served r l).1 ≡ leb n r.limit
  unfolding enforce
  enforce_counted r l n e = ground arith

  module _ (law : IsRedis redis) (key : Text) (limit ws start : ℕ) where
    -- A request of this key has this limit and comes within the window.
    abbrev Fits : Request → Type 0
    Fits r =
        key_of r ≡ key
        → (r.limit ≡ limit)
          × (r.window_seconds ≡ ws)
          × (start ≤ r.now)
          × (r.now < start + ws * second)

    -- The number under the key, from `t` to the end of the window.
    abbrev CountIs : ℕ → ℕ → redis.Store → Type 0
    CountIs c t s = (u : ℕ) → t ≤ u → u < start + ws * second → law.count s u key ≡ c

    count_other :
        (r : Request) (l : Limiter redis) (c t : ℕ)
        → t ≤ r.now
        → text_eq (key_of r) key ≡ false
        → CountIs c t l.store
        → CountIs c r.now (served r l).0.store
    count_other r l c t o other k u from below =
        ap (λ s. law.count s u key) (store-enforce r l)
        ∙ law.others l.store r.now (key_of r) r.window_seconds u key (text_ne (key_of r) key other)
        ∙ k u (omega arith) below

    count_own :
        (r : Request) (l : Limiter redis) (c n : ℕ)
        → (redis.execute l.store r.now (key_of r) r.window_seconds).0 ≡ some n
        → key_of r ≡ key
        → n ≡ c + 1
        → r.window_seconds ≡ ws
        → start ≤ r.now
        → CountIs (c + 1) r.now (served r l).0.store
    count_own r l c n e same counted ws_same late u from below =
        ap (λ s. law.count s u key) (store-enforce r l)
        ∙ ap (law.count (redis.execute l.store r.now (key_of r) r.window_seconds).1 u) (sym same)
        ∙ law.kept l.store r.now (key_of r) r.window_seconds n u e from (rw ws_same (omega arith))
        ∙ counted

    admitted-from :
        (rs : List Request) (l : Limiter redis) (c t : ℕ)
        → InOrder t rs
        → IsAvailable rs l
        → All Fits rs
        → CountIs c t l.store
        → admitted_for key rs l + least c limit ≡ least (c + requests_for key rs) limit
    admitted-from [] l c t o a f k = ground arith
    admitted-from (r ∷ rs) l c t o a f k = elim (Bool-cases (text_eq (key_of r) key)) [
      | inr other ↦ ground (
        arith,
        admitted-from rs (served r l).0 c r.now o.1 a.1 f.1 (count_other r l c t o.0 other k),
      )
      | inl own ↦
          let same = text_eq→eq (key_of r) key own in
          let (limits, ws_same, from, below) = f.0 same in
          let counted : a.0.0 ≡ c + 1 =
            law.increments l.store r.now (key_of r) r.window_seconds a.0.0 a.0.1
            ∙ ap (λ q. law.count l.store r.now q + 1) same
            ∙ ap (λ q. q + 1) (k r.now o.0 below) in
          let rest =
            admitted-from rs (served r l).0 (c + 1) r.now o.1 a.1 f.1
              (count_own r l c a.0.0 a.0.1 same counted ws_same from) in
          ground (arith, rest, enforce_counted r l a.0.0 a.0.1, counted, limits)
    ]

  All-Fits :
      (law : IsRedis redis) (name identity : Text) (limit ws window : ℕ)
      → 0 < ws
      → LacksColon name
      → (rs : List Request) → All (λ r. LacksColon r.name) rs
      → All (λ r. r.name ≡ name → (r.limit ≡ limit) × (r.window_seconds ≡ ws)) rs
      → All (Fits law (limit_key name identity window) limit ws (ws * second * window)) rs
  All-Fits law name identity limit ws window pos clean [] names limits = tt
  All-Fits law name identity limit ws window pos clean (r ∷ rs) names limits = (
    (λ same.
        let (name_same, _, window_same) =
          limit_key_injective r.name name r.identity identity (window_of r.now r.window_seconds)
            window names.0 clean same in
        let (limit_same, ws_same) = limits.0 name_same in
        let now_window : window_of r.now ws ≡ window =
          ap (window_of r.now) (sym ws_same) ∙ window_same in
        let (from, below) = window_of_bounds r.now ws pos in
        let below' : r.now < ws * second * (window + 1) = rw now_window at below in
        (
          limit_same,
          ws_same,
          (rw now_window at from),
          omega (arith, below', window_end ws window),
        )),
    All-Fits law name identity limit ws window pos clean rs names.1 limits.1,
  )

  -- Where requests come in the order of their times and Redis answers, and those under one name
  -- have one limit and one window, the requests that one identity makes in one window are let
  -- through up to the limit, and all further ones are refused, whatever other requests come in
  -- between: of n requests, the lesser of n and the limit, where the window's counter is new.
  pub enforce_admits :
      (law : IsRedis redis) (name identity : Text) (limit ws window : ℕ) (rs : List Request)
      (l : Limiter redis)
      → 0 < ws
      → LacksColon name
      → All (λ r. LacksColon r.name) rs
      → All (λ r. r.name ≡ name → (r.limit ≡ limit) × (r.window_seconds ≡ ws)) rs
      → InOrder 0 rs
      → IsAvailable rs l
      → ((t : ℕ) → law.count l.store t (limit_key name identity window) ≡ 0)
      → admitted_for (limit_key name identity window) rs l
        ≡ least (requests_for (limit_key name identity window) rs) limit
  enforce_admits law name identity limit ws window rs l pos clean names limits order available new =
      let key = limit_key name identity window in
      let fits = All-Fits law name identity limit ws window pos clean rs names limits in
      ground (
        arith,
        admitted-from law key limit ws (ws * second * window) rs l 0 0 order available fits
            (λ u from below. new u),
      )
