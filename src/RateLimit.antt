-- ===== src/RateLimit.antt =====
-- app/rate_limit.py: requests counted in Redis, in windows of a fixed length.
-- `Redis` stands for the server: the pipeline of INCR and EXPIRE is one transaction on its state.
pub mod Keys
pub mod Windows
pub mod Admission
pub mod Memory
mod Examples
use monitoring_service.Prelude.{
  ℕ, ◌+◌, ◌-◌, ◌*◌, ◌/◌, ◌%◌, Bool, true, false, Option, none, some, List, [], ◌∷◌, ◌++◌, ltb,
  if◌then◌else◌,
}
use monitoring_service.Prelude.Text.{Text, text}
use monitoring_service.Prelude.Text.Decimal.{str}
use monitoring_service.Model.{second}

-- `execute` at a time, with the key and its seconds to live: INCR's answer, or none for a `RedisError`.
pub record Redis : Type 1 where
  pub Store : Type 0
  pub execute : Store → ℕ → Text → ℕ → Option ℕ × Store

-- What `request.client` is: a host, or nothing.
unfoldable pub client_ip : Option Text → Text
client_ip none = text "unknown"
client_ip (some host) = host

-- int(now // window_seconds)
unfoldable pub window_of : ℕ → ℕ → ℕ
window_of now window_seconds = now / (window_seconds * second)

-- f"ratelimit:{name}:{identity}:{window}"
unfoldable pub limit_key : Text → Text → ℕ → Text
limit_key name identity window =
    text "ratelimit:" ++ (name ++ b':' ∷ (identity ++ b':' ∷ str window))

-- window_seconds - int(now) % window_seconds
unfoldable pub retry_after : ℕ → ℕ → ℕ
retry_after now window_seconds = window_seconds - now / second % window_seconds

-- `enforce` returns, or raises a 429 with its Retry-After.
pub data Enforced : Type 0 where
  admitted : Enforced
  too_many_requests : ℕ → Enforced

abbrev pub is_admitted : Enforced → Bool
is_admitted admitted = true
is_admitted (too_many_requests _) = false

module _ (redis : Redis) where
  -- The server, and the counter RATE_LIMITED with its labels.
  pub record Limiter : Type 0 where
    pub store : redis.Store
    pub rate_limited : List Text

  unfoldable pub enforce : Text → Text → ℕ → ℕ → ℕ → Limiter → Limiter × Enforced
  enforce name identity limit window_seconds now l =
      let (count, store') =
        redis.execute l.store now (limit_key name identity (window_of now window_seconds))
          window_seconds in
      let l' : Limiter = record l { store = store' } in
      elim count [
        | none ↦ (l', admitted)
        | some n ↦
            if ltb limit n
            then (
              record l' { rate_limited = l.rate_limited ++ name ∷ [] },
              too_many_requests (retry_after now window_seconds),
            )
            else (l', admitted)
      ]
