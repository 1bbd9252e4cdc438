-- ===== src/Gateway/Limits.antt =====
-- `RateLimiter` of services/tool-gateway/recoup_tool_gateway/ratelimit.py: a fixed window for each tenant,
-- counted on Redis, and in the process once Redis has failed. Redis is a parameter: `none` is an exception of
-- its client. The Redis key of a tenant and a window is a parameter too, since it is the text of a number.
use recoup.Common.{
  ℕ, ◌+◌, ◌/◌, String, Bool, false, Option, none, some, List, [], ◌∷◌, str_eq, leb, ◌==◌,
  if◌then◌else◌,
}

pub record Redis (Store : Type 0) : Type 0 where
  pub key_of : String → ℕ → String
  pub incr : Store → String → Option (Store × ℕ)
  pub expire : Store → String → ℕ → Option Store

-- The windows and counts of the tenants that were counted in the process.
abbrev pub Local : Type 0
Local = String → Option (ℕ × ℕ)

pub record Limiter (Store : Type 0) : Type 0 where
  pub per_minute : ℕ
  pub local : Local
  pub redis_ok : Bool
  pub store : Store

-- `self._local[key] = (w, n)`
abbrev pub put : String → ℕ × ℕ → Local → Local
put key v counts = λ k. if str_eq key k then some v else counts k

-- The count of a key in a window: what was counted in another window is dropped.
abbrev pub used : ℕ → Option (ℕ × ℕ) → ℕ
used window none = 0
used window (some (w, n)) = if w == window then n else 0

module _ {Store : Type 0} where
  -- The part of `allow` that counts in the process.
  unfoldable pub allow_local : Limiter Store → String → ℕ → Limiter Store × Bool
  allow_local l key window =
      let n = used window (l.local key) + 1 in
      (record l { local = put key (window, n) l.local }, leb n l.per_minute)

  -- The `except` clause.
  abbrev pub redis_failed : Limiter Store → Limiter Store
  redis_failed l = record l { redis_ok = false }

  -- What Redis answered to `expire`: where it failed, the call is counted again, in the process.
  unfoldable pub expiry_set :
      Limiter Store → String → ℕ → Store → ℕ → Option Store → Limiter Store × Bool
  unfolding allow_local
  expiry_set l key window store n none =
      allow_local (redis_failed (record l { store = store })) key window
  expiry_set l key window store n (some later) = (record l { store = later }, leb n l.per_minute)

  -- What Redis answered to `incr`. The first count of a key sets when it expires.
  unfoldable pub on_redis :
      Redis Store → Limiter Store → String → ℕ → Option (Store × ℕ) → Limiter Store × Bool
  unfolding expiry_set allow_local
  on_redis r l key window none = allow_local (redis_failed l) key window
  on_redis r l key window (some (store, n)) =
      if n == 1
      then expiry_set l key window store n (r.expire store (r.key_of key window) 70)
      else (record l { store = store }, leb n l.per_minute)

  unfoldable pub allow_in : Redis Store → Limiter Store → String → ℕ → Limiter Store × Bool
  unfolding on_redis allow_local
  allow_in r l key window =
      if l.redis_ok
      then on_redis r l key window (r.incr l.store (r.key_of key window))
      else allow_local l key window

  -- `allow`, at a time in seconds.
  unfoldable pub allow_at : Redis Store → Limiter Store → String → ℕ → Limiter Store × Bool
  unfolding allow_in
  allow_at r l key time = allow_in r l key (time / 60)

  -- How many of the calls, each a key and a time, are allowed to a key.
  unfoldable pub allowed_count : Redis Store → Limiter Store → String → List (String × ℕ) → ℕ
  unfolding allow_at
  allowed_count r l key [] = 0
  allowed_count r l key ((k, time) ∷ calls) =
      let answer = allow_at r l k time in
      let rest = allowed_count r answer.0 key calls in
      if str_eq k key then (if answer.1 then rest + 1 else rest) else rest
