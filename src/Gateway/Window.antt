-- ===== src/Gateway/Window.antt =====
-- How many calls the rate limiter lets a tenant make in one minute
-- (services/tool-gateway/recoup_tool_gateway/ratelimit.py).
use recoup.Common.{
  subst, ℕ, ◌+◌, ◌-◌, ◌/◌, ◌≤◌, ◌≡◌, refl, sym, String, Bool, true, false, Option, none, some, List,
  [], ◌∷◌, All, str_eq, str_eq_iff, leb, ◌==◌, if◌then◌else◌, arith, Bool-cases, inl, inr,
}
use recoup.Gateway.Limits.{
  Redis, Local, Limiter, put, used, allow_local, redis_failed, expiry_set, on_redis, allow_in,
  allow_at, allowed_count,
}

-- A call was allowed to the key.
abbrev spent : String → String → Bool → ℕ
spent key k answer = if str_eq k key then (if answer then 1 else 0) else 0

used-put :
    (window : ℕ) (l : Local) (k key : String)
    → used window (put k (window, used window (l k) + 1) l key)
      ≡ (if str_eq k key then used window (l key) + 1 else used window (l key))
used-put window l k key = ground (arith, str_eq_iff k key)

module _ {Store : Type 0} (r : Redis Store) (count : Store → String → ℕ)
    (counted : (s : Store) (k : String) (s' : Store) (n : ℕ)
      → r.incr s k ≡ some (s', n)
      → (n ≡ count s k + 1) × (count s' k ≡ n))
    (kept : (s : Store) (k : String) (s' : Store) (n : ℕ) (j : String)
      → r.incr s k ≡ some (s', n)
      → count s j ≤ count s' j)
    (unexpired : (s : Store) (k : String) (t : ℕ) (s' : Store) (j : String)
      → r.expire s k t ≡ some s'
      → count s j ≤ count s' j)
    (key : String) (window : ℕ) where
  -- What the count in the process leaves to the key.
  abbrev left_local : Limiter Store → ℕ
  left_local l = l.per_minute - used window (l.local key)

  -- What the count on Redis leaves to the key.
  abbrev left_redis : Limiter Store → ℕ
  left_redis l = if l.redis_ok then l.per_minute - count l.store (r.key_of key window) else 0

  -- What an answer grants, with what the limiter then has left, is within what it had.
  abbrev Spends : String → ℕ → Limiter Store × Bool → Type 0
  Spends k had answer = spent key k answer.1 + (left_local answer.0 + left_redis answer.0) ≤ had

  allow_local-Spends :
      (l : Limiter Store) (k : String)
      → l.redis_ok ≡ false
      → Spends k (left_local l) (allow_local l k window)
  unfolding allow_local
  allow_local-Spends l k h = ground (arith, used-put window l.local k key)

  incr-spends :
      (m : ℕ) (before s : Store) (k : String) (n : ℕ)
      → r.incr before (r.key_of k window) ≡ some (s, n)
      → spent key k (leb n m) + (m - count s (r.key_of key window))
        ≤ m - count before (r.key_of key window)
  incr-spends m before s k n h = elim (Bool-cases (str_eq k key)) [
    | inl y ↦
        let same : k ≡ key = ground (arith, str_eq_iff k key) in
        let own =
          subst
            (λ j. (n ≡ count before (r.key_of j window) + 1) × (count s (r.key_of j window) ≡ n))
            same (counted before (r.key_of k window) s n h) in
        ground (arith, own)
    | inr other ↦ ground (arith, kept before (r.key_of k window) s n (r.key_of key window) h)
  ]

  expiry_set-Spends :
      (l : Limiter Store) (k : String) (s : Store) (n : ℕ) (answer : Option Store)
      → l.redis_ok ≡ true
      → r.incr l.store (r.key_of k window) ≡ some (s, n)
      → r.expire s (r.key_of k window) 70 ≡ answer
      → Spends k (left_local l + left_redis l) (expiry_set l k window s n answer)
  unfolding expiry_set
  expiry_set-Spends l k s n none up h e =
      ground (arith, allow_local-Spends (redis_failed (record l { store = s })) k refl)
  expiry_set-Spends l k s n (some later) up h e = ground (
    arith,
    incr-spends l.per_minute l.store s k n h,
    unexpired s (r.key_of k window) 70 later (r.key_of key window) e,
  )

  on_redis-Spends :
      (l : Limiter Store) (k : String) (answer : Option (Store × ℕ))
      → l.redis_ok ≡ true
      → r.incr l.store (r.key_of k window) ≡ answer
      → Spends k (left_local l + left_redis l) (on_redis r l k window answer)
  unfolding on_redis
  on_redis-Spends l k none up h = ground (arith, allow_local-Spends (redis_failed l) k refl)
  on_redis-Spends l k (some (s, n)) up h = elim (Bool-cases (n == 1)) [
    | inl one ↦
        let set = expiry_set-Spends l k s n (r.expire s (r.key_of k window) 70) up h refl in
        grind (arith, set)
    | inr more ↦ ground (arith, incr-spends l.per_minute l.store s k n h)
  ]

  allow_in-Spends :
      (l : Limiter Store) (k : String)
      → Spends k (left_local l + left_redis l) (allow_in r l k window)
  unfolding allow_in
  allow_in-Spends l k = elim (Bool-cases l.redis_ok) [
    | inl up ↦
        let spends = on_redis-Spends l k (r.incr l.store (r.key_of k window)) up refl in
        grind (arith, spends)
    | inr down ↦ ground (arith, allow_local-Spends l k down)
  ]

  allowed_count-left :
      (l : Limiter Store) (calls : List (String × ℕ))
      → All (λ call. call.1 / 60 ≡ window) calls
      → allowed_count r l key calls ≤ left_local l + left_redis l
  unfolding allowed_count allow_at
  allowed_count-left l [] within = omega arith
  allowed_count-left l ((k, time) ∷ calls) (now, within) =
      let step =
        subst (λ w. Spends k (left_local l + left_redis l) (allow_in r l k w)) (sym now)
          (allow_in-Spends l k) in
      ground (arith, step, allowed_count-left (allow_at r l k time).0 calls within)

  -- In any minute, whatever the limiter counted before, a key is allowed at most `per_minute` calls that are
  -- counted in the process and, if Redis answered at the start, `per_minute` more that are counted on Redis;
  -- where INCR adds one to its key and lowers no other, and EXPIRE lowers none within the minute.
  pub allowed_count-le :
      (l : Limiter Store) (calls : List (String × ℕ))
      → All (λ call. call.1 / 60 ≡ window) calls
      → allowed_count r l key calls ≤ l.per_minute + (if l.redis_ok then l.per_minute else 0)
  allowed_count-le l calls within = ground (arith, allowed_count-left l calls within)
