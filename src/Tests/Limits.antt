-- ===== src/Tests/Limits.antt =====
-- The theorem on the rate limiter, at concrete inputs.
use recoup.Common.{
  ℕ, ◌+◌, ◌≤◌, ◌≡◌, refl, sym, ap, String, true, none, some, List, [], ◌∷◌, str_eq, str_eq_iff, leb,
  if◌then◌else◌, arith,
}
use mathlib.Core.Option.{some-injective}
use recoup.Gateway.Limits.{Redis, Limiter, allowed_count}
use recoup.Gateway.Window.{allowed_count-le}

abbrev Counts : Type 0
Counts = String → ℕ

abbrev counted_up : Counts → String → Counts
counted_up s k = λ j. if str_eq k j then s j + 1 else s j

-- A Redis that always answers.
abbrev redis : Redis Counts
redis = record {
  key_of = λ key window. key;
  incr = λ s k. some (counted_up s k, s k + 1);
  expire = λ s k t. some s;
}

-- A Redis that fails from the second count of a key on.
abbrev failing : Redis Counts
failing = record {
  key_of = λ key window. key;
  incr = λ s k. if leb 1 (s k) then none else some (counted_up s k, s k + 1);
  expire = λ s k t. some s;
}

abbrev limiter : Limiter Counts
limiter = record { per_minute = 1; local = λ k. none; redis_ok = true; store = λ k. 0 }

abbrev calls : List (String × ℕ)
calls = ("acme", 60) ∷ ("acme", 61) ∷ ("other", 70) ∷ ("acme", 119) ∷ []

counted :
    (s : Counts) (k : String) (s' : Counts) (n : ℕ)
    → redis.incr s k ≡ some (s', n)
    → (n ≡ s k + 1) × (s' k ≡ n)
counted s k s' n h =
    let same = some-injective (counted_up s k, s k + 1) (s', n) h in
    (
      sym (ap (λ p. p.1) same),
      ground (arith, ap (λ p. p.0 k) same, ap (λ p. p.1) same, str_eq_iff k k),
    )

kept :
    (s : Counts) (k : String) (s' : Counts) (n : ℕ) (j : String)
    → redis.incr s k ≡ some (s', n)
    → s j ≤ s' j
kept s k s' n j h =
    ground
      (arith, ap (λ p. p.0 j) (some-injective (counted_up s k, s k + 1) (s', n) h), str_eq_iff k j)

unexpired :
    (s : Counts) (k : String) (t : ℕ) (s' : Counts) (j : String)
    → redis.expire s k t ≡ some s'
    → s j ≤ s' j
unexpired s k t s' j h = ground (arith, ap (λ p. p j) (some-injective s s' h))

allowed_count-le_example : allowed_count redis limiter "acme" calls ≤ 2
allowed_count-le_example =
    allowed_count-le redis (λ s k. s k) counted kept unexpired "acme" 1 limiter calls
      (refl, (refl, (refl, (refl, tt))))

one_a_minute : allowed_count redis limiter "acme" calls ≡ 1
unfolding allowed_count
one_a_minute = refl

-- In the minute in which Redis fails the limit is reached twice.
twice_the_limit : allowed_count failing limiter "acme" calls ≡ 2
unfolding allowed_count
twice_the_limit = refl
