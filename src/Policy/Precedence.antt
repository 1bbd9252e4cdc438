-- ===== src/Policy/Precedence.antt =====
-- Which rule decides in `evaluate` (services/policy/recoup_policy/engine.py): what sorting keeps, and
-- what the hits are among all rules.
use recoup.Common.{
  ◌≡◌, refl, ◌∙◌, ap, String, Bool, true, false, not, ◌&&◌, ◌||◌, List, [], ◌∷◌, arith,
  if◌then◌else◌, filter, any, all, Bool-cases, inl, inr,
}
use recoup.Common.Int.{ℤ, leb_ℤ}
use recoup.Json.{Value}
use recoup.Policy.Facts.{TextLibrary}
use recoup.Policy.Compare.{Answer, holds, raises}
use recoup.Policy.Rules.{matches}
use recoup.Policy.Engine.{
  PolicyRule, Outcome, done, failed, key_le, insert_rule, sort_rules, applies, hits_of, add_hit,
}

-- The rule matched the context.
abbrev pub is_hit : TextLibrary → Value → PolicyRule → Bool
is_hit lib context r = elim (matches lib r.rule context) [ holds b ↦ b | raises e ↦ false ]

-- The rule is for this action and matched the context.
abbrev pub fires : TextLibrary → String → Value → PolicyRule → Bool
fires lib action_type context r = applies action_type r && is_hit lib context r

abbrev answers_yes : Answer → Bool
answers_yes a = elim a [ holds b ↦ b | raises e ↦ false ]

add_hit-filter :
    (a : Answer) (r : PolicyRule) (rest : Outcome (List PolicyRule)) (kept : List PolicyRule)
    {hits : List PolicyRule}
    → ((hs : List PolicyRule) → rest ≡ done hs → hs ≡ kept)
    → add_hit a r rest ≡ done hits
    → hits ≡ (if answers_yes a then r ∷ kept else kept)
unfolding add_hit
add_hit-filter (raises e) r rest kept k h = cc
add_hit-filter (holds false) r rest kept {hits = hits} k h = k hits h
add_hit-filter (holds true) r (failed e) kept k h = cc
add_hit-filter (holds true) r (done hs) kept k h = cc (k hs refl, h)

pub hits-filter :
    (lib : TextLibrary) (context : Value) (rules : List PolicyRule) {hits : List PolicyRule}
    → hits_of lib context rules ≡ done hits
    → hits ≡ filter (is_hit lib context) rules
unfolding hits_of
hits-filter lib context [] h = cc
hits-filter lib context (r ∷ rules) {hits = hits} h =
    add_hit-filter (matches lib r.rule context) r (hits_of lib context rules)
      (filter (is_hit lib context) rules) (λ hs. hits-filter lib context rules {hits = hs}) h

pub any-insert :
    (p : PolicyRule → Bool) (r : PolicyRule) (rules : List PolicyRule)
    → any p (insert_rule r rules) ≡ (p r || any p rules)
unfolding insert_rule
any-insert p r [] = refl
any-insert p r (x ∷ xs) = ground (arith, any-insert p r xs)

pub any-sort :
    (p : PolicyRule → Bool) (rules : List PolicyRule) → any p (sort_rules rules) ≡ any p rules
unfolding sort_rules
any-sort p [] = refl
any-sort p (r ∷ rules) = any-insert p r (sort_rules rules) ∙ ap (λ b. p r || b) (any-sort p rules)

pub all-insert :
    (p : PolicyRule → Bool) (r : PolicyRule) (rules : List PolicyRule)
    → all p (insert_rule r rules) ≡ (p r && all p rules)
unfolding insert_rule
all-insert p r [] = refl
all-insert p r (x ∷ xs) = ground (arith, all-insert p r xs)

pub all-sort :
    (p : PolicyRule → Bool) (rules : List PolicyRule) → all p (sort_rules rules) ≡ all p rules
unfolding sort_rules
all-sort p [] = refl
all-sort p (r ∷ rules) = all-insert p r (sort_rules rules) ∙ ap (λ b. p r && b) (all-sort p rules)

pub any-filter :
    (p q : PolicyRule → Bool) (rules : List PolicyRule)
    → any p (filter q rules) ≡ any (λ r. q r && p r) rules
any-filter p q [] = refl
any-filter p q (r ∷ rules) = ground (arith, any-filter p q rules)

pub all-filter :
    (p q : PolicyRule → Bool) (rules : List PolicyRule)
    → all p (filter q rules) ≡ all (λ r. not (q r) || p r) rules
all-filter p q [] = refl
all-filter p q (r ∷ rules) = ground (arith, all-filter p q rules)

-- Sorted by priority.
abbrev pub IsSorted : List PolicyRule → Type 0
IsSorted [] = Unit
IsSorted (r ∷ rules) = (all (λ x. leb_ℤ r.priority x.priority) rules ≡ true) × IsSorted rules

all_below :
    (a b : ℤ) (rules : List PolicyRule)
    → leb_ℤ a b ≡ true
    → all (λ x. leb_ℤ b x.priority) rules ≡ true
    → all (λ x. leb_ℤ a x.priority) rules ≡ true
all_below a b [] h k = refl
all_below a b (x ∷ xs) h k = ground (arith, all_below a b xs h)

insert-IsSorted :
    (r : PolicyRule) (rules : List PolicyRule) → IsSorted rules → IsSorted (insert_rule r rules)
unfolding insert_rule key_le
insert-IsSorted r [] s = ground arith
insert-IsSorted r (x ∷ xs) (s, t) = ground (
  arith,
  insert-IsSorted r xs t,
  all-insert (λ y. leb_ℤ x.priority y.priority) r xs,
  all_below r.priority x.priority xs,
)

pub sort-IsSorted : (rules : List PolicyRule) → IsSorted (sort_rules rules)
unfolding sort_rules
sort-IsSorted [] = tt
sort-IsSorted (r ∷ rules) = insert-IsSorted r (sort_rules rules) (sort-IsSorted rules)

pub all-filter-true :
    (p q : PolicyRule → Bool) (rules : List PolicyRule)
    → all p rules ≡ true
    → all p (filter q rules) ≡ true
all-filter-true p q [] h = refl
all-filter-true p q (r ∷ rules) h = ground (arith, all-filter-true p q rules)

pub filter-IsSorted :
    (q : PolicyRule → Bool) (rules : List PolicyRule) → IsSorted rules → IsSorted (filter q rules)
filter-IsSorted q [] s = tt
filter-IsSorted q (r ∷ rules) (s, t) = elim (Bool-cases (q r)) [
  | inl y ↦
      rw (filter, y)
        (all-filter-true (λ x. leb_ℤ r.priority x.priority) q rules s, filter-IsSorted q rules t)
  | inr n ↦ rw (filter, n) (filter-IsSorted q rules t)
]
