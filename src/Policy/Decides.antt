-- ===== src/Policy/Decides.antt =====
-- What `evaluate` answers (services/policy/recoup_policy/engine.py): a denial anywhere wins, an allowance
-- needs a rule of the lowest priority that allows, and the role goes with an approval.
use recoup.Common.{
  ◌≡◌, refl, sym, subst, ◌∙◌, ap, ◌≢◌, String, Bool, true, false, not, ◌&&◌, ◌||◌, List, [], ◌∷◌,
  arith, filter, find, any, all, is_some,
}
use recoup.Common.Int.{leb_ℤ}
use recoup.Json.{Value}
use recoup.Policy.Facts.{TextLibrary}
use recoup.Policy.Engine.{
  Decision, allow, is_deny, is_require, PolicyRule, EvaluationResult, Outcome, done, failed,
  sort_rules, applies, hits_of, decide, on_hits, evaluate,
}
use recoup.Policy.Precedence.{
  is_hit, hits-filter, any-sort, all-sort, any-filter, all-filter, IsSorted, sort-IsSorted,
  filter-IsSorted,
}

-- The hits of an evaluation that ends, and what is decided from them.
evaluate-decide :
    (lib : TextLibrary) (action_type : String) (context : Value) (rules : List PolicyRule)
    (d : Decision) (role : String) {res : EvaluationResult}
    → evaluate lib action_type context rules d role ≡ done res
    → res
      ≡ decide d role
          (filter (is_hit lib context) (sort_rules (filter (applies action_type) rules)))
unfolding evaluate
evaluate-decide lib at context rules d role {res = res} h =
    go (hits_of lib context (sort_rules (filter (applies at) rules))) refl h
  where
    go :
        (o : Outcome (List PolicyRule))
        → hits_of lib context (sort_rules (filter (applies at) rules)) ≡ o
        → on_hits d role o ≡ done res
        → res ≡ decide d role (filter (is_hit lib context) (sort_rules (filter (applies at) rules)))
    go (failed e) p q = cc
    go (done hits) p q = cc (hits-filter lib context (sort_rules (filter (applies at) rules)) p, q)

find-any {ℓ} : {A : Type ℓ} (p : A → Bool) (xs : List A) → is_some (find p xs) ≡ any p xs
find-any p [] = refl
find-any p (x ∷ xs) = ground (arith, find-any p xs)

decide_role :
    (d : Decision) (role : String) (hits : List PolicyRule)
    → is_some (decide d role hits).required_role ≡ is_require (decide d role hits).decision
unfolding decide
decide_role d role [] = ground arith
decide_role d role (r ∷ hits) = ground arith

decide_deny :
    (d : Decision) (role : String) (hits : List PolicyRule)
    → is_deny (decide d role hits).decision
      ≡ (any (λ r. is_deny r.decision) hits || (is_deny d && not (any (λ r. true) hits)))
unfolding decide
decide_deny d role [] = ground arith
decide_deny d role (r ∷ hits) = ground (arith, find-any (λ r. is_deny r.decision) hits)

abbrev pub is_allow : Decision → Bool
is_allow allow = true
is_allow _ = false

-- No rule of the list is before this one, and none denies.
abbrev pub leads : PolicyRule → PolicyRule → Bool
leads r x = leb_ℤ r.priority x.priority && not (is_deny x.decision)

leads_head :
    (r : PolicyRule) (hits : List PolicyRule)
    → all (λ x. leb_ℤ r.priority x.priority) hits ≡ true
    → any (λ x. is_deny x.decision) hits ≡ false
    → all (leads r) hits ≡ true
leads_head r [] h k = refl
leads_head r (x ∷ xs) h k = ground (arith, leads_head r xs)

decide_allow :
    (d : Decision) (role : String) (hits : List PolicyRule)
    → (decide d role hits).decision ≡ allow
    → d ≢ allow
    → IsSorted hits
    → any (λ r. is_allow r.decision && all (leads r) hits) hits ≡ true
unfolding decide
decide_allow d role [] h n s = ground arith
decide_allow d role (r ∷ hits) h n (s, t) =
    ground (arith, find-any (λ x. is_deny x.decision) hits, leads_head r hits s)

module _ (lib : TextLibrary) (action_type : String) (context : Value) where
  -- The rule is for the action, matched the context and passes the test.
  abbrev pub fires_with : (PolicyRule → Bool) → PolicyRule → Bool
  fires_with p r = applies action_type r && (is_hit lib context r && p r)

  -- Every rule for the action that matched the context passes the test.
  abbrev pub all_fired : (PolicyRule → Bool) → List PolicyRule → Bool
  all_fired p rules =
      all (λ r. not (applies action_type r) || (not (is_hit lib context r) || p r)) rules

  hits : List PolicyRule → List PolicyRule
  hits rules = filter (is_hit lib context) (sort_rules (filter (applies action_type) rules))

  any-hits :
      (p : PolicyRule → Bool) (rules : List PolicyRule)
      → any p (hits rules) ≡ any (fires_with p) rules
  unfolding hits
  any-hits p rules =
      any-filter p (is_hit lib context) (sort_rules (filter (applies action_type) rules))
      ∙ any-sort _ (filter (applies action_type) rules)
      ∙ any-filter _ (applies action_type) rules

  all-hits :
      (p : PolicyRule → Bool) (rules : List PolicyRule) → all p (hits rules) ≡ all_fired p rules
  unfolding hits
  all-hits p rules =
      all-filter p (is_hit lib context) (sort_rules (filter (applies action_type) rules))
      ∙ all-sort _ (filter (applies action_type) rules)
      ∙ all-filter _ (applies action_type) rules

  hits-IsSorted : (rules : List PolicyRule) → IsSorted (hits rules)
  unfolding hits
  hits-IsSorted rules =
      filter-IsSorted (is_hit lib context) _ (sort-IsSorted (filter (applies action_type) rules))

  -- An evaluation that ends denies when a rule that fires denies, and else only when no rule fires and
  -- the default is to deny.
  pub evaluate_deny :
      (rules : List PolicyRule) (d : Decision) (role : String) {res : EvaluationResult}
      → evaluate lib action_type context rules d role ≡ done res
      → is_deny res.decision ≡ (
          any (fires_with (λ r. is_deny r.decision)) rules
          || (is_deny d && not (any (fires_with (λ r. true)) rules)))
  unfolding hits
  evaluate_deny rules d role {res = res} h = cc (
    evaluate-decide lib action_type context rules d role h,
    decide_deny d role (hits rules),
    any-hits (λ r. is_deny r.decision) rules,
    any-hits (λ r. true) rules,
  )

  -- An evaluation that ends requires a role exactly when it requires an approval.
  evaluate_role :
      (rules : List PolicyRule) (d : Decision) (role : String) {res : EvaluationResult}
      → evaluate lib action_type context rules d role ≡ done res
      → is_some res.required_role ≡ is_require res.decision
  unfolding hits
  evaluate_role rules d role h =
      cc (evaluate-decide lib action_type context rules d role h, decide_role d role (hits rules))

  -- An evaluation that allows, where the default does not, rests on a rule: one that fires and allows,
  -- has the lowest priority number of all the rules that fire, and none of these denies.
  pub evaluate_allow :
      (rules : List PolicyRule) (d : Decision) (role : String) {res : EvaluationResult}
      → evaluate lib action_type context rules d role ≡ done res
      → res.decision ≡ allow
      → d ≢ allow
      → any (fires_with (λ r. is_allow r.decision && all_fired (leads r) rules)) rules ≡ true
  unfolding hits
  evaluate_allow rules d role {res = res} h a n =
      subst (λ q. any (fires_with q) rules ≡ true)
        (λ i r. is_allow r.decision && all-hits (leads r) rules i)
        (sym (any-hits _ rules)
          ∙ decide_allow d role (hits rules)
              (sym (ap (λ x. x.decision) (evaluate-decide lib action_type context rules d role h))
                ∙ a)
              n (hits-IsSorted rules))
