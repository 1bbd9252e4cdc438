-- ===== src/Policy/Engine.antt =====
-- `evaluate` of services/policy/recoup_policy/engine.py: the rules for an action, sorted by priority and
-- name, those that match, and the decision they give. A rule that raises ends the evaluation.
use recoup.Common.{
  ℕ, String, Bool, true, false, ◌&&◌, ◌||◌, Option, none, some, List, [], ◌∷◌, map, str_eq,
  if◌then◌else◌, filter, find,
}
use Prim.Native.Nat.{Ordering}
use Prim.Native.String.{compare as compare_text, ◌++◌ as append_text}
use recoup.Common.Int.{ℤ, ltb_ℤ, eqb_ℤ}
use recoup.Json.{Value}
use recoup.Policy.Facts.{TextLibrary}
use recoup.Policy.Compare.{Answer, holds, raises, EngineError}
use recoup.Policy.Rules.{matches}

pub data Decision : Type 0 where
  allow require_approval deny : Decision

abbrev pub is_deny : Decision → Bool
is_deny deny = true
is_deny _ = false

abbrev pub is_require : Decision → Bool
is_require require_approval = true
is_require _ = false

pub record PolicyRule : Type 0 where
  pub policy_id : ℕ
  pub name : String
  pub action_type : String
  pub priority : ℤ
  pub rule : Value
  pub decision : Decision
  pub required_role : Option String
  pub reason : Option String
  pub version : ℕ

-- An entry of `matched`.
pub record Match : Type 0 where
  pub policy_id : ℕ
  pub name : String
  pub version : ℕ
  pub decision : Decision

pub record EvaluationResult : Type 0 where
  pub decision : Decision
  pub required_role : Option String
  pub reason : Option String
  pub matched : List Match
  pub defaulted : Bool

pub data Outcome {ℓ} (A : Type ℓ) : Type ℓ where
  done : A → Outcome A
  failed : EngineError → Outcome A

abbrev text_leb : String → String → Bool
text_leb s t = elim (compare_text s t) [ Ordering.gt ↦ false | _ ↦ true ]

-- The key `(r.priority, r.name)` of one rule is not above that of another.
unfoldable pub key_le : PolicyRule → PolicyRule → Bool
key_le a b = ltb_ℤ a.priority b.priority || (eqb_ℤ a.priority b.priority && text_leb a.name b.name)

unfoldable pub insert_rule : PolicyRule → List PolicyRule → List PolicyRule
insert_rule r [] = r ∷ []
insert_rule r (x ∷ xs) = let rest = insert_rule r xs in if key_le r x then r ∷ x ∷ xs else x ∷ rest

-- `sorted(…)`, which is stable.
unfoldable pub sort_rules : List PolicyRule → List PolicyRule
unfolding insert_rule
sort_rules [] = []
sort_rules (r ∷ rules) = insert_rule r (sort_rules rules)

-- `r.action_type in (action_type, "*")`
abbrev pub applies : String → PolicyRule → Bool
applies action_type r = str_eq r.action_type action_type || str_eq r.action_type "*"

unfoldable pub add_hit : Answer → PolicyRule → Outcome (List PolicyRule) → Outcome (List PolicyRule)
add_hit (raises e) r rest = failed e
add_hit (holds true) r (done rules) = done (r ∷ rules)
add_hit (holds true) r (failed e) = failed e
add_hit (holds false) r rest = rest

-- `[r for r in applicable if matches(r.rule, context)]`
unfoldable pub hits_of : TextLibrary → Value → List PolicyRule → Outcome (List PolicyRule)
unfolding add_hit
hits_of lib context [] = done []
hits_of lib context (r ∷ rules) = add_hit (matches lib r.rule context) r (hits_of lib context rules)

abbrev match_of : PolicyRule → Match
match_of r = record {
  policy_id = r.policy_id;
  name = r.name;
  version = r.version;
  decision = r.decision;
}

-- `value or default` on an optional text.
abbrev pub or_text : Option String → String → String
or_text none d = d
or_text (some t) d = if str_eq t "" then d else t

abbrev pub result_of : Decision → Option String → String → List PolicyRule → EvaluationResult
result_of decision role reason hits = record {
  decision = decision;
  required_role = role;
  reason = some reason;
  matched = map match_of hits;
  defaulted = false;
}

abbrev pub default_result : Decision → String → EvaluationResult
default_result decision role = record {
  decision = decision;
  required_role = if is_require decision then some role else none;
  reason = some "no policy matched; default applied";
  matched = [];
  defaulted = true;
}

-- The decision of the first hit.
unfoldable pub first_result : PolicyRule → List PolicyRule → EvaluationResult
first_result r hits =
    if is_require r.decision
    then result_of require_approval (some (or_text r.required_role "analyst"))
        (or_text r.reason (append_text "approval required by " r.name)) hits
    else result_of allow none (or_text r.reason (append_text "allowed by " r.name)) hits

abbrev pub without_deny : Decision → String → List PolicyRule → EvaluationResult
without_deny decision role [] = default_result decision role
without_deny decision role (r ∷ hits) = first_result r (r ∷ hits)

unfoldable pub decide : Decision → String → List PolicyRule → EvaluationResult
unfolding first_result
decide decision role hits = elim (find (λ r. is_deny r.decision) hits) [
  | some r ↦ result_of deny none (or_text r.reason (append_text "denied by " r.name)) hits
  | none ↦ without_deny decision role hits
]

abbrev pub on_hits : Decision → String → Outcome (List PolicyRule) → Outcome EvaluationResult
on_hits decision role (failed e) = failed e
on_hits decision role (done hits) = done (decide decision role hits)

unfoldable pub evaluate :
    TextLibrary → String → Value → List PolicyRule → Decision → String → Outcome EvaluationResult
unfolding sort_rules hits_of decide
evaluate lib action_type context rules default_decision default_role =
    on_hits default_decision default_role
      (hits_of lib context (sort_rules (filter (applies action_type) rules)))
