-- ===== src/Policy/Store.antt =====
-- The policies of the tenants: services/policy/recoup_policy/service.py over the tables of models.py, with
-- the checks of schemas.py on the rules. The patterns that schemas.py puts on names and action types are
-- left out; the lists are in the order of the table, which `evaluate` sorts. Times, ids and the author
-- come from the request.
use recoup.Common.{
  ℕ, ◌+◌, String, Bool, not, ◌&&◌, Option, none, some, List, [], ◌∷◌, ◌++◌, filter, find, any,
  or_default, str_eq, ◌==◌, if◌then◌else◌,
}
use recoup.Common.Int.{pos}
use recoup.Json.{Value}
use recoup.Policy.Facts.{TextLibrary}
use recoup.Policy.Rules.{RuleError, validate_rule}
use recoup.Policy.Engine.{Decision, PolicyRule, EvaluationResult, Outcome, evaluate}

pub record PolicyVersion : Type 0 where
  pub version : ℕ
  pub rule : Value
  pub decision : Decision
  pub required_role : Option String
  pub reason : Option String
  pub created_by : String
  pub created_at : ℕ

pub record Policy : Type 0 where
  pub id : ℕ
  pub tenant_id : ℕ
  pub name : String
  pub description : String
  pub action_type : String
  pub priority : ℕ
  pub enabled : Bool
  pub current_version : ℕ
  pub created_at : ℕ
  pub updated_at : ℕ
  pub versions : List PolicyVersion

pub record PolicyVersionCreate : Type 0 where
  pub rule : Value
  pub decision : Decision
  pub required_role : Option String
  pub reason : Option String

-- The fields that a new policy shares with a new version are in `first`.
pub record PolicyCreate : Type 0 where
  pub name : String
  pub description : String
  pub action_type : String
  pub priority : ℕ
  pub enabled : Bool
  pub first : PolicyVersionCreate

pub record PolicyUpdate : Type 0 where
  pub description : Option String
  pub priority : Option ℕ
  pub enabled : Option Bool

pub data StoreError : Type 0 where
  policy_exists : String → StoreError
  policy_not_found : StoreError
  invalid_rule : RuleError → StoreError

pub data Reply : Type 0 where
  stored : List Policy → Reply
  refused : StoreError → Reply

-- Who asks, when, and the id of the row that a request may add.
pub record Call : Type 0 where
  pub tenant_id : ℕ
  pub author : String
  pub now : ℕ
  pub new_id : ℕ

abbrev pub is_of : ℕ → ℕ → Policy → Bool
is_of tenant_id id p = p.id == id && p.tenant_id == tenant_id

unfoldable pub get_policy : ℕ → ℕ → List Policy → Option Policy
get_policy tenant_id id ps = find (is_of tenant_id id) ps

unfoldable pub current_version : Policy → Option PolicyVersion
current_version p = find (λ v. v.version == p.current_version) p.versions

abbrev pub new_version : Call → ℕ → PolicyVersionCreate → PolicyVersion
new_version c version body = record {
  version = version;
  rule = body.rule;
  decision = body.decision;
  required_role = body.required_role;
  reason = body.reason;
  created_by = c.author;
  created_at = c.now;
}

abbrev pub new_policy : Call → PolicyCreate → Policy
new_policy c body = record {
  id = c.new_id;
  tenant_id = c.tenant_id;
  name = body.name;
  description = body.description;
  action_type = body.action_type;
  priority = body.priority;
  enabled = body.enabled;
  current_version = 1;
  created_at = c.now;
  updated_at = c.now;
  versions = new_version c 1 body.first ∷ [];
}

unfoldable pub create_policy : Call → PolicyCreate → List Policy → Reply
create_policy c body ps =
    if any (λ p. p.tenant_id == c.tenant_id && str_eq p.name body.name) ps
    then refused (policy_exists body.name)
    else stored (ps ++ (new_policy c body ∷ []))

unfoldable pub update_policy : Call → PolicyUpdate → Policy → Policy
update_policy c body p = record p {
  description = or_default body.description p.description;
  priority = or_default body.priority p.priority;
  enabled = or_default body.enabled p.enabled;
  updated_at = c.now;
}

unfoldable pub add_version : Call → PolicyVersionCreate → Policy → Policy
add_version c body p = record p {
  versions = p.versions ++ (new_version c (p.current_version + 1) body ∷ []);
  current_version = p.current_version + 1;
  updated_at = c.now;
}

-- Writes a changed policy back.
unfoldable pub put_policy : ℕ → Policy → List Policy → List Policy
put_policy id q [] = []
put_policy id q (p ∷ ps) = (if p.id == id then q else p) ∷ put_policy id q ps

unfoldable pub delete_policy : ℕ → List Policy → List Policy
delete_policy id ps = filter (λ p. not (p.id == id)) ps

pub data Command : Type 0 where
  create : PolicyCreate → Command
  update : ℕ → PolicyUpdate → Command
  publish : ℕ → PolicyVersionCreate → Command
  delete : ℕ → Command

-- The validator `_rule_ok` of the schemas.
abbrev pub if_valid : Value → Reply → Reply
if_valid rule reply = elim (validate_rule rule) [ some e ↦ refused (invalid_rule e) | none ↦ reply ]

abbrev pub on_policy : (Policy → List Policy) → Option Policy → Reply
on_policy f none = refused policy_not_found
on_policy f (some p) = stored (f p)

-- The routes that change policies.
unfoldable pub apply : Call → Command → List Policy → Reply
unfolding create_policy update_policy add_version put_policy delete_policy get_policy
apply c (create body) ps = if_valid body.first.rule (create_policy c body ps)
apply c (update id body) ps =
    on_policy (λ p. put_policy p.id (update_policy c body p) ps) (get_policy c.tenant_id id ps)
apply c (publish id body) ps =
    if_valid body.rule
      (on_policy (λ p. put_policy p.id (add_version c body p) ps) (get_policy c.tenant_id id ps))
apply c (delete id) ps = on_policy (λ p. delete_policy p.id ps) (get_policy c.tenant_id id ps)

-- A refused command leaves the table as it was.
abbrev pub kept : List Policy → Reply → List Policy
kept ps (stored qs) = qs
kept ps (refused e) = ps

unfoldable pub apply_all : List (Call × Command) → List Policy → List Policy
unfolding apply
apply_all [] ps = ps
apply_all ((c, command) ∷ rest) ps = apply_all rest (kept ps (apply c command ps))

unfoldable pub compile_rule : Policy → PolicyVersion → PolicyRule
compile_rule p v = record {
  policy_id = p.id;
  name = p.name;
  action_type = p.action_type;
  priority = pos p.priority;
  rule = v.rule;
  decision = v.decision;
  required_role = v.required_role;
  reason = v.reason;
  version = v.version;
}

-- The rule of a policy that is enabled and has its current version.
abbrev pub add_compiled : Policy → Option PolicyVersion → List PolicyRule → List PolicyRule
add_compiled p none rules = rules
add_compiled p (some v) rules = compile_rule p v ∷ rules

unfoldable pub compiled_rules : ℕ → List Policy → List PolicyRule
unfolding current_version compile_rule
compiled_rules tenant_id [] = []
compiled_rules tenant_id (p ∷ ps) =
    let rest = compiled_rules tenant_id ps in
    if p.tenant_id == tenant_id && p.enabled then add_compiled p (current_version p) rest else rest

-- `evaluate_request` without the row that it records.
unfoldable pub evaluate_request :
    TextLibrary → ℕ → String → Value → Decision → String → List Policy → Outcome EvaluationResult
unfolding compiled_rules
evaluate_request lib tenant_id action_type context default_decision default_role ps =
    evaluate lib action_type context (compiled_rules tenant_id ps) default_decision default_role
