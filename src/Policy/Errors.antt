-- ===== src/Policy/Errors.antt =====
-- When `evaluate` raises (services/policy/recoup_policy/engine.py).
use recoup.Common.{Bool, not, is_some}
use recoup.Policy.Rules.{validate_rule}
use recoup.Policy.Engine.{PolicyRule}

-- The policy service accepted the rule.
abbrev pub is_validated : PolicyRule → Bool
is_validated r = not (is_some (validate_rule r.rule))
