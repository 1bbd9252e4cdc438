-- ===== src/Policy/Validation.antt =====
-- What a rule that `validate_rule` accepts may do when it is matched
-- (services/policy/recoup_policy/engine.py).
