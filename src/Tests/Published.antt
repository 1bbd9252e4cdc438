-- ===== src/Tests/Published.antt =====
-- The theorems on published policies, at concrete inputs.
use recoup.Common.{◌≡◌, refl, true, none, List, [], ◌∷◌, all}
use recoup.Policy.Engine.{allow}
use recoup.Policy.Store.{
  Call, Command, create, publish, PolicyVersionCreate, PolicyCreate, apply_all,
}
use recoup.Policy.Published.{is_sane, apply_all-sane}
use recoup.Tests.Policies.{small_amount, odd_rule}

abbrev by_boss : Call
by_boss = record { tenant_id = 7; author = "boss@example.com"; now = 50; new_id = 3 }

abbrev first_version : PolicyVersionCreate
first_version = record {
  rule = small_amount;
  decision = allow;
  required_role = none;
  reason = none;
}

abbrev second_version : PolicyVersionCreate
second_version = record { rule = odd_rule; decision = allow; required_role = none; reason = none }

abbrev small_credits : PolicyCreate
small_credits = record {
  name = "small_credits";
  description = "";
  action_type = "*";
  priority = 10;
  enabled = true;
  first = first_version;
}

abbrev commands : List (Call × Command)
commands = (by_boss, create small_credits) ∷ (by_boss, publish 3 second_version) ∷ []

apply_all-sane_example : all is_sane (apply_all commands []) ≡ true
apply_all-sane_example = apply_all-sane commands [] refl
