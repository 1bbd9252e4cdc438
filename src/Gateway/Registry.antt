-- ===== src/Gateway/Registry.antt =====
-- `ToolRegistry` of services/tool-gateway/recoup_tool_gateway/registry.py. Of a ToolSpec the model keeps
-- what decides about a call; the handler and the argument model are answers of `Gateway/Invoke`.
use recoup.Common.{
  String, Bool, not, ◌&&◌, ◌||◌, Option, none, some, List, [], ◌∷◌, ◌++◌, any, find, str_eq,
  if◌then◌else◌, is_some,
}

pub record ToolSpec : Type 0 where
  pub name : String
  pub side_effect : Bool
  pub requires_policy_check : Bool
  pub action_type : Option String

-- A text that is there and not empty, as Python's truth value has it.
abbrev pub given : Option String → Option String
given none = none
given (some t) = if str_eq t "" then none else some t

-- The ValueErrors of `register`.
pub data RegisterError : Type 0 where
  already_registered no_action_type must_be_checked : RegisterError

pub data Registered : Type 0 where
  tools_now : List ToolSpec → Registered
  refused : RegisterError → Registered

abbrev pub is_low_risk : String → Bool
is_low_risk name = str_eq name "add_case_note" || str_eq name "remember_customer_fact"

unfoldable pub get_tool : String → List ToolSpec → Option ToolSpec
get_tool name tools = find (λ t. str_eq t.name name) tools

unfoldable pub register : ToolSpec → List ToolSpec → Registered
register spec tools =
    if any (λ t. str_eq t.name spec.name) tools
    then refused already_registered
    else if spec.requires_policy_check && not (is_some (given spec.action_type))
    then refused no_action_type
    else if spec.side_effect && (not spec.requires_policy_check && not (is_low_risk spec.name))
    then refused must_be_checked
    else tools_now (tools ++ (spec ∷ []))

-- The registrations of the tool modules; the first error ends the start of the service.
unfoldable pub register_all : List ToolSpec → List ToolSpec → Registered
unfolding register
register_all [] tools = tools_now tools
register_all (spec ∷ specs) tools = elim (register spec tools) [
  | refused e ↦ refused e
  | tools_now now ↦ register_all specs now
]
