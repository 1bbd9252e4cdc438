-- ===== src/Analytics/Projector.antt =====
-- `Projector.handle` and `_project` of services/analytics/recoup_analytics/projector.py, with `_upsert` and
-- `_case_patch`: what an event writes. The parsing of UUIDs, decimals and integers is a parameter.
use recoup.Common.{
  String, Bool, true, false, not, ◌||◌, Option, none, some, List, [], ◌∷◌, str_eq, ◌==◌,
  if◌then◌else◌,
}
use recoup.Common.Int.{pos, negsuc}
use recoup.Json.{Value, Fields, obj, text, num, arr, bool, null, field, end, cons, nil, get_field}
use recoup.Analytics.Tables.{
  TableName, Write, over, pick, dim_case, fact_event, fact_action, upsert,
}

pub record ReceivedEvent : Type 0 where
  pub id : String
  pub type : String
  pub source : String
  pub subject : String
  pub tenantid : String
  pub time : Value
  pub body : Fields

-- `_uuid`, `_dec`, `_dec(…) or Decimal("0")` and `int(… or 0)`.
pub record Parsers : Type 0 where
  pub uuid : Value → Option String
  pub dec : Value → Value
  pub dec_or_zero : Value → Value
  pub int_or_zero : Value → Value

-- `d.get(key)`, and with a default.
abbrev pub get : String → Fields → Value
get key d = elim (get_field key d) [ none ↦ null | some v ↦ v ]

abbrev pub get_or : String → Value → Fields → Value
get_or key v d = elim (get_field key d) [ none ↦ v | some w ↦ w ]

-- Python's truth value.
abbrev pub truth : Value → Bool
truth (obj end) = false
truth (obj (field k v r)) = true
truth (text s) = not (str_eq s "")
truth (num (pos n) k) = not (n == 0)
truth (num (negsuc n) k) = true
truth (arr nil) = false
truth (arr (cons v r)) = true
truth (bool b) = b
truth null = false

abbrev pub id_value : Option String → Value
id_value none = null
id_value (some s) = text s

-- `_upsert`
unfoldable pub upsert_columns : TableName → String → Fields → List String → Write
unfolding pick
upsert_columns table key values update = upsert table key values (pick update values)

-- `_case_patch`
unfoldable pub case_patch : String → String → Fields → Value → Write
unfolding over
case_patch case_id tenant patch at =
    upsert dim_case case_id
      (over patch (
        field "updated_at" at (
          field "case_id" (text case_id)
            (field "tenant_id" (text tenant) (field "opened_at" at end)))))
      (over patch (field "updated_at" at end))

abbrev pub raw_event : ReceivedEvent → String → Option String → Write
raw_event e tenant case_id =
    upsert_columns fact_event e.id
      (field "event_id" (text e.id) (
        field "tenant_id" (text tenant) (
          field "type" (text e.type) (
            field "case_id" (id_value case_id) (
              field "source" (text e.source)
                (field "payload" (obj e.body) (field "occurred_at" e.time end)))))))
      ("payload" ∷ [])

abbrev pub created : Parsers → ReceivedEvent → String → String → Write
created lib e tenant c =
    upsert_columns dim_case c
      (field "case_id" (text c) (
        field "tenant_id" (text tenant) (
          field "customer_ref" (get "customer_ref" e.body) (
            field "invoice_refs" (get "invoice_refs" e.body) (
              field "currency" (get "currency" e.body) (
                field "amount_open" (lib.dec (get "amount_open" e.body)) (
                  field "days_overdue" (get "days_overdue" e.body) (
                    field "priority" (get "priority" e.body) (
                      field "status" (text "NEW")
                        (field "opened_at" e.time (field "updated_at" e.time end)))))))))))
      ("customer_ref" ∷ "invoice_refs" ∷ "currency" ∷ "amount_open" ∷ "days_overdue" ∷ "priority"
        ∷ "opened_at" ∷ "updated_at" ∷ [])

abbrev pub is_text : String → Value → Bool
is_text s (text t) = str_eq t s
is_text s _ = false

abbrev closing : Value → ReceivedEvent → Fields → Fields
closing to e rest =
    if is_text "RESOLVED" to || is_text "WRITTEN_OFF" to
    then field "closed_at" e.time (field "close_reason" (get "reason" e.body) rest)
    else rest

abbrev escalating : Value → Fields
escalating to = if is_text "ESCALATED" to then field "escalated" (bool true) end else end

abbrev pub state_patch : ReceivedEvent → Fields
state_patch e = let to = get "to" e.body in field "status" to (closing to e (escalating to))

abbrev pub resolved_patch : ReceivedEvent → Fields
resolved_patch e =
    field "closed_at" e.time
      (field "close_reason" (get "reason" e.body) (field "status" (get "status" e.body) end))

abbrev pub control_patch : String → Fields
control_patch mode = field "human_touched" (bool true) (field "agent_mode" (text mode) end)

abbrev action_columns : ReceivedEvent → String → String → String → Fields → Fields
action_columns e tenant c a rest = field "action_id" (text a) (
    field "tenant_id" (text tenant) (
      field "case_id" (text c) (field "action_type" (get_or "action_type" (text "?") e.body) rest)))

abbrev pub proposed : ReceivedEvent → String → String → Option String → List Write
proposed e tenant c none = []
proposed e tenant c (some a) =
    upsert_columns fact_action a
      (action_columns e tenant c a (
        field "policy_decision" (get "policy_decision" e.body) (
          field "required_role" (get "required_role" e.body)
            (field "outcome" (text "PROPOSED") (field "proposed_at" e.time end)))))
      ("policy_decision" ∷ "required_role" ∷ "proposed_at" ∷ [])
    ∷ []

abbrev pub decided : ReceivedEvent → String → String → String → Option String → List Write
decided e tenant c outcome none = []
decided e tenant c outcome (some a) =
    upsert_columns fact_action a
      (action_columns e tenant c a (field "outcome" (text outcome) (field "decided_at" e.time end)))
      ("outcome" ∷ "decided_at" ∷ [])
    ∷ case_patch c tenant (field "human_touched" (bool true) end) e.time
    ∷ []
