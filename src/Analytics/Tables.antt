-- ===== src/Analytics/Tables.antt =====
-- The read model of services/analytics/recoup_analytics: its tables (models.py) as functions of a primary
-- key, a row as a function of a column, and the statements `_upsert` and `_case_patch` of projector.py. A
-- column that nothing wrote has no value; a dictionary of columns is `Fields`, in which the first of two
-- equal keys counts.
use recoup.Common.{
  ℕ, String, Bool, ◌&&◌, Option, none, some, List, [], ◌∷◌, any, or_else, str_eq, ◌==◌,
  if◌then◌else◌,
}
use recoup.Common.Int.{pos, add_ℤ}
use recoup.Json.{Value, Fields, num, field, end, get_field}

pub data TableName : Type 0 where
  dim_case fact_event fact_action fact_agent_run fact_agent_step fact_tool_call fact_email :
      TableName

abbrev table_no : TableName → ℕ
table_no dim_case = 0
table_no fact_event = 1
table_no fact_action = 2
table_no fact_agent_run = 3
table_no fact_agent_step = 4
table_no fact_tool_call = 5
table_no fact_email = 6

abbrev pub Row : Type 0
Row = String → Option Value

abbrev pub Tables : Type 0
Tables = TableName → String → Option Row

-- A statement: insert the row or update some of its columns, or count an email that was sent.
pub data Write : Type 0 where
  upsert : TableName → String → (insert update : Fields) → Write
  count_email : String → Value → Write

-- `dict(a, **b)` with the columns of the first dictionary in front.
unfoldable pub over : Fields → Fields → Fields
over end base = base
over (field k v rest) base = field k v (over rest base)

-- The columns that a conflict updates.
unfoldable pub pick : List String → Fields → Fields
pick names end = end
pick names (field k v rest) =
    let picked = pick names rest in if any (str_eq k) names then field k v picked else picked

abbrev pub write_columns : Fields → Row → Row
write_columns fs r c = or_else (get_field c fs) (r c)

abbrev pub empty_row : Row
empty_row c = none

-- `emails_sent + 1`, from the default 0.
abbrev next_count : Option Value → Value
next_count (some (num n k)) = num (add_ℤ n (pos 1)) k
next_count _ = num (pos 1) 0

abbrev counted : Value → Row → Row
counted at r =
    write_columns (field "emails_sent" (next_count (r "emails_sent")) (field "updated_at" at end)) r

abbrev pub hits : TableName → String → TableName → String → Bool
hits n k m j = (table_no n == table_no m) && str_eq k j

abbrev pub upserted : Fields → Fields → Option Row → Row
upserted insert update none = write_columns insert empty_row
upserted insert update (some r) = write_columns update r

abbrev recounted : Value → Option Row → Option Row
recounted at none = none
recounted at (some r) = some (counted at r)

unfoldable pub execute : Write → Tables → Tables
execute (upsert n k insert update) t m j =
    if hits n k m j then some (upserted insert update (t m j)) else t m j
execute (count_email k at) t m j = if hits dim_case k m j then recounted at (t m j) else t m j

unfoldable pub execute_all : List Write → Tables → Tables
unfolding execute
execute_all [] t = t
execute_all (w ∷ writes) t = execute_all writes (execute w t)
