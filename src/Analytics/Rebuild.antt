-- ===== src/Analytics/Rebuild.antt =====
-- Replaying the topics (services/analytics/recoup_analytics/projector.py).
use recoup.Common.{
  ◌≡◌, refl, sym, subst, String, Bool, true, false, Option, none, some, List, [], ◌∷◌, ◌++◌, any,
  All, or_else, str_eq, str_eq_iff, if◌then◌else◌, arith, Bool-cases, inl, inr,
}
use recoup.Json.{Value, Fields, text, field, end, get_field}
use recoup.Analytics.Tables.{TableName, Tables, Write, over, pick, execute_all}
use recoup.Analytics.Projector.{
  ReceivedEvent, Parsers, get, truth, upsert_columns, case_patch, is_text, proposed, decided,
}
use recoup.Analytics.Events.{
  live_start, started_row, completed_row, found_cause, project_case, project_other, case_writes,
  of_tenant, handle_event, dispatch, case_branches, other_branches, handle_events,
}
use recoup.Analytics.Replay.{IsReplayable, execute_all_again}

get_field-over :
    (c : String) (fs gs : Fields)
    → get_field c (over fs gs) ≡ or_else (get_field c fs) (get_field c gs)
unfolding get_field over
get_field-over c end gs = refl
get_field-over c (field k v rest) gs = ground (arith, get_field-over c rest gs)

-- A column that is picked has a picked name.
picked_name :
    (c : String) (names : List String) (fs : Fields) (v : Value)
    → get_field c (pick names fs) ≡ some v
    → any (str_eq c) names ≡ true
unfolding get_field pick
picked_name c names end v h = absurd (ground arith)
picked_name c names (field k w rest) v h = elim (Bool-cases (any (str_eq k) names)) [
  | inl y ↦ elim (Bool-cases (str_eq k c)) [
    | inl z ↦
        let same : k ≡ c = ground (arith, str_eq_iff k c) in
        subst (λ n. any (str_eq n) names ≡ true) same y
    | inr z ↦ picked_name c names rest v (ground (arith, y, z, h))
  ]
  | inr y ↦ picked_name c names rest v (ground (arith, y, h))
]

get_field-pick :
    (c : String) (names : List String) (fs : Fields) (v : Value)
    → get_field c (pick names fs) ≡ some v
    → get_field c fs ≡ some v
unfolding get_field pick
get_field-pick c names end v h = h
get_field-pick c names (field k w rest) v h = elim (Bool-cases (any (str_eq k) names)) [
  | inl y ↦ ground (arith, y, h, get_field-pick c names rest v)
  | inr y ↦ elim (Bool-cases (str_eq k c)) [
    | inl z ↦
        let named = picked_name c names rest v (ground (arith, y, h)) in
        let same : k ≡ c = ground (arith, str_eq_iff k c) in
        let named' = subst (λ n. any (str_eq n) names ≡ true) (sym same) named in
        absurd (ground (arith, y, named'))
    | inr z ↦ ground (arith, y, z, h, get_field-pick c names rest v)
  ]
]

upsert_columns-IsReplayable :
    (table : TableName) (key : String) (values : Fields) (update : List String)
    → IsReplayable (upsert_columns table key values update)
unfolding upsert_columns
upsert_columns-IsReplayable table key values update = λ c v. get_field-pick c update values v

case_patch-IsReplayable :
    (case_id tenant : String) (patch : Fields) (at : Value)
    → IsReplayable (case_patch case_id tenant patch at)
unfolding case_patch get_field
case_patch-IsReplayable case_id tenant patch at = λ c v h. ground (
  arith,
  h,
  get_field-over c patch (field "updated_at" at end),
  get_field-over c patch (
      field "updated_at" at (
        field "case_id" (text case_id)
          (field "tenant_id" (text tenant) (field "opened_at" at end)))),
)

pub record AreReplayable (writes : List Write) : Type 0 where
  pub each : All IsReplayable writes

no_writes : AreReplayable []
no_writes = record { each = tt }

also :
    (w : Write) (writes : List Write)
    → IsReplayable w
    → AreReplayable writes
    → AreReplayable (w ∷ writes)
also w writes h k = record { each = (h, k.each) }

append-AreReplayable :
    (xs ys : List Write) → AreReplayable xs → AreReplayable ys → AreReplayable (xs ++ ys)
append-AreReplayable [] ys h k = k
append-AreReplayable (x ∷ xs) ys h k =
    also x (xs ++ ys) h.each.0 (append-AreReplayable xs ys (record { each = h.each.1 }) k)

either :
    (b : Bool) (xs ys : List Write)
    → AreReplayable xs
    → AreReplayable ys
    → AreReplayable (if b then xs else ys)
either true xs ys h k = h
either false xs ys h k = k

-- Every branch that can be taken is fine.
abbrev Fine : String → String × List Write → Type 0
Fine t branch = str_eq t branch.0 ≡ true → AreReplayable branch.1

dispatch-AreReplayable :
    (t : String) (branches : List (String × List Write))
    → All (Fine t) branches
    → AreReplayable (dispatch t branches)
unfolding dispatch
dispatch-AreReplayable t [] h = no_writes
dispatch-AreReplayable t (branch ∷ branches) (h, hs) = elim (Bool-cases (str_eq t branch.0)) [
  | inl y ↦ rw (dispatch, y) (h y)
  | inr n ↦ rw (dispatch, n) (dispatch-AreReplayable t branches hs)
]

one_upsert :
    (table : TableName) (key : String) (values : Fields) (update : List String)
    → AreReplayable (upsert_columns table key values update ∷ [])
one_upsert table key values update =
    also _ _ (upsert_columns-IsReplayable table key values update) no_writes

one_patch :
    (case_id tenant : String) (patch : Fields) (at : Value)
    → AreReplayable (case_patch case_id tenant patch at ∷ [])
one_patch case_id tenant patch at =
    also _ _ (case_patch-IsReplayable case_id tenant patch at) no_writes

decided-AreReplayable :
    (e : ReceivedEvent) (tenant c outcome : String) (a : Option String)
    → AreReplayable (decided e tenant c outcome a)
decided-AreReplayable e tenant c outcome none = no_writes
decided-AreReplayable e tenant c outcome (some a) =
    also _ _ (upsert_columns-IsReplayable _ _ _ _) (one_patch _ _ _ _)

proposed-AreReplayable :
    (e : ReceivedEvent) (tenant c : String) (a : Option String)
    → AreReplayable (proposed e tenant c a)
proposed-AreReplayable e tenant c none = no_writes
proposed-AreReplayable e tenant c (some a) = one_upsert _ _ _ _

project_case-AreReplayable :
    (lib : Parsers) (e : ReceivedEvent) (tenant c : String)
    → AreReplayable (project_case lib e tenant c)
unfolding project_case
project_case-AreReplayable lib e tenant c =
    dispatch-AreReplayable e.type (case_branches lib e tenant c) (
      λ y. one_upsert _ _ _ _,
      (
        λ y. one_patch _ _ _ _,
        (
          λ y. one_patch _ _ _ _,
          (
            λ y. one_patch _ _ _ _,
            (
              λ y. one_patch _ _ _ _,
              (
                λ y. proposed-AreReplayable e tenant c _,
                (
                  λ y. decided-AreReplayable e tenant c _ _,
                  (
                    λ y. decided-AreReplayable e tenant c _ _,
                    (λ y. decided-AreReplayable e tenant c _ _, tt),
                  ),
                ),
              ),
            ),
          ),
        ),
      ),
    )

started_row-AreReplayable :
    (e : ReceivedEvent) (tenant : String) (c r : Option String)
    → AreReplayable (started_row e tenant c r)
started_row-AreReplayable e tenant c none = no_writes
started_row-AreReplayable e tenant c (some r) = one_upsert _ _ _ _

live_start-AreReplayable :
    (e : ReceivedEvent) (tenant : String) (c : Option String)
    → AreReplayable (live_start e tenant c)
live_start-AreReplayable e tenant none = no_writes
live_start-AreReplayable e tenant (some c) =
    either (is_text "LIVE" (get "mode" e.body)) _ _ (one_patch c tenant _ _) no_writes

completed_row-AreReplayable :
    (lib : Parsers) (e : ReceivedEvent) (tenant : String) (c r : Option String)
    → AreReplayable (completed_row lib e tenant c r)
completed_row-AreReplayable lib e tenant c none = no_writes
completed_row-AreReplayable lib e tenant c (some r) = one_upsert _ _ _ _

found_cause-AreReplayable :
    (e : ReceivedEvent) (tenant : String) (c : Option String)
    → AreReplayable (found_cause e tenant c)
found_cause-AreReplayable e tenant none = no_writes
found_cause-AreReplayable e tenant (some c) =
    either (truth (get "root_cause" e.body)) _ _ (one_patch c tenant _ _) no_writes

-- The event tells of no email that was sent.
abbrev pub CountsNothing : ReceivedEvent → Type 0
CountsNothing e = str_eq e.type "comm.email.sent" ≡ false

project_other-AreReplayable :
    (lib : Parsers) (e : ReceivedEvent) (tenant : String) (c : Option String)
    → CountsNothing e
    → AreReplayable (project_other lib e tenant c)
unfolding project_other
project_other-AreReplayable lib e tenant c h =
    dispatch-AreReplayable e.type (other_branches lib e tenant c) (
      λ y.
          append-AreReplayable _ _ (started_row-AreReplayable e tenant c _)
            (live_start-AreReplayable e tenant c),
      (
        λ y.
            append-AreReplayable _ _ (completed_row-AreReplayable lib e tenant c _)
              (found_cause-AreReplayable e tenant c),
        (
          λ y. one_upsert _ _ _ _,
          (
            λ y. one_upsert _ _ _ _,
            (
              λ y. one_upsert _ _ _ _,
              (λ y. absurd (ground (arith, y, h)), (λ y. one_upsert _ _ _ _, tt)),
            ),
          ),
        ),
      ),
    )

case_writes-AreReplayable :
    (lib : Parsers) (e : ReceivedEvent) (tenant : String) (c : Option String)
    → AreReplayable (case_writes lib e tenant c)
case_writes-AreReplayable lib e tenant none = no_writes
case_writes-AreReplayable lib e tenant (some c) = project_case-AreReplayable lib e tenant c

of_tenant-AreReplayable :
    (lib : Parsers) (keep_raw : Bool) (e : ReceivedEvent) (tenant : Option String)
    → CountsNothing e
    → AreReplayable (of_tenant lib keep_raw e tenant)
of_tenant-AreReplayable lib keep_raw e none h = no_writes
of_tenant-AreReplayable lib keep_raw e (some tenant) h =
    append-AreReplayable _ _ (either keep_raw _ _ (one_upsert _ _ _ _) no_writes) (
      append-AreReplayable _ _ (case_writes-AreReplayable lib e tenant _)
        (project_other-AreReplayable lib e tenant _ h))

handle_events-AreReplayable :
    (lib : Parsers) (keep_raw : Bool) (events : List ReceivedEvent)
    → All CountsNothing events
    → AreReplayable (handle_events lib keep_raw events)
unfolding handle_events handle_event
handle_events-AreReplayable lib keep_raw [] h = no_writes
handle_events-AreReplayable lib keep_raw (e ∷ events) (h, hs) =
    append-AreReplayable _ _ (of_tenant-AreReplayable lib keep_raw e _ h)
      (handle_events-AreReplayable lib keep_raw events hs)

-- Where no event tells of an email that was sent, replaying all events from the beginning, over the tables
-- that they have led to, leaves every column of every row as it is.
pub handle_events_again :
    (lib : Parsers) (keep_raw : Bool) (events : List ReceivedEvent) (t : Tables)
    → All CountsNothing events
    → execute_all
        (handle_events lib keep_raw events)
        (execute_all (handle_events lib keep_raw events) t)
      ≡ execute_all (handle_events lib keep_raw events) t
handle_events_again lib keep_raw events t h =
    execute_all_again (handle_events lib keep_raw events) t
      (handle_events-AreReplayable lib keep_raw events h).each
