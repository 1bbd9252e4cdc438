-- ===== src/Tests/Analytics.antt =====
-- The theorem on the read model, at concrete events.
use recoup.Common.{◌≡◌, refl, String, true, Option, none, some, List, [], ◌∷◌}
use recoup.Common.Int.{pos}
use recoup.Json.{get_field, Value, Fields, text, num, field, end}
use recoup.Analytics.Tables.{Row, Tables, execute_all, dim_case}
use recoup.Analytics.Projector.{ReceivedEvent, Parsers, upsert_columns, case_patch}
use recoup.Analytics.Events.{dispatch, project_case, project_other, handle_event, handle_events}
use recoup.Analytics.Rebuild.{handle_events_again}

abbrev parsers : Parsers
parsers = record {
  uuid = λ v. elim v [ text s ↦ some s | _ ↦ none ];
  dec = λ v. v;
  dec_or_zero = λ v. v;
  int_or_zero = λ v. v;
}

abbrev event : String → String → Fields → ReceivedEvent
event id type body = record {
  id = id;
  type = type;
  source = "case-service";
  subject = "case-1";
  tenantid = "tenant-1";
  time = text id;
  body = body;
}

abbrev events : List ReceivedEvent
events =
    event "e1" "case.created" (field "currency" (text "EUR") end)
    ∷ event "e2" "case.state_changed" (field "to" (text "TRIAGED") end)
    ∷ event "e3" "case.state_changed" (field "to" (text "ESCALATED") end)
    ∷ []

abbrev no_rows : Tables
no_rows m j = none

handle_events_again_example :
    execute_all
      (handle_events parsers true events)
      (execute_all (handle_events parsers true events) no_rows)
    ≡ execute_all (handle_events parsers true events) no_rows
handle_events_again_example =
    handle_events_again parsers true events no_rows (refl, (refl, (refl, tt)))

abbrev column_of : String → Option Row → Option Value
column_of c none = none
column_of c (some r) = r c

last_status :
    column_of "status" (execute_all (handle_events parsers true events) no_rows dim_case "case-1")
    ≡ some (text "ESCALATED")
unfolding execute_all handle_events handle_event get_field project_case dispatch project_other
    case_patch upsert_columns
last_status = refl

-- An email is counted again when its event is.
abbrev email_events : List ReceivedEvent
email_events =
    event "e1" "case.created" end
    ∷ event "e4" "comm.email.sent" end
    ∷ event "e4" "comm.email.sent" end
    ∷ []

counted_twice :
    column_of "emails_sent"
      (execute_all (handle_events parsers true email_events) no_rows dim_case "case-1")
    ≡ some (num (pos 2) 0)
unfolding execute_all handle_events handle_event get_field project_case dispatch project_other
    case_patch upsert_columns
counted_twice = refl
