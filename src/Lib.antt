-- ===== src/Lib.antt =====
-- Recoup: collections on overdue invoices by agents under human control. This library models the parts
-- that decide what happens to a case, and to money.
--
-- The program. An ingestion job opens a case for each overdue invoice. Agents move the case through its
-- statuses and propose actions; the policy service says whether an action is allowed, denied or needs
-- an approval; humans decide the pending ones; the tool gateway computes credits and payment plans and
-- executes what was approved. Every change is written, in one transaction, to the case, to its timeline
-- and to an outbox, which a relay publishes.
--
-- The files.
--   Common, Common/*: shared names, Boolean tests, lists over the native numbers, integers.
--   Json: JSON values, as the rules and the payloads are.
--   Outbox/Rows: the outbox row, to_event and enqueue_event; Outbox/Relay: OutboxRelay.drain_once
--     (libs/recoup-common/recoup_common/events/outbox.py). Outbox/Order proves.
--   Case/Status, Case/Records: services/case/recoup_case/state_machine.py, models.py and schemas.py, with
--     the roles of libs/recoup-common/recoup_common/auth.py.
--   Case/Transaction: the private helpers of services/case/recoup_case/service.py (_timeline, _emit,
--     _touch, _set_status) in a monad of transactions on one case: a session in, a value and a session or
--     an error out. An error carries no session, as Database.session rolls back.
--   Case/Service, Case/Actions: the operations of service.py, under their names there. Case/Store: the
--     tables, get_case, find_case_for_invoice, create_case and the commit. Case/Requests: what the routes
--     of routes.py run, behind their role guards. Case/Ingestion: IngestionJob.run_once of ingestion.py.
--   Case/Lifecycle, Trace, Traced, Moves, Audit, History, Isolation, Approvals, Keeps, ActionRows,
--     ActionHistory, Rises, Versions, Locking and Idempotence prove.
--   Policy/Facts, Compare, Rules, Engine: services/policy/recoup_policy/engine.py, in the order of the
--     file. Policy/Store: the policies and their versions, service.py and the validators of schemas.py there,
--     with the routes that change policies. Policy/Depth, Operators, Validation, Precedence, Decides, Errors and
--     Published prove.
--   Tools/Invoices, Reconcile, Credit, Plan: the documents of
--     libs/recoup-erp-adapter/recoup_erp/models.py and the calculations of
--     services/tool-gateway/recoup_tool_gateway/tools/reconcile.py. Tools/Caps proves.
--   Gateway/Registry, Invoke: services/tool-gateway/recoup_tool_gateway/registry.py, and invoke, _simulate
--     and _gate of service.py there, as a function of what the other services answer. Gateway/Guard proves.
--   Gateway/Limits: services/tool-gateway/recoup_tool_gateway/ratelimit.py, with Redis as a parameter.
--     Gateway/Window proves.
--   Orchestrator/State, Supervisor, Activities, Load: agents/schemas.py and workflows/activities.py of
--     services/orchestrator/recoup_orchestrator. Orchestrator/Workflow: workflows/case_workflow.py as a step
--     relation; a step carries what it asks of the other services. Orchestrator/Agent: the loop of an agent,
--     agents/loop.py. Orchestrator/Grows, Bounds, Runs, Effects and AgentRuns prove.
--   Analytics/Tables, Projector, Events: services/analytics/recoup_analytics/projector.py; a table is a
--     function of its key, a row one of its columns. Analytics/Replay and Rebuild prove.
--   Communication/Mailbox, Send, Inbound: services/communication/recoup_communication/service.py, on the
--     tables of models.py there. Communication/Again, Once, Linked and Status prove.
--   Erp/Tables: the requests of services/mock-erp/recoup_mock_erp/routes.py that change tables. Erp/Credits,
--     Repeats and Plans prove.
--   Tests, Tests/*: concrete inputs.
--
-- How the code is represented. Identifiers and times are natural numbers; amounts of a case are integers
-- of cents and the documents of the ERP hold natural numbers of hundredths, since their columns have two
-- decimals; confidence is in thousandths and a tax rate in ten-thousandths. The clock, uuid4, str.upper,
-- the trace headers and SQLAlchemy's version counter are the fields of Env; a call reads one `now`. A
-- title or a payload is a constructor with the values that the code formats into it. A session flushes
-- where SQLAlchemy does: at flush(), before a query and at the commit. The answers of the ERP and of the
-- broker are arguments. Decimal(), str() and re.search are the fields of TextLibrary; a NaN or an
-- infinity in a JSON number, which Python also reads, is left out. An amount that the ERP is asked to credit
-- is whole cents and a part of a cent, which the columns round. Division in reconcile is exact where the code has 28 digits.
--
-- Fuel. validate and match_rule recur into a rule and take fuel; validate_rule and matches give them the
-- depth of the rule, which every recursive call lowers by one, so that validate_rule never runs out of it
-- and matches does not on a rule that it accepts. The loop of an agent takes the recursion_limit of its graph
-- as fuel, which is more than the two steps that each turn of its budget takes. All other functions recur on
-- their data.
--
-- Not modelled: the read queries and the response schemas of the case service; what the policy service
-- records of an evaluation, its simulations and its defaults; the audit, the redaction and the other tools
-- of the tool gateway; the rows of runs, the prompts and the heuristics of the orchestrator, the retries of
-- its activities; the queries, templates and attachments of the communication service; the read routes and the
-- scenarios of the ERP; the metrics of the analytics service; the knowledge, evaluation, login and gateway
-- services. The web framework, the database, Kafka, Redis and the language models are not part of
-- the repository.
pub mod Common
pub mod Json
pub mod Outbox
pub mod Case
pub mod Policy
pub mod Gateway
pub mod Analytics
pub mod Communication
pub mod Erp
pub mod Orchestrator
pub mod Tools
pub mod Tests
