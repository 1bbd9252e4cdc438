-- ===== src/Outbox/Rows.antt =====
-- The outbox table of libs/recoup-common/recoup_common/events/outbox.py and `enqueue_event`. The
-- clock, the random ids and the trace headers are read from the environment of a call: one `now` for
-- the whole call, and `uuid4 n` for the n-th row's id.
use recoup.Common.{ℕ, String, Option, none, List, [], ◌∷◌, ◌++◌, length}

pub record Env : Type 0 where
  pub now : ℕ
  pub trace_id : Option String
  pub traceparent : Option String
  pub uuid4 : ℕ → ℕ
  pub upper : String → String  -- `str.upper`
  pub next_version : ℕ → ℕ  -- the counter that SQLAlchemy writes with each UPDATE of a versioned row

-- `OutboxMixin`; `P` is what the service puts into the payload.
pub record OutboxRow (P : Type 0) : Type 0 where
  pub id : ℕ
  pub aggregate_id : ℕ
  pub tenant_id : ℕ
  pub event_id : ℕ
  pub event_type : String
  pub source : String
  pub traceparent : Option String
  pub payload : P
  pub created_at : ℕ
  pub published_at : Option ℕ
  pub attempts : ℕ
  pub last_error : Option String

-- The CloudEvents envelope that goes over the wire.
pub record DomainEvent (P : Type 0) : Type 0 where
  pub id : ℕ
  pub type : String
  pub source : String
  pub subject : ℕ
  pub tenantid : ℕ
  pub traceparent : Option String
  pub time : ℕ
  pub body : P

module _ {P : Type 0} where
  unfoldable pub to_event : OutboxRow P → DomainEvent P
  to_event row = record {
    id = row.event_id;
    type = row.event_type;
    source = row.source;
    subject = row.aggregate_id;
    tenantid = row.tenant_id;
    traceparent = row.traceparent;
    time = row.created_at;
    body = row.payload;
  }

  -- Adds a row at the end of the table. Its `id` is the next of the sequence.
  unfoldable pub enqueue_event :
      Env → String → ℕ → ℕ → String → P → List (OutboxRow P) → List (OutboxRow P)
  enqueue_event env source tenant_id aggregate_id event_type payload rows =
      rows
      ++ (record {
        id = length rows;
        aggregate_id = aggregate_id;
        tenant_id = tenant_id;
        event_id = env.uuid4 (length rows);
        event_type = event_type;
        source = source;
        traceparent = env.traceparent;
        payload = payload;
        created_at = env.now;
        published_at = none;
        attempts = 0;
        last_error = none;
      }
          ∷ [])
