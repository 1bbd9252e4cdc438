-- ===== src/Communication/Mailbox.antt =====
-- The tables of services/communication/recoup_communication/models.py, and the queries on them of
-- service.py there. A primary key is a number; the parts of a message that only go out or to the console
-- (copies, HTML, attachments, who sent it) are left out.
use recoup.Common.{
  ℕ, String, Bool, false, ◌&&◌, Option, none, some, List, [], ◌∷◌, ◌++◌, map, filter, find, any,
  ◌==◌, str_eq, if◌then◌else◌,
}
use recoup.Outbox.{Env, OutboxRow, enqueue_event}

pub record Thread : Type 0 where
  pub id : ℕ
  pub tenant_id : ℕ
  pub case_id : Option ℕ
  pub customer_ref : Option String
  pub invoice_refs : List String
  pub last_message_at : Option ℕ

pub data Direction : Type 0 where
  out inbound : Direction

pub data MessageStatus : Type 0 where
  queued sent failed received unlinked : MessageStatus

pub data LinkMethod : Type 0 where
  by_case by_thread by_invoice_ref by_hand unlinked_method : LinkMethod

pub record Message : Type 0 where
  pub id : ℕ
  pub thread_id : ℕ
  pub tenant_id : ℕ
  pub case_id : Option ℕ
  pub direction : Direction
  pub status : MessageStatus
  pub message_id : String
  pub in_reply_to : Option String
  pub external_id : Option String
  pub from_addr : String
  pub to_addrs : List String
  pub subject : String
  pub body_text : String
  pub invoice_refs : List String
  pub link_method : LinkMethod
  pub idempotency_key : Option String
  pub error : Option String
  pub sent_at : Option ℕ

-- What an event says of a message.
pub record MailEvent : Type 0 where
  pub message_id : String
  pub thread_id : ℕ
  pub case_id : Option ℕ

-- The tables, and the copies of mail that the case service was asked to put on its timelines.
pub record Mailbox : Type 0 where
  pub threads : List Thread
  pub messages : List Message
  pub outbox : List (OutboxRow MailEvent)
  pub mirrored : List MailEvent

abbrev pub event_of : Message → MailEvent
event_of m = record { message_id = m.message_id; thread_id = m.thread_id; case_id = m.case_id }

-- `case_id or thread_id`
abbrev pub aggregate_of : Message → ℕ
aggregate_of m = elim m.case_id [ none ↦ m.thread_id | some c ↦ c ]

abbrev pub enqueue : Env → String → Message → Mailbox → Mailbox
enqueue env event_type m box = record box {
  outbox =
      enqueue_event env "communication-service" m.tenant_id (aggregate_of m) event_type (event_of m)
        box.outbox;
}

abbrev pub equals_some : String → Option String → Bool
equals_some s none = false
equals_some s (some t) = str_eq t s

abbrev pub is_case : ℕ → Option ℕ → Bool
is_case c none = false
is_case c (some d) = d == c

abbrev pub last {ℓ} : {A : Type ℓ} → List A → Option A
last [] = none
last (x ∷ xs) = elim (last xs) [ none ↦ some x | some y ↦ some y ]

-- The order of the table is that of `created_at`.
unfoldable pub threads_for_case : ℕ → ℕ → Mailbox → List Thread
threads_for_case tenant case_id box =
    filter (λ t. (t.tenant_id == tenant) && is_case case_id t.case_id) box.threads

abbrev pub get_thread : ℕ → Mailbox → Option Thread
get_thread id box = find (λ t. t.id == id) box.threads

abbrev pub get_message : ℕ → Mailbox → Option Message
get_message id box = find (λ m. m.id == id) box.messages

unfoldable pub update_thread : ℕ → (Thread → Thread) → List Thread → List Thread
update_thread id f threads = map (λ t. if t.id == id then f t else t) threads

-- The row of that key.
unfoldable pub update_message : ℕ → (Message → Message) → List Message → List Message
update_message id f [] = []
update_message id f (m ∷ messages) =
    let rest = update_message id f messages in if m.id == id then f m ∷ messages else m ∷ rest

abbrev pub is_among : List String → String → Bool
is_among names name = any (str_eq name) names

-- A reference that is not there yet is added at the end.
unfoldable pub add_refs : List String → List String → List String
add_refs [] known = known
add_refs (r ∷ refs) known = add_refs refs (if is_among known r then known else known ++ (r ∷ []))
