-- ===== src/Communication/Send.antt =====
-- `send_email` and `_thread_for_send` of services/communication/recoup_communication/service.py. The
-- templates, the regular expression for invoice numbers, the new Message-ID and the answer of the SMTP
-- server are parameters. The first transaction queues the message, the second one records what became
-- of it; a crash in between leaves it queued.
use recoup.Common.{
  ℕ, String, Bool, Option, none, some, List, [], ◌∷◌, ◌++◌, map, find, length, ◌==◌, str_eq,
  if◌then◌else◌,
}
use recoup.Json.{Fields}
use recoup.Gateway.Registry.{given}
use recoup.Outbox.{Env}
use recoup.Communication.Mailbox.{
  Thread, Message, Mailbox, event_of, enqueue, equals_some, last, threads_for_case, get_thread,
  update_thread, update_message, add_refs, out, queued, sent, failed, by_case,
}

pub record SendEmailRequest : Type 0 where
  pub case_id : ℕ
  pub to : List String
  pub subject : Option String
  pub body_text : Option String
  pub template : Option String
  pub variables : Fields
  pub invoice_refs : List String
  pub in_reply_to : Option String
  pub idempotency_key : String

-- What is not under the service's control: `render` of the templates (`none` where it raises),
-- `extract_invoice_refs`, `str.lower`, the next Message-ID, and the settings.
pub record MailLibrary : Type 0 where
  pub render : String → Fields → Option (String × String)
  pub extract_invoice_refs : String → String → List String
  pub lower : String → String
  pub new_message_id : ℕ → String
  pub inbound_mailbox : String

pub data Sent : Type 0 where
  known : Message → Sent  -- the message of an earlier call with the key
  queues : Message → Mailbox → Sent
  refused : Sent  -- the template or the text is missing

abbrev both_given : Option String → Option String → Option (String × String)
both_given (some a) (some b) = some (a, b)
both_given _ _ = none

abbrev pub text_of : MailLibrary → SendEmailRequest → Option (String × String)
text_of lib req = elim (given req.template) [
  | some t ↦ lib.render t req.variables
  | none ↦ both_given (given req.subject) (given req.body_text)
]

-- The parent that the request names, where it is the tenant's.
abbrev pub parent_thread : ℕ → Option String → Mailbox → Option Thread
parent_thread tenant none box = none
parent_thread tenant (some message_id) box =
    elim (find (λ m. str_eq m.message_id message_id) box.messages) [
      | none ↦ none
      | some m ↦ if m.tenant_id == tenant then get_thread m.thread_id box else none
    ]

abbrev pub new_thread : ℕ → ℕ → Option ℕ → Option String → List String → Thread
new_thread id tenant case_id customer_ref refs = record {
  id = id;
  tenant_id = tenant;
  case_id = case_id;
  customer_ref = customer_ref;
  invoice_refs = refs;
  last_message_at = none;
}

pub record Placed : Type 0 where
  pub thread : Thread
  pub box : Mailbox

abbrev pub add_thread : Thread → Mailbox → Placed
add_thread t box = record { thread = t; box = record box { threads = box.threads ++ (t ∷ []) } }

-- `_thread_for_send`. A parent always has its thread (a foreign key), so that `get_thread` finds it.
unfoldable pub thread_for_send : Env → SendEmailRequest → ℕ → Mailbox → Placed
unfolding threads_for_case
thread_for_send env req tenant box = elim (parent_thread tenant (given req.in_reply_to) box) [
  | some t ↦ record { thread = t; box = box }
  | none ↦ elim (last (threads_for_case tenant req.case_id box)) [
    | some t ↦ record { thread = t; box = box }
    | none ↦
        add_thread
          (new_thread (env.uuid4 (length box.threads)) tenant (some req.case_id) none
            req.invoice_refs)
          box
  ]
]

abbrev pub queued_message :
    Env → MailLibrary → SendEmailRequest → ℕ → String × String → ℕ → Mailbox → Message
queued_message env lib req tenant text thread_id box = record {
  id = env.uuid4 (length box.messages);
  thread_id = thread_id;
  tenant_id = tenant;
  case_id = some req.case_id;
  direction = out;
  status = queued;
  message_id = lib.new_message_id (length box.messages);
  in_reply_to = req.in_reply_to;
  external_id = none;
  from_addr = lib.inbound_mailbox;
  to_addrs = map lib.lower req.to;
  subject = text.0;
  body_text = text.1;
  invoice_refs = add_refs (lib.extract_invoice_refs text.0 text.1) (add_refs req.invoice_refs []);
  link_method = by_case;
  idempotency_key = some req.idempotency_key;
  error = none;
  sent_at = none;
}

abbrev pub queue_in : Env → MailLibrary → SendEmailRequest → ℕ → String × String → Placed → Sent
queue_in env lib req tenant text p =
    let m = queued_message env lib req tenant text p.thread.id p.box in
    queues m (record p.box {
      messages = p.box.messages ++ (m ∷ []);
      threads =
          update_thread p.thread.id
            (λ t. record t { invoice_refs = add_refs m.invoice_refs t.invoice_refs }) p.box.threads;
    })

abbrev pub has_key : String → Message → Bool
has_key key m = equals_some key m.idempotency_key

-- The first transaction. The key is looked up among the messages of all tenants.
unfoldable pub queue_email : Env → MailLibrary → SendEmailRequest → ℕ → Mailbox → Sent
unfolding thread_for_send update_thread
queue_email env lib req tenant box = elim (find (has_key req.idempotency_key) box.messages) [
  | some m ↦ known m
  | none ↦ elim (text_of lib req) [
    | none ↦ refused
    | some text ↦ queue_in env lib req tenant text (thread_for_send env req tenant box)
  ]
]

-- What the second transaction writes to the message, given the error of the SMTP server.
abbrev pub outcome : ℕ → Option String → Message → Message
outcome now none m = record m { status = sent; sent_at = some now }
outcome now (some e) m = record m { status = failed; error = some e }

abbrev dated : ℕ → Option String → Thread → Thread
dated now none t = record t { last_message_at = some now }
dated now (some e) t = t

abbrev event_type : Option String → String
event_type none = "comm.email.sent"
event_type (some e) = "comm.email.failed"

abbrev mirror : Message → Mailbox → Mailbox
mirror m box = record box { mirrored = box.mirrored ++ (event_of m ∷ []) }

-- The second transaction, and the entry on the timeline of the case.
unfoldable pub settle_email : Env → Option String → Message → Mailbox → Mailbox
unfolding update_message update_thread
settle_email env error m box = mirror m (
    enqueue env (event_type error) m (record box {
      messages = update_message m.id (outcome env.now error) box.messages;
      threads = update_thread m.thread_id (dated env.now error) box.threads;
    }))

-- What the caller gets, the mailbox, and how often the SMTP server was asked.
pub record SendResult : Type 0 where
  pub message : Option Message
  pub box : Mailbox
  pub smtp_calls : ℕ

unfoldable pub send_email :
    Env → MailLibrary → (Message → Option String) → SendEmailRequest → ℕ → Mailbox → SendResult
unfolding queue_email settle_email
send_email env lib smtp req tenant box = elim (queue_email env lib req tenant box) [
  | known m ↦ record { message = some m; box = box; smtp_calls = 0 }
  | refused ↦ record { message = none; box = box; smtp_calls = 0 }
  | queues m b ↦ record {
    message = some (outcome env.now (smtp m) m);
    box = settle_email env (smtp m) m b;
    smtp_calls = 1;
  }
]
