-- ===== src/Tests/Communication.antt =====
-- The theorems on the communication service, at concrete inputs.
use recoup.Common.{◌+◌, ◌≡◌, refl, String, none, some, List, [], ◌∷◌, true, map}
use recoup.Json.{end}
use recoup.Outbox.{Env}
use recoup.Communication.Mailbox.{Thread, Message, Mailbox, add_refs, sent, received}
use recoup.Communication.Send.{
  SendEmailRequest, MailLibrary, queued_message, queue_email, queued_message, settle_email,
  send_email, queues,
}
use recoup.Communication.Inbound.{Summary, Mail, MailWorld, PollResult, poll_once, polled}
use recoup.Communication.Again.{poll_once_again}
use recoup.Communication.Once.{at_once, settles, send_email_once}
use recoup.Communication.Linked.{IsLinked, poll_result, Reaches, starts, sends, polls}
use recoup.Communication.Status.{Reaches-IsLinked}

abbrev env : Env
env = record {
  now = 7;
  trace_id = none;
  traceparent = none;
  uuid4 = λ n. n;
  upper = λ s. s;
  next_version = λ v. v + 1;
}

abbrev lib : MailLibrary
lib = record {
  render = λ t v. none;
  extract_invoice_refs = λ subject body. [];
  lower = λ s. s;
  new_message_id = λ n. "<1@recoup>";
  inbound_mailbox = "collections@recoup";
}

abbrev reminder : String → SendEmailRequest
reminder key = record {
  case_id = 4;
  to = "ap@customer" ∷ [];
  subject = some "Your invoice";
  body_text = some "It is overdue.";
  template = none;
  variables = end;
  invoice_refs = "INV-10001" ∷ [];
  in_reply_to = none;
  idempotency_key = key;
}

abbrev empty : Mailbox
empty = record { threads = []; messages = []; outbox = []; mirrored = [] }

abbrev reply : Mail
reply = record {
  message_id = "<2@customer>";
  in_reply_to = some "<1@recoup>";
  references = [];
  from_addr = "ap@customer";
  to_addrs = "collections@recoup" ∷ [];
  subject = "Re: Your invoice";
  body_text = "Paid.";
  invoice_refs = [];
  received_at = 9;
}

abbrev world : MailWorld
world = record {
  get_message = λ id. reply;
  case_by_invoice = λ tenant ref. none;
  get_case = λ tenant case_id. true;
  mailbox = "collections@recoup";
}

abbrev summaries : List Summary
summaries =
    record { id = "m-1"; to_addrs = "collections@recoup" ∷ []; from_addr = "ap@customer" } ∷ []

abbrev emailed : Mailbox
emailed = (send_email env lib (λ m. none) (reminder "exec-a") 1 empty).box

abbrev first_poll : PollResult
first_poll = poll_result (poll_once env world 1 summaries emailed)

first_poll_ok : poll_once env world 1 summaries emailed ≡ polled first_poll
unfolding poll_once send_email
first_poll_ok = refl

poll_once_again_example :
    poll_once env world 1 summaries first_poll.box
    ≡ polled (record { box = first_poll.box; scanned = 1; ingested = 0; linked = 0; unlinked = 0 })
poll_once_again_example = poll_once_again env env world 1 summaries emailed first_poll first_poll_ok

-- The reply joins the thread of the email, and with it the case.
reply_is_received : map (λ m. m.status) first_poll.box.messages ≡ sent ∷ received ∷ []
unfolding poll_once send_email
reply_is_received = refl

history : Reaches empty first_poll.box
history = polls env world 1 summaries (sends env lib (λ m. none) (reminder "exec-a") 1 starts refl)

Reaches-IsLinked_example : IsLinked first_poll.box
Reaches-IsLinked_example = Reaches-IsLinked refl history

abbrev the_thread : Thread
the_thread = record {
  id = 0;
  tenant_id = 1;
  case_id = some 4;
  customer_ref = none;
  invoice_refs = "INV-10001" ∷ [];
  last_message_at = none;
}

abbrev the_message : Message
the_message =
    queued_message env lib (reminder "exec-a") 1 ("Your invoice", "It is overdue.") 0 empty

abbrev queued_box : Mailbox
queued_box = record {
  threads = the_thread ∷ [];
  messages = the_message ∷ [];
  outbox = [];
  mirrored = [];
}

it_queues : queue_email env lib (reminder "exec-a") 1 empty ≡ queues the_message queued_box
unfolding queue_email add_refs
it_queues = refl

-- The SMTP server refused the message.
abbrev refused_box : Mailbox
refused_box = settle_email env (some "refused") the_message queued_box

send_email_once_example :
    (x : Message) × (send_email env lib (λ m. none) (reminder "exec-a") 2 refused_box
      ≡ record { message = some x; box = refused_box; smtp_calls = 0 })
send_email_once_example =
    send_email_once env env lib (λ m. none) (reminder "exec-a") (reminder "exec-a") 1 2 empty
      the_message queued_box refused_box it_queues
      (settles env (some "refused") the_message at_once) refl
