-- ===== src/Communication/Inbound.antt =====
-- `InboundPoller.poll_once`, `_ingest` and `relink_message` of
-- services/communication/recoup_communication/service.py. What Mailpit and the case service answer are
-- parameters; the texts of attachments are part of what a mail is searched for.
use recoup.Common.{
  ℕ, ◌+◌, String, Bool, not, ◌&&◌, Option, none, some, List, [], ◌∷◌, ◌++◌, find, any, length, ◌==◌,
  str_eq, if◌then◌else◌, is_some, or_else,
}
use recoup.Gateway.Registry.{given}
use recoup.Outbox.{Env}
use recoup.Communication.Mailbox.{
  Thread, LinkMethod, Message, Mailbox, event_of, enqueue, equals_some, last, threads_for_case,
  get_thread, get_message, update_thread, update_message, is_among, add_refs, inbound, received,
  unlinked, by_thread, by_invoice_ref, by_hand, unlinked_method,
}
use recoup.Communication.Send.{new_thread, Placed, add_thread}

-- An entry of Mailpit's list, and the mail with its headers; addresses are normalised.
pub record Summary : Type 0 where
  pub id : String
  pub to_addrs : List String
  pub from_addr : String

pub record Mail : Type 0 where
  pub message_id : String  -- in angle brackets, or a new one
  pub in_reply_to : Option String
  pub references : List String
  pub from_addr : String
  pub to_addrs : List String
  pub subject : String
  pub body_text : String
  pub invoice_refs : List String  -- of the subject, the body and the attachments
  pub received_at : ℕ

-- What the other services answer: a mail, and the case of an invoice with its customer.
pub record MailWorld : Type 0 where
  pub get_message : String → Mail
  pub case_by_invoice : ℕ → String → Option (ℕ × String)
  pub get_case : ℕ → ℕ → Bool
  pub mailbox : String

-- Where a mail belongs.
pub record Link : Type 0 where
  pub thread : Option Thread
  pub case_id : Option ℕ
  pub customer_ref : Option String
  pub method : LinkMethod

abbrev nowhere : Link
nowhere = record { thread = none; case_id = none; customer_ref = none; method = unlinked_method }

abbrev candidates : Mail → List String
candidates mail = elim (given mail.in_reply_to) [
  | none ↦ mail.references
  | some m ↦ m ∷ mail.references
]

-- The thread of a message that the mail answers.
abbrev is_parent : ℕ → List String → Message → Bool
is_parent tenant ids m = is_among ids m.message_id && (m.tenant_id == tenant)

abbrev pub replied_thread : ℕ → Mail → Mailbox → Option Thread
replied_thread tenant mail box = elim (find (is_parent tenant (candidates mail)) box.messages) [
  | none ↦ none
  | some m ↦ get_thread m.thread_id box
]

-- The first invoice number that has a case.
unfoldable pub by_invoice : MailWorld → ℕ → List String → Mailbox → Link
unfolding threads_for_case
by_invoice w tenant [] box = nowhere
by_invoice w tenant (r ∷ refs) box =
    let rest = by_invoice w tenant refs box in
    elim (w.case_by_invoice tenant r) [
      | none ↦ rest
      | some c ↦ record {
        thread = last (threads_for_case tenant c.0 box);
        case_id = some c.0;
        customer_ref = some c.1;
        method = by_invoice_ref;
      }
    ]

unfoldable pub link : MailWorld → ℕ → Mail → Mailbox → Link
unfolding by_invoice
link w tenant mail box = elim (replied_thread tenant mail box) [
  | some t ↦ record {
    thread = some t;
    case_id = t.case_id;
    customer_ref = t.customer_ref;
    method = by_thread;
  }
  | none ↦ by_invoice w tenant mail.invoice_refs box
]

abbrev pub placed : Env → ℕ → Mail → Link → Mailbox → Placed
placed env tenant mail l box = elim l.thread [
  | some t ↦ record { thread = t; box = box }
  | none ↦
      add_thread
        (new_thread (env.uuid4 (length box.threads)) tenant l.case_id l.customer_ref
          mail.invoice_refs)
        box
]

abbrev pub received_message : Env → ℕ → String → Mail → Link → ℕ → Mailbox → Message
received_message env tenant external_id mail l thread_id box = record {
  id = env.uuid4 (length box.messages);
  thread_id = thread_id;
  tenant_id = tenant;
  case_id = l.case_id;
  direction = inbound;
  status = if is_some l.case_id then received else unlinked;
  message_id = mail.message_id;
  in_reply_to = mail.in_reply_to;
  external_id = some external_id;
  from_addr = mail.from_addr;
  to_addrs = mail.to_addrs;
  subject = mail.subject;
  body_text = mail.body_text;
  invoice_refs = mail.invoice_refs;
  link_method = l.method;
  idempotency_key = none;
  error = none;
  sent_at = none;
}

abbrev pub store_in : Env → ℕ → String → Mail → Link → Placed → Message × Mailbox
store_in env tenant external_id mail l p =
    let m = received_message env tenant external_id mail l p.thread.id p.box in
    (
      m,
      enqueue env "comm.email.received" m (record p.box {
        messages = p.box.messages ++ (m ∷ []);
        threads =
            update_thread p.thread.id
              (λ t. record t {
                last_message_at = some mail.received_at;
                invoice_refs = add_refs mail.invoice_refs t.invoice_refs;
              })
              p.box.threads;
      }),
    )

unfoldable pub stored_mail : Env → MailWorld → ℕ → String → Mailbox → Message × Mailbox
unfolding link update_thread
stored_mail env w tenant external_id box =
    let mail = w.get_message external_id in
    let l = link w tenant mail box in
    store_in env tenant external_id mail l (placed env tenant mail l box)

-- `_ingest`, or the database's refusal of a second message with the same Message-ID.
unfoldable pub ingest_mail : Env → MailWorld → ℕ → String → Mailbox → Option (Message × Mailbox)
unfolding stored_mail
ingest_mail env w tenant external_id box =
    let taken = stored_mail env w tenant external_id box in
    if any (λ m. str_eq m.message_id (w.get_message external_id).message_id) box.messages
    then none
    else some taken

pub record PollResult : Type 0 where
  pub box : Mailbox
  pub scanned : ℕ
  pub ingested : ℕ
  pub linked : ℕ
  pub unlinked : ℕ

pub data Polled : Type 0 where
  polled poll_failed : PollResult → Polled

abbrev pub is_for_us : MailWorld → Summary → Bool
is_for_us w s = is_among s.to_addrs w.mailbox && not (str_eq s.from_addr w.mailbox)

abbrev pub has_external : String → Message → Bool
has_external id m = equals_some id m.external_id

abbrev pub scan : PollResult → PollResult
scan p = record p { scanned = p.scanned + 1 }

-- `_mirror_to_case`
abbrev pub mirror_to_case : Message → Mailbox → Mailbox
mirror_to_case m box = elim m.case_id [
  | none ↦ box
  | some c ↦ record box { mirrored = box.mirrored ++ (event_of m ∷ []) }
]

abbrev pub count_in : Message → Mailbox → PollResult → PollResult
count_in m box p = record {
  box = mirror_to_case m box;
  scanned = p.scanned + 1;
  ingested = p.ingested + 1;
  linked = if is_some m.case_id then p.linked + 1 else p.linked;
  unlinked = if is_some m.case_id then p.unlinked else p.unlinked + 1;
}

-- One entry of the list.
abbrev pub take_in : PollResult → Option (Message × Mailbox) → Polled
take_in p none = poll_failed (scan p)
take_in p (some r) = polled (count_in r.0 r.1 p)

unfoldable pub poll_entry : Env → MailWorld → ℕ → Summary → PollResult → Polled
unfolding ingest_mail
poll_entry env w tenant s p =
    if not (is_for_us w s)
    then polled (scan p)
    else if any (has_external s.id) p.box.messages
    then polled (scan p)
    else take_in p (ingest_mail env w tenant s.id p.box)

abbrev pub start_poll : Mailbox → PollResult
start_poll box = record { box = box; scanned = 0; ingested = 0; linked = 0; unlinked = 0 }

-- The loop: an error ends the poll, and what was committed stays.
unfoldable pub poll_entries : Env → MailWorld → ℕ → List Summary → PollResult → Polled
unfolding poll_entry
poll_entries env w tenant [] p = polled p
poll_entries env w tenant (s ∷ list) p = elim (poll_entry env w tenant s p) [
  | polled q ↦ poll_entries env w tenant list q
  | poll_failed q ↦ poll_failed q
]

unfoldable pub poll_once : Env → MailWorld → ℕ → List Summary → Mailbox → Polled
unfolding poll_entries
poll_once env w tenant list box = poll_entries env w tenant list (start_poll box)

-- `relink_message`: a human links a message to a case, and its thread where that has none.
pub data Relinked : Type 0 where
  relinked : Mailbox → Relinked
  message_not_found already_linked case_not_found : Relinked

abbrev pub by_human : ℕ → Message → Message
by_human case_id m = record m { case_id = some case_id; status = received; link_method = by_hand }

abbrev pub to_case : ℕ → Thread → Thread
to_case case_id t = record t { case_id = or_else t.case_id (some case_id) }

abbrev pub relink_found : MailWorld → ℕ → ℕ → Mailbox → Message → Relinked
relink_found w tenant case_id box m =
    if not (m.tenant_id == tenant)
    then message_not_found
    else if is_some m.case_id
    then already_linked
    else if not (w.get_case tenant case_id)
    then case_not_found
    else relinked (record box {
      messages = update_message m.id (by_human case_id) box.messages;
      threads = update_thread m.thread_id (to_case case_id) box.threads;
    })

unfoldable pub relink_message : MailWorld → ℕ → ℕ → ℕ → Mailbox → Relinked
unfolding update_message update_thread
relink_message w tenant message_pk case_id box = elim (get_message message_pk box) [
  | none ↦ message_not_found
  | some m ↦ relink_found w tenant case_id box m
]
