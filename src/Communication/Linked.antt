-- ===== src/Communication/Linked.antt =====
-- What the status of a message says of its case (services/communication/recoup_communication/service.py).
use recoup.Common.{
  ℕ, ◌≡◌, refl, String, Bool, true, false, not, ◌&&◌, Option, none, some, List, [], ◌∷◌, ◌++◌, find,
  any, all, all-append, length, ◌==◌, is_some, arith, Option-cases, inl, inr,
}
use recoup.Outbox.{Env}
use recoup.Gateway.Registry.{given}
use recoup.Communication.Mailbox.{
  Message, Mailbox, last, threads_for_case, update_message, out, inbound, received, unlinked,
}
use recoup.Communication.Send.{
  SendEmailRequest, MailLibrary, Sent, text_of, parent_thread, Placed, thread_for_send, queue_in,
  has_key, text_of, queue_email, outcome, settle_email, send_email, known, queues, refused,
}
use recoup.Communication.Inbound.{
  Summary, MailWorld, PollResult, Polled, poll_once, relink_message, polled, poll_failed, relinked,
}

-- A message that goes out belongs to a case, and its status is one of the sender's; one that came in is
-- received where it belongs to a case, and unlinked where it does not.
abbrev pub fits : Message → Bool
fits m = elim m.direction [
  | out ↦ is_some m.case_id && (elim m.status [ received ↦ false | unlinked ↦ false | _ ↦ true ])
  | inbound ↦ elim m.status [
    | received ↦ is_some m.case_id
    | unlinked ↦ not (is_some m.case_id)
    | _ ↦ false
  ]
]

abbrev pub IsLinked : Mailbox → Type 0
IsLinked box = all fits box.messages ≡ true

-- No message has the key that `uuid4` gives the next one.
abbrev pub IsFresh : Env → Mailbox → Type 0
IsFresh env box = any (λ m. m.id == env.uuid4 (length box.messages)) box.messages ≡ false

-- The mailboxes that the operations lead to. A send may crash before it asks the SMTP server, and a poll
-- may fail.
abbrev pub poll_result : Polled → PollResult
poll_result (polled q) = q
poll_result (poll_failed q) = q

pub data Reaches (start : Mailbox) : Mailbox → Type 0 where
  starts : Reaches start start
  sends :
      {box : Mailbox} (env : Env) (lib : MailLibrary) (smtp : Message → Option String)
      (req : SendEmailRequest) (tenant : ℕ)
      → Reaches start box
      → IsFresh env box
      → Reaches start (send_email env lib smtp req tenant box).box
  crashes :
      {box b : Mailbox} {m : Message} (env : Env) (lib : MailLibrary) (req : SendEmailRequest)
      (tenant : ℕ)
      → Reaches start box
      → queue_email env lib req tenant box ≡ queues m b
      → Reaches start b
  polls :
      {box : Mailbox} (env : Env) (w : MailWorld) (tenant : ℕ) (list : List Summary)
      → Reaches start box
      → Reaches start (poll_result (poll_once env w tenant list box)).box
  relinks :
      {box b : Mailbox} (w : MailWorld) (tenant pk case_id : ℕ)
      → Reaches start box
      → relink_message w tenant pk case_id box ≡ relinked b
      → Reaches start b

-- The queued message fits, and is at the end of the table.
queue_in-messages :
    (env : Env) (lib : MailLibrary) (req : SendEmailRequest) (tenant : ℕ) (text : String × String)
    (p : Placed) (m : Message) (b : Mailbox)
    → queue_in env lib req tenant text p ≡ queues m b
    → (b.messages ≡ p.box.messages ++ (m ∷ []))
      × (fits m ≡ true)
      × (m.id ≡ env.uuid4 (length p.box.messages))
      × (m.direction ≡ out)
queue_in-messages env lib req tenant text p m b h =
    (ground arith, ground arith, ground arith, ground arith)

thread_for_send-messages :
    (env : Env) (req : SendEmailRequest) (tenant : ℕ) (box : Mailbox)
    → (thread_for_send env req tenant box).box.messages ≡ box.messages
unfolding thread_for_send
thread_for_send-messages env req tenant box =
    elim (Option-cases (parent_thread tenant (given req.in_reply_to) box)) [
      | inl n ↦ elim (Option-cases (last (threads_for_case tenant req.case_id box))) [
        | inl e ↦ rw (thread_for_send, n, e) refl
        | inr (t, y) ↦ rw (thread_for_send, n, y) refl
      ]
      | inr (t, y) ↦ rw (thread_for_send, y) refl
    ]

-- What a call queues.
abbrev pub Queued : Env → Mailbox → Message → Mailbox → Type 0
Queued env box m b =
    (b.messages ≡ box.messages ++ (m ∷ []))
    × (fits m ≡ true)
    × (m.id ≡ env.uuid4 (length box.messages))
    × (m.direction ≡ out)

pub queue_email-Queued :
    (env : Env) (lib : MailLibrary) (req : SendEmailRequest) (tenant : ℕ) (box : Mailbox)
    (m : Message) (b : Mailbox)
    → queue_email env lib req tenant box ≡ queues m b
    → Queued env box m b
unfolding queue_email
queue_email-Queued env lib req tenant box m b h =
    elim (Option-cases (find (has_key req.idempotency_key) box.messages)) [
      | inl n ↦ elim (Option-cases (text_of lib req)) [
        | inl t ↦ absurd (ground (arith, n, t))
        | inr (text, t) ↦ rw (← thread_for_send-messages env req tenant box) (
            queue_in-messages env lib req tenant text (thread_for_send env req tenant box) m b
              (ground (arith, n, t, h)))
      ]
      | inr (x, y) ↦ absurd (ground (arith, y))
    ]

update_last :
    (id : ℕ) (f : Message → Message) (messages : List Message) (m : Message)
    → any (λ x. x.id == id) messages ≡ false
    → m.id ≡ id
    → update_message id f (messages ++ (m ∷ [])) ≡ messages ++ (f m ∷ [])
unfolding update_message
update_last id f [] m h k = ground arith
update_last id f (x ∷ messages) m h k = ground (arith, update_last id f messages m)

outcome-fits :
    (now : ℕ) (error : Option String) (m : Message)
    → fits m ≡ true
    → m.direction ≡ out
    → fits (outcome now error m) ≡ true
outcome-fits now none m h k = ground arith
outcome-fits now (some e) m h k = ground arith

settled-IsLinked :
    (env : Env) (error : Option String) (box b : Mailbox) (m : Message)
    → IsLinked box
    → IsFresh env box
    → Queued env box m b
    → IsLinked (settle_email env error m b)
unfolding settle_email
settled-IsLinked env error box b m h k (grown, fit, id, dir) = rw (grown) (
    ground (
      arith,
      h,
      all-append fits box.messages (outcome env.now error m ∷ []),
      outcome-fits env.now error m fit dir,
      update_last m.id (outcome env.now error) box.messages m (rw id k) refl,
    ))

pub queue_email-IsLinked :
    (env : Env) (lib : MailLibrary) (req : SendEmailRequest) (tenant : ℕ) (box : Mailbox)
    (m : Message) (b : Mailbox)
    → IsLinked box
    → queue_email env lib req tenant box ≡ queues m b
    → IsLinked b
queue_email-IsLinked env lib req tenant box m b h k =
    let (grown, fit, _, _) = queue_email-Queued env lib req tenant box m b k in
    rw grown (ground (arith, h, fit, all-append fits box.messages (m ∷ [])))

pub send_email-IsLinked :
    (env : Env) (lib : MailLibrary) (smtp : Message → Option String) (req : SendEmailRequest)
    (tenant : ℕ) (box : Mailbox)
    → IsLinked box
    → IsFresh env box
    → IsLinked (send_email env lib smtp req tenant box).box
unfolding send_email
send_email-IsLinked env lib smtp req tenant box h k = go (queue_email env lib req tenant box) refl
  where
    go :
        (s : Sent)
        → queue_email env lib req tenant box ≡ s
        → IsLinked (send_email env lib smtp req tenant box).box
    go (known m) e = rw (send_email, e) h
    go refused e = rw (send_email, e) h
    go (queues m b) e =
        rw (send_email, e)
          (settled-IsLinked env (smtp m) box b m h k
            (queue_email-Queued env lib req tenant box m b e))
