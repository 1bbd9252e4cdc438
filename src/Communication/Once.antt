-- ===== src/Communication/Once.antt =====
-- A second send with the same key (services/communication).
use recoup.Common.{
  ℕ, ◌≡◌, refl, sym, subst, ◌∙◌, String, true, Option, none, some, List, [], ◌∷◌, find, any,
  any-append, str_eq_iff, arith, Bool-cases, Option-cases, inl, inr,
}
use recoup.Outbox.{Env}
use recoup.Communication.Mailbox.{Message, Mailbox, update_message, get_message}
use recoup.Communication.Inbound.{
  Summary, MailWorld, ingest_mail, PollResult, Polled, is_for_us, has_external, take_in, poll_entry,
  start_poll, poll_entries, poll_once, by_human, relink_message, polled, poll_failed, relinked,
}
use recoup.Communication.Again.{ingest_mail-messages, mirrored-messages}
use recoup.Communication.Linked.{poll_result, queue_email-Queued}
use recoup.Communication.Send.{
  SendEmailRequest, MailLibrary, Placed, thread_for_send, queue_in, has_key, text_of, queue_email,
  outcome, settle_email, send_email, queues, known, refused, Sent,
}

-- An update of a message that leaves the keys keeps the keys of the table.
keyed-update :
    (key : String) (id : ℕ) (f : Message → Message) (messages : List Message)
    → ((m : Message) → (f m).idempotency_key ≡ m.idempotency_key)
    → any (has_key key) (update_message id f messages) ≡ any (has_key key) messages
unfolding update_message
keyed-update key id f [] h = refl
keyed-update key id f (m ∷ messages) h = ground (arith, h m, keyed-update key id f messages h)

outcome-key :
    (now : ℕ) (error : Option String) (m : Message)
    → (outcome now error m).idempotency_key ≡ m.idempotency_key
outcome-key now none m = refl
outcome-key now (some e) m = refl

found_key :
    (key : String) (messages : List Message)
    → any (has_key key) messages ≡ true
    → (m : Message) × (find (has_key key) messages ≡ some m)
found_key key (m ∷ messages) h = elim (Bool-cases (has_key key m)) [
  | inl y ↦ (m, rw y refl)
  | inr n ↦ let (k, e) = found_key key messages (ground (arith, n, h)) in (k, rw n e)
]
found_key key [] h = absurd (ground arith)

-- A mailbox that knows the key answers without sending.
known_key :
    (env : Env) (lib : MailLibrary) (smtp : Message → Option String) (req : SendEmailRequest)
    (tenant : ℕ) (box : Mailbox) (m : Message)
    → find (has_key req.idempotency_key) box.messages ≡ some m
    → send_email env lib smtp req tenant box
      ≡ record { message = some m; box = box; smtp_calls = 0 }
unfolding send_email queue_email
known_key env lib smtp req tenant box m h = rw (send_email, h) refl

answered :
    (env : Env) (lib : MailLibrary) (smtp : Message → Option String) (req : SendEmailRequest)
    (tenant : ℕ) (box : Mailbox)
    → any (has_key req.idempotency_key) box.messages ≡ true
    → (x : Message) × (send_email env lib smtp req tenant box
        ≡ record { message = some x; box = box; smtp_calls = 0 })
answered env lib smtp req tenant box h =
    let (x, e) = found_key req.idempotency_key box.messages h in
    (x, known_key env lib smtp req tenant box x e)

settle_email-key :
    (env : Env) (error : Option String) (key : String) (m : Message) (b : Mailbox)
    → any (has_key key) (settle_email env error m b).messages ≡ any (has_key key) b.messages
unfolding settle_email
settle_email-key env error key m b =
    keyed-update key m.id (outcome env.now error) b.messages (outcome-key env.now error)

queue_in-key :
    (env : Env) (lib : MailLibrary) (req : SendEmailRequest) (tenant : ℕ) (text : String × String)
    (p : Placed) (m : Message) (b : Mailbox)
    → queue_in env lib req tenant text p ≡ queues m b
    → any (has_key req.idempotency_key) b.messages ≡ true
queue_in-key env lib req tenant text p m b h = ground (
  arith,
  any-append (has_key req.idempotency_key) p.box.messages (m ∷ []),
  str_eq_iff req.idempotency_key req.idempotency_key,
)

queue_email-key :
    (env : Env) (lib : MailLibrary) (req : SendEmailRequest) (tenant : ℕ) (box : Mailbox)
    (m : Message) (b : Mailbox)
    → queue_email env lib req tenant box ≡ queues m b
    → any (has_key req.idempotency_key) b.messages ≡ true
unfolding queue_email
queue_email-key env lib req tenant box m b h =
    elim (Option-cases (find (has_key req.idempotency_key) box.messages)) [
      | inl n ↦ elim (Option-cases (text_of lib req)) [
        | inl t ↦ absurd (ground (arith, n, t))
        | inr (text, t) ↦
            queue_in-key env lib req tenant text (thread_for_send env req tenant box) m b
              (ground (arith, n, t, h))
      ]
      | inr (x, y) ↦ absurd (ground (arith, y))
    ]

-- What may happen to a mailbox after a call has queued its message: the second transaction of that call or of
-- any other, with any answer of the SMTP server; other calls that send, or crash before they do; polls; and
-- relinks; in any order.
pub data Later (start : Mailbox) : Mailbox → Type 0 where
  at_once : Later start start
  settles :
      {box : Mailbox} (env : Env) (error : Option String) (m : Message)
      → Later start box
      → Later start (settle_email env error m box)
  sends :
      {box : Mailbox} (env : Env) (lib : MailLibrary) (smtp : Message → Option String)
      (req : SendEmailRequest) (tenant : ℕ)
      → Later start box
      → Later start (send_email env lib smtp req tenant box).box
  crashes :
      {box b : Mailbox} {m : Message} (env : Env) (lib : MailLibrary) (req : SendEmailRequest)
      (tenant : ℕ)
      → Later start box
      → queue_email env lib req tenant box ≡ queues m b
      → Later start b
  polls :
      {box : Mailbox} (env : Env) (w : MailWorld) (tenant : ℕ) (list : List Summary)
      → Later start box
      → Later start (poll_result (poll_once env w tenant list box)).box
  relinks :
      {box b : Mailbox} (w : MailWorld) (tenant pk case_id : ℕ)
      → Later start box
      → relink_message w tenant pk case_id box ≡ relinked b
      → Later start b

-- The mailbox knows the key.
abbrev Knows : String → Mailbox → Type 0
Knows key box = any (has_key key) box.messages ≡ true

queued-Knows :
    (key : String) (env : Env) (lib : MailLibrary) (req : SendEmailRequest) (tenant : ℕ)
    (box : Mailbox) (m : Message) (b : Mailbox)
    → queue_email env lib req tenant box ≡ queues m b
    → Knows key box
    → Knows key b
queued-Knows key env lib req tenant box m b h k =
    let added = (queue_email-Queued env lib req tenant box m b h).0 in
    ground (arith, added, k, any-append (has_key key) box.messages (m ∷ []))

sent-Knows :
    (key : String) (env : Env) (lib : MailLibrary) (smtp : Message → Option String)
    (req : SendEmailRequest) (tenant : ℕ) (box : Mailbox) (o : Sent)
    → queue_email env lib req tenant box ≡ o
    → Knows key box
    → Knows key (send_email env lib smtp req tenant box).box
unfolding send_email
sent-Knows key env lib smtp req tenant box (known m) e k = rw (send_email, e) k
sent-Knows key env lib smtp req tenant box refused e k = rw (send_email, e) k
sent-Knows key env lib smtp req tenant box (queues m b) e k =
    rw (send_email, e)
      (settle_email-key env (smtp m) key m b ∙ queued-Knows key env lib req tenant box m b e k)

taken-Knows :
    (key : String) (env : Env) (w : MailWorld) (tenant : ℕ) (id : String) (p : PollResult)
    (o : Option (Message × Mailbox))
    → ingest_mail env w tenant id p.box ≡ o
    → Knows key p.box
    → Knows key (poll_result (take_in p o)).box
taken-Knows key env w tenant id p none e k = k
taken-Knows key env w tenant id p (some r) e k =
    let (grown, _) = ingest_mail-messages env w tenant id p.box r e in
    rw (mirrored-messages env w tenant r.0 r.1 ∙ grown)
      (ground (arith, k, any-append (has_key key) p.box.messages (r.0 ∷ [])))

entry-Knows :
    (key : String) (env : Env) (w : MailWorld) (tenant : ℕ) (s : Summary) (p : PollResult)
    → Knows key p.box
    → Knows key (poll_result (poll_entry env w tenant s p)).box
unfolding poll_entry
entry-Knows key env w tenant s p k = elim (Bool-cases (is_for_us w s)) [
  | inl a ↦ elim (Bool-cases (any (has_external s.id) p.box.messages)) [
    | inl b ↦ rw (poll_entry, a, b) k
    | inr b ↦
        rw (poll_entry, a, b)
          (taken-Knows key env w tenant s.id p (ingest_mail env w tenant s.id p.box) refl k)
  ]
  | inr a ↦ rw (poll_entry, a) k
]

entries-Knows :
    (key : String) (env : Env) (w : MailWorld) (tenant : ℕ) (list : List Summary) (p : PollResult)
    → Knows key p.box
    → Knows key (poll_result (poll_entries env w tenant list p)).box
unfolding poll_entries
entries-Knows key env w tenant [] p k = k
entries-Knows key env w tenant (s ∷ list) p k =
    go (poll_entry env w tenant s p) (entry-Knows key env w tenant s p k)
      (λ q h. entries-Knows key env w tenant list q h)
  where
    go :
        (o : Polled)
        → Knows key (poll_result o).box
        → ((q : PollResult)
            → Knows key q.box
            → Knows key (poll_result (poll_entries env w tenant list q)).box)
        → Knows key
            (poll_result (elim o as (λ _. Polled) [
              | polled q ↦ poll_entries env w tenant list q
              | poll_failed q ↦ poll_failed q
            ])).box
    go (polled q) h rest = rest q h
    go (poll_failed q) h rest = h

relinked-Knows :
    (key : String) (w : MailWorld) (tenant pk case_id : ℕ) (box b : Mailbox) (o : Option Message)
    → get_message pk box ≡ o
    → relink_message w tenant pk case_id box ≡ relinked b
    → Knows key box
    → Knows key b
unfolding relink_message
relinked-Knows key w tenant pk case_id box b none e h k = absurd (ground (arith, e, h))
relinked-Knows key w tenant pk case_id box b (some m) e h k =
    ground (arith, e, h, k, keyed-update key m.id (by_human case_id) box.messages (λ x. refl))

Later-Knows :
    (key : String) {start box : Mailbox} → Later start box → Knows key start → Knows key box
unfolding poll_once
Later-Knows key at_once k = k
Later-Knows key (settles {box = box} env error m l) k =
    settle_email-key env error key m box ∙ Later-Knows key l k
Later-Knows key (sends {box = box} env lib smtp req tenant l) k =
    sent-Knows key env lib smtp req tenant box _ refl (Later-Knows key l k)
Later-Knows key (crashes {box = box} {b = b} {m = m} env lib req tenant l h) k =
    queued-Knows key env lib req tenant box m b h (Later-Knows key l k)
Later-Knows key (polls {box = box} env w tenant list l) k =
    entries-Knows key env w tenant list (start_poll box) (Later-Knows key l k)
Later-Knows key (relinks {box = box} {b = b} w tenant pk case_id l h) k =
    relinked-Knows key w tenant pk case_id box b (get_message pk box) refl h (Later-Knows key l k)

-- An email goes out at most once for a key. When a call has queued its message, then whatever happens
-- afterwards, its own second transaction or its crash, other sends, polls and relinks in any order, a later
-- call with the same key, whatever it asks for, asks the SMTP server no more, changes nothing and returns a
-- message.
pub send_email_once :
    (env later : Env) (lib : MailLibrary) (smtp : Message → Option String)
    (req second : SendEmailRequest) (tenant other : ℕ) (box : Mailbox) (m : Message)
    (b now : Mailbox)
    → queue_email env lib req tenant box ≡ queues m b
    → Later b now
    → second.idempotency_key ≡ req.idempotency_key
    → (x : Message) × (send_email later lib smtp second other now
        ≡ record { message = some x; box = now; smtp_calls = 0 })
send_email_once env later lib smtp req second tenant other box m b now h l k =
    let key = Later-Knows req.idempotency_key l (queue_email-key env lib req tenant box m b h) in
    answered later lib smtp second other now
      (subst (λ i. any (has_key i) now.messages ≡ true) (sym k) key)
