-- ===== src/Communication/Status.antt =====
-- Polling and relinking keep the status of every message true (services/communication/recoup_communication/
-- service.py), and with sending they make every mailbox one in which it is.
use recoup.Common.{
  ℕ, ◌≡◌, refl, sym, subst, ◌∙◌, String, true, false, Option, none, some, List, [], ◌∷◌, find, any,
  all, all-append, ◌==◌, is_some, arith, Bool-cases, Option-cases, inl, inr,
}
use recoup.Outbox.{Env}
use recoup.Communication.Mailbox.{Message, Mailbox, get_message, update_message}
use recoup.Communication.Inbound.{
  Summary, MailWorld, stored_mail, ingest_mail, PollResult, Polled, is_for_us, has_external,
  take_in, poll_entry, start_poll, poll_entries, poll_once, by_human, relink_found, relink_message,
  polled, poll_failed, relinked,
}
use recoup.Communication.Again.{ingest_mail-messages, mirrored-messages}
use recoup.Communication.Linked.{
  fits, IsLinked, poll_result, Reaches, queue_email-IsLinked, send_email-IsLinked, starts, sends,
  crashes, polls, relinks,
}

stored_mail-fits :
    (env : Env) (w : MailWorld) (tenant : ℕ) (id : String) (box : Mailbox)
    → fits (stored_mail env w tenant id box).0 ≡ true
unfolding stored_mail
stored_mail-fits env w tenant id box = ground arith

ingest_mail-fits :
    (env : Env) (w : MailWorld) (tenant : ℕ) (id : String) (box : Mailbox) (r : Message × Mailbox)
    → ingest_mail env w tenant id box ≡ some r
    → fits r.0 ≡ true
unfolding ingest_mail
ingest_mail-fits env w tenant id box r h =
    let same : stored_mail env w tenant id box ≡ r = ground arith in
    rw (← same) (stored_mail-fits env w tenant id box)

take_in-IsLinked :
    (env : Env) (w : MailWorld) (tenant : ℕ) (id : String) (p : PollResult)
    (o : Option (Message × Mailbox))
    → ingest_mail env w tenant id p.box ≡ o
    → IsLinked p.box
    → IsLinked (poll_result (take_in p o)).box
take_in-IsLinked env w tenant id p none e h = h
take_in-IsLinked env w tenant id p (some r) e h =
    let (grown, _) = ingest_mail-messages env w tenant id p.box r e in
    rw (mirrored-messages env w tenant r.0 r.1 ∙ grown) (
      ground (
        arith,
        h,
        ingest_mail-fits env w tenant id p.box r e,
        all-append fits p.box.messages (r.0 ∷ []),
      ))

poll_entry-IsLinked :
    (env : Env) (w : MailWorld) (tenant : ℕ) (s : Summary) (p : PollResult)
    → IsLinked p.box
    → IsLinked (poll_result (poll_entry env w tenant s p)).box
unfolding poll_entry
poll_entry-IsLinked env w tenant s p h = elim (Bool-cases (is_for_us w s)) [
  | inl a ↦ elim (Bool-cases (any (has_external s.id) p.box.messages)) [
    | inl b ↦ rw (poll_entry, a, b) h
    | inr b ↦
        rw (poll_entry, a, b)
          (take_in-IsLinked env w tenant s.id p (ingest_mail env w tenant s.id p.box) refl h)
  ]
  | inr a ↦ rw (poll_entry, a) h
]

poll_entries-IsLinked :
    (env : Env) (w : MailWorld) (tenant : ℕ) (list : List Summary) (p : PollResult)
    → IsLinked p.box
    → IsLinked (poll_result (poll_entries env w tenant list p)).box
unfolding poll_entries
poll_entries-IsLinked env w tenant [] p h = h
poll_entries-IsLinked env w tenant (s ∷ list) p h =
    go (poll_entry env w tenant s p) (poll_entry-IsLinked env w tenant s p h)
      (λ q. poll_entries-IsLinked env w tenant list q)
  where
    go :
        (o : Polled)
        → IsLinked (poll_result o).box
        → ((q : PollResult)
            → IsLinked q.box
            → IsLinked (poll_result (poll_entries env w tenant list q)).box)
        → IsLinked
            (poll_result (elim o [
              | polled q ↦ poll_entries env w tenant list q
              | poll_failed q ↦ poll_failed q
            ])).box
    go (polled q) k rest = rest q k
    go (poll_failed q) k rest = k

-- A human links the first message of that key.
relinked-IsLinked :
    (id case_id : ℕ) (messages : List Message) (m : Message)
    → find (λ x. x.id == id) messages ≡ some m
    → is_some m.case_id ≡ false
    → all fits messages ≡ true
    → all fits (update_message id (by_human case_id) messages) ≡ true
unfolding update_message
relinked-IsLinked id case_id [] m h k a = refl
relinked-IsLinked id case_id (x ∷ messages) m h k a =
    ground (arith, relinked-IsLinked id case_id messages m)

found_id :
    (id : ℕ) (messages : List Message) (m : Message)
    → find (λ x. x.id == id) messages ≡ some m
    → m.id ≡ id
found_id id [] m h = absurd (ground arith)
found_id id (x ∷ messages) m h = ground (arith, found_id id messages m)

relink_found-IsLinked :
    (w : MailWorld) (tenant case_id : ℕ) (box b : Mailbox) (m : Message)
    → IsLinked box
    → get_message m.id box ≡ some m
    → relink_found w tenant case_id box m ≡ relinked b
    → IsLinked b
relink_found-IsLinked w tenant case_id box b m h k e =
    let same : update_message m.id (by_human case_id) box.messages ≡ b.messages = ground arith in
    rw (← same) (relinked-IsLinked m.id case_id box.messages m k (ground arith) h)

relink-IsLinked :
    (w : MailWorld) (tenant pk case_id : ℕ) (box b : Mailbox)
    → IsLinked box
    → relink_message w tenant pk case_id box ≡ relinked b
    → IsLinked b
unfolding relink_message
relink-IsLinked w tenant pk case_id box b h e = elim (Option-cases (get_message pk box)) [
  | inl n ↦ absurd (ground (arith, n))
  | inr (m, y) ↦
      relink_found-IsLinked w tenant case_id box b m h
        (subst (λ i. get_message i box ≡ some m) (sym (found_id pk box.messages m y)) y)
        (ground (arith, y, e))
]

-- From a mailbox in which the status of every message is true of its case, sending, polling and relinking
-- lead only to such mailboxes, also where a send crashes after it queued its message or a poll fails,
-- where uuid4 gives a sent message a key that no message has.
pub Reaches-IsLinked : {start box : Mailbox} → IsLinked start → Reaches start box → IsLinked box
unfolding poll_once
Reaches-IsLinked h starts = h
Reaches-IsLinked h (sends env lib smtp req tenant r fresh) =
    send_email-IsLinked env lib smtp req tenant _ (Reaches-IsLinked h r) fresh
Reaches-IsLinked h (crashes env lib req tenant r e) =
    queue_email-IsLinked env lib req tenant _ _ _ (Reaches-IsLinked h r) e
Reaches-IsLinked h (polls {box = b} env w tenant list r) =
    poll_entries-IsLinked env w tenant list (start_poll b) (Reaches-IsLinked h r)
Reaches-IsLinked h (relinks w tenant pk case_id r e) =
    relink-IsLinked w tenant pk case_id _ _ (Reaches-IsLinked h r) e
