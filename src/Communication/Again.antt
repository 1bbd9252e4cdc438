-- ===== src/Communication/Again.antt =====
-- A second poll over the same mail (services/communication).
use recoup.Common.{
  ℕ, ◌+◌, ◌≡◌, refl, subst, ap, ◌∙◌, String, true, not, ◌||◌, Option, none, some, List, [], ◌∷◌,
  ◌++◌, any, any-append, length, str_eq_iff, All, arith, Bool-cases, Option-cases, inl, inr,
}
use recoup.Outbox.{Env}
use recoup.Communication.Mailbox.{Message, Mailbox}
use recoup.Communication.Inbound.{
  Summary, Mail, MailWorld, Link, link, ingest_mail, stored_mail, PollResult, Polled, is_for_us,
  has_external, scan, count_in, take_in, placed, store_in, mirror_to_case, start_poll, poll_entry,
  poll_entries, poll_once, polled, poll_failed,
}

-- The poll has nothing to do for the entry.
abbrev pub Settled : MailWorld → Mailbox → Summary → Type 0
Settled w box s = (not (is_for_us w s) || any (has_external s.id) box.messages) ≡ true

module _ (env : Env) (w : MailWorld) (tenant : ℕ) where
  abbrev Later : Mailbox → Mailbox → Summary → Type 0
  Later box box' s =
      Settled w box' s × ((other : Summary) → Settled w box other → Settled w box' other)

  -- A message at the end of the table unsettles nothing.
  appended-Settled :
      (s : Summary) (box box' : Mailbox) (new : List Message)
      → box'.messages ≡ box.messages ++ new
      → Settled w box s
      → Settled w box' s
  appended-Settled s box box' new h k =
      ground (arith, any-append (has_external s.id) box.messages new, h, k)

  placed-messages :
      (mail : Mail) (l : Link) (box : Mailbox)
      → (placed env tenant mail l box).box.messages ≡ box.messages
  placed-messages mail l box = elim (Option-cases l.thread) [
    | inl n ↦ rw n refl
    | inr (t, y) ↦ rw y refl
  ]

  stored_mail-messages :
      (id : String) (box : Mailbox)
      → ((stored_mail env w tenant id box).1.messages
          ≡ box.messages ++ ((stored_mail env w tenant id box).0 ∷ []))
        × (has_external id (stored_mail env w tenant id box).0 ≡ true)
  unfolding stored_mail
  stored_mail-messages id box =
      let mail = w.get_message id in
      let l = link w tenant mail box in
      (
        ap (λ ms. ms ++ ((store_in env tenant id mail l (placed env tenant mail l box)).0 ∷ []))
            (placed-messages mail l box),
        ground (arith, str_eq_iff id id),
      )

  -- The messages after a mail that was taken in.
  pub ingest_mail-messages :
      (id : String) (box : Mailbox) (r : Message × Mailbox)
      → ingest_mail env w tenant id box ≡ some r
      → (r.1.messages ≡ box.messages ++ (r.0 ∷ [])) × (has_external id r.0 ≡ true)
  unfolding ingest_mail
  ingest_mail-messages id box r h =
      let same : stored_mail env w tenant id box ≡ r = ground arith in
      rw (← same) (stored_mail-messages id box)

  pub mirrored-messages :
      (m : Message) (box : Mailbox) → (mirror_to_case m box).messages ≡ box.messages
  mirrored-messages m box = elim (Option-cases m.case_id) [
    | inl n ↦ rw n refl
    | inr (c, y) ↦ rw y refl
  ]

  -- After an entry there is nothing to do for it, and nothing new for the others.
  taken-Later :
      (s : Summary) (p q : PollResult) (o : Option (Message × Mailbox))
      → ingest_mail env w tenant s.id p.box ≡ o
      → take_in p o ≡ polled q
      → Later p.box q.box s
  taken-Later s p q none e h = absurd (ground arith)
  taken-Later s p q (some r) e h =
      let same : count_in r.0 r.1 p ≡ q = ground arith in
      let (grown, own) = ingest_mail-messages s.id p.box r e in
      let all_of : (mirror_to_case r.0 r.1).messages ≡ p.box.messages ++ (r.0 ∷ []) =
        mirrored-messages r.0 r.1 ∙ grown in
      rw (← same) (
        ground (arith, all_of, own, any-append (has_external s.id) p.box.messages (r.0 ∷ [])),
        λ other k. appended-Settled other p.box (mirror_to_case r.0 r.1) (r.0 ∷ []) all_of k,
      )

  entry-Later :
      (s : Summary) (p q : PollResult)
      → poll_entry env w tenant s p ≡ polled q
      → Later p.box q.box s
  unfolding poll_entry
  entry-Later s p q h = elim (Bool-cases (is_for_us w s)) [
    | inl a ↦ elim (Bool-cases (any (has_external s.id) p.box.messages)) [
      | inl b ↦
          let same : p.box ≡ q.box = ground arith in rw (← same) (ground (arith, b), λ other k. k)
      | inr b ↦ taken-Later s p q (ingest_mail env w tenant s.id p.box) refl (ground arith)
    ]
    | inr a ↦
        let same : p.box ≡ q.box = ground arith in rw (← same) (ground (arith, a), λ other k. k)
  ]

  entries_first :
      (s : Summary) (list : List Summary) (p q : PollResult) (o : Polled)
      → poll_entry env w tenant s p ≡ o
      → poll_entries env w tenant (s ∷ list) p ≡ polled q
      → (m : PollResult) × (poll_entry env w tenant s p ≡ polled m)
        × (poll_entries env w tenant list m ≡ polled q)
  unfolding poll_entries
  entries_first s list p q (polled m) e h = (m, e, ground arith)
  entries_first s list p q (poll_failed m) e h = absurd (ground arith)

  entries-Settled :
      (list : List Summary) (p q : PollResult)
      → poll_entries env w tenant list p ≡ polled q
      → All (Settled w q.box) list
        × ((other : Summary) → Settled w p.box other → Settled w q.box other)
  unfolding poll_entries
  entries-Settled [] p q h =
      let same : p.box ≡ q.box = ground arith in
      (tt, λ other k. subst (λ b. Settled w b other) same k)
  entries-Settled (s ∷ list) p q h =
      let (m, first, others) = entries_first s list p q _ refl h in
      let (own, keeps) = entry-Later s p m first in
      let (all_rest, keeps') = entries-Settled list m q others in
      ((keeps' s own, all_rest), λ other k. keeps' other (keeps other k))

  Settled-scans :
      (list : List Summary) (p : PollResult)
      → All (Settled w p.box) list
      → poll_entries env w tenant list p ≡ polled (record p { scanned = p.scanned + length list })
  unfolding poll_entries poll_entry
  Settled-scans [] p h = ground arith
  Settled-scans (s ∷ list) p h = ground (arith, Settled-scans list (scan p) h.1)

-- When a poll has gone through its list, a second one over the same list, at whatever time, scans it
-- again and takes nothing in: no message, thread, event or note is added.
pub poll_once_again :
    (env later : Env) (w : MailWorld) (tenant : ℕ) (list : List Summary) (box : Mailbox)
    (q : PollResult)
    → poll_once env w tenant list box ≡ polled q
    → poll_once later w tenant list q.box
      ≡ polled
          (record { box = q.box; scanned = length list; ingested = 0; linked = 0; unlinked = 0 })
unfolding poll_once
poll_once_again env later w tenant list box q h = ground (
  arith,
  Settled-scans later w tenant list (start_poll q.box)
      (entries-Settled env w tenant list (start_poll box) q h).0,
)
