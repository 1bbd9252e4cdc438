-- ===== src/Case/Trace.antt =====
-- What a transaction leaves on the timeline and in the outbox: entries are only ever appended, and
-- replaying the recorded changes of status gives the status of the case.
use recoup.Common.{◌≡◌, refl, ◌∙◌, ap, List, [], ◌∷◌, ◌++◌, append_assoc}
use recoup.Outbox.{OutboxRow}
use recoup.Case.Status.{CaseStatus}
use recoup.Case.Records.{
  TimelineEvent, Payload, EventData, EventPayload, state_change, state_changed,
}
use recoup.Case.Lifecycle.{◌⟶*◌, here, after}
use recoup.Case.Transaction.{Session}

-- The status after the changes that the service recorded on the timeline.
abbrev pub after_entry : CaseStatus → Payload → CaseStatus
after_entry s (state_change src to reason) = to
after_entry s _ = s

unfoldable pub replay_timeline : CaseStatus → List TimelineEvent → CaseStatus
replay_timeline s [] = s
replay_timeline s (e ∷ es) = replay_timeline (after_entry s e.payload) es

-- The status that a consumer of the events has seen last.
abbrev pub after_event : CaseStatus → EventData → CaseStatus
after_event s (state_changed src to reason actor) = to
after_event s _ = s

unfoldable pub replay_outbox : CaseStatus → List (OutboxRow EventPayload) → CaseStatus
replay_outbox s [] = s
replay_outbox s (r ∷ rs) = replay_outbox (after_event s r.payload.event_data) rs

pub replay_timeline-append :
    (s : CaseStatus) (xs ys : List TimelineEvent)
    → replay_timeline s (xs ++ ys) ≡ replay_timeline (replay_timeline s xs) ys
unfolding replay_timeline
replay_timeline-append s [] ys = refl
replay_timeline-append s (e ∷ es) ys = replay_timeline-append (after_entry s e.payload) es ys

pub replay_outbox-append :
    (s : CaseStatus) (xs ys : List (OutboxRow EventPayload))
    → replay_outbox s (xs ++ ys) ≡ replay_outbox (replay_outbox s xs) ys
unfolding replay_outbox
replay_outbox-append s [] ys = refl
replay_outbox-append s (r ∷ rs) ys = replay_outbox-append (after_event s r.payload.event_data) rs ys

pub ⟶*-trans : {s t u : CaseStatus} → s ⟶* t → t ⟶* u → s ⟶* u
⟶*-trans here r = r
⟶*-trans (after st r) r' = after st (⟶*-trans r r')

-- From `s` to `s'` a transaction has appended `entries` and `rows`, and these say how the status
-- moved. The case is still the same one.
pub record Traces (s s' : Session) : Type 0 where
  pub entries : List TimelineEvent
  pub rows : List (OutboxRow EventPayload)
  pub timeline_grows : s'.timeline ≡ s.timeline ++ entries
  pub outbox_grows : s'.outbox ≡ s.outbox ++ rows
  pub timeline_tells : replay_timeline s.case.status entries ≡ s'.case.status
  pub outbox_tells : replay_outbox s.case.status rows ≡ s'.case.status
  pub moves : s.case.status ⟶* s'.case.status
  pub same_case : s'.case.id ≡ s.case.id
  pub same_tenant : s'.case.tenant_id ≡ s.case.tenant_id

pub Traces-trans : {s t u : Session} → Traces s t → Traces t u → Traces s u
Traces-trans {s} {t} {u} h k = record {
  entries = h.entries ++ k.entries;
  rows = h.rows ++ k.rows;
  timeline_grows =
      k.timeline_grows
      ∙ ap (λ l. l ++ k.entries) h.timeline_grows
      ∙ append_assoc s.timeline h.entries k.entries;
  outbox_grows =
      k.outbox_grows ∙ ap (λ l. l ++ k.rows) h.outbox_grows ∙ append_assoc s.outbox h.rows k.rows;
  timeline_tells =
      replay_timeline-append s.case.status h.entries k.entries
      ∙ ap (λ x. replay_timeline x k.entries) h.timeline_tells
      ∙ k.timeline_tells;
  outbox_tells =
      replay_outbox-append s.case.status h.rows k.rows
      ∙ ap (λ x. replay_outbox x k.rows) h.outbox_tells
      ∙ k.outbox_tells;
  moves = ⟶*-trans h.moves k.moves;
  same_case = k.same_case ∙ h.same_case;
  same_tenant = k.same_tenant ∙ h.same_tenant;
}
