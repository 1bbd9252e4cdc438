-- ===== src/Outbox/Relay.antt =====
-- `OutboxRelay.drain_once` of libs/recoup-common/recoup_common/events/outbox.py. The publisher is a
-- parameter: for an event and a key it answers with the error that `publish` raises, if any, cut to 2000
-- characters. One relay runs, so that no row is locked by another.
use recoup.Common.{
  ℕ, ◌+◌, String, Bool, Option, none, some, List, [], ◌∷◌, take, filter, if◌then◌else◌, is_some,
  not, ◌==◌,
}
use recoup.Outbox.Rows.{OutboxRow, DomainEvent, to_event}

-- The table and the events that went out.
pub record Drained (P : Type 0) : Type 0 where
  pub rows : List (OutboxRow P)
  pub sent : List (DomainEvent P)

module _ {P : Type 0} where
  abbrev pub is_pending : OutboxRow P → Bool
  is_pending row = not (is_some row.published_at)

  -- `select … where published_at is null`; the table is kept in the order of its ids.
  abbrev pub pending : List (OutboxRow P) → List (OutboxRow P)
  pending rows = filter is_pending rows

  abbrev pub mark_published : ℕ → OutboxRow P → OutboxRow P
  mark_published now row = record row { published_at = some now; attempts = row.attempts + 1 }

  abbrev pub mark_failed : String → OutboxRow P → OutboxRow P
  mark_failed error row = record row { attempts = row.attempts + 1; last_error = some error }

  -- `update(model).where(model.id == id)`
  unfoldable pub update_row :
      ℕ → (OutboxRow P → OutboxRow P) → List (OutboxRow P) → List (OutboxRow P)
  update_row id f [] = []
  update_row id f (row ∷ rows) = (if row.id == id then f row else row) ∷ update_row id f rows

  abbrev sent_first : DomainEvent P → Drained P → Drained P
  sent_first event d = record d { sent = event ∷ d.sent }

  module _ (publish : DomainEvent P → ℕ → Option String) (now : ℕ) where
    -- The loop over the batch: it stops at the first failure.
    unfoldable pub publish_rows : List (OutboxRow P) → List (OutboxRow P) → Drained P
    unfolding update_row to_event
    publish_rows [] table = record { rows = table; sent = [] }
    publish_rows (row ∷ batch) table =
        let rest = publish_rows batch (update_row row.id (mark_published now) table) in
        elim (publish (to_event row) row.aggregate_id) [
          | some error ↦ record { rows = update_row row.id (mark_failed error) table; sent = [] }
          | none ↦ sent_first (to_event row) rest
        ]

    unfoldable pub drain_once : ℕ → List (OutboxRow P) → Drained P
    unfolding publish_rows
    drain_once batch_size table = publish_rows (take batch_size (pending table)) table
