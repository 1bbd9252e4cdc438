-- ===== src/Outbox/Order.antt =====
-- The order in which `drain_once` publishes (libs/recoup-common/recoup_common/events/outbox.py).
use recoup.Common.{
  ℕ, zero, suc, ◌<◌, ◌≡◌, refl, sym, subst, ==_self, ap, ◌∙◌, String, Bool, true, false, Option,
  List, [], ◌∷◌, ◌++◌, map, take, All, if◌then◌else◌, ◌==◌, arith, Bool-cases, Option-cases, inl,
  inr,
}
use recoup.Outbox.Rows.{OutboxRow, DomainEvent, to_event}
use recoup.Outbox.Relay.{
  is_pending, pending, mark_published, mark_failed, update_row, publish_rows, drain_once,
}

-- Some list continues the first rows.
take-rest {ℓ} : {A : Type ℓ} (n : ℕ) (xs : List A) → (rest : List A) × (xs ≡ take n xs ++ rest)
take-rest zero xs = (xs, refl)
take-rest (suc n) [] = ([], refl)
take-rest (suc n) (x ∷ xs) = ((take-rest n xs).0, ap (λ ys. x ∷ ys) (take-rest n xs).1)

module _ {P : Type 0} where
  -- The table is in the order of its ids.
  abbrev pub IsAscending : List (OutboxRow P) → Type 0
  IsAscending [] = Unit
  IsAscending (x ∷ xs) = All (λ y. x.id < y.id) xs × IsAscending xs

  -- An update finds no row where all ids are larger.
  update_row-past :
      (i : ℕ) (f : OutboxRow P → OutboxRow P) (xs : List (OutboxRow P))
      → All (λ y. i < y.id) xs
      → update_row i f xs ≡ xs
  unfolding update_row
  update_row-past i f [] h = refl
  update_row-past i f (x ∷ xs) (h, k) = ground (arith, update_row-past i f xs k)

  All-update :
      (i j : ℕ) (f : OutboxRow P → OutboxRow P) (xs : List (OutboxRow P))
      → ((r : OutboxRow P) → (f r).id ≡ r.id)
      → All (λ y. j < y.id) xs
      → All (λ y. j < y.id) (update_row i f xs)
  unfolding update_row
  All-update i j f [] keep h = tt
  All-update i j f (x ∷ xs) keep (h, k) = ground (arith, keep x, All-update i j f xs keep k)

  id_kept :
      (b : Bool) (f : OutboxRow P → OutboxRow P) (x : OutboxRow P)
      → ((r : OutboxRow P) → (f r).id ≡ r.id)
      → (if b then f x else x).id ≡ x.id
  id_kept true f x keep = keep x
  id_kept false f x keep = refl

  update-IsAscending :
      (i : ℕ) (f : OutboxRow P → OutboxRow P) (xs : List (OutboxRow P))
      → ((r : OutboxRow P) → (f r).id ≡ r.id)
      → IsAscending xs
      → IsAscending (update_row i f xs)
  unfolding update_row
  update-IsAscending i f [] keep h = tt
  update-IsAscending i f (x ∷ xs) keep (h, k) = (
    subst (λ j. All (λ y. j < y.id) (update_row i f xs)) (sym (id_kept (x.id == i) f x keep))
        (All-update i x.id f xs keep h),
    update-IsAscending i f xs keep k,
  )

  -- The published row is no longer pending, and the others are.
  pending-published :
      (now : ℕ) (r : OutboxRow P) (xs rest : List (OutboxRow P))
      → IsAscending xs
      → pending xs ≡ r ∷ rest
      → pending (update_row r.id (mark_published now) xs) ≡ rest
  unfolding update_row
  pending-published now r [] rest s h = cc
  pending-published now r (x ∷ xs) rest (s, t) h = elim (Bool-cases (is_pending x)) [
    | inl y ↦ ground (arith, ==_self x.id, update_row-past x.id (mark_published now) xs s)
    | inr n ↦ ground (arith, pending-published now r xs rest t)
  ]

  pending-failed :
      (i : ℕ) (error : String) (xs : List (OutboxRow P))
      → map to_event (pending (update_row i (mark_failed error) xs)) ≡ map to_event (pending xs)
  unfolding update_row to_event
  pending-failed i error [] = refl
  pending-failed i error (x ∷ xs) = ground (arith, pending-failed i error xs)

  -- What is pending before is what the loop sends, and what is pending after it.
  publish_rows-pending :
      (publish : DomainEvent P → ℕ → Option String) (now : ℕ)
      (batch table rest : List (OutboxRow P))
      → IsAscending table
      → pending table ≡ batch ++ rest
      → map to_event (pending table)
        ≡ (publish_rows publish now batch table).sent
          ++ map to_event (pending (publish_rows publish now batch table).rows)
  unfolding publish_rows
  publish_rows-pending publish now [] table rest s h = refl
  publish_rows-pending publish now (r ∷ batch) table rest s h =
      elim (Option-cases (publish (to_event r) r.aggregate_id)) [
        | inl n ↦
            let p = pending-published now r table (batch ++ rest) s h in
            rw (publish_rows, n)
              (ap (map to_event) h
                ∙ ap (λ ys. to_event r ∷ map to_event ys) (sym p)
                ∙ ap (λ ys. to_event r ∷ ys)
                    (publish_rows-pending publish now batch
                      (update_row r.id (mark_published now) table) rest
                      (update-IsAscending r.id (mark_published now) table (λ x. refl) s) p))
        | inr (e, y) ↦ rw (publish_rows, y) (sym (pending-failed r.id e table))
      ]

  -- Draining a table in the order of its ids keeps the order of its events: those that were pending are
  -- those that went out, followed by those that are pending afterwards; none is lost, none goes out
  -- twice, and none overtakes another.
  pub drain_once-pending :
      (publish : DomainEvent P → ℕ → Option String) (now batch_size : ℕ)
      (table : List (OutboxRow P))
      → IsAscending table
      → map to_event (pending table)
        ≡ (drain_once publish now batch_size table).sent
          ++ map to_event (pending (drain_once publish now batch_size table).rows)
  unfolding drain_once
  drain_once-pending publish now n table s =
      publish_rows-pending publish now (take n (pending table)) table
        (take-rest n (pending table)).0 s (take-rest n (pending table)).1
