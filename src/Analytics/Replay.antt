-- ===== src/Analytics/Replay.antt =====
-- Executing writes again (services/analytics/recoup_analytics/projector.py).
use recoup.Common.{
  ◌≡◌, refl, sym, ap, ◌∙◌, String, Option, none, some, List, [], ◌∷◌, All, or_else, if◌then◌else◌,
  arith, Bool-cases, inl, inr,
}
use mathlib.Core.Path.{fun_ext}
use recoup.Json.{Value, Fields, get_field}
use recoup.Analytics.Tables.{
  TableName, Row, Tables, Write, write_columns, hits, upserted, execute, execute_all, upsert,
  count_email,
}

-- The write of a statement to one row, once it is there: a function of the column.
unfoldable pub last_written : TableName → String → String → List Write → Option Value
last_written m j c [] = none
last_written m j c (upsert n k insert update ∷ writes) =
    let later = last_written m j c writes in
    if hits n k m j then or_else later (get_field c update) else later
last_written m j c (count_email k at ∷ writes) = last_written m j c writes

-- A statement that inserts what it would update, and counts nothing.
abbrev pub IsReplayable : Write → Type 0
IsReplayable (upsert n k insert update) =
    (c : String) (v : Value) → get_field c update ≡ some v → get_field c insert ≡ some v
IsReplayable (count_email k at) = ⊥

absorb :
    (l u x y : Option Value)
    → y ≡ or_else l x
    → ((v : Value) → u ≡ some v → x ≡ some v)
    → or_else (or_else l u) y ≡ y
absorb (some a) u x y h k = ground arith
absorb none none x y h k = ground arith
absorb none (some v) x y h k = ground (arith, h, k v refl)

-- A statement leaves in its row what it would update it to.
upserted-has :
    (insert update : Fields) (o : Option Row) (c : String)
    → ((v : Value) → get_field c update ≡ some v → get_field c insert ≡ some v)
    → (v : Value) → get_field c update ≡ some v
    → upserted insert update o c ≡ some v
upserted-has insert update none c k v h = ground (arith, k v h)
upserted-has insert update (some r) c k v h = ground (arith, h)

module _ (m : TableName) (j : String) where
  -- On a row that is there, the statements write the last value of each column.
  execute_all-row :
      (writes : List Write) (t : Tables) (r : Row)
      → All IsReplayable writes
      → t m j ≡ some r
      → (q : Row) × (execute_all writes t m j ≡ some q)
        × ((c : String) → q c ≡ or_else (last_written m j c writes) (r c))
  unfolding execute_all last_written execute
  execute_all-row [] t r x h = (r, h, λ c. refl)
  execute_all-row (upsert n k insert update ∷ writes) t r (x, rest) h =
      elim (Bool-cases (hits n k m j)) [
        | inl y ↦
            let (q, e, f) =
              execute_all-row writes (execute (upsert n k insert update) t) (write_columns update r)
                rest (rw (y, h) refl) in
            (q, e, λ c. ground (arith, y, f c))
        | inr z ↦
            let (q, e, f) =
              execute_all-row writes (execute (upsert n k insert update) t) r rest (rw z h) in
            (q, e, λ c. ground (arith, z, f c))
      ]
  execute_all-row (count_email k at ∷ writes) t r (x, rest) h = absurd x

  -- A row that the statements leave has the last value of each column.
  abbrev Settled : List Write → Row → Type 0
  Settled writes q = (c : String) → or_else (last_written m j c writes) (q c) ≡ q c

  execute_all-Settled :
      (writes : List Write) (t : Tables) (q : Row)
      → All IsReplayable writes
      → execute_all writes t m j ≡ some q
      → Settled writes q
  unfolding execute_all last_written execute
  execute_all-Settled [] t q x h = λ c. refl
  execute_all-Settled (upsert n k insert update ∷ writes) t q (x, rest) h =
      elim (Bool-cases (hits n k m j)) [
        | inl y ↦
            let r = upserted insert update (t m j) in
            let (p, e, f) =
              execute_all-row writes (execute (upsert n k insert update) t) r rest (rw y refl) in
            let same : p ≡ q = ground (arith, e, h) in
            λ c. rw y (
              absorb (last_written m j c writes) (get_field c update) (r c) (q c)
                (ap (λ g. g c) (sym same) ∙ f c) (upserted-has insert update (t m j) c (x c)))
        | inr z ↦ λ c.
            ground (
              arith,
              z,
              execute_all-Settled writes (execute (upsert n k insert update) t) q rest h c,
            )
      ]
  execute_all-Settled (count_email k at ∷ writes) t q (x, rest) h = absurd x

  execute_all-none :
      (writes : List Write) (t u : Tables)
      → All IsReplayable writes
      → execute_all writes t m j ≡ none
      → u m j ≡ none
      → execute_all writes u m j ≡ none
  unfolding execute_all execute
  execute_all-none [] t u x h k = k
  execute_all-none (upsert n k insert update ∷ writes) t u (x, rest) h g =
      elim (Bool-cases (hits n k m j)) [
        | inl y ↦
            let (p, e, f) =
              execute_all-row writes (execute (upsert n k insert update) t)
                (upserted insert update (t m j)) rest (rw y refl) in
            absurd (ground (arith, e, h))
        | inr z ↦
            execute_all-none writes (execute (upsert n k insert update) t)
              (execute (upsert n k insert update) u) rest h (rw z g)
      ]
  execute_all-none (count_email k at ∷ writes) t u (x, rest) h g = absurd x

  again_at :
      (writes : List Write) (t : Tables) (o : Option Row)
      → All IsReplayable writes
      → execute_all writes t m j ≡ o
      → execute_all writes (execute_all writes t) m j ≡ execute_all writes t m j
  again_at writes t none x h = execute_all-none writes t (execute_all writes t) x h h ∙ sym h
  again_at writes t (some q) x h =
      let (p, e, f) = execute_all-row writes (execute_all writes t) q x h in
      e ∙ ap some (fun_ext (λ c. f c ∙ execute_all-Settled writes t q x h c)) ∙ sym h

-- Statements that insert what they would update and count nothing can be executed again, all of them in
-- their order: the tables stay as they are.
pub execute_all_again :
    (writes : List Write) (t : Tables)
    → All IsReplayable writes
    → execute_all writes (execute_all writes t) ≡ execute_all writes t
execute_all_again writes t x =
    fun_ext (λ m. fun_ext (λ j. again_at m j writes t (execute_all writes t m j) x refl))
