-- ===== src/Case/History.antt =====
-- Requests on the tables of the case service, one transaction after another: the timeline and the
-- outbox are append-only, a case keeps its tenant, and its status moves along the transitions.
use recoup.Common.{
  ℕ, ◌≡◌, refl, ◌∙◌, ap, sym, subst, true, Option, none, some, List, [], ◌∷◌, ◌++◌, arith, ◌==◌,
  if◌then◌else◌, append_assoc, inl, inr, Bool-cases, ==→eq,
}
use mathlib.Core.List.{append-nil}
use recoup.Outbox.{Env, OutboxRow}
use recoup.Case.Status.{is_terminal}
use recoup.Case.Records.{Case, TimelineEvent, EventPayload}
use recoup.Case.Lifecycle.{◌⟶*◌, here, closed_is_final}
use recoup.Case.Transaction.{Tx, Session, Result, ok, err, run}
use recoup.Case.Store.{
  Store, settle, on_loaded, committed, find_case, get_case, put_case, open_session, close_session,
  on_case,
}
use recoup.Case.Requests.{Request, is_permitted, perform, handle, handle_all}
use recoup.Case.Trace.{Traces, ⟶*-trans}
use recoup.Case.Traced.{Traced, Leaves, Traced-bind, Traced-seq, Traced-flush, Traced-pure}
use recoup.Case.Audit.{Traced-perform}

pub find_case-id : (k : ℕ) (cs : List Case) {c : Case} → find_case k cs ≡ some c → c.id ≡ k
unfolding find_case
find_case-id k [] h = cc
find_case-id k (d ∷ cs) {c} h = ground (arith, find_case-id k cs {c = c})

abbrev pub replaced : Case → Option Case → Option Case
replaced c none = none
replaced c (some d) = if d.id == c.id then some c else some d

pub find_case-put_case :
    (k : ℕ) (c : Case) (cs : List Case) → find_case k (put_case c cs) ≡ replaced c (find_case k cs)
unfolding find_case put_case
find_case-put_case k c [] = refl
find_case-put_case k c (d ∷ cs) = ground (arith, find_case-put_case k c cs)

-- What a stretch of requests may do to the tables.
pub record Audited (st st' : Store) : Type 0 where
  pub entries : List TimelineEvent
  pub rows : List (OutboxRow EventPayload)
  pub timeline_grows : st'.timeline ≡ st.timeline ++ entries
  pub outbox_grows : st'.outbox ≡ st.outbox ++ rows
  pub lives :
      (k : ℕ) (c : Case)
      → find_case k st.cases ≡ some c
      → (c' : Case) × (find_case k st'.cases ≡ some c')
        × (c.status ⟶* c'.status)
        × (c'.tenant_id ≡ c.tenant_id)

pub Audited-refl : (st : Store) → Audited st st
Audited-refl st = record {
  entries = [];
  rows = [];
  timeline_grows = sym (append-nil st.timeline);
  outbox_grows = sym (append-nil st.outbox);
  lives = λ k c h. (c, h, here, refl);
}

pub Audited-trans : {st st' st'' : Store} → Audited st st' → Audited st' st'' → Audited st st''
Audited-trans {st} h g = record {
  entries = h.entries ++ g.entries;
  rows = h.rows ++ g.rows;
  timeline_grows =
      g.timeline_grows
      ∙ ap (λ l. l ++ g.entries) h.timeline_grows
      ∙ append_assoc st.timeline h.entries g.entries;
  outbox_grows =
      g.outbox_grows ∙ ap (λ l. l ++ g.rows) h.outbox_grows ∙ append_assoc st.outbox h.rows g.rows;
  lives = λ k c e.
      let (c', e', m, t) = h.lives k c e in
      let (c'', e'', m', t') = g.lives k c' e' in (c'', e'', ⟶*-trans m m', t' ∙ t);
}

pub same_row :
    (j k : ℕ) (e : Case) {c d : Case} (cs : List Case)
    → find_case k cs ≡ some c
    → find_case j cs ≡ some d
    → e.id ≡ c.id
    → (d.id == e.id) ≡ true
    → d ≡ c
same_row j k e {c} {d} cs hc hd i t =
    let jk : j ≡ k = sym (find_case-id j cs hd) ∙ ==→eq d.id e.id t ∙ i ∙ find_case-id k cs hc in
    cc (ap (λ x. find_case x cs) jk)

-- A committed session writes its case back.
close_session-Audited :
    (st : Store) (k : ℕ) (c : Case) (s : Session)
    → find_case k st.cases ≡ some c
    → Traces (open_session st c) s
    → Audited st (close_session st s)
close_session-Audited st k c s e t = record {
  entries = t.entries;
  rows = t.rows;
  timeline_grows = t.timeline_grows;
  outbox_grows = t.outbox_grows;
  lives = λ j d h. elim (Bool-cases (d.id == s.case.id)) [
    | inl y ↦
        let same : c ≡ d = sym (same_row j k s.case st.cases e h t.same_case y) in
        (
          s.case,
          find_case-put_case j s.case st.cases ∙ rw (h, replaced) (rw y),
          subst (λ x. x.status ⟶* s.case.status) same t.moves,
          t.same_tenant ∙ ap (λ (x : Case). x.tenant_id) same,
        )
    | inr n ↦ (d, find_case-put_case j s.case st.cases ∙ rw (h, replaced) (rw n), here, refl)
  ];
}

pub find_case_of_get_case :
    (tenant_id case_id : ℕ) (st : Store) {c : Case}
    → get_case tenant_id case_id st ≡ ok c
    → (find_case case_id st.cases ≡ some c) × (c.tenant_id ≡ tenant_id)
unfolding get_case
find_case_of_get_case tenant_id case_id st h = ground arith

settle-Audited :
    {A : Type 0} (st : Store) (k : ℕ) (c : Case) (r : Result (A × Session))
    → find_case k st.cases ≡ some c
    → Leaves (open_session st c) r
    → Audited st (settle st r).1
settle-Audited st k c (ok p) h t = close_session-Audited st k c p.1 h t
settle-Audited st k c (err e) h t = Audited-refl st

module _ (env : Env) where
  pub Traced-committed : {A : Type 0} (m : Tx A) → Traced m → Traced (committed env m)
  unfolding committed
  Traced-committed m k = search (Traced-bind, Traced-seq, Traced-flush, Traced-pure)

  on_loaded-Audited :
      {A : Type 0} (tenant_id case_id : ℕ) (m : Tx A) (st : Store) (r : Result Case)
      → Traced m
      → get_case tenant_id case_id st ≡ r
      → Audited st (on_loaded env m st r).1
  unfolding run
  on_loaded-Audited tenant_id case_id m st (err e) k h = Audited-refl st
  on_loaded-Audited tenant_id case_id m st (ok c) k h =
      settle-Audited st case_id c _ (find_case_of_get_case tenant_id case_id st h).0
        ((Traced-committed m k).at (open_session st c))

  handle-Audited :
      (tenant_id case_id : ℕ) (r : Request) (st : Store)
      → Audited st (handle env tenant_id case_id r st).1
  unfolding handle on_case
  handle-Audited tenant_id case_id r st = elim (Bool-cases (is_permitted r)) [
    | inl y ↦
        rw (handle, y)
          (on_loaded-Audited tenant_id case_id (perform env r) st _ (Traced-perform env r) refl)
    | inr n ↦ rw (handle, n) (Audited-refl st)
  ]

  -- Any requests of any tenants on any cases, one after another: entries are only added to the
  -- timeline and rows to the outbox, and every case keeps its tenant and has moved from its old
  -- status to the new one along legal transitions.
  pub handle_all-Audited :
      (requests : List (ℕ × ℕ × Request)) (st : Store) → Audited st (handle_all env requests st)
  unfolding handle_all
  handle_all-Audited [] st = Audited-refl st
  handle_all-Audited ((tenant_id, case_id, r) ∷ rest) st =
      Audited-trans (handle-Audited tenant_id case_id r st)
        (handle_all-Audited rest (handle env tenant_id case_id r st).1)

  -- A closed case is never reopened: after any requests a case that was RESOLVED or WRITTEN_OFF has
  -- the status that it had.
  pub closed_case_stays_closed :
      (requests : List (ℕ × ℕ × Request)) (st : Store) (k : ℕ) {c : Case}
      → find_case k st.cases ≡ some c
      → is_terminal c.status ≡ true
      → (c' : Case) × (find_case k (handle_all env requests st).cases ≡ some c')
        × (c'.status ≡ c.status)
  closed_case_stays_closed requests st k {c} h t =
      let (c', h', m, same) = (handle_all-Audited requests st).lives k c h in
      (c', h', closed_is_final t m)
