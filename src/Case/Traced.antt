-- ===== src/Case/Traced.antt =====
-- Which transactions of the case service keep the record of `Case/Trace`: a rule for each way to
-- build one.
use recoup.Common.{
  ℕ, length, String, ◌≡◌, refl, sym, subst, Bool, true, false, Option, none, some, List, [], ◌∷◌,
}
use mathlib.Core.List.{append-nil}
use recoup.Outbox.{Env, OutboxRow}
use recoup.Case.Status.{CaseStatus}
use recoup.Case.Records
use recoup.Case.Records.{Case, Actor, TimelineEvent, Title, Payload, EventData, EventPayload}
use recoup.Case.Lifecycle.{◌⟶*◌, here}
use recoup.Case.Transaction.{
  Tx, ◌>>=◌, ◌>>◌, Session, Result, ok, err, Error, pure, raise_if, when, raise, or_raise,
  modify_actions, gets, modify_case, flush, touch, add_timeline, emit, run, touched, write_case,
  timeline_event,
}
use recoup.Case.Trace.{
  Traces, Traces-trans, after_entry, after_event, replay_timeline, replay_outbox,
}

-- A call that returns has kept the record; one that raises has left nothing.
abbrev pub Leaves : {A : Type 0} → Session → Result (A × Session) → Type 0
Leaves s (ok p) = Traces s p.1
Leaves s (err e) = Unit

pub record Traced {A : Type 0} (m : Tx A) : Type 0 where
  pub at : (s : Session) → Leaves s (m s)

pub Traces-refl : (s : Session) → Traces s s
unfolding replay_timeline replay_outbox
Traces-refl s = record {
  entries = [];
  rows = [];
  timeline_grows = sym (append-nil s.timeline);
  outbox_grows = sym (append-nil s.outbox);
  timeline_tells = refl;
  outbox_tells = refl;
  moves = here;
  same_case = refl;
  same_tenant = refl;
}

Leaves-trans :
    {A : Type 0} {s t : Session} (r : Result (A × Session)) → Traces s t → Leaves t r → Leaves s r
Leaves-trans (ok p) h k = Traces-trans h k
Leaves-trans (err e) h k = tt

module _ {A : Type 0} where
  pub Traced-pure : (a : A) → Traced (pure a)
  unfolding run
  Traced-pure a = record { at = λ s. Traces-refl s }

  pub Traced-raise : (e : Error) → Traced (raise {A = A} e)
  unfolding run
  Traced-raise e = record { at = λ s. tt }

  pub Traced-gets : (f : Session → A) → Traced (gets f)
  unfolding run
  Traced-gets f = record { at = λ s. Traces-refl s }

pub Traced-or_raise : {A : Type 0} (o : Option A) (e : Error) → Traced (or_raise o e)
unfolding run
Traced-or_raise none e = record { at = λ s. tt }
Traced-or_raise (some a) e = record { at = λ s. Traces-refl s }

-- The table of actions is not part of the record.
pub Traced-modify_actions :
    (f : List Records.ProposedAction → List Records.ProposedAction) → Traced (modify_actions f)
unfolding run
Traced-modify_actions f = record {
  at = λ s.
      let t = Traces-refl s in
      record {
        entries = t.entries;
        rows = t.rows;
        timeline_grows = t.timeline_grows;
        outbox_grows = t.outbox_grows;
        timeline_tells = t.timeline_tells;
        outbox_tells = t.outbox_tells;
        moves = t.moves;
        same_case = t.same_case;
        same_tenant = t.same_tenant;
      };
}

pub Traced-raise_if : (b : Bool) (e : Error) → Traced (raise_if b e)
unfolding run
Traced-raise_if true e = record { at = λ s. tt }
Traced-raise_if false e = record { at = λ s. Traces-refl s }

pub Traced-when : (b : Bool) (m : Tx (Unit {0})) → Traced m → Traced (when b m)
unfolding run
Traced-when true m k = record { at = λ s. k.at s }
Traced-when false m k = record { at = λ s. Traces-refl s }

bind_result :
    {A B : Type 0} (s : Session) (r : Result (A × Session)) (f : A → Tx B)
    → ((a : A) → Traced (f a))
    → Leaves s r
    → Leaves s (elim r as (λ _. Result (B × Session)) [ ok p ↦ f p.0 p.1 | err e ↦ err e ])
bind_result s (ok p) f k h = Leaves-trans (f p.0 p.1) h ((k p.0).at p.1)
bind_result s (err x) f k h = tt

pub Traced-bind :
    {A B : Type 0} (m : Tx A) (f : A → Tx B)
    → Traced m
    → ((a : A) → Traced (f a))
    → Traced (m >>= f)
unfolding run
Traced-bind m f k l = record { at = λ s. bind_result s (m s) f l (k.at s) }

pub Traced-seq : {A B : Type 0} (m : Tx A) (n : Tx B) → Traced m → Traced n → Traced (m >> n)
unfolding ◌>>◌
Traced-seq m n k l = Traced-bind m (λ _. n) k (λ _. l)

-- An assignment that leaves the status and the ids alone.
pub Traced-modify_case :
    (f : Case → Case)
    → ((c : Case) → ((f c).status ≡ c.status) × ((f c).id ≡ c.id) × ((f c).tenant_id ≡ c.tenant_id))
    → Traced (modify_case f)
unfolding run replay_timeline replay_outbox
Traced-modify_case f keep = record {
  at = λ s. record {
    entries = [];
    rows = [];
    timeline_grows = sym (append-nil s.timeline);
    outbox_grows = sym (append-nil s.outbox);
    timeline_tells = sym (keep s.case).0;
    outbox_tells = sym (keep s.case).0;
    moves = subst (λ x. s.case.status ⟶* x) (sym (keep s.case).0) here;
    same_case = (keep s.case).1;
    same_tenant = (keep s.case).2;
  };
}

module _ (env : Env) where
  Traced-write_case : Traced (write_case env)
  unfolding run replay_timeline replay_outbox
  Traced-write_case = record {
    at = λ s. record {
      entries = [];
      rows = [];
      timeline_grows = sym (append-nil s.timeline);
      outbox_grows = sym (append-nil s.outbox);
      timeline_tells = refl;
      outbox_tells = refl;
      moves = here;
      same_case = refl;
      same_tenant = refl;
    };
  }

  pub Traced-flush : Traced (flush env)
  unfolding flush
  Traced-flush = search (Traced-bind, Traced-gets, Traced-when, Traced-write_case)

  Traced-touched : Traced (modify_case (touched env))
  Traced-touched = Traced-modify_case (touched env) (λ c. (refl, refl, refl))

  pub Traced-touch : (v : Option ℕ) → Traced (touch env v)
  unfolding touch
  Traced-touch none = Traced-touched
  Traced-touch (some v) =
      search (Traced-bind, Traced-seq, Traced-gets, Traced-raise_if, Traced-touched)

  -- The row that `emit` adds behind `before`.
  abbrev pub event_row :
      Session → List (OutboxRow EventPayload) → String → EventData → OutboxRow EventPayload
  event_row s before event_type d = record {
    id = length before;
    aggregate_id = s.case.id;
    tenant_id = s.case.tenant_id;
    event_id = env.uuid4 (length before);
    event_type = event_type;
    source = "case-service";
    traceparent = env.traceparent;
    payload = record { case_id = s.case.id; tenant_id = s.case.tenant_id; event_data = d };
    created_at = env.now;
    published_at = none;
    attempts = 0;
    last_error = none;
  }

  -- An entry that records no change of status.
  pub Traced-add_timeline :
      (kind actor_type : String) (actor : Actor) (title : Title) (payload : Payload)
      → ((x : CaseStatus) → after_entry x payload ≡ x)
      → Traced (add_timeline env kind actor_type actor title payload)
  unfolding run replay_timeline replay_outbox
  Traced-add_timeline kind actor_type actor title payload quiet = record {
    at = λ s. record {
      entries = timeline_event env s kind actor_type actor title payload ∷ [];
      rows = [];
      timeline_grows = refl;
      outbox_grows = sym (append-nil s.outbox);
      timeline_tells = quiet s.case.status;
      outbox_tells = refl;
      moves = here;
      same_case = refl;
      same_tenant = refl;
    };
  }

  pub Traced-emit :
      (event_type : String) (d : EventData)
      → ((x : CaseStatus) → after_event x d ≡ x)
      → Traced (emit env event_type d)
  unfolding run replay_timeline replay_outbox
  Traced-emit event_type d quiet = record {
    at = λ s. record {
      entries = [];
      rows = event_row s s.outbox event_type d ∷ [];
      timeline_grows = sym (append-nil s.timeline);
      outbox_grows = refl;
      timeline_tells = refl;
      outbox_tells = quiet s.case.status;
      moves = here;
      same_case = refl;
      same_tenant = refl;
    };
  }
