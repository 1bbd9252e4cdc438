-- ===== src/Case/Keeps.antt =====
-- Transactions of the case service that keep a property of the table of proposed actions: a rule for
-- each way to build one.
use recoup.Common.{ℕ, String, Bool, true, false, Option, none, some, List}
use recoup.Outbox.{Env}
use recoup.Case.Status.{CaseStatus, Verdict, legal, raises, assert_transition}
use recoup.Case.Records.{Case, Actor, ProposedAction, Title, Payload, EventData}
use recoup.Case.Transaction.{
  Tx, ◌>>=◌, ◌>>◌, Session, Result, ok, err, Error, pure, raise_if, when, gets, or_raise,
  modify_case, flush, touch, add_timeline, emit, allow_if, check_transition, set_status, write_case,
  touched, run,
}

-- The table after a call that returns has the property.
abbrev pub Stays : {A : Type 0} → (List ProposedAction → Type 0) → Result (A × Session) → Type 0
Stays P (ok p) = P p.1.actions
Stays P (err e) = Unit

pub record Keeps {A : Type 0} (P : List ProposedAction → Type 0) (m : Tx A) : Type 0 where
  pub at : (s : Session) → P s.actions → Stays P (m s)

module _ {P : List ProposedAction → Type 0} where
  pub Keeps-pure : {A : Type 0} (a : A) → Keeps P (pure a)
  unfolding run
  Keeps-pure a = record { at = λ s h. h }

  pub Keeps-gets : {A : Type 0} (f : Session → A) → Keeps P (gets f)
  unfolding run
  Keeps-gets f = record { at = λ s h. h }

  pub Keeps-raise_if : (b : Bool) (e : Error) → Keeps P (raise_if b e)
  unfolding run
  Keeps-raise_if true e = record { at = λ s h. tt }
  Keeps-raise_if false e = record { at = λ s h. h }

  pub Keeps-or_raise : {A : Type 0} (o : Option A) (e : Error) → Keeps P (or_raise o e)
  unfolding run
  Keeps-or_raise none e = record { at = λ s h. tt }
  Keeps-or_raise (some a) e = record { at = λ s h. h }

  pub Keeps-when : (b : Bool) (m : Tx (Unit {0})) → Keeps P m → Keeps P (when b m)
  unfolding run
  Keeps-when true m k = record { at = λ s. k.at s }
  Keeps-when false m k = record { at = λ s h. h }

  pub Keeps-modify_case : (f : Case → Case) → Keeps P (modify_case f)
  unfolding run
  Keeps-modify_case f = record { at = λ s h. h }

  pub bind-Stays :
      {A B : Type 0} (r : Result (A × Session)) (f : A → Tx B)
      → ((a : A) → Keeps P (f a))
      → Stays P r
      → Stays P (elim r as (λ _. Result (B × Session)) [ ok p ↦ f p.0 p.1 | err e ↦ err e ])
  bind-Stays (ok p) f k h = (k p.0).at p.1 h
  bind-Stays (err e) f k h = tt

  pub Keeps-bind :
      {A B : Type 0} (m : Tx A) (f : A → Tx B)
      → Keeps P m
      → ((a : A) → Keeps P (f a))
      → Keeps P (m >>= f)
  unfolding run
  Keeps-bind m f k l = record { at = λ s h. bind-Stays (m s) f l (k.at s h) }

  pub Keeps-seq : {A B : Type 0} (m : Tx A) (n : Tx B) → Keeps P m → Keeps P n → Keeps P (m >> n)
  unfolding ◌>>◌
  Keeps-seq m n k l = Keeps-bind m (λ _. n) k (λ _. l)

  Keeps-allow_if : (v : Verdict) → Keeps P (allow_if v)
  unfolding run
  Keeps-allow_if legal = record { at = λ s h. h }
  Keeps-allow_if (raises e) = record { at = λ s h. tt }

  Keeps-check_transition : (src to : CaseStatus) → Keeps P (check_transition src to)
  unfolding check_transition
  Keeps-check_transition src to = Keeps-allow_if (assert_transition src to)

  module _ (env : Env) where
    Keeps-write_case : Keeps P (write_case env)
    unfolding run
    Keeps-write_case = record { at = λ s h. h }

    pub Keeps-flush : Keeps P (flush env)
    unfolding flush
    Keeps-flush = search (Keeps-bind, Keeps-gets, Keeps-when, Keeps-write_case)

    pub Keeps-touch : (v : Option ℕ) → Keeps P (touch env v)
    unfolding touch
    Keeps-touch none = Keeps-modify_case (touched env)
    Keeps-touch (some v) =
        search (Keeps-bind, Keeps-seq, Keeps-gets, Keeps-raise_if, Keeps-modify_case)

    pub Keeps-add_timeline :
        (kind actor_type : String) (actor : Actor) (title : Title) (payload : Payload)
        → Keeps P (add_timeline env kind actor_type actor title payload)
    unfolding run
    Keeps-add_timeline kind actor_type actor title payload = record { at = λ s h. h }

    pub Keeps-emit : (event_type : String) (d : EventData) → Keeps P (emit env event_type d)
    unfolding run
    Keeps-emit event_type d = record { at = λ s h. h }

    pub Keeps-set_status :
        (to : CaseStatus) (actor_type : String) (actor : Actor) (reason : Option String)
        → Keeps P (set_status env to actor_type actor reason)
    unfolding set_status
    Keeps-set_status to actor_type actor reason =
        search
          (
            Keeps-bind, Keeps-seq, Keeps-gets, Keeps-when, Keeps-modify_case,
            Keeps-check_transition, Keeps-add_timeline, Keeps-emit,
          )
          depth 12

pub ruleset keeps_rules = (
  Keeps-pure, Keeps-gets, Keeps-raise_if, Keeps-or_raise, Keeps-when, Keeps-modify_case, Keeps-bind,
  Keeps-seq, Keeps-flush, Keeps-touch, Keeps-add_timeline, Keeps-emit, Keeps-set_status,
)
