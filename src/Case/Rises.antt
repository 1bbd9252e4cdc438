-- ===== src/Case/Rises.antt =====
-- Transactions of the case service that never lower the version of the case, and those that check an
-- expected version: a rule for each way to build one.
use recoup.Common.{
  ℕ, ◌+◌, ◌*◌, ◌≤◌, ◌<◌, ◌≡◌, String, Bool, true, false, Option, none, some, List, if◌then◌else◌,
  arith,
}
use recoup.Outbox.{Env}
use recoup.Case.Status.{CaseStatus, Verdict, legal, raises, assert_transition}
use recoup.Case.Records.{Case, Actor, ProposedAction, Title, Payload, EventData}
use recoup.Case.Transaction.{
  Tx, ◌>>=◌, ◌>>◌, Session, Result, ok, err, Error, pure, raise_if, when, gets, or_raise,
  modify_case, modify_actions, flush, touch, add_timeline, emit, allow_if, check_transition,
  set_status, run, move_to,
}

-- The version, where a change that is not written yet counts for half.
abbrev pub weight : Session → ℕ
weight s = s.case.version * 2 + (if s.dirty then 1 else 0)

abbrev pub Risen : {A : Type 0} → Session → Result (A × Session) → Type 0
Risen s (ok p) = weight s ≤ weight p.1
Risen s (err e) = Unit

pub record Rises {A : Type 0} (m : Tx A) : Type 0 where
  pub at : (s : Session) → Risen s (m s)

-- A call that returns has met the version `v`, and has changed the case.
abbrev pub Met : {A : Type 0} → ℕ → Session → Result (A × Session) → Type 0
Met v s (ok p) = (weight s ≤ v * 2 + 1) × (v * 2 + 1 ≤ weight p.1)
Met v s (err e) = Unit

pub record Meets {A : Type 0} (v : ℕ) (m : Tx A) : Type 0 where
  pub at : (s : Session) → Met v s (m s)

pub Rises-pure : {A : Type 0} (a : A) → Rises (pure a)
unfolding run
Rises-pure a = record { at = λ s. omega arith }

pub Rises-gets : {A : Type 0} (f : Session → A) → Rises (gets f)
unfolding run
Rises-gets f = record { at = λ s. omega arith }

pub Rises-raise_if : (b : Bool) (e : Error) → Rises (raise_if b e)
unfolding run
Rises-raise_if true e = record { at = λ s. tt }
Rises-raise_if false e = record { at = λ s. omega arith }

pub Rises-or_raise : {A : Type 0} (o : Option A) (e : Error) → Rises (or_raise o e)
unfolding run
Rises-or_raise none e = record { at = λ s. tt }
Rises-or_raise (some a) e = record { at = λ s. omega arith }

pub Rises-modify_actions :
    (f : List ProposedAction → List ProposedAction) → Rises (modify_actions f)
unfolding run
Rises-modify_actions f = record { at = λ s. omega arith }

pub Rises-when : (b : Bool) (m : Tx (Unit {0})) → Rises m → Rises (when b m)
unfolding run
Rises-when true m k = record { at = λ s. k.at s }
Rises-when false m k = record { at = λ s. omega arith }

-- An assignment to a column other than the version.
pub Rises-modify_case :
    (f : Case → Case) → ((c : Case) → (f c).version ≡ c.version) → Rises (modify_case f)
unfolding run
Rises-modify_case f same = record { at = λ s. ground (arith, same s.case) }

bind-Risen :
    {A B : Type 0} (s : Session) (r : Result (A × Session)) (f : A → Tx B)
    → ((a : A) → Rises (f a))
    → Risen s r
    → Risen s (elim r as (λ _. Result (B × Session)) [ ok p ↦ f p.0 p.1 | err e ↦ err e ])
bind-Risen {B = B} s (ok p) f k h = after (f p.0 p.1) ((k p.0).at p.1)
  where
    after : (r : Result (B × Session)) → Risen p.1 r → Risen s r
    after (ok q) g = omega (arith, h, g)
    after (err e) g = tt
bind-Risen s (err e) f k h = tt

pub Rises-bind :
    {A B : Type 0} (m : Tx A) (f : A → Tx B) → Rises m → ((a : A) → Rises (f a)) → Rises (m >>= f)
unfolding run
Rises-bind m f k l = record { at = λ s. bind-Risen s (m s) f l (k.at s) }

pub Rises-seq : {A B : Type 0} (m : Tx A) (n : Tx B) → Rises m → Rises n → Rises (m >> n)
unfolding ◌>>◌
Rises-seq m n k l = Rises-bind m (λ _. n) k (λ _. l)

meet_after :
    {A B : Type 0} (v : ℕ) (s : Session) (r : Result (A × Session)) (f : A → Tx B)
    → ((a : A) → Rises (f a))
    → Met v s r
    → Met v s (elim r as (λ _. Result (B × Session)) [ ok p ↦ f p.0 p.1 | err e ↦ err e ])
meet_after {B = B} v s (ok p) f k h = after (f p.0 p.1) ((k p.0).at p.1)
  where
    after : (r : Result (B × Session)) → Risen p.1 r → Met v s r
    after (ok q) g = (h.0, omega (arith, h.1, g))
    after (err e) g = tt
meet_after v s (err e) f k h = tt

meet_before :
    {A B : Type 0} (v : ℕ) (s : Session) (r : Result (A × Session)) (f : A → Tx B)
    → ((a : A) → Meets v (f a))
    → Risen s r
    → Met v s (elim r as (λ _. Result (B × Session)) [ ok p ↦ f p.0 p.1 | err e ↦ err e ])
meet_before {B = B} v s (ok p) f k h = after (f p.0 p.1) ((k p.0).at p.1)
  where
    after : (r : Result (B × Session)) → Met v p.1 r → Met v s r
    after (ok q) g = (omega (arith, h, g.0), g.1)
    after (err e) g = tt
meet_before v s (err e) f k h = tt

-- A check of the version stands first,
pub Meets-first :
    {A B : Type 0} (v : ℕ) (m : Tx A) (f : A → Tx B)
    → Meets v m
    → ((a : A) → Rises (f a))
    → Meets v (m >>= f)
unfolding run
Meets-first v m f k l = record { at = λ s. meet_after v s (m s) f l (k.at s) }

-- or in what follows.
pub Meets-later :
    {A B : Type 0} (v : ℕ) (m : Tx A) (f : A → Tx B)
    → Rises m
    → ((a : A) → Meets v (f a))
    → Meets v (m >>= f)
unfolding run
Meets-later v m f k l = record { at = λ s. meet_before v s (m s) f l (k.at s) }

pub Meets-then :
    {A B : Type 0} (v : ℕ) (m : Tx A) (n : Tx B) → Meets v m → Rises n → Meets v (m >> n)
unfolding ◌>>◌
Meets-then v m n k l = Meets-first v m (λ _. n) k (λ _. l)

pub Meets-since :
    {A B : Type 0} (v : ℕ) (m : Tx A) (n : Tx B) → Rises m → Meets v n → Meets v (m >> n)
unfolding ◌>>◌
Meets-since v m n k l = Meets-later v m (λ _. n) k (λ _. l)

Rises-allow_if : (v : Verdict) → Rises (allow_if v)
unfolding run
Rises-allow_if legal = record { at = λ s. omega arith }
Rises-allow_if (raises e) = record { at = λ s. tt }

Rises-check_transition : (src to : CaseStatus) → Rises (check_transition src to)
unfolding check_transition
Rises-check_transition src to = Rises-allow_if (assert_transition src to)

move_to-version : (env : Env) (to : CaseStatus) (c : Case) → (move_to env to c).version ≡ c.version
unfolding move_to
move_to-version env to c = ground arith

module _ (env : Env) where
  pub Rises-touch : (v : Option ℕ) → Rises (touch env v)
  unfolding run
  Rises-touch none = record { at = λ s. ground arith }
  Rises-touch (some v) = record { at = λ s. ground arith }

  pub Meets-touch : (v : ℕ) → Meets v (touch env (some v))
  unfolding run
  Meets-touch v = record { at = λ s. ground arith }

  pub Rises-add_timeline :
      (kind actor_type : String) (actor : Actor) (title : Title) (payload : Payload)
      → Rises (add_timeline env kind actor_type actor title payload)
  unfolding run
  Rises-add_timeline kind actor_type actor title payload = record { at = λ s. omega arith }

  pub Rises-emit : (event_type : String) (d : EventData) → Rises (emit env event_type d)
  unfolding run
  Rises-emit event_type d = record { at = λ s. omega arith }

  pub Rises-set_status :
      (to : CaseStatus) (actor_type : String) (actor : Actor) (reason : Option String)
      → Rises (set_status env to actor_type actor reason)
  unfolding set_status
  Rises-set_status to actor_type actor reason =
      search
        (
          Rises-bind, Rises-seq, Rises-gets, Rises-when, Rises-modify_case, move_to-version,
          Rises-check_transition, Rises-add_timeline, Rises-emit,
        )
        depth 12

module _ (env : Env) (bumps : (v : ℕ) → v < env.next_version v) where
  pub Rises-flush : Rises (flush env)
  unfolding run
  Rises-flush = record { at = λ s. ground (arith, bumps s.case.version) }
