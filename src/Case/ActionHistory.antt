-- ===== src/Case/ActionHistory.antt =====
-- What every request of the case service keeps of the proposed actions
-- (services/case/recoup_case/service.py).
use recoup.Common.{
  ℕ, String, ◌≡◌, refl, inl, inr, Bool, true, false, some, List, subst, sym, ◌∙◌, ==→eq, arith,
  ◌==◌, Bool-cases,
}
use mathlib.Core.Option.{some-injective}
use recoup.Json.{Value}
use recoup.Outbox.{Env}
use recoup.Case.Status.{ActionStatus}
use recoup.Case.Records.{ProposedAction, ProposedActionCreate, Principal}
use recoup.Case.Transaction.{Tx, ◌>>=◌, Session, Result, ok, err, run}
use recoup.Case.Actions.{
  add_action, save_action, propose_action, decide_action, mark_executed, put_action, Ruling,
  decided_action, executed_form, get_action, append_event, check_can_decide, after_decision,
}
use recoup.Case.Service.{transition, apply_triage, add_note, assign, takeover, release}
use recoup.Case.Requests.{
  Request, human_transition, agent_transition, triage_case, note_case, assign_case, take_over,
  release_case, propose, decide, report_executed, append_entry, perform,
}
use recoup.Case.Approvals.{decide_action_needs, mark_executed_needs}
use recoup.Case.Keeps.{Keeps, Stays, keeps_rules}
use recoup.Case.ActionRows.{
  Sound, new_action-Sound, decided_action-Sound, executed_form-Sound, All-put_action, All-append,
  All-find, AllSound, row_of, row_of-id, row_of-put_action, row_of-append, Frozen, Keeps-check_role,
  is_open, executed_before, open_not_executed, get_action-cases,
}

-- The requests that look an action up.
abbrev looks_up : Request → Bool
looks_up (decide i principal ruling) = true
looks_up (report_executed i result actor) = true
looks_up _ = false

-- A write to open actions of one case keeps the rows that satisfy `fixed`, where no open action of that case
-- does.
module _ (env : Env) (fixed : ProposedAction → Bool) (rows : List ProposedAction) (case_id : ℕ)
    (free : (a : ProposedAction)
      → Sound a
      → is_open a ≡ true
      → a.case_id ≡ case_id
      → fixed a ≡ false) where
  abbrev Held : List ProposedAction → Type 0
  Held now = AllSound now × Frozen fixed rows now

  -- No row of that id has to stay.
  abbrev Free : ℕ → Type 0
  Free i = (x : ProposedAction) → row_of i rows ≡ some x → fixed x ≡ false

  saved-Held :
      (a : ProposedAction) (now : List ProposedAction)
      → Sound a
      → Free a.id
      → Held now
      → Held (put_action a now)
  saved-Held a now h f (k, l) = (
    All-put_action a now h k,
    λ i x e g. elim (Bool-cases (a.id == i)) [
      | inl y ↦
          let no = f x (subst (λ j. row_of j rows ≡ some x) (sym (==→eq a.id i y)) e) in
          absurd (ground (arith, no, g))
      | inr n ↦ row_of-put_action i a now n ∙ l i x e g
    ],
  )

  Keeps-save_action : (a : ProposedAction) → Sound a → Free a.id → Keeps Held (save_action a)
  unfolding run save_action
  Keeps-save_action a h f = record { at = λ s k. saved-Held a s.actions h f k }

  Keeps-add_action : (p : ProposedActionCreate) → Keeps Held (add_action env p)
  unfolding run add_action
  Keeps-add_action p = record {
    at = λ s k. (
      All-append s.actions _ k.0 (new_action-Sound env s.case p s.actions),
      λ i x e g. row_of-append i s.actions _ (k.1 i x e g),
    );
  }

  Keeps-propose_action : (p : ProposedActionCreate) → Keeps Held (propose_action env p)
  unfolding propose_action
  Keeps-propose_action p = search (keeps_rules, Keeps-add_action) depth 16

  Keeps-check_can_decide : (a : ProposedAction) (p : Principal) → Keeps Held (check_can_decide a p)
  unfolding check_can_decide
  Keeps-check_can_decide a p = search (keeps_rules, Keeps-check_role)

  Keeps-after_decision : (p : Principal) (d : ActionStatus) → Keeps Held (after_decision env p d)
  unfolding after_decision
  Keeps-after_decision p d = search keeps_rules depth 12

  Keeps-decided :
      (a : ProposedAction) (p : Principal) (r : Ruling)
      → Sound (decided_action env a p r)
      → Free (decided_action env a p r).id
      → Keeps Held (decide_action env a p r)
  unfolding decide_action
  Keeps-decided a p r h f =
      search (keeps_rules, Keeps-check_can_decide, Keeps-save_action, Keeps-after_decision, h, f)
        depth 16

  -- An action that was looked up in a session.
  pub record Found (a : ProposedAction) : Type 0 where
    pub sound : Sound a
    pub of_case : a.case_id ≡ case_id
    pub same : (x : ProposedAction) → row_of a.id rows ≡ some x → fixed x ≡ true → x ≡ a

  Found-Free : (a : ProposedAction) → Found a → is_open a ≡ true → Free a.id
  Found-Free a h o = λ x e. elim (Bool-cases (fixed x)) [
    | inr n ↦ n
    | inl y ↦ subst (λ z. fixed z ≡ false) (sym (h.same x e y)) (free a h.sound o h.of_case)
  ]

  decision-Stays :
      (a : ProposedAction) (p : Principal) (r : Ruling) (s : Session)
      (res : Result (ProposedAction × Session))
      → Found a
      → Held s.actions
      → decide_action env a p r s ≡ res
      → Stays Held res
  unfolding decided_action
  decision-Stays a p r s (err e) h k q = tt
  decision-Stays a p r s (ok (b, t)) h k q =
      let d = decide_action_needs env a p r s q in
      let kept =
        Keeps-decided a p r (decided_action-Sound env a p r h.sound d.is_open d.valid)
          (Found-Free a h (rw (d.is_open) refl)) in
      subst (Stays Held) q (kept.at s k)

  Keeps-decide_action :
      (a : ProposedAction) (p : Principal) (r : Ruling)
      → Found a
      → Keeps Held (decide_action env a p r)
  Keeps-decide_action a p r h = record { at = λ s k. decision-Stays a p r s _ h k refl }

  Keeps-executed :
      (a : ProposedAction) (v : Value) (actor : String)
      → Sound (executed_form env a v)
      → Free (executed_form env a v).id
      → Keeps Held (mark_executed env a v actor)
  unfolding mark_executed
  Keeps-executed a v actor h f = search (keeps_rules, Keeps-save_action, h, f) depth 14

  execution-Stays :
      (a : ProposedAction) (v : Value) (actor : String) (s : Session)
      (res : Result (ProposedAction × Session))
      → Found a
      → Held s.actions
      → mark_executed env a v actor s ≡ res
      → Stays Held res
  unfolding executed_form
  execution-Stays a v actor s (err e) h k q = tt
  execution-Stays a v actor s (ok (b, t)) h k q =
      let ready = mark_executed_needs env a v actor s q in
      let kept =
        Keeps-executed a v actor (executed_form-Sound env a v h.sound ready)
          (Found-Free a h (ground (arith, ready))) in
      subst (Stays Held) q (kept.at s k)

  Keeps-mark_executed :
      (a : ProposedAction) (v : Value) (actor : String)
      → Found a
      → Keeps Held (mark_executed env a v actor)
  Keeps-mark_executed a v actor h = record { at = λ s k. execution-Stays a v actor s _ h k refl }

  looked_up :
      (i : ℕ) (s : Session) (a : ProposedAction)
      → s.case.id ≡ case_id
      → Held s.actions
      → a.case_id ≡ s.case.id
      → row_of i s.actions ≡ some a
      → Found a
  unfolding row_of
  looked_up i s a c h m e = record {
    sound = All-find (λ x. x.id == i) s.actions h.0 e;
    of_case = m ∙ c;
    same = λ x f g.
        let at_i : row_of i rows ≡ some x =
          subst (λ j. row_of j rows ≡ some x) (row_of-id i s.actions e) f in
        some-injective x a (sym (h.1 i x at_i g) ∙ e);
  }

  Found-Stays :
      {A : Type 0} (i : ℕ) (f : ProposedAction → Tx A) (s : Session)
      → ((a : ProposedAction) → Found a → Keeps Held (f a))
      → s.case.id ≡ case_id
      → Held s.actions
      → Stays Held ((get_action i >>= f) s)
  unfolding ◌>>=◌
  Found-Stays i f s k c h = elim (get_action-cases i s) [
    | inl (a, q, m, e) ↦ rw (q, ◌>>=◌) ((k a (looked_up i s a c h m e)).at s h)
    | inr (x, q) ↦ rw (q, ◌>>=◌) tt
  ]

  -- The requests that look no action up.
  Keeps-other : (r : Request) → looks_up r ≡ false → Keeps Held (perform env r)
  unfolding perform transition apply_triage add_note assign takeover release append_event
  Keeps-other (decide i principal ruling) h = cc
  Keeps-other (report_executed i result actor) h = cc
  Keeps-other (propose body) h = search (keeps_rules, Keeps-propose_action)
  Keeps-other (human_transition principal to reason v) h = search keeps_rules depth 14
  Keeps-other (agent_transition actor to reason v) h = search keeps_rules depth 14
  Keeps-other (triage_case body) h = search keeps_rules depth 16
  Keeps-other (note_case principal note) h = search keeps_rules depth 14
  Keeps-other (assign_case principal assignee) h = search keeps_rules depth 14
  Keeps-other (take_over principal reason) h = search keeps_rules depth 16
  Keeps-other (release_case principal) h = search keeps_rules depth 14
  Keeps-other (append_entry body) h = search keeps_rules depth 14

  pub perform-Stays :
      (r : Request) (s : Session)
      → s.case.id ≡ case_id
      → Held s.actions
      → Stays Held (perform env r s)
  unfolding perform
  perform-Stays (decide i principal ruling) s c h =
      Found-Stays i _ s (λ a f. search (keeps_rules, Keeps-decide_action, f)) c h
  perform-Stays (report_executed i result actor) s c h =
      Found-Stays i _ s (λ a f. search (keeps_rules, Keeps-mark_executed, f)) c h
  perform-Stays (human_transition principal to reason v) s c h =
      (Keeps-other (human_transition principal to reason v) refl).at s h
  perform-Stays (agent_transition actor to reason v) s c h =
      (Keeps-other (agent_transition actor to reason v) refl).at s h
  perform-Stays (triage_case body) s c h = (Keeps-other (triage_case body) refl).at s h
  perform-Stays (note_case principal note) s c h =
      (Keeps-other (note_case principal note) refl).at s h
  perform-Stays (assign_case principal assignee) s c h =
      (Keeps-other (assign_case principal assignee) refl).at s h
  perform-Stays (take_over principal reason) s c h =
      (Keeps-other (take_over principal reason) refl).at s h
  perform-Stays (release_case principal) s c h = (Keeps-other (release_case principal) refl).at s h
  perform-Stays (append_entry body) s c h = (Keeps-other (append_entry body) refl).at s h
  perform-Stays (propose body) s c h = (Keeps-other (propose body) refl).at s h

Stays-of_ok :
    {A : Type 0} (P : List ProposedAction → Type 0) (r : Result (A × Session)) {p : A × Session}
    → Stays P r
    → r ≡ ok p
    → P p.1.actions
Stays-of_ok P r h e = subst (Stays P) e h

-- If the status of every proposed action tells the truth about its past, it does so after any
-- request that is performed: a proposal that the policy denied stays DENIED; an EDITED, REJECTED or
-- EXECUTED action has a human who decided it; an APPROVED one has such a human or was allowed by the
-- policy; an AUTO_EXECUTED one was allowed and nobody decided it; and the time of execution is set
-- exactly on the executed ones. And an action that was executed before is executed only that once: it
-- stays as it was.
pub perform-AllSound :
    (env : Env) (r : Request) (s : Session) {t : Session}
    → AllSound s.actions
    → perform env r s ≡ ok (tt, t)
    → AllSound t.actions × Frozen executed_before s.actions t.actions
perform-AllSound env r s h e =
    Stays-of_ok _ (perform env r s)
      (perform-Stays env executed_before s.actions s.case.id (λ a k o m. open_not_executed a k o) r
        s refl (h, λ i a f g. f))
      e
