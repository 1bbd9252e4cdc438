-- ===== src/Case/Isolation.antt =====
-- A tenant has no access to the cases of another, nor to their actions (`get_case` and `get_action` of
-- services/case/recoup_case/service.py).
use recoup.Common.{
  ℕ, ◌≡◌, refl, ◌∙◌, sym, ◌≢◌, ap, Bool, Option, none, some, List, [], ◌∷◌, arith, All, ◌==◌, ==→eq,
  Bool-cases, inl, inr,
}
use mathlib.Core.Option.{some-injective}
use recoup.Outbox.{Env}
use recoup.Case.Records.{Case, ProposedAction}
use recoup.Case.Transaction.{Tx, Session, Result, ok, err, run, flush, pure, ◌>>◌}
use recoup.Case.Store.{
  Store, settle, on_loaded, find_case, get_case, open_session, on_case, committed,
}
use recoup.Case.Requests.{Request, is_permitted, perform, handle, handle_all}
use recoup.Case.Traced.{Leaves}
use recoup.Case.Keeps.{Stays, bind-Stays, keeps_rules}
use recoup.Case.Audit.{Traced-perform}
use recoup.Case.ActionRows.{AllSound, Frozen}
use recoup.Case.ActionHistory.{perform-Stays}
use recoup.Case.History.{
  find_case-id, find_case-put_case, replaced, find_case_of_get_case, Traced-committed,
}

replaced_other :
    (j : ℕ) (e : Case) (cs : List Case) (o : Option Case)
    → e.id ≢ j
    → find_case j cs ≡ o
    → replaced e o ≡ o
replaced_other j e cs none n h = refl
replaced_other j e cs (some d) n h = ground (arith, find_case-id j cs h)

settle_others :
    {A : Type 0} (st : Store) (j k : ℕ) (c : Case) (r : Result (A × Session))
    → j ≢ k
    → find_case k st.cases ≡ some c
    → Leaves (open_session st c) r
    → find_case j (settle st r).1.cases ≡ find_case j st.cases
settle_others st j k c (err e) n h t = refl
settle_others st j k c (ok p) n h t =
    find_case-put_case j p.1.case st.cases
    ∙ replaced_other j p.1.case st.cases _
        (λ e. n (sym e ∙ t.same_case ∙ find_case-id k st.cases h)) refl

-- The actions of a case.
abbrev pub of_case : ℕ → ProposedAction → Bool
of_case k a = a.case_id == k

-- The case and its actions are as before, and the status of every action tells the truth.
abbrev Untouched : ℕ → Store → Store → Type 0
Untouched k before after =
    (find_case k after.cases ≡ find_case k before.cases)
    × AllSound after.actions
    × Frozen (of_case k) before.actions after.actions

settle-actions :
    {A : Type 0} (P : List ProposedAction → Type 0) (st : Store) (r : Result (A × Session))
    → P st.actions
    → Stays P r
    → P (settle st r).1.actions
settle-actions P st (ok p) h k = k
settle-actions P st (err e) h k = h

module _ (env : Env) where
  committed-Stays :
      {A : Type 0} (P : List ProposedAction → Type 0) (m : Tx A) (s : Session)
      → Stays P (m s)
      → Stays P (committed env m s)
  unfolding run committed
  committed-Stays P m s h = bind-Stays (m s) (λ a. flush env >> pure a) (λ a. search keeps_rules) h

  on_loaded-Untouched :
      (tenant_id case_id k : ℕ) (q : Request) (st : Store) (r : Result Case) {c : Case}
      → find_case k st.cases ≡ some c
      → c.tenant_id ≢ tenant_id
      → AllSound st.actions
      → get_case tenant_id case_id st ≡ r
      → Untouched k st (on_loaded env (perform env q) st r).1
  unfolding run
  on_loaded-Untouched tenant_id case_id k q st (err e) h n a g = (refl, a, λ i x f y. f)
  on_loaded-Untouched tenant_id case_id k q st (ok d) {c} h n a g =
      let (row, owner) = find_case_of_get_case tenant_id case_id st g in
      let apart : k ≢ case_id = λ e. n (
        ap (λ (x : Case). x.tenant_id)
          (some-injective c d (sym h ∙ ap (λ i. find_case i st.cases) e ∙ row))
        ∙ owner) in
      let here : d.id ≡ case_id = find_case-id case_id st.cases row in
      let held =
        settle-actions (λ now. AllSound now × Frozen (of_case k) st.actions now) st _
          (a, λ i x f y. f)
          (committed-Stays _ (perform env q) (open_session st d) (
            perform-Stays env (of_case k) st.actions case_id
              (λ x s o m. elim (Bool-cases (x.case_id == k)) [
                | inl y ↦ absurd (apart (sym (==→eq x.case_id k y) ∙ m))
                | inr z ↦ z
              ])
              q (open_session st d) here (a, λ i x f y. f))) in
      (
        settle_others st k case_id d _ apart row
            ((Traced-committed env _ (Traced-perform env q)).at (open_session st d)),
        held.0,
        held.1,
      )

  handle-Untouched :
      (tenant_id case_id k : ℕ) (q : Request) (st : Store) {c : Case}
      → find_case k st.cases ≡ some c
      → c.tenant_id ≢ tenant_id
      → AllSound st.actions
      → Untouched k st (handle env tenant_id case_id q st).1
  unfolding handle on_case
  handle-Untouched tenant_id case_id k q st h n a = elim (Bool-cases (is_permitted q)) [
    | inl y ↦ rw (handle, y) (on_loaded-Untouched tenant_id case_id k q st _ h n a refl)
    | inr z ↦ rw (handle, z) (refl, a, λ i x f y. f)
  ]

  -- Whatever other tenants request, on any cases, the case of a tenant stays as it is, and so do its actions,
  -- where the status of every action tells the truth about its past.
  pub handle_all_isolated :
      (requests : List (ℕ × ℕ × Request)) (st : Store) (k : ℕ) {c : Case}
      → find_case k st.cases ≡ some c
      → AllSound st.actions
      → All (λ q. c.tenant_id ≢ q.0) requests
      → (find_case k (handle_all env requests st).cases ≡ some c)
        × Frozen (of_case k) st.actions (handle_all env requests st).actions
  unfolding handle_all
  handle_all_isolated [] st k h a n = (h, λ i x f y. f)
  handle_all_isolated ((tenant_id, case_id, q) ∷ rest) st k {c} h a (n, ns) =
      let (same, sound, kept) = handle-Untouched tenant_id case_id k q st h n a in
      let (again, later) =
        handle_all_isolated rest (handle env tenant_id case_id q st).1 k {c = c} (same ∙ h) sound
          ns in
      (again, λ i x f y. later i x (kept i x f y) y)
