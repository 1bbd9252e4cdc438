-- ===== src/Erp/Repeats.antt =====
-- A request for a credit memo that is sent again (services/mock-erp).
use recoup.Common.{
  ◌≡◌, refl, sym, subst, String, none, some, List, [], ◌∷◌, ◌++◌, find, find-append, str_eq_iff,
  arith, Bool-cases, Option-cases, inl, inr,
}
use recoup.Erp.Tables.{
  InvoiceRow, CreditMemo, Tables, CreditMemoRequest, is_refused, get_invoice, same_key, new_memo,
  credit, create_credit_memo, ErpRequest, settled, answer, answer_all, replies, credit_memo,
  payment_plan,
}
use recoup.Erp.Credits.{create_payment_plan-tables}

-- The table has this memo under the key.
abbrev Kept : String → CreditMemo → Tables → Type 0
Kept key m t = find (same_key key) t.memos ≡ some m

kept-append :
    (key : String) (m : CreditMemo) (memos new : List CreditMemo)
    → find (same_key key) memos ≡ some m
    → find (same_key key) (memos ++ new) ≡ some m
kept-append key m memos new h = ground (arith, find-append (same_key key) memos new, h)

credit-Kept :
    (ref key : String) (body : CreditMemoRequest) (i : InvoiceRow) (m : CreditMemo) (t : Tables)
    → Kept key m t
    → Kept key m (settled t (credit ref body i t))
unfolding credit
credit-Kept ref key body i m t h = elim (Bool-cases (is_refused body.amount i.amount_open)) [
  | inl y ↦ rw (credit, y) h
  | inr n ↦ rw (credit, n) (kept-append key m t.memos _ h)
]

answer-Kept :
    (key : String) (m : CreditMemo) (q : ErpRequest) (t : Tables)
    → Kept key m t
    → Kept key m (answer q t)
unfolding answer create_credit_memo
answer-Kept key m (credit_memo ref body) t h =
    elim (Option-cases (find (same_key body.idempotency_key) t.memos)) [
      | inl n ↦ elim (Option-cases (get_invoice body.invoice_ref t.invoices)) [
        | inl e ↦ rw (create_credit_memo, n, e) h
        | inr (i, y) ↦ rw (create_credit_memo, n, y) (credit-Kept ref key body i m t h)
      ]
      | inr (x, y) ↦ rw (create_credit_memo, y) h
    ]
answer-Kept key m (payment_plan ref body) t h = rw ((create_payment_plan-tables ref body t).1) h

answer_all-Kept :
    (key : String) (m : CreditMemo) (requests : List ErpRequest) (t : Tables)
    → Kept key m t
    → Kept key m (answer_all requests t)
unfolding answer_all
answer_all-Kept key m [] t h = h
answer_all-Kept key m (q ∷ requests) t h =
    answer_all-Kept key m requests (answer q t) (answer-Kept key m q t h)

credit-made :
    (ref : String) (body : CreditMemoRequest) (i : InvoiceRow) (m : CreditMemo) (t u : Tables)
    → find (same_key body.idempotency_key) t.memos ≡ none
    → credit ref body i t ≡ replies m u
    → Kept body.idempotency_key m u
unfolding credit
credit-made ref body i m t u h k = ground (
  arith,
  find-append (same_key body.idempotency_key) t.memos (new_memo ref body i ∷ []),
  h,
  str_eq_iff body.idempotency_key body.idempotency_key,
)

-- A successful request leaves its memo under its key.
create_credit_memo-Kept :
    (ref : String) (body : CreditMemoRequest) (m : CreditMemo) (t u : Tables)
    → create_credit_memo ref body t ≡ replies m u
    → Kept body.idempotency_key m u
unfolding create_credit_memo
create_credit_memo-Kept ref body m t u h =
    elim (Option-cases (find (same_key body.idempotency_key) t.memos)) [
      | inl n ↦ elim (Option-cases (get_invoice body.invoice_ref t.invoices)) [
        | inl e ↦ ground (arith, n, e)
        | inr (i, y) ↦ credit-made ref body i m t u n (ground (arith, n, y, h))
      ]
      | inr (x, y) ↦ ground arith
    ]

known_key :
    (ref : String) (body : CreditMemoRequest) (m : CreditMemo) (t : Tables)
    → Kept body.idempotency_key m t
    → create_credit_memo ref body t ≡ replies m t
unfolding create_credit_memo
known_key ref body m t h = rw (create_credit_memo, h) refl

-- Once a credit memo was made, every later request with its key, whatever it asks for and whatever was
-- requested in between, is answered with the same memo and changes nothing.
pub create_credit_memo_again :
    (ref again_ref : String) (body again : CreditMemoRequest) (requests : List ErpRequest)
    (m : CreditMemo) (t u : Tables)
    → create_credit_memo ref body t ≡ replies m u
    → again.idempotency_key ≡ body.idempotency_key
    → create_credit_memo again_ref again (answer_all requests u) ≡ replies m (answer_all requests u)
create_credit_memo_again ref again_ref body again requests m t u h k =
    let kept =
      answer_all-Kept body.idempotency_key m requests u
        (create_credit_memo-Kept ref body m t u h) in
    known_key again_ref again m (answer_all requests u)
      (subst (λ key. Kept key m (answer_all requests u)) (sym k) kept)
