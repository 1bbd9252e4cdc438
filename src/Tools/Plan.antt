-- ===== src/Tools/Plan.antt =====
-- `simulate_payment_plan` of services/tool-gateway/recoup_tool_gateway/tools/reconcile.py: the amounts are
-- integers of cents, since what remains may fall below zero; dates are numbers of days; the discount is
-- in hundredths of a percent.
use recoup.Common.{
  ℕ, zero, suc, ◌+◌, ◌-◌, ◌*◌, ◌≡◌, ◌≤◌, refl, ap, ◌∙◌, List, [], ◌∷◌, arith, length,
}
use recoup.Common.Int.{ℤ, pos, negsuc, add_ℤ, sub_ℤ, add-sub}
use recoup.Tools.Invoices.{half_up}

pub record PlanInstallment : Type 0 where
  pub n : ℕ
  pub due : ℕ
  pub amount : ℤ

pub record PlanResult : Type 0 where
  pub total_open : ℕ
  pub discount_amount : ℕ
  pub plan_total : ℕ
  pub installments : List PlanInstallment

-- The loop: `left` rounds are still to come, the one that is entered being the `n`-th, and the last one
-- takes what remains.
unfoldable pub plan_rows : ℕ → ℕ → ℕ → ℕ → ℤ → List PlanInstallment
plan_rows zero n first_due per remaining = []
plan_rows (suc zero) n first_due per remaining =
    record { n = n + 1; due = first_due + 30 * n; amount = remaining } ∷ []
plan_rows (suc (suc left)) n first_due per remaining =
    record { n = n + 1; due = first_due + 30 * n; amount = pos per }
    ∷ plan_rows (suc left) (n + 1) first_due per (sub_ℤ remaining (pos per))

abbrev pub sum_ℕ : List ℕ → ℕ
sum_ℕ [] = 0
sum_ℕ (a ∷ amounts) = a + sum_ℕ amounts

-- The open amounts of the invoices that the ERP answered; at most 100 percent can be given off, so that
-- the subtraction stays above zero.
unfoldable pub simulate_payment_plan : List ℕ → ℕ → ℕ → ℕ → PlanResult
unfolding plan_rows half_up
simulate_payment_plan open_amounts installments first_due discount_pct =
    let total_open = sum_ℕ open_amounts in
    let discount = half_up (total_open * discount_pct) 10000 in
    let plan_total = total_open - discount in
    record {
      total_open = total_open;
      discount_amount = discount;
      plan_total = plan_total;
      installments =
          plan_rows installments 0 first_due (half_up plan_total installments) (pos plan_total);
    }

abbrev pub sum_amounts : List PlanInstallment → ℤ
sum_amounts [] = pos 0
sum_amounts (r ∷ rs) = add_ℤ r.amount (sum_amounts rs)

sum-plan_rows :
    (left n first_due per : ℕ) (remaining : ℤ)
    → sum_amounts (plan_rows (suc left) n first_due per remaining) ≡ remaining
unfolding plan_rows
sum-plan_rows zero n first_due per (pos m) = ground arith
sum-plan_rows zero n first_due per (negsuc m) = ground arith
sum-plan_rows (suc left) n first_due per remaining =
    ap (add_ℤ (pos per)) (sum-plan_rows left (n + 1) first_due per (sub_ℤ remaining (pos per)))
    ∙ add-sub (pos per) remaining

length-plan_rows :
    (left n first_due per : ℕ) (remaining : ℤ)
    → length (plan_rows left n first_due per remaining) ≡ left
unfolding plan_rows
length-plan_rows zero n first_due per remaining = refl
length-plan_rows (suc zero) n first_due per remaining = refl
length-plan_rows (suc (suc left)) n first_due per remaining =
    ap suc (length-plan_rows (suc left) (n + 1) first_due per (sub_ℤ remaining (pos per)))

mul_below : (a p m : ℕ) → p ≤ m → a * p ≤ a * m
mul_below zero p m h = omega arith
mul_below (suc a) p m h = omega (arith, mul_below a p m h)

discount_le : (total pct : ℕ) → pct ≤ 10000 → half_up (total * pct) 10000 ≤ total
unfolding half_up
discount_le total pct h = omega (arith, mul_below total pct 10000 h)

-- A plan of one installment or more has that many rows, and their amounts sum to the plan's total, which
-- with the discount is the open total where at most 100 percent are given off.
pub simulate_payment_plan-total :
    (open_amounts : List ℕ) (installments first_due discount_pct : ℕ)
    → 1 ≤ installments
    → discount_pct ≤ 10000
    → (length (simulate_payment_plan open_amounts installments first_due discount_pct).installments
        ≡ installments)
      × (sum_amounts
            (simulate_payment_plan open_amounts installments first_due discount_pct).installments
          ≡ pos (simulate_payment_plan open_amounts installments first_due discount_pct).plan_total)
      × ((simulate_payment_plan open_amounts installments first_due discount_pct).plan_total
            + (simulate_payment_plan open_amounts installments first_due
                discount_pct).discount_amount
          ≡ (simulate_payment_plan open_amounts installments first_due discount_pct).total_open)
unfolding simulate_payment_plan
simulate_payment_plan-total open_amounts zero first_due pct h k = ground arith
simulate_payment_plan-total open_amounts (suc left) first_due pct h k = (
  length-plan_rows (suc left) 0 first_due _ _,
  sum-plan_rows left 0 first_due _ _,
  omega (arith, discount_le (sum_ℕ open_amounts) pct k),
)
