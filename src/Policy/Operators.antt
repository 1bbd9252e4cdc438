-- ===== src/Policy/Operators.antt =====
-- `_compare` of services/policy/recoup_policy/engine.py answers on every operator of `OPS`, but for
-- the errors that the values cause.
use recoup.Common.{
  ◌≡◌, refl, String, Bool, true, false, Option, none, some, List, [], ◌∷◌, arith, str_eq, any, inl,
  inr, Bool-cases,
}
use recoup.Json.{Value, Fields, null, bool, num, text, arr, obj}
use recoup.Policy.Facts.{TextLibrary, Decimal, to_num, py_eq}
use recoup.Policy.Compare.{
  Answer, holds, raises, EngineError, type_error, attribute_error, pattern_error, invalid_operation,
  eq_decimals, lt_decimals, le_decimals, eq_values, compare_numbers, negate, compare,
  compare_present, first_branch, branches_of, compare_some, in_value, in_keys, contains_value,
  matches_pattern,
}
use recoup.Policy.Rules.{binary_ops, is_op}

-- The errors that the values of a rule or of the context cause, and not its form.
abbrev pub is_value_error : EngineError → Bool
is_value_error type_error = true
is_value_error attribute_error = true
is_value_error pattern_error = true
is_value_error invalid_operation = true
is_value_error _ = false

-- An answer, or such an error.
abbrev pub Benign : Answer → Type 0
Benign (holds b) = Unit
Benign (raises e) = is_value_error e ≡ true

pub Benign-negate : (a : Answer) → Benign a → Benign (negate a)
Benign-negate (holds b) h = tt
Benign-negate (raises e) h = h

Benign-in_keys : (v : Value) (fs : Fields) → Benign (in_keys v fs)
unfolding in_keys
Benign-in_keys (text t) fs = tt
Benign-in_keys (arr xs) fs = refl
Benign-in_keys (obj gs) fs = refl
Benign-in_keys _ fs = tt

Benign-in_value : (a e : Value) → Benign (in_value a e)
unfolding in_value
Benign-in_value a null = tt
Benign-in_value a (bool true) = refl
Benign-in_value a (bool false) = tt
Benign-in_value a (num n k) = ground arith
Benign-in_value a (arr xs) = tt
Benign-in_value a (text t) = ground arith
Benign-in_value a (obj fs) = ground (arith, Benign-in_keys a fs)

Benign-contains_value : (a e : Value) → Benign (contains_value a e)
unfolding contains_value
Benign-contains_value (arr xs) e = tt
Benign-contains_value (text t) (text s) = tt
Benign-contains_value (text t) _ = refl
Benign-contains_value _ e = tt

Benign-matches_pattern : (lib : TextLibrary) (a e : Value) → Benign (matches_pattern lib a e)
unfolding matches_pattern
Benign-matches_pattern lib (text t) e = ground arith
Benign-matches_pattern lib _ e = tt

Benign-eq_decimals : (a e : Decimal) → Benign (eq_decimals a e)
unfolding eq_decimals
Benign-eq_decimals a e = ground arith

Benign-lt_decimals : (a e : Decimal) → Benign (lt_decimals a e)
unfolding lt_decimals
Benign-lt_decimals a e = ground arith

Benign-le_decimals : (a e : Decimal) → Benign (le_decimals a e)
unfolding le_decimals
Benign-le_decimals a e = ground arith

Benign-eq_values : (lib : TextLibrary) (a e : Value) → Benign (eq_values lib a e)
unfolding eq_values
Benign-eq_values lib a e =
    elim (to_num lib a)
      as (λ x. Benign (elim x as (λ _. Answer) [
        | none ↦ holds (py_eq a e)
        | some m ↦ elim (to_num lib e) as (λ _. Answer) [
          | none ↦ holds (py_eq a e)
          | some n ↦ eq_decimals m n
        ]
      ])) [
        | none ↦ tt
        | some m ↦
            elim (to_num lib e)
              as (λ x.
                Benign (elim x as (λ _. Answer) [
                  | none ↦ holds (py_eq a e)
                  | some n ↦ eq_decimals m n
                ])) [ none ↦ tt | some n ↦ Benign-eq_decimals m n ]
      ]

Benign-compare_numbers :
    (lib : TextLibrary) (test : Decimal → Decimal → Answer) (a e : Value)
    → ((m n : Decimal) → Benign (test m n))
    → Benign (compare_numbers lib test a e)
unfolding compare_numbers
Benign-compare_numbers lib test a e h =
    elim (to_num lib a)
      as (λ x. Benign (elim x as (λ _. Answer) [
        | none ↦ holds false
        | some m ↦ elim (to_num lib e) as (λ _. Answer) [ none ↦ holds false | some n ↦ test m n ]
      ])) [
        | none ↦ tt
        | some m ↦
            elim (to_num lib e)
              as (λ x.
                Benign (elim x as (λ _. Answer) [ none ↦ holds false | some n ↦ test m n ])) [
                  | none ↦ tt
                  | some n ↦ h m n
                ]
      ]

-- A chain whose branches all answer without another error answers so when it has a branch for the
-- operator.
abbrev BenignBranches : List (String × Answer) → Type 0
BenignBranches [] = Unit
BenignBranches (b ∷ bs) = Benign b.1 × BenignBranches bs

Benign-first_branch :
    (op : String) (otherwise : Answer) (bs : List (String × Answer))
    → BenignBranches bs
    → any (λ b. str_eq op b.0) bs ≡ true
    → Benign (first_branch op otherwise bs)
unfolding first_branch
Benign-first_branch op o [] p h = cc
Benign-first_branch op o (b ∷ bs) (p, ps) h = elim (Bool-cases (str_eq op b.0)) [
  | inl y ↦ rw y p
  | inr n ↦ rw n (Benign-first_branch op o bs ps (simp n at h))
]

BenignBranches-branches_of :
    (lib : TextLibrary) (a e : Value) → BenignBranches (branches_of lib a e)
unfolding branches_of
BenignBranches-branches_of lib a e = (
  Benign-eq_values lib a e,
  (
    Benign-negate _ (Benign-eq_values lib a e),
    (
      Benign-compare_numbers lib _ a e Benign-lt_decimals,
      (
        Benign-compare_numbers lib _ a e Benign-le_decimals,
        (
          Benign-compare_numbers lib _ a e (λ m n. Benign-lt_decimals n m),
          (
            Benign-compare_numbers lib _ a e (λ m n. Benign-le_decimals n m),
            (
              Benign-in_value a e,
              (
                Benign-negate _ (Benign-in_value a e),
                (Benign-contains_value a e, (Benign-matches_pattern lib a e, (tt, tt))),
              ),
            ),
          ),
        ),
      ),
    ),
  ),
)

Benign-present :
    (lib : TextLibrary) (a : Value) (op : String) (e : Value)
    → any (λ o. str_eq op o) binary_ops ≡ true
    → Benign (compare_present lib a op e)
unfolding compare_present binary_ops
Benign-present lib a op e h =
    Benign-first_branch op _ (branches_of lib a e) (BenignBranches-branches_of lib a e) h

Benign-compare_some :
    (lib : TextLibrary) (actual : Option Value) (op : String) (e : Value)
    → any (λ o. str_eq op o) binary_ops ≡ true
    → Benign (compare_some lib actual op e)
Benign-compare_some lib none op e h = tt
Benign-compare_some lib (some a) op e h = Benign-present lib a op e h

binary_known :
    (op : String)
    → is_op (text op) ≡ true
    → str_eq op "exists" ≡ false
    → str_eq op "not_exists" ≡ false
    → any (λ o. str_eq op o) binary_ops ≡ true
unfolding is_op binary_ops
binary_known op h p q = simp (p, q) at h

-- The operators that `validate_rule` knows are those that `_compare` knows.
pub Benign-compare :
    (lib : TextLibrary) (actual : Option Value) (op : String) (expected : Value)
    → is_op (text op) ≡ true
    → Benign (compare lib actual op expected)
unfolding compare
Benign-compare lib actual op e h = elim (Bool-cases (str_eq op "exists")) [
  | inl y ↦ rw y tt
  | inr n ↦ elim (Bool-cases (str_eq op "not_exists")) [
    | inl y ↦ rw (n, y) tt
    | inr n' ↦ rw (n, n') (Benign-compare_some lib actual op e (binary_known op h n n'))
  ]
]
