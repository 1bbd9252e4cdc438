-- ===== src/Policy/Compare.antt =====
-- `_compare` of services/policy/recoup_policy/engine.py. What Python raises is an answer: an operator
-- that no branch knows; a TypeError (an operand that cannot be searched); an AttributeError (a path that is no
-- text); a `re.error` (a pattern that is none); or the InvalidOperation of a decimal that is not a number.
use recoup.Common.{
  String, Bool, true, false, not, ◌&&◌, ◌||◌, Option, none, some, List, [], ◌∷◌, str_eq,
  if◌then◌else◌,
}
use package.text.Mathlib.Text.{starts_with}
use recoup.Common.Int.{pos, eqb_ℤ}
use recoup.Json.{Value, Fields, null, bool, num, text, arr, obj, has_key, is_nonempty}
use recoup.Policy.Facts.{
  TextLibrary, Decimal, finite, infinite, quiet_nan, signaling_nan, eq_bool, to_num, lt_num, le_num,
  eq_num, py_eq, in_items, in_text,
}

pub data EngineError : Type 0 where
  unknown_operator : String → EngineError
  type_error attribute_error pattern_error invalid_operation missing_key exhausted : EngineError

pub data Answer : Type 0 where
  holds : Bool → Answer
  raises : EngineError → Answer

abbrev pub negate : Answer → Answer
negate (holds b) = holds (not b)
negate (raises e) = raises e

-- `actual is not _MISSING and actual is not None`
unfoldable pub exists_fact : Option Value → Bool
exists_fact none = false
exists_fact (some null) = false
exists_fact (some v) = true

-- `a == e` of two decimals; only a signaling NaN raises.
unfoldable pub eq_decimals : Decimal → Decimal → Answer
eq_decimals signaling_nan e = raises invalid_operation
eq_decimals quiet_nan signaling_nan = raises invalid_operation
eq_decimals quiet_nan _ = holds false
eq_decimals (finite a) (finite e) = holds (eq_num a e)
eq_decimals (finite a) signaling_nan = raises invalid_operation
eq_decimals (finite a) _ = holds false
eq_decimals (infinite a) (infinite e) = holds (eq_bool a e)
eq_decimals (infinite a) signaling_nan = raises invalid_operation
eq_decimals (infinite a) _ = holds false

-- Equal as numbers where both are numbers, else as Python's `==` says.
unfoldable pub eq_values : TextLibrary → Value → Value → Answer
unfolding eq_decimals
eq_values lib actual expected = elim (to_num lib actual) [
  | none ↦ holds (py_eq actual expected)
  | some a ↦ elim (to_num lib expected) [
    | none ↦ holds (py_eq actual expected)
    | some e ↦ eq_decimals a e
  ]
]

-- `a < e` of two decimals; any NaN raises.
unfoldable pub lt_decimals : Decimal → Decimal → Answer
lt_decimals (finite a) (finite e) = holds (lt_num a e)
lt_decimals (finite a) (infinite negative) = holds (not negative)
lt_decimals (infinite negative) (finite e) = holds negative
lt_decimals (infinite a) (infinite e) = holds (a && not e)
lt_decimals _ _ = raises invalid_operation

-- `a <= e`
unfoldable pub le_decimals : Decimal → Decimal → Answer
le_decimals (finite a) (finite e) = holds (le_num a e)
le_decimals (finite a) (infinite negative) = holds (not negative)
le_decimals (infinite negative) (finite e) = holds negative
le_decimals (infinite a) (infinite e) = holds (a || not e)
le_decimals _ _ = raises invalid_operation

-- A comparison of two numbers; false where one side is none. The source computes all four comparisons and
-- takes one, but they raise together.
unfoldable pub compare_numbers : TextLibrary → (Decimal → Decimal → Answer) → Value → Value → Answer
compare_numbers lib test actual expected = elim (to_num lib actual) [
  | none ↦ holds false
  | some a ↦ elim (to_num lib expected) [ none ↦ holds false | some e ↦ test a e ]
]

abbrev is_text : Value → Bool
is_text (text t) = true
is_text _ = false

-- A list or a dictionary cannot be a key.
unfoldable pub in_keys : Value → Fields → Answer
in_keys (text t) fs = holds (has_key t fs)
in_keys (arr xs) fs = raises type_error
in_keys (obj gs) fs = raises type_error
in_keys _ fs = holds false

-- `actual in (expected or [])`
unfoldable pub in_value : Value → Value → Answer
unfolding in_keys
in_value actual null = holds false
in_value actual (bool false) = holds false
in_value actual (bool true) = raises type_error
in_value actual (num n k) = if eqb_ℤ n (pos 0) then holds false else raises type_error
in_value actual (arr xs) = holds (in_items actual xs)
in_value actual (text t) =
    if str_eq t ""
    then holds false
    else (elim actual [ text s ↦ holds (in_text s t) | _ ↦ raises type_error ])
in_value actual (obj fs) = if is_nonempty fs then in_keys actual fs else holds false

unfoldable pub contains_value : Value → Value → Answer
contains_value (arr xs) expected = holds (in_items expected xs)
contains_value (text t) expected = elim expected [
  | text s ↦ holds (in_text s t)
  | _ ↦ raises type_error
]
contains_value _ expected = holds false

unfoldable pub matches_pattern : TextLibrary → Value → Value → Answer
matches_pattern lib (text t) expected = elim (lib.search (lib.to_text expected) t) [
  | none ↦ raises pattern_error
  | some b ↦ holds b
]
matches_pattern lib _ expected = holds false

unfoldable pub starts_with_text : TextLibrary → Value → Value → Bool
starts_with_text lib (text t) expected = starts_with t (lib.to_text expected)
starts_with_text lib _ expected = false

-- A chain of `if op == …: return …`: the first branch with this name, or what follows the chain.
unfoldable pub first_branch : String → Answer → List (String × Answer) → Answer
first_branch op otherwise [] = otherwise
first_branch op otherwise ((name, answer) ∷ branches) =
    let rest = first_branch op otherwise branches in if str_eq op name then answer else rest

-- The branches below the test for a missing fact, in the source's order.
unfoldable pub branches_of : TextLibrary → Value → Value → List (String × Answer)
branches_of lib actual expected =
    ("==", eq_values lib actual expected)
    ∷ ("!=", negate (eq_values lib actual expected))
    ∷ ("<", compare_numbers lib lt_decimals actual expected)
    ∷ ("<=", compare_numbers lib le_decimals actual expected)
    ∷ (">", compare_numbers lib (λ a e. lt_decimals e a) actual expected)
    ∷ (">=", compare_numbers lib (λ a e. le_decimals e a) actual expected)
    ∷ ("in", in_value actual expected)
    ∷ ("not_in", negate (in_value actual expected))
    ∷ ("contains", contains_value actual expected)
    ∷ ("matches", matches_pattern lib actual expected)
    ∷ ("startswith", holds (starts_with_text lib actual expected))
    ∷ []

unfoldable pub compare_present : TextLibrary → Value → String → Value → Answer
unfolding first_branch branches_of
compare_present lib actual op expected =
    first_branch op (raises (unknown_operator op)) (branches_of lib actual expected)

abbrev pub compare_some : TextLibrary → Option Value → String → Value → Answer
compare_some lib none op expected = holds false
compare_some lib (some actual) op expected = compare_present lib actual op expected

-- `_compare`; `none` is `_MISSING`.
unfoldable pub compare : TextLibrary → Option Value → String → Value → Answer
compare lib actual op expected =
    if str_eq op "exists"
    then holds (exists_fact actual)
    else if str_eq op "not_exists"
    then holds (not (exists_fact actual))
    else compare_some lib actual op expected
