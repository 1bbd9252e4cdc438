-- ===== src/Policy/Facts.antt =====
-- `get_fact` and `_num` of services/policy/recoup_policy/engine.py, and Python's `==` and `in` on
-- dynamic values.
use Prim.Native.Char.{Char, code}
use package.text.Mathlib.Text.{find?}
use recoup.Common.{
  ℕ, suc, ◌^◌, String, Bool, true, false, not, ◌&&◌, ◌||◌, Option, none, some, List, [], ◌∷◌,
  str_eq, ◌==◌, if◌then◌else◌, is_some,
}
use recoup.Common.Int.{ℤ, pos, scale_ℤ, ltb_ℤ, leb_ℤ, eqb_ℤ}
use recoup.Json.{
  Value, Items, Fields, null, bool, num, text, arr, obj, nil, cons, end, field, get_field,
}

-- A finite number (n, k) is n / 10 ^ k.
abbrev pub Number : Type 0
Number = ℤ × ℕ

-- Python's `Decimal`; an infinity says whether it is the negative one.
pub data Decimal : Type 0 where
  finite : Number → Decimal
  infinite : Bool → Decimal
  quiet_nan signaling_nan : Decimal

-- The library calls on texts: `Decimal(text)`, with `none` for InvalidOperation; `re.search(pattern, text) is not None`, with `none` for a pattern that is no
-- regular expression (`re.error`); and `str(value)`.
pub record TextLibrary : Type 0 where
  pub decimal : String → Option Decimal
  pub search : String → String → Option Bool
  pub to_text : Value → String

-- ---------- numbers ----------
unfoldable pub lt_num : Number → Number → Bool
lt_num (a, j) (b, k) = ltb_ℤ (scale_ℤ a (10 ^ k)) (scale_ℤ b (10 ^ j))

unfoldable pub le_num : Number → Number → Bool
le_num (a, j) (b, k) = leb_ℤ (scale_ℤ a (10 ^ k)) (scale_ℤ b (10 ^ j))

unfoldable pub eq_num : Number → Number → Bool
eq_num (a, j) (b, k) = eqb_ℤ (scale_ℤ a (10 ^ k)) (scale_ℤ b (10 ^ j))

-- `_num`
unfoldable pub to_num : TextLibrary → Value → Option Decimal
to_num lib (num n k) = some (finite (n, k))
to_num lib (text t) = lib.decimal t
to_num lib null = none
to_num lib (bool b) = none
to_num lib (arr xs) = none
to_num lib (obj fs) = none

-- ---------- equality ----------
-- Python compares `True` with 1.
unfoldable pub bool_num : Bool → Number
bool_num true = (pos 1, 0)
bool_num false = (pos 0, 0)

abbrev pub eq_bool : Bool → Bool → Bool
eq_bool true b = b
eq_bool false b = not b

unfoldable pub size_fields : Fields → ℕ
size_fields end = 0
size_fields (field k v r) = suc (size_fields r)

-- `a == b` where one side is no container.
unfoldable pub eq_simple : Value → Value → Bool
unfolding eq_num bool_num
eq_simple null null = true
eq_simple (bool a) (bool b) = eq_bool a b
eq_simple (bool a) (num n k) = eq_num (bool_num a) (n, k)
eq_simple (num n k) (bool b) = eq_num (n, k) (bool_num b)
eq_simple (num n k) (num m j) = eq_num (n, k) (m, j)
eq_simple (text a) (text b) = str_eq a b
eq_simple _ _ = false

unfoldable mutual
  pub py_eq : Value → Value → Bool
  py_eq (arr xs) b = elim b [ arr ys ↦ eq_items xs ys | _ ↦ false ]
  py_eq (obj fs) b = elim b [
    | obj gs ↦ sub_fields fs gs && size_fields fs == size_fields gs
    | _ ↦ false
  ]
  py_eq null b = eq_simple null b
  py_eq (bool x) b = eq_simple (bool x) b
  py_eq (num n k) b = eq_simple (num n k) b
  py_eq (text t) b = eq_simple (text t) b

  pub eq_items : Items → Items → Bool
  eq_items nil ys = elim ys [ nil ↦ true | cons y r ↦ false ]
  eq_items (cons x xs) ys = elim ys [ nil ↦ false | cons y r ↦ py_eq x y && eq_items xs r ]

  -- Every key of the first dictionary is in the second, with an equal value.
  pub sub_fields : Fields → Fields → Bool
  sub_fields end gs = true
  sub_fields (field k v r) gs =
      elim (get_field k gs) [ none ↦ false | some w ↦ py_eq v w ] && sub_fields r gs

-- `v in items`
unfoldable pub in_items : Value → Items → Bool
in_items v nil = false
in_items v (cons x xs) = py_eq v x || in_items v xs

-- `s in t` on texts
unfoldable pub in_text : String → String → Bool
in_text s t = is_some (find? t s)

-- ---------- facts ----------
abbrev push_char : Char → List String → List String
push_char c [] = String.◌∷◌ c String.[] ∷ []
push_char c (w ∷ ws) = String.◌∷◌ c w ∷ ws

-- `path.split(".")`
unfoldable pub split_dots : String → List String
split_dots String.[] = "" ∷ []
split_dots (String.◌∷◌ c s) =
    let rest = split_dots s in if code c == b'.' then "" ∷ rest else push_char c rest

abbrev child : String → Value → Option Value
child part (obj fs) = get_field part fs
child part _ = none

-- The walk along the parts of a path; `none` is `_MISSING`.
unfoldable pub walk : List String → Value → Option Value
walk [] cur = some cur
walk (part ∷ parts) cur = elim (child part cur) [ none ↦ none | some next ↦ walk parts next ]

unfoldable pub get_fact : Value → String → Option Value
unfolding walk split_dots
get_fact context path = walk (split_dots path) context
