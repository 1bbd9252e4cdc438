-- ===== src/Json.antt =====
-- Dynamic values: the JSON that the services store, send and evaluate (`Any` and `dict[str, Any]` in
-- the source). A list and a dictionary are types of their own in the block. A number is a decimal,
-- `num n k` for n / 10 ^ k, which covers Python's `int`, `Decimal` and the text of a finite `float`.
use recoup.Common.{ℕ, String, Bool, true, false, Option, none, some, str_eq, if◌then◌else◌}
use recoup.Common.Int.{ℤ}

mutual
  -- A dictionary keeps the order in which its keys were written.
  pub data Fields : Type 0 where
    field : String → Value → Fields → Fields
    end : Fields

  pub data Value : Type 0 where
    obj : Fields → Value
    text : String → Value
    num : ℤ → ℕ → Value
    arr : Items → Value
    bool : Bool → Value
    null : Value

  pub data Items : Type 0 where
    cons : Value → Items → Items
    nil : Items

-- `fields[key]`, with `none` where the key is missing.
unfoldable pub get_field : String → Fields → Option Value
get_field key end = none
get_field key (field name v rest) =
    let found = get_field key rest in if str_eq name key then some v else found

-- `key in fields`
unfoldable pub has_key : String → Fields → Bool
has_key key fs = elim (get_field key fs) [ none ↦ false | some v ↦ true ]

-- Python's truth value of a dictionary.
abbrev pub is_nonempty : Fields → Bool
is_nonempty end = false
is_nonempty (field k v r) = true

-- `fields[key] = v`
pub set_field : String → Value → Fields → Fields
set_field key v end = field key v end
set_field key v (field name w rest) =
    if str_eq name key then field name v rest else field name w (set_field key v rest)

-- `{**base, **over}`: the second dictionary wins on a shared key.
unfoldable pub merge : Fields → Fields → Fields
unfolding set_field
merge base end = base
merge base (field k v rest) = merge (set_field k v base) rest
