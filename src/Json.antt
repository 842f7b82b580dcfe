-- ===== src/Json.antt =====
-- JSON values as the Python code holds them: `None`, `bool`, `int`, `str`, `list` and `dict`.
-- (domain/dsl reads rules, contexts and facts in this form.) A dict is a list of entries; a lookup
-- takes the first one. `float` and `Decimal` are not modelled: every number is an `int`.
pub mod Compare
pub mod Size
pub mod Update
use andromeda_knowledge_core.Prelude.{
  ℕ, suc, ◌+◌, String, Bool, true, false, not, Option, none, some, List, [], ◌∷◌, Char, str_eq,
  ◌==◌, if◌then◌else◌, ◌&&◌, length,
}
use andromeda_knowledge_core.Prelude.Int.{ℤ, pos, negsuc}

mutual
  pub data Value : Type 0 where
    null : Value
    bool : Bool → Value
    num : ℤ → Value
    str : String → Value
    obj : Fields → Value
    arr : Items → Value

  -- A dict in the order of insertion: a key, its value, the rest.
  pub data Fields : Type 0 where
    field : String → Value → Fields → Fields
    end : Fields

  pub data Items : Type 0 where
    cons : Value → Items → Items
    nil : Items

-- The number of constructors of a value; Python has no such function, it is the evaluator's fuel.
unfoldable mutual
  pub size : Value → ℕ
  size (obj entries) = suc (size_fields entries)
  size (arr items) = suc (size_items items)
  size _ = 1

  pub size_fields : Fields → ℕ
  size_fields (field key value rest) = size value + size_fields rest
  size_fields end = 0

  pub size_items : Items → ℕ
  size_items (cons item rest) = size item + size_items rest
  size_items nil = 0

-- `d.get(k)`
unfoldable pub get : String → Fields → Option Value
get k end = none
get k (field j v fs) = if str_eq j k then some v else get k fs

-- `k in d`
abbrev pub is_some {ℓ} : {A : Type ℓ} → Option A → Bool
is_some none = false
is_some (some a) = true

-- `d.get(k)` where a missing key and an explicit `None` are not told apart.
abbrev pub value_or_null : Option Value → Value
value_or_null none = null
value_or_null (some v) = v

abbrev pub or_else : {A : Type 0} → Option A → Option A → Option A
or_else none b = b
or_else (some a) b = some a

unfoldable pub to_list : Items → List Value
to_list nil = []
to_list (cons x xs) = x ∷ to_list xs

unfoldable pub of_list : List Value → Items
of_list [] = nil
of_list (x ∷ xs) = cons x (of_list xs)

unfoldable pub keys : Fields → List String
keys end = []
keys (field k v fs) = k ∷ keys fs

-- The characters of a text, as Python iterates it.
unfoldable pub chars : String → List Value
chars String.[] = []
chars (String.◌∷◌ c s) = str (String.◌∷◌ c String.[]) ∷ chars s

abbrev pub is_zero : ℤ → Bool
is_zero (pos n) = n == 0
is_zero (negsuc n) = false

-- `bool(v)`
unfoldable pub truthy : Value → Bool
truthy null = false
truthy (bool b) = b
truthy (num n) = not (is_zero n)
truthy (str s) = not (str_eq s "")
truthy (arr nil) = false
truthy (arr (cons x xs)) = true
truthy (obj end) = false
truthy (obj (field k v fs)) = true

abbrev pub is_list : Value → Bool
is_list (arr xs) = true
is_list _ = false

abbrev pub is_text : Value → Bool
is_text (str s) = true
is_text _ = false
