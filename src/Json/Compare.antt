-- ===== src/Json/Compare.antt =====
-- Python's `==` and ordering on JSON values. A `bool` is an `int` here, a dict compares without
-- regard to the order of its entries, and an order between unlike types is a `TypeError` (`none`).
use Prim.Native.Nat.{compare, Ordering}
use andromeda_knowledge_core.Prelude.{
  String, Bool, true, false, Option, none, some, List, [], ◌∷◌, code, str_eq, ◌==◌, if◌then◌else◌,
  ◌&&◌, length,
}
use andromeda_knowledge_core.Prelude.Int.{ℤ, pos, ltb_ℤ, eqb_ℤ}
use andromeda_knowledge_core.Json.{
  Value, null, bool, num, str, arr, obj, Items, nil, cons, Fields, end, field, get, keys,
}

-- `int(b)`
abbrev pub int_of_bool : Bool → ℤ
int_of_bool true = pos 1
int_of_bool false = pos 0

-- A number or a `bool`, as the number that it is.
abbrev pub as_int : Value → Option ℤ
as_int (bool b) = some (int_of_bool b)
as_int (num n) = some n
as_int _ = none

abbrev pub eq_int : ℤ → Value → Bool
eq_int n w = elim (as_int w) [ none ↦ false | some m ↦ eqb_ℤ n m ]

unfoldable mutual
  -- `v == w`
  pub py_eq : Value → Value → Bool
  py_eq null w = elim w [ null ↦ true | _ ↦ false ]
  py_eq (bool b) w = eq_int (int_of_bool b) w
  py_eq (num n) w = eq_int n w
  py_eq (str s) w = elim w [ str t ↦ str_eq s t | _ ↦ false ]
  py_eq (arr xs) w = elim w [ arr ys ↦ items_eq xs ys | _ ↦ false ]
  py_eq (obj fs) w = elim w [
    | obj gs ↦ length (keys fs) == length (keys gs) && fields_eq fs gs
    | _ ↦ false
  ]

  pub items_eq : Items → Items → Bool
  items_eq nil ys = elim ys [ nil ↦ true | _ ↦ false ]
  items_eq (cons x xs) ys = elim ys [ nil ↦ false | cons y ys ↦ py_eq x y && items_eq xs ys ]

  -- Every entry of the first dict is in the second.
  pub fields_eq : Fields → Fields → Bool
  fields_eq end gs = true
  fields_eq (field k v fs) gs = elim (get k gs) [
    | none ↦ false
    | some w ↦ py_eq v w && fields_eq fs gs
  ]

-- `a < b`, `a <= b`, `a > b`, `a >= b`
pub data Order : Type 0 where
  lt le gt ge : Order

abbrev holds : Order → Ordering → Bool
holds lt c = elim c [ Ordering.lt ↦ true | _ ↦ false ]
holds le c = elim c [ Ordering.gt ↦ false | _ ↦ true ]
holds gt c = elim c [ Ordering.gt ↦ true | _ ↦ false ]
holds ge c = elim c [ Ordering.lt ↦ false | _ ↦ true ]

abbrev pub compare_ℤ : ℤ → ℤ → Ordering
compare_ℤ a b = if ltb_ℤ a b then Ordering.lt else if eqb_ℤ a b then Ordering.eq else Ordering.gt

-- Texts compare by code points.
unfoldable pub compare_text : String → String → Ordering
compare_text String.[] t = elim t [ String.[] ↦ Ordering.eq | String.◌∷◌ _ _ ↦ Ordering.lt ]
compare_text (String.◌∷◌ c s) t = elim t [
  | String.[] ↦ Ordering.gt
  | String.◌∷◌ d t ↦ elim (compare (code c) (code d)) [
    | Ordering.lt ↦ Ordering.lt
    | Ordering.gt ↦ Ordering.gt
    | Ordering.eq ↦ compare_text s t
  ]
]

abbrev order_int : Order → ℤ → Value → Option Bool
order_int o n w = elim (as_int w) [ none ↦ none | some m ↦ some (holds o (compare_ℤ n m)) ]

unfoldable mutual
  pub py_order : Order → Value → Value → Option Bool
  py_order o null w = none
  py_order o (bool b) w = order_int o (int_of_bool b) w
  py_order o (num n) w = order_int o n w
  py_order o (str s) w = elim w [ str t ↦ some (holds o (compare_text s t)) | _ ↦ none ]
  py_order o (arr xs) w = elim w [ arr ys ↦ items_order o xs ys | _ ↦ none ]
  py_order o (obj fs) w = none

  -- Lists compare at their first unequal items, or by length.
  pub items_order : Order → Items → Items → Option Bool
  items_order o nil ys = elim ys [
    | nil ↦ some (holds o Ordering.eq)
    | cons _ _ ↦ some (holds o Ordering.lt)
  ]
  items_order o (cons x xs) ys = elim ys [
    | nil ↦ some (holds o Ordering.gt)
    | cons y ys ↦ elim (py_eq x y) [ true ↦ items_order o xs ys | false ↦ py_order o x y ]
  ]

-- `v in values`
unfoldable pub is_in : Value → List Value → Bool
is_in v [] = false
is_in v (w ∷ ws) = if py_eq v w then true else is_in v ws

-- `v is not None and v != []`
abbrev pub is_present : Value → Bool
is_present null = false
is_present (arr nil) = false
is_present _ = true
