-- ===== src/Dsl/Evaluate/Operators.antt =====
-- `_compare`, `_aggregate` and `_quantify` of domain/dsl/evaluator.py.
use andromeda_knowledge_core.Prelude.{
  ℕ, suc, String, Bool, true, false, not, Option, none, some, List, [], ◌∷◌, if◌then◌else◌, ◌&&◌,
  ◌||◌, leb, str_eq, any, all, length,
}
use andromeda_knowledge_core.Prelude.Int.{ℤ, pos, negsuc, ◌+ℤ◌}
use andromeda_knowledge_core.Errors.{
  Result, ok, err, validation, fault, key_error, type_error, index_error,
}
use andromeda_knowledge_core.Json.{Value, null, bool, num, str, arr, obj, truthy}
use andromeda_knowledge_core.Json.Compare.{py_eq, py_order, Order, lt, le, gt, ge, as_int}
use andromeda_knowledge_core.Dsl.{is_word}

abbrev pub mismatch {ℓ} : {A : Type ℓ} → Result A
mismatch = err (validation "DSL_TYPE_MISMATCH")

-- The `functions` of `_compare`.
pub data Comparison : Type 0 where
  equal unequal : Comparison
  order : Order → Comparison

unfoldable pub comparison_of : String → Option Comparison
comparison_of s =
    if str_eq s "=="
    then some equal
    else if str_eq s "!="
    then some unequal
    else if str_eq s ">"
    then some (order gt)
    else if str_eq s ">="
    then some (order ge)
    else if str_eq s "<"
    then some (order lt)
    else if str_eq s "<="
    then some (order le)
    else none

abbrev pub is_null : Value → Bool
is_null null = true
is_null _ = false

-- `functions[operation](left, right)`. On two numbers the code compares `Decimal`s, which order
-- `int`s as `int`s are ordered.
unfoldable pub apply_comparison : Comparison → Value → Value → Result Bool
apply_comparison equal left right = ok (py_eq left right)
apply_comparison unequal left right = ok (not (py_eq left right))
apply_comparison (order o) left right = elim (py_order o left right) [
  | none ↦ mismatch
  | some b ↦ ok b
]

-- `functions[operation]`: an operation that cannot be hashed raises a `TypeError`, which is caught.
unfoldable pub compare_by : Value → Value → Value → Result Bool
compare_by left right (str s) = elim (comparison_of s) [
  | none ↦ err (fault key_error)
  | some c ↦ apply_comparison c left right
]
compare_by left right (arr xs) = mismatch
compare_by left right (obj fs) = mismatch
compare_by left right _ = err (fault key_error)

-- `_compare` with the handler of `_comparison`
unfoldable pub compare_values : Value → Value → Value → Result Bool
compare_values left right operator =
    if is_null left || is_null right
    then ok (
        (is_word operator "==" && is_null left && is_null right)
        || (is_word operator "!=" && not (is_null left && is_null right)))
    else compare_by left right operator

-- `sum(values)`: a running total, to which only numbers and `bool`s can be added.
unfoldable pub sum_from : ℤ → List Value → Result Value
sum_from total [] = ok (num total)
sum_from total (v ∷ vs) = elim (as_int v) [ none ↦ mismatch | some n ↦ sum_from (total +ℤ n) vs ]

-- `min(values)` and `max(values)`: the first value that no later one beats.
unfoldable pub best : Order → Value → List Value → Result Value
best o m [] = ok m
best o m (v ∷ vs) = elim (py_order o v m) [
  | none ↦ mismatch
  | some better ↦ best o (if better then v else m) vs
]

-- `_aggregate` of values that are not empty
unfoldable pub aggregate_some : Value → Value → List Value → Result Value
aggregate_some operator v vs =
    if is_word operator "sum"
    then sum_from (pos 0) (v ∷ vs)
    else if is_word operator "min"
    then best lt v vs
    else if is_word operator "max"
    then best gt v vs
    else err (validation "INVALID_DSL")

unfoldable pub aggregate : Value → List Value → Result Value
aggregate operator vs =
    if is_word operator "count"
    then ok (num (pos (length vs)))
    else elim vs [ [] ↦ ok null | v ∷ rest ↦ aggregate_some operator v rest ]

-- `sum(values)` of `bool`s
unfoldable pub count_true : List Bool → ℕ
count_true [] = 0
count_true (true ∷ bs) = suc (count_true bs)
count_true (false ∷ bs) = count_true bs

-- `true_count >= (count or 0)`
unfoldable pub reaches : ℕ → Value → Result Bool
reaches n (num (pos m)) = ok (leb m n)
reaches n (num (negsuc m)) = ok true
reaches n (bool true) = ok (leb 1 n)
reaches n v = if truthy v then err (fault type_error) else ok true

unfoldable pub quantify : Value → List Bool → Value → Result Bool
quantify operator bs count =
    if is_word operator "any"
    then ok (any (λ b. b) bs)
    else if is_word operator "all"
    then ok (all (λ b. b) bs)
    else if is_word operator "none"
    then ok (not (any (λ b. b) bs))
    else if is_word operator "at_least"
    then reaches (count_true bs) count
    else err (validation "INVALID_DSL")

-- The result of `_logical`; any operator but `and` and `or` negates the first value.
unfoldable pub logical_result : Value → List Bool → Result Bool
logical_result operator bs =
    if is_word operator "and"
    then ok (all (λ b. b) bs)
    else if is_word operator "or"
    then ok (any (λ b. b) bs)
    else elim bs [ [] ↦ err (fault index_error) | b ∷ _ ↦ ok (not b) ]
