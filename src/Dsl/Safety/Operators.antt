-- ===== src/Dsl/Safety/Operators.antt =====
-- What the operators of the DSL do on operators that the validator knows: they give a result, or
-- report values of the wrong type.
use andromeda_knowledge_core.Prelude.{
  ℕ, String, ◌≡◌, refl, Bool, true, false, not, Option, none, some, List, [], ◌∷◌, arith, inl, inr,
  Option-cases, any, str_eq, all, length, if◌then◌else◌,
}
use andromeda_knowledge_core.Prelude.Int.{ℤ, pos, negsuc, ◌+ℤ◌}
use andromeda_knowledge_core.Errors.{
  Result, ok, err, Error, validation, fault, key_error, ◌>>=◌, or_raise, >>=-eq-ok, ok-injective,
  Only, Only-bind, Only-ok, Only-if, only_rules,
}
use andromeda_knowledge_core.Json.{Value, bool, num, str, Fields, get, value_or_null, truthy}
use andromeda_knowledge_core.Json.Compare.{py_order, as_int, Order, lt, gt}
use andromeda_knowledge_core.Dsl.{
  in_texts, is_word, comparison_operators, aggregation_operators, quantifier_operators,
}
use andromeda_knowledge_core.Dsl.Validate.{
  NodePath, key, Report, report_if, check_operator, is_count, Message, unknown_operator,
}
use andromeda_knowledge_core.Dsl.Evaluate.Operators.{
  Comparison, equal, unequal, order, comparison_of, compare_values, compare_by, apply_comparison,
  aggregate, aggregate_some, sum_from, best, quantify, count_true, reaches,
}

abbrev pub IsMismatch : Error → Type 0
IsMismatch e = e ≡ validation "DSL_TYPE_MISMATCH"

pub mismatch_lem : IsMismatch (validation "DSL_TYPE_MISMATCH")
mismatch_lem = refl

pub ruleset safe_rules = (only_rules, mismatch_lem)

-- The report has no errors.
abbrev pub Passes : Report → Type 0
Passes r = r ≡ ok []

pub report_passes : (b : Bool) (p : NodePath) (m : Message) → report_if b p m ≡ [] → b ≡ false
report_passes true p m h = cc
report_passes false p m h = refl

known_operator :
    (ws : List String) (o : Option Value)
    → in_texts ws (value_or_null o) ≡ ok true
    → (s : String) × (o ≡ some (str s)) × (any (λ w. str_eq s w) ws ≡ true)
unfolding in_texts
known_operator ws none h = cc
known_operator ws (some (str s)) h = (s, refl, ok-injective h)
known_operator ws (some _) h = cc

-- An operator that the validator knows is in the node, and is one of the texts of its set.
pub operator_found :
    (ws : List String) (fs : Fields) (p : NodePath)
    → Passes (check_operator ws fs p)
    → (s : String) × (get "operator" fs ≡ some (str s)) × (any (λ w. str_eq s w) ws ≡ true)
unfolding check_operator
operator_found ws fs p h =
    let (known, e, f) =
      >>=-eq-ok (in_texts ws (value_or_null (get "operator" fs)))
        (λ known. ok (report_if (not known) (key p "operator") unknown_operator)) h in
    known_operator ws (get "operator" fs) (
      rw
        (← not_false known
          (report_passes (not known) (key p "operator") unknown_operator (ok-injective f)))
        e)
  where
    not_false : (b : Bool) → not b ≡ false → b ≡ true
    not_false true h = refl
    not_false false h = cc

sum_from-safe : (total : ℤ) (vs : List Value) → Only IsMismatch (sum_from total vs)
unfolding sum_from
sum_from-safe total [] = search safe_rules
sum_from-safe total (v ∷ vs) = elim (Option-cases (as_int v)) [
  | inl e ↦ rw (e, sum_from) (search safe_rules)
  | inr (n, e) ↦ rw (e, sum_from) (sum_from-safe (total +ℤ n) vs)
]

best-safe : (o : Order) (m : Value) (vs : List Value) → Only IsMismatch (best o m vs)
unfolding best
best-safe o m [] = search safe_rules
best-safe o m (v ∷ vs) = elim (Option-cases (py_order o v m)) [
  | inl e ↦ rw (e, best) (search safe_rules)
  | inr (b, e) ↦ rw (e, best) (best-safe o (if b then v else m) vs)
]

apply_comparison-safe :
    (c : Comparison) (left right : Value) → Only IsMismatch (apply_comparison c left right)
unfolding apply_comparison
apply_comparison-safe equal left right = search safe_rules
apply_comparison-safe unequal left right = search safe_rules
apply_comparison-safe (order o) left right = elim (Option-cases (py_order o left right)) [
  | inl e ↦ rw (e, apply_comparison) (search safe_rules)
  | inr (b, e) ↦ rw (e, apply_comparison) (search safe_rules)
]

-- every text of COMPARISON_OPERATORS names a comparison
comparison_known :
    (s : String)
    → any (λ w. str_eq s w) comparison_operators ≡ true
    → (c : Comparison) × (comparison_of s ≡ some c)
unfolding comparison_of comparison_operators any
comparison_known s h = elim (Option-cases (comparison_of s)) [
  | inl e ↦ absurd (unknown e)
  | inr found ↦ found
]
  where
    unknown : comparison_of s ≡ none → ⊥
    unknown e = ground arith

compare_by-safe :
    (left right : Value) (s : String) (c : Comparison)
    → comparison_of s ≡ some c
    → Only IsMismatch (compare_by left right (str s))
unfolding compare_by
compare_by-safe left right s c e = rw (e, compare_by) (apply_comparison-safe c left right)

pub compare_values-safe :
    (left right : Value) (s : String)
    → any (λ w. str_eq s w) comparison_operators ≡ true
    → Only IsMismatch (compare_values left right (str s))
unfolding compare_values
compare_values-safe left right s h =
    let (c, e) = comparison_known s h in search (safe_rules, compare_by-safe left right s c e)

pub aggregate-safe :
    (s : String) (vs : List Value)
    → any (λ w. str_eq s w) aggregation_operators ≡ true
    → Only IsMismatch (aggregate (str s) vs)
unfolding aggregate aggregate_some is_word aggregation_operators any
aggregate-safe s [] h = search safe_rules
aggregate-safe s (v ∷ vs) h =
    split "count" (λ _. Only-ok IsMismatch (num (pos (length (v ∷ vs)))))
      (λ c.
        split "sum" (λ _. sum_from-safe (pos 0) (v ∷ vs))
          (λ a.
            split "min" (λ _. best-safe lt v vs)
              (λ b. split "max" (λ _. best-safe gt v vs) (λ e. absurd (none_left c a b e)))))
  where
    split :
        (w : String) {m n : Result Value}
        → (str_eq s w ≡ true → Only IsMismatch m)
        → (str_eq s w ≡ false → Only IsMismatch n)
        → Only IsMismatch (if str_eq s w then m else n)
    split w {m} {n} = Only-if IsMismatch (str_eq s w) m n

    none_left :
        str_eq s "count" ≡ false
        → str_eq s "sum" ≡ false
        → str_eq s "min" ≡ false
        → str_eq s "max" ≡ false
        → ⊥
    none_left a b c d = ground arith

reaches-safe : (n : ℕ) (v : Value) → is_count v ≡ true → Only IsMismatch (reaches n v)
unfolding reaches is_count truthy
reaches-safe n (num (pos m)) h = search safe_rules
reaches-safe n (num (negsuc m)) h = cc
reaches-safe n (bool true) h = search safe_rules
reaches-safe n (bool false) h = search safe_rules
reaches-safe n _ h = cc

pub quantify-safe :
    (s : String) (bs : List Bool) (count : Value)
    → any (λ w. str_eq s w) quantifier_operators ≡ true
    → (str_eq s "at_least" ≡ true → is_count count ≡ true)
    → Only IsMismatch (quantify (str s) bs count)
unfolding quantify is_word quantifier_operators any
quantify-safe s bs count h c =
    split "any" (λ _. Only-ok IsMismatch (any (λ b. b) bs))
      (λ x.
        split "all" (λ _. Only-ok IsMismatch (all (λ b. b) bs))
          (λ y.
            split "none" (λ _. Only-ok IsMismatch (not (any (λ b. b) bs)))
              (λ z.
                split "at_least" (λ e. reaches-safe (count_true bs) count (c e))
                  (λ e. absurd (none_left x y z e)))))
  where
    split :
        (w : String) {m n : Result Bool}
        → (str_eq s w ≡ true → Only IsMismatch m)
        → (str_eq s w ≡ false → Only IsMismatch n)
        → Only IsMismatch (if str_eq s w then m else n)
    split w {m} {n} = Only-if IsMismatch (str_eq s w) m n

    none_left :
        str_eq s "any" ≡ false
        → str_eq s "all" ≡ false
        → str_eq s "none" ≡ false
        → str_eq s "at_least" ≡ false
        → ⊥
    none_left a b c d = ground arith
