-- ===== src/Engine.antt =====
-- domain/engine.py: one evaluation of the rules against a context. The registered effects are those
-- of `register_defaults`; the times and the text of the explanation are not kept.
pub mod Numbers
pub mod Exact
pub mod Run
pub mod Order
pub mod Sorted
pub mod Versions
pub mod Safety
pub mod Priorities
mod Tests
use andromeda_knowledge_core.Prelude.{
  ℕ, String, Bool, true, false, not, Option, none, some, List, [], ◌∷◌, ◌++◌, ◌&&◌, ◌||◌, any,
  str_eq, if◌then◌else◌, ltb, length,
}
use andromeda_knowledge_core.Prelude.Int.{ℤ, pos, ltb_ℤ}
use andromeda_knowledge_core.Errors.{
  Result, ok, err, validation, fault, key_error, type_error, ◌>>=◌, or_raise,
}
use andromeda_knowledge_core.Json.{
  Value, null, bool, num, str, arr, obj, Fields, end, field, get, value_or_null, or_else, truthy,
}
use andromeda_knowledge_core.Json.Compare.{compare_text}
use andromeda_knowledge_core.Dsl.{is_word, iterate}
use andromeda_knowledge_core.Dsl.Evaluate.{evaluate, resolve_value}
use andromeda_knowledge_core.Dsl.Evaluate.References.{EvaluationData, Trace, Step, Dependency}
use andromeda_knowledge_core.Rules.{Rule, scope_matches, as_dict, effect_target}
use Numbers.{add_numbers, subtract_numbers}

-- The members of `EffectType`.
pub data EffectType : Type 0 where
  set add subtract grant deny mark_eligible mark_ineligible emit_derived : EffectType

unfoldable pub effect_type_of : String → Option EffectType
effect_type_of s =
    if str_eq s "SET"
    then some set
    else if str_eq s "ADD"
    then some add
    else if str_eq s "SUBTRACT"
    then some subtract
    else if str_eq s "GRANT"
    then some grant
    else if str_eq s "DENY"
    then some deny
    else if str_eq s "MARK_ELIGIBLE"
    then some mark_eligible
    else if str_eq s "MARK_INELIGIBLE"
    then some mark_ineligible
    else if str_eq s "EMIT_DERIVED"
    then some emit_derived
    else none

-- `EffectAccumulator`
pub record Accumulator : Type 0 where
  pub context : Fields
  pub scalars : Fields
  pub grants : List (String × Value)
  pub denials : List (String × Value)
  pub eligible : Option Bool
  pub emitted : List (String × Value)
  pub set_priorities : List (String × ℤ)

-- `d[key] = value`
unfoldable pub put : String → Value → Fields → Fields
put key v end = field key v end
put key v (field j w fs) = if str_eq j key then field j v fs else field j w (put key v fs)

-- `initial_value(target)`
unfoldable pub initial_value : String → Accumulator → Value
initial_value target acc = elim (or_else (get target acc.scalars) (get target acc.context)) [
  | none ↦ num (pos 0)
  | some v ↦ v
]

-- What a handler returns for the trace, or what stands there for a SET that is overridden.
pub data EffectTrace : Type 0 where
  applied : EffectType → String → Value → EffectTrace
  computed : EffectType → String → Value → Value → EffectTrace
  overridden : String → ℤ → EffectTrace

-- `_value(effect, data)`: the dependencies of the value are not passed on.
unfoldable pub effect_value : EvaluationData → Fields → Result Value
effect_value d fs = do t ← resolve_value d (value_or_null (get "value" fs)); ok t.value

abbrev pub Handled : Type 0
Handled = Result (Accumulator × EffectTrace)

abbrev pub one_more : {A : Type 0} → List A → A → List A
one_more xs x = xs ++ x ∷ []

abbrev pub Operation : Type 0
Operation = Value → Value → Result Value

-- `_handle_add` and `_handle_subtract`
unfoldable pub handle_number :
    EffectType → Operation → EvaluationData → Fields → Accumulator → Handled
handle_number kind operation d fs acc = do
  v ← effect_value d fs
  target ← effect_target fs
  result ← operation (initial_value target acc) v
  ok (record acc { scalars = put target result acc.scalars }, computed kind target v result)

-- The handlers `_handle_set`, …, `_handle_emit_derived`
unfoldable pub handle : EffectType → EvaluationData → Fields → Accumulator → Handled
handle set d fs acc = do
  v ← effect_value d fs
  target ← effect_target fs
  ok (record acc { scalars = put target v acc.scalars }, applied set target v)
handle add d fs acc = handle_number add add_numbers d fs acc
handle subtract d fs acc = handle_number subtract subtract_numbers d fs acc
handle grant d fs acc = do
  v ← effect_value d fs
  target ← effect_target fs
  ok (record acc { grants = one_more acc.grants (target, v) }, applied grant target v)
handle deny d fs acc = do
  v ← effect_value d fs
  target ← effect_target fs
  ok (record acc { denials = one_more acc.denials (target, v) }, applied deny target v)
handle mark_eligible d fs acc = do
  target ← effect_target fs
  ok (record acc { eligible = some true }, applied mark_eligible target (bool true))
handle mark_ineligible d fs acc = do
  target ← effect_target fs
  ok (record acc { eligible = some false }, applied mark_ineligible target (bool false))
handle emit_derived d fs acc = do
  target ← effect_target fs
  v ← effect_value d fs
  ok (record acc { emitted = one_more acc.emitted (target, v) }, applied emit_derived target v)

-- `self._handlers.get(effect_type)`
unfoldable pub registered : Value → Result EffectType
registered (str s) = or_raise (validation "INVALID_EFFECT") (effect_type_of s)
registered (arr xs) = err (fault type_error)
registered (obj fs) = err (fault type_error)
registered _ = err (validation "INVALID_EFFECT")

-- `target in accumulator.set_priorities`
unfoldable pub is_set : String → Accumulator → Bool
is_set target acc = any (λ entry. str_eq entry.0 target) acc.set_priorities

-- `d[target] = priority` of a dict of priorities
unfoldable pub put_priority : String → ℤ → List (String × ℤ) → List (String × ℤ)
put_priority target priority [] = (target, priority) ∷ []
put_priority target priority (entry ∷ entries) =
    let rest = put_priority target priority entries in
    if str_eq entry.0 target then (target, priority) ∷ entries else entry ∷ rest

-- `accumulator.set_priorities[target] = priority`, after a SET
unfoldable pub note_set : EffectType → String → ℤ → Accumulator → Accumulator
note_set set target priority acc = record acc {
  set_priorities = put_priority target priority acc.set_priorities;
}
note_set _ target priority acc = acc

-- An effect that is not overridden
unfoldable pub run_handler : EvaluationData → ℤ → Fields → Accumulator → Handled
run_handler d priority fs acc = do
  kind ← registered (value_or_null (get "type" fs))
  handled ← handle kind d fs acc
  target ← effect_target fs
  ok (note_set kind target priority handled.0, handled.1)

-- the target that a SET finds set already
unfoldable pub overridden_target : Fields → Accumulator → Option String
overridden_target fs acc = elim (value_or_null (get "target" fs)) [
  | str target ↦
      if is_word (value_or_null (get "type" fs)) "SET" && is_set target acc
      then some target
      else none
  | _ ↦ none
]

unfoldable pub apply_fields : EvaluationData → ℤ → Fields → Accumulator → Handled
apply_fields d priority fs acc = elim (overridden_target fs acc) [
  | some target ↦ ok (acc, overridden target priority)
  | none ↦ run_handler d priority fs acc
]

-- One round of the loop over a rule's effects
unfoldable pub apply_effect : EvaluationData → ℤ → Value → Accumulator → Handled
apply_effect d priority effect acc = do fs ← as_dict effect; apply_fields d priority fs acc

unfoldable pub apply_effects :
    EvaluationData → ℤ → List Value → Accumulator → Result (Accumulator × List EffectTrace)
apply_effects d priority [] acc = ok (acc, [])
apply_effects d priority (effect ∷ effects) acc = do
  first ← apply_effect d priority effect acc
  rest ← apply_effects d priority effects first.0
  ok (rest.0, first.1 ∷ rest.1)
