-- ===== src/Rules.antt =====
-- domain/rules.py: the scopes of rules and the conflicts between them. The validation of a rule's
-- payload is in Rules/Payload.antt.
pub mod Payload
pub mod WellFormed
pub mod Overlap
mod Tests
use andromeda_knowledge_core.Prelude.{
  ℕ, String, ◌≡◌, Bool, true, false, not, Option, none, some, List, [], ◌∷◌, ◌&&◌, ◌||◌, any,
  str_eq, all, if◌then◌else◌,
}
use andromeda_knowledge_core.Prelude.Int.{ℤ, eqb_ℤ}
use andromeda_knowledge_core.Errors.{Result, ok, err, fault, key_error, type_error, ◌>>=◌, or_raise}
use andromeda_knowledge_core.Json.{
  Value, null, bool, num, str, arr, obj, Items, nil, cons, Fields, end, field, get, value_or_null,
  to_list,
}
use andromeda_knowledge_core.Json.Compare.{py_eq, is_in}
use andromeda_knowledge_core.Dsl.{iterate}
use andromeda_knowledge_core.Dsl.Evaluate.References.{text_of}

-- `RuleRecord`, and a row of the rules: the JSON columns are values. Of the times, the provenance
-- and the tests only what these files read is kept.
pub record Rule : Type 0 where
  pub id : String
  pub logical_key : String
  pub version : ℕ
  pub status : String
  pub priority : ℤ
  pub scope : Fields
  pub conditions : Value
  pub effects : Value
  pub exceptions : Value

unfoldable mutual
  -- `scope_matches(scope, context)`
  pub scope_matches : Fields → Fields → Bool
  scope_matches end context = true
  scope_matches (field key expected rest) context =
      expectation_met expected (value_or_null (get key context)) && scope_matches rest context

  -- One round of its loop: a list expects one of its values, a dict a nested match.
  pub expectation_met : Value → Value → Bool
  expectation_met (arr xs) actual = is_in actual (to_list xs)
  expectation_met (obj fs) actual = elim actual [ obj gs ↦ scope_matches fs gs | _ ↦ false ]
  expectation_met null actual = py_eq actual null
  expectation_met (bool b) actual = py_eq actual (bool b)
  expectation_met (num n) actual = py_eq actual (num n)
  expectation_met (str s) actual = py_eq actual (str s)

-- A value that Python can hash.
unfoldable pub is_hashable : Value → Bool
is_hashable (arr xs) = false
is_hashable (obj fs) = false
is_hashable _ = true

-- `bool(set(xs) & set(ys))`
unfoldable pub sets_meet : List Value → List Value → Result Bool
sets_meet xs ys =
    if all is_hashable xs && all is_hashable ys
    then ok (any (λ x. is_in x ys) xs)
    else err (fault type_error)

unfoldable pub values_overlap : Value → Value → Result Bool
values_overlap (arr xs) (arr ys) = sets_meet (to_list xs) (to_list ys)
values_overlap v w = ok (py_eq v w)

-- `_scopes_overlap(left, right)`, over the keys of `left` that `right` has too
unfoldable pub scopes_overlap : Fields → Fields → Result Bool
scopes_overlap end right = ok true
scopes_overlap (field key v rest) right = elim (get key right) [
  | none ↦ scopes_overlap rest right
  | some w ↦ do meet ← values_overlap v w; if meet then scopes_overlap rest right else ok false
]

-- A dict from targets to types and values; a later entry replaces an earlier one.
abbrev pub EffectMap : Type 0
EffectMap = List (String × Value × Value)

unfoldable pub lookup_effect : String → EffectMap → Option (Value × Value)
lookup_effect t [] = none
lookup_effect t ((u, kind, v) ∷ m) = if str_eq u t then some (kind, v) else lookup_effect t m

-- `effect.get(name)` of what should be a dict
unfoldable pub as_dict : Value → Result Fields
as_dict (obj fs) = ok fs
as_dict _ = err (fault type_error)

-- `effect["target"]`; a target that is no text is not modelled
unfoldable pub effect_target : Fields → Result String
effect_target fs = do target ← or_raise (fault key_error) (get "target" fs); text_of target

-- `_effect_map`: the last effect on a target comes first in the list and is the one looked up.
unfoldable pub effect_map : EffectMap → List Value → Result EffectMap
effect_map m [] = ok m
effect_map m (effect ∷ effects) = do
  fs ← as_dict effect
  target ← effect_target fs
  kind ← or_raise (fault key_error) (get "type" fs)
  effect_map ((target, kind, value_or_null (get "value" fs)) ∷ m) effects

-- `left_effects[target] != right_effects[target]`
abbrev pub effects_differ : Value × Value → Value × Value → Bool
effects_differ (kind, v) (kind', v') = not (py_eq kind kind' && py_eq v v')

-- some target of `m`, looked up in `left` and `right`, has different effects
unfoldable pub some_target_differs : EffectMap → EffectMap → EffectMap → Bool
some_target_differs [] left right = false
some_target_differs ((t, _, _) ∷ m) left right =
    let rest = some_target_differs m left right in
    elim (lookup_effect t left) [
      | none ↦ rest
      | some a ↦ elim (lookup_effect t right) [ none ↦ rest | some b ↦ effects_differ a b || rest ]
    ]

-- `effect_conflicts(left, right)`
unfoldable pub effect_conflicts : Rule → Rule → Result Bool
effect_conflicts left right =
    if eqb_ℤ left.priority right.priority
    then (do
      overlap ← scopes_overlap left.scope right.scope
      if overlap
          then (do
            left_effects ← iterate left.effects
            right_effects ← iterate right.effects
            left_map ← effect_map [] left_effects
            right_map ← effect_map [] right_effects
            ok (some_target_differs left_map left_map right_map))
          else ok false)
    else ok false
