-- ===== src/Rules/Tests.antt =====
-- Scopes, payloads and their validation on concrete rules, and the theorems at those inputs.
use andromeda_knowledge_core.Prelude.{◌≡◌, refl, subst, true, false, some, [], any, all}
use andromeda_knowledge_core.Errors.{ok}
use andromeda_knowledge_core.Json.{
  Value, num, str, arr, obj, nil, cons, Fields, end, field, get, to_list,
}
use andromeda_knowledge_core.Json.Compare.{py_eq, is_in}
use andromeda_knowledge_core.Prelude.Int.{pos}
use andromeda_knowledge_core.Dsl.{kind_of, node_kind, in_texts, is_word}
use andromeda_knowledge_core.Dsl.Validate.{
  validate_dsl, validate_node, validate_shape, validate_object, validate_kind, default_depth,
}
use andromeda_knowledge_core.Rules.{
  scope_matches, expectation_met, is_hashable, sets_meet, values_overlap, scopes_overlap,
}
use andromeda_knowledge_core.Rules.Payload.{
  allowed_effects, safe_validate_condition, is_mark, is_filled, validate_effect_value,
  validate_effect, enumerate, validate_effects, validate_exceptions, is_blank, has_logical_key,
  validate_rule_payload,
}
use andromeda_knowledge_core.Rules.Overlap.{
  SameForm, scopes_overlap_sound, scopes_overlap-mixed, ComparableFrom,
}
use andromeda_knowledge_core.Rules.WellFormed.{WellFormed, validate_rule_payload-WellFormed}

abbrev physics_or_maths : Fields
physics_or_maths = field "track" (arr (cons (str "physics") (cons (str "maths") nil))) end

abbrev maths_or_art : Fields
maths_or_art =
    field "year" (num (pos 2026))
      (field "track" (arr (cons (str "maths") (cons (str "art") nil))) end)

abbrev maths : Fields
maths = field "track" (str "maths") (field "year" (num (pos 2026)) end)

scopes : Unit {0}
unfolding scope_matches expectation_met is_hashable sets_meet values_overlap scopes_overlap is_in
    py_eq get any all to_list
scopes = tt

abbrev tracks : Value
tracks = arr (cons (str "physics") (cons (str "maths") nil))

abbrev maths_and_art : Value
maths_and_art = arr (cons (str "maths") (cons (str "art") nil))

listed : (w : Value) → get "track" maths_or_art ≡ some w → maths_and_art ≡ w
unfolding scopes
listed w e = cc

comparable : ComparableFrom physics_or_maths maths_or_art
unfolding scopes
comparable = (λ w e. subst (SameForm tracks) (listed w e) (refl, refl), tt)

left_matches : scope_matches physics_or_maths maths ≡ true
unfolding scopes
left_matches = refl

right_matches : scope_matches maths_or_art maths ≡ true
unfolding scopes
right_matches = refl

scopes_overlap_sound_example : scopes_overlap physics_or_maths maths_or_art ≡ ok true
scopes_overlap_sound_example =
    scopes_overlap_sound physics_or_maths maths_or_art maths comparable left_matches right_matches

maths_listed : is_in (str "maths") (to_list (cons (str "physics") (cons (str "maths") nil))) ≡ true
unfolding scopes
maths_listed = refl

maths_hashable : is_hashable (str "maths") ≡ true
unfolding scopes
maths_hashable = refl

scopes_overlap-mixed_example :
    (scope_matches (field "track" (str "maths") end) (field "track" (str "maths") end) ≡ true)
    × (scope_matches physics_or_maths (field "track" (str "maths") end) ≡ true)
    × (scopes_overlap (field "track" (str "maths") end) physics_or_maths ≡ ok false)
scopes_overlap-mixed_example =
    scopes_overlap-mixed "track" (str "maths") (cons (str "physics") (cons (str "maths") nil))
      maths_hashable maths_listed

-- a rule that grants a discount to everyone
abbrev grant_payload : Fields
grant_payload = field "logical_key" (str "discount") (
    field "ontology_version_id" (str "v1") (
      field "conditions" (obj (field "kind" (str "literal") (field "value" (num (pos 1)) end))) (
        field "effects"
          (arr (
            cons
              (obj (
                field "type" (str "GRANT")
                  (field "target" (str "discount") (field "value" (num (pos 10)) end))))
              nil))
          end)))

grant_payload-passes : validate_rule_payload default_depth grant_payload ≡ ok []
unfolding validate_rule_payload allowed_effects safe_validate_condition is_mark is_filled
    validate_effect_value validate_effect enumerate validate_effects validate_exceptions is_blank
    has_logical_key validate_dsl validate_node validate_shape validate_object validate_kind kind_of
    node_kind in_texts is_word get any to_list
grant_payload-passes = refl

validate_rule_payload-WellFormed_example : WellFormed default_depth grant_payload
validate_rule_payload-WellFormed_example =
    validate_rule_payload-WellFormed default_depth grant_payload grant_payload-passes
