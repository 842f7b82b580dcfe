-- ===== src/Engine/Priorities.antt =====
-- How often the trace of an evaluation of domain/engine.py says that a target was SET, and what one
-- rule adds to that.
pub mod Runs
use andromeda_knowledge_core.Prelude.{
  ℕ, ◌+◌, ◌≤◌, Bool, false, ◌||◌, eq_iff, Bool-cases, if◌then◌else◌, String, ◌≡◌, refl, sym, ap,
  subst, ◌∙◌, true, false, Option, none, some, List, [], ◌∷◌, any, str_eq, arith, inl, inr,
  Option-cases,
}
use andromeda_knowledge_core.Prelude.Int.{ℤ}
use andromeda_knowledge_core.Engine.Numbers.{add_numbers, subtract_numbers}
use andromeda_knowledge_core.Errors.{
  ok, fault, key_error, ok-injective, ◌>>=◌, >>=-eq-ok, or_raise, Returns, Returns-ok, Returns-bind,
  returns_rules,
}
use andromeda_knowledge_core.Json.{Value, str, Fields, get, value_or_null}
use andromeda_knowledge_core.Dsl.{is_word, iterate}
use andromeda_knowledge_core.Dsl.Evaluate.References.{Step, EvaluationData, Trace, text_of}
use andromeda_knowledge_core.Rules.{Rule, effect_target, as_dict}
use andromeda_knowledge_core.Engine.{
  put_priority, applied, one_more, effect_value, EffectType, set, add, subtract, effect_type_of,
  Accumulator, EffectTrace, Operation, handle_number, handle, registered, run_handler, is_set,
  note_set, overridden_target, apply_fields, apply_effect, apply_effects,
}
use andromeda_knowledge_core.Engine.Order.{ordered_rules}
use andromeda_knowledge_core.Engine.Run.{
  RuleVersion, Outcome, matched, scope_mismatch, not_matched, exception, traced, version_of, Run,
  apply_rule, try_exceptions, try_condition, run_rule, run_rules, depend, EngineInput,
  evaluate_rules, start,
}

abbrev pub Priorities : Type 0
Priorities = List (String × ℤ)

abbrev pub has : String → Priorities → Bool
has target entries = any (λ entry. str_eq entry.0 target) entries

has-put_priority :
    (target : String) (priority : ℤ) (entries : Priorities)
    → has target (put_priority target priority entries) ≡ true
unfolding put_priority any
has-put_priority target priority [] = rw ((eq_iff target target).1 refl) refl
has-put_priority target priority (entry ∷ entries) = elim (Bool-cases (str_eq entry.0 target)) [
  | inl e ↦ rw (e, (eq_iff target target).1 refl) refl
  | inr e ↦ let rest = has-put_priority target priority entries in rw e (ground arith)
]

-- a target that was set stays set
put_priority-has :
    (other target : String) (priority : ℤ) (entries : Priorities)
    → has other entries ≡ true
    → has other (put_priority target priority entries) ≡ true
unfolding put_priority any
put_priority-has other target priority [] h = cc
put_priority-has other target priority (entry ∷ entries) h =
    elim (Bool-cases (str_eq entry.0 target)) [
      | inl e ↦
          let same = ap (λ s. str_eq s other) ((eq_iff entry.0 target).0 e) in
          rw e (ap (λ b. b || has other entries) (sym same) ∙ h)
      | inr e ↦ elim (Bool-cases (str_eq entry.0 other)) [
        | inl f ↦ rw (e, f) refl
        | inr f ↦ rw (e, f) (put_priority-has other target priority entries (rw f at h))
      ]
    ]

abbrev Sets : Priorities → Accumulator × EffectTrace → Type 0
Sets ps handled = handled.0.set_priorities ≡ ps

module _ (d : EvaluationData) (fs : Fields) (acc : Accumulator) where
  handle_number-Sets :
      (kind : EffectType) (operation : Operation)
      → Returns (Sets acc.set_priorities) (handle_number kind operation d fs acc)
  unfolding handle_number
  handle_number-Sets kind operation = search (returns_rules) depth 8

  handle-Sets : (kind : EffectType) → Returns (Sets acc.set_priorities) (handle kind d fs acc)
  unfolding handle
  handle-Sets set = search (returns_rules) depth 8
  handle-Sets add = search handle_number-Sets
  handle-Sets subtract = search handle_number-Sets
  handle-Sets _ = search (returns_rules) depth 8

text-found :
    (o : Option Value) (t : String)
    → (do v ← or_raise (fault key_error) o; text_of v) ≡ ok t
    → value_or_null o ≡ str t
text-found none t h = cc
text-found (some (str s)) t h = ap str (ok-injective h)
text-found (some _) t h = cc

set-word : (v : Value) → registered v ≡ ok set → is_word v "SET" ≡ true
unfolding registered effect_type_of is_word
set-word (str s) h = ground arith
set-word _ h = cc

-- 1 if the target is set
abbrev pub weight : String → Priorities → ℕ
weight target entries = if has target entries then 1 else 0

-- How often the trace of an effect says that it SET the target.
unfoldable pub sets_in_effect : String → EffectTrace → ℕ
sets_in_effect target (applied set name v) = if str_eq name target then 1 else 0
sets_in_effect target _ = 0

unfoldable pub sets_in_effects : String → List EffectTrace → ℕ
sets_in_effects target [] = 0
sets_in_effects target (effect ∷ effects) =
    sets_in_effect target effect + sets_in_effects target effects

unfoldable pub sets_in_outcome : String → Outcome → ℕ
sets_in_outcome target (matched v steps exceptions effects) = sets_in_effects target effects
sets_in_outcome target _ = 0

-- How often the trace of an evaluation says that an effect SET the target.
unfoldable pub sets_in_trace : String → List (RuleVersion × Outcome) → ℕ
sets_in_trace target [] = 0
sets_in_trace target (entry ∷ entries) =
    sets_in_outcome target entry.1 + sets_in_trace target entries

pub sets_in_trace-one_more :
    (target : String) (entries : List (RuleVersion × Outcome)) (entry : RuleVersion × Outcome)
    → sets_in_trace target (one_more entries entry)
      ≡ sets_in_trace target entries + sets_in_outcome target entry.1
unfolding sets_in_trace
sets_in_trace-one_more target [] entry = omega arith
sets_in_trace-one_more target (first ∷ entries) entry =
    omega (arith, sets_in_trace-one_more target entries entry)

-- what the trace of an effect says of its kind
Says : String → Fields → EffectType → Accumulator × EffectTrace → Type 0
Says target fs set handled =
    (name : String) × (effect_target fs ≡ ok name)
    × (sets_in_effect target handled.1 ≡ (if str_eq name target then 1 else 0))
Says target fs _ handled = sets_in_effect target handled.1 ≡ 0

module _ (target : String) (d : EvaluationData) (fs : Fields) (acc : Accumulator) where
  handle_number-says :
      (kind : EffectType) (operation : Operation)
      → Returns
          (λ handled. sets_in_effect target handled.1 ≡ 0)
          (handle_number kind operation d fs acc)
  unfolding handle_number sets_in_effect
  handle_number-says kind operation = search (returns_rules) depth 8

  handle-Says : (kind : EffectType) → Returns (Says target fs kind) (handle kind d fs acc)
  unfolding handle sets_in_effect Says
  handle-Says set = Returns-bind _ (effect_value d fs) _ (λ v _.
      Returns-bind _ (effect_target fs) _ (λ name found. Returns-ok _ _ (name, found, refl)))
  handle-Says add = handle_number-says add add_numbers
  handle-Says subtract = handle_number-says subtract subtract_numbers
  handle-Says _ = search (returns_rules) depth 8

module _ (target : String) (d : EvaluationData) (priority : ℤ) where
  -- what `overridden_target` decides for a SET on `t`
  not_set_before :
      (fs : Fields) (t : String) (acc : Accumulator)
      → overridden_target fs acc ≡ none
      → effect_target fs ≡ ok t
      → registered (value_or_null (get "type" fs)) ≡ ok set
      → is_set t acc ≡ false
  unfolding overridden_target effect_target
  not_set_before fs t acc h target kind =
      let free =
        rw
          (
            text-found (get "target" fs) t target,
            overridden_target,
            set-word (value_or_null (get "type" fs)) kind,
          )
          at h in
      ground arith

  -- The effect counts at most once, and no more than it leaves the target set.
  abbrev Counts : Accumulator → Accumulator × EffectTrace → Type 0
  Counts acc handled =
      weight target acc.set_priorities + sets_in_effect target handled.1
      ≤ weight target handled.0.set_priorities

  noted :
      (kind : EffectType) (fs : Fields) (name : String) (acc : Accumulator)
      (handled : Accumulator × EffectTrace)
      → handled.0.set_priorities ≡ acc.set_priorities
      → Says target fs kind handled
      → effect_target fs ≡ ok name
      → (kind ≡ set → has name acc.set_priorities ≡ false)
      → Counts acc (note_set kind name priority handled.0, handled.1)
  unfolding note_set Says
  noted set fs name acc handled same (named, found', count) found free =
      let one : named ≡ name = ok-injective (sym found' ∙ found) in
      elim (Bool-cases (str_eq named target)) [
        | inl e ↦
            let is_target : name ≡ target = sym one ∙ (eq_iff named target).0 e in
            let before : has target acc.set_priorities ≡ false =
              subst (λ t. has t acc.set_priorities ≡ false) is_target (free refl) in
            let after : has target (put_priority name priority handled.0.set_priorities) ≡ true =
              subst (λ t. has target (put_priority t priority handled.0.set_priorities) ≡ true)
                (sym is_target) (has-put_priority target priority handled.0.set_priorities) in
            let counted = rw e at count in rw (before, after, counted) (omega arith)
        | inr e ↦
            let counted = rw e at count in
            elim (Bool-cases (has target acc.set_priorities)) [
              | inl b ↦
                  let after =
                    put_priority-has target name priority handled.0.set_priorities
                      (ap (has target) same ∙ b) in
                  rw (b, after, counted) (omega arith)
              | inr b ↦ rw (b, counted) (omega arith)
            ]
      ]
  noted _ fs name acc handled same count found free = rw (same, count) (omega arith)

  run_handler-Counts :
      (fs : Fields) (acc : Accumulator)
      → overridden_target fs acc ≡ none
      → Returns (Counts acc) (run_handler d priority fs acc)
  unfolding run_handler is_set
  run_handler-Counts fs acc h =
      Returns-bind _ (registered (value_or_null (get "type" fs))) _ (λ kind k.
        Returns-bind _ (handle kind d fs acc) _ (λ handled e.
          Returns-bind _ (effect_target fs) _ (λ name found. Returns-ok _ _ (
            noted kind fs name acc handled ((handle-Sets d fs acc kind).returned handled e)
              ((handle-Says target d fs acc kind).returned handled e) found
              (λ is_a_set. not_set_before fs name acc h found (k ∙ ap ok is_a_set))))))

  apply_fields-Counts :
      (fs : Fields) (acc : Accumulator) → Returns (Counts acc) (apply_fields d priority fs acc)
  unfolding apply_fields sets_in_effect
  apply_fields-Counts fs acc = elim (Option-cases (overridden_target fs acc)) [
    | inl e ↦ rw (e, apply_fields) (run_handler-Counts fs acc e)
    | inr (t, e) ↦ rw (e, apply_fields) (Returns-ok _ _ (omega arith))
  ]

  pub apply_effects-counts :
      (effects : List Value) (acc : Accumulator)
      → Returns
          (λ result.
            weight target acc.set_priorities + sets_in_effects target result.1
            ≤ weight target result.0.set_priorities)
          (apply_effects d priority effects acc)
  unfolding apply_effects apply_effect sets_in_effects
  apply_effects-counts [] acc = Returns-ok _ _ (omega arith)
  apply_effects-counts (effect ∷ effects) acc =
      Returns-bind _ (apply_effect d priority effect acc) _ (λ first e.
        let (fs, _, k) = >>=-eq-ok (as_dict effect) (λ fs. apply_fields d priority fs acc) e in
        let one = (apply_fields-Counts fs acc).returned first k in
        Returns-bind _ (apply_effects d priority effects first.0) _ (λ rest h.
          let more = (apply_effects-counts effects first.0).returned rest h in
          Returns-ok _ _ (omega arith)))
