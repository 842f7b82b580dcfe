-- ===== src/Rules/WellFormed.antt =====
-- What `validate_rule_payload` of domain/rules.py promises of a payload that it reports valid.
use andromeda_knowledge_core.Prelude.{
  ℕ, suc, String, ◌≡◌, refl, subst, sym, ap, ◌∙◌, Bool, true, false, not, Option, none, some, List,
  [], ◌∷◌, ◌&&◌, str_eq, map, All, append-eq-nil, ◌⊎◌, inl, inr, arith, any,
}
use andromeda_knowledge_core.Errors.{ok, err, >>=-eq-ok, ok-injective}
use andromeda_knowledge_core.Json.{
  Value, str, arr, obj, Items, cons, Fields, get, is_some, value_or_null, to_list, is_text,
}
use andromeda_knowledge_core.Dsl.{in_texts}
use andromeda_knowledge_core.Dsl.Validate.{Problem, validate_dsl, default_depth}
use andromeda_knowledge_core.Rules.Payload.{
  RuleProblem, no_logical_key, no_ontology, in_effect, in_condition, in_exception, RuleReport, ◌⊞◌,
  problem_if, allowed_effects, safe_validate_condition, is_mark, is_filled, validate_effect_value,
  validate_effect, unknown_effect, no_target, no_effect_value, enumerate, validate_effects,
  exceptions_of, validate_exceptions, is_blank, has_logical_key, validate_rule_payload,
}

-- a node of an effect's value, if it is one, is valid
abbrev pub ValidNode : Value → Type 0
ValidNode v =
    (fs : Fields)
    → v ≡ obj fs
    → is_some (get "kind" fs) ≡ true
    → validate_dsl default_depth v ≡ ok []

-- An effect: an object with a known type, a target, and a value where the type needs one.
pub record WellFormedEffect (effect : Value) : Type 0 where
  pub fields : Fields
  pub is_object : effect ≡ obj fields
  pub kind : String
  pub has_type : get "type" fields ≡ some (str kind)
  pub known : any (str_eq kind) allowed_effects ≡ true
  pub target : String
  pub has_target : get "target" fields ≡ some (str target)
  pub filled : str_eq target "" ≡ false
  pub has_value : (is_mark (str kind) ≡ true) ⊎ (is_some (get "value" fields) ≡ true)
  pub value_valid : ValidNode (value_or_null (get "value" fields))

pub record WellFormed (max_depth : ℕ) (payload : Fields) : Type 0 where
  pub condition : validate_dsl max_depth (value_or_null (get "conditions" payload)) ≡ ok []
  pub exceptions : List Value
  pub has_exceptions : exceptions_of payload ≡ ok exceptions
  pub exceptions_valid : All (λ v. validate_dsl max_depth v ≡ ok []) exceptions
  pub effect : Value
  pub effects : Items
  pub has_effects : get "effects" payload ≡ some (arr (cons effect effects))
  pub effects_valid : All WellFormedEffect (effect ∷ to_list effects)
  pub logical_key : String
  pub has_key : get "logical_key" payload ≡ some (str logical_key)
  pub not_blank : is_blank logical_key ≡ false
  pub ontology : String
  pub has_ontology : get "ontology_version_id" payload ≡ some (str ontology)

⊞-empty : (m n : RuleReport) → (m ⊞ n) ≡ ok [] → (m ≡ ok []) × (n ≡ ok [])
⊞-empty (ok xs) (ok ys) h =
    let (l, r) = append-eq-nil xs ys (ok-injective h) in (rw l refl, rw r refl)
⊞-empty (ok xs) (err e) h = cc
⊞-empty (err e) n h = cc

problem_if-empty : (b : Bool) (p : RuleProblem) → ok (problem_if b p) ≡ ok [] → b ≡ false
problem_if-empty true p h = cc
problem_if-empty false p h = refl

map-empty : {A B : Type 0} (f : A → B) (xs : List A) → map f xs ≡ [] → xs ≡ []
map-empty f [] h = refl
map-empty f (x ∷ xs) h = cc

safe_validate_condition-empty :
    (max_depth : ℕ) (place : Problem → RuleProblem) (v : Value)
    → safe_validate_condition max_depth place v ≡ ok []
    → validate_dsl max_depth v ≡ ok []
unfolding safe_validate_condition
safe_validate_condition-empty max_depth place v h =
    let (errors, e, k) = >>=-eq-ok (validate_dsl max_depth v) (λ errors. ok (map place errors)) h in
    rw e (rw (map-empty place errors (ok-injective k)) refl)

enumerate-empty :
    (P : Value → Type 0) (check : ℕ → Value → RuleReport)
    → ((i : ℕ) (v : Value) → check i v ≡ ok [] → P v)
    → (i : ℕ) (vs : List Value) → enumerate check i vs ≡ ok []
    → All P vs
unfolding enumerate
enumerate-empty P check h i [] e = tt
enumerate-empty P check h i (v ∷ vs) e =
    let (l, r) = ⊞-empty (check i v) (enumerate check (suc i) vs) e in
    (h i v l, enumerate-empty P check h (suc i) vs r)

obj-injective : {fs gs : Fields} → obj fs ≡ obj gs → fs ≡ gs
obj-injective h = cc

effect_value-valid : (i : ℕ) (v : Value) → validate_effect_value i v ≡ ok [] → ValidNode v
unfolding validate_effect_value
effect_value-valid i (obj fs) h gs e k =
    let same = obj-injective e in
    safe_validate_condition-empty default_depth (in_effect i) (obj fs)
      (rw (subst (λ hs. is_some (get "kind" hs) ≡ true) (sym same) k) at h)
effect_value-valid i _ h gs e k = cc

filled-text :
    (o : Option Value)
    → is_filled (value_or_null o) ≡ true
    → (s : String) × (o ≡ some (str s)) × (str_eq s "" ≡ false)
unfolding is_filled
filled-text (some (str s)) h = (s, refl, ground arith)
filled-text none h = cc
filled-text (some _) h = cc

known-text :
    (o : Option Value)
    → in_texts allowed_effects (value_or_null o) ≡ ok true
    → (s : String) × (o ≡ some (str s)) × (any (str_eq s) allowed_effects ≡ true)
unfolding in_texts
known-text (some (str s)) h = (s, refl, ok-injective h)
known-text none h = cc
known-text (some _) h = cc

no_value : (kind v : Bool) → not kind && not v ≡ false → (kind ≡ true) ⊎ (v ≡ true)
no_value true v h = inl refl
no_value false true h = inr refl
no_value false false h = cc

not-false : (b : Bool) → not b ≡ false → b ≡ true
not-false true h = refl
not-false false h = cc

four-empty :
    (a b c : Bool) (p q r : RuleProblem) (m : RuleReport)
    → (ok (problem_if a p) ⊞ ok (problem_if b q) ⊞ ok (problem_if c r) ⊞ m) ≡ ok []
    → (a ≡ false) × (b ≡ false) × (c ≡ false) × (m ≡ ok [])
four-empty a b c p q r m h =
    let x = ok (problem_if a p) in
    let y = ok (problem_if b q) in
    let z = ok (problem_if c r) in
    let (xyz, e) = ⊞-empty (x ⊞ y ⊞ z) m h in
    let (xy, ez) = ⊞-empty (x ⊞ y) z xyz in
    let (ex, ey) = ⊞-empty x y xy in
    (problem_if-empty a p ex, problem_if-empty b q ey, problem_if-empty c r ez, e)

effect-WellFormed : (i : ℕ) (v : Value) → validate_effect i v ≡ ok [] → WellFormedEffect v
unfolding validate_effect
effect-WellFormed i (obj fs) h =
    let kind = value_or_null (get "type" fs) in
    let target = value_or_null (get "target" fs) in
    let v = value_or_null (get "value" fs) in
    let (known, e, checks) =
      >>=-eq-ok (in_texts allowed_effects kind)
        (λ known.
          ok (problem_if (not known) (unknown_effect i))
          ⊞ ok (problem_if (not (is_filled target)) (no_target i))
          ⊞ ok (
              problem_if (not (is_mark kind) && not (is_some (get "value" fs))) (no_effect_value i))
          ⊞ validate_effect_value i v)
        h in
    let (a, b, c, node) =
      four-empty (not known) (not (is_filled target))
        (not (is_mark kind) && not (is_some (get "value" fs))) (unknown_effect i) (no_target i)
        (no_effect_value i) (validate_effect_value i v) checks in
    let (k, has_kind, is_known) = known-text (get "type" fs) (e ∙ ap ok (not-false known a)) in
    let (t, has_text, is_filled_text) =
      filled-text (get "target" fs) (not-false (is_filled target) b) in
    record {
      fields = fs;
      is_object = refl;
      kind = k;
      has_type = has_kind;
      known = is_known;
      target = t;
      has_target = has_text;
      filled = is_filled_text;
      has_value = no_value (is_mark (str k)) (is_some (get "value" fs)) (rw has_kind at c);
      value_valid = effect_value-valid i v node;
    }
effect-WellFormed i _ h = cc

effects-WellFormed :
    (o : Option Value)
    → validate_effects (value_or_null o) ≡ ok []
    → (v : Value) × (vs : Items) × (o ≡ some (arr (cons v vs)))
      × All WellFormedEffect (v ∷ to_list vs)
unfolding validate_effects to_list
effects-WellFormed (some (arr (cons v vs))) h = (
  v,
  vs,
  refl,
  enumerate-empty WellFormedEffect validate_effect effect-WellFormed 0 (v ∷ to_list vs) h,
)
effects-WellFormed none h = cc
effects-WellFormed (some _) h = cc

key-text :
    (o : Option Value)
    → has_logical_key (value_or_null o) ≡ true
    → (s : String) × (o ≡ some (str s)) × (is_blank s ≡ false)
unfolding has_logical_key
key-text (some (str s)) h = (s, refl, ground arith)
key-text none h = cc
key-text (some _) h = cc

text-of-is_text :
    (o : Option Value) → is_text (value_or_null o) ≡ true → (s : String) × (o ≡ some (str s))
text-of-is_text (some (str s)) h = (s, refl)
text-of-is_text none h = cc
text-of-is_text (some _) h = cc

module _ (max_depth : ℕ) (payload : Fields) where
  exceptions-valid :
      validate_exceptions max_depth payload ≡ ok []
      → (vs : List Value) × (exceptions_of payload ≡ ok vs)
        × All (λ v. validate_dsl max_depth v ≡ ok []) vs
  unfolding validate_exceptions
  exceptions-valid h =
      let check = λ (i : ℕ). safe_validate_condition max_depth (in_exception i) in
      let (vs, e, k) = >>=-eq-ok (exceptions_of payload) (enumerate check 0) h in
      (
        vs,
        e,
        enumerate-empty (λ v. validate_dsl max_depth v ≡ ok []) check
            (λ i v r. safe_validate_condition-empty max_depth (in_exception i) v r) 0 vs k,
      )

  -- A payload whose report is empty has a valid condition, valid exceptions, at least one effect,
  -- effects with a known type, a target and a valid value, and its two texts.
  pub validate_rule_payload-WellFormed :
      validate_rule_payload max_depth payload ≡ ok [] → WellFormed max_depth payload
  unfolding validate_rule_payload
  validate_rule_payload-WellFormed h =
      let key = not (has_logical_key (value_or_null (get "logical_key" payload))) in
      let ontology = not (is_text (value_or_null (get "ontology_version_id" payload))) in
      let condition = value_or_null (get "conditions" payload) in
      let effects = value_or_null (get "effects" payload) in
      let b = validate_exceptions max_depth payload in
      let a = safe_validate_condition max_depth in_condition condition in
      let d = ok (problem_if key no_logical_key) in
      let e = ok (problem_if ontology no_ontology) in
      let (abcd, e_ok) = ⊞-empty (a ⊞ b ⊞ validate_effects effects ⊞ d) e h in
      let (abc, d_ok) = ⊞-empty (a ⊞ b ⊞ validate_effects effects) d abcd in
      let (ab, c_ok) = ⊞-empty (a ⊞ b) (validate_effects effects) abc in
      let (a_ok, b_ok) = ⊞-empty a b ab in
      let (vs, has_vs, valid) = exceptions-valid b_ok in
      let (x, xs, has_xs, valid_effects) = effects-WellFormed (get "effects" payload) c_ok in
      let (k, has_k, filled) =
        key-text (get "logical_key" payload)
          (not-false _ (problem_if-empty key no_logical_key d_ok)) in
      let (o, has_o) =
        text-of-is_text (get "ontology_version_id" payload)
          (not-false _ (problem_if-empty ontology no_ontology e_ok)) in
      record {
        condition = safe_validate_condition-empty max_depth in_condition condition a_ok;
        exceptions = vs;
        has_exceptions = has_vs;
        exceptions_valid = valid;
        effect = x;
        effects = xs;
        has_effects = has_xs;
        effects_valid = valid_effects;
        logical_key = k;
        has_key = has_k;
        not_blank = filled;
        ontology = o;
        has_ontology = has_o;
      }
