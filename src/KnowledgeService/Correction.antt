-- ===== src/KnowledgeService/Correction.antt =====
-- What `create_fact` of application/knowledge_service.py makes of the facts.
use andromeda_knowledge_core.Prelude.{
  ℕ, String, ◌≡◌, refl, sym, ap, subst, ◌∙◌, false, some, List, ◌∷◌, inl, inr, any, str_eq,
  Bool-cases, Option-cases,
}
use andromeda_knowledge_core.Prelude.Tables.{update_where}
use andromeda_knowledge_core.Errors.{ok, validation, >>=-eq-ok, ok-injective, or_raise}
use andromeda_knowledge_core.DependencyService.{invalidate}
use andromeda_knowledge_core.Repository.{given_text}
use andromeda_knowledge_core.RuleService.{ontology_for}
use andromeda_knowledge_core.KnowledgeService.{
  instant_of, Fact, Knowledge, Printing, find_object, find_fact_by_identity, to_close, closed_at,
  close_fact_transaction,
}
use andromeda_knowledge_core.KnowledgeService.Facts.{
  FactData, ensure_temporal, confidence_statuses, verification_statuses, check_listed,
  find_property, check_allowed, value_type_for, validate_typed_value, list_column, fact_identity,
  invalidate_property, provenance_for, new_fact, close_replaced, insert_fact, store_fact,
  create_fact,
}
use andromeda_knowledge_core.KnowledgeService.Current.{
  IsUtc, Consistent, Settled, AbsentKey, replaced, nothing_replaced, replaced-listed, one_closed,
}

facts-provenance_for :
    (k : Knowledge) (data' : FactData) (new_id : String) (result : Knowledge × String)
    → provenance_for k data' new_id ≡ ok result
    → result.0.facts ≡ k.facts
unfolding provenance_for
facts-provenance_for k data' new_id result h =
    elim (Option-cases (given_text data'.provenance_id)) [
      | inr (given, e) ↦
          ap (λ (r : Knowledge × String). r.0.facts)
            (sym (ok-injective (rw (e, provenance_for) at h)))
      | inl e ↦ elim (Option-cases (given_text data'.source_id)) [
        | inl d ↦ let no = rw (e, d, provenance_for) at h in cc
        | inr (source, d) ↦
            ap (λ (r : Knowledge × String). r.0.facts)
              (sym (ok-injective (rw (e, d, provenance_for) at h)))
      ]
    ]

close_replaced-some :
    (k left : Knowledge) (old : Fact) (now : ℕ)
    → close_replaced k (some old) now ≡ ok left
    → left.facts ≡ update_where (to_close old.id) (closed_at now) k.facts
unfolding close_replaced close_fact_transaction
close_replaced-some k left old now h =
    let (shut, done, h1) = >>=-eq-ok (close_fact_transaction k old.id now) _ h in
    let (invalidated, _, last) =
      >>=-eq-ok
        (invalidate shut.core.derivations ("fact", old.id)
          "Canonical fact corrected by an authorized actor.")
        _ h1 in
    let facts = ap (λ (q : Knowledge). q.facts) (sym (ok-injective last)) in
    elim (Bool-cases (any (to_close old.id) k.facts)) [
      | inr e ↦ let no = rw (e, close_fact_transaction) at done in cc
      | inl e ↦
          facts
          ∙ ap (λ (q : Knowledge). q.facts)
              (sym (ok-injective (rw (e, close_fact_transaction) at done)))
    ]

module _ (p : Printing) (data' : FactData) where
  close_replaced-Settled :
      (k left : Knowledge) (now : ℕ) (consistent : Consistent p k.facts)
      → IsUtc data'.valid_from
      → str_eq data'.subject_id "" ≡ false
      → str_eq data'.property_code "" ≡ false
      → AbsentKey p k data' consistent
      → close_replaced k (replaced p k data' consistent) now ≡ ok left
      → Settled p k data' consistent left.facts
  unfolding close_replaced
  close_replaced-Settled k left now consistent utc subject property absent h =
      elim (Option-cases (replaced p k data' consistent)) [
        | inl e ↦
            let same : k ≡ left = ok-injective (rw e at h) in
            subst (λ (q : Knowledge). Settled p k data' consistent q.facts) same
              (nothing_replaced p k data' consistent absent e)
        | inr (old, e) ↦
            subst (Settled p k data' consistent)
              (sym (close_replaced-some k left old now (rw e at h)))
              (one_closed p k data' consistent old now
                (replaced-listed p k data' consistent old utc subject property e))
      ]

  inserted-Consistent :
      (fact : Fact) (lefts : List Fact) (k : Knowledge) (consistent : Consistent p k.facts)
      → IsUtc fact.valid_from
      → fact.identity_key
        ≡ fact_identity p fact.subject_id fact.property_code fact.value fact.valid_from
      → fact.subject_id ≡ data'.subject_id
      → fact.property_code ≡ data'.property_code
      → fact.valid_from ≡ data'.valid_from
      → Settled p k data' consistent lefts
      → Consistent p (fact ∷ lefts)
  inserted-Consistent fact lefts k consistent utc key s c v left = record {
    in_utc = λ f m. elim m [
      | inl e ↦ subst (λ (x : Fact). IsUtc x.valid_from) (sym e) utc
      | inr n ↦ left.settled.in_utc f n
    ];
    identified = λ f m. elim m [
      | inl e ↦
          subst
            (λ (x : Fact).
              x.identity_key ≡ fact_identity p x.subject_id x.property_code x.value x.valid_from)
            (sym e) key
      | inr n ↦ left.settled.identified f n
    ];
    one_current = λ f g m n on too hs hc hv. elim m [
      | inl e ↦ elim n [
        | inl d ↦ cc
        | inr n' ↦ absurd (
            left.none_current g n' too (sym hs ∙ ap (λ (x : Fact). x.subject_id) e ∙ s)
              (sym hc ∙ ap (λ (x : Fact). x.property_code) e ∙ c)
              (sym hv ∙ ap (λ (x : Fact). x.valid_from) e ∙ v))
      ]
      | inr m' ↦ elim n [
        | inl d ↦ absurd (
            left.none_current f m' on (hs ∙ ap (λ (x : Fact). x.subject_id) d ∙ s)
              (hc ∙ ap (λ (x : Fact). x.property_code) d ∙ c)
              (hv ∙ ap (λ (x : Fact). x.valid_from) d ∙ v))
        | inr n' ↦ left.settled.one_current f g m' n' on too hs hc hv
      ]
    ];
  }

  insert_fact-Consistent :
      (k : Knowledge) (id value_type provenance_id ontology_id actor : String) (now : ℕ)
      (result : Knowledge × Fact)
      → IsUtc data'.valid_from
      → str_eq data'.subject_id "" ≡ false
      → str_eq data'.property_code "" ≡ false
      → (consistent : Consistent p k.facts) → AbsentKey p k data' consistent
      → insert_fact p k data'
          (new_fact p data' id value_type provenance_id ontology_id now)
          actor
          now
        ≡ ok result
      → Consistent p result.0.facts
  unfolding insert_fact new_fact
  insert_fact-Consistent k id value_type provenance_id ontology_id actor now result utc subject
        property consistent absent h =
      let fact = new_fact p data' id value_type provenance_id ontology_id now in
      let (left, closes, h1) =
        >>=-eq-ok (close_replaced k (replaced p k data' consistent) now) _ h in
      let (derivations, _, last) =
        >>=-eq-ok (invalidate_property left.core.derivations data'.property_code) _ h1 in
      subst (Consistent p) (ap (λ (r : Knowledge × Fact). r.0.facts) (ok-injective last)) (
        inserted-Consistent fact left.facts k consistent utc refl refl refl refl
          (close_replaced-Settled k left now consistent utc subject property absent closes))

  store_fact-Consistent :
      (k : Knowledge) (id provenance_id value_type ontology_id actor : String) (now : ℕ)
      (result : Knowledge × Fact)
      → IsUtc data'.valid_from
      → str_eq data'.subject_id "" ≡ false
      → str_eq data'.property_code "" ≡ false
      → Consistent p k.facts
      → store_fact p k data' id provenance_id value_type ontology_id actor now ≡ ok result
      → Consistent p result.0.facts
  unfolding store_fact
  store_fact-Consistent k id provenance_id value_type ontology_id actor now result utc subject
        property consistent h =
      let (prepared, prepares, h1) = >>=-eq-ok (provenance_for k data' provenance_id) _ h in
      let kept =
        subst (Consistent p) (sym (facts-provenance_for k data' provenance_id prepared prepares))
          consistent in
      elim (Option-cases (
        find_fact_by_identity prepared.0
          (fact_identity p data'.subject_id data'.property_code data'.value data'.valid_from))) [
            | inr (existing, e) ↦
                subst (Consistent p)
                  (ap (λ (r : Knowledge × Fact). r.0.facts) (ok-injective (rw e at h1))) consistent
            | inl e ↦
                insert_fact-Consistent prepared.0 id value_type prepared.1 ontology_id actor now
                  result utc subject property kept e (rw e at h1)
          ]

-- The facts, each from a moment in UTC or from none, stay consistent when `create_fact` returns for a
-- payload with a subject and a property, from a moment in UTC or from none: each
-- has the identity of its columns, and of the facts about one subject and property from one moment at most
-- one is current.
pub create_fact-Consistent :
    (p : Printing) (k : Knowledge) (data' : FactData) (id provenance_id actor : String) (now : ℕ)
    (result : Knowledge × Fact)
    → IsUtc data'.valid_from
    → str_eq data'.subject_id "" ≡ false
    → str_eq data'.property_code "" ≡ false
    → Consistent p k.facts
    → create_fact p k data' id provenance_id actor now ≡ ok result
    → Consistent p result.0.facts
unfolding create_fact
create_fact-Consistent p k data' id provenance_id actor now result utc subject property consistent
      h =
    let (_, _, h1) =
      >>=-eq-ok
        (ensure_temporal (instant_of data'.valid_from) (instant_of data'.valid_to)
          data'.transaction_from data'.transaction_to)
        _ h in
    let (_, _, h2) =
      >>=-eq-ok
        (check_listed confidence_statuses "INVALID_CONFIDENCE_STATUS" data'.confidence_status) _
        h1 in
    let (_, _, h3) =
      >>=-eq-ok
        (check_listed verification_statuses "INVALID_VERIFICATION_STATUS" data'.verification_status)
        _ h2 in
    let (ontology, _, h4) = >>=-eq-ok (ontology_for k.core data'.ontology_version_id) _ h3 in
    let (definition, _, h5) =
      >>=-eq-ok
        (or_raise (validation "ONTOLOGY_MISMATCH")
          (find_property k.core ontology.id data'.property_code))
        _ h4 in
    let (object, _, h6) = >>=-eq-ok (find_object k data'.subject_id) _ h5 in
    let (_, _, h7) = >>=-eq-ok (check_allowed definition object) _ h6 in
    let (value_type, _, h8) = >>=-eq-ok (value_type_for data' definition) _ h7 in
    let (_, _, stores) =
      >>=-eq-ok (validate_typed_value value_type data'.value (list_column "enum_values" definition))
        _ h8 in
    store_fact-Consistent p data' k id provenance_id value_type ontology.id actor now result utc
      subject property consistent stores
