-- ===== src/KnowledgeService/Objects/Upserted.antt =====
-- What `create_object` of application/knowledge_service.py makes of the objects.
use andromeda_knowledge_core.Prelude.{
  String, ◌≡◌, refl, sym, ap, subst, ◌∙◌, List, ◌∷◌, In, inl, inr, eq_iff, Option-cases,
}
use andromeda_knowledge_core.Prelude.Tables.{find-In, find-eq-none}
use andromeda_knowledge_core.Errors.{ok, >>=-eq-ok, ok-injective}
use andromeda_knowledge_core.RuleService.{ontology_for}
use andromeda_knowledge_core.KnowledgeService.{KnowledgeObject, Knowledge}
use andromeda_knowledge_core.KnowledgeService.Facts.{ensure_temporal}
use andromeda_knowledge_core.KnowledgeService.Objects.{
  ObjectData, find_object_by_key, upsert_object, check_object_type, new_object, create_object,
}

-- The objects with one key are one object.
abbrev pub OneForKey : List KnowledgeObject → Type 0
OneForKey objects =
    (o o' : KnowledgeObject) → In o objects → In o' objects → o.stable_key ≡ o'.stable_key → o ≡ o'

-- What an upsert of an object makes of the objects.
pub record IsUpserted (before : List KnowledgeObject) (key : String) (after : List KnowledgeObject)
    (object : KnowledgeObject) : Type 0 where
  pub one_for_key : OneForKey after
  pub has_key : object.stable_key ≡ key
  pub is_listed : In object after
  pub kept : (o : KnowledgeObject) → In o before → In o after
  pub returned : (o : KnowledgeObject) → In o before → o.stable_key ≡ key → object ≡ o

upsert_object-IsUpserted :
    (k : Knowledge) (object : KnowledgeObject)
    → OneForKey k.objects
    → IsUpserted k.objects object.stable_key
        (upsert_object k object).0.objects
        (upsert_object k object).1
unfolding upsert_object find_object_by_key
upsert_object-IsUpserted k object one =
    elim (Option-cases (find_object_by_key k object.stable_key)) [
      | inr (existing, e) ↦
          let (listed, test) = find-In _ k.objects existing e in
          let key = (eq_iff existing.stable_key object.stable_key).0 test in
          let as_it_is : upsert_object k object ≡ (k, existing) = rw (e, upsert_object) refl in
          subst
            (λ (r : Knowledge × KnowledgeObject).
              IsUpserted k.objects object.stable_key r.0.objects r.1)
            (sym as_it_is)
            (record {
              one_for_key = one;
              has_key = key;
              is_listed = listed;
              kept = λ o m. m;
              returned = λ o m h. one existing o listed m (key ∙ sym h);
            })
      | inl e ↦
          let fresh : (o : KnowledgeObject)
              → In o k.objects
              → o.stable_key ≡ object.stable_key
              → ⊥ =
            λ o m h.
              let off = find-eq-none _ k.objects o e m in
              let on = (eq_iff o.stable_key object.stable_key).1 h in cc in
          let added : upsert_object k object ≡ (record k { objects = object ∷ k.objects }, object) =
            rw (e, upsert_object) refl in
          subst
            (λ (r : Knowledge × KnowledgeObject).
              IsUpserted k.objects object.stable_key r.0.objects r.1)
            (sym added)
            (record {
              one_for_key = λ o o' m m' h. elim m [
                | inl a ↦ elim m' [
                  | inl b ↦ a ∙ sym b
                  | inr n ↦
                      absurd (fresh o' n (sym h ∙ ap (λ (x : KnowledgeObject). x.stable_key) a))
                ]
                | inr n ↦ elim m' [
                  | inl b ↦ absurd (fresh o n (h ∙ ap (λ (x : KnowledgeObject). x.stable_key) b))
                  | inr n' ↦ one o o' n n' h
                ]
              ];
              has_key = refl;
              is_listed = inl refl;
              kept = λ o m. inr m;
              returned = λ o m h. absurd (fresh o m h);
            })
    ]

-- When `create_object` returns, where the objects with one key are one, they still are; the object that is
-- returned is stored and has the key that was asked for, every object is kept as it was, and one that
-- already had this key is what is returned.
pub create_object-IsUpserted :
    (k : Knowledge) (data' : ObjectData) (id actor : String) (result : Knowledge × KnowledgeObject)
    → OneForKey k.objects
    → create_object k data' id actor ≡ ok result
    → IsUpserted k.objects data'.stable_key result.0.objects result.1
unfolding create_object
create_object-IsUpserted k data' id actor result one h =
    let (_, _, h1) =
      >>=-eq-ok
        (ensure_temporal data'.valid_from data'.valid_to data'.transaction_from
          data'.transaction_to)
        _ h in
    let (ontology, _, h2) = >>=-eq-ok (ontology_for k.core data'.ontology_version_id) _ h1 in
    let (_, _, last) =
      >>=-eq-ok (check_object_type k.core ontology.id data'.object_type_code) _ h2 in
    subst
      (λ (r : Knowledge × KnowledgeObject). IsUpserted k.objects data'.stable_key r.0.objects r.1)
      (ok-injective last) (upsert_object-IsUpserted k (new_object data' id) one)
