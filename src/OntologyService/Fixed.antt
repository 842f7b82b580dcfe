-- ===== src/OntologyService/Fixed.antt =====
-- What the calls of application/ontology_service.py leave of the definitions.
use andromeda_knowledge_core.Prelude.{
  refl, none, ℕ, String, ◌≡◌, sym, ap, subst, ◌∙◌, true, Option, some, inl, inr, In, str_eq,
  Bool-cases, Option-cases,
}
use andromeda_knowledge_core.Prelude.Tables.{find}
use andromeda_knowledge_core.Errors.{ok, >>=-eq-ok, ok-injective}
use andromeda_knowledge_core.Json.{Fields, get}
use andromeda_knowledge_core.DependencyService.{invalidate}
use andromeda_knowledge_core.Repository.{Ontology, Definition, Core}
use andromeda_knowledge_core.Repository.Rules.{check_version}
use andromeda_knowledge_core.Repository.Ontologies.{
  get_ontology, is_active_ontology, get_active_ontology, update_ontology,
}
use andromeda_knowledge_core.OntologyService.{
  given_column, VersionData, has_code, check_previous, create_version, set_ontology_status,
  set_activated, may_activate, needs_migration, retire, retire_other, activate_checked, activate,
}
use andromeda_knowledge_core.OntologyService.Editing.{
  NamesNoVersion, Edit, versioned, defined, activated, elsewhere, add_definition-leaves,
}

definitions-update_ontology :
    (core : Core) (id : String) (change : Ontology → Ontology) (expected : Option ℕ)
    (result : Core × Ontology)
    → update_ontology core id change expected ≡ ok result
    → result.0.definitions ≡ core.definitions
unfolding update_ontology
definitions-update_ontology core id change expected result h =
    let (row, found, later) = >>=-eq-ok (get_ontology core id) _ h in
    let (version, checked, last) = >>=-eq-ok (check_version expected row.row_version) _ later in
    ap (λ (r : Core × Ontology). r.0.definitions) (sym (ok-injective last))

definitions-retire :
    (core : Core) (active : Ontology) (left : Core)
    → retire core active ≡ ok left
    → left.definitions ≡ core.definitions
unfolding retire
definitions-retire core active left h =
    let (updated, done, h1) =
      >>=-eq-ok
        (update_ontology core active.id (set_ontology_status "SUPERSEDED")
          (some active.row_version))
        _ h in
    let (invalidated, _, last) =
      >>=-eq-ok
        (invalidate updated.0.derivations ("ontology", active.id) "Ontology version superseded.") _
        h1 in
    ap (λ (c : Core). c.definitions) (sym (ok-injective last))
    ∙ definitions-update_ontology core active.id (set_ontology_status "SUPERSEDED") _ updated done

definitions-retire_other :
    (core : Core) (ontology_id : String) (left : Core)
    → retire_other core ontology_id ≡ ok left
    → left.definitions ≡ core.definitions
unfolding retire_other
definitions-retire_other core ontology_id left h = elim (Option-cases (get_active_ontology core)) [
  | inl e ↦ ap (λ (c : Core). c.definitions) (sym (ok-injective (rw (e, retire_other) at h)))
  | inr (active, e) ↦ elim (Bool-cases (str_eq active.id ontology_id)) [
    | inl d ↦ ap (λ (c : Core). c.definitions) (sym (ok-injective (rw (e, d, retire_other) at h)))
    | inr d ↦ definitions-retire core active left (rw (e, d, retire_other) at h)
  ]
]

definitions-activate :
    (core : Core) (ontology_id actor : String) (expected : Option ℕ) (now : ℕ)
    (result : Core × Ontology)
    → activate core ontology_id actor expected now ≡ ok result
    → result.0.definitions ≡ core.definitions
unfolding activate activate_checked
definitions-activate core ontology_id actor expected now result h =
    let (ontology, found, h1) = >>=-eq-ok (get_ontology core ontology_id) _ h in
    elim (Bool-cases (may_activate ontology)) [
      | inl e ↦ elim (Bool-cases (needs_migration ontology)) [
        | inl d ↦ let no = rw (e, d) at h1 in cc
        | inr d ↦
            let (left, retired, h2) =
              >>=-eq-ok (retire_other core ontology_id) _ (rw (e, d) at h1) in
            let (updated, done, last) =
              >>=-eq-ok (update_ontology left ontology_id (set_activated now) expected) _ h2 in
            ap (λ (r : Core × Ontology). r.0.definitions) (sym (ok-injective last))
            ∙ definitions-update_ontology left ontology_id (set_activated now) expected updated done
            ∙ definitions-retire_other core ontology_id left retired
      ]
      | inr e ↦ elim (Bool-cases (str_eq ontology.status "ACTIVE")) [
        | inl d ↦
            ap (λ (r : Core × Ontology). r.0.definitions) (sym (ok-injective (rw (e, d) at h1)))
        | inr d ↦ let no = rw (e, d) at h1 in cc
      ]
    ]

definitions-create_version :
    (core : Core) (id : String) (data' : VersionData) (actor : String) (result : Core × Ontology)
    → create_version core id data' actor ≡ ok result
    → result.0.definitions ≡ core.definitions
unfolding create_version
definitions-create_version core id data' actor result h =
    elim (Option-cases (find (has_code data'.version_code) core.ontologies)) [
      | inr (existing, e) ↦
          ap (λ (r : Core × Ontology). r.0.definitions)
            (sym (ok-injective (rw (e, create_version) at h)))
      | inl e ↦
          let (previous, _, last) =
            >>=-eq-ok (check_previous core data'.previous_version_id) _
              (rw (e, create_version) at h) in
          ap (λ (r : Core × Ontology). r.0.definitions) (sym (ok-injective last))
    ]

given_column-none :
    (name : String) (content : Fields) (default : String)
    → get name content ≡ none
    → given_column name content default ≡ default
unfolding given_column
given_column-none name content default h = rw (h, given_column) refl

-- While a version is active, no committed call of `create_version`, `add_definition` or `activate` adds
-- a definition to it, when the payload of a definition names no version of its own.
pub active_definitions_fixed :
    {core next : Core} (id : String) (ontology : Ontology) (definition : Definition)
    → (edit : Edit core next) → NamesNoVersion edit
    → get_ontology core id ≡ ok ontology
    → is_active_ontology ontology ≡ true
    → definition.ontology_version_id ≡ id
    → In definition next.definitions
    → In definition core.definitions
active_definitions_fixed id ontology definition (versioned core new data' actor result h) plain
      found on own m =
    subst (In definition) (definitions-create_version core new data' actor result h) m
active_definitions_fixed id ontology definition
      (defined core ontology_id new kind content actor result h) plain found on own m =
    let (_, (draft, got, off, added)) =
      add_definition-leaves core ontology_id new kind content actor result h in
    elim (subst (In definition) added m) [
      | inr kept ↦ kept
      | inl c ↦
          let same : id ≡ ontology_id =
            sym own
            ∙ ap (λ (d : Definition). d.ontology_version_id) c
            ∙ given_column-none "ontology_version_id" content ontology_id plain in
          let one : ontology ≡ draft =
            ok-injective (sym found ∙ ap (get_ontology core) same ∙ got) in
          let no = ap is_active_ontology (sym one) ∙ on in cc
    ]
active_definitions_fixed id ontology definition
      (activated core ontology_id actor expected now result h) plain found on own m =
    subst (In definition) (definitions-activate core ontology_id actor expected now result h) m
active_definitions_fixed id ontology definition (elsewhere core next versions same) plain found on
      own m =
    subst (In definition) same m
