-- ===== src/OntologyService/Editing.antt =====
-- The versions and definitions that the calls of application/ontology_service.py lead to, in any order.
use andromeda_knowledge_core.Prelude.{
  none, ℕ, String, ◌≡◌, sym, ap, subst, ◌∙◌, true, false, Option, [], ◌∷◌, inl, inr, In, any,
  str_eq, Bool-cases, Option-cases,
}
use andromeda_knowledge_core.Prelude.Tables.{find}
use andromeda_knowledge_core.Errors.{ok, >>=-eq-ok, ok-injective}
use andromeda_knowledge_core.Json.{Fields, get}
use andromeda_knowledge_core.Repository.{Ontology, Definition, Core}
use andromeda_knowledge_core.Repository.Ontologies.{
  get_ontology, is_active_ontology, create_definition, definition_kinds,
}
use andromeda_knowledge_core.OntologyService.{
  VersionData, has_code, new_version, check_previous, create_version, new_definition,
  add_definition, activate,
}
use andromeda_knowledge_core.OntologyService.Sound.{OneActive, activate-OneActive}

-- A call that commits. The other services leave the versions and the definitions.
pub data Edit : Core → Core → Type 0 where
  versioned :
      (core : Core) (id : String) (data' : VersionData) (actor : String) (result : Core × Ontology)
      → create_version core id data' actor ≡ ok result
      → Edit core result.0
  defined :
      (core : Core) (ontology_id id kind : String) (content : Fields) (actor : String)
      (result : Core × Definition)
      → add_definition core ontology_id id kind content actor ≡ ok result
      → Edit core result.0
  activated :
      (core : Core) (ontology_id actor : String) (expected : Option ℕ) (now : ℕ)
      (result : Core × Ontology)
      → activate core ontology_id actor expected now ≡ ok result
      → Edit core result.0
  elsewhere :
      (core next : Core)
      → next.ontologies ≡ core.ontologies
      → next.definitions ≡ core.definitions
      → Edit core next

-- The payload of a definition names no version, as the schemas of the API make sure.
abbrev pub NamesNoVersion : {core next : Core} → Edit core next → Type 0
NamesNoVersion (versioned core id data' actor result h) = Unit
NamesNoVersion (defined core ontology_id id kind content actor result h) =
    get "ontology_version_id" content ≡ none
NamesNoVersion (activated core ontology_id actor expected now result h) = Unit
NamesNoVersion (elsewhere core next same definitions) = Unit

pub data Edits (start : Core) : Core → Type 0 where
  here : Edits start start
  after : {core next : Core} → Edits start core → Edit core next → Edits start next

create_version-OneActive :
    (core : Core) (id : String) (data' : VersionData) (actor : String) (result : Core × Ontology)
    → OneActive core.ontologies
    → create_version core id data' actor ≡ ok result
    → OneActive result.0.ontologies
unfolding create_version new_version
create_version-OneActive core id data' actor result one h =
    elim (Option-cases (find (has_code data'.version_code) core.ontologies)) [
      | inr (existing, e) ↦
          subst OneActive
            (ap (λ (r : Core × Ontology). r.0.ontologies)
              (ok-injective (rw (e, create_version) at h)))
            one
      | inl e ↦
          let (previous, _, last) =
            >>=-eq-ok (check_previous core data'.previous_version_id) _
              (rw (e, create_version) at h) in
          let draft = new_version id data' in
          let more : OneActive (draft ∷ core.ontologies) = λ a b m n p q. elim m [
            | inl c ↦ let off = ap is_active_ontology c in cc
            | inr m' ↦ elim n [
              | inl c ↦ let off = ap is_active_ontology c in cc
              | inr n' ↦ one a b m' n' p q
            ]
          ] in
          subst OneActive (ap (λ (r : Core × Ontology). r.0.ontologies) (ok-injective last)) more
    ]

create_definition-leaves :
    (new : Definition) (core : Core) (result : Core × Definition)
    → create_definition new core ≡ ok result
    → (result.0.ontologies ≡ core.ontologies) × (result.0.definitions ≡ new ∷ core.definitions)
unfolding create_definition
create_definition-leaves new core result h =
    elim (Bool-cases (any (str_eq new.kind) definition_kinds)) [
      | inl e ↦
          let r = ok-injective (rw (e, create_definition) at h) in
          (
            ap (λ (q : Core × Definition). q.0.ontologies) (sym r),
            ap (λ (q : Core × Definition). q.0.definitions) (sym r),
          )
      | inr e ↦ let no = rw (e, create_definition) at h in cc
    ]

-- A definition is added to a version that is not active, and the versions stay.
pub add_definition-leaves :
    (core : Core) (ontology_id id kind : String) (content : Fields) (actor : String)
    (result : Core × Definition)
    → add_definition core ontology_id id kind content actor ≡ ok result
    → (result.0.ontologies ≡ core.ontologies)
      × ((ontology : Ontology) × (get_ontology core ontology_id ≡ ok ontology)
          × (str_eq ontology.status "ACTIVE" ≡ false)
          × (result.0.definitions ≡ new_definition ontology_id id kind content ∷ core.definitions))
unfolding add_definition
add_definition-leaves core ontology_id id kind content actor result h =
    let (ontology, found, h1) = >>=-eq-ok (get_ontology core ontology_id) _ h in
    elim (Bool-cases (str_eq ontology.status "ACTIVE")) [
      | inl e ↦ let no = rw e at h1 in cc
      | inr e ↦
          let new = new_definition ontology_id id kind content in
          let (created, made, last) = >>=-eq-ok (create_definition new core) _ (rw e at h1) in
          let (versions, definitions) = create_definition-leaves new core created made in
          let same = ok-injective last in
          (
            ap (λ (q : Core × Definition). q.0.ontologies) (sym same) ∙ versions,
            (
              ontology,
              found,
              e,
              ap (λ (q : Core × Definition). q.0.definitions) (sym same) ∙ definitions,
            ),
          )
    ]

Edit-OneActive :
    {core next : Core} → Edit core next → OneActive core.ontologies → OneActive next.ontologies
Edit-OneActive (versioned core id data' actor result h) one =
    create_version-OneActive core id data' actor result one h
Edit-OneActive (defined core ontology_id id kind content actor result h) one =
    subst OneActive (sym (add_definition-leaves core ontology_id id kind content actor result h).0)
      one
Edit-OneActive (activated core ontology_id actor expected now result h) one =
    activate-OneActive core ontology_id actor expected now result one h
Edit-OneActive (elsewhere core next same definitions) one = subst OneActive (sym same) one

Edits-OneActive :
    {start core : Core} → OneActive start.ontologies → Edits start core → OneActive core.ontologies
Edits-OneActive one here = one
Edits-OneActive one (after path edit) = Edit-OneActive edit (Edits-OneActive one path)

-- Whatever calls of `create_version`, `add_definition` and `activate` commit, in any order and with any
-- arguments, starting from no version: two versions that are active are the same one.
pub one_active_ontology :
    (start core : Core) (a b : Ontology)
    → start.ontologies ≡ []
    → Edits start core
    → In a core.ontologies
    → In b core.ontologies
    → is_active_ontology a ≡ true
    → is_active_ontology b ≡ true
    → a.id ≡ b.id
one_active_ontology start core a b none_yet path =
    Edits-OneActive (subst OneActive (sym none_yet) λ c d m n p q. absurd m) path a b
