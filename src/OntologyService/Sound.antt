-- ===== src/OntologyService/Sound.antt =====
-- That application/ontology_service.py keeps one active version of the ontology.
use andromeda_knowledge_core.Prelude.{
  ℕ, String, ◌≡◌, sym, ap, subst, ◌∙◌, true, false, Option, some, List, inl, inr, In, str_eq,
  eq_iff, Bool-cases, Option-cases,
}
use andromeda_knowledge_core.Prelude.Tables.{
  find, find-In, find-eq-none, update_where, In-update_where,
}
use andromeda_knowledge_core.Errors.{ok, >>=-eq-ok, ok-injective}
use andromeda_knowledge_core.DependencyService.{invalidate}
use andromeda_knowledge_core.Repository.{Ontology, Core}
use andromeda_knowledge_core.Repository.Rules.{check_version}
use andromeda_knowledge_core.Repository.Ontologies.{
  has_ontology_id, get_ontology, is_active_ontology, get_active_ontology, bumped_ontology,
  update_ontology,
}
use andromeda_knowledge_core.OntologyService.{
  set_ontology_status, set_activated, may_activate, needs_migration, retire, retire_other,
  activate_checked, activate,
}

-- Two active versions are one.
abbrev pub OneActive : List Ontology → Type 0
OneActive rows =
    (a b : Ontology)
    → In a rows
    → In b rows
    → is_active_ontology a ≡ true
    → is_active_ontology b ≡ true
    → a.id ≡ b.id

-- What an update of a version leaves
pub ontologies-update :
    (core : Core) (id : String) (change : Ontology → Ontology) (expected : Option ℕ)
    (result : Core × Ontology)
    → update_ontology core id change expected ≡ ok result
    → result.0.ontologies
      ≡ update_where (has_ontology_id id) (bumped_ontology change) core.ontologies
unfolding update_ontology
ontologies-update core id change expected result h =
    let (row, found, later) = >>=-eq-ok (get_ontology core id) _ h in
    let (version, checked, last) = >>=-eq-ok (check_version expected row.row_version) _ later in
    ap (λ (r : Core × Ontology). r.0.ontologies) (sym (ok-injective last))

retire-none :
    (core : Core) (active : Ontology) (left : Core)
    → OneActive core.ontologies
    → In active core.ontologies
    → is_active_ontology active ≡ true
    → retire core active ≡ ok left
    → (a : Ontology) → In a left.ontologies
    → is_active_ontology a ≡ false
unfolding retire
retire-none core active left one m on h a n =
    let (updated, done, h1) =
      >>=-eq-ok
        (update_ontology core active.id (set_ontology_status "SUPERSEDED")
          (some active.row_version))
        _ h in
    let (invalidated, _, last) =
      >>=-eq-ok
        (invalidate updated.0.derivations ("ontology", active.id) "Ontology version superseded.") _
        h1 in
    let rows : left.ontologies
        ≡ update_where (has_ontology_id active.id)
            (bumped_ontology (set_ontology_status "SUPERSEDED")) core.ontologies =
      ap (λ (c : Core). c.ontologies) (sym (ok-injective last))
      ∙ ontologies-update core active.id (set_ontology_status "SUPERSEDED") _ updated done in
    elim (In-update_where (has_ontology_id active.id)
      (bumped_ontology (set_ontology_status "SUPERSEDED")) core.ontologies a
      (subst (In a) rows n)) [
        | inl (old, k, t, c) ↦ ap is_active_ontology c
        | inr (k, t) ↦ elim (Bool-cases (is_active_ontology a)) [
          | inr e ↦ e
          | inl e ↦ let same = (eq_iff a.id active.id).1 (one a active k m e on) in cc
        ]
      ]

-- Before the new version becomes active, no other one is.
retire_other-none :
    (core : Core) (ontology_id : String) (left : Core)
    → OneActive core.ontologies
    → retire_other core ontology_id ≡ ok left
    → (a : Ontology) → In a left.ontologies
    → is_active_ontology a ≡ true
    → a.id ≡ ontology_id
unfolding retire_other get_active_ontology
retire_other-none core ontology_id left one h a m on =
    elim (Option-cases (find is_active_ontology core.ontologies)) [
      | inl e ↦
          let same : core ≡ left = ok-injective (rw (e, retire_other, get_active_ontology) at h) in
          let stored = subst (λ (c : Core). In a c.ontologies) (sym same) m in
          let off = find-eq-none is_active_ontology core.ontologies a e stored in cc
      | inr (active, e) ↦
          let (found, live) = find-In is_active_ontology core.ontologies active e in
          elim (Bool-cases (str_eq active.id ontology_id)) [
            | inl d ↦
                let same : core ≡ left =
                  ok-injective (rw (e, d, retire_other, get_active_ontology) at h) in
                let stored = subst (λ (c : Core). In a c.ontologies) (sym same) m in
                one a active stored found on live ∙ (eq_iff active.id ontology_id).0 d
            | inr d ↦
                let off =
                  retire-none core active left one found live
                    (rw (e, d, retire_other, get_active_ontology) at h) a m in
                cc
          ]
    ]

activate_checked-OneActive :
    (core : Core) (ontology_id actor : String) (expected : Option ℕ) (now : ℕ)
    (result : Core × Ontology)
    → OneActive core.ontologies
    → activate_checked core ontology_id actor expected now ≡ ok result
    → OneActive result.0.ontologies
unfolding activate_checked
activate_checked-OneActive core ontology_id actor expected now result one h =
    let (left, retired, h1) = >>=-eq-ok (retire_other core ontology_id) _ h in
    let (updated, done, last) =
      >>=-eq-ok (update_ontology left ontology_id (set_activated now) expected) _ h1 in
    let rows : result.0.ontologies
        ≡ update_where (has_ontology_id ontology_id) (bumped_ontology (set_activated now))
            left.ontologies =
      ap (λ (r : Core × Ontology). r.0.ontologies) (sym (ok-injective last))
      ∙ ontologies-update left ontology_id (set_activated now) expected updated done in
    let settled : (a : Ontology)
        → In a (
            update_where (has_ontology_id ontology_id) (bumped_ontology (set_activated now))
              left.ontologies)
        → is_active_ontology a ≡ true
        → a.id ≡ ontology_id =
      λ a m on.
        elim (In-update_where (has_ontology_id ontology_id) (bumped_ontology (set_activated now))
          left.ontologies a m) [
            | inl (old, k, t, c) ↦ ap (λ (o : Ontology). o.id) c ∙ (eq_iff old.id ontology_id).0 t
            | inr (k, t) ↦ retire_other-none core ontology_id left one retired a k on
          ] in
    subst OneActive (sym rows) λ a b m n p q. settled a m p ∙ sym (settled b n q)

-- Activating a version leaves no other active.
pub activate-OneActive :
    (core : Core) (ontology_id actor : String) (expected : Option ℕ) (now : ℕ)
    (result : Core × Ontology)
    → OneActive core.ontologies
    → activate core ontology_id actor expected now ≡ ok result
    → OneActive result.0.ontologies
unfolding activate
activate-OneActive core ontology_id actor expected now result one h =
    let (ontology, found, h1) = >>=-eq-ok (get_ontology core ontology_id) _ h in
    elim (Bool-cases (may_activate ontology)) [
      | inl e ↦ elim (Bool-cases (needs_migration ontology)) [
        | inl d ↦ let no = rw (e, d) at h1 in cc
        | inr d ↦
            activate_checked-OneActive core ontology_id actor expected now result one
              (rw (e, d) at h1)
      ]
      | inr e ↦ elim (Bool-cases (str_eq ontology.status "ACTIVE")) [
        | inl d ↦
            subst OneActive
              (ap (λ (r : Core × Ontology). r.0.ontologies) (ok-injective (rw (e, d) at h1))) one
        | inr d ↦ let no = rw (e, d) at h1 in cc
      ]
    ]
