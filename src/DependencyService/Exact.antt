-- ===== src/DependencyService/Exact.antt =====
-- `invalidate` of application/dependency_service.py meets exactly the derived values that can be
-- reached, and leaves none of them valid.
use andromeda_knowledge_core.Graph.Bounded.{IsWithin, IsBeyond}
use andromeda_knowledge_core.Prelude.{
  suc, ◌+◌, String, ◌≡◌, ◌≢◌, refl, sym, ◌∙◌, subst, ap, ap₂, eq_iff, any-of-In, str_eq, true,
  false, List, [], ◌∷◌, In, inl, inr, ◌⊎◌, ◌↔◌, length, Bool-cases, arith, map,
}
use andromeda_knowledge_core.Errors.{ok, err, traversal_limit, ok-injective, >>=-eq-ok, >>=-of-ok}
use andromeda_knowledge_core.Graph.{Node, Graph, sorted_nodes}
use andromeda_knowledge_core.Graph.Sets.{In-sorted_nodes, pending-start}
use andromeda_knowledge_core.Graph.Worklist.{start-Explored}
use andromeda_knowledge_core.DependencyService.Collect.{
  IsAffected, start-Collected, collect_lem, collect-Collection,
}
use andromeda_knowledge_core.DependencyService.{
  Derived, Store, Report, is_derived, collect, invalidate, invalidate_derived, id_of, mark,
  is_stale, is_listed,
}

In-map :
    (i : String) (ns : List Node) → In i (map id_of ns) ↔ ((n : Node) × In n ns × (id_of n ≡ i))
In-map i [] = (λ m. absurd m, λ m. absurd m.1)
In-map i (n ∷ ns) = (
  λ m. elim m [
    | inl same ↦ (n, inl refl, sym same)
    | inr k ↦ let (w, found, same) = (In-map i ns).0 k in (w, inr found, same)
  ],
  λ m. elim m.1 [
    | inl same ↦ inl (sym m.2 ∙ ap id_of same)
    | inr k ↦ inr ((In-map i ns).1 (m.0, k, m.2))
  ],
)

derived_node : (n : Node) (i : String) → is_derived n ≡ true → id_of n ≡ i → n ≡ ("derived", i)
derived_node (kind, id) i d same = ap₂ (λ k j. (k, j)) ((eq_iff kind "derived").0 d) same

module _ (g : Graph) (source : Node) (affected : List Node)
    (h : collect (suc (suc (length g))) g (source ∷ []) [] [] ≡ ok affected) (i : String) where
  ids_lem : In i (map id_of (sorted_nodes affected)) ↔ IsAffected g source ("derived", i)
  ids_lem =
      let collected = λ (n : Node).
        collect_lem g source (suc (suc (length g))) (source ∷ []) [] [] affected
          (start-Explored g source) (start-Collected g source) h n in
      (
        λ m.
            let (n, found, same) = (In-map i (sorted_nodes affected)).0 m in
            let a = (collected n).0 ((In-sorted_nodes n affected).0 found) in
            subst (IsAffected g source) (derived_node n i a.1 same) a,
        λ a. (In-map i (sorted_nodes affected)).1 (
          ("derived", i),
          (In-sorted_nodes ("derived", i) affected).1 ((collected ("derived", i)).1 a),
          refl,
        ),
      )

marked_row :
    (ids : List String) (row : Derived) → row.status ≡ "INVALIDATED" → is_stale ids row ≡ false
unfolding is_stale
marked_row ids row h = rw h (ground arith)

mark-is_stale :
    (ids : List String) (reason : String) (row : Derived)
    → is_stale ids (mark ids reason row) ≡ false
mark-is_stale ids reason row = elim (Bool-cases (is_stale ids row)) [
  | inl e ↦ rw e (
      marked_row ids
        (record row {
          status = "INVALIDATED";
          invalidation_reason = reason;
          row_version = row.row_version + 1;
        })
        refl)
  | inr e ↦ rw e e
]

none_stale :
    (ids : List String) (reason : String) (rows : List Derived) (row : Derived)
    → In row (invalidate_derived ids reason rows)
    → is_stale ids row ≡ false
unfolding invalidate_derived
none_stale ids reason [] row m = absurd m
none_stale ids reason (r ∷ rows) row (inl same) =
    subst (λ r. is_stale ids r ≡ false) (sym same) (mark-is_stale ids reason r)
none_stale ids reason (r ∷ rows) row (inr m) = none_stale ids reason rows row m

valid-is_stale :
    (ids : List String) (row : Derived)
    → In row.id ids
    → row.status ≡ "VALID"
    → is_stale ids row ≡ true
unfolding is_stale is_listed
valid-is_stale ids row m valid =
    rw
      (
        any-of-In (λ i. str_eq i row.id) row.id ids m ((eq_iff row.id row.id).1 refl),
        (eq_iff row.status "VALID").1 valid,
      )
      refl

-- An invalidation reports the ids of the derived values that a walk along the dependencies leads to
-- from what changed, other than what changed, and no others.
pub invalidate_lem :
    (store store' : Store) (source : Node) (reason : String) (report : Report)
    → invalidate store source reason ≡ ok (store', report)
    → (i : String)
    → In i report.affected_nodes ↔ IsAffected store.dependencies source ("derived", i)
unfolding invalidate
invalidate_lem store store' source reason report h i =
    let g = store.dependencies in
    let (affected, e, k) = >>=-eq-ok (collect (suc (suc (length g))) g (source ∷ []) [] []) _ h in
    subst (λ ids. In i ids ↔ IsAffected g source ("derived", i))
      (ap (λ (r : Store × Report). r.1.affected_nodes) (ok-injective k))
      (ids_lem g source affected e i)

-- After an invalidation no row is valid whose value, other than what changed, a walk leads to from
-- what changed.
pub invalidate-is_stale :
    (store store' : Store) (source : Node) (reason : String) (report : Report)
    → invalidate store source reason ≡ ok (store', report)
    → (row : Derived) → In row store'.derived
    → IsAffected store.dependencies source ("derived", row.id)
    → row.status ≢ "VALID"
unfolding invalidate
invalidate-is_stale store store' source reason report h row m a =
    let g = store.dependencies in
    let (affected, e, k) = >>=-eq-ok (collect (suc (suc (length g))) g (source ∷ []) [] []) _ h in
    let ids = map id_of (sorted_nodes affected) in
    let rows = ap (λ (r : Store × Report). r.0.derived) (ok-injective k) in
    λ valid.
      let stale = valid-is_stale ids row ((ids_lem g source affected e row.id).1 a) valid in
      cc (sym stale ∙ none_stale ids reason store.derived row (subst (In row) (sym rows) m))

-- An invalidation ends: it gives its report, and then at most ten thousand nodes can be reached from what
-- changed, which counts too, or it is refused, and then more than ten thousand different ones can.
pub invalidate_outcomes :
    (store : Store) (source : Node) (reason : String)
    → ((after : Store × Report) × (invalidate store source reason ≡ ok after)
        × IsWithin store.dependencies source 10000)
      ⊎ ((invalidate store source reason ≡ err traversal_limit)
          × IsBeyond store.dependencies source 10000)
unfolding invalidate
invalidate_outcomes store source reason =
    let g = store.dependencies in
    elim (collect-Collection g source (suc (suc (length g))) (source ∷ []) [] []
      (omega (arith, pending-start g)) (start-Explored g source) (start-Collected g source) tt
      (omega arith)) [
        | inl (affected, e, within) ↦ inl (
          _,
          >>=-of-ok (collect (suc (suc (length g))) g (source ∷ []) [] []) _ affected e,
          within,
        )
        | inr (e, beyond) ↦ inr (rw e refl, beyond)
      ]
