-- ===== src/Prelude/Tables.antt =====
-- A table as the list of its rows: `select … limit 1` and `update … where`.
use mathlib.Core.Path.{◌≡◌, refl, sym, ap, ◌∙◌}
use mathlib.Core.Bool.{Bool, true, false}
use mathlib.Core.Option.{Option, none, some}
use mathlib.Core.Logic.{◌⊎◌, inl, inr}
use mathlib.Core.List.{List, [], ◌∷◌}
use native.Mathlib.Omega.{arith}
use andromeda_knowledge_core.Prelude.Tests.{if◌then◌else◌, Bool-cases}
use andromeda_knowledge_core.Prelude.Lists.{In}

module _ {A : Type 0} where
  unfoldable pub find : (A → Bool) → List A → Option A
  find test [] = none
  find test (row ∷ rows) = if test row then some row else find test rows

  unfoldable pub update_where : (A → Bool) → (A → A) → List A → List A
  update_where test change [] = []
  update_where test change (row ∷ rows) =
      let rest = update_where test change rows in if test row then change row ∷ rest else row ∷ rest

  pub find-In :
      (test : A → Bool) (rows : List A) (row : A)
      → find test rows ≡ some row
      → In row rows × (test row ≡ true)
  unfolding find
  find-In test [] row h = cc
  find-In test (r ∷ rows) row h = elim (Bool-cases (test r)) [
    | inl e ↦ ground arith
    | inr e ↦ let (m, t) = find-In test rows row (rw e at h) in (inr m, t)
  ]

  -- A row after an update is a changed one or an old one that the update passes by.
  pub In-update_where :
      (test : A → Bool) (change : A → A) (rows : List A) (row : A)
      → In row (update_where test change rows)
      → ((old : A) × In old rows × (test old ≡ true) × (row ≡ change old))
        ⊎ (In row rows × (test row ≡ false))
  unfolding update_where
  In-update_where test change [] row m = absurd m
  In-update_where test change (r ∷ rows) row m =
      let later = In-update_where test change rows row in
      elim (Bool-cases (test r)) [
        | inl e ↦ elim (rw e at m) [
          | inl c ↦ inl (r, inl refl, e, c)
          | inr n ↦ elim (later n) [
            | inl (old, k, t, c) ↦ inl (old, inr k, t, c)
            | inr (k, t) ↦ inr (inr k, t)
          ]
        ]
        | inr e ↦ elim (rw e at m) [
          | inl c ↦ inr (inl c, ap test c ∙ e)
          | inr n ↦ elim (later n) [
            | inl (old, k, t, c) ↦ inl (old, inr k, t, c)
            | inr (k, t) ↦ inr (inr k, t)
          ]
        ]
      ]

  pub find-eq-none :
      (test : A → Bool) (rows : List A) (row : A)
      → find test rows ≡ none
      → In row rows
      → test row ≡ false
  unfolding find
  find-eq-none test [] row h m = absurd m
  find-eq-none test (r ∷ rows) row h m = elim (Bool-cases (test r)) [
    | inl e ↦ let h' = rw e at h in cc
    | inr e ↦ elim m [ inl c ↦ ap test c ∙ e | inr n ↦ find-eq-none test rows row (rw e at h) n ]
  ]

  pub update_where-In :
      (test : A → Bool) (change : A → A) (rows : List A) (row : A)
      → In row rows
      → test row ≡ true
      → In (change row) (update_where test change rows)
  unfolding update_where
  update_where-In test change [] row m t = absurd m
  update_where-In test change (r ∷ rows) row m t = elim m [
    | inl c ↦ let e = ap test (sym c) ∙ t in rw e (inl (ap change c))
    | inr n ↦
        let rest = update_where-In test change rows row n t in
        elim (Bool-cases (test r)) [ inl e ↦ rw e (inr rest) | inr e ↦ rw e (inr rest) ]
  ]

  -- An update of other rows, which leaves them other, does not change what is found.
  pub find-update_where :
      (test other : A → Bool) (change : A → A) (rows : List A)
      → ((row : A) → other row ≡ true → test row ≡ false)
      → ((row : A) → other row ≡ true → test (change row) ≡ false)
      → find test (update_where other change rows) ≡ find test rows
  unfolding find update_where
  find-update_where test other change [] before after = refl
  find-update_where test other change (r ∷ rows) before after =
      let rest = find-update_where test other change rows before after in
      elim (Bool-cases (other r)) [
        | inl e ↦ rw (e, after r e, before r e) rest
        | inr e ↦ elim (Bool-cases (test r)) [ inl t ↦ rw (e, t) refl | inr t ↦ rw (e, t) rest ]
      ]
