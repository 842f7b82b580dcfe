-- ===== src/KnowledgeService/Current.antt =====
-- That `create_fact` of application/knowledge_service.py keeps one current fact for each subject, property
-- and start of validity.
use andromeda_knowledge_core.Prelude.{
  ℕ, String, ◌≡◌, refl, sym, ap, subst, ◌∙◌, true, false, Option, none, some, List, [], ◌∷◌, inl,
  inr, In, In-keep, str_eq, eq_iff, ==_iff, Bool-cases, arith,
}
use andromeda_knowledge_core.Prelude.Int.{pos}
use andromeda_knowledge_core.Prelude.Tables.{find-In, find-eq-none, update_where, In-update_where}
use andromeda_knowledge_core.Json.{Value}
use andromeda_knowledge_core.Ingestion.Service.{join_parts}
use andromeda_knowledge_core.KnowledgeService.{
  Moment, Fact, Knowledge, Printing, find_fact_by_identity, is_current, matches, is_about,
  list_facts, to_close, closed_at,
}
use andromeda_knowledge_core.KnowledgeService.Facts.{
  FactData, same_moment, is_replaced, find_replaced_fact, fact_identity,
}

-- A moment is given in UTC, so that equal moments have one text.
abbrev pub IsUtc : Option Moment → Type 0
IsUtc none = Unit
IsUtc (some moment) = moment.offset ≡ some (pos 0)

-- Each fact is from a moment in UTC and has the identity of its columns; two facts whose transaction time
-- is open, about the same subject and property and from the same moment, are one.
pub record Consistent (p : Printing) (facts : List Fact) : Type 0 where
  pub in_utc : (f : Fact) → In f facts → IsUtc f.valid_from
  pub identified :
      (f : Fact)
      → In f facts
      → f.identity_key ≡ fact_identity p f.subject_id f.property_code f.value f.valid_from
  pub one_current :
      (f g : Fact)
      → In f facts
      → In g facts
      → is_current f ≡ true
      → is_current g ≡ true
      → f.subject_id ≡ g.subject_id
      → f.property_code ≡ g.property_code
      → f.valid_from ≡ g.valid_from
      → f.id ≡ g.id

moment-eq : (a b : Moment) → a.instant ≡ b.instant → a.offset ≡ b.offset → a ≡ b
moment-eq a b i o =
    ap (λ n. record { instant = n; offset = a.offset }) i
    ∙ ap (λ z. record { instant = b.instant; offset = z }) o

same_moment-eq : (a b : Option Moment) → IsUtc a → IsUtc b → same_moment a b ≡ true → a ≡ b
unfolding same_moment
same_moment-eq none none u v h = refl
same_moment-eq none (some n) u v h = cc
same_moment-eq (some m) none u v h = cc
same_moment-eq (some m) (some n) u v h =
    ap some (moment-eq m n ((==_iff m.instant n.instant).0 h) (u ∙ sym v))

same_moment_refl : (a : Option Moment) → same_moment a a ≡ true
unfolding same_moment
same_moment_refl none = refl
same_moment_refl (some m) = (==_iff m.instant m.instant).1 refl

closed_off : (now : ℕ) (f : Fact) → is_current (closed_at now f) ≡ false
unfolding is_current
closed_off now f = refl

-- A fact that is still current after one was closed was not closed.
open-kept :
    (id : String) (now : ℕ) (facts : List Fact) (g : Fact)
    → In g (update_where (to_close id) (closed_at now) facts)
    → is_current g ≡ true
    → In g facts × (str_eq g.id id ≡ false)
unfolding to_close
open-kept id now facts g m on = elim (In-update_where (to_close id) (closed_at now) facts g m) [
  | inl (old, n, t, c) ↦ let off = ap is_current c ∙ closed_off now old in cc
  | inr (n, t) ↦ (n, ground arith)
]

close-Consistent :
    (p : Printing) (id : String) (now : ℕ) (facts : List Fact)
    → Consistent p facts
    → Consistent p (update_where (to_close id) (closed_at now) facts)
close-Consistent p id now facts s = record {
  in_utc = λ f m. elim (In-update_where (to_close id) (closed_at now) facts f m) [
    | inl (old, n, t, c) ↦ subst (λ (x : Fact). IsUtc x.valid_from) (sym c) (s.in_utc old n)
    | inr (n, t) ↦ s.in_utc f n
  ];
  identified = λ f m. elim (In-update_where (to_close id) (closed_at now) facts f m) [
    | inl (old, n, t, c) ↦
        subst
          (λ (x : Fact).
            x.identity_key ≡ fact_identity p x.subject_id x.property_code x.value x.valid_from)
          (sym c) (s.identified old n)
    | inr (n, t) ↦ s.identified f n
  ];
  one_current = λ f g m n on too.
      let (m', _) = open-kept id now facts f m on in
      let (n', _) = open-kept id now facts g n too in s.one_current f g m' n' on too;
}

-- The identity of a fact goes by the print of its value.
fact_identity-cong :
    (p : Printing) (s s' c c' : String) (value other : Value) (m m' : Option Moment)
    → s ≡ s'
    → c ≡ c'
    → p.dumps value ≡ p.dumps other
    → m ≡ m'
    → fact_identity p s c value m ≡ fact_identity p s' c' other m'
unfolding fact_identity
fact_identity-cong p s s' c c' value other m m' hs hc hd hm =
    let key : String → String → String → String → String =
      λ a b d e. p.text_digest (join_parts (a ∷ b ∷ d ∷ e ∷ [])) in
    ap (λ a. key a c (p.dumps value) (p.moment_text m)) hs
    ∙ ap (λ b. key s' b (p.dumps value) (p.moment_text m)) hc
    ∙ ap (λ d. key s' c' d (p.moment_text m)) hd
    ∙ ap (λ o. key s' c' (p.dumps other) (p.moment_text o)) hm

module _ (p : Printing) (k : Knowledge) (data' : FactData) (consistent : Consistent p k.facts) where
  -- a current fact about what the payload is about
  abbrev pub IsRival : Fact → Type 0
  IsRival g =
      In g k.facts
      × (is_current g ≡ true)
      × (g.subject_id ≡ data'.subject_id)
      × (g.property_code ≡ data'.property_code)
      × (g.valid_from ≡ data'.valid_from)

  -- A current fact with another identity has another value.
  rival_replaced :
      (g : Fact)
      → find_fact_by_identity k
          (fact_identity p data'.subject_id data'.property_code data'.value data'.valid_from)
        ≡ none
      → IsRival g
      → is_replaced p data'.value data'.valid_from g ≡ true
  unfolding find_fact_by_identity is_replaced
  rival_replaced g absent (m, on, s, c, v) =
      let moment : same_moment g.valid_from data'.valid_from ≡ true =
        ap (λ o. same_moment o data'.valid_from) v ∙ same_moment_refl data'.valid_from in
      elim (Bool-cases (str_eq (p.dumps g.value) (p.dumps data'.value))) [
        | inr e ↦ ground arith
        | inl e ↦
            let key =
              fact_identity-cong p _ _ _ _ g.value data'.value _ _ s c
                ((eq_iff (p.dumps g.value) (p.dumps data'.value)).0 e) v in
            let off = find-eq-none _ k.facts g absent m in
            let on_key = (eq_iff g.identity_key _).1 (consistent.identified g m ∙ key) in cc
      ]

  rival_listed : (g : Fact) → IsRival g → In g (list_facts k data'.subject_id data'.property_code)
  unfolding list_facts is_about matches
  rival_listed g (m, on, s, c, v) =
      let subject = (eq_iff g.subject_id data'.subject_id).1 s in
      let property = (eq_iff g.property_code data'.property_code).1 c in
      (In-keep (is_about data'.subject_id data'.property_code) g k.facts).1 (m, ground arith)

  -- The facts once the correction has closed what the payload replaces: none of those that are still
  -- current is about the same subject, property and moment.
  pub record Settled (lefts : List Fact) : Type 0 where
    pub settled : Consistent p lefts
    pub none_current :
        (g : Fact)
        → In g lefts
        → is_current g ≡ true
        → g.subject_id ≡ data'.subject_id
        → g.property_code ≡ data'.property_code
        → g.valid_from ≡ data'.valid_from
        → ⊥

  abbrev pub AbsentKey : Type 0
  AbsentKey =
      find_fact_by_identity k
        (fact_identity p data'.subject_id data'.property_code data'.value data'.valid_from)
      ≡ none

  abbrev pub replaced : Option Fact
  replaced =
      find_replaced_fact p (list_facts k data'.subject_id data'.property_code) data'.value
        data'.valid_from

  pub nothing_replaced : AbsentKey → replaced ≡ none → Settled k.facts
  unfolding find_replaced_fact
  nothing_replaced absent e = record {
    settled = consistent;
    none_current = λ g m on s c v.
        let listed = rival_listed g (m, on, s, c, v) in
        let rival = rival_replaced g absent (m, on, s, c, v) in
        let off = find-eq-none (is_replaced p data'.value data'.valid_from) _ g e listed in cc;
  }

  pub replaced-listed :
      (old : Fact)
      → IsUtc data'.valid_from
      → str_eq data'.subject_id "" ≡ false
      → str_eq data'.property_code "" ≡ false
      → replaced ≡ some old
      → IsRival old
  unfolding find_replaced_fact list_facts is_about matches is_replaced
  replaced-listed old utc subject property e =
      let (listed, test) = find-In (is_replaced p data'.value data'.valid_from) _ old e in
      let (m, about) =
        (In-keep (is_about data'.subject_id data'.property_code) old k.facts).0 listed in
      let s : str_eq old.subject_id data'.subject_id ≡ true = ground arith in
      let c : str_eq old.property_code data'.property_code ≡ true = ground arith in
      let on : is_current old ≡ true = ground arith in
      let v : same_moment old.valid_from data'.valid_from ≡ true = ground arith in
      (
        m,
        on,
        (eq_iff old.subject_id data'.subject_id).0 s,
        (eq_iff old.property_code data'.property_code).0 c,
        same_moment-eq old.valid_from data'.valid_from (consistent.in_utc old m) utc v,
      )

  pub one_closed :
      (old : Fact) (now : ℕ)
      → IsRival old
      → Settled (update_where (to_close old.id) (closed_at now) k.facts)
  one_closed old now (n, live, s', c', v') = record {
    settled = close-Consistent p old.id now k.facts consistent;
    none_current = λ g m on s c v.
        let (m', apart) = open-kept old.id now k.facts g m on in
        let same =
          consistent.one_current g old m' n on live (s ∙ sym s') (c ∙ sym c') (v ∙ sym v') in
        let is_same = (eq_iff g.id old.id).1 same in cc;
  }
