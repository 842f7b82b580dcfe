-- ===== src/Selectors/Exact.antt =====
-- The selectors of a property are the patterns that `_matches_pattern` of domain/dsl/evaluator.py
-- takes for it: a query by a pattern is invalidated exactly by the facts that it can read.
use text.Mathlib.TextEquality.{Char-path}
use andromeda_knowledge_core.Prelude.{
  String, code, ◌≡◌, refl, sym, ◌∙◌, ap, ap₂, ==_iff, subst, true, List, [], ◌∷◌, map, In, inl, inr,
  ◌↔◌, Bool-cases, ◌&&◌, arith, str_eq, eq_iff,
}
use andromeda_knowledge_core.Text.{split, join, ◌+++◌, starts, drop_last, ends_with_star}
use andromeda_knowledge_core.Dsl.Evaluate.References.{matches_text}
use andromeda_knowledge_core.Selectors.{proper_prefixes, fact_property_selectors}
use andromeda_knowledge_core.Selectors.Dotted.{dotted, prefixes-dotted, In-dotted, In-map}

abbrev starred : String → String
starred x = x +++ ".*"

ends_starred :
    (x : String) → (ends_with_star (starred x) ≡ true) × (drop_last (starred x) ≡ x +++ ".")
unfolding ends_with_star drop_last ◌+++◌
ends_starred String.[] = (refl, refl)
ends_starred (String.◌∷◌ c String.[]) = (refl, refl)
ends_starred (String.◌∷◌ c (String.◌∷◌ d String.[])) = (refl, refl)
ends_starred (String.◌∷◌ c (String.◌∷◌ d (String.◌∷◌ e x))) =
    let (ends, dropped) = ends_starred (String.◌∷◌ d (String.◌∷◌ e x)) in
    (ends, ap (λ s. String.◌∷◌ c s) dropped)

starred_form :
    (pattern : String) → ends_with_star pattern ≡ true → (x : String) × (pattern ≡ starred x)
unfolding ends_with_star ◌+++◌
starred_form String.[] h = cc
starred_form (String.◌∷◌ c String.[]) h = cc
starred_form (String.◌∷◌ c (String.◌∷◌ d String.[])) h =
    let is_first = (==_iff (code c) 46).0 (ground arith) in
    let is_second = (==_iff (code d) 42).0 (ground arith) in
    (
      String.[],
      ap₂ (λ a b. String.◌∷◌ a (String.◌∷◌ b String.[])) (Char-path c _ (omega (arith, is_first)))
          (Char-path d _ (omega (arith, is_second))),
    )
starred_form (String.◌∷◌ c (String.◌∷◌ d (String.◌∷◌ e s))) h =
    let (x, same) = starred_form (String.◌∷◌ d (String.◌∷◌ e s)) h in
    (String.◌∷◌ c x, ap (λ t. String.◌∷◌ c t) same)

map-map :
    (prefixes : List (List String))
    → map (λ prefix. join prefix +++ ".*") prefixes ≡ map starred (map join prefixes)
map-map [] = refl
map-map (prefix ∷ prefixes) = ap (λ xs. (join prefix +++ ".*") ∷ xs) (map-map prefixes)

-- the selectors that end with a star
In-starred :
    (p pattern : String)
    → In pattern (map (λ prefix. join prefix +++ ".*") (proper_prefixes (split p)))
      ↔ ((ends_with_star pattern && starts (drop_last pattern) p) ≡ true)
In-starred p pattern =
    rw (map-map (proper_prefixes (split p)), prefixes-dotted p)
      (
        λ m.
            let (x, found, same) = (In-map starred pattern (dotted p)).0 m in
            subst (λ q. (ends_with_star q && starts (drop_last q) p) ≡ true) (sym same)
              (rw ((ends_starred x).0, (ends_starred x).1, (In-dotted x p).0 found) refl),
        λ h.
            let (x, same) = starred_form pattern (ground arith) in
            let begins =
              subst (λ q. starts q p ≡ true) (ap drop_last same ∙ (ends_starred x).1)
                (ground arith) in
            (In-map starred pattern (dotted p)).1 (x, (In-dotted x p).1 begins, same),
      )

-- A pattern is a selector of a property exactly when it matches the property: they are equal, or the
-- pattern ends with ".*" and the property starts with what is before the star.
pub fact_property_selectors_lem :
    (p pattern : String) → In pattern (fact_property_selectors p) ↔ (matches_text p pattern ≡ true)
unfolding fact_property_selectors matches_text
fact_property_selectors_lem p pattern = (
  λ m. elim m [
    | inl same ↦ rw ((eq_iff p pattern).1 (sym same)) refl
    | inr k ↦ let matched = (In-starred p pattern).0 k in ground arith
  ],
  λ h. elim (Bool-cases (str_eq p pattern)) [
    | inl e ↦ inl (sym ((eq_iff p pattern).0 e))
    | inr e ↦ inr ((In-starred p pattern).1 (ground arith))
  ],
)
