-- ===== src/Selectors/Dotted.antt =====
-- The texts before a dot of a text: what the prefixes of its parts come to.
use text.Mathlib.TextEquality.{Char-path}
use andromeda_knowledge_core.Prelude.{
  String, Char, code, ◌≡◌, refl, sym, ◌∙◌, ap, ap₂, ==_iff, subst, true, List, [], ◌∷◌, ◌++◌, map,
  In, inl, inr, ◌↔◌, Bool-cases, if◌then◌else◌, ◌==◌, arith,
}
use andromeda_knowledge_core.Text.{split, join, ◌+++◌, starts, is_dot, cons_head}
use andromeda_knowledge_core.Selectors.{proper_prefixes}

abbrev first_dot : Char → List String
first_dot c = if is_dot c then String.[] ∷ [] else []

-- the texts that stand before a dot of the text
unfoldable pub dotted : String → List String
dotted String.[] = []
dotted (String.◌∷◌ c s) = first_dot c ++ map (λ x. String.◌∷◌ c x) (dotted s)

join-cons_head : (c : Char) (ws : List String) → join (cons_head c ws) ≡ String.◌∷◌ c (join ws)
unfolding join ◌+++◌
join-cons_head c [] = refl
join-cons_head c (w ∷ []) = refl
join-cons_head c (w ∷ v ∷ ws) = refl

join_first :
    (c : Char) (w : String) (ws : List String)
    → join (String.◌∷◌ c w ∷ ws) ≡ String.◌∷◌ c (join (w ∷ ws))
unfolding join ◌+++◌
join_first c w [] = refl
join_first c w (v ∷ ws) = refl

-- a character before the first part of each prefix
join_each :
    (c : Char) (w : String) (prefixes : List (List String))
    → map join (map (λ prefix. String.◌∷◌ c w ∷ prefix) prefixes)
      ≡ map (λ x. String.◌∷◌ c x) (map join (map (λ prefix. w ∷ prefix) prefixes))
join_each c w [] = refl
join_each c w (prefix ∷ prefixes) =
    ap₂ (λ x xs. x ∷ xs) (join_first c w prefix) (join_each c w prefixes)

prefixes-cons_head :
    (c : Char) (ws : List String)
    → map join (proper_prefixes (cons_head c ws))
      ≡ map (λ x. String.◌∷◌ c x) (map join (proper_prefixes ws))
unfolding proper_prefixes join
prefixes-cons_head c [] = refl
prefixes-cons_head c (w ∷ []) = refl
prefixes-cons_head c (w ∷ v ∷ ws) =
    ap (λ xs. String.◌∷◌ c w ∷ xs) (join_each c w (proper_prefixes (v ∷ ws)))

-- an empty part before the first part of each prefix
join_empty :
    (w : String) (prefixes : List (List String))
    → map join (map (λ prefix. String.[] ∷ prefix) (map (λ prefix. w ∷ prefix) prefixes))
      ≡ map (λ x. "." +++ x) (map join (map (λ prefix. w ∷ prefix) prefixes))
unfolding join ◌+++◌
join_empty w [] = refl
join_empty w (prefix ∷ prefixes) = ap₂ (λ x xs. x ∷ xs) refl (join_empty w prefixes)

prefixes_empty :
    (ws : List String)
    → map join (map (λ prefix. String.[] ∷ prefix) (proper_prefixes ws))
      ≡ map (λ x. "." +++ x) (map join (proper_prefixes ws))
unfolding proper_prefixes join ◌+++◌
prefixes_empty [] = refl
prefixes_empty (w ∷ []) = refl
prefixes_empty (w ∷ v ∷ ws) = ap (λ xs. ("." +++ w) ∷ xs) (join_empty w (proper_prefixes (v ∷ ws)))

dot_before : (c : Char) → is_dot c ≡ true → (x : String) → "." +++ x ≡ String.◌∷◌ c x
unfolding ◌+++◌
dot_before c h x =
    ap (λ d. String.◌∷◌ d x) (Char-path _ c (omega (arith, (==_iff (code c) 46).0 h)))

split_first : (s : String) → (w : String) × (ws : List String) × (split s ≡ w ∷ ws)
unfolding split
split_first String.[] = (String.[], [], refl)
split_first (String.◌∷◌ c s) = elim (Bool-cases (is_dot c)) [
  | inl e ↦ (String.[], split s, rw e refl)
  | inr e ↦ let (w, ws, h) = split_first s in (String.◌∷◌ c w, ws, rw (e, h) refl)
]

map_dot :
    (c : Char)
    → is_dot c ≡ true
    → (xs : List String) → map (λ x. "." +++ x) xs ≡ map (λ x. String.◌∷◌ c x) xs
map_dot c h [] = refl
map_dot c h (x ∷ xs) = ap₂ (λ y ys. y ∷ ys) (dot_before c h x) (map_dot c h xs)

-- an empty part before parts
empty_part :
    (ws : List String) (w : String) (vs : List String)
    → ws ≡ w ∷ vs
    → map join (proper_prefixes (String.[] ∷ ws))
      ≡ String.[] ∷ map (λ x. "." +++ x) (map join (proper_prefixes ws))
unfolding proper_prefixes join
empty_part [] w vs h = cc
empty_part (u ∷ us) w vs h = ap (λ xs. String.[] ∷ xs) (prefixes_empty (u ∷ us))

-- The proper prefixes of the parts of a text come to the texts before its dots.
pub prefixes-dotted : (s : String) → map join (proper_prefixes (split s)) ≡ dotted s
unfolding split dotted proper_prefixes
prefixes-dotted String.[] = refl
prefixes-dotted (String.◌∷◌ c s) = elim (Bool-cases (is_dot c)) [
  | inl e ↦
      let (w, ws, h) = split_first s in
      rw (e, empty_part (split s) w ws h, prefixes-dotted s)
        (ap (λ xs. String.[] ∷ xs) (map_dot c e (dotted s)))
  | inr e ↦ rw (e, prefixes-cons_head c (split s), prefixes-dotted s) refl
]

pub In-map :
    (f : String → String) (y : String) (xs : List String)
    → In y (map f xs) ↔ ((x : String) × In x xs × (y ≡ f x))
In-map f y [] = (λ m. absurd m, λ m. absurd m.1)
In-map f y (x ∷ xs) = (
  λ m. elim m [
    | inl same ↦ (x, inl refl, same)
    | inr k ↦ let (w, found, same) = (In-map f y xs).0 k in (w, inr found, same)
  ],
  λ m. elim m.1 [
    | inl same ↦ inl (m.2 ∙ ap f same)
    | inr k ↦ inr ((In-map f y xs).1 (m.0, k, m.2))
  ],
)

In-empty :
    (c : Char) (xs : List String)
    → In String.[] (first_dot c ++ map (λ x. String.◌∷◌ c x) xs) ↔ (is_dot c ≡ true)
In-empty c xs = elim (Bool-cases (is_dot c)) [
  | inl e ↦ rw e (λ m. refl, λ h. inl refl)
  | inr e ↦ rw e (
    λ m. let (w, found, same) = (In-map (λ x. String.◌∷◌ c x) String.[] xs).0 m in cc same,
    λ h. cc,
  )
]

cons-injective : {d c : Char} {x w : String} → String.◌∷◌ d x ≡ String.◌∷◌ c w → (d ≡ c) × (x ≡ w)
cons-injective h = (cc, cc)

In-mapped :
    (d c : Char) (x : String) (xs : List String)
    → In (String.◌∷◌ d x) (map (λ x. String.◌∷◌ c x) xs) ↔ ((d ≡ c) × In x xs)
In-mapped d c x xs = (
  λ m.
      let (w, found, same) = (In-map (λ x. String.◌∷◌ c x) (String.◌∷◌ d x) xs).0 m in
      ((cons-injective same).0, subst (λ y. In y xs) (sym (cons-injective same).1) found),
  λ h. (In-map (λ x. String.◌∷◌ c x) (String.◌∷◌ d x) xs).1 (x, h.1, ap (λ b. String.◌∷◌ b x) h.0),
)

In-cons :
    (d c : Char) (x : String) (xs : List String)
    → In (String.◌∷◌ d x) (first_dot c ++ map (λ x. String.◌∷◌ c x) xs) ↔ ((d ≡ c) × In x xs)
In-cons d c x xs = elim (Bool-cases (is_dot c)) [
  | inl e ↦ rw e (
    λ m. elim m [ inl same ↦ absurd (cc same) | inr k ↦ (In-mapped d c x xs).0 k ],
    λ h. inr ((In-mapped d c x xs).1 h),
  )
  | inr e ↦ rw e (In-mapped d c x xs)
]

starts-cons :
    (d c : Char) (t s : String)
    → (starts (String.◌∷◌ d t) (String.◌∷◌ c s) ≡ true) ↔ ((d ≡ c) × (starts t s ≡ true))
unfolding starts
starts-cons d c t s = elim (Bool-cases (code d == code c)) [
  | inl e ↦
      rw (starts, e)
        (λ h. (Char-path d c (omega (arith, (==_iff (code d) (code c)).0 e)), h), λ h. h.1)
  | inr e ↦
      rw (starts, e)
        (λ h. cc, λ h. absurd (cc (sym e ∙ (==_iff (code d) (code c)).1 (ap code h.0))))
]

-- A text is before a dot of another when the other starts with it and a dot.
pub In-dotted : (x s : String) → In x (dotted s) ↔ (starts (x +++ ".") s ≡ true)
unfolding dotted starts ◌+++◌
In-dotted String.[] String.[] = (λ m. absurd m, λ h. cc)
In-dotted (String.◌∷◌ d x) String.[] = (λ m. absurd m, λ h. cc)
In-dotted String.[] (String.◌∷◌ c s) = ground (arith, In-empty c (dotted s))
In-dotted (String.◌∷◌ d x) (String.◌∷◌ c s) =
    let step = In-cons d c x (dotted s) in
    let begin = starts-cons d c (x +++ ".") s in
    let rest = In-dotted x s in
    (
      λ m. begin.1 ((step.0 m).0, rest.0 (step.0 m).1),
      λ h. step.1 ((begin.0 h).0, rest.1 (begin.0 h).1),
    )
