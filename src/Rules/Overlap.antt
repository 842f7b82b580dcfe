-- ===== src/Rules/Overlap.antt =====
-- When `_scopes_overlap` sees that two scopes can match one context, and when it does not.
use andromeda_knowledge_core.Prelude.{
  String, ◌≡◌, refl, true, false, some, List, [], ◌∷◌, str_eq, all, arith, eq_iff, In, inl, inr,
  Bool-cases, Option-cases, any-of-In, all-In, subst, sym, ap, ◌∙◌,
}
use andromeda_knowledge_core.Prelude.Int.{ℤ, eqb_ℤ_sound, eqb_ℤ_refl}
use andromeda_knowledge_core.Errors.{ok}
use andromeda_knowledge_core.Json.{
  Value, null, bool, num, str, arr, obj, Items, Fields, end, field, get, value_or_null, to_list,
}
use andromeda_knowledge_core.Json.Compare.{py_eq, is_in, eq_int, int_of_bool}
use andromeda_knowledge_core.Rules.{
  scope_matches, expectation_met, is_hashable, sets_meet, values_overlap, scopes_overlap,
}

-- What `==` sees of a value that can be hashed.
data Scalar : Type 0 where
  absent container : Scalar
  number : ℤ → Scalar
  text : String → Scalar

abbrev scalar_of : Value → Scalar
scalar_of null = absent
scalar_of (bool b) = number (int_of_bool b)
scalar_of (num n) = number n
scalar_of (str s) = text s
scalar_of _ = container

int_scalar : (n : ℤ) (v : Value) → eq_int n v ≡ true → number n ≡ scalar_of v
int_scalar n (bool b) h = ap number (eqb_ℤ_sound n (int_of_bool b) h)
int_scalar n (num m) h = ap number (eqb_ℤ_sound n m h)
int_scalar n _ h = cc

py_eq-scalar : (a v : Value) → is_hashable v ≡ true → py_eq a v ≡ true → scalar_of a ≡ scalar_of v
unfolding py_eq is_hashable
py_eq-scalar null null hv h = refl
py_eq-scalar (bool b) v hv h = int_scalar (int_of_bool b) v h
py_eq-scalar (num n) v hv h = int_scalar n v h
py_eq-scalar (str s) (str t) hv h = ap text ((eq_iff s t).0 h)
py_eq-scalar (arr xs) (arr ys) hv h = cc
py_eq-scalar (obj fs) (obj gs) hv h = cc
py_eq-scalar _ _ hv h = cc

scalar-py_eq : (a v : Value) → is_hashable a ≡ true → scalar_of a ≡ scalar_of v → py_eq a v ≡ true
unfolding py_eq is_hashable
scalar-py_eq null null ha h = refl
scalar-py_eq (bool b) v ha h = int_of_scalar (int_of_bool b) v h
  where
    int_of_scalar : (n : ℤ) (v : Value) → number n ≡ scalar_of v → eq_int n v ≡ true
    int_of_scalar n (bool b) h = ground (arith, eqb_ℤ_refl n)
    int_of_scalar n (num m) h = ground (arith, eqb_ℤ_refl n)
    int_of_scalar n _ h = cc
scalar-py_eq (num n) (bool b) ha h = ground (arith, eqb_ℤ_refl n)
scalar-py_eq (num n) (num m) ha h = ground (arith, eqb_ℤ_refl n)
scalar-py_eq (str s) (str t) ha h = ground (arith, eq_iff s t)
scalar-py_eq _ _ ha h = cc

-- Values that equal one value equal one another, if they can be hashed.
py_eq-common :
    (a v w : Value)
    → is_hashable v ≡ true
    → is_hashable w ≡ true
    → py_eq a v ≡ true
    → py_eq a w ≡ true
    → py_eq v w ≡ true
py_eq-common a v w hv hw h k =
    scalar-py_eq v w hv (sym (py_eq-scalar a v hv h) ∙ py_eq-scalar a w hw k)

py_eq_refl : (v : Value) → is_hashable v ≡ true → py_eq v v ≡ true
py_eq_refl v h = scalar-py_eq v v h refl

In-of-is_in :
    (a : Value) (ws : List Value) → is_in a ws ≡ true → (w : Value) × In w ws × (py_eq a w ≡ true)
unfolding is_in
In-of-is_in a [] h = cc
In-of-is_in a (w ∷ ws) h = elim (Bool-cases (py_eq a w)) [
  | inl e ↦ (w, inl refl, e)
  | inr e ↦ let (u, m, q) = In-of-is_in a ws (ground arith) in (u, inr m, q)
]

is_in-of-In : (a w : Value) (ws : List Value) → In w ws → py_eq a w ≡ true → is_in a ws ≡ true
unfolding is_in
is_in-of-In a w [] m h = absurd m
is_in-of-In a w (v ∷ ws) (inl e) h = ground arith
is_in-of-In a w (v ∷ ws) (inr m) h = ground (arith, is_in-of-In a w ws m h)

sets_meet-common :
    (a : Value) (xs ys : List Value)
    → all is_hashable xs ≡ true
    → all is_hashable ys ≡ true
    → is_in a xs ≡ true
    → is_in a ys ≡ true
    → sets_meet xs ys ≡ ok true
unfolding sets_meet
sets_meet-common a xs ys hx hy h k =
    let (x, mx, ex) = In-of-is_in a xs h in
    let (y, my, ey) = In-of-is_in a ys k in
    let same =
      py_eq-common a x y (all-In is_hashable xs hx x mx) (all-In is_hashable ys hy y my) ex ey in
    rw (hx, hy) (ap ok (any-of-In (λ x. is_in x ys) x xs mx (is_in-of-In x y ys my same)))

-- The two expectations of a shared key have the same form: two values, or two lists of values, that
-- can be hashed.
abbrev pub SameForm : Value → Value → Type 0
SameForm (arr xs) (arr ys) =
    (all is_hashable (to_list xs) ≡ true) × (all is_hashable (to_list ys) ≡ true)
SameForm v w = (is_hashable v ≡ true) × (is_hashable w ≡ true)

scalar_met : (v actual : Value) → is_hashable v ≡ true → expectation_met v actual ≡ py_eq actual v
unfolding expectation_met is_hashable
scalar_met null actual h = refl
scalar_met (bool b) actual h = refl
scalar_met (num n) actual h = refl
scalar_met (str s) actual h = refl
scalar_met _ actual h = cc

values_overlap-scalar : (v w : Value) → is_hashable v ≡ true → values_overlap v w ≡ ok (py_eq v w)
unfolding values_overlap is_hashable
values_overlap-scalar null w h = refl
values_overlap-scalar (arr xs) w h = cc
values_overlap-scalar _ w h = refl

both_scalar :
    (v w actual : Value)
    → is_hashable v ≡ true
    → is_hashable w ≡ true
    → expectation_met v actual ≡ true
    → expectation_met w actual ≡ true
    → values_overlap v w ≡ ok true
both_scalar v w actual hv hw h k = rw (values_overlap-scalar v w hv) (
    ap ok (
      py_eq-common actual v w hv hw (rw (scalar_met v actual hv) at h)
        (rw (scalar_met w actual hw) at k)))

values_overlap-common :
    (v w actual : Value)
    → SameForm v w
    → expectation_met v actual ≡ true
    → expectation_met w actual ≡ true
    → values_overlap v w ≡ ok true
values_overlap-common (arr xs) (arr ys) actual f h k =
    unfold values_overlap expectation_met in
    sets_meet-common actual (to_list xs) (to_list ys) f.0 f.1 h k
values_overlap-common v w actual f h k = both_scalar v w actual f.0 f.1 h k

some-injective : {A : Type 0} {a b : A} → some a ≡ some b → a ≡ b
some-injective h = cc

-- An entry of a scope that matches is met.
entry_met :
    (key : String) (w : Value) (right context : Fields)
    → get key right ≡ some w
    → scope_matches right context ≡ true
    → expectation_met w (value_or_null (get key context)) ≡ true
unfolding get scope_matches
entry_met key w end context e h = cc
entry_met key w (field j v rest) context e h = elim (Bool-cases (str_eq j key)) [
  | inl same ↦
      let v-is-w = some-injective (rw same at e) in
      let j-is-key = (eq_iff j key).0 same in
      subst (λ u. expectation_met u (value_or_null (get key context)) ≡ true) v-is-w
        (subst (λ k. expectation_met v (value_or_null (get k context)) ≡ true) j-is-key
          (ground arith))
  | inr other ↦ entry_met key w rest context (ground arith) (ground arith)
]

-- The scopes differ in form at no key that both have.
abbrev pub ComparableFrom : Fields → Fields → Type 0
ComparableFrom end right = Unit
ComparableFrom (field key v rest) right =
    ((w : Value) → get key right ≡ some w → SameForm v w) × ComparableFrom rest right

-- Two scopes that match one context overlap, when the expectations of the keys that they share are
-- both values or both lists of values that Python can hash.
pub scopes_overlap_sound :
    (left right context : Fields)
    → ComparableFrom left right
    → scope_matches left context ≡ true
    → scope_matches right context ≡ true
    → scopes_overlap left right ≡ ok true
unfolding scopes_overlap scope_matches
scopes_overlap_sound end right context f h k = refl
scopes_overlap_sound (field key v rest) right context f h k = elim (Option-cases (get key right)) [
  | inl e ↦ rw (e, scopes_overlap) (scopes_overlap_sound rest right context f.1 (ground arith) k)
  | inr (w, e) ↦
      let met = entry_met key w right context e k in
      rw
        (
          e,
          scopes_overlap,
          values_overlap-common v w (value_or_null (get key context)) (f.0 w e) (ground arith) met,
        )
        (scopes_overlap_sound rest right context f.1 (ground arith) k)
]

get_here : (key : String) (v : Value) (fs : Fields) → get key (field key v fs) ≡ some v
unfolding get
get_here key v fs = rw ((eq_iff key key).1 refl) refl

hashable_is_no_list : (v : Value) (xs : Items) → is_hashable v ≡ true → py_eq v (arr xs) ≡ false
unfolding py_eq is_hashable
hashable_is_no_list (arr ys) xs h = cc
hashable_is_no_list _ xs h = refl

values_overlap-list :
    (v : Value) (xs : Items) → is_hashable v ≡ true → values_overlap v (arr xs) ≡ ok false
values_overlap-list v xs h =
    rw (values_overlap-scalar v (arr xs) h) (ap ok (hashable_is_no_list v xs h))

-- A scope that lists values and a scope that expects one of them match a common context, and the
-- test for an overlap says that they do not overlap.
pub scopes_overlap-mixed :
    (key : String) (v : Value) (xs : Items)
    → is_hashable v ≡ true
    → is_in v (to_list xs) ≡ true
    → (scope_matches (field key v end) (field key v end) ≡ true)
      × (scope_matches (field key (arr xs) end) (field key v end) ≡ true)
      × (scopes_overlap (field key v end) (field key (arr xs) end) ≡ ok false)
unfolding scope_matches expectation_met scopes_overlap
scopes_overlap-mixed key v xs hv hm = (
  rw (get_here key v end, scalar_met v v hv, py_eq_refl v hv) refl,
  rw (get_here key v end, hm) refl,
  rw (get_here key (arr xs) end, scopes_overlap, values_overlap-list v xs hv) refl,
)
