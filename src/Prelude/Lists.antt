-- ===== src/Prelude/Lists.antt =====
-- Lists tested by Booleans: Python's `any`, `all`, `len` and comprehensions with a condition.
use Prim.Native.Nat.{ℕ, suc}
use mathlib.Core.Path.{◌≡◌, refl}
use mathlib.Core.Bool.{Bool, true, false, ◌&&◌, ◌||◌}
use mathlib.Core.Logic.{◌⊎◌, ◌↔◌, inl, inr}
use mathlib.Core.List.{List, [], ◌∷◌, ◌++◌}
use native.Mathlib.Omega.{arith}
use andromeda_knowledge_core.Prelude.Tests.{if◌then◌else◌, Bool-cases}

-- A predicate of every item; it computes to a tuple.
abbrev pub All {ℓ κ} : {A : Type ℓ} (holds : A → Type κ) (items : List A) → Type κ
All holds (item ∷ items) = holds item × All holds items
All holds [] = Unit

-- Membership with its position kept; it computes to a sum.
abbrev pub In : {A : Type 0} → A → List A → Type 0
In a [] = ⊥
In a (x ∷ xs) = (a ≡ x) ⊎ In a xs

module _ {ℓ} {A : Type ℓ} where
  abbrev pub length : List A → ℕ
  length [] = 0
  length (x ∷ xs) = suc (length xs)

  unfoldable pub any : (A → Bool) → List A → Bool
  any p [] = false
  any p (x ∷ xs) = p x || any p xs

  unfoldable pub all : (A → Bool) → List A → Bool
  all p [] = true
  all p (x ∷ xs) = p x && all p xs

  unfoldable pub keep : (A → Bool) → List A → List A
  keep p [] = []
  keep p (x ∷ xs) = let rest = keep p xs in if p x then x ∷ rest else rest

module _ {A : Type 0} where
  pub In-append : (a : A) (xs ys : List A) → In a (xs ++ ys) ↔ (In a xs ⊎ In a ys)
  In-append a [] ys = (inr, λ h. elim h [ inl k ↦ absurd k | inr k ↦ k ])
  In-append a (x ∷ xs) ys = ground (arith, In-append a xs ys)

  pub In-keep : (p : A → Bool) (a : A) (xs : List A) → In a (keep p xs) ↔ (In a xs × (p a ≡ true))
  unfolding keep
  In-keep p a [] = (λ h. absurd h, λ h. absurd h.0)
  In-keep p a (x ∷ xs) = ground (arith, In-keep p a xs)

  pub any-found : (p : A → Bool) (xs : List A) → any p xs ≡ true → (a : A) × In a xs × (p a ≡ true)
  unfolding any
  any-found p [] h = cc
  any-found p (x ∷ xs) h = elim (Bool-cases (p x)) [
    | inl e ↦ (x, inl refl, e)
    | inr e ↦ let (a, m, q) = any-found p xs (ground arith) in (a, inr m, q)
  ]

  pub any-of-In : (p : A → Bool) (a : A) (xs : List A) → In a xs → p a ≡ true → any p xs ≡ true
  unfolding any
  any-of-In p a [] m h = absurd m
  any-of-In p a (x ∷ xs) (inl e) h = ground arith
  any-of-In p a (x ∷ xs) (inr m) h = ground (arith, any-of-In p a xs m h)

  pub all-In : (p : A → Bool) (xs : List A) → all p xs ≡ true → (a : A) → In a xs → p a ≡ true
  unfolding all
  all-In p [] h a m = absurd m
  all-In p (x ∷ xs) h a (inl e) = rw e (ground arith)
  all-In p (x ∷ xs) h a (inr m) = all-In p xs (ground arith) a m

  pub all-of-In : (p : A → Bool) (xs : List A) → ((a : A) → In a xs → p a ≡ true) → all p xs ≡ true
  unfolding all
  all-of-In p [] h = refl
  all-of-In p (x ∷ xs) h = rw (h x (inl refl)) (all-of-In p xs (λ a m. h a (inr m)))

module _ {ℓ} {A : Type ℓ} where
  pub append-eq-nil : (xs ys : List A) → xs ++ ys ≡ [] → (xs ≡ []) × (ys ≡ [])
  append-eq-nil [] ys h = (refl, h)
  append-eq-nil (x ∷ xs) ys h = cc
