-- ===== src/Errors.antt =====
-- domain/errors.py, and the Python exceptions that are no `DomainError`. A fallible function of the
-- program returns a `Result`; details and messages of an error are not kept, its code is.
use andromeda_knowledge_core.Prelude.{
  ap, ℕ, String, ◌≡◌, refl, subst, Option, none, some, arith, Bool, true, false, if◌then◌else◌,
}

-- What the code raises without meaning to, or for the caller to translate.
pub data Fault : Type 0 where
  key_error type_error index_error value_error runtime_error out_of_fuel not_modelled : Fault

pub data Error : Type 0 where
  not_found forbidden payload_too_large activation dependency_cycle traversal_limit : Error
  rule_conflict : Error
  conflict : String → Error
  validation : String → Error
  fault : Fault → Error

pub data Result {ℓ} (A : Type ℓ) : Type ℓ where
  err : Error → Result A
  ok : A → Result A

-- The rest of a function runs only if what comes before it has not raised.
module _ {ℓ κ} {A : Type ℓ} {B : Type κ} where
  infixl 10 ◌>>=◌ ◌>>◌
  abbrev pub ◌>>=◌ : Result A → (A → Result B) → Result B
  err raised >>= rest = err raised
  ok value >>= rest = rest value

  abbrev pub ◌>>◌ : Result A → Result B → Result B
  first >> second = first >>= λ _. second

-- `raise e` unless the option has a value.
abbrev pub or_raise {ℓ} : {A : Type ℓ} → Error → Option A → Result A
or_raise e none = err e
or_raise e (some a) = ok a

-- The stable code of a domain error; a fault has none.
unfoldable pub error_code : Error → Option String
error_code not_found = some "NOT_FOUND"
error_code forbidden = some "FORBIDDEN"
error_code payload_too_large = some "REQUEST_TOO_LARGE"
error_code activation = some "ACTIVATION_GUARD_FAILED"
error_code dependency_cycle = some "DEPENDENCY_CYCLE"
error_code traversal_limit = some "DEPENDENCY_GRAPH_LIMIT"
error_code rule_conflict = some "RULE_CONFLICT"
error_code (conflict c) = some c
error_code (validation c) = some c
error_code (fault f) = none

unfoldable pub status_code : Error → Option ℕ
status_code not_found = some 404
status_code forbidden = some 403
status_code payload_too_large = some 413
status_code (validation c) = some 422
status_code (fault f) = none
status_code _ = some 409

-- A function that returns has had each of its calls return.
pub >>=-eq-ok {ℓ κ} :
    {A : Type ℓ} {B : Type κ} (call : Result A) (rest : A → Result B) {result : B}
    → (call >>= rest) ≡ ok result
    → (value : A) × (call ≡ ok value) × (rest value ≡ ok result)
>>=-eq-ok (err raised) rest returns = ground arith
>>=-eq-ok (ok value) rest returns = (value, refl, returns)

-- A function goes on with what a call of it returns.
pub >>=-of-ok {ℓ κ} :
    {A : Type ℓ} {B : Type κ} (call : Result A) (rest : A → Result B) (value : A)
    → call ≡ ok value
    → (call >>= rest) ≡ rest value
>>=-of-ok call rest value h = ap (λ r. r >>= rest) h

pub err-injective {ℓ} : {A : Type ℓ} {d e : Error} → ◌≡◌ {A = Result A} (err d) (err e) → d ≡ e
err-injective h = cc

pub ok-injective {ℓ} : {A : Type ℓ} {a b : A} → ok a ≡ ok b → a ≡ b
ok-injective h = cc

pub bind-cong {ℓ κ} :
    {A : Type ℓ} {B : Type κ} (m : Result A) (f g : A → Result B)
    → ((a : A) → m ≡ ok a → f a ≡ g a)
    → (m >>= f) ≡ (m >>= g)
bind-cong (ok a) f g h = h a refl
bind-cong (err e) f g h = refl

-- A failure, if there is one, is of the kind `P`.
pub record Only {ℓ} {A : Type ℓ} (P : Error → Type 0) (m : Result A) : Type ℓ where
  pub failure : (e : Error) → m ≡ err e → P e

module _ {ℓ} {A : Type ℓ} (P : Error → Type 0) where
  pub Only-ok : (a : A) → Only P (ok a)
  Only-ok a = record { failure = λ e h. cc }

  pub Only-raise : (e : Error) → P e → Only {A = A} P (err e)
  Only-raise e p = record { failure = λ e' h. subst P (err-injective h) p }

  pub Only-or_raise : (e : Error) (o : Option A) → P e → Only P (or_raise e o)
  Only-or_raise e none p = Only-raise e p
  Only-or_raise e (some a) p = Only-ok a

  pub Only-if :
      (b : Bool) (m n : Result A)
      → (b ≡ true → Only P m)
      → (b ≡ false → Only P n)
      → Only P (if b then m else n)
  Only-if true m n hm hn = hm refl
  Only-if false m n hm hn = hn refl

pub Only-bind {ℓ κ} :
    {A : Type ℓ} {B : Type κ} (P : Error → Type 0) (m : Result A) (f : A → Result B)
    → Only P m
    → ((a : A) → m ≡ ok a → Only P (f a))
    → Only P (m >>= f)
Only-bind P (ok a) f hm hf = hf a refl
Only-bind P (err e) f hm hf = Only-raise P e (hm.failure e refl)

pub ruleset only_rules = (Only-ok, Only-raise, Only-or_raise, Only-if, Only-bind)

-- A result, if there is one, has the property `P`.
pub record Returns {ℓ} {A : Type ℓ} (P : A → Type 0) (m : Result A) : Type ℓ where
  pub returned : (a : A) → m ≡ ok a → P a

module _ {ℓ} {A : Type ℓ} (P : A → Type 0) where
  pub Returns-ok : (a : A) → P a → Returns P (ok a)
  Returns-ok a p = record { returned = λ b h. subst P (ok-injective h) p }

  pub Returns-raise : (e : Error) → Returns P (err e)
  Returns-raise e = record { returned = λ b h. cc }

  pub Returns-if :
      (b : Bool) (m n : Result A)
      → (b ≡ true → Returns P m)
      → (b ≡ false → Returns P n)
      → Returns P (if b then m else n)
  Returns-if true m n hm hn = hm refl
  Returns-if false m n hm hn = hn refl

  pub Returns-bind {κ} :
      {B : Type κ} (m : Result B) (f : B → Result A)
      → ((b : B) → m ≡ ok b → Returns P (f b))
      → Returns P (m >>= f)
  Returns-bind (ok b) f h = h b refl
  Returns-bind (err e) f h = Returns-raise e

pub ruleset returns_rules = (Returns-ok, Returns-raise, Returns-if, Returns-bind)
