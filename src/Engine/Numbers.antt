-- ===== src/Engine/Numbers.antt =====
-- `_numeric` and `_number_result` of domain/engine.py: the sums that ADD and SUBTRACT form with
-- `Decimal`, whose default context keeps 28 digits and rounds half to even.
-- A text is read when it is an optional sign and digits. The other numerals that `Decimal` reads
-- ("1.5", "1e3", "NaN") hold a digit or an n; a text with one of these fails with `not_modelled`.
use andromeda_knowledge_core.Prelude.{
  ℕ, zero, suc, ◌+◌, ◌-◌, ◌*◌, ◌/◌, ◌%◌, String, Char, code, Bool, true, false, Option, none, some,
  ltb, leb, ◌==◌, ◌&&◌, ◌||◌, if◌then◌else◌,
}
use andromeda_knowledge_core.Prelude.Int.{ℤ, pos, negsuc, ◌+ℤ◌, ◌-ℤ◌}
use andromeda_knowledge_core.Errors.{Result, ok, err, validation, fault, not_modelled, ◌>>=◌}
use andromeda_knowledge_core.Json.{Value, null, bool, num, str}

abbrev is_digit : Char → Bool
is_digit c = leb 48 (code c) && leb (code c) 57

-- the number of a text of digits, after those that make `n`
unfoldable pub read_digits : ℕ → String → Option ℕ
read_digits n String.[] = some n
read_digits n (String.◌∷◌ c s) = elim (is_digit c) [
  | true ↦ read_digits (n * 10 + (code c - 48)) s
  | false ↦ none
]

-- at least one digit
unfoldable pub read_natural : String → Option ℕ
read_natural String.[] = none
read_natural (String.◌∷◌ c s) = read_digits 0 (String.◌∷◌ c s)

abbrev negated : ℕ → ℤ
negated zero = pos 0
negated (suc n) = negsuc n

abbrev as_pos : Option ℕ → Option ℤ
as_pos none = none
as_pos (some n) = some (pos n)

abbrev as_neg : Option ℕ → Option ℤ
as_neg none = none
as_neg (some n) = some (negated n)

-- an integer with an optional sign, "+" or "-"
unfoldable pub read_int : String → Option ℤ
read_int String.[] = none
read_int (String.◌∷◌ c s) =
    if code c == 43
    then as_pos (read_natural s)
    else if code c == 45
    then as_neg (read_natural s)
    else as_pos (read_natural (String.◌∷◌ c s))

-- A digit of any script, or an n as in NaN and Infinity.
abbrev numeral_sign : Char → Bool
numeral_sign c = is_digit c || code c == 78 || code c == 110 || leb 128 (code c)

unfoldable pub may_be_numeral : String → Bool
may_be_numeral String.[] = false
may_be_numeral (String.◌∷◌ c s) = numeral_sign c || may_be_numeral s

-- `_numeric(value)`: `Decimal` refuses a text that is no numeral, and the text of a list or a dict.
unfoldable pub numeric : Value → Result ℤ
numeric null = ok (pos 0)
numeric (bool b) = ok (pos 0)
numeric (num n) = ok n
numeric (str s) = elim (read_int s) [
  | some n ↦ ok n
  | none ↦ err (if may_be_numeral s then fault not_modelled else validation "DSL_TYPE_MISMATCH")
]
numeric _ = err (validation "DSL_TYPE_MISMATCH")

-- the first number of 29 digits
abbrev pub precision_limit : ℕ
precision_limit = 10000000000000000000000000000

-- `n` to a multiple of `unit`, half to even
unfoldable pub round_to : ℕ → ℕ → ℕ
round_to unit n =
    let q = n / unit in
    let twice = 2 * (n % unit) in
    if ltb twice unit || (twice == unit && q % 2 == 0) then q * unit else (q + 1) * unit

-- the power of ten that leaves 28 digits of `n`, from `unit` on; `n` itself is more fuel than the
-- number of its digits
unfoldable pub unit_of : ℕ → ℕ → ℕ → ℕ
unit_of zero n unit = unit
unit_of (suc fuel) n unit = elim (ltb n (unit * precision_limit)) [
  | true ↦ unit
  | false ↦ unit_of fuel n (unit * 10)
]

unfoldable pub round_natural : ℕ → ℕ
round_natural n = round_to (unit_of n n 1) n

-- What the context makes of the exact result of an operation.
unfoldable pub context_round : ℤ → ℤ
context_round (pos n) = pos (round_natural n)
context_round (negsuc n) = negsuc (round_natural (suc n) - 1)

-- `_number_result(_numeric(a) + _numeric(b))`
unfoldable pub add_numbers : Value → Value → Result Value
add_numbers a b = do m ← numeric a; n ← numeric b; ok (num (context_round (m +ℤ n)))

unfoldable pub subtract_numbers : Value → Value → Result Value
subtract_numbers a b = do m ← numeric a; n ← numeric b; ok (num (context_round (m -ℤ n)))
