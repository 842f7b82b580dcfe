-- ===== src/Engine/Exact.antt =====
-- When the sums of ADD and SUBTRACT in domain/engine.py are exact.
use andromeda_knowledge_core.Prelude.{ℕ, zero, suc, ◌+◌, ◌<◌, ◌≡◌, refl, ap, arith}
use andromeda_knowledge_core.Prelude.Int.{ℤ, pos, negsuc, pos_part, neg_part, ◌+ℤ◌, ◌-ℤ◌}
use andromeda_knowledge_core.Errors.{ok}
use andromeda_knowledge_core.Json.{num}
use andromeda_knowledge_core.Engine.Numbers.{
  numeric, precision_limit, round_to, unit_of, round_natural, context_round, add_numbers,
  subtract_numbers,
}

-- At most 28 digits.
abbrev pub Fits : ℤ → Type 0
Fits n = pos_part n + neg_part n < precision_limit

round_to_one : (n : ℕ) → round_to 1 n ≡ n
unfolding round_to
round_to_one n = ground arith

unit_of_short : (fuel n : ℕ) → n < precision_limit → unit_of fuel n 1 ≡ 1
unfolding unit_of
unit_of_short zero n h = refl
unit_of_short (suc fuel) n h = ground arith

round_natural_short : (n : ℕ) → n < precision_limit → round_natural n ≡ n
unfolding round_natural
round_natural_short n h = rw (unit_of_short n n h) (round_to_one n)

context_round_short : (n : ℤ) → Fits n → context_round n ≡ n
unfolding context_round
context_round_short (pos n) h = ap pos (round_natural_short n (omega arith))
context_round_short (negsuc n) h =
    rw (round_natural_short (suc n) (omega arith)) (ap negsuc (omega arith))

-- The sum and the difference of two numbers are exact when they have at most 28 digits.
pub numbers_exact :
    (m n : ℤ)
    → Fits (m +ℤ n)
    → Fits (m -ℤ n)
    → (add_numbers (num m) (num n) ≡ ok (num (m +ℤ n)))
      × (subtract_numbers (num m) (num n) ≡ ok (num (m -ℤ n)))
unfolding add_numbers subtract_numbers numeric
numbers_exact m n h k =
    (rw (context_round_short (m +ℤ n) h) refl, rw (context_round_short (m -ℤ n) k) refl)
