-- ===== src/Temporal.antt =====
-- `TemporalWindow` of domain/common.py: half-open intervals. A moment is the number of microseconds
-- since the first moment of `datetime`.
mod Windows
mod Tests
use andromeda_knowledge_core.Prelude.{
  ℕ, Bool, true, false, Option, none, some, ◌&&◌, ◌||◌, leb, ltb, if◌then◌else◌,
}
use andromeda_knowledge_core.Errors.{Result, ok, err, fault, value_error}

pub record TemporalWindow : Type 0 where
  pub valid_from : Option ℕ
  pub valid_to : Option ℕ
  pub transaction_from : Option ℕ
  pub transaction_to : Option ℕ

-- both ends are given, and the second is not after the first
unfoldable pub is_reversed : Option ℕ → Option ℕ → Bool
is_reversed (some start) (some stop) = leb stop start
is_reversed _ stop = false

-- The constructor, with its `__post_init__`
unfoldable pub temporal_window : Option ℕ → Option ℕ → Option ℕ → Option ℕ → Result TemporalWindow
temporal_window valid_from valid_to transaction_from transaction_to =
    if is_reversed valid_from valid_to || is_reversed transaction_from transaction_to
    then err (fault value_error)
    else ok (record {
      valid_from = valid_from;
      valid_to = valid_to;
      transaction_from = transaction_from;
      transaction_to = transaction_to;
    })

unfoldable pub has_started : Option ℕ → ℕ → Bool
has_started none moment = true
has_started (some start) moment = leb start moment

unfoldable pub has_not_ended : Option ℕ → ℕ → Bool
has_not_ended none moment = true
has_not_ended (some stop) moment = ltb moment stop

unfoldable pub contains_valid : TemporalWindow → ℕ → Bool
contains_valid w moment = has_started w.valid_from moment && has_not_ended w.valid_to moment

unfoldable pub contains_transaction : TemporalWindow → ℕ → Bool
contains_transaction w moment =
    has_started w.transaction_from moment && has_not_ended w.transaction_to moment
