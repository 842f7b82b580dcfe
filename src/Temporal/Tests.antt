-- ===== src/Temporal/Tests.antt =====
-- A concrete window.
use andromeda_knowledge_core.Prelude.{◌≡◌, refl, true, none, some}
use andromeda_knowledge_core.Temporal.{TemporalWindow, has_started, has_not_ended, contains_valid}

abbrev first : TemporalWindow
first = record {
  valid_from = some 10;
  valid_to = some 20;
  transaction_from = some 5;
  transaction_to = none;
}

first_contains : contains_valid first 19 ≡ true
unfolding contains_valid has_started has_not_ended
first_contains = refl
