-- ===== src/Temporal/Windows.antt =====
-- What the windows of domain/common.py contain.
use andromeda_knowledge_core.Prelude.{
  ℕ, ◌≡◌, subst, Bool, true, false, Option, none, some, arith, Bool-cases, inl, inr, ◌&&◌,
}
use andromeda_knowledge_core.Errors.{ok, ok-injective}
use andromeda_knowledge_core.Temporal.{
  TemporalWindow, is_reversed, temporal_window, has_started, has_not_ended, contains_valid,
  contains_transaction,
}

begins_within :
    (a : ℕ) (stop : Option ℕ)
    → is_reversed (some a) stop ≡ false
    → (has_started (some a) a && has_not_ended stop a) ≡ true
unfolding is_reversed has_started has_not_ended
begins_within a none h = ground arith
begins_within a (some c) h = ground arith

-- A window that is accepted and has its beginnings contains them.
pub temporal_window_begins :
    (a b : ℕ) (valid_to transaction_to : Option ℕ) (w : TemporalWindow)
    → temporal_window (some a) valid_to (some b) transaction_to ≡ ok w
    → (contains_valid w a ≡ true) × (contains_transaction w b ≡ true)
unfolding temporal_window contains_valid contains_transaction
temporal_window_begins a b valid_to transaction_to w h =
    elim (Bool-cases (is_reversed (some a) valid_to)) [
      | inl e ↦ cc (rw e at h)
      | inr e ↦ elim (Bool-cases (is_reversed (some b) transaction_to)) [
        | inl f ↦ cc (rw (e, f) at h)
        | inr f ↦
            subst (λ v. (contains_valid v a ≡ true) × (contains_transaction v b ≡ true))
              (ok-injective (rw (e, f) at h))
              (begins_within a valid_to e, begins_within b transaction_to f)
      ]
    ]

ended_first :
    (b moment : ℕ) (x y : Bool)
    → (x && has_not_ended (some b) moment) ≡ true
    → (has_started (some b) moment && y) ≡ false
unfolding has_started has_not_ended
ended_first b moment x y h = ground arith

-- When one window ends as another begins, no moment is in both.
pub contains_valid_adjacent :
    (w v : TemporalWindow) (b moment : ℕ)
    → w.valid_to ≡ some b
    → v.valid_from ≡ some b
    → contains_valid w moment ≡ true
    → contains_valid v moment ≡ false
unfolding contains_valid has_started has_not_ended
contains_valid_adjacent w v b moment e f h = rw f (
    ended_first b moment (has_started w.valid_from moment) (has_not_ended v.valid_to moment)
      (rw e at h))
