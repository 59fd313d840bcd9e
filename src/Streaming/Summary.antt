-- ===== src/Streaming/Summary.antt =====
-- src/watlowlib/streaming/recorder.py: the policies, the counters of a run and the checks of `record`.
-- Python's `float` is the parameter `F`, with the operations of `Timing`. The wall-clock times and the
-- percentiles of a summary are not modelled.
use watlowlib.Base.{ℕ, max, ltb, List, [], ◌∷◌, Bool, true, false, Option, none, some}
use watlowlib.Errors.{value_error}
use watlowlib.Result.{Result, guard, ◌>>◌}

pub data OverflowPolicy : Type 0 where
  block drop_newest drop_oldest : OverflowPolicy

-- What the recorder computes with floats.
pub record Timing (F : Type 0) : Type 0 where
  -- `a < b`, `0 < a`, `a + b`, `a - b`, `n * a`, `1.0 / a` and `a * 1_000.0`
  pub lt : F → F → Bool
  pub positive : F → Bool
  pub add : F → F → F
  pub sub : F → F → F
  pub times : ℕ → F → F
  pub inverse : F → F
  pub to_ms : F → F
  -- `int(a / b)`, where `0 < b < a`, and `round(a * b)`, where both are positive
  pub whole_ratio : F → F → ℕ
  pub round_mul : F → F → ℕ
  -- `0.5 * n`
  pub halves : ℕ → F

-- The fields of `AcquisitionSummary` that the producer writes.
pub record AcquisitionSummary (F : Type 0) : Type 0 where
  pub samples_emitted : ℕ
  pub samples_late : ℕ
  pub max_drift_ms : F
  pub disconnects : ℕ

module _ {F : Type 0} (timing : Timing F) where
  unfoldable pub fresh_summary : AcquisitionSummary F
  fresh_summary = record {
    samples_emitted = 0;
    samples_late = 0;
    max_drift_ms = timing.halves 0;
    disconnects = 0;
  }

  -- `duration is not None and duration <= 0`
  unfoldable pub duration_ok : Option F → Bool
  duration_ok none = true
  duration_ok (some d) = timing.positive d

  -- The checks at the head of `record`.
  unfoldable pub check_arguments : {P : Type 0} → F → Option F → ℕ → List P → Result (Unit {0})
  check_arguments rate_hz duration buffer_size parameters =
      guard (timing.positive rate_hz) value_error
      >> guard (duration_ok duration) value_error
      >> guard (ltb 0 buffer_size) value_error
      >> guard (elim parameters [ [] ↦ false | p ∷ ps ↦ true ]) value_error

  unfoldable pub total_ticks : F → Option F → Option ℕ
  total_ticks rate_hz none = none
  total_ticks rate_hz (some d) = some (max 1 (timing.round_mul d rate_hz))
