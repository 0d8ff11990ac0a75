-- ===== src/PayloadGen/Batcher.antt =====
-- crates/payload-gen/src/input/session.rs: `TelemetryBatcher`, which says when a batch of events is to
-- be sent.
use vpoiskaxroditeley.Prelude.{ℕ, ◌+◌, ◌-◌, ◌%◌, ◌^◌, Bool, ◌&&◌, ◌||◌, ltb, leb}

pub record TelemetryBatcher : Type 0 where
  pub cap : ℕ
  pub interval_us : ℕ
  pub len : ℕ
  pub started_us : ℕ

unfoldable pub new : ℕ → ℕ → TelemetryBatcher
new cap interval_us = record { cap = cap; interval_us = interval_us; len = 0; started_us = 0 }

unfoldable pub begin : ℕ → TelemetryBatcher → TelemetryBatcher
begin now_us b = record b { len = 0; started_us = now_us }

unfoldable pub feed : ℕ → TelemetryBatcher → TelemetryBatcher
feed n b = record b { len = (b.len + n) % 2 ^ 64 }

unfoldable pub ready : ℕ → TelemetryBatcher → Bool
ready now_us b = leb b.cap b.len || ltb 0 b.len && leb b.interval_us (now_us - b.started_us)
