-- ===== src/PayloadGen/Cursors/Focus.antt =====
-- crates/payload-gen/src/input/event.rs: `FocusCursor`, the focus coming and going.
use vpoiskaxroditeley.Prelude.{
  ℕ, ◌+◌, ◌%◌, ◌^◌, Bool, true, false, ◌||◌, Option, none, some, ltb, if◌then◌else◌,
}
use vpoiskaxroditeley.PayloadGen.Cursors.{
  RawEvent, InputCursor, Draws, lognormal_us, kind_focus, kind_blur, focus_arg_window,
  focus_arg_element,
}

pub data FocusStage : Type 0 where
  focus_in dwell focus_out focus_done : FocusStage

pub record FocusCursor : Type 0 where
  pub x : ℕ
  pub y : ℕ
  pub stage : FocusStage
  pub next_due_us : ℕ
  pub arg : ℕ
  pub rng : Draws

abbrev pub is_focus_done : FocusStage → Bool
is_focus_done focus_done = true
is_focus_done focus_in = false
is_focus_done dwell = false
is_focus_done focus_out = false

unfoldable pub at : ℕ → ℕ → ℕ → ℕ → Draws → FocusCursor
unfolding lognormal_us
at x y arg now_us rng =
    let (pre, rng) = lognormal_us rng in
    record {
      x = x;
      y = y;
      stage = focus_in;
      next_due_us = (now_us + pre) % 2 ^ 64;
      arg = arg;
      rng = rng;
    }

unfoldable pub new : ℕ → ℕ → ℕ → Draws → FocusCursor
unfolding at
new x y now_us rng = at x y focus_arg_element now_us rng

unfoldable pub window : ℕ → Draws → FocusCursor
unfolding at
window now_us rng = at 0 0 focus_arg_window now_us rng

unfoldable pub advance : ℕ → FocusStage → ℕ → FocusCursor → RawEvent × FocusCursor
unfolding lognormal_us
advance now_us next kind c =
    let (time, rng) = lognormal_us c.rng in
    (
      record { x = c.x; y = c.y; dt_ms = 0; kind = kind; arg = c.arg },
      record c { stage = next; next_due_us = (now_us + time) % 2 ^ 64; rng = rng },
    )

unfoldable pub step : ℕ → FocusCursor → Option RawEvent × FocusCursor
unfolding advance
step now_us c =
    if is_focus_done c.stage || ltb now_us c.next_due_us then (none, c) else elim c.stage [
      | focus_in ↦ let (ev, c) = advance now_us dwell kind_focus c in (some ev, c)
      | dwell ↦ let (ev, c) = advance now_us focus_out kind_blur c in (some ev, c)
      | focus_out ↦ (none, record c { stage = focus_done })
      | focus_done ↦ (none, c)
    ]

unfoldable pub cursor : InputCursor FocusCursor
unfolding step
cursor = record { step = step; next_due_us = λ c. c.next_due_us; done = λ c. is_focus_done c.stage }
