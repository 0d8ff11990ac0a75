-- ===== src/PayloadGen/Cursors/Click.antt =====
-- crates/payload-gen/src/input/event.rs: `ClickCursor`, the presses and releases of a click.
use vpoiskaxroditeley.Prelude.{
  ℕ, ◌+◌, ◌-◌, ◌%◌, ◌^◌, Bool, true, false, not, ◌&&◌, ◌||◌, Option, none, some, ltb, if◌then◌else◌,
  min,
}
use vpoiskaxroditeley.PayloadGen.Cursors.{
  RawEvent, InputCursor, Draws, lognormal_us, next_range, kind_press, kind_release, button_left,
  button_right,
}

pub data Stage : Type 0 where
  press_stage hold_stage release_stage done_stage : Stage

pub record ClickPlan : Type 0 where
  pub button : ℕ
  pub is_double : Bool
  pub is_right : Bool

pub record ClickCursor : Type 0 where
  pub x : ℕ
  pub y : ℕ
  pub stage : Stage
  pub next_due_us : ℕ
  pub plan : ClickPlan
  pub second_pending : Bool
  pub rng : Draws

abbrev pub is_done : Stage → Bool
is_done done_stage = true
is_done press_stage = false
is_done hold_stage = false
is_done release_stage = false

-- The chances have fallen as the two arguments say; the second is drawn only if the first is false.
unfoldable pub plan_of : Bool → Bool → ClickPlan
plan_of right_chance double_chance = record {
  button = if right_chance then button_right else button_left;
  is_double = not right_chance && double_chance;
  is_right = right_chance;
}

unfoldable pub new : Bool → Bool → Draws → ℕ → ℕ → ℕ → ClickCursor
unfolding plan_of lognormal_us
new right_chance double_chance rng x y now_us =
    let (pre_press, rng) = lognormal_us rng in
    record {
      x = x;
      y = y;
      stage = press_stage;
      next_due_us = (now_us + pre_press) % 2 ^ 64;
      plan = plan_of right_chance double_chance;
      second_pending = false;
      rng = rng;
    }

-- A coordinate and the drawn number less one, within 16 bits.
abbrev pub nudged : ℕ → ℕ → ℕ
nudged x drawn = min (x + drawn - 1) (2 ^ 16 - 1)

unfoldable pub nudge : ClickCursor → ClickCursor
unfolding next_range
nudge c =
    let (dx, rng) = next_range 0 3 c.rng in
    let (dy, rng) = next_range 0 3 rng in
    record c { x = nudged c.x dx; y = nudged c.y dy; rng = rng }

abbrev pub event_of : ℕ → ClickCursor → RawEvent
event_of kind c = record { x = c.x; y = c.y; dt_ms = 0; kind = kind; arg = c.plan.button }

unfoldable pub step : ℕ → ClickCursor → Option RawEvent × ClickCursor
unfolding lognormal_us nudge
step now_us c =
    let (time, rng) = lognormal_us c.rng in
    let next_due_us = (now_us + time) % 2 ^ 64 in
    if is_done c.stage || ltb now_us c.next_due_us then (none, c) else elim c.stage [
      | press_stage ↦ (
        some (event_of kind_press c),
        record c { stage = hold_stage; next_due_us = next_due_us; rng = rng },
      )
      | hold_stage ↦
          let c =
            nudge (record c { stage = release_stage; next_due_us = next_due_us; rng = rng }) in
          (some (event_of kind_release c), c)
      | release_stage ↦
          if c.plan.is_double && not c.second_pending
          then (
            none,
            record c {
              second_pending = true;
              stage = press_stage;
              next_due_us = next_due_us;
              rng = rng;
            },
          )
          else (none, record c { stage = done_stage })
      | done_stage ↦ (none, c)
    ]

unfoldable pub cursor : InputCursor ClickCursor
unfolding step
cursor = record { step = step; next_due_us = λ c. c.next_due_us; done = λ c. is_done c.stage }
