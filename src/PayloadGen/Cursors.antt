-- ===== src/PayloadGen/Cursors.antt =====
-- crates/payload-gen/src/input.rs and input/event.rs: what a cursor offers, the loop that runs one to a
-- deadline, and the cursors of clicks and of the focus. Times are microseconds. What a cursor's generator
-- will give is data of the cursor: the lognormal times, which the source makes of floats, and the raw
-- numbers from which it takes ranges.
pub mod Click
pub mod Focus
pub mod Pump
pub mod Drain
use vpoiskaxroditeley.Prelude.{
  ℕ, zero, suc, ◌+◌, ◌-◌, ◌/◌, ◌%◌, ◌^◌, Bool, true, false, not, ◌&&◌, ◌||◌, Option, none, some,
  List, [], ◌∷◌, ◌==◌, ltb, leb, if◌then◌else◌, min, max,
}
use vpoiskaxroditeley.CoreUtils.Rng.{mulhi_bounded}

pub record RawEvent : Type 0 where
  pub x : ℕ
  pub y : ℕ
  pub dt_ms : ℕ
  pub kind : ℕ
  pub arg : ℕ

-- the kinds of event that these cursors make, and the arguments of clicks and of the focus
abbrev pub kind_press : ℕ
kind_press = 1

abbrev pub kind_release : ℕ
kind_release = 2

abbrev pub kind_focus : ℕ
kind_focus = 6

abbrev pub kind_blur : ℕ
kind_blur = 7

abbrev pub button_left : ℕ
button_left = 0

abbrev pub button_right : ℕ
button_right = 2

abbrev pub focus_arg_window : ℕ
focus_arg_window = 0

abbrev pub focus_arg_element : ℕ
focus_arg_element = 1

unfoldable pub delta_ms_u16 : ℕ → ℕ
delta_ms_u16 delta_us = min (delta_us / 1000) (2 ^ 16 - 1)

unfoldable pub dt_ms_u16 : ℕ → ℕ → ℕ
unfolding delta_ms_u16
dt_ms_u16 now_us last_us = delta_ms_u16 (now_us - last_us)

-- the trait `InputCursor`
pub record InputCursor (C : Type 0) : Type 0 where
  pub step : ℕ → C → Option RawEvent × C
  pub next_due_us : C → ℕ
  pub done : C → Bool

-- `pump`, a round of its loop for each unit of fuel: the events, the time and the cursor; `none` when
-- the fuel does not suffice. Sums are of 64 bits.
unfoldable pub pump :
    {C : Type 0} → InputCursor C → ℕ → ℕ → ℕ → C → Option (List RawEvent × (ℕ × C))
pump cursor zero now deadline_us c =
    if not (cursor.done c) && ltb now deadline_us then none else some ([], (now, c))
pump cursor (suc fuel) now deadline_us c =
    if not (cursor.done c) && ltb now deadline_us
    then (let (ev, c) = cursor.step now c in
        let rest =
          pump cursor fuel (max (cursor.next_due_us c) ((now + 1) % 2 ^ 64)) deadline_us c in
        elim rest [
          | none ↦ none
          | some (evs, end) ↦ some (elim ev [ none ↦ evs | some e ↦ e ∷ evs ], end)
        ])
    else some ([], (now, c))

pub record Draws : Type 0 where
  pub times : List ℕ
  pub raws : List ℕ

unfoldable pub lognormal_us : Draws → ℕ × Draws
lognormal_us d = elim d.times [ [] ↦ (0, d) | ◌∷◌ t ts ↦ (t, record d { times = ts }) ]

unfoldable pub next_range : ℕ → ℕ → Draws → ℕ × Draws
unfolding mulhi_bounded
next_range lo hi d = if leb hi lo then (lo, d) else elim d.raws [
  | [] ↦ (lo, d)
  | ◌∷◌ raw raws ↦ (lo + mulhi_bounded raw (hi - lo) % 2 ^ 32, record d { raws = raws })
]
