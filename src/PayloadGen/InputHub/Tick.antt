-- ===== src/PayloadGen/InputHub/Tick.antt =====
-- crates/payload-gen/src/input/scheduler.rs: inputs that are set, and the turns that they take.
use vpoiskaxroditeley.Prelude.{
  ℕ, zero, suc, ◌+◌, ◌-◌, ◌*◌, ◌%◌, ◌^◌, not, ◌||◌, Option, none, some, List, [], ◌∷◌, ◌++◌, ◌==◌,
  ltb, if◌then◌else◌, length, set, map, min,
}
use vpoiskaxroditeley.PayloadGen.Cursors.{RawEvent}
use vpoiskaxroditeley.PayloadGen.InputHub.{
  Calibration, TabInput, TabSlot, Turn, InputHub, push_turn, open_slot, rank_of, live_slots,
  u32_max,
}

abbrev pub saturating_mul_add : ℕ → ℕ → ℕ → ℕ
saturating_mul_add a b c = min (min (a * b) (2 ^ 64 - 1) + c) (2 ^ 64 - 1)

module _ {I : Type 0} where
  -- the open slot and the input that a turn of the heap is for; an old turn is for none
  unfoldable pub current : Turn → List (TabSlot I) → Option (TabSlot I × I)
  unfolding open_slot
  current t tabs = elim (open_slot t.tab tabs) [
    | none ↦ none
    | some slot ↦
        if not (slot.input_gen == t.input_gen)
        then none
        else elim slot.input [ none ↦ none | some input ↦ some (slot, input) ]
  ]

module _ {I : Type 0} (kind : TabInput I) where
  unfoldable pub set_input : List Calibration → ℕ → I → InputHub I → InputHub I
  unfolding open_slot rank_of push_turn
  set_input calibs tab input h = elim (open_slot tab h.tabs) [
    | none ↦ h
    | some slot ↦
        let rank = rank_of calibs slot h in
        let input_gen = (slot.input_gen + 1) % 2 ^ 32 in
        let turn : Turn = record {
          due = kind.next_due_us input;
          rank = rank;
          tab = tab;
          input_gen = input_gen;
        } in
        record h {
          tabs =
              set h.tabs tab
                (record slot { cached_rank = rank; input_gen = input_gen; input = some input });
          heap = push_turn turn h.heap;
        }
  ]

  -- A round of the loop of `tick`, for the turn at the head of the heap and those behind it: the
  -- events, whether an input took its step, and the hub.
  unfoldable pub take_turn :
      ℕ → Turn → List Turn → InputHub I → List (ℕ × RawEvent) × (ℕ × InputHub I)
  unfolding current push_turn
  take_turn now_us t l h = elim (current t h.tabs) [
    | none ↦ ([], (0, record h { heap = l }))
    | some (slot, input) ↦
        let (evs, input) = kind.step_into now_us input in
        let tagged = map (λ ev. (t.tab, ev)) evs in
        if kind.done input
        then (
          tagged,
          (1, record h { tabs = set h.tabs t.tab (record slot { input = none }); heap = l }),
        )
        else (let turn : Turn = record {
          due = kind.next_due_us input;
          rank = slot.cached_rank;
          tab = t.tab;
          input_gen = slot.input_gen;
        } in
            (
              tagged,
              (
                1,
                record h {
                  tabs = set h.tabs t.tab (record slot { input = some input });
                  heap = push_turn turn l;
                },
              ),
            ))
  ]

  -- The loop of `tick`, a round for each unit of fuel; `none` when the fuel does not suffice.
  unfoldable pub tick_loop :
      ℕ → ℕ → ℕ → InputHub I → Option (List (ℕ × RawEvent) × (ℕ × InputHub I))
  unfolding take_turn
  tick_loop zero now_us steps h = elim h.heap [
    | [] ↦ some ([], (steps, h))
    | ◌∷◌ t l ↦ if ltb now_us t.due || steps == 256 then some ([], (steps, h)) else none
  ]
  tick_loop (suc fuel) now_us steps h = elim h.heap [
    | [] ↦ some ([], (steps, h))
    | ◌∷◌ t l ↦
        let (evs, (taken, h')) = take_turn now_us t l h in
        let rest = tick_loop fuel now_us (steps + taken) h' in
        if ltb now_us t.due || steps == 256
        then some ([], (steps, h))
        else elim rest [ none ↦ none | some (evs', end) ↦ some (evs ++ evs', end) ]
  ]

  -- The slots with their ranks made anew, and the turns of those that have an input.
  unfoldable pub compact_from :
      List Calibration → InputHub I → ℕ → List (TabSlot I) → List (TabSlot I) × List Turn
  unfolding rank_of push_turn
  compact_from calibs h i [] = ([], [])
  compact_from calibs h i (slot ∷ l) =
      let (tabs, heap) = compact_from calibs h (suc i) l in
      if slot.site == u32_max then (slot ∷ tabs, heap) else elim slot.input [
        | none ↦ (slot ∷ tabs, heap)
        | some input ↦
            let rank = rank_of calibs slot h in
            let turn : Turn = record {
              due = kind.next_due_us input;
              rank = rank;
              tab = i;
              input_gen = slot.input_gen;
            } in
            (record slot { cached_rank = rank } ∷ tabs, push_turn turn heap)
      ]

  unfoldable pub compact : List Calibration → InputHub I → InputHub I
  unfolding compact_from
  compact calibs h =
      let (tabs, heap) = compact_from calibs h 0 h.tabs in record h { tabs = tabs; heap = heap }

  unfoldable pub compact_if_long : List Calibration → InputHub I → InputHub I
  unfolding compact live_slots
  compact_if_long calibs h =
      if ltb (saturating_mul_add (live_slots h.tabs) 4 64) (length h.heap)
      then compact calibs h
      else h

  -- The fuel is a round for each turn in the heap and for each of the 256 steps.
  unfoldable pub tick :
      List Calibration → ℕ → InputHub I → Option (List (ℕ × RawEvent) × InputHub I)
  unfolding tick_loop compact_if_long
  tick calibs now_us h = elim (tick_loop (length h.heap + 256) now_us 0 h) [
    | none ↦ none
    | some (evs, (steps, h')) ↦ some (evs, compact_if_long calibs h')
  ]
