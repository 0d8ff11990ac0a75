-- ===== src/Tests/PayloadGen.antt =====
-- crates/payload-gen at concrete inputs: a double click, and a hub with two tabs.
use vpoiskaxroditeley.Prelude.{◌≡◌, ◌≢◌, true, false, none, some, [], ◌∷◌, arith}
use vpoiskaxroditeley.PayloadGen.Cursors.{Draws, pump, kind_press, kind_release, button_left}
use vpoiskaxroditeley.PayloadGen.Cursors.Click
use vpoiskaxroditeley.PayloadGen.Cursors.Click.{ClickCursor}
use vpoiskaxroditeley.PayloadGen.Cursors.Pump.{IsEnded, pump-IsEnded}
use vpoiskaxroditeley.PayloadGen.Cursors.Drain.{drain, marks, drain-Click}
use vpoiskaxroditeley.PayloadGen.InputHub.{
  TabInput, InputHub, new_hub, open_tab, close_tab, u32_max,
}
use vpoiskaxroditeley.PayloadGen.InputHub.Tick.{set_input}
use vpoiskaxroditeley.PayloadGen.InputHub.Reached.{
  IsReached, begins, opens, closes, sets, IsFresh, IsReached-IsFresh,
}

abbrev draws : Draws
draws = record { times = 40 ∷ 90 ∷ 70 ∷ 110 ∷ []; raws = [] }

abbrev click : ClickCursor
click = Click.new false true draws 10 20 1000

pump-IsEnded_example : IsEnded Click.cursor 1500 (pump Click.cursor 500 1000 1500 click)
pump-IsEnded_example = pump-IsEnded Click.cursor 500 1000 1500 click (omega arith) (omega arith)

drain-Click_example :
    (marks (drain Click.cursor 6 click).0
      ≡ (kind_press, button_left)
        ∷ (kind_release, button_left)
        ∷ (kind_press, button_left)
        ∷ (kind_release, button_left)
        ∷ [])
    × (Click.is_done (drain Click.cursor 6 click).1.stage ≡ true)
drain-Click_example = drain-Click false true draws 10 20 1000

-- A click is an input of a hub, with an event or none a step.
abbrev clicks : TabInput ClickCursor
clicks = record {
  next_due_us = Click.cursor.next_due_us;
  done = Click.cursor.done;
  step_into = λ now c.
      let (ev, c) = Click.cursor.step now c in (elim ev [ none ↦ [] | some e ↦ e ∷ [] ], c);
}

abbrev one : InputHub ClickCursor
one = set_input clicks [] 0 click (open_tab 3 8 new_hub).1

three : 3 ≢ u32_max
three h = omega arith

-- a tab that was opened, had an input and was closed
abbrev used : InputHub ClickCursor
used = close_tab 0 one

used-IsReached : IsReached clicks used
used-IsReached = closes 0 (sets [] 0 click (opens 3 8 three begins))

IsReached-IsFresh_example : IsFresh 3 (open_tab 3 5 used).0 used (open_tab 3 5 used).1
IsReached-IsFresh_example = IsReached-IsFresh clicks 3 5 used three used-IsReached
