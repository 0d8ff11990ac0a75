-- ===== src/Tests/Supervisor.antt =====
-- crates/supervisor at concrete inputs: a fleet with a tab, a form, a watched page and a task.
use vpoiskaxroditeley.Prelude.{
  ℕ, ◌≡◌, ◌≢◌, ◌⊎◌, refl, true, false, none, some, List, [], ◌∷◌, ◌++◌, All, arith, inl, inr,
  if◌then◌else◌, ltb,
}
use vpoiskaxroditeley.Str.{Bytes, eq_bytes}
use vpoiskaxroditeley.RuntimeExec.Tails
use vpoiskaxroditeley.PayloadGen.InputHub.{TabInput, u32_max}
use vpoiskaxroditeley.Supervisor.Fleet.{Fleet, with_limits, expire}
use vpoiskaxroditeley.Supervisor.Fleet.Attach.{Request, attach}
use vpoiskaxroditeley.Supervisor.Fleet.Pump.{Sessions, tick_hubs, pump}
use vpoiskaxroditeley.Supervisor.Fleet.Handles
use vpoiskaxroditeley.Supervisor.Fleet.Flushed.{IsJob, sent_to, held, events_for}
use vpoiskaxroditeley.Supervisor.Fleet.Sent.{ticked_events, waiting-pump}
use vpoiskaxroditeley.PayloadGen.Cursors.{RawEvent}
use vpoiskaxroditeley.Supervisor.Fleet.Reached.{
  IsReached, begins, attaches, IsReached-IsSound, IsAttached, attach-IsAttached,
}
use vpoiskaxroditeley.Supervisor.Form
use vpoiskaxroditeley.Supervisor.Form.Pairs.{inserted, upserts-inserted}
use vpoiskaxroditeley.Supervisor.Watch.{WatchRec, Watched, watch_put, lookup}
use vpoiskaxroditeley.Supervisor.Watch.Bounded.{put_at, lookup-watch_put}
use vpoiskaxroditeley.Supervisor.Task
use vpoiskaxroditeley.Supervisor.Task.{Value, TaskOutcome, failure, ready, expired, outcome, alive}
use vpoiskaxroditeley.Supervisor.Task.Worker.{takes_job, work}
use vpoiskaxroditeley.Supervisor.Task.Outcomes.{IsTold, work-IsTold, outcome-work}

abbrev press : RawEvent
press = record { x = 1; y = 2; dt_ms = 3; kind = 1; arg = 0 }

-- An input is the time at which it is due; a step makes one event and ends it.
abbrev timers : TabInput ℕ
timers = record { next_due_us = λ t. t; done = λ t. true; step_into = λ now t. (press ∷ [], t) }

-- A session is the lines that it took in.
abbrev lines_kept : Sessions (List Bytes)
lines_kept = record {
  header_for_url = λ url s. none;
  ingest_for_url = λ line url s. line ∷ s;
  touch = λ s. s;
}

abbrev request : Request (List Bytes) ℕ
request = record {
  key = 5;
  session = [];
  endpoint = [];
  engine_slot = 0;
  weight = 8;
  input_of = λ tab. 900;
  interval_of = λ tab. 2000;
}

abbrev fleet : Fleet (List Bytes) ℕ
fleet = with_limits 2 4 300

abbrev one_tab : Fleet (List Bytes) ℕ
one_tab = (attach timers 10 11 request fleet).1

one_tab-IsReached : IsReached timers lines_kept one_tab
one_tab-IsReached = attaches 10 11 request (begins 2 4 300)

IsReached-IsSound_example : Handles.IsSound one_tab
IsReached-IsSound_example = IsReached-IsSound timers lines_kept one_tab-IsReached

second_handle : (attach timers 20 21 request one_tab).0 ≡ 1
unfolding attach with_limits Tails.lookup
second_handle = refl

second_given : (attach timers 20 21 request one_tab).0 ≢ u32_max
second_given h = omega (arith, second_handle, h)

attach-IsAttached_example :
    IsAttached
      (attach timers 20 21 request one_tab).0
      (expire 20 one_tab).1
      (attach timers 20 21 request one_tab).1
attach-IsAttached_example =
    attach-IsAttached timers lines_kept 20 21 request one_tab one_tab-IsReached second_given

first_there : Tails.lookup 0 (expire 30 one_tab).1.handles ≡ some 0
unfolding attach expire with_limits Tails.lookup
first_there = refl

waiting-pump_example :
    (sent_to 0 (pump timers lines_kept 30 1000 one_tab).0
        ++ held 0 (pump timers lines_kept 30 1000 one_tab).1.slots
      ≡ held 0 (expire 30 one_tab).1.slots
        ++ events_for
            (expire 30 one_tab).1.tab_to_idx
            0
            (ticked_events timers 1000 (expire 30 one_tab).1))
    × All
        (IsJob (Handles.who_of (expire 30 one_tab).1.slots))
        (pump timers lines_kept 30 1000 one_tab).0
waiting-pump_example = waiting-pump timers lines_kept 30 1000 0 0 one_tab-IsReached first_there

-- the tick makes an event for the tab
ticked_run :
    events_for (expire 30 one_tab).1.tab_to_idx 0 (ticked_events timers 1000 (expire 30 one_tab).1)
    ≡ press ∷ []
unfolding attach expire with_limits Tails.lookup tick_hubs events_for
ticked_run = refl

abbrev fields : List (Bytes × Bytes)
fields = (97 ∷ [], 49 ∷ []) ∷ (98 ∷ [], 50 ∷ []) ∷ (97 ∷ [], 51 ∷ []) ∷ []

upserts-inserted_example : (Form.upserts fields Form.new).body ≡ inserted fields []
upserts-inserted_example = upserts-inserted fields

abbrev page : WatchRec
page = record { probe_page = false; script = 49 ∷ []; token = none; seen = 100 }

abbrev solved_page : WatchRec
solved_page = record { probe_page = false; script = 50 ∷ []; token = some (51 ∷ []); seen = 400 }

abbrev watched : Watched
watched = (104 ∷ [], page) ∷ []

lookup-watch_put_example :
    lookup (104 ∷ []) (watch_put 400 0 (104 ∷ []) solved_page watched)
    ≡ put_at (104 ∷ []) solved_page watched (104 ∷ [])
lookup-watch_put_example =
    lookup-watch_put 400 0 (104 ∷ []) solved_page watched (104 ∷ []) (omega arith)

-- the old page is watched still
watched_run : put_at (104 ∷ []) solved_page watched (104 ∷ []) ≡ some page
unfolding put_at lookup eq_bytes
watched_run = refl

abbrev answer : Value
answer = record { error = none; rest = 49 ∷ [] }

abbrev stores : List (ℕ × (Bytes ⊎ Value))
stores = (20, inl []) ∷ (90, inr answer) ∷ (91, inl []) ∷ []

work-IsTold_example : IsTold (outcome 95 (work stores (Task.new 10_000 10 1000, takes_job)).0)
work-IsTold_example = work-IsTold 10_000 10 1000 95 stores

in_time : alive 20 (Task.new 10_000 10 1000) ≡ true
unfolding alive Task.new
in_time = refl

outcome-work_example :
    outcome 95 (work stores (Task.new 10_000 10 1000, takes_job)).0
    ≡ (if ltb (Task.new 10_000 10 1000).deadline 95 then failure expired else ready answer)
outcome-work_example = outcome-work 10_000 10 1000 20 90 91 95 answer (inl []) (inl []) [] in_time
