-- ===== src/Tests/RuntimeExec.antt =====
-- crates/runtime-exec at concrete inputs: a timer is scheduled, fires and cancels itself.
use vpoiskaxroditeley.Prelude.{ℕ, ◌≡◌, ◌<◌, ◌==◌, refl, true, false, some, arith}
use vpoiskaxroditeley.RuntimeExec.Tails.{lookup}
use vpoiskaxroditeley.RuntimeExec.Timer.{
  TimerKey, TimerState, timer_cap, cleared, schedule, unschedule, take_due, rearm, push_timer,
}
use vpoiskaxroditeley.RuntimeExec.Timer.Queue.{
  IsCounted, scheduling, Step-IsCounted, rearm-unschedule,
}
use vpoiskaxroditeley.RuntimeExec.Timer.Order.{IsOrdered, IsTurn, take_due-IsTurn}

abbrev start : TimerState ℕ
start = cleared

abbrev queue : TimerState ℕ
queue = (schedule 100 50 true 7 start).1

abbrev key : TimerKey
key = record { due_us = 150; seq = 1; id = 1; interval_us = 50 }

start-IsCounted : IsCounted start
unfolding cleared
start-IsCounted = (tt, refl, omega arith)

Step-IsCounted_example : IsCounted queue
unfolding cleared lookup
Step-IsCounted_example = Step-IsCounted (scheduling 100 50 true 7 refl) start-IsCounted

taken : (take_due 200 queue).0 ≡ some (key, 7)
unfolding take_due schedule push_timer cleared lookup
taken = refl

room : (take_due 200 queue).1.live < timer_cap
unfolding take_due schedule push_timer cleared lookup
room = omega arith

repeats : (key.interval_us == 0) ≡ false
repeats = refl

rearm-unschedule_example :
    (unschedule 1 (take_due 200 queue).1 ≡ (take_due 200 queue).1)
    × (lookup 1 (rearm 210 true key 7 (unschedule 1 (take_due 200 queue).1)).tails ≡ some 7)
rearm-unschedule_example = rearm-unschedule 200 210 queue key 7 taken repeats room

ordered : IsOrdered queue.heap
unfolding schedule push_timer cleared
ordered = (tt, tt)

take_due-IsTurn_example :
    IsOrdered (take_due 200 queue).1.heap × IsTurn 200 queue.tails queue.heap (take_due 200 queue).0
take_due-IsTurn_example = take_due-IsTurn 200 queue ordered
