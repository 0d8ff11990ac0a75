-- ===== src/Tests/ExecQueue.antt =====
-- crates/runtime-exec/src/pool.rs at concrete inputs: a pool for three tasks and eight bytes.
use vpoiskaxroditeley.Prelude.{
  ℕ, ◌≡◌, ◌≤◌, ◌<◌, ◌+◌, refl, Bool, true, false, Option, none, some, List, [], ◌∷◌, ◌++◌, length,
  ltb, if◌then◌else◌, arith,
}
use vpoiskaxroditeley.RuntimeExec.Budget.{reserve_alone}
use vpoiskaxroditeley.RuntimeExec.ExecQueue.{
  ExecReq, ExecTask, Channels, Sending, sent, chan_full, chan_disconnected, js, wasm, Op, execs,
  recvs, finishes, WorkerPool, spawn_with_limits, exec, run, stopped, new_control, backpressure,
  shutdown,
}
use vpoiskaxroditeley.RuntimeExec.ExecQueue.Lanes.{IsWithin, queued_bytes, scripts}
use vpoiskaxroditeley.RuntimeExec.ExecQueue.Accounts.{
  IsDecided, exec-IsDecided, run-IsSound, spawn-IsSound, run-spawn_with_limits,
}

-- what is in it, how much may be, and whether nobody receives any more
abbrev Lane : Type 0
Lane = List ExecTask × (ℕ × Bool)

unfoldable lane_send : ExecTask → Lane → Sending Lane
lane_send a (l, (n, gone)) =
    if gone
    then chan_disconnected
    else if ltb (length l) n
    then sent (l ++ a ∷ [], (n, gone))
    else chan_full

unfoldable lane_take : Lane → Option (ExecTask × Lane)
lane_take ([], n) = none
lane_take (a ∷ l, n) = some (a, (l, n))

lane_sent :
    (a : ExecTask) (c c' : Lane)
    → lane_send a c ≡ sent c'
    → (c'.0 ≡ c.0 ++ a ∷ []) × (c'.1.0 ≡ c.1.0) × (length c.0 < c.1.0)
unfolding lane_send
lane_sent a (l, (n, gone)) (l', (n', gone')) h = ground arith

lane_full : (a : ExecTask) (c : Lane) → lane_send a c ≡ chan_full → c.1.0 ≤ length c.0
unfolding lane_send
lane_full a (l, (n, gone)) h = ground arith

lane_gone : (a : ExecTask) (c : Lane) → lane_send a c ≡ chan_disconnected → c.1.1 ≡ true
unfolding lane_send
lane_gone a (l, (n, gone)) h = ground arith

lane_taken :
    (a : ExecTask) (c c' : Lane) → lane_take c ≡ some (a, c') → (c.0 ≡ a ∷ c'.0) × (c'.1.0 ≡ c.1.0)
unfolding lane_take
lane_taken a ([], n) (l', n') h = ground arith
lane_taken a (b ∷ l, n) (l', n') h = ground arith

-- a channel as the list of what is in it
abbrev lanes : Channels ExecTask
lanes = record {
  Chan = Lane;
  bounded = λ n. ([], (n, false));
  try_send = lane_send;
  take = lane_take;
  items = λ c. c.0;
  cap = λ c. c.1.0;
  is_disconnected = λ c. c.1.1;
  items-bounded = λ n. refl;
  cap-bounded = λ n. refl;
  try_send_sent = λ a c c' some_room h. lane_sent a c c' h;
  try_send_full = lane_full;
  try_send_disconnected = lane_gone;
  take_some = lane_taken;
}

abbrev page_script : ExecReq
page_script = record { kind = js; script = 1 ∷ 2 ∷ 3 ∷ []; timeout = 10 }

abbrev module_script : ExecReq
module_script = record { kind = wasm; script = 4 ∷ 5 ∷ []; timeout = 10 }

abbrev asked : List Op
asked =
    execs 0 1 page_script
    ∷ execs 2 2 module_script
    ∷ recvs false
    ∷ recvs false
    ∷ execs 3 3 module_script
    ∷ finishes 1
    ∷ []

run-spawn_with_limits_example :
    IsWithin lanes 3 (run lanes 1000 asked (spawn_with_limits lanes 3 8)).queue
    × ((run lanes 1000 asked (spawn_with_limits lanes 3 8)).script_budget.bytes
        ≡ queued_bytes lanes 3 (run lanes 1000 asked (spawn_with_limits lanes 3 8)).queue
          + scripts (run lanes 1000 asked (spawn_with_limits lanes 3 8)).running)
    × ((run lanes 1000 asked (spawn_with_limits lanes 3 8)).script_budget.bytes ≤ 8)
run-spawn_with_limits_example =
    run-spawn_with_limits lanes 3 8 1000 asked (omega arith) (omega arith) (omega arith)

-- a pool in which the page's script waits and the module's is run
abbrev busy : WorkerPool lanes
busy =
    run lanes 1000 (execs 0 1 page_script ∷ execs 2 2 module_script ∷ recvs false ∷ [])
      (spawn_with_limits lanes 3 8)

exec-IsDecided_example :
    IsDecided lanes 3 8
      (stopped 3 (new_control 1000 3 10))
      (reserve_alone 1 3 busy.script_budget)
      page_script
      busy
      (exec lanes 1000 3 3 page_script busy)
exec-IsDecided_example = exec-IsDecided lanes 3 8 1000 3 3 page_script busy (omega arith) (
    run-IsSound lanes 3 8 1000 (execs 0 1 page_script ∷ execs 2 2 module_script ∷ recvs false ∷ [])
      (spawn_with_limits lanes 3 8) (omega arith) (spawn-IsSound lanes 3 8 (omega arith)))

busy_run : (exec lanes 1000 3 3 page_script busy).0 ≡ some backpressure
unfolding run exec lane_send lane_take spawn_with_limits
busy_run = refl

-- a pool whose bulk lane nobody receives from
abbrev left : WorkerPool lanes
left = record busy { queue = record busy.queue { bulk = ([], (3, true)) } }

left_run : (exec lanes 1000 3 3 (record module_script { script = [] }) left).0 ≡ some shutdown
unfolding run exec lane_send lane_take spawn_with_limits
left_run = refl
