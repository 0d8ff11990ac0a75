-- ===== src/Supervisor/Task/Worker.antt =====
-- crates/supervisor/src/api.rs: what `spawn`'s worker does to the record of a task, as its single stores,
-- between which clients read the record. What `execute` answers, or that its time is over, is data.
use vpoiskaxroditeley.Prelude.{ℕ, none, some, List, [], ◌∷◌, if◌then◌else◌, ◌⊎◌, inl, inr}
use vpoiskaxroditeley.Str.{Bytes}
use vpoiskaxroditeley.Supervisor.Task.{Value, TaskRec, alive, st_processing, st_ready, st_failed}

-- Where the worker stands with its job.
pub data Worker : Type 0 where
  takes_job : Worker
  executes : Worker
  stores_state : (state : ℕ) → Worker
  ended : Worker

-- `OnceLock::set` leaves what is set.
unfoldable pub set_result : Value → TaskRec → TaskRec
set_result v t = elim t.result [ some w ↦ t | none ↦ record t { result = some v } ]

-- The next store of the worker: at an instant, and with what was executed.
unfoldable pub worker_step : ℕ → Bytes ⊎ Value → TaskRec × Worker → TaskRec × Worker
unfolding alive set_result
worker_step now out (t, takes_job) =
    if alive now t then (record t { state = st_processing }, executes) else (t, ended)
worker_step now (inr v) (t, executes) = (set_result v t, stores_state st_ready)
worker_step now (inl e) (t, executes) =
    (set_result (record { error = some e; rest = [] }) t, stores_state st_failed)
worker_step now out (t, stores_state state) = (record t { state = state }, ended)
worker_step now out (t, ended) = (t, ended)

unfoldable pub work : List (ℕ × (Bytes ⊎ Value)) → TaskRec × Worker → TaskRec × Worker
unfolding worker_step
work [] w = w
work ((now, out) ∷ l) w = work l (worker_step now out w)
