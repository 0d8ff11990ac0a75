-- ===== src/RuntimeExec/ExecQueue.antt =====
-- crates/runtime-exec/src/task.rs, the queue between the pool and its workers, and src/pool.rs, which
-- lets scripts in under the budget of their bytes. The bounded channels of the crossbeam crate are the
-- interface `Channels`; of a request only what the queue reads is here. Instants are numbers.
pub mod Lanes
pub mod Accounts
use vpoiskaxroditeley.Prelude.{
  ℕ, zero, suc, ◌+◌, ◌-◌, ◌/◌, ◌^◌, ◌≤◌, ◌<◌, ◌≡◌, Bool, true, false, not, ◌||◌, Option, none, some,
  List, [], ◌∷◌, ◌++◌, length, ltb, leb, ◌==◌, if◌then◌else◌,
}
use vpoiskaxroditeley.Str.{Bytes}
use vpoiskaxroditeley.RuntimeExec.Budget.{Budget, new, reserve_alone, drop_alone}

pub data ExecKind : Type 0 where
  js : ExecKind
  wasm : ExecKind
  anubis : ExecKind

pub record ExecReq : Type 0 where
  pub kind : ExecKind
  pub script : Bytes
  pub timeout : ℕ

pub record ExecControl : Type 0 where
  pub deadline : ℕ
  pub cancelled : Bool

pub record ExecTask : Type 0 where
  pub priority : ℕ
  pub req : ExecReq
  pub control : ExecControl

unfoldable pub priority_of : ExecKind → ℕ
priority_of anubis = 0
priority_of js = 1
priority_of wasm = 2

-- `Err` with the name of what went wrong, or the channel with the value in it
pub data Sending (C : Type 0) : Type 0 where
  sent : (c : C) → Sending C
  chan_full : Sending C
  chan_disconnected : Sending C

-- `crossbeam_channel::bounded`: a queue of at most so many values, not 0.
pub record Channels (A : Type 0) : Type 1 where
  pub Chan : Type 0
  pub bounded : ℕ → Chan
  pub try_send : A → Chan → Sending Chan
  pub take : Chan → Option (A × Chan)
  pub items : Chan → List A
  pub cap : Chan → ℕ
  pub is_disconnected : Chan → Bool
  pub items-bounded : (n : ℕ) → items (bounded n) ≡ []
  pub cap-bounded : (n : ℕ) → cap (bounded n) ≡ n
  pub try_send_sent :
      (a : A) (c c' : Chan)
      → 0 < cap c
      → try_send a c ≡ sent c'
      → (items c' ≡ items c ++ a ∷ []) × (cap c' ≡ cap c) × (length (items c) < cap c)
  pub try_send_full : (a : A) (c : Chan) → try_send a c ≡ chan_full → cap c ≤ length (items c)
  pub try_send_disconnected :
      (a : A) (c : Chan) → try_send a c ≡ chan_disconnected → is_disconnected c ≡ true
  pub take_some :
      (a : A) (c c' : Chan) → take c ≡ some (a, c') → (items c ≡ a ∷ items c') × (cap c' ≡ cap c)

pub data TrySendError : Type 0 where
  full : TrySendError
  disconnected : TrySendError

pub data ExecError : Type 0 where
  parse : ExecError
  no_result : ExecError
  timeout : ExecError
  oom : ExecError
  backpressure : ExecError
  shutdown : ExecError
  wasm_compile : ExecError
  wasm_imports : ExecError
  wasm_fuel : ExecError
  panic : ExecError
  js_exception : (m : Bytes) → ExecError

-- `latest` is the last instant that the clock can give.
unfoldable pub new_control : ℕ → ℕ → ℕ → ExecControl
new_control latest now limit = record {
  deadline = if ltb latest (now + limit) then now else now + limit;
  cancelled = false;
}

unfoldable pub stopped : ℕ → ExecControl → Bool
stopped now control = control.cancelled || leb control.deadline now

-- without the task at a place
unfoldable pub remove_at : ℕ → List ExecTask → List ExecTask
remove_at i [] = []
remove_at zero (t ∷ l) = l
remove_at (suc i) (t ∷ l) = t ∷ remove_at i l

unfoldable pub task_at : ℕ → List ExecTask → Option ExecTask
task_at i [] = none
task_at zero (t ∷ l) = some t
task_at (suc i) (t ∷ l) = task_at i l

pub data Op : Type 0 where
  execs : (now later : ℕ) (req : ExecReq) → Op
  recvs : (from_critical : Bool) → Op
  finishes : (i : ℕ) → Op

module _ (ch : Channels ExecTask) where
  -- both ends of the two lanes
  pub record ExecQueue : Type 0 where
    pub critical : ch.Chan
    pub bulk : ch.Chan

  unfoldable pub exec_channel : ℕ → ExecQueue
  exec_channel cap = record { critical = ch.bounded (cap / 4 + 1); bulk = ch.bounded cap }

  unfoldable pub to_critical : ExecTask → ExecQueue → Option TrySendError × ExecQueue
  to_critical task q = elim (ch.try_send task q.critical) [
    | sent c ↦ (none, record q { critical = c })
    | chan_full ↦ (some full, q)
    | chan_disconnected ↦ (some disconnected, q)
  ]

  unfoldable pub try_send : ExecTask → ExecQueue → Option TrySendError × ExecQueue
  unfolding to_critical
  try_send task q =
      if leb task.priority 1 then to_critical task q else elim (ch.try_send task q.bulk) [
        | sent c ↦ (none, record q { bulk = c })
        | chan_full ↦ to_critical task q
        | chan_disconnected ↦ (some disconnected, q)
      ]

  abbrev pub from_lane : Bool → ExecQueue → Option (ExecTask × ExecQueue)
  from_lane true q = elim (ch.take q.critical) [
    | none ↦ none
    | some (t, c) ↦ some (t, record q { critical = c })
  ]
  from_lane false q = elim (ch.take q.bulk) [
    | none ↦ none
    | some (t, c) ↦ some (t, record q { bulk = c })
  ]

  -- `select!` takes from any lane that is ready: which one it looks at first is the argument.
  unfoldable pub recv : Bool → ExecQueue → Option (ExecTask × ExecQueue)
  recv from_critical q = elim (from_lane from_critical q) [
    | some got ↦ some got
    | none ↦ from_lane (not from_critical) q
  ]

  -- The pool, and the tasks that its workers have received and not yet dropped.
  pub record WorkerPool : Type 0 where
    pub queue : ExecQueue
    pub script_budget : Budget
    pub running : List ExecTask

  -- `spawn_with_limits` for limits that it accepts, without the threads
  unfoldable pub spawn_with_limits : ℕ → ℕ → WorkerPool
  unfolding exec_channel new
  spawn_with_limits queue_capacity script_bytes = record {
    queue = exec_channel queue_capacity;
    script_budget = new (2 ^ 64 - 1) script_bytes;
    running = [];
  }

  -- A task that is not queued is dropped with its charge.
  unfoldable pub answer :
      ℕ → Budget → WorkerPool → Option TrySendError × ExecQueue → Option ExecError × WorkerPool
  unfolding drop_alone
  answer bytes budget p (none, queue) = (none, record p { queue = queue; script_budget = budget })
  answer bytes budget p (some full, queue) =
      (some backpressure, record p { queue = queue; script_budget = drop_alone 1 bytes budget })
  answer bytes budget p (some disconnected, queue) =
      (some shutdown, record p { queue = queue; script_budget = drop_alone 1 bytes budget })

  -- What `exec` decides before it waits for the reply: an error, or `none` when the task is queued.
  unfoldable pub exec : ℕ → ℕ → ℕ → ExecReq → WorkerPool → Option ExecError × WorkerPool
  unfolding new_control stopped reserve_alone priority_of try_send answer
  exec latest now later req p =
      let control = new_control latest now req.timeout in
      if stopped later control
      then (some timeout, p)
      else elim (reserve_alone 1 (length req.script) p.script_budget) [
        | none ↦ (some backpressure, p)
        | some budget ↦
            let task : ExecTask = record {
              priority = priority_of req.kind;
              req = req;
              control = control;
            } in
            answer (length req.script) budget p (try_send task p.queue)
      ]

  -- A worker that is idle receives a task, or is still waiting.
  unfoldable pub receive : Bool → WorkerPool → WorkerPool
  unfolding recv
  receive from_critical p = elim (recv from_critical p.queue) [
    | none ↦ p
    | some (t, q) ↦ record p { queue = q; running = t ∷ p.running }
  ]

  -- A worker is through with a task and drops it.
  unfoldable pub finish : ℕ → WorkerPool → WorkerPool
  unfolding task_at remove_at drop_alone
  finish i p = elim (task_at i p.running) [
    | none ↦ p
    | some t ↦ record p {
      running = remove_at i p.running;
      script_budget = drop_alone 1 (length t.req.script) p.script_budget;
    }
  ]

  unfoldable pub apply : ℕ → Op → WorkerPool → WorkerPool
  unfolding exec receive finish
  apply latest (execs now later req) p = (exec latest now later req p).1
  apply latest (recvs from_critical) p = receive from_critical p
  apply latest (finishes i) p = finish i p

  unfoldable pub run : ℕ → List Op → WorkerPool → WorkerPool
  unfolding apply
  run latest [] p = p
  run latest (op ∷ ops) p = run latest ops (apply latest op p)
