-- ===== src/Supervisor/Task/Outcomes.antt =====
-- What clients are told of a task while a worker does it.
use vpoiskaxroditeley.Prelude.{
  ℕ, ◌≡◌, ◌⊎◌, refl, ap, ◌∙◌, true, none, some, List, [], ◌∷◌, ltb, leb, if◌then◌else◌, Bool-cases,
  if_both, inl, inr,
}
use vpoiskaxroditeley.Str.{Bytes}
use vpoiskaxroditeley.Supervisor.Task.{
  Value, TaskRec, TaskOutcome, processing, ready, failure, expired, no_result, failed, reported,
  new, alive, outcome, failed_outcome, error_of, st_queued, st_processing, st_ready, st_failed,
}
use vpoiskaxroditeley.Supervisor.Task.Worker.{
  Worker, takes_job, executes, stores_state, ended, set_result, worker_step, work,
}

-- The state of a record and its result at each stage of the worker.
abbrev pub IsConsistent : TaskRec × Worker → Type 0
IsConsistent (t, takes_job) = (t.state ≡ st_queued) × (t.result ≡ none)
IsConsistent (t, executes) = (t.state ≡ st_processing) × (t.result ≡ none)
IsConsistent (t, stores_state state) =
    (t.state ≡ st_processing)
    × (((v : Value) × ((t.result ≡ some v) × (state ≡ st_ready)))
        ⊎ ((e : Bytes) × ((error_of t.result ≡ some e) × (state ≡ st_failed))))
IsConsistent (t, ended) =
    (t.state ≡ st_queued)
    ⊎ (((v : Value) × ((t.result ≡ some v) × (t.state ≡ st_ready)))
        ⊎ ((e : Bytes) × ((error_of t.result ≡ some e) × (t.state ≡ st_failed))))

worker_step-IsConsistent :
    (now : ℕ) (out : Bytes ⊎ Value) (t : TaskRec) (w : Worker)
    → IsConsistent (t, w)
    → IsConsistent (worker_step now out (t, w))
unfolding worker_step set_result
worker_step-IsConsistent now out t takes_job (s, r) = elim (Bool-cases (alive now t)) [
  | inl a ↦ rw (worker_step, a) (refl, r)
  | inr a ↦ rw (worker_step, a) (inl s)
]
worker_step-IsConsistent now (inr v) t executes (s, r) =
    rw (worker_step, r) (s, inl (v, (refl, refl)))
worker_step-IsConsistent now (inl e) t executes (s, r) =
    rw (worker_step, r) (s, inr (e, (refl, refl)))
worker_step-IsConsistent now (inl e) t (stores_state state) (s, h) = inr h
worker_step-IsConsistent now (inr v) t (stores_state state) (s, h) = inr h
worker_step-IsConsistent now (inl e) t ended h = h
worker_step-IsConsistent now (inr v) t ended h = h

work-IsConsistent :
    (l : List (ℕ × (Bytes ⊎ Value))) (t : TaskRec) (w : Worker)
    → IsConsistent (t, w)
    → IsConsistent (work l (t, w))
unfolding work
work-IsConsistent [] t w h = h
work-IsConsistent ((now, out) ∷ l) t w h =
    work-IsConsistent l _ _ (worker_step-IsConsistent now out t w h)

-- What a client may be told, which is not that there is no result nor a failure without a reason.
abbrev pub IsTold : TaskOutcome → Type 0
IsTold (processing elapsed_ms ttl_left_ms) = Unit {0}
IsTold (ready solution) = Unit {0}
IsTold (failure expired) = Unit {0}
IsTold (failure no_result) = ⊥
IsTold (failure failed) = ⊥
IsTold (failure (reported error)) = Unit {0}

outcome-IsTold : (now : ℕ) (t : TaskRec) (w : Worker) → IsConsistent (t, w) → IsTold (outcome now t)
unfolding outcome failed_outcome
outcome-IsTold now t takes_job (s, r) = rw (outcome, s) (if_both IsTold (leb t.deadline now) tt tt)
outcome-IsTold now t executes (s, r) = rw (outcome, s) (if_both IsTold (leb t.deadline now) tt tt)
outcome-IsTold now t (stores_state state) (s, h) =
    rw (outcome, s) (if_both IsTold (leb t.deadline now) tt tt)
outcome-IsTold now t ended (inl s) = rw (outcome, s) (if_both IsTold (leb t.deadline now) tt tt)
outcome-IsTold now t ended (inr (inl (v, (r, s)))) =
    rw (outcome, s, r) (if_both IsTold (ltb t.deadline now) tt tt)
outcome-IsTold now t ended (inr (inr (e, (r, s)))) = rw (outcome, s, failed_outcome, r) tt

-- At whatever instant a client asks, between any two stores of the worker, a new task is in progress,
-- is ready with a solution, has expired or has failed for a reason that is told; that a task is ready
-- without a result, or has failed without a reason, is never told.
pub work-IsTold :
    (latest submitted ttl now : ℕ) (l : List (ℕ × (Bytes ⊎ Value)))
    → IsTold (outcome now (work l (new latest submitted ttl, takes_job)).0)
unfolding new
work-IsTold latest submitted ttl now l =
    let (t, w) = work l (new latest submitted ttl, takes_job) in
    outcome-IsTold now t w (work-IsConsistent l (new latest submitted ttl) takes_job (refl, refl))

work-ended : (l : List (ℕ × (Bytes ⊎ Value))) (t : TaskRec) → work l (t, ended) ≡ (t, ended)
unfolding work worker_step
work-ended [] t = refl
work-ended ((now, inl e) ∷ l) t = work-ended l t
work-ended ((now, inr v) ∷ l) t = work-ended l t

-- the record once a solution is there
abbrev solved : Value → TaskRec → TaskRec
solved v t = record t { state = st_ready; result = some v }

start_step :
    (now : ℕ) (out : Bytes ⊎ Value) (t : TaskRec)
    → alive now t ≡ true
    → worker_step now out (t, takes_job) ≡ (record t { state = st_processing }, executes)
unfolding worker_step
start_step now (inl e) t a = rw (worker_step, a) refl
start_step now (inr v) t a = rw (worker_step, a) refl

finish_step :
    (now : ℕ) (v : Value) (t : TaskRec)
    → t.result ≡ none
    → worker_step now (inr v) (t, executes) ≡ (record t { result = some v }, stores_state st_ready)
unfolding worker_step set_result
finish_step now v t r = rw (worker_step, r) refl

store_step :
    (now state : ℕ) (out : Bytes ⊎ Value) (t : TaskRec)
    → worker_step now out (t, stores_state state) ≡ (record t { state = state }, ended)
unfolding worker_step
store_step now state (inl e) t = refl
store_step now state (inr v) t = refl

work-solved :
    (start end stored : ℕ) (v : Value) (out out' : Bytes ⊎ Value) (l : List (ℕ × (Bytes ⊎ Value)))
    (t : TaskRec)
    → alive start t ≡ true
    → t.result ≡ none
    → work ((start, out) ∷ (end, inr v) ∷ (stored, out') ∷ l) (t, takes_job) ≡ (solved v t, ended)
unfolding work
work-solved start end stored v out out' l t a r =
    let t1 : TaskRec = record t { state = st_processing } in
    let t2 : TaskRec = record t1 { result = some v } in
    ap (λ w. work l (worker_step stored out' (worker_step end (inr v) w)))
      (start_step start out t a)
    ∙ ap (λ w. work l (worker_step stored out' w)) (finish_step end v t1 r)
    ∙ ap (work l) (store_step stored st_ready out' t2)
    ∙ work-ended l (solved v t)

-- A task that is taken before its deadline and executed with a solution has it from then on, whatever
-- is asked or done later, until its deadline is over.
pub outcome-work :
    (latest submitted ttl start end stored now : ℕ) (v : Value) (out out' : Bytes ⊎ Value)
    (l : List (ℕ × (Bytes ⊎ Value)))
    → alive start (new latest submitted ttl) ≡ true
    → outcome now
        (work
          ((start, out) ∷ (end, inr v) ∷ (stored, out') ∷ l)
          (new latest submitted ttl, takes_job)).0
      ≡ (if ltb (new latest submitted ttl).deadline now then failure expired else ready v)
unfolding outcome new
outcome-work latest submitted ttl start end stored now v out out' l a =
    ap (λ (w : TaskRec × Worker). outcome now w.0)
      (work-solved start end stored v out out' l (new latest submitted ttl) a refl)
