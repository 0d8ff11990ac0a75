-- ===== src/RuntimeExec/ExecQueue/Accounts.antt =====
-- What the pool holds: the lanes within their capacities, and the budget that of the tasks in it.
use vpoiskaxroditeley.Prelude.{
  ℕ, zero, suc, ◌+◌, ◌/◌, ◌^◌, ◌≤◌, ◌<◌, ◌≡◌, ◌≢◌, refl, sym, ◌∙◌, subst, ap, Bool, true, false,
  not, Option, none, some, List, [], ◌∷◌, length, max, arith, Option-cases, Bool-cases, ◌⊎◌, inl,
  inr,
}
use vpoiskaxroditeley.RuntimeExec.Budget.{Budget, new, reserve_alone, drop_alone}
use vpoiskaxroditeley.RuntimeExec.Budget.Steps.{wrapping_sub_lem}
use vpoiskaxroditeley.RuntimeExec.Budget.Alone.{reserve_alone-drop_alone, reserve_alone-IsReserved}
use vpoiskaxroditeley.RuntimeExec.ExecQueue.{
  ExecReq, ExecTask, Channels, ExecError, timeout, backpressure, shutdown, new_control, stopped,
  priority_of, remove_at, task_at, Op, execs, recvs, finishes, ExecQueue, exec_channel, recv,
  WorkerPool, spawn_with_limits, answer, exec, receive, finish, apply, run,
}
use vpoiskaxroditeley.RuntimeExec.ExecQueue.Lanes.{
  scripts, queued, queued_bytes, IsWithin, IsFull, IsDisconnected, IsAdded, IsTaken,
  try_send-IsTried, from_lane-cases,
}

task_at-scripts :
    (i : ℕ) (l : List ExecTask) (t : ExecTask)
    → task_at i l ≡ some t
    → (length l ≡ suc (length (remove_at i l)))
      × (scripts l ≡ length t.req.script + scripts (remove_at i l))
unfolding task_at remove_at scripts
task_at-scripts i [] t h = ground arith
task_at-scripts zero (u ∷ l) t h = ground arith
task_at-scripts (suc i) (u ∷ l) t h = ground (arith, task_at-scripts i l t h)

module _ (ch : Channels ExecTask) (capacity script_bytes : ℕ) where
  -- The lanes are within their capacities and the script budget is that of the tasks in the lanes and
  -- with the workers.
  pub record IsSound (p : WorkerPool ch) : Type 0 where
    pub within : IsWithin ch capacity p.queue
    pub entries_sum : p.script_budget.entries ≡ queued ch capacity p.queue + length p.running
    pub bytes_sum : p.script_budget.bytes ≡ queued_bytes ch capacity p.queue + scripts p.running
    pub entries_fit : p.script_budget.entries ≤ p.script_budget.entry_limit
    pub bytes_fit : p.script_budget.bytes ≤ p.script_budget.byte_limit
    pub entry_limit_fits : p.script_budget.entry_limit < 2 ^ 64
    pub byte_limit_fits : p.script_budget.byte_limit < 2 ^ 64
    pub byte_limit_is : p.script_budget.byte_limit ≡ max script_bytes 1

  -- What `exec` decides: the deadline was over; or it was not, and there was no room in the budget, or
  -- there was, and the lanes were full that the task may go to, or one of them has no receiver; in all
  -- these cases the pool is as it was. Or the task is in.
  abbrev pub IsDecided :
      Bool → Option Budget → ExecReq → WorkerPool ch → Option ExecError × WorkerPool ch → Type 0
  IsDecided late room req p r =
      ((r ≡ (some timeout, p)) × (late ≡ true))
      ⊎ (((r ≡ (some backpressure, p))
            × (late ≡ false)
            × ((room ≡ none) ⊎ IsFull ch capacity (priority_of req.kind) p.queue))
          ⊎ (((r ≡ (some shutdown, p))
                × (late ≡ false)
                × (room ≢ none)
                × IsDisconnected ch capacity p.queue)
              ⊎ ((late ≡ false)
                  × (room ≢ none)
                  × (r.0 ≡ none)
                  × IsSound r.1
                  × (queued ch capacity r.1.queue ≡ suc (queued ch capacity p.queue))
                  × (queued_bytes ch capacity r.1.queue
                      ≡ length req.script + queued_bytes ch capacity p.queue))))

  added-IsSound :
      (t : ExecTask) (q : ExecQueue ch) (b : Budget) (p : WorkerPool ch)
      → IsSound p
      → reserve_alone 1 (length t.req.script) p.script_budget ≡ some b
      → IsAdded ch capacity t p.queue q
      → IsSound (record p { queue = q; script_budget = b })
  added-IsSound t q b p s f a =
      let made = reserve_alone-IsReserved p.script_budget b 1 (length t.req.script) f in
      record {
        within = a.within;
        entries_sum = omega (arith, made.entries_sum, s.entries_sum, a.one_more);
        bytes_sum = omega (arith, made.bytes_sum, s.bytes_sum, a.bytes_more);
        entries_fit = made.entries_fit;
        bytes_fit = made.bytes_fit;
        entry_limit_fits = omega (arith, made.same_entry_limit, s.entry_limit_fits);
        byte_limit_fits = omega (arith, made.same_byte_limit, s.byte_limit_fits);
        byte_limit_is = made.same_byte_limit ∙ s.byte_limit_is;
      }

  -- A script is refused with `Timeout` where its deadline is over; with `Backpressure` where its bytes
  -- do not fit the budget, or the critical lane is full and so is the bulk lane, if the script may go
  -- there; and with `Shutdown` only where a lane has no receiver any more. The pool is as it was then.
  -- Otherwise the task and its bytes are in the lanes. The pool is one that keeps its accounts, with lanes
  -- of some capacity.
  pub exec-IsDecided :
      (latest now later : ℕ) (req : ExecReq) (p : WorkerPool ch)
      → 0 < capacity
      → IsSound p
      → IsDecided
          (stopped later (new_control latest now req.timeout))
          (reserve_alone 1 (length req.script) p.script_budget)
          req
          p
          (exec ch latest now later req p)
  unfolding exec answer
  exec-IsDecided latest now later req p some_room s =
      let control = new_control latest now req.timeout in
      let n = length req.script in
      let t : ExecTask = record { priority = priority_of req.kind; req = req; control = control } in
      elim (Bool-cases (stopped later control)) [
        | inl late ↦ inl (rw (exec, late) refl, late)
        | inr early ↦ elim (Option-cases (reserve_alone 1 n p.script_budget)) [
          | inl f ↦ inr (inl (rw (exec, early, f) refl, early, inl f))
          | inr (b, f) ↦
              let back =
                reserve_alone-drop_alone p.script_budget b 1 n s.entry_limit_fits s.byte_limit_fits
                  f in
              let fits : reserve_alone 1 n p.script_budget ≢ none = λ e. cc (sym f ∙ e) in
              elim (try_send-IsTried ch capacity t p.queue some_room s.within) [
                | inl (q, h, a) ↦
                    let is : exec ch latest now later req p
                        ≡ (none, record p { queue = q; script_budget = b }) =
                      rw (exec, early, f) (ap (answer ch n b p) h) in
                    subst
                      (IsDecided (stopped later control) (reserve_alone 1 n p.script_budget) req p)
                      (sym is)
                      (inr (
                        inr (
                          inr (
                            early,
                            fits,
                            refl,
                            added-IsSound t q b p s f a,
                            a.one_more,
                            a.bytes_more,
                          ))))
                | inr (inl (h, lane)) ↦
                    let is = ap (answer ch n b p) h in
                    inr (inl (rw (exec, early, f) (is ∙ rw back refl), early, inr lane))
                | inr (inr (h, gone)) ↦
                    let is = ap (answer ch n b p) h in
                    inr (inr (inl (rw (exec, early, f) (is ∙ rw back refl), early, fits, gone)))
              ]
        ]
      ]

  exec-IsSound :
      (latest now later : ℕ) (req : ExecReq) (p : WorkerPool ch)
      → 0 < capacity
      → IsSound p
      → IsSound (exec ch latest now later req p).1
  exec-IsSound latest now later req p some_room s =
      elim (exec-IsDecided latest now later req p some_room s) [
        | inl (h, _) ↦ rw h s
        | inr (inl (h, _, _)) ↦ rw h s
        | inr (inr (inl (h, _, _, _))) ↦ rw h s
        | inr (inr (inr (_, _, _, sound, _, _))) ↦ sound
      ]

  taken-IsSound :
      (t : ExecTask) (q : ExecQueue ch) (p : WorkerPool ch)
      → IsSound p
      → IsTaken ch capacity t p.queue q
      → IsSound (record p { queue = q; running = t ∷ p.running })
  unfolding scripts
  taken-IsSound t q p s (within, fewer, less) = record {
    within = within;
    entries_sum = omega (arith, s.entries_sum, fewer);
    bytes_sum = omega (arith, s.bytes_sum, less);
    entries_fit = s.entries_fit;
    bytes_fit = s.bytes_fit;
    entry_limit_fits = s.entry_limit_fits;
    byte_limit_fits = s.byte_limit_fits;
    byte_limit_is = s.byte_limit_is;
  }

  receive-IsSound : (lane : Bool) (p : WorkerPool ch) → IsSound p → IsSound (receive ch lane p)
  unfolding receive recv
  receive-IsSound lane p s = elim (from_lane-cases ch capacity lane p.queue s.within) [
    | inr (t, q, h, taken) ↦ rw (receive, recv, h) (taken-IsSound t q p s taken)
    | inl h ↦ elim (from_lane-cases ch capacity (not lane) p.queue s.within) [
      | inr (t, q, h', taken) ↦ rw (receive, recv, h, h') (taken-IsSound t q p s taken)
      | inl h' ↦ rw (receive, recv, h, h') s
    ]
  ]

  finish-IsSound : (i : ℕ) (p : WorkerPool ch) → IsSound p → IsSound (finish ch i p)
  unfolding finish drop_alone
  finish-IsSound i p s = elim (Option-cases (task_at i p.running)) [
    | inl h ↦ rw (finish, h) s
    | inr (t, h) ↦
        let (one, all) = task_at-scripts i p.running t h in
        let b = p.script_budget in
        let fewer =
          wrapping_sub_lem b.entries 1 (omega (arith, s.entries_sum, one))
            (omega (arith, s.entries_fit, s.entry_limit_fits)) in
        let less =
          wrapping_sub_lem b.bytes (length t.req.script) (omega (arith, s.bytes_sum, all))
            (omega (arith, s.bytes_fit, s.byte_limit_fits)) in
        rw (finish, h)
          (record {
            within = s.within;
            entries_sum = omega (arith, fewer, one, s.entries_sum);
            bytes_sum = omega (arith, less, all, s.bytes_sum);
            entries_fit = omega (arith, fewer, s.entries_fit);
            bytes_fit = omega (arith, less, s.bytes_fit);
            entry_limit_fits = s.entry_limit_fits;
            byte_limit_fits = s.byte_limit_fits;
            byte_limit_is = s.byte_limit_is;
          })
  ]

  pub spawn-IsSound : script_bytes < 2 ^ 64 → IsSound (spawn_with_limits ch capacity script_bytes)
  unfolding spawn_with_limits exec_channel new scripts
  spawn-IsSound small =
      let critical = ch.items-bounded (capacity / 4 + 1) in
      let bulk = ch.items-bounded capacity in
      record {
        within = record {
          critical_cap = ch.cap-bounded (capacity / 4 + 1);
          bulk_cap = ch.cap-bounded capacity;
          critical_fits = rw critical (omega arith);
          bulk_fits = rw bulk (omega arith);
        };
        entries_sum = rw (critical, bulk) refl;
        bytes_sum = rw (critical, bulk) refl;
        entries_fit = omega arith;
        bytes_fit = omega arith;
        entry_limit_fits = omega arith;
        byte_limit_fits = omega arith;
        byte_limit_is = refl;
      }

  pub run-IsSound :
      (latest : ℕ) (ops : List Op) (p : WorkerPool ch)
      → 0 < capacity
      → IsSound p
      → IsSound (run ch latest ops p)
  unfolding run apply
  run-IsSound latest [] p some_room s = s
  run-IsSound latest (execs now later req ∷ ops) p some_room s =
      run-IsSound latest ops (exec ch latest now later req p).1 some_room
        (exec-IsSound latest now later req p some_room s)
  run-IsSound latest (recvs lane ∷ ops) p some_room s =
      run-IsSound latest ops (receive ch lane p) some_room (receive-IsSound lane p s)
  run-IsSound latest (finishes i ∷ ops) p some_room s =
      run-IsSound latest ops (finish ch i p) some_room (finish-IsSound i p s)

  -- Whatever scripts are asked for, received and finished, a new pool has at most its capacity of
  -- tasks in the bulk lane and a quarter of it and one in the critical lane, and the bytes reserved are
  -- those of the scripts in the lanes and with the workers, at most the bytes that were allowed.
  pub run-spawn_with_limits :
      (latest : ℕ) (ops : List Op)
      → 0 < capacity
      → 0 < script_bytes
      → script_bytes < 2 ^ 64
      → let p = run ch latest ops (spawn_with_limits ch capacity script_bytes) in
        IsWithin ch capacity p.queue
        × (p.script_budget.bytes ≡ queued_bytes ch capacity p.queue + scripts p.running)
        × (p.script_budget.bytes ≤ script_bytes)
  run-spawn_with_limits latest ops some_room some_bytes small =
      let s =
        run-IsSound latest ops (spawn_with_limits ch capacity script_bytes) some_room
          (spawn-IsSound small) in
      (s.within, s.bytes_sum, omega (arith, s.bytes_fit, s.byte_limit_is, some_bytes))
