-- ===== src/RuntimeExec/Timer/Queue.antt =====
-- The count of live timers, over every operation on the queue.
use vpoiskaxroditeley.Prelude.{
  ℕ, ◌≤◌, ◌<◌, ◌≡◌, refl, ap, subst, Bool, true, false, ◌&&◌, not, none, some, List, [], ◌∷◌, ◌==◌,
  ltb, leb, if◌then◌else◌, length, arith, Bool-cases, Option-cases, inl, inr, if_both,
}
use vpoiskaxroditeley.CoreUtils.Numbers.{bump_u32_id}
use vpoiskaxroditeley.RuntimeExec.Tails.{
  lookup, insert, IsDistinct, insert-IsDistinct, remove-IsDistinct, remove_absent,
  length-remove_lem, lookup-remove_self,
}
use vpoiskaxroditeley.RuntimeExec.Timer.{
  timer_cap, TimerKey, TimerState, cleared, push_timer, schedule, unschedule, next_due, take_due,
  rearm, saturating_add,
}

module _ {Tail : Type 0} where
  -- The counter is the number of callbacks, no two of one timer, and there are at most `timer_cap`.
  abbrev pub IsCounted : TimerState Tail → Type 0
  IsCounted q = IsDistinct q.tails × (q.live ≡ length q.tails) × (q.live ≤ timer_cap)

  -- Pushing a timer whose identifier no timer has keeps the count, at the cap too.
  pub push_timer-IsCounted :
      (due_us id interval_us : ℕ) (tail : Tail) (q : TimerState Tail)
      → lookup id q.tails ≡ none
      → IsCounted q
      → IsCounted (push_timer due_us id interval_us tail q)
  unfolding push_timer insert
  push_timer-IsCounted due_us id interval_us tail q new (d, e, few) =
      elim (Bool-cases (leb timer_cap q.live)) [
        | inl f ↦ rw (push_timer, f) (d, e, few)
        | inr f ↦
            let same = remove_absent id q.tails new in
            rw (push_timer, f)
              (insert-IsDistinct id tail q.tails d, rw (same, e) (omega arith), ground arith)
      ]

  pub unschedule-IsCounted :
      (id : ℕ) (q : TimerState Tail) → IsCounted q → IsCounted (unschedule id q)
  unfolding unschedule
  unschedule-IsCounted id q (d, e, few) = elim (Option-cases (lookup id q.tails)) [
    | inl f ↦ rw (unschedule, f) (d, e, few)
    | inr (v, f) ↦
        let fewer = length-remove_lem id q.tails d f in
        rw (unschedule, f) (remove-IsDistinct id q.tails d, omega arith, omega arith)
  ]

  next_due-lookup :
      (now_us : ℕ) (tails : List (ℕ × Tail)) (l : List TimerKey) (k : TimerKey) (tail : Tail)
      → (next_due now_us tails l).0 ≡ some (k, tail)
      → (lookup k.id tails ≡ some tail) × (k.due_us ≤ now_us)
  unfolding next_due
  next_due-lookup now_us tails [] k tail h = cc
  next_due-lookup now_us tails (j ∷ l) k tail h = elim (Bool-cases (ltb now_us j.due_us)) [
    | inl e ↦ absurd (cc (rw e at h))
    | inr e ↦ elim (Option-cases (lookup j.id tails)) [
      | inl f ↦ next_due-lookup now_us tails l k tail (rw (e, f) at h)
      | inr (v, f) ↦
          let g = rw (e, f) at h in
          let same : (j, v) ≡ (k, tail) =
            ap (λ o. elim o as (λ _. TimerKey × Tail) [ some p ↦ p | none ↦ (j, v) ]) g in
          let due : j.due_us ≤ now_us = ground arith in
          subst (λ p. (lookup p.0.id tails ≡ some p.1) × (p.0.due_us ≤ now_us)) same (f, due)
    ]
  ]

  pub take_due-IsCounted :
      (now_us : ℕ) (q : TimerState Tail) → IsCounted q → IsCounted (take_due now_us q).1
  unfolding take_due
  take_due-IsCounted now_us q (d, e, few) = elim (Option-cases (next_due now_us q.tails q.heap).0) [
    | inl f ↦ rw (take_due, f) (d, e, few)
    | inr ((k, tail), f) ↦
        let fewer =
          length-remove_lem k.id q.tails d (next_due-lookup now_us q.tails q.heap k tail f).0 in
        rw (take_due, f) (remove-IsDistinct k.id q.tails d, omega arith, omega arith)
  ]

  -- What the rest of the program does with the queue, one call at a time. A new identifier is one that
  -- no timer has: the counter of identifiers starts again only after 2^32 - 1 of them.
  pub data Step : TimerState Tail → TimerState Tail → Type 0 where
    clearing : {q : TimerState Tail} → Step q cleared
    scheduling :
        (now_us delay_us : ℕ) (interval : Bool) (tail : Tail) {q : TimerState Tail}
        → lookup q.next_id q.tails ≡ none
        → Step q (schedule now_us delay_us interval tail q).1
    unscheduling : (id : ℕ) {q : TimerState Tail} → Step q (unschedule id q)
    taking : (now_us : ℕ) {q : TimerState Tail} → Step q (take_due now_us q).1
    rearming :
        (now_us : ℕ) (alive : Bool) (key : TimerKey) (task : Tail) {q : TimerState Tail}
        → lookup key.id q.tails ≡ none
        → Step q (rearm now_us alive key task q)

  -- Through every call on the queue the counter of live timers stays the number of callbacks that are
  -- held, each for another timer, and never passes the cap, if a new timer's identifier is not in use.
  pub Step-IsCounted : {q r : TimerState Tail} → Step q r → IsCounted q → IsCounted r
  unfolding cleared schedule rearm
  Step-IsCounted clearing h = (tt, refl, omega arith)
  Step-IsCounted (scheduling now_us delay_us interval tail {q = q} new) h =
      push_timer-IsCounted (saturating_add now_us delay_us) q.next_id
        (if interval then delay_us else 0) tail (record q { next_id = bump_u32_id q.next_id }) new h
  Step-IsCounted (unscheduling id {q = q}) h = unschedule-IsCounted id q h
  Step-IsCounted (taking now_us {q = q}) h = take_due-IsCounted now_us q h
  Step-IsCounted (rearming now_us alive key task {q = q} new) h =
      if_both IsCounted (not (key.interval_us == 0) && alive)
        (push_timer-IsCounted (saturating_add now_us key.interval_us) key.id key.interval_us task q
          new h)
        h

  unschedule_absent :
      (id : ℕ) (q : TimerState Tail) → lookup id q.tails ≡ none → unschedule id q ≡ q
  unfolding unschedule
  unschedule_absent id q h = rw (unschedule, h) refl

  take_due-absent :
      (now_us : ℕ) (q : TimerState Tail) (k : TimerKey) (tail : Tail)
      → (take_due now_us q).0 ≡ some (k, tail)
      → lookup k.id (take_due now_us q).1.tails ≡ none
  unfolding take_due
  take_due-absent now_us q k tail h = elim (Option-cases (next_due now_us q.tails q.heap).0) [
    | inl f ↦ absurd (cc (rw (take_due, f) at h))
    | inr ((j, v), f) ↦
        let g = rw (take_due, f) at h in
        let same : (j, v) ≡ (k, tail) =
          ap (λ o. elim o as (λ _. TimerKey × Tail) [ some p ↦ p | none ↦ (j, v) ]) g in
        let ids : j.id ≡ k.id = ap (λ p. p.0.id) same in
        rw (take_due, f, ← ids) (lookup-remove_self j.id q.tails)
  ]

  push_timer-lookup :
      (due_us id interval_us : ℕ) (tail : Tail) (q : TimerState Tail)
      → q.live < timer_cap
      → lookup id (push_timer due_us id interval_us tail q).tails ≡ some tail
  unfolding push_timer insert lookup
  push_timer-lookup due_us id interval_us tail q room =
      let below : leb timer_cap q.live ≡ false = ground arith in
      let same : (id == id) ≡ true = ground arith in rw (push_timer, below, same) refl

  -- Cancelling an interval from its own callback does not stop it: when the loop has taken the timer to
  -- fire it, cancelling it changes nothing, and if the callback ends well and there is room for it the
  -- queue then holds it again.
  pub rearm-unschedule :
      (now_us later_us : ℕ) (q : TimerState Tail) (k : TimerKey) (tail : Tail)
      → (take_due now_us q).0 ≡ some (k, tail)
      → (k.interval_us == 0) ≡ false
      → (take_due now_us q).1.live < timer_cap
      → (unschedule k.id (take_due now_us q).1 ≡ (take_due now_us q).1)
        × (lookup k.id (rearm later_us true k tail (unschedule k.id (take_due now_us q).1)).tails
            ≡ some tail)
  unfolding rearm
  rearm-unschedule now_us later_us q k tail h repeats room =
      let kept = unschedule_absent k.id (take_due now_us q).1 (take_due-absent now_us q k tail h) in
      (
        kept,
        rw (kept, repeats)
            (push_timer-lookup (saturating_add later_us k.interval_us) k.id k.interval_us tail
              (take_due now_us q).1 room),
      )
