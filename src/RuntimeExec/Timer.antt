-- ===== src/RuntimeExec/Timer.antt =====
-- crates/runtime-exec/src/timer.rs: the queue of timers and that of animation frames. The clock, in
-- microseconds, is an argument; `Tail` is a callback with its arguments.
pub mod Queue
pub mod Order
use vpoiskaxroditeley.Prelude.{
  ℕ, zero, suc, ◌+◌, ◌-◌, ◌*◌, ◌/◌, ◌%◌, ◌^◌, Bool, true, false, ◌&&◌, ◌||◌, not, Option, none,
  some, List, [], ◌∷◌, ◌++◌, ◌==◌, ltb, leb, if◌then◌else◌, length, min, is_some,
}
use vpoiskaxroditeley.Str.{is_empty}
use vpoiskaxroditeley.CoreUtils.Numbers.{bump_u32_id}
use vpoiskaxroditeley.CoreUtils.Rng.{mix_to_range}
use vpoiskaxroditeley.RuntimeExec.Tails.{lookup, remove, insert}

abbrev pub timer_cap : ℕ
timer_cap = 4096

abbrev pub raf_cap : ℕ
raf_cap = 128

abbrev pub raf_jitter_frac : ℕ
raf_jitter_frac = 50

pub record TimerKey : Type 0 where
  pub due_us : ℕ
  pub seq : ℕ
  pub id : ℕ
  pub interval_us : ℕ

-- `Ord for TimerKey`, turned round: the greatest of the heap is the earliest, then the oldest.
unfoldable pub fires_before : TimerKey → TimerKey → Bool
fires_before a b = ltb a.due_us b.due_us || a.due_us == b.due_us && leb a.seq b.seq

-- The binary heap is the list of its keys in the order in which it gives them.
unfoldable pub push_key : TimerKey → List TimerKey → List TimerKey
push_key k [] = k ∷ []
push_key k (j ∷ l) = let rest = push_key k l in if fires_before k j then k ∷ (j ∷ l) else j ∷ rest

unfoldable pub retain_keys : (TimerKey → Bool) → List TimerKey → List TimerKey
retain_keys p [] = []
retain_keys p (k ∷ l) = let rest = retain_keys p l in if p k then k ∷ rest else rest

abbrev pub saturating_add : ℕ → ℕ → ℕ
saturating_add a b = min (a + b) (2 ^ 64 - 1)

-- the microseconds of a frame, in a pattern of three for 60 and 120 Hz; a rate of 0 would be a panic
unfoldable pub frame_cadence_us : ℕ → ℕ → ℕ
frame_cadence_us display_hz slot =
    if display_hz == 60
    then (if slot % 3 == 2 then 16_000 else 17_000)
    else if display_hz == 120
    then (if slot % 3 == 2 then 8_334 else 8_333)
    else 1_000_000 / display_hz

unfoldable pub raf_frame_interval_us : ℕ → ℕ → ℕ → ℕ
unfolding frame_cadence_us mix_to_range
raf_frame_interval_us cadence seed display_hz =
    let base = frame_cadence_us display_hz cadence in
    base + mix_to_range seed cadence (base / raf_jitter_frac + 1)

pub record TimerState (Tail : Type 0) : Type 0 where
  pub next_id : ℕ
  pub seq : ℕ
  pub live : ℕ
  pub heap : List TimerKey
  pub tails : List (ℕ × Tail)

pub record RafState (Tail : Type 0) : Type 0 where
  pub frame_us : ℕ
  pub cadence : ℕ
  pub seed : ℕ
  pub cbs : List (ℕ × Tail)
  pub next_id : ℕ
  pub display_hz : ℕ

module _ {Tail : Type 0} where
  -- `clear_all` on the timers, and the initial state
  unfoldable pub cleared : TimerState Tail
  cleared = record { next_id = 1; seq = 0; live = 0; heap = []; tails = [] }

  -- when the heap is full, keys whose timer was cancelled are dropped
  unfoldable pub compacted : TimerState Tail → List TimerKey
  unfolding retain_keys
  compacted q =
      if leb timer_cap (length q.heap)
      then retain_keys (λ k. is_some (lookup k.id q.tails)) q.heap
      else q.heap

  unfoldable pub push_timer : ℕ → ℕ → ℕ → Tail → TimerState Tail → TimerState Tail
  unfolding compacted push_key insert
  push_timer due_us id interval_us tail q =
      if leb timer_cap q.live
      then q
      else (let seq = (q.seq + 1) % 2 ^ 64 in
          let key : TimerKey = record {
            due_us = due_us;
            seq = seq;
            id = id;
            interval_us = interval_us;
          } in
          record q {
            seq = seq;
            live = q.live + 1;
            heap = push_key key (compacted q);
            tails = insert id tail q.tails;
          })

  -- The delay is in microseconds, what `schedule` makes of its float: from 1 to 3,600,000.
  unfoldable pub schedule : ℕ → ℕ → Bool → Tail → TimerState Tail → ℕ × TimerState Tail
  unfolding push_timer bump_u32_id
  schedule now_us delay_us interval tail q =
      let id = q.next_id in
      (
        id,
        push_timer (saturating_add now_us delay_us) id (if interval then delay_us else 0) tail
            (record q { next_id = bump_u32_id q.next_id }),
      )

  -- a valid identifier, already converted from its float
  unfoldable pub unschedule : ℕ → TimerState Tail → TimerState Tail
  unfolding remove
  unschedule id q =
      if is_some (lookup id q.tails)
      then record q { live = q.live - 1; tails = remove id q.tails }
      else q

  -- The inner loop of `run_loop`: the first due key whose timer is there; cancelled keys are dropped.
  unfoldable pub next_due :
      ℕ → List (ℕ × Tail) → List TimerKey → Option (TimerKey × Tail) × List TimerKey
  next_due now_us tails [] = (none, [])
  next_due now_us tails (k ∷ l) =
      let rest = next_due now_us tails l in
      if ltb now_us k.due_us
      then (none, k ∷ l)
      else elim (lookup k.id tails) [ some tail ↦ (some (k, tail), l) | none ↦ rest ]

  unfoldable pub take_due : ℕ → TimerState Tail → Option (TimerKey × Tail) × TimerState Tail
  unfolding next_due remove
  take_due now_us q =
      let (task, heap) = next_due now_us q.tails q.heap in
      elim task [
        | none ↦ (none, record q { heap = heap })
        | some (k, tail) ↦ (
          some (k, tail),
          record q { live = q.live - 1; heap = heap; tails = remove k.id q.tails },
        )
      ]

  -- The end of a round of `run_loop`, after the callback has run: an interval is armed again.
  unfoldable pub rearm : ℕ → Bool → TimerKey → Tail → TimerState Tail → TimerState Tail
  unfolding push_timer
  rearm now_us alive key task q =
      if not (key.interval_us == 0) && alive
      then push_timer (saturating_add now_us key.interval_us) key.id key.interval_us task q
      else q

  -- `clear_all` on the frames; the display's rate stays
  unfoldable pub raf_cleared : RafState Tail → RafState Tail
  raf_cleared r = record r { frame_us = 0; cadence = 0; seed = 0; cbs = []; next_id = 1 }

  unfoldable pub raf_schedule : ℕ → ℕ → ℕ → Tail → RafState Tail → ℕ × RafState Tail
  unfolding frame_cadence_us bump_u32_id
  raf_schedule now_us seed hz cb r =
      let id = r.next_id in
      let r = record r { next_id = bump_u32_id r.next_id } in
      let r =
        if r.frame_us == 0
        then record r {
          seed = seed;
          display_hz = hz;
          frame_us = saturating_add now_us (frame_cadence_us hz 0);
        }
        else r in
      (id, if ltb (length r.cbs) raf_cap then record r { cbs = r.cbs ++ (id, cb) ∷ [] } else r)

  unfoldable pub without : ℕ → List (ℕ × Tail) → List (ℕ × Tail)
  without id [] = []
  without id ((i, cb) ∷ l) = let rest = without id l in if i == id then rest else (i, cb) ∷ rest

  unfoldable pub raf_cancel : ℕ → RafState Tail → RafState Tail
  unfolding without
  raf_cancel id r = record r { cbs = without id r.cbs }

  -- Whether `fire_raf_batch` fires, and the batch that it takes out of the queue.
  unfoldable pub take_batch : ℕ → RafState Tail → Option (ℕ × List (ℕ × Tail)) × RafState Tail
  unfolding raf_frame_interval_us
  take_batch now_us r =
      if not (is_empty r.cbs) && leb r.frame_us now_us
      then (
        some (raf_frame_interval_us r.cadence r.seed r.display_hz, r.cbs),
        record r { cadence = (r.cadence + 1) % 2 ^ 32; cbs = [] },
      )
      else (none, r)
