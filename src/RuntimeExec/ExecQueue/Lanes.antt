-- ===== src/RuntimeExec/ExecQueue/Lanes.antt =====
-- The two lanes of the queue: each task that is sent is in one of them, and each within its capacity.
use vpoiskaxroditeley.Prelude.{
  ℕ, suc, ◌+◌, ◌/◌, ◌≤◌, ◌<◌, ◌≡◌, refl, ◌∙◌, ap, Bool, true, false, Option, none, some, List, [],
  ◌∷◌, ◌++◌, length, length-append, leb, arith, Option-cases, Bool-cases, ◌⊎◌, inl, inr,
}
use vpoiskaxroditeley.RuntimeExec.ExecQueue.{
  ExecTask, Channels, Sending, sent, chan_full, chan_disconnected, TrySendError, full, disconnected,
  ExecQueue, to_critical, try_send, from_lane,
}

-- the bytes of the scripts of tasks
unfoldable pub scripts : List ExecTask → ℕ
scripts [] = 0
scripts (t ∷ l) = length t.req.script + scripts l

scripts-append : (l m : List ExecTask) → scripts (l ++ m) ≡ scripts l + scripts m
unfolding scripts
scripts-append [] m = omega arith
scripts-append (t ∷ l) m = omega (arith, scripts-append l m)

Sending-cases :
    {C : Type 0} (r : Sending C)
    → ((c : C) × (r ≡ sent c)) ⊎ ((r ≡ chan_full) ⊎ (r ≡ chan_disconnected))
Sending-cases (sent c) = inl (c, refl)
Sending-cases chan_full = inr (inl refl)
Sending-cases chan_disconnected = inr (inr refl)

module _ (ch : Channels ExecTask) (capacity : ℕ) where
  abbrev pub queued : ExecQueue ch → ℕ
  queued q = length (ch.items q.critical) + length (ch.items q.bulk)

  abbrev pub queued_bytes : ExecQueue ch → ℕ
  queued_bytes q = scripts (ch.items q.critical) + scripts (ch.items q.bulk)

  -- Each lane has the capacity that it was made with, and no more tasks.
  pub record IsWithin (q : ExecQueue ch) : Type 0 where
    pub critical_cap : ch.cap q.critical ≡ capacity / 4 + 1
    pub bulk_cap : ch.cap q.bulk ≡ capacity
    pub critical_fits : length (ch.items q.critical) ≤ capacity / 4 + 1
    pub bulk_fits : length (ch.items q.bulk) ≤ capacity

  -- a queue with one task more
  pub record IsAdded (t : ExecTask) (q q' : ExecQueue ch) : Type 0 where
    pub within : IsWithin q'
    pub one_more : queued q' ≡ suc (queued q)
    pub bytes_more : queued_bytes q' ≡ length t.req.script + queued_bytes q

  -- One of the lanes has no receiver any more.
  abbrev pub IsDisconnected : ExecQueue ch → Type 0
  IsDisconnected q = (ch.is_disconnected q.critical ≡ true) ⊎ (ch.is_disconnected q.bulk ≡ true)

  -- Both lanes are full that a task of a priority may go to.
  abbrev pub IsFull : ℕ → ExecQueue ch → Type 0
  IsFull priority q =
      (length (ch.items q.critical) ≡ capacity / 4 + 1)
      × ((priority ≤ 1) ⊎ (length (ch.items q.bulk) ≡ capacity))

  -- The task is in; or the queue is as it was, and was full or disconnected.
  abbrev pub IsTried : ExecTask → ExecQueue ch → Option TrySendError × ExecQueue ch → Type 0
  IsTried t q r =
      ((q' : ExecQueue ch) × (r ≡ (none, q')) × IsAdded t q q')
      ⊎ (((r ≡ (some full, q)) × IsFull t.priority q)
          ⊎ ((r ≡ (some disconnected, q)) × IsDisconnected q))

  to_critical-IsTried :
      (t : ExecTask) (q : ExecQueue ch)
      → IsWithin q
      → (t.priority ≤ 1) ⊎ (length (ch.items q.bulk) ≡ capacity)
      → IsTried t q (to_critical ch t q)
  unfolding to_critical scripts
  to_critical-IsTried t q w not_bulk = elim (Sending-cases (ch.try_send t q.critical)) [
    | inl (c, h) ↦
        let (is, same, few) = ch.try_send_sent t q.critical c (omega (arith, w.critical_cap)) h in
        let longer = length-append (ch.items q.critical) (t ∷ []) in
        let more = scripts-append (ch.items q.critical) (t ∷ []) in
        inl (
          record q { critical = c },
          rw (to_critical, h) refl,
          record {
            within = record {
              critical_cap = same ∙ w.critical_cap;
              bulk_cap = w.bulk_cap;
              critical_fits = rw is (omega (arith, longer, few, w.critical_cap));
              bulk_fits = w.bulk_fits;
            };
            one_more = rw is (omega (arith, longer));
            bytes_more = rw is (omega (arith, more));
          },
        )
    | inr (inl h) ↦ inr (
        inl (
          rw (to_critical, h) refl,
          (
            omega (arith, ch.try_send_full t q.critical h, w.critical_cap, w.critical_fits),
            not_bulk,
          ),
        ))
    | inr (inr h) ↦
        inr (inr (rw (to_critical, h) refl, inl (ch.try_send_disconnected t q.critical h)))
  ]

  pub try_send-IsTried :
      (t : ExecTask) (q : ExecQueue ch) → 0 < capacity → IsWithin q → IsTried t q (try_send ch t q)
  unfolding try_send scripts
  try_send-IsTried t q some_room w = elim (Bool-cases (leb t.priority 1)) [
    | inl first ↦ rw (try_send, first) (to_critical-IsTried t q w (inl (ground arith)))
    | inr later ↦ elim (Sending-cases (ch.try_send t q.bulk)) [
      | inl (c, h) ↦
          let (is, same, few) = ch.try_send_sent t q.bulk c (omega (arith, w.bulk_cap)) h in
          let longer = length-append (ch.items q.bulk) (t ∷ []) in
          let more = scripts-append (ch.items q.bulk) (t ∷ []) in
          inl (
            record q { bulk = c },
            rw (try_send, later, h) refl,
            record {
              within = record {
                critical_cap = w.critical_cap;
                bulk_cap = same ∙ w.bulk_cap;
                critical_fits = w.critical_fits;
                bulk_fits = rw is (omega (arith, longer, few, w.bulk_cap));
              };
              one_more = rw is (omega (arith, longer));
              bytes_more = rw is (omega (arith, more));
            },
          )
      | inr (inl h) ↦
          let bulk_full : length (ch.items q.bulk) ≡ capacity =
            omega (arith, ch.try_send_full t q.bulk h, w.bulk_cap, w.bulk_fits) in
          rw (try_send, later, h) (to_critical-IsTried t q w (inr bulk_full))
      | inr (inr h) ↦
          inr (inr (rw (try_send, later, h) refl, inr (ch.try_send_disconnected t q.bulk h)))
    ]
  ]

  -- A task was taken out of a lane.
  abbrev pub IsTaken : ExecTask → ExecQueue ch → ExecQueue ch → Type 0
  IsTaken t q q' =
      IsWithin q'
      × (queued q ≡ suc (queued q'))
      × (queued_bytes q ≡ length t.req.script + queued_bytes q')

  pub from_lane-cases :
      (lane : Bool) (q : ExecQueue ch)
      → IsWithin q
      → (from_lane ch lane q ≡ none)
        ⊎ ((t : ExecTask) × (q' : ExecQueue ch) × (from_lane ch lane q ≡ some (t, q'))
            × IsTaken t q q')
  unfolding scripts
  from_lane-cases true q w = elim (Option-cases (ch.take q.critical)) [
    | inl h ↦ inl (rw (from_lane, h) refl)
    | inr ((t, c), h) ↦
        let (is, same) = ch.take_some t q.critical c h in
        let shorter = ap length is in
        let less = ap scripts is in
        inr (
          t,
          record q { critical = c },
          rw (from_lane, h) refl,
          (
            record {
              critical_cap = same ∙ w.critical_cap;
              bulk_cap = w.bulk_cap;
              critical_fits = omega (arith, shorter, w.critical_fits);
              bulk_fits = w.bulk_fits;
            },
            omega (arith, shorter),
            omega (arith, less),
          ),
        )
  ]
  from_lane-cases false q w = elim (Option-cases (ch.take q.bulk)) [
    | inl h ↦ inl (rw (from_lane, h) refl)
    | inr ((t, c), h) ↦
        let (is, same) = ch.take_some t q.bulk c h in
        let shorter = ap length is in
        let less = ap scripts is in
        inr (
          t,
          record q { bulk = c },
          rw (from_lane, h) refl,
          (
            record {
              critical_cap = w.critical_cap;
              bulk_cap = same ∙ w.bulk_cap;
              critical_fits = w.critical_fits;
              bulk_fits = omega (arith, shorter, w.bulk_fits);
            },
            omega (arith, shorter),
            omega (arith, less),
          ),
        )
  ]
