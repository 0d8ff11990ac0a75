-- ===== src/Supervisor/Fleet/Batches.antt =====
-- A pump leaves the handles where they are.
use vpoiskaxroditeley.Prelude.{
  ℕ, zero, suc, ◌≡◌, refl, sym, ap, ◌∙◌, Option, some, List, [], ◌∷◌, length, get_elem?, set,
  Bool-cases, Option-cases, inl, inr,
}
use mathlib.Core.Option.{some-injective}
use vpoiskaxroditeley.RuntimeExec.Tails.{lookup}
use vpoiskaxroditeley.PayloadGen.Cursors.{RawEvent}
use vpoiskaxroditeley.PayloadGen.InputHub.{TabInput}
use vpoiskaxroditeley.Supervisor.Fleet.{FleetSlot, Fleet, slot_at, expire}
use vpoiskaxroditeley.Supervisor.Fleet.Pump.{
  Sessions, absorb_run, absorb_runs, is_due, flushed, flush, split_runs, tick_hubs, pump,
}
use vpoiskaxroditeley.Supervisor.Fleet.Handles.{core, who_of, who_of-set, who_of-slot_at}

-- A write of what stands there changes nothing.
pub set_same : {A : Type 0} (l : List A) (i : ℕ) (x : A) → get_elem? l i ≡ some x → set l i x ≡ l
set_same [] i x h = refl
set_same (y ∷ l) zero x h = ap (λ z. z ∷ l) (sym (some-injective y x h))
set_same (y ∷ l) (suc i) x h = ap (λ m. y ∷ m) (set_same l i x h)

module _ {S : Type 0} where
  -- A slot that stays with its handle.
  pub who_of-same :
      (slots : List (Option (FleetSlot S))) (i : ℕ) (old slot : FleetSlot S)
      → slot_at i slots ≡ some old
      → slot.handle ≡ old.handle
      → who_of (set slots i (some slot)) ≡ who_of slots
  who_of-same slots i old slot at same =
      who_of-set slots i (some slot)
      ∙ set_same (who_of slots) i (some slot.handle)
          (who_of-slot_at slots i old at ∙ ap (λ k. some (some k)) (sym same))

  flush-who_of :
      (sessions : Sessions S) (now_us : ℕ) (hot : List ℕ) (slots : List (Option (FleetSlot S)))
      → who_of (flush sessions now_us hot slots).1.1 ≡ who_of slots
  unfolding flush flushed
  flush-who_of sessions now_us [] slots = refl
  flush-who_of sessions now_us (i ∷ hot) slots = elim (Option-cases (slot_at i slots)) [
    | inl e ↦ rw (flush, e) (flush-who_of sessions now_us hot slots)
    | inr (slot, e) ↦ elim (Bool-cases (is_due now_us slot)) [
      | inl d ↦
          let next = set slots i (some (flushed now_us slot)) in
          rw (flush, e, d)
            (flush-who_of sessions now_us hot next
              ∙ who_of-same slots i slot (flushed now_us slot) e refl)
      | inr d ↦ rw (flush, e, d) (flush-who_of sessions now_us hot slots)
    ]
  ]

module _ {S I : Type 0} where
  pub absorb_run-core :
      (tab : ℕ) (run : List RawEvent) (f : Fleet S I) → core (absorb_run tab run f) ≡ core f
  unfolding absorb_run
  absorb_run-core tab run f = elim (Option-cases (lookup tab f.tab_to_idx)) [
    | inl e ↦ rw (absorb_run, e) refl
    | inr (i, e) ↦ elim (Option-cases (slot_at i f.slots)) [
      | inl a ↦ rw (absorb_run, e, a) refl
      | inr (slot, a) ↦
          rw (absorb_run, e, a)
            (ap (λ w. (w, (f.free, (f.handles, (f.live, f.next_handle)))))
              (who_of-same f.slots i slot _ a refl))
    ]
  ]

  pub absorb_runs-core :
      (runs : List (ℕ × List RawEvent)) (f : Fleet S I) → core (absorb_runs runs f) ≡ core f
  unfolding absorb_runs
  absorb_runs-core [] f = refl
  absorb_runs-core ((tab, run) ∷ runs) f =
      absorb_runs-core runs (absorb_run tab run f) ∙ absorb_run-core tab run f

  -- the fleet in which the hubs have had their ticks, and the runs of their events
  abbrev pub ticked : TabInput I → ℕ → Fleet S I → Fleet S I
  ticked kind now_us f = record f {
    hubs = (tick_hubs kind f.calibs now_us (length f.hubs) 0 f.hubs).1;
  }

  abbrev pub runs_of : TabInput I → ℕ → Fleet S I → List (ℕ × List RawEvent)
  runs_of kind now_us f = split_runs (tick_hubs kind f.calibs now_us (length f.hubs) 0 f.hubs).0

  pub pump-core :
      (kind : TabInput I) (sessions : Sessions S) (now now_us : ℕ) (f : Fleet S I)
      → core (pump kind sessions now now_us f).1 ≡ core (expire now f).1
  unfolding pump
  pump-core kind sessions now now_us f0 =
      let f = (expire now f0).1 in
      let g = absorb_runs (runs_of kind now_us f) (ticked kind now_us f) in
      ap (λ w. (w, (g.free, (g.handles, (g.live, g.next_handle)))))
        (flush-who_of sessions now_us g.hot g.slots)
      ∙ absorb_runs-core (runs_of kind now_us f) (ticked kind now_us f)
