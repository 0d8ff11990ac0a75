-- ===== src/Supervisor/Fleet/Sent.antt =====
-- The events that a pump takes and the batches that it makes of them.
use vpoiskaxroditeley.Prelude.{
  ℕ, ◌+◌, ◌%◌, ◌^◌, ◌≡◌, ◌≢◌, refl, sym, ap, ap₂, ◌∙◌, subst, false, none, some, List, [], ◌∷◌,
  ◌++◌, ◌==◌, ==_iff, if◌then◌else◌, length, get_elem?, set, All, Bool-cases, Option-cases, inl,
  inr, append_assoc, append-nil,
}
use mathlib.Core.Option.{some-injective}
use vpoiskaxroditeley.RuntimeExec.Tails.{lookup}
use vpoiskaxroditeley.PayloadGen.Cursors.{RawEvent}
use vpoiskaxroditeley.PayloadGen.Batcher.{feed}
use vpoiskaxroditeley.PayloadGen.InputHub.{TabInput}
use vpoiskaxroditeley.Supervisor.Fleet.{FleetSlot, Fleet, slot_at, expire}
use vpoiskaxroditeley.Supervisor.Fleet.Pump.{
  Sessions, absorb_run, absorb_runs, flush, split_runs, tick_hubs, pump,
}
use vpoiskaxroditeley.Supervisor.Fleet.Handles.{who_of, slot_at-who_of, expire-IsSound}
use vpoiskaxroditeley.Supervisor.Fleet.Batches.{absorb_run-core, absorb_runs-core}
use vpoiskaxroditeley.Supervisor.Fleet.Reached.{IsReached, IsReached-IsSound}
use vpoiskaxroditeley.Supervisor.Fleet.Flushed.{
  Alone, IsJob, events_for, flush-IsJob, held, held-flush, held_at, leads, run_events,
  run_events-split_runs, sent_to, slot_at-set_ne, slot_at-set_self,
}

module _ {S I : Type 0} where
  -- A run waits at its place behind what waits there.
  held-absorb_run :
      (tab : ℕ) (run : List RawEvent) (h i : ℕ) (f : Fleet S I)
      → get_elem? (who_of f.slots) i ≡ some (some h)
      → held i (absorb_run tab run f).slots
        ≡ held i f.slots ++ (if leads f.tab_to_idx i tab then run else [])
  unfolding absorb_run
  held-absorb_run tab run h i f mine = elim (Option-cases (lookup tab f.tab_to_idx)) [
    | inl e ↦ rw (absorb_run, leads, e) (sym (append-nil (held i f.slots)))
    | inr (k, e) ↦ elim (Option-cases (slot_at k f.slots)) [
      | inl a ↦
          let apart : (k == i) ≡ false = elim (Bool-cases (k == i)) [
            | inl t ↦
                let (slot, (at, _)) = slot_at-who_of f.slots i h mine in
                cc (sym a ∙ ap (λ v. slot_at v f.slots) ((==_iff k i).0 t) ∙ at)
            | inr t ↦ t
          ] in
          rw (absorb_run, leads, e, a, apart) (sym (append-nil (held i f.slots)))
      | inr (slot, a) ↦
          let full : FleetSlot S = record slot {
            scratch = slot.scratch ++ run;
            events_total = (slot.events_total + length run) % 2 ^ 64;
            batcher = feed (length run) slot.batcher;
          } in
          elim (Bool-cases (k == i)) [
            | inl t ↦
                let is = (==_iff k i).0 t in
                let put = slot_at-set_self f.slots k slot full a in
                rw (absorb_run, leads, e, a, t)
                  (held_at (set f.slots k (some full)) i full
                      (subst (λ v. slot_at v (set f.slots k (some full)) ≡ some full) is put)
                    ∙ ap (λ r. r ++ run)
                        (sym (
                          held_at f.slots i slot
                            (subst (λ v. slot_at v f.slots ≡ some slot) is a))))
            | inr t ↦
                let apart : k ≢ i = λ z. cc (sym t ∙ (==_iff k i).1 z) in
                rw (absorb_run, leads, e, a, t)
                  (ap (λ o. elim o [ none ↦ [] | some s ↦ s.scratch ])
                      (slot_at-set_ne f.slots i k (some full) apart)
                    ∙ sym (append-nil (held i f.slots)))
          ]
    ]
  ]

  absorb_run-tab_to_idx :
      (tab : ℕ) (run : List RawEvent) (f : Fleet S I)
      → (absorb_run tab run f).tab_to_idx ≡ f.tab_to_idx
  unfolding absorb_run
  absorb_run-tab_to_idx tab run f = elim (Option-cases (lookup tab f.tab_to_idx)) [
    | inl e ↦ rw (absorb_run, e) refl
    | inr (i, e) ↦ elim (Option-cases (slot_at i f.slots)) [
      | inl a ↦ rw (absorb_run, e, a) refl
      | inr (slot, a) ↦ rw (absorb_run, e, a) refl
    ]
  ]

  -- what a run leaves where it is
  absorb_run-same :
      (tab : ℕ) (run : List RawEvent) (f : Fleet S I)
      → ((absorb_run tab run f).tab_to_idx ≡ f.tab_to_idx)
        × (who_of (absorb_run tab run f).slots ≡ who_of f.slots)
  absorb_run-same tab run f =
      (absorb_run-tab_to_idx tab run f, ap (λ c. c.0) (absorb_run-core tab run f))

  held-absorb_runs :
      (runs : List (ℕ × List RawEvent)) (h i : ℕ) (f : Fleet S I)
      → get_elem? (who_of f.slots) i ≡ some (some h)
      → held i (absorb_runs runs f).slots ≡ held i f.slots ++ run_events f.tab_to_idx i runs
  unfolding absorb_runs run_events
  held-absorb_runs [] h i f mine = sym (append-nil (held i f.slots))
  held-absorb_runs ((tab, run) ∷ runs) h i f mine =
      let g = absorb_run tab run f in
      let (tabs, who) = absorb_run-same tab run f in
      held-absorb_runs runs h i g (ap (λ w. get_elem? w i) who ∙ mine)
      ∙ ap₂ (λ r m. r ++ run_events m i runs) (held-absorb_run tab run h i f mine) tabs
      ∙ append_assoc (held i f.slots) (if leads f.tab_to_idx i tab then run else [])
          (run_events f.tab_to_idx i runs)

  -- the hubs have their ticks: the events of all tabs
  abbrev pub ticked_events : TabInput I → ℕ → Fleet S I → List (ℕ × RawEvent)
  ticked_events kind now_us f = (tick_hubs kind f.calibs now_us (length f.hubs) 0 f.hubs).0

  -- A pump of a fleet that is reached loses no event, makes none up and sends none twice: the events in
  -- the jobs of a handle, one job after another, and then those that wait in its slot afterwards are
  -- those that waited in the slot and then those that the ticks of the hubs made for its tabs, in their
  -- order. Every job counts its events and is for a handle that the fleet has. The fleet is the one after
  -- the expired slots were retired, whose events go with them.
  pub waiting-pump :
      (kind : TabInput I) (sessions : Sessions S) (now now_us h i : ℕ) {f : Fleet S I}
      → IsReached kind sessions f
      → lookup h (expire now f).1.handles ≡ some i
      → let e = (expire now f).1 in
        let r = pump kind sessions now now_us f in
        (sent_to h r.0 ++ held i r.1.slots
          ≡ held i e.slots ++ events_for e.tab_to_idx i (ticked_events kind now_us e))
        × All (IsJob (who_of e.slots)) r.0
  unfolding pump
  waiting-pump kind sessions now now_us h i {f = f0} reached there =
      let f = (expire now f0).1 in
      let s = expire-IsSound now f0 (IsReached-IsSound kind sessions reached) in
      let evs = ticked_events kind now_us f in
      let f' : Fleet S I = record f {
        hubs = (tick_hubs kind f.calibs now_us (length f.hubs) 0 f.hubs).1;
      } in
      let g = absorb_runs (split_runs evs) f' in
      let mine = s.mapped.leads h i there in
      let who : who_of g.slots ≡ who_of f.slots =
        ap (λ c. c.0) (absorb_runs-core (split_runs evs) f') in
      let alone : Alone h i g.slots = λ j m.
        some-injective j i
          (sym (s.mapped.led_to h j (ap (λ w. get_elem? w j) (sym who) ∙ m)) ∙ there) in
      (
        held-flush sessions now_us h i g.hot g.slots alone (ap (λ w. get_elem? w i) who ∙ mine)
            ∙ held-absorb_runs (split_runs evs) h i f' mine
            ∙ ap (λ r. held i f.slots ++ r) (run_events-split_runs f.tab_to_idx i evs),
        subst (λ w. All (IsJob w) (flush sessions now_us g.hot g.slots).0) who
            (flush-IsJob sessions now_us g.hot g.slots),
      )
