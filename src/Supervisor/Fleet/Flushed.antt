-- ===== src/Supervisor/Fleet/Flushed.antt =====
-- The batches that a pump makes of the events that wait.
use vpoiskaxroditeley.Prelude.{
  ℕ, zero, suc, ◌≡◌, ◌≢◌, refl, sym, ap, ◌∙◌, subst, Bool, true, false, Option, none, some, List,
  [], ◌∷◌, ◌++◌, ◌==◌, ==_iff, if◌then◌else◌, length, get_elem?, set, All, Bool-cases, Option-cases,
  List-cases, inl, inr, append_assoc, append-nil,
}
use mathlib.Core.Option.{some-injective}
use vpoiskaxroditeley.RuntimeExec.Tails.{lookup}
use vpoiskaxroditeley.PayloadGen.Cursors.{RawEvent}
use vpoiskaxroditeley.Supervisor.Fleet.{FleetSlot, slot_at}
use vpoiskaxroditeley.Supervisor.Fleet.Pump.{
  Sessions, PushJob, is_due, job_of, flushed, flush, split_runs,
}
use vpoiskaxroditeley.Supervisor.Fleet.Handles.{who_of, who_of-slot_at}
use vpoiskaxroditeley.Supervisor.Fleet.Batches.{who_of-same}

-- the events in the jobs of a handle, one after another
unfoldable pub sent_to : ℕ → List PushJob → List RawEvent
sent_to h [] = []
sent_to h (job ∷ jobs) = (if job.handle == h then job.blob else []) ++ sent_to h jobs

-- whether a tab is that of a place
abbrev pub leads : List (ℕ × ℕ) → ℕ → ℕ → Bool
leads tab_to_idx i tab = elim (lookup tab tab_to_idx) [ none ↦ false | some j ↦ j == i ]

-- the events of the tabs of a place, in their order
unfoldable pub events_for : List (ℕ × ℕ) → ℕ → List (ℕ × RawEvent) → List RawEvent
events_for tab_to_idx i [] = []
events_for tab_to_idx i ((tab, ev) ∷ l) =
    let rest = events_for tab_to_idx i l in if leads tab_to_idx i tab then ev ∷ rest else rest

-- the events of the runs of a place
unfoldable pub run_events : List (ℕ × ℕ) → ℕ → List (ℕ × List RawEvent) → List RawEvent
run_events tab_to_idx i [] = []
run_events tab_to_idx i ((tab, run) ∷ l) =
    (if leads tab_to_idx i tab then run else []) ++ run_events tab_to_idx i l

-- Runs have the events that they are made of.
pub run_events-split_runs :
    (m : List (ℕ × ℕ)) (i : ℕ) (l : List (ℕ × RawEvent))
    → run_events m i (split_runs l) ≡ events_for m i l
unfolding run_events split_runs events_for
run_events-split_runs m i [] = refl
run_events-split_runs m i ((tab, ev) ∷ l) =
    let before = run_events-split_runs m i l in
    elim (List-cases (split_runs l)) [
      | inl e ↦
          let nothing : [] ≡ events_for m i l = ap (run_events m i) (sym e) ∙ before in
          elim (Bool-cases (leads m i tab)) [
            | inl t ↦ rw (split_runs, e, t) (ap (λ r. ev ∷ r) nothing)
            | inr t ↦ rw (split_runs, e, t) nothing
          ]
      | inr ((next, evs), (runs, e)) ↦
          let here : run_events m i ((next, evs) ∷ runs) ≡ events_for m i l =
            ap (run_events m i) (sym e) ∙ before in
          elim (Bool-cases (tab == next)) [
            | inl same ↦
                let is = (==_iff tab next).0 same in
                elim (Bool-cases (leads m i tab)) [
                  | inl t ↦
                      let t' : leads m i next ≡ true = ap (leads m i) (sym is) ∙ t in
                      rw (split_runs, e, same, t, t') (ap (λ r. ev ∷ r) (rw t' at here))
                  | inr t ↦
                      let t' : leads m i next ≡ false = ap (leads m i) (sym is) ∙ t in
                      rw (split_runs, e, same, t, t') (rw t' at here)
                ]
            | inr other ↦ elim (Bool-cases (leads m i tab)) [
              | inl t ↦ rw (split_runs, e, other, t) (ap (λ r. ev ∷ r) here)
              | inr t ↦ rw (split_runs, e, other, t) here
            ]
          ]
    ]

-- A job counts its events and is for a handle that a slot has.
abbrev pub IsJob : List (Option ℕ) → PushJob → Type 0
IsJob who job =
    (job.events ≡ length job.blob) × ((i : ℕ) × (get_elem? who i ≡ some (some job.handle)))

module _ {S : Type 0} where
  -- the events that wait at a place
  abbrev pub held : ℕ → List (Option (FleetSlot S)) → List RawEvent
  held i slots = elim (slot_at i slots) [ none ↦ [] | some slot ↦ slot.scratch ]

  pub slot_at-set_self :
      (slots : List (Option (FleetSlot S))) (i : ℕ) (old slot : FleetSlot S)
      → slot_at i slots ≡ some old
      → slot_at i (set slots i (some slot)) ≡ some slot
  slot_at-set_self [] i old slot h = cc
  slot_at-set_self (x ∷ slots) zero old slot h = refl
  slot_at-set_self (x ∷ slots) (suc i) old slot h = slot_at-set_self slots i old slot h

  pub slot_at-set_ne :
      (slots : List (Option (FleetSlot S))) (i j : ℕ) (o : Option (FleetSlot S))
      → j ≢ i
      → slot_at i (set slots j o) ≡ slot_at i slots
  slot_at-set_ne [] i j o h = refl
  slot_at-set_ne (x ∷ slots) zero zero o h = absurd (h refl)
  slot_at-set_ne (x ∷ slots) zero (suc j) o h = refl
  slot_at-set_ne (x ∷ slots) (suc i) zero o h = refl
  slot_at-set_ne (x ∷ slots) (suc i) (suc j) o h = slot_at-set_ne slots i j o (λ e. h (ap suc e))

  -- Only the slot at the place has the handle.
  abbrev pub Alone : ℕ → ℕ → List (Option (FleetSlot S)) → Type 0
  Alone h i slots = (j : ℕ) → get_elem? (who_of slots) j ≡ some (some h) → j ≡ i

  pub whose :
      (slots : List (Option (FleetSlot S))) (h i : ℕ) (slot : FleetSlot S)
      → get_elem? (who_of slots) i ≡ some (some h)
      → slot_at i slots ≡ some slot
      → slot.handle ≡ h
  whose slots h i slot mine at =
      some-injective slot.handle h
        (some-injective (some slot.handle) (some h) (sym (who_of-slot_at slots i slot at) ∙ mine))

  pub held_at :
      (slots : List (Option (FleetSlot S))) (i : ℕ) (slot : FleetSlot S)
      → slot_at i slots ≡ some slot
      → held i slots ≡ slot.scratch
  held_at slots i slot e = ap (λ o. elim o [ none ↦ [] | some s ↦ s.scratch ]) e

  -- What the jobs of a handle have and what waits at its place afterwards is what waited there,
  -- whatever places are hot, with repetitions or without.
  pub held-flush :
      (sessions : Sessions S) (now_us : ℕ) (h i : ℕ) (hot : List ℕ)
      (slots : List (Option (FleetSlot S)))
      → Alone h i slots
      → get_elem? (who_of slots) i ≡ some (some h)
      → sent_to h (flush sessions now_us hot slots).0
          ++ held i (flush sessions now_us hot slots).1.1
        ≡ held i slots
  unfolding flush flushed sent_to job_of
  held-flush sessions now_us h i [] slots alone mine = refl
  held-flush sessions now_us h i (k ∷ hot) slots alone mine =
      elim (Option-cases (slot_at k slots)) [
        | inl e ↦ rw (flush, e) (held-flush sessions now_us h i hot slots alone mine)
        | inr (slot, e) ↦ elim (Bool-cases (is_due now_us slot)) [
          | inr d ↦ rw (flush, e, d) (held-flush sessions now_us h i hot slots alone mine)
          | inl d ↦
              let next = set slots k (some (flushed now_us slot)) in
              let same : who_of next ≡ who_of slots =
                who_of-same slots k slot (flushed now_us slot) e refl in
              let alone' : Alone h i next =
                λ j m. alone j (ap (λ w. get_elem? w j) (sym same) ∙ m) in
              let mine' : get_elem? (who_of next) i ≡ some (some h) =
                ap (λ w. get_elem? w i) same ∙ mine in
              let jobs = (flush sessions now_us hot next).0 in
              let later = (flush sessions now_us hot next).1.1 in
              let rest : sent_to h jobs ++ held i later ≡ held i next =
                held-flush sessions now_us h i hot next alone' mine' in
              elim (Bool-cases (k == i)) [
                | inl at ↦
                    let is = (==_iff k i).0 at in
                    let e' : slot_at i slots ≡ some slot =
                      subst (λ v. slot_at v slots ≡ some slot) is e in
                    let empty : held i next ≡ [] = held_at next i (flushed now_us slot) (
                      subst (λ v. slot_at v next ≡ some (flushed now_us slot)) is
                        (slot_at-set_self slots k slot (flushed now_us slot) e)) in
                    let its : (slot.handle == h) ≡ true =
                      (==_iff slot.handle h).1 (whose slots h i slot mine e') in
                    rw (flush, e, d, its)
                      (append_assoc slot.scratch (sent_to h jobs) (held i later)
                        ∙ ap (λ r. slot.scratch ++ r) (rest ∙ empty)
                        ∙ append-nil slot.scratch
                        ∙ sym (held_at slots i slot e'))
                | inr off ↦
                    let apart : k ≢ i = λ z. cc (sym off ∙ (==_iff k i).1 z) in
                    let not_its : (slot.handle == h) ≡ false =
                      elim (Bool-cases (slot.handle == h)) [
                        | inl t ↦ absurd (
                            apart (
                              alone k (
                                who_of-slot_at slots k slot e
                                ∙ ap (λ v. some (some v)) ((==_iff slot.handle h).0 t))))
                        | inr t ↦ t
                      ] in
                    rw (flush, e, d, not_its)
                      (rest
                        ∙ ap (λ o. elim o [ none ↦ [] | some s ↦ s.scratch ])
                            (slot_at-set_ne slots i k (some (flushed now_us slot)) apart))
              ]
        ]
      ]

  pub flush-IsJob :
      (sessions : Sessions S) (now_us : ℕ) (hot : List ℕ) (slots : List (Option (FleetSlot S)))
      → All (IsJob (who_of slots)) (flush sessions now_us hot slots).0
  unfolding flush flushed job_of
  flush-IsJob sessions now_us [] slots = tt
  flush-IsJob sessions now_us (k ∷ hot) slots = elim (Option-cases (slot_at k slots)) [
    | inl e ↦ rw (flush, e) (flush-IsJob sessions now_us hot slots)
    | inr (slot, e) ↦ elim (Bool-cases (is_due now_us slot)) [
      | inr d ↦ rw (flush, e, d) (flush-IsJob sessions now_us hot slots)
      | inl d ↦
          let next = set slots k (some (flushed now_us slot)) in
          let same : who_of next ≡ who_of slots =
            who_of-same slots k slot (flushed now_us slot) e refl in
          rw (flush, e, d)
            (
              (refl, (k, who_of-slot_at slots k slot e)),
              subst (λ w. All (IsJob w) (flush sessions now_us hot next).0) same
                  (flush-IsJob sessions now_us hot next),
            )
    ]
  ]
