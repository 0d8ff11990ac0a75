-- ===== src/Supervisor/Fleet/Pump.antt =====
-- crates/supervisor/src/fleet.rs: `pump`, which takes the events of the tabs and makes batches of them,
-- and the operations on slots by their handles.
use vpoiskaxroditeley.Prelude.{
  ℕ, suc, ◌+◌, ◌*◌, ◌%◌, ◌^◌, Bool, true, false, not, ◌&&◌, Option, none, some, List, [], ◌∷◌, ◌++◌,
  ◌==◌, if◌then◌else◌, length, get_elem?, set, map,
}
use vpoiskaxroditeley.Str.{Bytes, is_empty}
use vpoiskaxroditeley.RuntimeExec.Tails.{lookup}
use vpoiskaxroditeley.PayloadGen.Cursors.{RawEvent}
use vpoiskaxroditeley.PayloadGen.Batcher.{begin, feed, ready}
use vpoiskaxroditeley.PayloadGen.InputHub.{
  Calibration, TabInput, InputHub, record_outcome, calibration,
}
use vpoiskaxroditeley.PayloadGen.InputHub.Tick.{tick}
use vpoiskaxroditeley.Supervisor.Fleet.{FleetSlot, Fleet, slot_at, expire}

-- What the fleet asks of a session: the cookies for a URL, that of a line of a reply for a URL, and
-- to note that it was used.
pub record Sessions (S : Type 0) : Type 0 where
  pub header_for_url : Bytes → S → Option Bytes
  pub ingest_for_url : Bytes → Bytes → S → S
  pub touch : S → S

pub record PushJob : Type 0 where
  pub handle : ℕ
  pub engine_slot : ℕ
  pub endpoint : Bytes
  pub cookie : Bytes
  pub blob : List RawEvent
  pub events : ℕ

-- The events of one tab after another, as runs: the longest of neighbours.
unfoldable pub split_runs : List (ℕ × RawEvent) → List (ℕ × List RawEvent)
split_runs [] = []
split_runs ((tab, ev) ∷ l) = elim (split_runs l) [
  | [] ↦ (tab, ev ∷ []) ∷ []
  | ◌∷◌ (next, evs) runs ↦
      if tab == next then (next, ev ∷ evs) ∷ runs else (tab, ev ∷ []) ∷ ((next, evs) ∷ runs)
]

-- Each hub has its tick, from the given lane on; the tabs of the events are those of the fleet. A tick
-- always ends.
unfoldable pub tick_hubs :
    {I : Type 0}
    → TabInput I
    → List Calibration
    → ℕ
    → ℕ
    → ℕ
    → List (InputHub I)
    → List (ℕ × RawEvent) × List (InputHub I)
unfolding tick
tick_hubs kind calibs now_us n lane [] = ([], [])
tick_hubs kind calibs now_us n lane (hub ∷ hubs) =
    let (evs, hubs') = tick_hubs kind calibs now_us n (suc lane) hubs in
    elim (tick kind calibs now_us hub) [
      | none ↦ (evs, hub ∷ hubs')
      | some (here, hub) ↦ (map (λ (t, ev). ((lane + t * n) % 2 ^ 32, ev)) here ++ evs, hub ∷ hubs')
    ]

module _ {S : Type 0} where
  unfoldable pub is_due : ℕ → FleetSlot S → Bool
  unfolding ready
  is_due now_us slot = ready now_us slot.batcher && not (is_empty slot.scratch)

  unfoldable pub job_of : Sessions S → FleetSlot S → PushJob
  job_of sessions slot = record {
    handle = slot.handle;
    engine_slot = slot.engine_slot;
    endpoint = slot.endpoint;
    cookie = elim (sessions.header_for_url slot.endpoint slot.session) [ none ↦ [] | some c ↦ c ];
    blob = slot.scratch;
    events = length slot.scratch;
  }

  unfoldable pub flushed : ℕ → FleetSlot S → FleetSlot S
  unfolding begin
  flushed now_us slot = record slot {
    batches = (slot.batches + 1) % 2 ^ 32;
    scratch = [];
    batcher = begin now_us slot.batcher;
  }

  -- The loop of `pump` over the hot places: the jobs, the places that stay hot, and the slots.
  unfoldable pub flush :
      Sessions S
      → ℕ
      → List ℕ
      → List (Option (FleetSlot S))
      → List PushJob × (List ℕ × List (Option (FleetSlot S)))
  unfolding is_due job_of flushed
  flush sessions now_us [] slots = ([], ([], slots))
  flush sessions now_us (i ∷ hot) slots = elim (slot_at i slots) [
    | none ↦ flush sessions now_us hot slots
    | some slot ↦ elim (is_due now_us slot) [
      | true ↦
          let (jobs, (keep, slots)) =
            flush sessions now_us hot (set slots i (some (flushed now_us slot))) in
          (job_of sessions slot ∷ jobs, (keep, slots))
      | false ↦
          let (jobs, (keep, slots)) = flush sessions now_us hot slots in (jobs, (i ∷ keep, slots))
    ]
  ]

  unfoldable pub ingest_lines : Sessions S → Bytes → List Bytes → S → S
  ingest_lines sessions endpoint [] s = s
  ingest_lines sessions endpoint (line ∷ lines) s =
      ingest_lines sessions endpoint lines (sessions.ingest_for_url line endpoint s)

module _ {I : Type 0} where
  -- the first of the hubs that has a calibration for the site
  unfoldable pub find_calibration : ℕ → List (InputHub I) → Option ℕ
  find_calibration site [] = none
  find_calibration site (hub ∷ hubs) = elim (calibration site hub) [
    | none ↦ find_calibration site hubs
    | some c ↦ some c
  ]

module _ {S I : Type 0} where
  unfoldable pub absorb_run : ℕ → List RawEvent → Fleet S I → Fleet S I
  unfolding feed
  absorb_run tab run f = elim (lookup tab f.tab_to_idx) [
    | none ↦ f
    | some i ↦ elim (slot_at i f.slots) [
      | none ↦ f
      | some slot ↦ record f {
        slots = set f.slots i (
            some (record slot {
              scratch = slot.scratch ++ run;
              events_total = (slot.events_total + length run) % 2 ^ 64;
              batcher = feed (length run) slot.batcher;
            }));
        hot = f.hot ++ i ∷ [];
      }
    ]
  ]

  unfoldable pub absorb_runs : List (ℕ × List RawEvent) → Fleet S I → Fleet S I
  unfolding absorb_run
  absorb_runs [] f = f
  absorb_runs ((tab, run) ∷ runs) f = absorb_runs runs (absorb_run tab run f)

  unfoldable pub pump : TabInput I → Sessions S → ℕ → ℕ → Fleet S I → List PushJob × Fleet S I
  unfolding expire tick_hubs split_runs absorb_runs flush
  pump kind sessions now now_us f0 =
      let f = (expire now f0).1 in
      let (evs, hubs) = tick_hubs kind f.calibs now_us (length f.hubs) 0 f.hubs in
      let g = absorb_runs (split_runs evs) (record f { hubs = hubs }) in
      let (jobs, (keep, slots)) = flush sessions now_us g.hot g.slots in
      (jobs, record g { hot = keep; slots = slots })

  unfoldable pub merge_push_cookies : Sessions S → ℕ → List Bytes → Fleet S I → Fleet S I
  unfolding ingest_lines
  merge_push_cookies sessions handle lines f =
      if is_empty lines then f else elim (lookup handle f.handles) [
        | none ↦ f
        | some idx ↦ elim (slot_at idx f.slots) [
          | none ↦ f
          | some slot ↦ record f {
            slots = set f.slots idx (
                some (record slot {
                  session = sessions.touch (ingest_lines sessions slot.endpoint lines slot.session);
                }));
          }
        ]
      ]

  unfoldable pub handle_site : ℕ → Fleet S I → Option ℕ
  handle_site handle f = elim (lookup handle f.handles) [
    | none ↦ none
    | some idx ↦ elim (slot_at idx f.slots) [ none ↦ none | some slot ↦ some slot.site ]
  ]

  unfoldable pub calibrate : ℕ → Bool → Fleet S I → Fleet S I
  unfolding handle_site find_calibration record_outcome
  calibrate handle ok f = elim (handle_site handle f) [
    | none ↦ f
    | some site ↦ elim (find_calibration site f.hubs) [
      | none ↦ f
      | some place ↦ elim (get_elem? f.calibs place) [
        | none ↦ f
        | some c ↦ record f { calibs = set f.calibs place (record_outcome ok c) }
      ]
    ]
  ]
