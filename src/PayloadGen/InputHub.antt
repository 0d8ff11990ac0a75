-- ===== src/PayloadGen/InputHub.antt =====
-- crates/payload-gen/src/input/scheduler.rs: the hub, which keeps the inputs of many tabs and lets them
-- take their turns by the time at which they are due. A tab's input is a client of the trait of cursors
-- with any number of events a step, as `TabInput` is. The calibrations are shared between hubs, so a hub
-- has their places in a list that all see. The heap, a binary heap of reversed tuples, is the list of
-- its tuples in the order in which it gives them; lists stand for vectors of fewer than 2^32 elements,
-- with the top of a stack first.
pub mod Tick
pub mod Slots
pub mod Tabs
pub mod Reached
pub mod Turns
use vpoiskaxroditeley.Prelude.{
  ℕ, zero, suc, ◌+◌, ◌-◌, ◌*◌, ◌/◌, ◌%◌, ◌^◌, Bool, true, false, not, ◌&&◌, ◌||◌, Option, none,
  some, List, [], ◌∷◌, ◌++◌, ◌==◌, ltb, leb, if◌then◌else◌, length, get_elem?, set, map, min, max,
  is_some, replicate,
}
use vpoiskaxroditeley.PayloadGen.Cursors.{RawEvent}

-- `trust` is an i32 in two's complement.
pub record Calibration : Type 0 where
  pub strictness : ℕ
  pub trust : ℕ
  pub passes : ℕ
  pub fails : ℕ

unfoldable pub new_calibration : ℕ → Calibration
new_calibration strictness = record { strictness = strictness; trust = 0; passes = 0; fails = 0 }

unfoldable pub record_outcome : Bool → Calibration → Calibration
record_outcome passed c =
    let w = 1 + c.strictness in
    if passed
    then record c { passes = (c.passes + 1) % 2 ^ 32; trust = (c.trust + w) % 2 ^ 32 }
    else record c { fails = (c.fails + 1) % 2 ^ 32; trust = (c.trust + 2 ^ 32 - w) % 2 ^ 32 }

-- `trust.max(0)`
abbrev pub positive : ℕ → ℕ
positive trust = if ltb trust (2 ^ 31) then trust else 0

abbrev pub u32_max : ℕ
u32_max = 2 ^ 32 - 1

-- What the hub asks of an input: `step_into` gives the events of the step.
pub record TabInput (I : Type 0) : Type 0 where
  pub next_due_us : I → ℕ
  pub done : I → Bool
  pub step_into : ℕ → I → List RawEvent × I

pub record TabSlot (I : Type 0) : Type 0 where
  pub site : ℕ
  pub weight : ℕ
  pub input_gen : ℕ
  pub cached_rank : ℕ
  pub input : Option I

pub record Turn : Type 0 where
  pub due : ℕ
  pub rank : ℕ
  pub tab : ℕ
  pub input_gen : ℕ

pub record InputHub (I : Type 0) : Type 0 where
  pub tabs : List (TabSlot I)
  pub free : List ℕ
  pub heap : List Turn
  pub sites : List (Option ℕ)
  pub free_sites : List ℕ

-- the order of the tuples
unfoldable pub comes_before : Turn → Turn → Bool
comes_before a b =
    ltb a.due b.due
    || a.due == b.due
      && (ltb a.rank b.rank
          || a.rank == b.rank && (ltb a.tab b.tab || a.tab == b.tab && leb a.input_gen b.input_gen))

unfoldable pub push_turn : Turn → List Turn → List Turn
unfolding comes_before
push_turn t [] = t ∷ []
push_turn t (u ∷ l) = let rest = push_turn t l in if comes_before t u then t ∷ (u ∷ l) else u ∷ rest

unfoldable pub without_tab : ℕ → List Turn → List Turn
without_tab tab [] = []
without_tab tab (t ∷ l) = let rest = without_tab tab l in if t.tab == tab then rest else t ∷ rest

abbrev pub trust_of : List Calibration → Option ℕ → ℕ
trust_of calibs none = 0
trust_of calibs (some place) = elim (get_elem? calibs place) [ none ↦ 0 | some c ↦ c.trust ]

module _ {I : Type 0} where
  unfoldable pub new_hub : InputHub I
  new_hub = record { tabs = []; free = []; heap = []; sites = []; free_sites = [] }

  -- with the place of the calibration, which the caller has made
  unfoldable pub register_site : ℕ → InputHub I → ℕ × InputHub I
  register_site calib h = elim h.free_sites [
    | ◌∷◌ site rest ↦ (site, record h { free_sites = rest; sites = set h.sites site (some calib) })
    | [] ↦ (length h.sites, record h { sites = h.sites ++ some calib ∷ [] })
  ]

  unfoldable pub register_site_shared : ℕ → ℕ → InputHub I → InputHub I
  register_site_shared site calib h =
      let missing = replicate (site + 1 - length h.sites) none in
      record h { sites = set (h.sites ++ missing) site (some calib) }

  unfoldable pub site_free_slot : InputHub I → ℕ × InputHub I
  site_free_slot h = elim h.free_sites [
    | ◌∷◌ site rest ↦ (site, record h { free_sites = rest })
    | [] ↦ (length h.sites, h)
  ]

  unfoldable pub has_site : ℕ → List (TabSlot I) → Bool
  has_site site [] = false
  has_site site (t ∷ l) = t.site == site || has_site site l

  -- `sites.get(site).and_then(Option::as_ref)`
  abbrev pub calibration : ℕ → InputHub I → Option ℕ
  calibration site h = elim (get_elem? h.sites site) [ none ↦ none | some c ↦ c ]

  unfoldable pub unregister_site : ℕ → InputHub I → Bool × InputHub I
  unfolding has_site
  unregister_site site h =
      if has_site site h.tabs || not (is_some (calibration site h))
      then (false, h)
      else (true, record h { sites = set h.sites site none; free_sites = site ∷ h.free_sites })

  unfoldable pub open_tab : ℕ → ℕ → InputHub I → ℕ × InputHub I
  open_tab site weight h =
      let slot : TabSlot I = record {
        site = site;
        weight = weight;
        input_gen = 0;
        cached_rank = u32_max - min weight (u32_max - 1);
        input = none;
      } in
      elim h.free [
        | ◌∷◌ idx rest ↦ (idx, record h { free = rest; tabs = set h.tabs idx slot })
        | [] ↦ (length h.tabs, record h { tabs = h.tabs ++ slot ∷ [] })
      ]

  -- the slot of a tab that is open
  unfoldable pub open_slot : ℕ → List (TabSlot I) → Option (TabSlot I)
  open_slot tab tabs = elim (get_elem? tabs tab) [
    | none ↦ none
    | some slot ↦ if slot.site == u32_max then none else some slot
  ]

  unfoldable pub close_tab : ℕ → InputHub I → InputHub I
  unfolding open_slot without_tab
  close_tab tab h = elim (open_slot tab h.tabs) [
    | none ↦ h
    | some slot ↦ record h {
      tabs =
          set h.tabs tab (record slot {
            site = u32_max;
            input_gen = (slot.input_gen + 1) % 2 ^ 32;
            input = none;
          });
      heap = without_tab tab h.heap;
      free = tab ∷ h.free;
    }
  ]

  -- `refresh_rank` without its write to the slot
  unfoldable pub rank_of : List Calibration → TabSlot I → InputHub I → ℕ
  rank_of calibs slot h =
      let trust_bonus = min (positive (trust_of calibs (calibration slot.site h))) 64 in
      u32_max - min (min (slot.weight + trust_bonus) u32_max) (u32_max - 1)

  unfoldable pub live_slots : List (TabSlot I) → ℕ
  live_slots [] = 0
  live_slots (t ∷ l) = (if t.site == u32_max then 0 else 1) + live_slots l

  unfoldable pub live_tabs : InputHub I → ℕ
  unfolding live_slots
  live_tabs h = live_slots h.tabs

  unfoldable pub next_due_us : InputHub I → ℕ
  next_due_us h = elim h.heap [ [] ↦ 2 ^ 64 - 1 | ◌∷◌ t l ↦ t.due ]
