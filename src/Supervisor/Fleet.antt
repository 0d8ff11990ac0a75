-- ===== src/Supervisor/Fleet.antt =====
-- crates/supervisor/src/fleet.rs: the fleet of tabs, whose slots are reached by handles and by tabs of
-- several hubs. What a fleet asks of its sessions is an interface; what the source computes of a
-- profile for a tab, its input and the interval of its batches, is an argument. Instants are numbers.
-- A hub and a site's calibration are places in lists. There is at least one hub.
pub mod Attach
pub mod Pump
pub mod Links
pub mod Handles
pub mod Batches
pub mod Reached
pub mod Flushed
pub mod Sent
use vpoiskaxroditeley.Prelude.{
  ℕ, zero, suc, ◌+◌, ◌-◌, ◌*◌, ◌/◌, ◌%◌, ◌^◌, Bool, true, false, not, ◌&&◌, ◌||◌, Option, none,
  some, List, [], ◌∷◌, ◌++◌, ◌==◌, ltb, leb, if◌then◌else◌, length, get_elem?, set, map, replicate,
}
use vpoiskaxroditeley.Str.{Bytes}
use vpoiskaxroditeley.RuntimeExec.Tails.{lookup, remove, insert}
use vpoiskaxroditeley.PayloadGen.Cursors.{RawEvent}
use vpoiskaxroditeley.PayloadGen.Batcher.{TelemetryBatcher}
use vpoiskaxroditeley.PayloadGen.InputHub.{
  Calibration, InputHub, u32_max, close_tab, open_tab, unregister_site, live_tabs, new_hub,
}

pub record SiteEntry : Type 0 where
  pub hub_site : ℕ
  pub tabs : ℕ

-- `scratch` is the events whose bytes it holds.
pub record FleetSlot (S : Type 0) : Type 0 where
  pub handle : ℕ
  pub site_key : ℕ
  pub session : S
  pub engine_slot : ℕ
  pub site : ℕ
  pub hub_tab : ℕ
  pub endpoint : Bytes
  pub batcher : TelemetryBatcher
  pub scratch : List RawEvent
  pub events_total : ℕ
  pub batches : ℕ

-- an entry of the heap of expiries, which gives the earliest first
pub record Expiry : Type 0 where
  pub exp : ℕ
  pub idx : ℕ
  pub handle : ℕ

pub record Fleet (S I : Type 0) : Type 0 where
  pub hubs : List (InputHub I)
  pub calibs : List Calibration
  pub slots : List (Option (FleetSlot S))
  pub handles : List (ℕ × ℕ)
  pub tab_to_idx : List (ℕ × ℕ)
  pub free : List ℕ
  pub hot : List ℕ
  pub sites : List (ℕ × SiteEntry)
  pub expiry_heap : List Expiry
  pub next_handle : ℕ
  pub live : ℕ
  pub max_tabs : ℕ
  pub session_ttl : ℕ

unfoldable pub expires_before : Expiry → Expiry → Bool
expires_before a b =
    ltb a.exp b.exp
    || a.exp == b.exp && (ltb a.idx b.idx || a.idx == b.idx && leb a.handle b.handle)

unfoldable pub push_expiry : Expiry → List Expiry → List Expiry
unfolding expires_before
push_expiry e [] = e ∷ []
push_expiry e (f ∷ l) =
    let rest = push_expiry e l in if expires_before e f then e ∷ (f ∷ l) else f ∷ rest

-- `swap_remove` at the first place of a number, if it is there
unfoldable pub last_or : ℕ → List ℕ → ℕ
last_or d [] = d
last_or d (x ∷ l) = last_or x l

unfoldable pub but_last : List ℕ → List ℕ
but_last [] = []
but_last (x ∷ []) = []
but_last (x ∷ (y ∷ l)) = x ∷ but_last (y ∷ l)

unfoldable pub swap_remove_first : ℕ → List ℕ → List ℕ
unfolding last_or but_last
swap_remove_first i [] = []
swap_remove_first i (x ∷ l) =
    let rest = swap_remove_first i l in
    if x == i then elim l [ [] ↦ [] | ◌∷◌ y m ↦ last_or y m ∷ but_last (y ∷ m) ] else x ∷ rest

module _ {I : Type 0} where
  -- an operation on one of the hubs
  unfoldable pub on_hub : ℕ → (InputHub I → InputHub I) → List (InputHub I) → List (InputHub I)
  on_hub i op hubs = elim (get_elem? hubs i) [ none ↦ hubs | some hub ↦ set hubs i (op hub) ]

  -- the first of the hubs with the fewest live tabs, after the first `i` of which `pick` is the best
  unfoldable pub idlest_from : ℕ → ℕ → ℕ → List (InputHub I) → ℕ
  unfolding live_tabs
  idlest_from i least pick [] = pick
  idlest_from i least pick (hub ∷ hubs) =
      let l = live_tabs hub in
      if ltb l least then idlest_from (suc i) l i hubs else idlest_from (suc i) least pick hubs

  unfoldable pub idlest : List (InputHub I) → ℕ
  unfolding idlest_from live_tabs
  idlest [] = 0
  idlest (hub ∷ hubs) = idlest_from 1 (live_tabs hub) 0 hubs

module _ {S : Type 0} where
  -- `slots.get(index).and_then(|s| s.as_ref())`
  abbrev pub slot_at : ℕ → List (Option (FleetSlot S)) → Option (FleetSlot S)
  slot_at index slots = elim (get_elem? slots index) [ none ↦ none | some o ↦ o ]

module _ {S I : Type 0} where
  -- with so many hubs, of which the source makes one for each processor, up to eight
  unfoldable pub with_limits : ℕ → ℕ → ℕ → Fleet S I
  unfolding new_hub
  with_limits hubs max_tabs session_ttl = record {
    hubs = replicate hubs new_hub;
    calibs = [];
    slots = [];
    handles = [];
    tab_to_idx = [];
    free = [];
    hot = [];
    sites = [];
    expiry_heap = [];
    next_handle = 0;
    live = 0;
    max_tabs = max_tabs;
    session_ttl = session_ttl;
  }

  abbrev pub hub_count : Fleet S I → ℕ
  hub_count f = length f.hubs

  unfoldable pub lane : Fleet S I → ℕ → ℕ
  lane f hub_tab = hub_tab % hub_count f

  unfoldable pub encode_tab : Fleet S I → ℕ → ℕ → ℕ
  encode_tab f lane local = (lane + local * hub_count f) % 2 ^ 32

  -- The place of the hub and the tab in it.
  unfoldable pub hub_open_tab : ℕ → ℕ → Fleet S I → (ℕ × ℕ) × Fleet S I
  unfolding idlest open_tab
  hub_open_tab site weight f =
      let pick = idlest f.hubs in
      elim (get_elem? f.hubs pick) [
        | none ↦ ((pick, 0), f)
        | some hub ↦
            let (local, hub) = open_tab site weight hub in
            ((pick, local), record f { hubs = set f.hubs pick hub })
      ]

  -- the count of a site's tabs, one fewer; the site goes with its last tab
  unfoldable pub leave_site : ℕ → ℕ → Fleet S I → Fleet S I
  unfolding unregister_site
  leave_site site_key site f = elim (lookup site_key f.sites) [
    | none ↦ f
    | some entry ↦
        if entry.tabs - 1 == 0
        then record f {
          sites = remove site_key f.sites;
          hubs = map (λ hub. (unregister_site site hub).1) f.hubs;
        }
        else record f { sites = insert site_key (record entry { tabs = entry.tabs - 1 }) f.sites }
  ]

  -- for a slot that has been taken out of its place
  unfoldable pub retire : ℕ → FleetSlot S → Fleet S I → Fleet S I
  unfolding lane on_hub close_tab swap_remove_first leave_site
  retire index slot f = leave_site slot.site_key slot.site (record f {
    tab_to_idx = remove slot.hub_tab f.tab_to_idx;
    hubs = on_hub (lane f slot.hub_tab) (close_tab (slot.hub_tab / hub_count f)) f.hubs;
    hot = swap_remove_first index f.hot;
    free = index ∷ f.free;
    live = f.live - 1;
  })

  unfoldable pub detach : ℕ → Fleet S I → Bool × Fleet S I
  unfolding retire
  detach handle f = elim (lookup handle f.handles) [
    | none ↦ (false, f)
    | some index ↦
        let f = record f { handles = remove handle f.handles } in
        elim (slot_at index f.slots) [
          | none ↦ (false, f)
          | some slot ↦ (true, retire index slot (record f { slots = set f.slots index none }))
        ]
  ]

  -- The loop of `expire` over the heap, of which the fleet has only what is behind: how many slots
  -- were retired.
  unfoldable pub expire_loop : ℕ → List Expiry → Fleet S I → ℕ × Fleet S I
  unfolding retire
  expire_loop now [] f = (0, record f { expiry_heap = [] })
  expire_loop now (e ∷ l) f = elim (ltb now e.exp) [
    | true ↦ (0, record f { expiry_heap = e ∷ l })
    | false ↦ elim (slot_at e.idx f.slots) [
      | none ↦ expire_loop now l f
      | some slot ↦ elim (slot.handle == e.handle) [
        | false ↦ expire_loop now l f
        | true ↦
            let (removed, f) = expire_loop now l (
              retire e.idx slot (record f {
                slots = set f.slots e.idx none;
                handles = remove e.handle f.handles;
              })) in
            (suc removed, f)
      ]
    ]
  ]

  unfoldable pub expire : ℕ → Fleet S I → ℕ × Fleet S I
  unfolding expire_loop
  expire now f = expire_loop now f.expiry_heap f
