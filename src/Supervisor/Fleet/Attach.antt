-- ===== src/Supervisor/Fleet/Attach.antt =====
-- crates/supervisor/src/fleet.rs: `attach`, which gives a tab a handle, a hub and a slot.
use vpoiskaxroditeley.Prelude.{
  ℕ, ◌+◌, ◌||◌, none, some, [], ◌∷◌, ◌++◌, ◌==◌, leb, if◌then◌else◌, length, set, map,
}
use vpoiskaxroditeley.Str.{Bytes}
use vpoiskaxroditeley.RuntimeExec.Tails.{lookup, insert}
use vpoiskaxroditeley.PayloadGen.Batcher
use vpoiskaxroditeley.PayloadGen.InputHub.{
  TabInput, u32_max, new_calibration, register_site_shared, site_free_slot,
}
use vpoiskaxroditeley.PayloadGen.InputHub.Tick.{set_input}
use vpoiskaxroditeley.Supervisor.Fleet.{
  FleetSlot, Fleet, push_expiry, hub_open_tab, encode_tab, on_hub, expire,
}

abbrev pub batch_cap : ℕ
batch_cap = 64

-- The arguments of `attach` and what it makes of them: the hash of the origin's host, the session, the
-- endpoint, and for each tab the input and the interval between batches.
pub record Request (S I : Type 0) : Type 0 where
  pub key : ℕ
  pub session : S
  pub endpoint : Bytes
  pub engine_slot : ℕ
  pub weight : ℕ
  pub input_of : ℕ → I
  pub interval_of : ℕ → ℕ

module _ {S I : Type 0} where
  -- The site's place in the hubs: a site that has no tab yet is registered with all of them.
  unfoldable pub site_for : ℕ → Fleet S I → ℕ × Fleet S I
  unfolding site_free_slot register_site_shared new_calibration
  site_for key f = elim (lookup key f.sites) [
    | some entry ↦ (
      entry.hub_site,
      record f { sites = insert key (record entry { tabs = entry.tabs + 1 }) f.sites },
    )
    | none ↦ elim f.hubs [
      | [] ↦ (0, f)
      | ◌∷◌ hub hubs ↦
          let (s, hub) = site_free_slot hub in
          (
            s,
            record f {
              hubs = map (register_site_shared s (length f.calibs)) (hub ∷ hubs);
              calibs = f.calibs ++ new_calibration 3 ∷ [];
              sites = insert key (record { hub_site = s; tabs = 1 }) f.sites;
            },
          )
    ]
  ]

  -- The slot goes to the place that was freed last, or behind the others.
  unfoldable pub place_slot : FleetSlot S → Fleet S I → ℕ × Fleet S I
  place_slot slot f = elim f.free [
    | ◌∷◌ i rest ↦ (i, record f { free = rest; slots = set f.slots i (some slot) })
    | [] ↦ (length f.slots, record f { slots = f.slots ++ some slot ∷ [] })
  ]

  unfoldable pub attach_slot : Request S I → ℕ → ℕ → ℕ → FleetSlot S
  unfolding Batcher.new
  attach_slot r handle site tab = record {
    handle = handle;
    site_key = r.key;
    session = r.session;
    engine_slot = r.engine_slot;
    site = site;
    hub_tab = tab;
    endpoint = r.endpoint;
    batcher = Batcher.new batch_cap (r.interval_of tab);
    scratch = [];
    events_total = 0;
    batches = 0;
  }

  -- The rest of `attach` for a tab that has its site and its place in a hub.
  unfoldable pub install : TabInput I → ℕ → Request S I → ℕ → ℕ → ℕ × ℕ → Fleet S I → Fleet S I
  unfolding place_slot attach_slot encode_tab push_expiry on_hub set_input insert
  install kind later r handle site (pick, local) f =
      let tab = encode_tab f pick local in
      let (idx, f) = place_slot (attach_slot r handle site tab) f in
      record f {
        tab_to_idx = insert tab idx f.tab_to_idx;
        handles = insert handle idx f.handles;
        live = f.live + 1;
        expiry_heap =
            push_expiry (record { exp = later + f.session_ttl; idx = idx; handle = handle })
              f.expiry_heap;
        hubs = on_hub pick (set_input kind f.calibs local (r.input_of tab)) f.hubs;
      }

  -- The clock is read at the beginning and again for the expiry.
  unfoldable pub attach : TabInput I → ℕ → ℕ → Request S I → Fleet S I → ℕ × Fleet S I
  unfolding expire site_for hub_open_tab install
  attach kind now later r f0 =
      let f = (expire now f0).1 in
      let handle = f.next_handle in
      let (site, g) = site_for r.key (record f { next_handle = handle + 1 }) in
      let (at, g) = hub_open_tab site r.weight g in
      if leb f.max_tabs f.live || handle == u32_max || f.session_ttl == 0
      then (u32_max, f)
      else (handle, install kind later r handle site at g)
