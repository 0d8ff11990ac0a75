-- ===== src/Supervisor/Fleet/Reached.antt =====
-- The fleets that can be reached, and what a tab that is attached to one gets.
use vpoiskaxroditeley.Prelude.{
  ℕ, suc, ◌+◌, ◌-◌, ◌<◌, ◌≡◌, ◌≢◌, refl, sym, ap, subst, ◌∙◌, Bool, true, ◌||◌, none, some, List,
  ◌==◌, leb, length, get_elem?, arith, Bool-cases, List-cases, Option-cases, inl, inr,
}
use vpoiskaxroditeley.Str.{Bytes, is_empty}
use vpoiskaxroditeley.RuntimeExec.Tails.{lookup, insert, lookup-remove_self}
use vpoiskaxroditeley.PayloadGen.InputHub.{TabInput, u32_max}
use vpoiskaxroditeley.PayloadGen.InputHub.Slots.{live}
use vpoiskaxroditeley.Supervisor.Fleet.{
  Fleet, slot_at, expire, detach, with_limits, hub_open_tab, retire,
}
use vpoiskaxroditeley.Supervisor.Fleet.Attach.{Request, attach, install, site_for, place_slot}
use vpoiskaxroditeley.Supervisor.Fleet.Pump.{
  Sessions, pump, merge_push_cookies, calibrate, handle_site, find_calibration,
}
use vpoiskaxroditeley.Supervisor.Fleet.Links.{lookup-insert_self}
use vpoiskaxroditeley.Supervisor.Fleet.Handles.{
  Core, IsCore, core, IsSound, attach-IsSound, detach-IsSound, expire-IsSound, slot_at-who_of,
  leave_site-core, site_for-core, hub_open_tab-core,
}
use vpoiskaxroditeley.Supervisor.Fleet.Batches.{who_of-same, pump-core}

module _ {S I : Type 0} (kind : TabInput I) (sessions : Sessions S) where
  -- The fleets that the operations lead to.
  pub data IsReached : Fleet S I → Type 0 where
    begins : (hubs max_tabs session_ttl : ℕ) → IsReached (with_limits hubs max_tabs session_ttl)
    attaches :
        (now later : ℕ) (r : Request S I) {f : Fleet S I}
        → IsReached f
        → IsReached (attach kind now later r f).1
    detaches : (handle : ℕ) {f : Fleet S I} → IsReached f → IsReached (detach handle f).1
    expires : (now : ℕ) {f : Fleet S I} → IsReached f → IsReached (expire now f).1
    pumps :
        (now now_us : ℕ) {f : Fleet S I}
        → IsReached f
        → IsReached (pump kind sessions now now_us f).1
    merges :
        (handle : ℕ) (lines : List Bytes) {f : Fleet S I}
        → IsReached f
        → IsReached (merge_push_cookies sessions handle lines f)
    calibrates :
        (handle : ℕ) (ok : Bool) {f : Fleet S I} → IsReached f → IsReached (calibrate handle ok f)

  merge_push_cookies-core :
      (handle : ℕ) (lines : List Bytes) (f : Fleet S I)
      → core (merge_push_cookies sessions handle lines f) ≡ core f
  unfolding merge_push_cookies
  merge_push_cookies-core handle lines f = elim (Bool-cases (is_empty lines)) [
    | inl n ↦ rw (merge_push_cookies, n) refl
    | inr n ↦ elim (Option-cases (lookup handle f.handles)) [
      | inl e ↦ rw (merge_push_cookies, n, e) refl
      | inr (i, e) ↦ elim (Option-cases (slot_at i f.slots)) [
        | inl a ↦ rw (merge_push_cookies, n, e, a) refl
        | inr (slot, a) ↦
            rw (merge_push_cookies, n, e, a)
              (ap (λ w. (w, (f.free, (f.handles, (f.live, f.next_handle)))))
                (who_of-same f.slots i slot _ a refl))
      ]
    ]
  ]

  calibrate-core : (handle : ℕ) (ok : Bool) (f : Fleet S I) → core (calibrate handle ok f) ≡ core f
  unfolding calibrate
  calibrate-core handle ok f = elim (Option-cases (handle_site handle f)) [
    | inl e ↦ rw (calibrate, e) refl
    | inr (site, e) ↦ elim (Option-cases (find_calibration site f.hubs)) [
      | inl a ↦ rw (calibrate, e, a) refl
      | inr (place, a) ↦ elim (Option-cases (get_elem? f.calibs place)) [
        | inl c ↦ rw (calibrate, e, a, c) refl
        | inr (cal, c) ↦ rw (calibrate, e, a, c) refl
      ]
    ]
  ]

  -- In every fleet that is reached the free slots are the empty ones, each once, the count is that of
  -- the others, and the handles lead to the slots that have them, one each, and were all issued.
  pub IsReached-IsSound : {f : Fleet S I} → IsReached f → IsSound f
  unfolding with_limits live lookup
  IsReached-IsSound (begins hubs max_tabs session_ttl) = record {
    free_slots = record { closed = tt; distinct = tt; counted = omega arith };
    counted = refl;
    mapped = record { leads = λ h i e. cc; led_to = λ h i e. cc; issued = λ h i e. cc };
  }
  IsReached-IsSound (attaches now later r h) =
      attach-IsSound kind now later r _ (IsReached-IsSound h)
  IsReached-IsSound (detaches handle h) = detach-IsSound handle _ (IsReached-IsSound h)
  IsReached-IsSound (expires now h) = expire-IsSound now _ (IsReached-IsSound h)
  IsReached-IsSound (pumps now now_us {f} h) =
      subst IsCore (sym (pump-core kind sessions now now_us f))
        (expire-IsSound now f (IsReached-IsSound h))
  IsReached-IsSound (merges handle lines {f} h) =
      subst IsCore (sym (merge_push_cookies-core handle lines f)) (IsReached-IsSound h)
  IsReached-IsSound (calibrates handle ok {f} h) =
      subst IsCore (sym (calibrate-core handle ok f)) (IsReached-IsSound h)

not_below : {h next : ℕ} → h ≡ next → h < next → ⊥
not_below e l = omega (arith, e, l)

module _ {S I : Type 0} where
  -- Detaching a handle that is known succeeds, forgets it, and leaves one tab fewer.
  detach-known :
      (h i : ℕ) (g : Fleet S I)
      → IsSound g
      → lookup h g.handles ≡ some i
      → ((detach h g).0 ≡ true)
        × (lookup h (detach h g).1.handles ≡ none)
        × ((detach h g).1.live ≡ g.live - 1)
  unfolding detach retire
  detach-known h i g s e =
      let (slot, (at, same)) = slot_at-who_of g.slots i h (s.mapped.leads h i e) in
      let after = leave_site-core slot.site_key slot.site _ in
      rw (detach, e, at)
        (
          refl,
          ap (λ (c : Core). lookup h c.1.1.0) after ∙ lookup-remove_self h g.handles,
          ap (λ (c : Core). c.1.1.1.0) after,
        )

  -- What `attach` makes of a fleet, as it stands once tabs have expired, when it gives a handle.
  pub record IsAttached (h : ℕ) (f g : Fleet S I) : Type 0 where
    pub unknown : lookup h f.handles ≡ none
    pub counted : g.live ≡ suc f.live
    pub detached : (detach h g).0 ≡ true
    pub forgotten : lookup h (detach h g).1.handles ≡ none
    pub restored : (detach h g).1.live ≡ f.live

  install_known :
      (kind : TabInput I) (later : ℕ) (r : Request S I) (h site : ℕ) (at : ℕ × ℕ) (g : Fleet S I)
      → ((install kind later r h site at g).live ≡ g.live + 1)
        × ((i : ℕ) × (lookup h (install kind later r h site at g).handles ≡ some i))
  unfolding install place_slot insert
  install_known kind later r h site at g = elim (List-cases g.free) [
    | inl e ↦
        rw (install, e) (refl, (length g.slots, lookup-insert_self h (length g.slots) g.handles))
    | inr (i, (rest, e)) ↦ rw (install, e) (refl, (i, lookup-insert_self h i g.handles))
  ]

  attached_known :
      (kind : TabInput I) (now later : ℕ) (r : Request S I) (f0 : Fleet S I)
      → let f = (expire now f0).1 in
        let (h, g) = attach kind now later r f0 in
        h ≢ u32_max
        → (h ≡ f.next_handle) × ((g.live ≡ suc f.live) × ((i : ℕ) × (lookup h g.handles ≡ some i)))
  unfolding attach
  attached_known kind now later r f0 n =
      let f = (expire now f0).1 in
      elim (Bool-cases (leb f.max_tabs f.live || f.next_handle == u32_max || f.session_ttl == 0)) [
        | inl t ↦ absurd (n (rw (attach, t) refl))
        | inr t ↦
            let opened = record f { next_handle = f.next_handle + 1 } in
            let (site, g) = site_for r.key opened in
            let (at, g') = hub_open_tab site r.weight g in
            let same : core g' ≡ core opened =
              hub_open_tab-core site r.weight g ∙ site_for-core r.key opened in
            let (count, (i, found)) = install_known kind later r f.next_handle site at g' in
            rw (attach, t)
              (refl, (omega (arith, count, ap (λ (c : Core). c.1.1.1.0) same), (i, found)))
      ]

-- A handle that `attach` gives is not u32::MAX and was not in use in the fleet that remained when tabs
-- had expired; there is one tab more; and detaching it succeeds, forgets it and restores the count.
-- The fleet is any that is reached.
pub attach-IsAttached :
    {S I : Type 0} (kind : TabInput I) (sessions : Sessions S) (now later : ℕ) (r : Request S I)
    (f : Fleet S I)
    → IsReached kind sessions f
    → (attach kind now later r f).0 ≢ u32_max
    → IsAttached (attach kind now later r f).0 (expire now f).1 (attach kind now later r f).1
attach-IsAttached kind sessions now later r f reached n =
    let s = expire-IsSound now f (IsReached-IsSound kind sessions reached) in
    let sound = attach-IsSound kind now later r f (IsReached-IsSound kind sessions reached) in
    let (next, (count, (i, found))) = attached_known kind now later r f n in
    let (h, g) = attach kind now later r f in
    let (done, forgotten, fewer) = detach-known h i g sound found in
    record {
      unknown = elim (Option-cases (lookup h (expire now f).1.handles)) [
        | inl e ↦ e
        | inr (j, e) ↦ absurd (not_below next (s.mapped.issued h j (s.mapped.leads h j e)))
      ];
      counted = count;
      detached = done;
      forgotten = forgotten;
      restored = omega (arith, fewer, count);
    }
