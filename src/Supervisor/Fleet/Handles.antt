-- ===== src/Supervisor/Fleet/Handles.antt =====
-- Tabs that are attached, detached and expire: their handles and slots.
use vpoiskaxroditeley.Prelude.{
  ℕ, zero, suc, ◌+◌, ◌-◌, ◌≡◌, refl, sym, ap, subst, ◌∙◌, ◌||◌, Option, none, some, List, [], ◌∷◌,
  ◌++◌, ◌==◌, ==_iff, ltb, leb, get_elem?, set, map, arith, Bool-cases, Option-cases, List-cases,
  inl, inr, if_both, length-map,
}
use mathlib.Core.Option.{some-injective}
use vpoiskaxroditeley.RuntimeExec.Tails.{lookup, remove, insert}
use vpoiskaxroditeley.PayloadGen.InputHub.{TabInput, u32_max}
use vpoiskaxroditeley.Supervisor.Fleet.{
  FleetSlot, Expiry, Fleet, slot_at, leave_site, retire, detach, expire_loop, expire, hub_open_tab,
  idlest,
}
use vpoiskaxroditeley.Supervisor.Fleet.Attach.{
  Request, site_for, place_slot, install, attach, attach_slot,
}
use vpoiskaxroditeley.Supervisor.Fleet.Links.{
  IsLinked, gone-IsLinked, reused-IsLinked, grown-IsLinked,
}

abbrev pub Core : Type 0
Core = List (Option ℕ) × (List ℕ × (List (ℕ × ℕ) × (ℕ × ℕ)))

abbrev pub IsCore : Core → Type 0
IsCore (who, (free, (handles, (count, next)))) = IsLinked who free handles count next

abbrev WithNext : ℕ → Core → Type 0
WithNext next (who, (free, (handles, (count, old)))) = IsLinked who free handles count next

module _ {S : Type 0} where
  abbrev pub who : Option (FleetSlot S) → Option ℕ
  who none = none
  who (some slot) = some slot.handle

  abbrev pub who_of : List (Option (FleetSlot S)) → List (Option ℕ)
  who_of slots = map who slots

  pub who_of-set :
      (slots : List (Option (FleetSlot S))) (i : ℕ) (o : Option (FleetSlot S))
      → who_of (set slots i o) ≡ set (who_of slots) i (who o)
  who_of-set [] i o = refl
  who_of-set (x ∷ slots) zero o = refl
  who_of-set (x ∷ slots) (suc i) o = ap (λ l. who x ∷ l) (who_of-set slots i o)

  who_of-append :
      (slots : List (Option (FleetSlot S))) (o : Option (FleetSlot S))
      → who_of (slots ++ o ∷ []) ≡ who_of slots ++ who o ∷ []
  who_of-append [] o = refl
  who_of-append (x ∷ slots) o = ap (λ l. who x ∷ l) (who_of-append slots o)

  -- The slot at a place and whose it is.
  pub who_of-slot_at :
      (slots : List (Option (FleetSlot S))) (i : ℕ) (slot : FleetSlot S)
      → slot_at i slots ≡ some slot
      → get_elem? (who_of slots) i ≡ some (some slot.handle)
  who_of-slot_at [] i slot h = cc
  who_of-slot_at (x ∷ slots) zero slot h = ap (λ o. some (who o)) h
  who_of-slot_at (x ∷ slots) (suc i) slot h = who_of-slot_at slots i slot h

  pub slot_at-who_of :
      (slots : List (Option (FleetSlot S))) (i h : ℕ)
      → get_elem? (who_of slots) i ≡ some (some h)
      → (slot : FleetSlot S) × ((slot_at i slots ≡ some slot) × (slot.handle ≡ h))
  slot_at-who_of [] i h e = cc
  slot_at-who_of (none ∷ slots) zero h e = absurd cc
  slot_at-who_of (some slot ∷ slots) zero h e =
      (slot, (refl, some-injective slot.handle h (some-injective (some slot.handle) (some h) e)))
  slot_at-who_of (x ∷ slots) (suc i) h e = slot_at-who_of slots i h e

module _ {S I : Type 0} where
  abbrev pub core : Fleet S I → Core
  core f = (who_of f.slots, (f.free, (f.handles, (f.live, f.next_handle))))

  -- The slots, their free places, the handles and the count agree.
  abbrev pub IsSound : Fleet S I → Type 0
  IsSound f = IsCore (core f)

  pub leave_site-core :
      (site_key site : ℕ) (f : Fleet S I) → core (leave_site site_key site f) ≡ core f
  unfolding leave_site
  leave_site-core site_key site f = elim (Option-cases (lookup site_key f.sites)) [
    | inl e ↦ rw (leave_site, e) refl
    | inr (entry, e) ↦
        rw (leave_site, e) (if_both (λ g. core g ≡ core f) (entry.tabs - 1 == 0) refl refl)
  ]

  -- A slot is emptied, its handle forgotten and the slot retired.
  vacated-IsSound :
      (i h : ℕ) (slot : FleetSlot S) (f : Fleet S I)
      → slot_at i f.slots ≡ some slot
      → slot.handle ≡ h
      → IsSound f
      → IsSound
          (retire i slot (record f { slots = set f.slots i none; handles = remove h f.handles }))
  unfolding retire
  vacated-IsSound i h slot f at same s =
      subst IsCore (sym (leave_site-core slot.site_key slot.site _)) (
        subst (λ w. IsLinked w (i ∷ f.free) (remove h f.handles) (f.live - 1) f.next_handle)
          (sym (who_of-set f.slots i none))
          (gone-IsLinked (who_of f.slots) f.free f.handles f.live f.next_handle h i
            (who_of-slot_at f.slots i slot at ∙ ap (λ k. some (some k)) same) s))

  pub detach-IsSound : (handle : ℕ) (f : Fleet S I) → IsSound f → IsSound (detach handle f).1
  unfolding detach
  detach-IsSound handle f s = elim (Option-cases (lookup handle f.handles)) [
    | inl e ↦ rw (detach, e) s
    | inr (i, e) ↦
        let (slot, (at, same)) = slot_at-who_of f.slots i handle (s.mapped.leads handle i e) in
        rw (detach, e, at) (vacated-IsSound i handle slot f at same s)
  ]

  expire_loop-IsSound :
      (now : ℕ) (l : List Expiry) (f : Fleet S I) → IsSound f → IsSound (expire_loop now l f).1
  unfolding expire_loop
  expire_loop-IsSound now [] f s = s
  expire_loop-IsSound now (e ∷ l) f s = elim (Bool-cases (ltb now e.exp)) [
    | inl t ↦ rw (expire_loop, t) s
    | inr t ↦ elim (Option-cases (slot_at e.idx f.slots)) [
      | inl a ↦ rw (expire_loop, t, a) (expire_loop-IsSound now l f s)
      | inr (slot, a) ↦ elim (Bool-cases (slot.handle == e.handle)) [
        | inl m ↦
            rw (expire_loop, t, a, m)
              (expire_loop-IsSound now l _
                (vacated-IsSound e.idx e.handle slot f a ((==_iff slot.handle e.handle).0 m) s))
        | inr m ↦ rw (expire_loop, t, a, m) (expire_loop-IsSound now l f s)
      ]
    ]
  ]

  pub expire-IsSound : (now : ℕ) (f : Fleet S I) → IsSound f → IsSound (expire now f).1
  unfolding expire
  expire-IsSound now f s = expire_loop-IsSound now f.expiry_heap f s

  pub site_for-core : (key : ℕ) (f : Fleet S I) → core (site_for key f).1 ≡ core f
  unfolding site_for
  site_for-core key f = elim (Option-cases (lookup key f.sites)) [
    | inr (entry, e) ↦ rw (site_for, e) refl
    | inl e ↦ elim (List-cases f.hubs) [
      | inl h ↦ rw (site_for, e, h) refl
      | inr (hub, (hubs, h)) ↦ rw (site_for, e, h) refl
    ]
  ]

  pub hub_open_tab-core :
      (site weight : ℕ) (f : Fleet S I) → core (hub_open_tab site weight f).1 ≡ core f
  unfolding hub_open_tab
  hub_open_tab-core site weight f = elim (Option-cases (get_elem? f.hubs (idlest f.hubs))) [
    | inl e ↦ rw (hub_open_tab, e) refl
    | inr (hub, e) ↦ rw (hub_open_tab, e) refl
  ]

  -- The place of the slot of a handle, when the next handle is one more.
  install-IsSound :
      (kind : TabInput I) (later : ℕ) (r : Request S I) (handle site : ℕ) (at : ℕ × ℕ)
      (g : Fleet S I)
      → IsCore (who_of g.slots, (g.free, (g.handles, (g.live, handle))))
      → g.next_handle ≡ suc handle
      → IsSound (install kind later r handle site at g)
  unfolding install place_slot attach_slot insert
  install-IsSound kind later r handle site at g s next = elim (List-cases g.free) [
    | inl e ↦
        let empty = subst (λ fr. IsLinked (who_of g.slots) fr g.handles g.live handle) e s in
        rw (install, e, who_of-append, next)
          (subst
            (λ n.
              IsLinked (who_of g.slots ++ some handle ∷ []) [] (insert handle n g.handles)
                (g.live + 1) (suc handle))
            (length-map g.slots who)
            (grown-IsLinked (who_of g.slots) g.handles g.live handle empty))
    | inr (i, (rest, e)) ↦
        let empty = subst (λ fr. IsLinked (who_of g.slots) fr g.handles g.live handle) e s in
        rw (install, e, who_of-set, next)
          (reused-IsLinked (who_of g.slots) rest g.handles g.live handle i empty)
  ]

  pub attach-IsSound :
      (kind : TabInput I) (now later : ℕ) (r : Request S I) (f : Fleet S I)
      → IsSound f
      → IsSound (attach kind now later r f).1
  unfolding attach
  attach-IsSound kind now later r f0 s0 =
      let f = (expire now f0).1 in
      let s = expire-IsSound now f0 s0 in
      let opened = record f { next_handle = f.next_handle + 1 } in
      let (site, g) = site_for r.key opened in
      let (at, g') = hub_open_tab site r.weight g in
      let same : core g' ≡ core opened =
        hub_open_tab-core site r.weight g ∙ site_for-core r.key opened in
      if_both (λ (p : ℕ × Fleet S I). IsSound p.1)
        (leb f.max_tabs f.live || f.next_handle == u32_max || f.session_ttl == 0) {x = (u32_max, f)}
        {y = (f.next_handle, install kind later r f.next_handle site at g')} s
        (install-IsSound kind later r f.next_handle site at g'
          (subst (WithNext f.next_handle) (sym same) s)
          (omega (arith, ap (λ (c : Core). c.1.1.1.1) same)))
