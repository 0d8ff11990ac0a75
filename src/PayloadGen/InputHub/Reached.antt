-- ===== src/PayloadGen/InputHub/Reached.antt =====
-- The hubs that can be reached, and what a tab that is opened in one gets.
use vpoiskaxroditeley.Prelude.{
  ℕ, zero, suc, ◌+◌, ◌-◌, ◌≡◌, ◌≢◌, refl, sym, ap, subst, ◌∙◌, Option, none, some, List, [], ◌∷◌,
  ◌++◌, ◌==◌, length, get_elem?, set, arith, Bool-cases, Option-cases, List-cases, inl, inr,
  get_elem?-set_self, get_elem?-set_ne, if_both, min, ltb, ◌||◌,
}
use vpoiskaxroditeley.PayloadGen.Cursors.{RawEvent}
use mathlib.Core.Option.{some-injective}
use vpoiskaxroditeley.PayloadGen.InputHub.{
  Calibration, TabInput, TabSlot, Turn, InputHub, u32_max, open_tab, open_slot, close_tab,
  live_slots, live_tabs, new_hub,
}
use vpoiskaxroditeley.PayloadGen.InputHub.Tick.{
  set_input, current, take_turn, compact_from, compact, compact_if_long, tick_loop, tick,
}
use vpoiskaxroditeley.PayloadGen.InputHub.Slots.{
  IsFree, live, live-set, live-append, open_count-one, get_elem?-bound,
}
use vpoiskaxroditeley.PayloadGen.InputHub.Tabs.{
  sites_of, IsSound, sites_of-same, open_slot_sound, same_sites-IsFree, current_sound,
  open_tab-IsSound, close_tab-IsSound, sites_of-set, sites_of-append, sites_of-get,
}

module _ {I : Type 0} (kind : TabInput I) where
  pub set_input-IsSound :
      (calibs : List Calibration) (tab : ℕ) (input : I) (h : InputHub I)
      → IsSound h
      → IsSound (set_input kind calibs tab input h)
  unfolding set_input
  set_input-IsSound calibs tab input h s = elim (Option-cases (open_slot tab h.tabs)) [
    | inl f ↦ rw (set_input, f) s
    | inr (slot, f) ↦
        rw (set_input, f)
          (same_sites-IsFree h.tabs _ h.free
            (sites_of-same h.tabs tab slot _ (open_slot_sound tab h.tabs slot f).0 refl) s)
  ]

  take_turn-IsSound :
      (now_us : ℕ) (t : Turn) (l : List Turn) (h : InputHub I)
      → IsSound h
      → IsSound (take_turn kind now_us t l h).1.1
  unfolding take_turn
  take_turn-IsSound now_us t l h s = elim (Option-cases (current t h.tabs)) [
    | inl f ↦ rw (take_turn, f) s
    | inr ((slot, input), f) ↦
        let at = current_sound t h.tabs slot input f in
        elim (Bool-cases (kind.done (kind.step_into now_us input).1)) [
          | inl d ↦
              rw (take_turn, f, d)
                (same_sites-IsFree h.tabs _ h.free (sites_of-same h.tabs t.tab slot _ at refl) s)
          | inr d ↦
              rw (take_turn, f, d)
                (same_sites-IsFree h.tabs _ h.free (sites_of-same h.tabs t.tab slot _ at refl) s)
        ]
  ]

  compact_from-sites_of :
      (calibs : List Calibration) (h : InputHub I) (i : ℕ) (l : List (TabSlot I))
      → sites_of (compact_from kind calibs h i l).0 ≡ sites_of l
  unfolding compact_from
  compact_from-sites_of calibs h i [] = refl
  compact_from-sites_of calibs h i (slot ∷ l) =
      let rest = compact_from-sites_of calibs h (suc i) l in
      elim (Bool-cases (slot.site == u32_max)) [
        | inl e ↦ rw (compact_from, e) (ap (λ m. slot.site ∷ m) rest)
        | inr e ↦ elim (Option-cases slot.input) [
          | inl f ↦ rw (compact_from, e, f) (ap (λ m. slot.site ∷ m) rest)
          | inr (input, f) ↦ rw (compact_from, e, f) (ap (λ m. slot.site ∷ m) rest)
        ]
      ]

  compact_if_long-IsSound :
      (calibs : List Calibration) (h : InputHub I)
      → IsSound h
      → IsSound (compact_if_long kind calibs h)
  unfolding compact_if_long compact
  compact_if_long-IsSound calibs h s =
      if_both IsSound _
        (same_sites-IsFree h.tabs _ h.free (compact_from-sites_of calibs h 0 h.tabs) s) s

  -- What holds of the hub at the end of the loop, if it ends.
  abbrev EndsSound : Option (List (ℕ × RawEvent) × (ℕ × InputHub I)) → Type 0
  EndsSound none = Unit {0}
  EndsSound (some (evs, (steps, h))) = IsSound h

  EndsSound-with :
      (evs : List (ℕ × RawEvent)) (rest : Option (List (ℕ × RawEvent) × (ℕ × InputHub I)))
      → EndsSound rest
      → EndsSound (elim rest [ none ↦ none | some (evs', end) ↦ some (evs ++ evs', end) ])
  EndsSound-with evs none h = h
  EndsSound-with evs (some (evs', (steps, hub))) h = h

  tick_loop-EndsSound :
      (fuel now_us steps : ℕ) (h : InputHub I)
      → IsSound h
      → EndsSound (tick_loop kind fuel now_us steps h)
  unfolding tick_loop
  tick_loop-EndsSound zero now_us steps h s = elim (List-cases h.heap) [
    | inl e ↦ rw (tick_loop, e) s
    | inr (t, (l, e)) ↦
        rw (tick_loop, e) (if_both EndsSound (ltb now_us t.due || steps == 256) s tt)
  ]
  tick_loop-EndsSound (suc fuel) now_us steps h s = elim (List-cases h.heap) [
    | inl e ↦ rw (tick_loop, e) s
    | inr (t, (l, e)) ↦
        let (evs, (taken, h')) = take_turn kind now_us t l h in
        rw (tick_loop, e)
          (if_both EndsSound (ltb now_us t.due || steps == 256) s (
            EndsSound-with evs (tick_loop kind fuel now_us (steps + taken) h') (
              tick_loop-EndsSound fuel now_us (steps + taken) h'
                (take_turn-IsSound now_us t l h s))))
  ]

  tick-IsSound :
      (calibs : List Calibration) (now_us : ℕ) (h h' : InputHub I) (evs : List (ℕ × RawEvent))
      → tick kind calibs now_us h ≡ some (evs, h')
      → IsSound h
      → IsSound h'
  unfolding tick
  tick-IsSound calibs now_us h h' evs e s =
      let end = tick_loop kind (length h.heap + 256) now_us 0 h in
      let sound = tick_loop-EndsSound (length h.heap + 256) now_us 0 h s in
      elim (Option-cases end) [
        | inl f ↦
            let none_some : ◌≡◌ {A = Option (List (ℕ × RawEvent) × InputHub I)} none
                (some (evs, h')) =
              rw (tick, f) at e in
            cc
        | inr ((evs', (steps, hub)), f) ↦
            let same =
              some-injective (evs', compact_if_long kind calibs hub) (evs, h')
                (rw (tick, f) at e) in
            subst (λ (k : InputHub I). IsSound k) (ap (λ p. p.1) same)
              (compact_if_long-IsSound calibs hub (subst EndsSound f sound))
      ]

  -- The hubs that the operations on tabs and inputs lead to.
  pub data IsReached : InputHub I → Type 0 where
    begins : IsReached new_hub
    opens :
        (site weight : ℕ) {h : InputHub I}
        → site ≢ u32_max
        → IsReached h
        → IsReached (open_tab site weight h).1
    closes : (tab : ℕ) {h : InputHub I} → IsReached h → IsReached (close_tab tab h)
    sets :
        (calibs : List Calibration) (tab : ℕ) (input : I) {h : InputHub I}
        → IsReached h
        → IsReached (set_input kind calibs tab input h)
    ticks :
        (calibs : List Calibration) (now_us : ℕ) {h h' : InputHub I} {evs : List (ℕ × RawEvent)}
        → tick kind calibs now_us h ≡ some (evs, h')
        → IsReached h
        → IsReached h'

  pub IsReached-IsSound : {h : InputHub I} → IsReached h → IsSound h
  unfolding new_hub live
  IsReached-IsSound begins = record { closed = tt; distinct = tt; counted = omega arith }
  IsReached-IsSound (opens site weight n r) = open_tab-IsSound site weight _ n (IsReached-IsSound r)
  IsReached-IsSound (closes tab r) = close_tab-IsSound tab _ (IsReached-IsSound r)
  IsReached-IsSound (sets calibs tab input r) =
      set_input-IsSound calibs tab input _ (IsReached-IsSound r)
  IsReached-IsSound (ticks calibs now_us e r) =
      tick-IsSound calibs now_us _ _ _ e (IsReached-IsSound r)

live_slots-live : {I : Type 0} (tabs : List (TabSlot I)) → live_slots tabs ≡ live (sites_of tabs)
unfolding live_slots live
live_slots-live [] = refl
live_slots-live (t ∷ tabs) = omega (arith, live_slots-live tabs)

pub get_elem?-append_ne :
    {A : Type 0} (l : List A) (x : A) (j : ℕ)
    → length l ≢ j
    → get_elem? (l ++ x ∷ []) j ≡ get_elem? l j
get_elem?-append_ne [] x zero n = absurd (n refl)
get_elem?-append_ne [] x (suc j) n = refl
get_elem?-append_ne (y ∷ l) x zero n = refl
get_elem?-append_ne (y ∷ l) x (suc j) n = get_elem?-append_ne l x j (λ e. n (ap suc e))

pub get_elem?-length : {A : Type 0} (l : List A) → get_elem? l (length l) ≡ none
get_elem?-length [] = refl
get_elem?-length (y ∷ l) = get_elem?-length l

pub get_elem?-append_length :
    {A : Type 0} (l : List A) (x : A) → get_elem? (l ++ x ∷ []) (length l) ≡ some x
get_elem?-append_length [] x = refl
get_elem?-append_length (y ∷ l) x = get_elem?-append_length l x

module _ {I : Type 0} where
  -- What opening a tab gives: a place that no open tab has, and no other place is touched.
  pub record IsFresh (site tab : ℕ) (h h' : InputHub I) : Type 0 where
    pub unused : open_slot tab h.tabs ≡ none
    pub owned : get_elem? (sites_of h'.tabs) tab ≡ some site
    pub others : (j : ℕ) → tab ≢ j → get_elem? h'.tabs j ≡ get_elem? h.tabs j
    pub counted : live_tabs h' ≡ suc (live_tabs h)

  closed_unused :
      (tabs : List (TabSlot I)) (i : ℕ)
      → get_elem? (sites_of tabs) i ≡ some u32_max
      → open_slot i tabs ≡ none
  unfolding open_slot
  closed_unused tabs i h = elim (Option-cases (open_slot i tabs)) [
    | inl e ↦ e
    | inr (slot, e) ↦
        let (at, n) = open_slot_sound i tabs slot e in
        absurd (n (some-injective slot.site u32_max (sym (sites_of-get tabs i slot at) ∙ h)))
  ]

  -- the slot that a tab begins with
  abbrev begun : ℕ → ℕ → TabSlot I
  begun site weight = record {
    site = site;
    weight = weight;
    input_gen = 0;
    cached_rank = u32_max - min weight (u32_max - 1);
    input = none;
  }

  open_tab-IsFresh :
      (site weight : ℕ) (h : InputHub I)
      → site ≢ u32_max
      → IsSound h
      → IsFresh site (open_tab site weight h).0 h (open_tab site weight h).1
  unfolding open_tab live_tabs open_slot
  open_tab-IsFresh site weight h n s =
      let slot = begun site weight in
      elim (List-cases h.free) [
        | inl e ↦
            rw (open_tab, e)
              (record {
                unused = rw (open_slot, get_elem?-length h.tabs) refl;
                owned =
                    sites_of-get (h.tabs ++ slot ∷ []) (length h.tabs) slot
                      (get_elem?-append_length h.tabs slot);
                others = λ j m. get_elem?-append_ne h.tabs slot j m;
                counted = omega (
                  arith,
                  live_slots-live (h.tabs ++ slot ∷ []),
                  ap live (sites_of-append h.tabs slot),
                  live-append (sites_of h.tabs) site,
                  open_count-one site n,
                  live_slots-live h.tabs,
                );
              })
        | inr (i, (rest, e)) ↦
            let closed = (subst (IsFree (sites_of h.tabs)) e s).closed.0 in
            rw (open_tab, e)
              (record {
                unused = closed_unused h.tabs i closed;
                owned = rw (sites_of-set) (
                    get_elem?-set_self (sites_of h.tabs) i site
                      (get_elem?-bound (sites_of h.tabs) i u32_max closed));
                others = λ j m. get_elem?-set_ne h.tabs slot m;
                counted = omega (
                  arith,
                  live_slots-live (set h.tabs i slot),
                  ap live (sites_of-set h.tabs i slot),
                  live-set (sites_of h.tabs) i u32_max site closed,
                  open_count-one site n,
                  live_slots-live h.tabs,
                );
              })
      ]

-- Whatever tabs were opened, closed and given inputs, and whatever ticks passed, a tab that is opened
-- gets a place that no open tab has, takes no other tab's place away, and is one more open tab; its
-- site is not u32::MAX, the mark of a closed one.
pub IsReached-IsFresh :
    {I : Type 0} (kind : TabInput I) (site weight : ℕ) (h : InputHub I)
    → site ≢ u32_max
    → IsReached kind h
    → IsFresh site (open_tab site weight h).0 h (open_tab site weight h).1
IsReached-IsFresh kind site weight h n r =
    open_tab-IsFresh site weight h n (IsReached-IsSound kind r)
