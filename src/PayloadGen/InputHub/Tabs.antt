-- ===== src/PayloadGen/InputHub/Tabs.antt =====
-- Tabs that are opened and closed, and inputs that take their turns, on the slots of a hub.
use vpoiskaxroditeley.Prelude.{
  ℕ, zero, suc, ◌≡◌, ◌≢◌, refl, sym, ap, subst, ◌∙◌, false, Option, none, some, List, [], ◌∷◌, ◌++◌,
  ◌==◌, get_elem?, set, map, arith, Bool-cases, Option-cases, List-cases, inl, inr,
}
use mathlib.Core.Option.{some-injective}
use vpoiskaxroditeley.PayloadGen.InputHub.{
  TabSlot, Turn, InputHub, u32_max, open_tab, open_slot, close_tab,
}
use vpoiskaxroditeley.PayloadGen.InputHub.Tick.{current}
use vpoiskaxroditeley.PayloadGen.InputHub.Slots.{IsFree, reused-IsFree, grown-IsFree, freed-IsFree}

not_max : (site : ℕ) → (site == u32_max) ≡ false → site ≢ u32_max
not_max site h = ground arith

module _ {I : Type 0} where
  abbrev pub sites_of : List (TabSlot I) → List ℕ
  sites_of tabs = map (λ t. t.site) tabs

  -- The free slots are the closed ones, each once.
  abbrev pub IsSound : InputHub I → Type 0
  IsSound h = IsFree (sites_of h.tabs) h.free

  pub sites_of-set :
      (tabs : List (TabSlot I)) (i : ℕ) (slot : TabSlot I)
      → sites_of (set tabs i slot) ≡ set (sites_of tabs) i slot.site
  sites_of-set [] i slot = refl
  sites_of-set (t ∷ tabs) zero slot = refl
  sites_of-set (t ∷ tabs) (suc i) slot = ap (λ l. t.site ∷ l) (sites_of-set tabs i slot)

  pub sites_of-append :
      (tabs : List (TabSlot I)) (slot : TabSlot I)
      → sites_of (tabs ++ slot ∷ []) ≡ sites_of tabs ++ slot.site ∷ []
  sites_of-append [] slot = refl
  sites_of-append (t ∷ tabs) slot = ap (λ l. t.site ∷ l) (sites_of-append tabs slot)

  pub sites_of-get :
      (tabs : List (TabSlot I)) (i : ℕ) (slot : TabSlot I)
      → get_elem? tabs i ≡ some slot
      → get_elem? (sites_of tabs) i ≡ some slot.site
  sites_of-get [] i slot h = cc
  sites_of-get (t ∷ tabs) zero slot h = ap (λ s. some s.site) (some-injective t slot h)
  sites_of-get (t ∷ tabs) (suc i) slot h = sites_of-get tabs i slot h

  -- A slot that keeps its site keeps all the sites.
  pub sites_of-same :
      (tabs : List (TabSlot I)) (i : ℕ) (old slot : TabSlot I)
      → get_elem? tabs i ≡ some old
      → slot.site ≡ old.site
      → sites_of (set tabs i slot) ≡ sites_of tabs
  sites_of-same [] i old slot h e = refl
  sites_of-same (t ∷ tabs) zero old slot h e =
      ap (λ s. s ∷ sites_of tabs) (e ∙ ap (λ s. s.site) (sym (some-injective t old h)))
  sites_of-same (t ∷ tabs) (suc i) old slot h e =
      ap (λ l. t.site ∷ l) (sites_of-same tabs i old slot h e)

  -- What `open_slot` finds is there, and is open.
  pub open_slot_sound :
      (i : ℕ) (tabs : List (TabSlot I)) (slot : TabSlot I)
      → open_slot i tabs ≡ some slot
      → (get_elem? tabs i ≡ some slot) × (slot.site ≢ u32_max)
  unfolding open_slot
  open_slot_sound i tabs slot h = elim (Option-cases (get_elem? tabs i)) [
    | inl f ↦
        let none_some : ◌≡◌ {A = Option (TabSlot I)} none (some slot) = rw (open_slot, f) at h in cc
    | inr (t, f) ↦ elim (Bool-cases (t.site == u32_max)) [
      | inl e ↦
          let none_some : ◌≡◌ {A = Option (TabSlot I)} none (some slot) =
            rw (open_slot, f, e) at h in
          cc
      | inr e ↦
          subst (λ (u : TabSlot I). (get_elem? tabs i ≡ some u) × (u.site ≢ u32_max))
            (some-injective t slot (rw (open_slot, f, e) at h)) (f, not_max t.site e)
    ]
  ]

  pub open_tab-IsSound :
      (site weight : ℕ) (h : InputHub I)
      → site ≢ u32_max
      → IsSound h
      → IsSound (open_tab site weight h).1
  unfolding open_tab
  open_tab-IsSound site weight h n s = elim (List-cases h.free) [
    | inl e ↦
        rw (open_tab, e, sites_of-append)
          (subst (IsFree (sites_of h.tabs ++ site ∷ [])) (sym e)
            (grown-IsFree (sites_of h.tabs) site n (subst (IsFree (sites_of h.tabs)) e s)))
    | inr (i, (rest, e)) ↦
        rw (open_tab, e, sites_of-set)
          (reused-IsFree (sites_of h.tabs) rest i site n (subst (IsFree (sites_of h.tabs)) e s))
  ]

  pub close_tab-IsSound : (tab : ℕ) (h : InputHub I) → IsSound h → IsSound (close_tab tab h)
  unfolding close_tab
  close_tab-IsSound tab h s = elim (Option-cases (open_slot tab h.tabs)) [
    | inl f ↦ rw (close_tab, f) s
    | inr (slot, f) ↦
        let (at, n) = open_slot_sound tab h.tabs slot f in
        rw (close_tab, f, sites_of-set)
          (freed-IsFree (sites_of h.tabs) h.free tab slot.site (sites_of-get h.tabs tab slot at) n
            s)
  ]

  -- What changes no site changes nothing of the free slots.
  pub same_sites-IsFree :
      (tabs tabs' : List (TabSlot I)) (free : List ℕ)
      → sites_of tabs' ≡ sites_of tabs
      → IsFree (sites_of tabs) free
      → IsFree (sites_of tabs') free
  same_sites-IsFree tabs tabs' free e s = subst (λ l. IsFree l free) (sym e) s

  pub current_sound :
      (t : Turn) (tabs : List (TabSlot I)) (slot : TabSlot I) (input : I)
      → current t tabs ≡ some (slot, input)
      → get_elem? tabs t.tab ≡ some slot
  unfolding current
  current_sound t tabs slot input h = elim (Option-cases (open_slot t.tab tabs)) [
    | inl f ↦
        let none_some : ◌≡◌ {A = Option (TabSlot I × I)} none (some (slot, input)) =
          rw (current, f) at h in
        cc
    | inr (s, f) ↦
        let (at, n) = open_slot_sound t.tab tabs s f in
        elim (Bool-cases (s.input_gen == t.input_gen)) [
          | inl g ↦ elim (Option-cases s.input) [
            | inl k ↦
                let none_some : ◌≡◌ {A = Option (TabSlot I × I)} none (some (slot, input)) =
                  rw (current, f, g, k) at h in
                cc
            | inr (i, k) ↦
                let same = some-injective (s, i) (slot, input) (rw (current, f, g, k) at h) in
                subst (λ (u : TabSlot I). get_elem? tabs t.tab ≡ some u) (ap (λ p. p.0) same) at
          ]
          | inr g ↦
              let none_some : ◌≡◌ {A = Option (TabSlot I × I)} none (some (slot, input)) =
                rw (current, f, g) at h in
              cc
        ]
  ]
