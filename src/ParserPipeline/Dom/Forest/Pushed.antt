-- ===== src/ParserPipeline/Dom/Forest/Pushed.antt =====
-- A node that is pushed goes behind the last child of its parent, at a free place.
use vpoiskaxroditeley.Prelude.{
  ℕ, suc, ◌+◌, ◌≤◌, ◌<◌, ◌≡◌, ◌≢◌, refl, sym, ap, ◌∙◌, subst, true, false, ◌==◌, arith, List, [],
  ◌∷◌, length, ◌⊎◌, inl, inr, Bool-cases, ==_iff, Option, none, some, ltb, lt→ltb, List-cases,
}
use vpoiskaxroditeley.ParserPipeline.Scratch.{Span}
use vpoiskaxroditeley.ParserPipeline.Dom.{
  Node, DomTree, u32_max, max_nodes, at, link_child, alloc_slot, place, push_at, push_slot,
}
use vpoiskaxroditeley.ParserPipeline.Dom.Forest.{Forest, has, size, has-lt}
use vpoiskaxroditeley.ParserPipeline.Dom.Forest.Attached.{not_eq}
use vpoiskaxroditeley.ParserPipeline.Dom.Forest.Linked.{IsForest, attach}
use vpoiskaxroditeley.ParserPipeline.Dom.Forest.Roots.{link_child-IsForest}
use vpoiskaxroditeley.ParserPipeline.Dom.Forest.Sound.{elem, IsOnce, IsSound, link_child-Keeps}
use vpoiskaxroditeley.ParserPipeline.Dom.Forest.Placed.{
  grown, has-attach, le-grown, length-grown, length-place, place-IsForest, place-IsLoose,
  place-ends, place_ne, place_self, size-attach,
}

-- What a push gives: nothing where there is no place; else a node that was not in the forest, alive and
-- the last child of its parent.
abbrev pub IsPushed : ℕ → ℕ → DomTree → Forest → Option ℕ × DomTree → Type 0
IsPushed p flags t f r =
    ((r.0 ≡ none) × (r.1 ≡ record t { truncated = true }) × (size f ≡ max_nodes))
    ⊎ ((c : ℕ) × (r.0 ≡ some c)
        × (has c f ≡ false)
        × IsSound r.1 (attach p c f)
        × ((at r.1 c).flags ≡ flags))

module _ (p tag flags index : ℕ) (span : Span) (t : DomTree) (f : Forest)
    (where_to : (p ≡ u32_max) ⊎ (has p f ≡ true)) (some_flags : flags ≢ 0) (s : IsForest t f)
    (out : has index f ≡ false) (small : index < length (grown index tag flags span t).nodes)
    (few : length (grown index tag flags span t).nodes ≤ max_nodes)
    (vacant : (y : ℕ)
      → elem y t.free ≡ true
      → (has y f ≡ false) × (y < length t.nodes) × ((at t y).flags ≡ 0))
    (taken : elem index t.free ≡ false) (once : IsOnce t.free)
    (counted : suc (size f) + length t.free ≡ length (grown index tag flags span t).nodes)
    (alive : (y : ℕ) → has y f ≡ true → (at t y).flags ≢ 0)
    (known : (y : ℕ) → y < length t.nodes → (at t y).flags ≢ 0 → has y f ≡ true) where
  abbrev placed : DomTree
  placed = place index tag flags span t

  index_flags : (at (link_child p index placed) index).flags ≡ flags
  index_flags =
      (link_child-Keeps placed p index index).0
      ∙ ap (λ (n : Node). n.flags) (place_self index tag flags span t small)

  other_flags : (y : ℕ) → y ≢ index → (at (link_child p index placed) y).flags ≡ (at t y).flags
  other_flags y h =
      (link_child-Keeps placed p index y).0
      ∙ ap (λ (n : Node). n.flags) (place_ne index tag flags span t y h)

  same_free : (link_child p index placed).free ≡ t.free
  same_free = (link_child-Keeps placed p index index).2 ∙ (place-ends index tag flags span t).2

  same_length :
      length (link_child p index placed).nodes ≡ length (grown index tag flags span t).nodes
  same_length = (link_child-Keeps placed p index index).1 ∙ length-place index tag flags span t

  not_max : has p f ≡ true → p ≢ u32_max
  not_max h e =
      let lt =
        has-lt (length t.nodes) (at t) p u32_max u32_max t.roots_head t.roots_tail f s.linked h in
      absurd (omega (arith, lt, s.few, e))

  -- a place other than the new one was there before
  before :
      (y : ℕ) → y ≢ index → y < length (grown index tag flags span t).nodes → y < length t.nodes
  before y apart lt = elim (Bool-cases (index == length t.nodes)) [
    | inl is ↦
        let e = (==_iff index (length t.nodes)).0 is in
        let size_g : length (grown index tag flags span t).nodes ≡ suc (length t.nodes) =
          rw (length-grown index tag flags span t, is) refl in
        let other : y ≢ length t.nodes = λ k. apart (k ∙ sym e) in omega (arith, size_g, lt, other)
    | inr not ↦
        let size_g : length (grown index tag flags span t).nodes ≡ length t.nodes =
          rw (length-grown index tag flags span t, not) refl in
        omega (arith, size_g, lt)
  ]

  pub linked-IsSound : IsSound (link_child p index placed) (attach p index f)
  linked-IsSound =
      let has-it = has-attach p index f where_to s.distinct not_max in
      record {
        forest =
            link_child-IsForest placed p index f
              (subst (λ m. index < m) (sym (length-place index tag flags span t)) small)
              (place-IsForest index tag flags span t f out s small few) where_to out
              (place-IsLoose index tag flags span t f out s small few);
        vacant = λ y h.
            let free = subst (λ l. elem y l ≡ true) same_free h in
            let (absent, lt, zeros) = vacant y free in
            let other : y ≢ index = λ e. cc (subst (λ v. elem v t.free ≡ true) e free) in
            (
              has-it y ∙ rw (not_eq y index other) absent,
              omega (arith, same_length, le-grown index tag flags span t, lt),
              other_flags y other ∙ zeros,
            );
        once = subst IsOnce (sym same_free) once;
        counted = omega (
          arith,
          ap (λ (l : List ℕ). length l) same_free,
          same_length,
          counted,
          size-attach p index f where_to s.distinct not_max,
        );
        alive = λ y h. elim (Bool-cases (y == index)) [
          | inl is ↦
              subst (λ v. (at (link_child p index placed) v).flags ≢ 0)
                (sym ((==_iff y index).0 is)) (λ e. some_flags (sym index_flags ∙ e))
          | inr other ↦
              let apart : y ≢ index = λ e. absurd (ground arith) in
              let old : has y f ≡ true = sym (has-it y ∙ rw other refl) ∙ h in
              λ e. alive y old (sym (other_flags y apart) ∙ e)
        ];
        known = λ y small_y living. elim (Bool-cases (y == index)) [
          | inl is ↦ has-it y ∙ rw is refl
          | inr other ↦
              let apart : y ≢ index = λ e. absurd (ground arith) in
              has-it y
              ∙ rw other (
                  known y (before y apart (omega (arith, same_length, small_y)))
                    (λ e. living (other_flags y apart ∙ e)))
        ];
      }

-- A place from the stack of free ones.
reused :
    (p tag flags i : ℕ) (span : Span) (rest : List ℕ) (t : DomTree) (f : Forest)
    → (p ≡ u32_max) ⊎ (has p f ≡ true)
    → flags ≢ 0
    → IsSound t f
    → t.free ≡ i ∷ rest
    → (has i f ≡ false)
      × IsSound (link_child p i (place i tag flags span (record t { free = rest }))) (attach p i f)
      × ((at (link_child p i (place i tag flags span (record t { free = rest }))) i).flags ≡ flags)
unfolding elem
reused p tag flags i span rest t f where_to some_flags s e =
    let u : DomTree = record t { free = rest } in
    let own : IsOnce (i ∷ rest) = subst IsOnce e s.once in
    let vacant : (y : ℕ)
        → elem y (i ∷ rest) ≡ true
        → (has y f ≡ false) × (y < length t.nodes) × ((at t y).flags ≡ 0) =
      λ y h. s.vacant y (subst (λ l. elem y l ≡ true) (sym e) h) in
    let (out, lt, _) = vacant i (ground arith) in
    let size_u : length (grown i tag flags span u).nodes ≡ length t.nodes =
      rw
        (
          length-grown i tag flags span u,
          not_eq i (length t.nodes) (λ k. absurd (omega (arith, lt, k))),
        )
        refl in
    let forest : IsForest u f = record {
      linked = s.forest.linked;
      distinct = s.forest.distinct;
      few = s.forest.few;
    } in
    let small : i < length (grown i tag flags span u).nodes = omega (arith, size_u, lt) in
    let few : length (grown i tag flags span u).nodes ≤ max_nodes =
      omega (arith, size_u, s.forest.few) in
    let below : (y : ℕ)
        → elem y rest ≡ true
        → (has y f ≡ false) × (y < length t.nodes) × ((at t y).flags ≡ 0) =
      λ y h. vacant y (ground arith) in
    let counted : suc (size f) + length rest ≡ length (grown i tag flags span u).nodes =
      omega (arith, size_u, s.counted, ap (λ (l : List ℕ). length l) e) in
    (
      out,
      linked-IsSound p tag flags i span u f where_to some_flags forest out small few below own.0
          own.1 counted s.alive s.known,
      index_flags p tag flags i span u f where_to some_flags forest out small few below own.0 own.1
          counted s.alive s.known,
    )

-- A place behind the others.
appended :
    (p tag flags : ℕ) (span : Span) (t : DomTree) (f : Forest)
    → (p ≡ u32_max) ⊎ (has p f ≡ true)
    → flags ≢ 0
    → IsSound t f
    → t.free ≡ []
    → length t.nodes < max_nodes
    → let i = length t.nodes in
      (has i f ≡ false)
      × IsSound (link_child p i (place i tag flags span t)) (attach p i f)
      × ((at (link_child p i (place i tag flags span t)) i).flags ≡ flags)
unfolding elem
appended p tag flags span t f where_to some_flags s e lt =
    let i = length t.nodes in
    let out : has i f ≡ false = elim (Bool-cases (has i f)) [
      | inl h ↦
          let less =
            has-lt i (at t) i u32_max u32_max t.roots_head t.roots_tail f s.forest.linked h in
          absurd (omega (arith, less))
      | inr h ↦ h
    ] in
    let same : (i == i) ≡ true = ground arith in
    let size_t : length (grown i tag flags span t).nodes ≡ suc i =
      rw (length-grown i tag flags span t, same) refl in
    let small : i < length (grown i tag flags span t).nodes = omega (arith, size_t) in
    let few : length (grown i tag flags span t).nodes ≤ max_nodes = omega (arith, size_t, lt) in
    let taken : elem i t.free ≡ false = rw e refl in
    let counted : suc (size f) + length t.free ≡ length (grown i tag flags span t).nodes =
      omega (arith, size_t, s.counted) in
    (
      out,
      linked-IsSound p tag flags i span t f where_to some_flags s.forest out small few s.vacant
          taken s.once counted s.alive s.known,
      index_flags p tag flags i span t f where_to some_flags s.forest out small few s.vacant taken
          s.once counted s.alive s.known,
    )

alloc_free :
    (i : ℕ) (rest : List ℕ) (t : DomTree)
    → t.free ≡ i ∷ rest
    → alloc_slot t ≡ (some i, record t { free = rest })
unfolding alloc_slot
alloc_free i rest t e = rw e refl

alloc_end :
    (t : DomTree)
    → t.free ≡ []
    → length t.nodes < max_nodes
    → alloc_slot t ≡ (some (length t.nodes), t)
unfolding alloc_slot
alloc_end t e h = rw (e, lt→ltb (length t.nodes) max_nodes h) refl

alloc_none :
    (t : DomTree)
    → t.free ≡ []
    → ltb (length t.nodes) max_nodes ≡ false
    → alloc_slot t ≡ (none, record t { truncated = true })
unfolding alloc_slot
alloc_none t e h = rw (e, h) refl

-- A node that is pushed below a node of the tree, or as a root, is its last child there, alive, at a
-- place where no node was; every other node stays where it was, and the tree stays sound. Only where
-- there are as many nodes as there may be is nothing pushed, which is noted.
pub push_slot-IsPushed :
    (p tag flags : ℕ) (span : Span) (t : DomTree) (f : Forest)
    → (p ≡ u32_max) ⊎ (has p f ≡ true)
    → flags ≢ 0
    → IsSound t f
    → IsPushed p flags t f (push_slot p tag flags span t)
unfolding push_slot
push_slot-IsPushed p tag flags span t f where_to some_flags s = elim (List-cases t.free) [
  | inr (i, (rest, e)) ↦
      let is : push_slot p tag flags span t
          ≡ (some i, link_child p i (place i tag flags span (record t { free = rest }))) =
        ap (push_at p tag flags span) (alloc_free i rest t e) in
      let (out, sound, alive) = reused p tag flags i span rest t f where_to some_flags s e in
      subst (IsPushed p flags t f) (sym is) (inr (i, refl, out, sound, alive))
  | inl e ↦ elim (Bool-cases (ltb (length t.nodes) max_nodes)) [
    | inl room ↦
        let i = length t.nodes in
        let is : push_slot p tag flags span t
            ≡ (some i, link_child p i (place i tag flags span t)) =
          ap (push_at p tag flags span) (alloc_end t e (ground arith)) in
        let (out, sound, alive) =
          appended p tag flags span t f where_to some_flags s e (ground arith) in
        subst (IsPushed p flags t f) (sym is) (inr (i, refl, out, sound, alive))
    | inr no_room ↦
        let is : push_slot p tag flags span t ≡ (none, record t { truncated = true }) =
          ap (push_at p tag flags span) (alloc_none t e no_room) in
        let all : size f ≡ max_nodes =
          let full : max_nodes ≤ length t.nodes = ground arith in
          omega (arith, full, s.counted, s.forest.few, ap (λ (l : List ℕ). length l) e) in
        subst (IsPushed p flags t f) (sym is) (inl (refl, refl, all))
  ]
]
