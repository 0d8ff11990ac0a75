-- ===== src/ParserPipeline/Dom/Forest/Under.antt =====
-- A node that becomes the last child of a node deep in a forest.
use vpoiskaxroditeley.Prelude.{
  ℕ, ◌≤◌, ◌<◌, ◌≡◌, ◌≢◌, refl, sym, ◌∙◌, subst, Bool, true, false, ◌==◌, arith, if◌then◌else◌, ◌⊎◌,
  inl, inr, Bool-cases,
}
use vpoiskaxroditeley.ParserPipeline.Dom.{Node, u32_max}
use vpoiskaxroditeley.ParserPipeline.Dom.Forest.{
  Forest, nil, tree, has, IsDistinct, IsLinked, has_cases, has_self, has_kid, has_rest, not_has,
  has_apart, SameLinks, IsLinked-move, has-lt, has_last, kids_last, has-last_child,
}
use vpoiskaxroditeley.ParserPipeline.Dom.Forest.Attached.{
  add_last, add_under, IsChained, IsLeaf, starts, IsLinked-frame, add_last-IsLinked, not_eq,
}

-- How the links of a node change, when it is the parent and when it was the last child.
abbrev pub IsGrown : ℕ → ℕ → Node → Node → Bool → Bool → Type 0
IsGrown c last a b is_parent is_last =
    (b.parent ≡ a.parent)
    × (b.prev_sibling ≡ a.prev_sibling)
    × (b.first_child
        ≡ (if is_parent then if last == u32_max then c else a.first_child else a.first_child))
    × (b.last_child ≡ (if is_parent then c else a.last_child))
    × (b.next_sibling ≡ (if is_last then c else a.next_sibling))

not_parent :
    (c last : ℕ) (a b : Node) (p l : Bool)
    → p ≡ false
    → IsGrown c last a b p l
    → IsChained c last a b l
not_parent c last a b p l h (up, back, first, final, next) =
    (up, back, first ∙ rw h refl, final ∙ rw h refl, next)

neither :
    (c last : ℕ) (a b : Node) (p l : Bool)
    → p ≡ false
    → l ≡ false
    → IsGrown c last a b p l
    → SameLinks a b
neither c last a b p l h k (up, back, first, final, next) =
    (up, back, first ∙ rw h refl, final ∙ rw h refl, next ∙ rw k refl)

pub add_under_absent : (p c : ℕ) (f : Forest) → has p f ≡ false → add_under p c f ≡ f
unfolding add_under
add_under_absent p c nil h = refl
add_under_absent p c (tree x kids rest) h =
    let (apart, not_kid, not_rest) = not_has x kids rest p h in
    rw
      (
        not_eq x p (λ e. apart (sym e)),
        add_under_absent p c kids not_kid,
        add_under_absent p c rest not_rest,
      )
      refl

pub absent :
    (p : ℕ) (kids rest : Forest)
    → ((y : ℕ) → has y kids ≡ true → has y rest ≡ false)
    → has p rest ≡ true
    → has p kids ≡ false
absent p kids rest apart h = elim (Bool-cases (has p kids)) [ inl k ↦ cc (apart p k) | inr k ↦ k ]

module _ (n : ℕ) (g h : ℕ → Node) (few : n ≤ u32_max) where
  -- A place that holds no node, or a node of one forest, is no node of the other.
  tail_apart :
      (y tail parent prev cur last : ℕ) (f : Forest)
      → IsLinked n g parent prev cur last f
      → has y f ≡ true
      → (tail ≡ u32_max) ⊎ (has tail f ≡ false)
      → y ≢ tail
  tail_apart y tail parent prev cur last f l e t is = elim t [
    | inl none ↦
        let small = has-lt n g y parent prev cur last f l e in
        absurd (omega (arith, few, small, is, none))
    | inr out ↦ cc (subst (λ v. has v f ≡ true) is e)
  ]

  -- where the parent leads to its first child
  first_of :
      (x first final c : ℕ) (kids : Forest)
      → IsLinked n g x u32_max first final kids
      → (if final == u32_max then c else first) ≡ starts c first kids
  first_of x first final c nil (_, is) = rw is refl
  first_of x first final c (tree y kids rest) l =
      let inside : has final (tree y kids rest) ≡ true =
        elim (has_last n g y x u32_max first final kids rest l) [
          | inl is ↦ subst (λ v. has v (tree y kids rest) ≡ true) (sym is) (has_self y kids rest)
          | inr e ↦ has_rest y kids rest final e
        ] in
      let small = has-lt n g final x u32_max first final (tree y kids rest) l inside in
      rw (not_eq final u32_max (λ e. absurd (omega (arith, few, small, e)))) refl

  -- what grows is the root of the first tree
  add_here :
      (parent prev cur last c x : ℕ) (kids rest : Forest)
      → c < n
      → IsDistinct (tree x kids rest)
      → IsLinked n g parent prev cur last (tree x kids rest)
      → IsLeaf x (g x).last_child (h c)
      → ((y : ℕ)
          → has y (tree x kids rest) ≡ true
          → IsGrown c (g x).last_child (g y) (h y) (y == x) (y == (g x).last_child))
      → IsLinked n h parent prev cur last (tree x (add_last c kids) rest)
  add_here parent prev cur last c x kids rest small (xk, xr, kr, dk, dr)
        (is, small_x, up, back, k, r) leaf grown =
      let tail = (g x).last_child in
      let (up', back', first', last', next') = grown x (has_self x kids rest) in
      let same_x : (x == x) ≡ true = ground arith in
      let tail_in = kids_last n g x u32_max (g x).first_child tail kids k in
      let not_x : x ≢ tail = λ e. elim tail_in [
        | inl none ↦ absurd (omega (arith, few, small_x, e, none))
        | inr here ↦ cc (subst (λ v. has v kids ≡ true) (sym e) here)
      ] in
      let not_rest : (tail ≡ u32_max) ⊎ (has tail rest ≡ false) = elim tail_in [
        | inl none ↦ inl none
        | inr here ↦ inr (kr tail here)
      ] in
      (
        is,
        small_x,
        up' ∙ up,
        back' ∙ back,
        IsLinked-move n h x u32_max (starts c (g x).first_child kids) (h x).first_child c
            (h x).last_child (add_last c kids)
            (first' ∙ rw same_x (first_of x (g x).first_child tail c kids k))
            (last' ∙ rw same_x refl)
            (add_last-IsLinked n g h x u32_max (g x).first_child tail c kids small dk k leaf (λ y e.
              not_parent c tail (g y) (h y) (y == x) (y == tail)
                (not_eq y x (has_apart y x kids e xk)) (grown y (has_kid x kids rest y e)))),
        IsLinked-move n h parent x (g x).next_sibling (h x).next_sibling last last rest
            (next' ∙ rw (not_eq x tail not_x) refl) refl
            (IsLinked-frame n g h parent x (g x).next_sibling last rest
              (λ y e.
                neither c tail (g y) (h y) (y == x) (y == tail)
                  (not_eq y x (has_apart y x rest e xr))
                  (not_eq y tail
                    (tail_apart y tail parent x (g x).next_sibling last rest r e not_rest))
                  (grown y (has_rest x kids rest y e)))
              r),
      )

  -- A root above or before the parent keeps its links, and so do trees that have neither it nor its
  -- last child.
  module _ (c p x : ℕ) (kids rest : Forest)
      (grown : (y : ℕ)
        → has y (tree x kids rest) ≡ true
        → IsGrown c (g p).last_child (g y) (h y) (y == p) (y == (g p).last_child)) where
    root_same : x ≢ p → x ≢ (g p).last_child → SameLinks (g x) (h x)
    root_same not_p not_tail =
        neither c (g p).last_child (g x) (h x) (x == p) (x == (g p).last_child) (not_eq x p not_p)
          (not_eq x (g p).last_child not_tail) (grown x (has_self x kids rest))

    tree_same :
        (parent prev cur last : ℕ) (f : Forest)
        → IsLinked n g parent prev cur last f
        → ((y : ℕ) → has y f ≡ true → has y (tree x kids rest) ≡ true)
        → has p f ≡ false
        → ((g p).last_child ≡ u32_max) ⊎ (has (g p).last_child f ≡ false)
        → IsLinked n h parent prev cur last f
    tree_same parent prev cur last f l within not_p not_tail =
        IsLinked-frame n g h parent prev cur last f
          (λ y e.
            neither c (g p).last_child (g y) (h y) (y == p) (y == (g p).last_child)
              (not_eq y p (has_apart y p f e not_p))
              (not_eq y (g p).last_child
                (tail_apart y (g p).last_child parent prev cur last f l e not_tail))
              (grown y (within y e)))
          l

  pub add_under-IsLinked :
      (parent prev cur last c p : ℕ) (f : Forest)
      → c < n
      → has p f ≡ true
      → IsDistinct f
      → IsLinked n g parent prev cur last f
      → IsLeaf p (g p).last_child (h c)
      → ((y : ℕ)
          → has y f ≡ true
          → IsGrown c (g p).last_child (g y) (h y) (y == p) (y == (g p).last_child))
      → IsLinked n h parent prev cur last (add_under p c f)
  unfolding add_under has
  add_under-IsLinked parent prev cur last c p nil small there d l leaf grown = cc
  add_under-IsLinked parent prev cur last c p (tree x kids rest) small there d l leaf grown =
      let (xk, xr, kr, dk, dr) = d in
      let (is, small_x, up, back, k, r) = l in
      let same_x : (x == x) ≡ true = ground arith in
      elim (has_cases p x kids rest there) [
        | inl e ↦
            subst (λ v. IsLinked n h parent prev cur last (add_under v c (tree x kids rest)))
              (sym e)
              (rw same_x (
                add_here parent prev cur last c x kids rest small d l
                  (subst (λ v. IsLeaf v (g v).last_child (h c)) e leaf)
                  (subst
                    (λ v.
                      (y : ℕ)
                      → has y (tree x kids rest) ≡ true
                      → IsGrown c (g v).last_child (g y) (h y) (y == v) (y == (g v).last_child))
                    e grown)))
        | inr (inl pk) ↦
            let not_p : x ≢ p = λ e. has_apart p x kids pk xk (sym e) in
            let tail_in =
              has-last_child n g p x u32_max (g x).first_child (g x).last_child kids k pk in
            let not_tail : x ≢ (g p).last_child = λ e. elim tail_in [
              | inl none ↦ absurd (omega (arith, few, small_x, e, none))
              | inr here ↦ cc (subst (λ v. has v kids ≡ true) (sym e) here)
            ] in
            let out : ((g p).last_child ≡ u32_max) ⊎ (has (g p).last_child rest ≡ false) =
              elim tail_in [ inl none ↦ inl none | inr here ↦ inr (kr (g p).last_child here) ] in
            let (up', back', first', last', next') =
              root_same c p x kids rest grown not_p not_tail in
            rw (not_eq x p not_p, add_under_absent p c rest (kr p pk))
              (
                is,
                small_x,
                up' ∙ up,
                back' ∙ back,
                IsLinked-move n h x u32_max (g x).first_child (h x).first_child (g x).last_child
                    (h x).last_child (add_under p c kids) first' last'
                    (add_under-IsLinked x u32_max (g x).first_child (g x).last_child c p kids small
                      pk dk k leaf (λ y e. grown y (has_kid x kids rest y e))),
                IsLinked-move n h parent x (g x).next_sibling (h x).next_sibling last last rest
                    next' refl
                    (tree_same c p x kids rest grown parent x (g x).next_sibling last rest r
                      (λ y e. has_rest x kids rest y e) (kr p pk) out),
              )
        | inr (inr pr) ↦
            let not_p : x ≢ p = λ e. has_apart p x rest pr xr (sym e) in
            let not_kid : has p kids ≡ false = absent p kids rest kr pr in
            let tail_in = has-last_child n g p parent x (g x).next_sibling last rest r pr in
            let not_tail : x ≢ (g p).last_child = λ e. elim tail_in [
              | inl none ↦ absurd (omega (arith, few, small_x, e, none))
              | inr here ↦ cc (subst (λ v. has v rest ≡ true) (sym e) here)
            ] in
            let out : ((g p).last_child ≡ u32_max) ⊎ (has (g p).last_child kids ≡ false) =
              elim tail_in [
                | inl none ↦ inl none
                | inr here ↦ inr (absent (g p).last_child kids rest kr here)
              ] in
            let (up', back', first', last', next') =
              root_same c p x kids rest grown not_p not_tail in
            rw (not_eq x p not_p, add_under_absent p c kids not_kid)
              (
                is,
                small_x,
                up' ∙ up,
                back' ∙ back,
                IsLinked-move n h x u32_max (g x).first_child (h x).first_child (g x).last_child
                    (h x).last_child kids first' last'
                    (tree_same c p x kids rest grown x u32_max (g x).first_child (g x).last_child
                      kids k (λ y e. has_kid x kids rest y e) not_kid out),
                IsLinked-move n h parent x (g x).next_sibling (h x).next_sibling last last
                    (add_under p c rest) next' refl
                    (add_under-IsLinked parent x (g x).next_sibling last c p rest small pr dr r leaf
                      (λ y e. grown y (has_rest x kids rest y e))),
              )
      ]
