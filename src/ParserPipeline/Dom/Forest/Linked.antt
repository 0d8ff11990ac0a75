-- ===== src/ParserPipeline/Dom/Forest/Linked.antt =====
-- Linking a child keeps the columns the links of a forest, which has the child at its new place.
use vpoiskaxroditeley.Prelude.{
  ℕ, ◌≤◌, ◌<◌, ◌≡◌, ◌≢◌, refl, subst, true, false, ◌==◌, arith, if◌then◌else◌, length, inl, inr,
  Bool-cases, ==_iff,
}
use vpoiskaxroditeley.ParserPipeline.Dom.{Node, DomTree, u32_max, max_nodes, at, link_child}
use vpoiskaxroditeley.ParserPipeline.Dom.Forest.{
  Forest, has, IsDistinct, IsLinked, has_apart, has-lt, has-last_child,
}
use vpoiskaxroditeley.ParserPipeline.Dom.Forest.Attached.{
  add_last, add_under, IsLeaf, IsLoose, not_eq,
}
use vpoiskaxroditeley.ParserPipeline.Dom.Forest.Under.{IsGrown}
use vpoiskaxroditeley.ParserPipeline.Dom.Forest.Columns.{first_row, next_row, IsLeaf-row}

-- The columns of a tree link a forest of distinct nodes.
pub record IsForest (t : DomTree) (f : Forest) : Type 0 where
  pub linked : IsLinked (length t.nodes) (at t) u32_max u32_max t.roots_head t.roots_tail f
  pub distinct : IsDistinct f
  pub few : length t.nodes ≤ max_nodes

-- The forest in which a node is the last child of another, or the last root.
unfoldable pub attach : ℕ → ℕ → Forest → Forest
unfolding add_last add_under
attach p c f = if p == u32_max then add_last c f else add_under p c f

-- The links that `if` gives, in their parts.
row_grown :
    (p c last : ℕ) (y : ℕ) (a b : Node)
    → last ≢ u32_max
    → b ≡ (
        let m = if y == last then record a { next_sibling = c } else a in
        if y == p then record m { last_child = c } else m)
    → IsGrown c last a b (y == p) (y == last)
row_grown p c last y a b some h = rw h (elim (Bool-cases (y == p)) [
  | inl i ↦ elim (Bool-cases (y == last)) [
    | inl j ↦ rw (i, j, not_eq last u32_max some) (refl, refl, refl, refl, refl)
    | inr j ↦ rw (i, j, not_eq last u32_max some) (refl, refl, refl, refl, refl)
  ]
  | inr i ↦ elim (Bool-cases (y == last)) [
    | inl j ↦ rw (i, j) (refl, refl, refl, refl, refl)
    | inr j ↦ rw (i, j) (refl, refl, refl, refl, refl)
  ]
])

row_first :
    (p c last : ℕ) (y : ℕ) (a b : Node)
    → last ≡ u32_max
    → y ≢ u32_max
    → b ≡ (if y == p then record a { first_child = c; last_child = c } else a)
    → IsGrown c last a b (y == p) (y == last)
row_first p c last y a b none not_max h =
    rw (h, none, not_eq y u32_max not_max)
      (elim (Bool-cases (y == p)) [
        | inl i ↦ rw i (refl, refl, refl, refl, refl)
        | inr i ↦ rw i (refl, refl, refl, refl, refl)
      ])

module _ (t : DomTree) (p c : ℕ) (f : Forest) (s : IsForest t f) (small : c < length t.nodes)
    (out : has c f ≡ false) where
  pub below : length t.nodes ≤ u32_max
  below = omega (arith, s.few)

  tail_in : has p f ≡ true → (at t p).last_child ≢ u32_max → has (at t p).last_child f ≡ true
  tail_in there some =
      elim (has-last_child (length t.nodes) (at t) p u32_max u32_max t.roots_head t.roots_tail f
        s.linked there) [ inl none ↦ absurd (some none) | inr h ↦ h ]

  tail_small : has p f ≡ true → (at t p).last_child ≢ u32_max → (at t p).last_child < length t.nodes
  tail_small there some =
      has-lt (length t.nodes) (at t) (at t p).last_child u32_max u32_max t.roots_head t.roots_tail f
        s.linked (tail_in there some)

  pub grown :
      has p f ≡ true
      → (y : ℕ) → has y f ≡ true
      → IsGrown c
          (at t p).last_child
          (at t y)
          (at (link_child p c t) y)
          (y == p)
          (y == (at t p).last_child)
  grown there y h =
      let n = length t.nodes in
      let last = (at t p).last_child in
      let p_small = has-lt n (at t) p u32_max u32_max t.roots_head t.roots_tail f s.linked there in
      let y_small = has-lt n (at t) y u32_max u32_max t.roots_head t.roots_tail f s.linked h in
      let not_root : p ≢ u32_max = λ e. absurd (omega (arith, p_small, below, e)) in
      let apart = has_apart p c f there out in
      let other = has_apart y c f h out in
      elim (Bool-cases (last == u32_max)) [
        | inl none ↦
            let no_tail = (==_iff last u32_max).0 none in
            row_first p c last y (at t y) (at (link_child p c t) y) no_tail
              (λ e. absurd (omega (arith, y_small, below, e)))
              (first_row t p c small p_small not_root apart y no_tail other)
        | inr some ↦
            let some_tail : last ≢ u32_max = λ e. absurd (ground arith) in
            row_grown p c last y (at t y) (at (link_child p c t) y) some_tail (
              next_row t p c small p_small not_root apart y some_tail (tail_small there some_tail)
                other)
      ]

  pub child-IsLeaf :
      has p f ≡ true → IsLoose (at t c) → IsLeaf p (at t p).last_child (at (link_child p c t) c)
  child-IsLeaf there loose =
      let p_small =
        has-lt (length t.nodes) (at t) p u32_max u32_max t.roots_head t.roots_tail f s.linked
          there in
      let not_root : p ≢ u32_max = λ e. absurd (omega (arith, p_small, below, e)) in
      IsLeaf-row t p c small p_small not_root (has_apart p c f there out) (tail_small there)
        (λ e. elim (Bool-cases ((at t p).last_child == u32_max)) [
          | inl none ↦
              absurd (omega (arith, small, below, e, (==_iff (at t p).last_child u32_max).0 none))
          | inr some ↦
              cc (subst (λ v. has v f ≡ true) e (tail_in there (λ k. absurd (ground arith))))
        ])
        loose
