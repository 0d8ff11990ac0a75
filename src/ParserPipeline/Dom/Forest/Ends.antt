-- ===== src/ParserPipeline/Dom/Forest/Ends.antt =====
-- The ends of the list of children that a node is linked to.
use vpoiskaxroditeley.Prelude.{
  ℕ, ◌≤◌, ◌<◌, ◌≡◌, ◌≢◌, refl, sym, ap, ◌∙◌, subst, true, false, ◌==◌, arith, if◌then◌else◌, length,
  inl, inr, Bool-cases, ==_iff,
}
use vpoiskaxroditeley.ParserPipeline.Dom.{Node, DomTree, u32_max, max_nodes, at, put, link_child}
use vpoiskaxroditeley.ParserPipeline.Dom.Forest.{
  Forest, has, IsLinked, has_apart, has-lt, IsLinked-move,
}
use vpoiskaxroditeley.ParserPipeline.Dom.Forest.Attached.{
  add_under, IsChained, IsLeaf, IsLoose, not_eq,
}
use vpoiskaxroditeley.ParserPipeline.Dom.Forest.Under.{add_under-IsLinked}
use vpoiskaxroditeley.ParserPipeline.Dom.Forest.Members.{add_under-IsDistinct}
use vpoiskaxroditeley.ParserPipeline.Dom.Forest.Columns.{
  length-put, at-put, at-put_ne, at-put_self, owned, owned_ne, owned_self, owned_length,
  linked_first, linked_next,
}
use vpoiskaxroditeley.ParserPipeline.Dom.Forest.Linked.{IsForest, grown, child-IsLeaf, below}

module _ (t : DomTree) (c : ℕ) (small : c < length t.nodes) where
  abbrev own : DomTree
  own = owned t u32_max c small

  root_first :
      t.roots_tail ≡ u32_max
      → link_child u32_max c t ≡ record own { roots_head = c; roots_tail = c }
  unfolding link_child
  root_first none = rw none refl

  root_next :
      t.roots_tail ≢ u32_max
      → link_child u32_max c t
        ≡ record (put c
            (λ n. record n { prev_sibling = t.roots_tail })
            (put t.roots_tail (λ n. record n { next_sibling = c }) own)) { roots_tail = c }
  unfolding link_child
  root_next some = rw (not_eq t.roots_tail u32_max some) refl

  -- The rows after a root was linked.
  pub root_row :
      (y : ℕ)
      → (t.roots_tail ≢ u32_max → t.roots_tail < length t.nodes)
      → y ≢ c
      → y ≢ u32_max
      → IsChained c t.roots_tail (at t y) (at (link_child u32_max c t) y) (y == t.roots_tail)
  root_row y tail_small other not_max =
      let nexts = λ (n : Node). record n { next_sibling = c } in
      let backs = λ (n : Node). record n { prev_sibling = t.roots_tail } in
      elim (Bool-cases (t.roots_tail == u32_max)) [
        | inl none ↦
            let no_tail = (==_iff t.roots_tail u32_max).0 none in
            let row : at (link_child u32_max c t) y ≡ at t y =
              ap (λ (w : DomTree). at w y) (root_first no_tail)
              ∙ owned_ne t u32_max c small y other in
            rw (row, not_eq y t.roots_tail (λ e. not_max (e ∙ no_tail)))
              (refl, refl, refl, refl, refl)
        | inr some ↦
            let some_tail : t.roots_tail ≢ u32_max = λ e. absurd (ground arith) in
            let near : t.roots_tail < length own.nodes =
              omega (arith, owned_length t u32_max c small, tail_small some_tail) in
            let row : at (link_child u32_max c t) y
                ≡ (if y == t.roots_tail then nexts (at t y) else at t y) =
              ap (λ (w : DomTree). at w y) (root_next some_tail)
              ∙ at-put_ne c y backs (put t.roots_tail nexts own) (λ e. other (sym e))
              ∙ at-put t.roots_tail y nexts own near
              ∙ ap (λ (r : Node). if y == t.roots_tail then nexts r else r)
                  (owned_ne t u32_max c small y other) in
            rw row (elim (Bool-cases (y == t.roots_tail)) [
              | inl i ↦ rw i (refl, refl, refl, refl, refl)
              | inr i ↦ rw i (refl, refl, refl, refl, refl)
            ])
      ]

  pub root-IsLeaf :
      (t.roots_tail ≢ u32_max → t.roots_tail < length t.nodes)
      → t.roots_tail ≢ c
      → IsLoose (at t c)
      → IsLeaf u32_max t.roots_tail (at (link_child u32_max c t) c)
  root-IsLeaf tail_small not_tail (first, final, next, back) =
      let nexts = λ (n : Node). record n { next_sibling = c } in
      let backs = λ (n : Node). record n { prev_sibling = t.roots_tail } in
      elim (Bool-cases (t.roots_tail == u32_max)) [
        | inl none ↦
            let no_tail = (==_iff t.roots_tail u32_max).0 none in
            let row : at (link_child u32_max c t) c ≡ record (at t c) { parent = u32_max } =
              ap (λ (w : DomTree). at w c) (root_first no_tail) ∙ owned_self t u32_max c small in
            subst (IsLeaf u32_max t.roots_tail) (sym row)
              (refl, back ∙ sym no_tail, first, final, next)
        | inr some ↦
            let some_tail : t.roots_tail ≢ u32_max = λ e. absurd (ground arith) in
            let one = put t.roots_tail nexts own in
            let far : c < length one.nodes =
              omega
                (arith, length-put t.roots_tail nexts own, owned_length t u32_max c small, small) in
            let row : at (link_child u32_max c t) c
                ≡ record (at t c) { parent = u32_max; prev_sibling = t.roots_tail } =
              ap (λ (w : DomTree). at w c) (root_next some_tail)
              ∙ at-put_self c backs one far
              ∙ ap backs
                  (at-put_ne t.roots_tail c nexts own not_tail ∙ owned_self t u32_max c small) in
            subst (IsLeaf u32_max t.roots_tail) (sym row) (refl, refl, first, final, next)
      ]

  pub root_ends :
      (length (link_child u32_max c t).nodes ≡ length t.nodes)
      × ((link_child u32_max c t).roots_tail ≡ c)
      × ((link_child u32_max c t).roots_head
          ≡ (if t.roots_tail == u32_max then c else t.roots_head))
  unfolding put
  root_ends = elim (Bool-cases (t.roots_tail == u32_max)) [
    | inl none ↦
        let e = root_first ((==_iff t.roots_tail u32_max).0 none) in
        (
          ap (λ (w : DomTree). length w.nodes) e ∙ owned_length t u32_max c small,
          ap (λ (w : DomTree). w.roots_tail) e,
          ap (λ (w : DomTree). w.roots_head) e ∙ rw none refl,
        )
    | inr some ↦
        let nexts = λ (n : Node). record n { next_sibling = c } in
        let backs = λ (n : Node). record n { prev_sibling = t.roots_tail } in
        let e = root_next (λ k. absurd (ground arith)) in
        (
          ap (λ (w : DomTree). length w.nodes) e
              ∙ length-put c backs (put t.roots_tail nexts own)
              ∙ length-put t.roots_tail nexts own
              ∙ owned_length t u32_max c small,
          ap (λ (w : DomTree). w.roots_tail) e,
          ap (λ (w : DomTree). w.roots_head) e ∙ rw some refl,
        )
  ]

module _ (t : DomTree) (p c : ℕ) (small : c < length t.nodes) where
  -- what a link below a node leaves alone
  under_ends :
      p < length t.nodes
      → p ≢ u32_max
      → p ≢ c
      → (length (link_child p c t).nodes ≡ length t.nodes)
        × ((link_child p c t).roots_tail ≡ t.roots_tail)
        × ((link_child p c t).roots_head ≡ t.roots_head)
  unfolding put
  under_ends p_small not_root apart = elim (Bool-cases ((at t p).last_child == u32_max)) [
    | inl none ↦
        let lasts = λ (n : Node). record n { last_child = c } in
        let firsts = λ (n : Node). record n { first_child = c } in
        let own = owned t p c small in
        let e =
          linked_first t p c small p_small not_root apart
            ((==_iff (at t p).last_child u32_max).0 none) in
        (
          ap (λ (w : DomTree). length w.nodes) e
              ∙ length-put p lasts (put p firsts own)
              ∙ length-put p firsts own
              ∙ owned_length t p c small,
          ap (λ (w : DomTree). w.roots_tail) e,
          ap (λ (w : DomTree). w.roots_head) e,
        )
    | inr some ↦
        let last = (at t p).last_child in
        let lasts = λ (n : Node). record n { last_child = c } in
        let nexts = λ (n : Node). record n { next_sibling = c } in
        let backs = λ (n : Node). record n { prev_sibling = last } in
        let own = owned t p c small in
        let e = linked_next t p c small p_small not_root apart (λ k. absurd (ground arith)) in
        (
          ap (λ (w : DomTree). length w.nodes) e
              ∙ length-put p lasts (put c backs (put last nexts own))
              ∙ length-put c backs (put last nexts own)
              ∙ length-put last nexts own
              ∙ owned_length t p c small,
          ap (λ (w : DomTree). w.roots_tail) e,
          ap (λ (w : DomTree). w.roots_head) e,
        )
  ]

  pub under-IsForest :
      (f : Forest)
      → IsForest t f
      → has p f ≡ true
      → has c f ≡ false
      → IsLoose (at t c)
      → IsForest (link_child p c t) (add_under p c f)
  under-IsForest f s there out loose =
      let n = length t.nodes in
      let p_small = has-lt n (at t) p u32_max u32_max t.roots_head t.roots_tail f s.linked there in
      let not_root : p ≢ u32_max = λ e. absurd (omega (arith, p_small, s.few, e)) in
      let (same, tail_same, head_same) = under_ends p_small not_root (has_apart p c f there out) in
      record {
        linked =
            subst
              (λ m.
                IsLinked m (at (link_child p c t)) u32_max u32_max (link_child p c t).roots_head
                  (link_child p c t).roots_tail (add_under p c f))
              (sym same)
              (IsLinked-move n (at (link_child p c t)) u32_max u32_max t.roots_head
                (link_child p c t).roots_head t.roots_tail (link_child p c t).roots_tail
                (add_under p c f) head_same tail_same
                (add_under-IsLinked n (at t) (at (link_child p c t)) (below t p c f s small out)
                  u32_max u32_max t.roots_head t.roots_tail c p f small there s.distinct s.linked
                  (child-IsLeaf t p c f s small out there loose)
                  (grown t p c f s small out there)));
        distinct = add_under-IsDistinct p c f there out s.distinct;
        few = subst (λ m. m ≤ max_nodes) (sym same) s.few;
      }
