-- ===== src/ParserPipeline/Dom/Forest/Roots.antt =====
-- A node that becomes the last root, and with it every node that is linked.
use vpoiskaxroditeley.Prelude.{
  ℕ, ◌≤◌, ◌<◌, ◌≡◌, ◌≢◌, refl, sym, ◌∙◌, subst, true, false, ◌==◌, arith, if◌then◌else◌, length,
  ◌⊎◌, inl, inr,
}
use vpoiskaxroditeley.ParserPipeline.Dom.{DomTree, u32_max, max_nodes, at, link_child}
use vpoiskaxroditeley.ParserPipeline.Dom.Forest.{
  Forest, nil, tree, has, IsLinked, has_apart, has-lt, kids_last, has_last, IsLinked-move, has_self,
  has_rest,
}
use vpoiskaxroditeley.ParserPipeline.Dom.Forest.Attached.{
  add_last, IsLoose, starts, add_last-IsLinked, not_eq,
}
use vpoiskaxroditeley.ParserPipeline.Dom.Forest.Members.{add_last-IsDistinct}
use vpoiskaxroditeley.ParserPipeline.Dom.Forest.Linked.{IsForest, attach}
use vpoiskaxroditeley.ParserPipeline.Dom.Forest.Ends.{
  root_ends, root-IsLeaf, root_row, under-IsForest,
}

module _ (t : DomTree) (c : ℕ) (small : c < length t.nodes) (f : Forest) (s : IsForest t f) where
  starts_of :
      (g : Forest)
      → IsLinked (length t.nodes) (at t) u32_max u32_max t.roots_head t.roots_tail g
      → (if t.roots_tail == u32_max then c else t.roots_head) ≡ starts c t.roots_head g
  starts_of nil (_, none) = rw none refl
  starts_of (tree x kids rest) l =
      let n = length t.nodes in
      let inside : has t.roots_tail (tree x kids rest) ≡ true =
        elim (has_last n (at t) x u32_max u32_max t.roots_head t.roots_tail kids rest l) [
          | inl is ↦ subst (λ v. has v (tree x kids rest) ≡ true) (sym is) (has_self x kids rest)
          | inr h ↦ has_rest x kids rest t.roots_tail h
        ] in
      let tail_small =
        has-lt n (at t) t.roots_tail u32_max u32_max t.roots_head t.roots_tail (tree x kids rest) l
          inside in
      rw (not_eq t.roots_tail u32_max (λ e. absurd (omega (arith, tail_small, s.few, e)))) refl

  -- the roots begin where the new one is the first
  root_starts : (if t.roots_tail == u32_max then c else t.roots_head) ≡ starts c t.roots_head f
  root_starts = starts_of f s.linked

  root-IsForest :
      has c f ≡ false → IsLoose (at t c) → IsForest (link_child u32_max c t) (add_last c f)
  root-IsForest out loose =
      let n = length t.nodes in
      let l = s.linked in
      let (same, tail_same, head_same) = root_ends t c small in
      let ends = kids_last n (at t) u32_max u32_max t.roots_head t.roots_tail f l in
      let tail_small : t.roots_tail ≢ u32_max → t.roots_tail < n = λ some. elim ends [
        | inl none ↦ absurd (some none)
        | inr h ↦ has-lt n (at t) t.roots_tail u32_max u32_max t.roots_head t.roots_tail f l h
      ] in
      let not_tail : t.roots_tail ≢ c = λ e. elim ends [
        | inl none ↦ absurd (omega (arith, small, s.few, e, none))
        | inr h ↦ cc (subst (λ v. has v f ≡ true) e h)
      ] in
      record {
        linked =
            subst
              (λ m.
                IsLinked m (at (link_child u32_max c t)) u32_max u32_max
                  (link_child u32_max c t).roots_head (link_child u32_max c t).roots_tail
                  (add_last c f))
              (sym same)
              (IsLinked-move n (at (link_child u32_max c t)) u32_max u32_max
                (starts c t.roots_head f) (link_child u32_max c t).roots_head c
                (link_child u32_max c t).roots_tail (add_last c f) (head_same ∙ root_starts)
                tail_same
                (add_last-IsLinked n (at t) (at (link_child u32_max c t)) u32_max u32_max
                  t.roots_head t.roots_tail c f small s.distinct l
                  (root-IsLeaf t c small tail_small not_tail loose)
                  (λ y h. root_row t c small y tail_small (has_apart y c f h out) (λ e. absurd (
                    omega (
                      arith,
                      e,
                      s.few,
                      has-lt n (at t) y u32_max u32_max t.roots_head t.roots_tail f l h,
                    ))))));
        distinct = add_last-IsDistinct c f out s.distinct;
        few = subst (λ m. m ≤ max_nodes) (sym same) s.few;
      }

-- A loose node that is linked below a node of the forest, or as a root, becomes its last child there,
-- and all other nodes stay where they are.
pub link_child-IsForest :
    (t : DomTree) (p c : ℕ) (f : Forest) (small : c < length t.nodes)
    → IsForest t f
    → (p ≡ u32_max) ⊎ (has p f ≡ true)
    → has c f ≡ false
    → IsLoose (at t c)
    → IsForest (link_child p c t) (attach p c f)
unfolding attach
link_child-IsForest t p c f small s where_to out loose = elim where_to [
  | inl root ↦
      subst (λ v. IsForest (link_child v c t) (attach v c f)) (sym root)
        (root-IsForest t c small f s out loose)
  | inr there ↦
      let p_small =
        has-lt (length t.nodes) (at t) p u32_max u32_max t.roots_head t.roots_tail f s.linked
          there in
      rw (not_eq p u32_max (λ e. absurd (omega (arith, p_small, s.few, e))))
        (under-IsForest t p c small f s there out loose)
]
