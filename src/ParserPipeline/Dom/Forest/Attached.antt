-- ===== src/ParserPipeline/Dom/Forest/Attached.antt =====
-- A node that is put behind the last child of a node: the columns link the forest that has it there.
use vpoiskaxroditeley.Prelude.{
  ℕ, ◌<◌, ◌≡◌, ◌≢◌, refl, sym, ◌∙◌, subst, Bool, true, false, ◌==◌, arith, if◌then◌else◌, inl, inr,
}
use vpoiskaxroditeley.ParserPipeline.Dom.{Node, u32_max}
use vpoiskaxroditeley.ParserPipeline.Dom.Forest.{
  Forest, nil, tree, has, IsDistinct, IsLinked, has_self, has_kid, has_rest, has_apart, SameLinks,
  IsLinked-move, has_last,
}

unfoldable pub add_last : ℕ → Forest → Forest
add_last c nil = tree c nil nil
add_last c (tree x kids rest) = tree x kids (add_last c rest)

unfoldable pub add_under : ℕ → ℕ → Forest → Forest
unfolding add_last
add_under p c nil = nil
add_under p c (tree x kids rest) =
    let below = add_under p c kids in
    let beside = add_under p c rest in
    if x == p then tree x (add_last c kids) rest else tree x below beside

-- Links are the same but for the next sibling of the last node, which is the new one.
abbrev pub IsChained : ℕ → ℕ → Node → Node → Bool → Type 0
IsChained c last a b is_last =
    (b.parent ≡ a.parent)
    × (b.prev_sibling ≡ a.prev_sibling)
    × (b.first_child ≡ a.first_child)
    × (b.last_child ≡ a.last_child)
    × (b.next_sibling ≡ (if is_last then c else a.next_sibling))

-- the first of a forest to which a node is added
abbrev pub starts : ℕ → ℕ → Forest → ℕ
starts c cur nil = c
starts c cur (tree x kids rest) = cur

-- the links of a node without children that is the last
abbrev pub IsLeaf : ℕ → ℕ → Node → Type 0
IsLeaf parent prev a =
    (a.parent ≡ parent)
    × (a.prev_sibling ≡ prev)
    × (a.first_child ≡ u32_max)
    × (a.last_child ≡ u32_max)
    × (a.next_sibling ≡ u32_max)

-- The links of a node without children at a place that is not in the forest.
abbrev pub IsLoose : Node → Type 0
IsLoose a =
    (a.first_child ≡ u32_max)
    × (a.last_child ≡ u32_max)
    × (a.next_sibling ≡ u32_max)
    × (a.prev_sibling ≡ u32_max)

unchained :
    (c last : ℕ) (a b : Node) (t : Bool) → t ≡ false → IsChained c last a b t → SameLinks a b
unchained c last a b t h (p, q, r, s, e) =
    (p, q, r, s, subst (λ v. b.next_sibling ≡ (if v then c else a.next_sibling)) h e)

pub not_eq : (a b : ℕ) → a ≢ b → (a == b) ≡ false
not_eq a b h = ground arith

module _ (n : ℕ) (g h : ℕ → Node) where
  pub IsLinked-frame :
      (parent prev cur last : ℕ) (f : Forest)
      → ((y : ℕ) → has y f ≡ true → SameLinks (g y) (h y))
      → IsLinked n g parent prev cur last f
      → IsLinked n h parent prev cur last f
  IsLinked-frame parent prev cur last nil same l = l
  IsLinked-frame parent prev cur last (tree x kids rest) same (is, small, up, back, k, r) =
      let (up', back', first', last', next') = same x (has_self x kids rest) in
      (
        is,
        small,
        up' ∙ up,
        back' ∙ back,
        IsLinked-move n h x u32_max (g x).first_child (h x).first_child (g x).last_child
            (h x).last_child kids first' last'
            (IsLinked-frame x u32_max (g x).first_child (g x).last_child kids
              (λ y k. same y (has_kid x kids rest y k)) k),
        IsLinked-move n h parent x (g x).next_sibling (h x).next_sibling last last rest next' refl (
            IsLinked-frame parent x (g x).next_sibling last rest
              (λ y k. same y (has_rest x kids rest y k)) r),
      )

  -- where the node at the head of a list leads when one is added at its end
  next_of :
      (parent x next last c : ℕ) (rest : Forest)
      → IsLinked n g parent x next last rest
      → has x rest ≡ false
      → (if x == last then c else next) ≡ starts c next rest
  next_of parent x next last c nil (_, is) not_in = rw is (ground arith)
  next_of parent x next last c (tree y kids rest) l not_in =
      let apart : last ≢ x = elim (has_last n g y parent x next last kids rest l) [
        | inl is ↦
            has_apart last x (tree y kids rest)
              (subst (λ v. has v (tree y kids rest) ≡ true) (sym is) (has_self y kids rest)) not_in
        | inr e ↦ has_apart last x (tree y kids rest) (has_rest y kids rest last e) not_in
      ] in
      rw (not_eq x last (λ e. apart (sym e))) refl

  pub add_last-IsLinked :
      (parent prev cur last c : ℕ) (f : Forest)
      → c < n
      → IsDistinct f
      → IsLinked n g parent prev cur last f
      → IsLeaf parent last (h c)
      → ((y : ℕ) → has y f ≡ true → IsChained c last (g y) (h y) (y == last))
      → IsLinked n h parent prev (starts c cur f) c (add_last c f)
  unfolding add_last
  add_last-IsLinked parent prev cur last c nil small d (_, is) (up, back, first, final, next) same =
      (refl, small, up, back ∙ is, (first, final), (next, refl))
  add_last-IsLinked parent prev cur last c (tree x kids rest) small (xk, xr, kr, dk, dr) l leaf
        same =
      let (is, small_x, up, back, k, r) = l in
      let (up', back', first', last', next') = same x (has_self x kids rest) in
      let outside : (y : ℕ) → has y kids ≡ true → y ≢ last = λ y e.
        elim (has_last n g x parent prev cur last kids rest l) [
          | inl here ↦ λ w. cc (subst (λ v. has v kids ≡ true) (w ∙ here) e)
          | inr there ↦ λ w. cc (subst (λ v. has v rest ≡ false) w (kr y e))
        ] in
      (
        is,
        small_x,
        up' ∙ up,
        back' ∙ back,
        IsLinked-move n h x u32_max (g x).first_child (h x).first_child (g x).last_child
            (h x).last_child kids first' last'
            (IsLinked-frame x u32_max (g x).first_child (g x).last_child kids
              (λ y e.
                unchained c last (g y) (h y) (y == last) (not_eq y last (outside y e))
                  (same y (has_kid x kids rest y e)))
              k),
        IsLinked-move n h parent x (starts c (g x).next_sibling rest) (h x).next_sibling c c
            (add_last c rest) (next' ∙ next_of parent x (g x).next_sibling last c rest r xr) refl
            (add_last-IsLinked parent x (g x).next_sibling last c rest small dr r leaf
              (λ y e. same y (has_rest x kids rest y e))),
      )
