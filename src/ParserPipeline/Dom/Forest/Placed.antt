-- ===== src/ParserPipeline/Dom/Forest/Placed.antt =====
-- A place that is taken, before and after its node is linked.
use vpoiskaxroditeley.Prelude.{
  ℕ, zero, suc, ◌≤◌, ◌<◌, ◌≡◌, ◌≢◌, refl, sym, ap, ◌∙◌, subst, true, false, ◌||◌, ◌==◌, arith,
  if◌then◌else◌, List, [], ◌∷◌, ◌++◌, length, get_or, length-append, ◌⊎◌, inl, inr, Bool-cases,
}
use vpoiskaxroditeley.ParserPipeline.Scratch.{Span}
use vpoiskaxroditeley.ParserPipeline.Dom.{
  Node, DomTree, u32_max, max_nodes, at, blank, fresh, place,
}
use vpoiskaxroditeley.ParserPipeline.Dom.Forest.{
  Forest, nil, tree, has, size, IsDistinct, IsLinked, has_apart,
}
use vpoiskaxroditeley.ParserPipeline.Dom.Forest.Attached.{IsLoose, IsLinked-frame, not_eq}
use vpoiskaxroditeley.ParserPipeline.Dom.Forest.Members.{
  has-add_last, has-add_under, size-add_last, size-add_under,
}
use vpoiskaxroditeley.ParserPipeline.Dom.Forest.Columns.{length-put, at-put_ne, at-put_self}
use vpoiskaxroditeley.ParserPipeline.Dom.Forest.Linked.{IsForest, attach}

get_or-append_blank : (l : List Node) (j : ℕ) → get_or (l ++ blank ∷ []) j blank ≡ get_or l j blank
get_or-append_blank [] zero = refl
get_or-append_blank [] (suc j) = refl
get_or-append_blank (x ∷ l) zero = refl
get_or-append_blank (x ∷ l) (suc j) = get_or-append_blank l j

IsLinked-widen :
    (n m : ℕ) (g : ℕ → Node) (parent prev cur last : ℕ) (f : Forest)
    → n ≤ m
    → IsLinked n g parent prev cur last f
    → IsLinked m g parent prev cur last f
IsLinked-widen n m g parent prev cur last nil le l = l
IsLinked-widen n m g parent prev cur last (tree x kids rest) le (is, small, up, back, k, r) = (
  is,
  omega (arith, le, small),
  up,
  back,
  IsLinked-widen n m g x u32_max (g x).first_child (g x).last_child kids le k,
  IsLinked-widen n m g parent x (g x).next_sibling last rest le r,
)

module _ (p c : ℕ) (f : Forest) (where_to : (p ≡ u32_max) ⊎ (has p f ≡ true)) (d : IsDistinct f)
    (p_ok : has p f ≡ true → p ≢ u32_max) where
  is_root : p ≡ u32_max → (p == u32_max) ≡ true
  is_root e = ground arith

  pub has-attach : (y : ℕ) → has y (attach p c f) ≡ (y == c || has y f)
  unfolding attach
  has-attach y = elim where_to [
    | inl root ↦ rw (is_root root) (has-add_last y c f)
    | inr there ↦ rw (not_eq p u32_max (p_ok there)) (has-add_under p c y f there d)
  ]

  pub size-attach : size (attach p c f) ≡ suc (size f)
  unfolding attach
  size-attach = elim where_to [
    | inl root ↦ rw (is_root root) (size-add_last c f)
    | inr there ↦ rw (not_eq p u32_max (p_ok there)) (size-add_under p c f there d)
  ]

-- A place that is taken, before it is linked.
module _ (index tag flags : ℕ) (span : Span) (t : DomTree) where
  abbrev pub grown : DomTree
  grown = if index == length t.nodes then record t { nodes = t.nodes ++ blank ∷ [] } else t

  at-grown : (y : ℕ) → at grown y ≡ at t y
  at-grown y = elim (Bool-cases (index == length t.nodes)) [
    | inl i ↦ rw i (get_or-append_blank t.nodes y)
    | inr i ↦ rw i refl
  ]

  pub place_self :
      index < length grown.nodes
      → at (place index tag flags span t) index ≡ fresh tag flags span (at t index)
  unfolding place
  place_self h =
      at-put_self index (fresh tag flags span) grown h ∙ ap (fresh tag flags span) (at-grown index)

  pub place_ne : (y : ℕ) → y ≢ index → at (place index tag flags span t) y ≡ at t y
  unfolding place
  place_ne y h = at-put_ne index y (fresh tag flags span) grown (λ e. h (sym e)) ∙ at-grown y

  pub length-place : length (place index tag flags span t).nodes ≡ length grown.nodes
  unfolding place
  length-place = length-put index (fresh tag flags span) grown

  pub length-grown :
      length grown.nodes
      ≡ (if index == length t.nodes then suc (length t.nodes) else length t.nodes)
  length-grown = elim (Bool-cases (index == length t.nodes)) [
    | inl i ↦ rw i (omega (arith, length-append t.nodes (blank ∷ [])))
    | inr i ↦ rw i refl
  ]

  pub le-grown : length t.nodes ≤ length grown.nodes
  le-grown = elim (Bool-cases (index == length t.nodes)) [
    | inl i ↦ rw (length-grown, i) (omega arith)
    | inr i ↦ rw (length-grown, i) (omega arith)
  ]

  pub place-ends :
      ((place index tag flags span t).roots_head ≡ t.roots_head)
      × ((place index tag flags span t).roots_tail ≡ t.roots_tail)
      × ((place index tag flags span t).free ≡ t.free)
  unfolding place
  place-ends = elim (Bool-cases (index == length t.nodes)) [
    | inl i ↦ rw i (refl, refl, refl)
    | inr i ↦ rw i (refl, refl, refl)
  ]

  module _ (f : Forest) (out : has index f ≡ false) (s : IsForest t f)
      (small : index < length grown.nodes) (few : length grown.nodes ≤ max_nodes) where
    pub place-IsForest : IsForest (place index tag flags span t) f
    place-IsForest =
        let u = place index tag flags span t in
        let (heads, tails, _) = place-ends in
        let more : length t.nodes ≤ length u.nodes = omega (arith, le-grown, length-place) in
        record {
          linked =
              subst (λ v. IsLinked (length u.nodes) (at u) u32_max u32_max v u.roots_tail f)
                (sym heads)
                (subst (λ v. IsLinked (length u.nodes) (at u) u32_max u32_max t.roots_head v f)
                  (sym tails)
                  (IsLinked-frame (length u.nodes) (at t) (at u) u32_max u32_max t.roots_head
                    t.roots_tail f
                    (λ y h.
                      let e = place_ne y (has_apart y index f h out) in
                      (
                        ap (λ (n : Node). n.parent) e,
                        ap (λ (n : Node). n.prev_sibling) e,
                        ap (λ (n : Node). n.first_child) e,
                        ap (λ (n : Node). n.last_child) e,
                        ap (λ (n : Node). n.next_sibling) e,
                      ))
                    (IsLinked-widen (length t.nodes) (length u.nodes) (at t) u32_max u32_max
                      t.roots_head t.roots_tail f more s.linked)));
          distinct = s.distinct;
          few = subst (λ m. m ≤ max_nodes) (sym length-place) few;
        }

    pub place-IsLoose : IsLoose (at (place index tag flags span t) index)
    place-IsLoose = subst IsLoose (sym (place_self small)) (refl, refl, refl, refl)
