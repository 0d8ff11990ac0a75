-- ===== src/ParserPipeline/Dom/Build/Kept.antt =====
-- Elements are put into a sound tree, and their attributes leave its shape alone.
use vpoiskaxroditeley.Prelude.{
  ℕ, ◌≡◌, ◌≢◌, refl, sym, ap, ◌∙◌, subst, true, false, ltb, arith, if◌then◌else◌, List, [], ◌∷◌,
  length, ◌⊎◌, inl, inr, Bool-cases, Option, none, some, Option-cases, ◌++◌, get_or, bit_or,
}
use vpoiskaxroditeley.Str.{Bytes}
use vpoiskaxroditeley.ParserPipeline.Scratch.{nil_span}
use vpoiskaxroditeley.ParserPipeline.Dom.{
  Node, DomTree, u32_max, max_nodes, flag_element, flag_hidden, at, put, push_slot, node_id, blank,
}
use vpoiskaxroditeley.ParserPipeline.Dom.Build.{
  Opening, add_attrs, seal, note, furnish, furnished, open_element, id_index_cap,
}
use vpoiskaxroditeley.ParserPipeline.Dom.Forest.{Forest, has, size, has-lt}
use vpoiskaxroditeley.ParserPipeline.Dom.Forest.Linked.{attach}
use vpoiskaxroditeley.ParserPipeline.Dom.Forest.Sound.{IsSound}
use vpoiskaxroditeley.ParserPipeline.Dom.Forest.Placed.{has-attach}
use vpoiskaxroditeley.ParserPipeline.Dom.Forest.Pushed.{push_slot-IsPushed}
use vpoiskaxroditeley.ParserPipeline.Dom.Build.Shape.{
  SameShape-IsSound, add_attrs-SameShape, either, note-SameShape, pair_eq, put-IsSound, self_or,
}

-- The columns of the element are written, and it stays alive.
seal-IsSound :
    (node start : ℕ) (s : Opening) (f : Forest)
    → has node f ≡ true
    → (at s.tree node).flags ≡ flag_element
    → IsSound s.tree f
    → IsSound (seal node start s) f
unfolding seal
seal-IsSound node start s f there element sound =
    let g = λ (n : Node). record n {
      attr_start = start;
      attr_count = s.count;
      flags = if s.hidden then bit_or n.flags flag_hidden else n.flags;
    } in
    let flags : (if s.hidden
          then bit_or (at s.tree node).flags flag_hidden
          else (at s.tree node).flags)
        ≢ 0 =
      elim (Bool-cases s.hidden) [
        | inl h ↦ rw (h, element) (λ (e : ◌≡◌ {A = ℕ} 5 0). absurd (omega (arith, e)))
        | inr h ↦ rw (h, element) (λ (e : ◌≡◌ {A = ℕ} 1 0). absurd (omega (arith, e)))
      ] in
    let kept =
      put-IsSound node g s.tree f there sound (λ n. (refl, refl, refl, refl, refl)) flags in
    elim (Option-cases s.id_hash) [
      | inl h ↦ rw h kept
      | inr (h, is) ↦
          let t = put node g s.tree in
          rw is (
            SameShape-IsSound t
              (if ltb (length t.id_index) id_index_cap
                then record t { id_index = t.id_index ++ (h, node_id node t) ∷ [] }
                else t)
              f
              (either t (ltb (length t.id_index) id_index_cap)
                (record t { id_index = t.id_index ++ (h, node_id node t) ∷ [] }) t
                (refl, refl, refl, refl) (refl, refl, refl, refl))
              kept)
    ]

pub furnish-IsSound :
    (hash : Bytes → ℕ) (tag : ℕ) (l : List (ℕ × Bytes)) (node : ℕ) (t : DomTree) (f : Forest)
    → has node f ≡ true
    → (at t node).flags ≡ flag_element
    → IsSound t f
    → IsSound (furnish hash tag l node t) f
unfolding furnish
furnish-IsSound hash tag l node t f there element s =
    let start : Opening = record { tree = t; count = 0; hidden = false; id_hash = none } in
    let opened = add_attrs hash l start in
    let shape = add_attrs-SameShape hash l start in
    let nodes = shape.0 in
    let sealed = seal node (length t.attrs) opened in
    SameShape-IsSound sealed (note node tag l sealed) f (note-SameShape node tag l sealed) (
      seal-IsSound node (length t.attrs) opened f there
        (subst (λ v. (get_or v node blank).flags ≡ flag_element) nodes element)
        (SameShape-IsSound t opened.tree f shape s))

-- A node that is attached is in the forest.
pub has_pushed :
    (p c : ℕ) (t : DomTree) (f : Forest)
    → (p ≡ u32_max) ⊎ (has p f ≡ true)
    → IsSound t f
    → has c (attach p c f) ≡ true
has_pushed p c t f where_to s =
    let not_max : has p f ≡ true → p ≢ u32_max = λ h e. absurd (
      omega (
        arith,
        e,
        s.forest.few,
        has-lt (length t.nodes) (at t) p u32_max u32_max t.roots_head t.roots_tail f s.forest.linked
            h,
      )) in
    has-attach p c f where_to s.forest.distinct not_max c ∙ self_or c (has c f)

-- An element that is opened in a sound tree, as a root or below a node of the tree, is the last child
-- of its parent in a tree that stays sound, whatever its attributes, at a place where no node was; or the
-- tree has as many nodes as it may have, there is no element, and the tree is as it was but for the note
-- of it.
pub open_element-IsSound :
    (hash : Bytes → ℕ) (p tag : ℕ) (l : List (ℕ × Bytes)) (t : DomTree) (f : Forest)
    → (p ≡ u32_max) ⊎ (has p f ≡ true)
    → IsSound t f
    → let r = open_element hash p tag l t in
      ((r ≡ (none, record t { truncated = true })) × (size f ≡ max_nodes))
      ⊎ ((c : ℕ) × (r.0 ≡ some c) × (has c f ≡ false) × IsSound r.1 (attach p c f))
unfolding open_element
open_element-IsSound hash p tag l t f where_to s =
    elim (push_slot-IsPushed p tag flag_element nil_span t f where_to
      (λ e. absurd (omega (arith, e))) s) [
        | inl (nothing, noted, full) ↦ inl (
          ap (furnished hash tag l) (
              pair_eq (push_slot p tag flag_element nil_span t) none (record t { truncated = true })
                nothing noted),
          full,
        )
        | inr (c, is, out, sound, flags) ↦
            let u = (push_slot p tag flag_element nil_span t).1 in
            let pushed : push_slot p tag flag_element nil_span t ≡ (some c, u) =
              pair_eq (push_slot p tag flag_element nil_span t) (some c) u is refl in
            let opened = ap (furnished hash tag l) pushed in
            inr (
              c,
              ap (λ (r : Option ℕ × DomTree). r.0) opened,
              out,
              subst (λ (r : Option ℕ × DomTree). IsSound r.1 (attach p c f)) (sym opened)
                  (furnish-IsSound hash tag l c u (attach p c f) (has_pushed p c t f where_to s)
                    flags sound),
            )
      ]
