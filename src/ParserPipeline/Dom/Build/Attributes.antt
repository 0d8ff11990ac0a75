-- ===== src/ParserPipeline/Dom/Build/Attributes.antt =====
-- The attributes of an element are read as they were given.
use vpoiskaxroditeley.Prelude.{
  bit_or, get_or, ℕ, ◌<◌, ◌≡◌, refl, sym, ap, ap₂, ◌∙◌, subst, true, false, ltb, arith,
  if◌then◌else◌, List, [], ◌++◌, length, take, drop, if_both, inl, inr, ◌⊎◌, Option, none, some,
  Option-cases, append-nil, take-append_lem, drop-append_lem,
}
use vpoiskaxroditeley.Str.{Bytes}
use vpoiskaxroditeley.ParserPipeline.Scratch.{nil_span}
use vpoiskaxroditeley.ParserPipeline.Dom.{
  Node, DomTree, Attr, u32_max, max_nodes, flag_element, flag_hidden, at, put, push_slot, blank,
}
use vpoiskaxroditeley.ParserPipeline.Dom.Build.{
  id_index_cap, Opening, add_attrs, seal, note, furnish, furnished, open_element, find_attr, attr,
}
use vpoiskaxroditeley.ParserPipeline.Dom.Build.Kept.{has_pushed}
use vpoiskaxroditeley.ParserPipeline.Dom.Build.Shape.{pair_eq, note_both}
use vpoiskaxroditeley.ParserPipeline.Dom.Forest.{Forest, has, size, has-lt}
use vpoiskaxroditeley.ParserPipeline.Dom.Forest.Columns.{at-put_self}
use vpoiskaxroditeley.ParserPipeline.Dom.Forest.Linked.{attach}
use vpoiskaxroditeley.ParserPipeline.Dom.Forest.Sound.{IsSound}
use vpoiskaxroditeley.ParserPipeline.Dom.Forest.Pushed.{push_slot-IsPushed}
use vpoiskaxroditeley.ParserPipeline.Dom.Build.Filled.{
  HasRoom, SameStore, add_attrs-IsFilled, attrs_from, find_attr-attrs_from, length-attrs_from,
  push_slot-SameStore, value_of, values,
}

-- Two trees with the same nodes, attributes and texts.
abbrev SameContent : DomTree → DomTree → Type 0
SameContent t u = (t.nodes ≡ u.nodes) × SameStore t u

note-SameContent :
    (node tag : ℕ) (l : List (ℕ × Bytes)) (t : DomTree) → SameContent t (note node tag l t)
note-SameContent node tag l t =
    note_both (SameContent t) node tag l t (λ scripts forms inputs title meta. (refl, (refl, refl)))

-- the columns of the element
seal-attr :
    (node start : ℕ) (s : Opening)
    → node < length s.tree.nodes
    → ((at (seal node start s) node).attr_start ≡ start)
      × ((at (seal node start s) node).attr_count ≡ s.count)
      × SameStore s.tree (seal node start s)
unfolding seal put
seal-attr node start s small =
    let g = λ (n : Node). record n {
      attr_start = start;
      attr_count = s.count;
      flags = if s.hidden then bit_or n.flags flag_hidden else n.flags;
    } in
    let t = put node g s.tree in
    let row = at-put_self node g s.tree small in
    let P = λ (u : DomTree).
      ((at u node).attr_start ≡ start) × ((at u node).attr_count ≡ s.count) × SameStore s.tree u in
    let kept : P t =
      (ap (λ (n : Node). n.attr_start) row, ap (λ (n : Node). n.attr_count) row, (refl, refl)) in
    elim (Option-cases s.id_hash) [
      | inl e ↦ rw e kept
      | inr (h, e) ↦ rw e (if_both P (ltb (length t.id_index) id_index_cap) kept kept)
    ]

-- The attributes of a node are a stretch of the attributes of the tree.
find_stretch :
    (name : ℕ) (l : List (ℕ × Bytes)) (attrs : List Attr) (pool : Bytes)
    → find_attr name
        (pool ++ values l)
        (take (length l) (drop (length attrs) (attrs ++ attrs_from (length pool) l)))
      ≡ value_of name l
find_stretch name l attrs pool =
    let stretch = attrs_from (length pool) l in
    ap (λ k. find_attr name (pool ++ values l) (take (length l) k)) (drop-append_lem attrs stretch)
    ∙ ap₂ (λ n k. find_attr name (pool ++ values l) (take n k))
        (sym (length-attrs_from (length pool) l)) (sym (append-nil stretch))
    ∙ ap₂ (λ k b. find_attr name b k) (take-append_lem stretch [])
        (ap (λ b. pool ++ b) (sym (append-nil (values l))))
    ∙ find_attr-attrs_from name l pool []

attr-furnish :
    (hash : Bytes → ℕ) (tag : ℕ) (l : List (ℕ × Bytes)) (node : ℕ) (t : DomTree) (name : ℕ)
    → node < length t.nodes
    → HasRoom l (length t.attrs) (length t.pool) 0
    → attr node name (furnish hash tag l node t) ≡ value_of name l
unfolding furnish attr
attr-furnish hash tag l node t name small room =
    let start : Opening = record { tree = t; count = 0; hidden = false; id_hash = none } in
    let r = add_attrs hash l start in
    let filled = add_attrs-IsFilled hash l start room in
    let sealed = seal node (length t.attrs) r in
    let (from, counted, (attrs, pool)) =
      seal-attr node (length t.attrs) r
        (omega (arith, small, ap (λ (k : List Node). length k) filled.nodes)) in
    let (nodes, (attrs', pool')) = note-SameContent node tag l sealed in
    let row = ap (λ k. get_or k node blank) (sym nodes) in
    let u = note node tag l sealed in
    let count_is : (at u node).attr_count ≡ length l =
      ap (λ (n : Node). n.attr_count) row ∙ counted ∙ omega (arith, filled.count) in
    let start_is : (at u node).attr_start ≡ length t.attrs =
      ap (λ (n : Node). n.attr_start) row ∙ from in
    let attrs_are : u.attrs ≡ t.attrs ++ attrs_from (length t.pool) l =
      sym attrs' ∙ sym attrs ∙ filled.attrs in
    let pool_is : u.pool ≡ t.pool ++ values l = sym pool' ∙ sym pool ∙ filled.pool in
    ap₂ (λ n k. find_attr name u.pool (take n (drop k u.attrs))) count_is start_is
    ∙ ap₂ (λ b k. find_attr name b (take (length l) (drop (length t.attrs) k))) pool_is attrs_are
    ∙ find_stretch name l t.attrs t.pool

-- An element that is opened in a sound tree, as a root or below a node of the tree, where there is room
-- for its node and its attributes, is given a node, whose attribute of any name has the value of the
-- first attribute with the name of those given, and which has no attribute of a name that was not given.
-- There is room when neither the nodes, the attributes nor the bytes of values get beyond what the tree
-- may have, no value is longer than 65535 bytes and there are fewer than 256 attributes.
pub attr-open_element :
    (hash : Bytes → ℕ) (p tag : ℕ) (l : List (ℕ × Bytes)) (t : DomTree) (f : Forest)
    → (p ≡ u32_max) ⊎ (has p f ≡ true)
    → IsSound t f
    → size f < max_nodes
    → HasRoom l (length t.attrs) (length t.pool) 0
    → let r = open_element hash p tag l t in
      (c : ℕ) × (r.0 ≡ some c) × ((name : ℕ) → attr c name r.1 ≡ value_of name l)
unfolding open_element
attr-open_element hash p tag l t f where_to s few room =
    elim (push_slot-IsPushed p tag flag_element nil_span t f where_to
      (λ e. absurd (omega (arith, e))) s) [
        | inl (nothing, noted, full) ↦ absurd (omega (arith, few, full))
        | inr (c, is, out, sound, flags) ↦
            let u = (push_slot p tag flag_element nil_span t).1 in
            let (attrs, pool) = push_slot-SameStore p tag flag_element nil_span t in
            let opened =
              ap (furnished hash tag l)
                (pair_eq (push_slot p tag flag_element nil_span t) (some c) u is refl) in
            let small : c < length u.nodes =
              has-lt (length u.nodes) (at u) c u32_max u32_max u.roots_head u.roots_tail
                (attach p c f) sound.forest.linked (has_pushed p c t f where_to s) in
            (
              c,
              ap (λ (r : Option ℕ × DomTree). r.0) opened,
              λ name.
                  ap (λ (r : Option ℕ × DomTree). attr c name r.1) opened
                  ∙ attr-furnish hash tag l c u name small (
                      subst (λ (b : Bytes). HasRoom l (length u.attrs) (length b) 0) pool
                        (subst (λ (a : List Attr). HasRoom l (length a) (length t.pool) 0) attrs
                          room)),
            )
      ]
