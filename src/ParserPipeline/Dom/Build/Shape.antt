-- ===== src/ParserPipeline/Dom/Build/Shape.antt =====
-- Writes that leave the links of a tree alone.
use vpoiskaxroditeley.Prelude.{
  ℕ, ◌<◌, ◌≡◌, ◌≢◌, refl, sym, ap, ◌∙◌, subst, Bool, true, false, not, ◌&&◌, ◌||◌, ◌==◌, leb, arith,
  if◌then◌else◌, List, [], ◌∷◌, length, inl, inr, Bool-cases, ==_iff, Option, some, ◌++◌, ap₂,
  if_both, is_some,
}
use vpoiskaxroditeley.Str.{Bytes}
use vpoiskaxroditeley.ParserPipeline.Scratch.{Span}
use vpoiskaxroditeley.ParserPipeline.Dom.{Node, DomTree, u32_max, at, put}
use vpoiskaxroditeley.ParserPipeline.Dom.Build.{
  max_attrs, pool_put, Opening, add_attr, add_attrs, note, names_description, tag_script, tag_form,
  tag_input, tag_select, tag_textarea, tag_button, tag_title, tag_meta,
}
use vpoiskaxroditeley.ParserPipeline.Dom.Forest.{Forest, has, IsLinked, has-lt, SameLinks}
use vpoiskaxroditeley.ParserPipeline.Dom.Forest.Attached.{IsLinked-frame}
use vpoiskaxroditeley.ParserPipeline.Dom.Forest.Columns.{length-put, at-put_self, at-put_ne}
use vpoiskaxroditeley.ParserPipeline.Dom.Forest.Sound.{IsSound}

-- Two trees that have the same nodes, links and free places.
abbrev pub SameShape : DomTree → DomTree → Type 0
SameShape t u =
    (t.nodes ≡ u.nodes)
    × (t.free ≡ u.free)
    × (t.roots_head ≡ u.roots_head)
    × (t.roots_tail ≡ u.roots_tail)

pub shape_trans : (t u v : DomTree) → SameShape t u → SameShape u v → SameShape t v
shape_trans t u v (a, b, c, d) (e, f, g, h) = (a ∙ e, b ∙ f, c ∙ g, d ∙ h)

pub SameShape-IsSound : (t u : DomTree) (f : Forest) → SameShape t u → IsSound t f → IsSound u f
SameShape-IsSound t u f (a, b, c, d) s =
    let moved : IsSound
        (record u {
          nodes = t.nodes;
          free = t.free;
          roots_head = t.roots_head;
          roots_tail = t.roots_tail;
        })
        f =
      record {
        forest = record {
          linked = s.forest.linked;
          distinct = s.forest.distinct;
          few = s.forest.few;
        };
        vacant = s.vacant;
        once = s.once;
        counted = s.counted;
        alive = s.alive;
        known = s.known;
      } in
    subst (λ v. IsSound (record u { roots_tail = v }) f) d
      (subst (λ v. IsSound (record u { roots_head = v; roots_tail = t.roots_tail }) f) c
        (subst
          (λ v.
            IsSound (record u { free = v; roots_head = t.roots_head; roots_tail = t.roots_tail }) f)
          b
          (subst
            (λ v.
              IsSound
                (record u {
                  nodes = v;
                  free = t.free;
                  roots_head = t.roots_head;
                  roots_tail = t.roots_tail;
                })
                f)
            a moved)))

module _ (i : ℕ) (g : Node → Node) (t : DomTree) (f : Forest) (there : has i f ≡ true)
    (s : IsSound t f) where
  i_small : i < length t.nodes
  i_small =
      has-lt (length t.nodes) (at t) i u32_max u32_max t.roots_head t.roots_tail f s.forest.linked
        there

  row_self : at (put i g t) i ≡ g (at t i)
  row_self = at-put_self i g t i_small

  row_other : (y : ℕ) → y ≢ i → at (put i g t) y ≡ at t y
  row_other y h = at-put_ne i y g t (λ e. h (sym e))

  row_links : ((n : Node) → SameLinks n (g n)) → (y : ℕ) → SameLinks (at t y) (at (put i g t) y)
  row_links same y = elim (Bool-cases (y == i)) [
    | inl is ↦
        subst (λ v. SameLinks (at t v) (at (put i g t) v)) (sym ((==_iff y i).0 is))
          (subst (SameLinks (at t i)) (sym row_self) (same (at t i)))
    | inr other ↦
        subst (SameLinks (at t y)) (sym (row_other y (λ e. absurd (ground arith))))
          (refl, refl, refl, refl, refl)
  ]

  -- A write to other columns of a node of the forest, which stays alive.
  pub put-IsSound :
      ((n : Node) → SameLinks n (g n)) → (g (at t i)).flags ≢ 0 → IsSound (put i g t) f
  unfolding put
  put-IsSound same alive =
      let len_same = length-put i g t in
      let links : IsLinked (length t.nodes) (at (put i g t)) u32_max u32_max t.roots_head
          t.roots_tail f =
        IsLinked-frame (length t.nodes) (at t) (at (put i g t)) u32_max u32_max t.roots_head
          t.roots_tail f (λ y _. row_links same y) s.forest.linked in
      record {
        forest = record {
          linked =
              subst (λ m. IsLinked m (at (put i g t)) u32_max u32_max t.roots_head t.roots_tail f)
                (sym len_same) links;
          distinct = s.forest.distinct;
          few = omega (arith, len_same, s.forest.few);
        };
        vacant = λ y h.
            let (out, small, zeros) = s.vacant y h in
            let other : y ≢ i = λ e. cc (subst (λ v. has v f ≡ false) e out) in
            (
              out,
              omega (arith, len_same, small),
              ap (λ (n : Node). n.flags) (row_other y other) ∙ zeros,
            );
        once = s.once;
        counted = omega (arith, len_same, s.counted);
        alive = λ y h. elim (Bool-cases (y == i)) [
          | inl is ↦ λ e. alive (
              sym (ap (λ (n : Node). n.flags) row_self)
              ∙ subst (λ v. (at (put i g t) v).flags ≡ 0) ((==_iff y i).0 is) e)
          | inr other ↦ λ e.
              s.alive y h
                (sym (ap (λ (n : Node). n.flags) (row_other y (λ k. absurd (ground arith)))) ∙ e)
        ];
        known = λ y small living. elim (Bool-cases (y == i)) [
          | inl is ↦ subst (λ v. has v f ≡ true) (sym ((==_iff y i).0 is)) there
          | inr other ↦ s.known y (omega (arith, len_same, small)) (λ e.
              living (ap (λ (n : Node). n.flags) (row_other y (λ k. absurd (ground arith))) ∙ e))
        ];
      }

pub pool_put-SameShape : (bytes : Bytes) (t : DomTree) → SameShape t (pool_put bytes t).1
unfolding pool_put
pool_put-SameShape bytes t =
    if_both (λ (r : Span × DomTree). SameShape t r.1) _ (refl, refl, refl, refl)
      (refl, refl, refl, refl)

add_attr-SameShape :
    (hash : Bytes → ℕ) (name : ℕ) (value : Bytes) (s : Opening)
    → SameShape s.tree (add_attr hash name value s).tree
unfolding add_attr
add_attr-SameShape hash name value s = pool_put-SameShape value s.tree

pub add_attrs-SameShape :
    (hash : Bytes → ℕ) (l : List (ℕ × Bytes)) (s : Opening)
    → SameShape s.tree (add_attrs hash l s).tree
unfolding add_attrs
add_attrs-SameShape hash [] s = (refl, refl, refl, refl)
add_attrs-SameShape hash ((name, value) ∷ l) s =
    if_both (λ (r : Opening). SameShape s.tree r.tree) (leb max_attrs (length s.tree.attrs))
      (refl, refl, refl, refl)
      (shape_trans s.tree (add_attr hash name value s).tree
        (add_attrs hash l (add_attr hash name value s)).tree (add_attr-SameShape hash name value s)
        (add_attrs-SameShape hash l (add_attr hash name value s)))

-- both branches of a test
pub either :
    (t : DomTree) (b : Bool) (x y : DomTree)
    → SameShape t x
    → SameShape t y
    → SameShape t (if b then x else y)
either t true x y p q = p
either t false x y p q = q

pub pair_eq : (r : Option ℕ × DomTree) (a : Option ℕ) (t : DomTree) → r.0 ≡ a → r.1 ≡ t → r ≡ (a, t)
pair_eq (b, u) a t e k = ap₂ (λ v w. (v, w)) e k

pub self_or : (c : ℕ) (b : Bool) → (c == c || b) ≡ true
self_or c b = ground arith

-- What holds of a tree whatever the lists of nodes are that are asked for later.
pub note_both :
    (P : DomTree → Type 0) (node tag : ℕ) (l : List (ℕ × Bytes)) (t : DomTree)
    → ((scripts forms inputs : List ℕ) (title meta_desc : Option ℕ)
        → P (record t {
          scripts = scripts;
          forms = forms;
          inputs = inputs;
          title_node = title;
          meta_desc_node = meta_desc;
        }))
    → P (note node tag l t)
unfolding note
note_both P node tag l t kept =
    let third =
      tag == tag_input || (tag == tag_select || (tag == tag_textarea || tag == tag_button)) in
    let fourth = tag == tag_title && not (is_some t.title_node) in
    let fifth = tag == tag_meta && (not (is_some t.meta_desc_node) && names_description l) in
    let meta = if fifth then record t { meta_desc_node = some node } else t in
    let title = if fourth then record t { title_node = some node } else meta in
    let input = if third then record t { inputs = t.inputs ++ node ∷ [] } else title in
    let form = if tag == tag_form then record t { forms = t.forms ++ node ∷ [] } else input in
    if_both P (tag == tag_script) {x = record t { scripts = t.scripts ++ node ∷ [] }} {y = form}
      (kept (t.scripts ++ node ∷ []) t.forms t.inputs t.title_node t.meta_desc_node)
      (if_both P (tag == tag_form) {x = record t { forms = t.forms ++ node ∷ [] }} {y = input}
        (kept t.scripts (t.forms ++ node ∷ []) t.inputs t.title_node t.meta_desc_node)
        (if_both P third {x = record t { inputs = t.inputs ++ node ∷ [] }} {y = title}
          (kept t.scripts t.forms (t.inputs ++ node ∷ []) t.title_node t.meta_desc_node)
          (if_both P fourth {x = record t { title_node = some node }} {y = meta}
            (kept t.scripts t.forms t.inputs (some node) t.meta_desc_node)
            (if_both P fifth {x = record t { meta_desc_node = some node }} {y = t}
              (kept t.scripts t.forms t.inputs t.title_node (some node))
              (kept t.scripts t.forms t.inputs t.title_node t.meta_desc_node)))))

pub note-SameShape :
    (node tag : ℕ) (l : List (ℕ × Bytes)) (t : DomTree) → SameShape t (note node tag l t)
note-SameShape node tag l t =
    note_both (SameShape t) node tag l t
      (λ scripts forms inputs title meta. (refl, refl, refl, refl))
