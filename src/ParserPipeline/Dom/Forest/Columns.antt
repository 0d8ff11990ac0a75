-- ===== src/ParserPipeline/Dom/Forest/Columns.antt =====
-- What the columns hold after a child is linked: the rows of the child, of its parent and of the child
-- before it, and of every other node.
use vpoiskaxroditeley.Prelude.{
  ℕ, ◌<◌, ◌≡◌, ◌≢◌, refl, sym, ap, ◌∙◌, subst, Bool, true, false, ◌==◌, arith, if◌then◌else◌,
  length, length-set, get_or-set_self, get_or-set_ne, Bool-cases, inl, inr, ==_iff,
}
use vpoiskaxroditeley.ParserPipeline.Dom.{
  Node, DomTree, u32_max, at, blank, put, set_head, set_tail, link_child,
}
use vpoiskaxroditeley.ParserPipeline.Dom.Forest.Attached.{IsLeaf, IsLoose, not_eq}

pub length-put : (i : ℕ) (f : Node → Node) (t : DomTree) → length (put i f t).nodes ≡ length t.nodes
unfolding put
length-put i f t = length-set t.nodes i (f (at t i))

pub at-put_self :
    (i : ℕ) (f : Node → Node) (t : DomTree) → i < length t.nodes → at (put i f t) i ≡ f (at t i)
unfolding put
at-put_self i f t h = get_or-set_self t.nodes i (f (at t i)) blank h

pub at-put_ne : (i j : ℕ) (f : Node → Node) (t : DomTree) → i ≢ j → at (put i f t) j ≡ at t j
unfolding put
at-put_ne i j f t h = get_or-set_ne t.nodes (f (at t i)) blank h

-- in `if` form, at a place that is there
pub at-put :
    (i j : ℕ) (f : Node → Node) (t : DomTree)
    → i < length t.nodes
    → at (put i f t) j ≡ (if j == i then f (at t j) else at t j)
at-put i j f t h = elim (Bool-cases (j == i)) [
  | inl is ↦
      let e = (==_iff j i).0 is in
      rw is (subst (λ v. at (put i f t) v ≡ f (at t v)) (sym e) (at-put_self i f t h))
  | inr not ↦ rw not (at-put_ne i j f t (λ e. absurd (ground arith)))
]

twice :
    (b : Bool) (f g : Node → Node) (r : Node)
    → (if b then g (if b then f r else r) else (if b then f r else r)) ≡ (if b then g (f r) else r)
twice true f g r = refl
twice false f g r = refl

module _ (t : DomTree) (p c : ℕ) (small : c < length t.nodes) where
  abbrev pub owned : DomTree
  owned = put c (λ n. record n { parent = p }) t

  abbrev pub linked : DomTree
  linked = link_child p c t

  pub owned_ne : (y : ℕ) → y ≢ c → at owned y ≡ at t y
  owned_ne y h = at-put_ne c y (λ n. record n { parent = p }) t (λ e. h (sym e))

  pub owned_self : at owned c ≡ record (at t c) { parent = p }
  owned_self = at-put_self c (λ n. record n { parent = p }) t small

  pub owned_length : length owned.nodes ≡ length t.nodes
  owned_length = length-put c (λ n. record n { parent = p }) t

  module _ (p_small : p < length t.nodes) (not_root : p ≢ u32_max) (apart : p ≢ c) where
    not_root_test : (p == u32_max) ≡ false
    not_root_test = not_eq p u32_max not_root

    owned_last : (at owned p).last_child ≡ (at t p).last_child
    owned_last = ap (λ (n : Node). n.last_child) (owned_ne p apart)

    pub linked_first :
        (at t p).last_child ≡ u32_max
        → linked
          ≡ put p
              (λ n. record n { last_child = c })
              (put p (λ n. record n { first_child = c }) owned)
    unfolding link_child set_head set_tail
    linked_first no_tail = rw (link_child, not_root_test, owned_last, no_tail) refl

    pub linked_next :
        (at t p).last_child ≢ u32_max
        → linked
          ≡ put p
              (λ n. record n { last_child = c })
              (put c
                (λ n. record n { prev_sibling = (at t p).last_child })
                (put (at t p).last_child (λ n. record n { next_sibling = c }) owned))
    unfolding link_child set_head set_tail
    linked_next some_tail =
        rw (link_child, not_root_test, owned_last, not_eq (at t p).last_child u32_max some_tail)
          refl

    pub first_row :
        (y : ℕ)
        → (at t p).last_child ≡ u32_max
        → y ≢ c
        → at linked y
          ≡ (if y == p then record (at t y) { first_child = c; last_child = c } else at t y)
    first_row y no_tail other =
        let firsts = λ (n : Node). record n { first_child = c } in
        let lasts = λ (n : Node). record n { last_child = c } in
        let below = put p firsts owned in
        let far : p < length below.nodes =
          omega (arith, length-put p firsts owned, owned_length, p_small) in
        let near : p < length owned.nodes = omega (arith, owned_length, p_small) in
        ap (λ (w : DomTree). at w y) (linked_first no_tail)
        ∙ at-put p y lasts below far
        ∙ ap (λ (r : Node). if y == p then lasts r else r) (at-put p y firsts owned near)
        ∙ ap
            (λ (r : Node).
              if y == p
              then lasts (if y == p then firsts r else r)
              else (if y == p then firsts r else r))
            (owned_ne y other)
        ∙ twice (y == p) firsts lasts (at t y)

    pub next_row :
        (y : ℕ)
        → (at t p).last_child ≢ u32_max
        → (at t p).last_child < length t.nodes
        → y ≢ c
        → at linked y ≡ (
            let m =
              if y == (at t p).last_child then record (at t y) { next_sibling = c } else at t y in
            if y == p then record m { last_child = c } else m)
    next_row y some_tail tail_small other =
        let last = (at t p).last_child in
        let nexts = λ (n : Node). record n { next_sibling = c } in
        let backs = λ (n : Node). record n { prev_sibling = last } in
        let lasts = λ (n : Node). record n { last_child = c } in
        let one = put last nexts owned in
        let two = put c backs one in
        let far : p < length two.nodes =
          omega
            (arith, length-put c backs one, length-put last nexts owned, owned_length, p_small) in
        let near : last < length owned.nodes = omega (arith, owned_length, tail_small) in
        ap (λ (w : DomTree). at w y) (linked_next some_tail)
        ∙ at-put p y lasts two far
        ∙ ap (λ (r : Node). if y == p then lasts r else r)
            (at-put_ne c y backs one (λ e. other (sym e))
              ∙ at-put last y nexts owned near
              ∙ ap (λ (r : Node). if y == last then nexts r else r) (owned_ne y other))

    -- the child itself, which was loose
    pub IsLeaf-row :
        ((at t p).last_child ≢ u32_max → (at t p).last_child < length t.nodes)
        → (at t p).last_child ≢ c
        → IsLoose (at t c)
        → IsLeaf p (at t p).last_child (at linked c)
    IsLeaf-row tail_small not_tail (first, final, next, back) =
        let last = (at t p).last_child in
        let firsts = λ (n : Node). record n { first_child = c } in
        let nexts = λ (n : Node). record n { next_sibling = c } in
        let backs = λ (n : Node). record n { prev_sibling = last } in
        let lasts = λ (n : Node). record n { last_child = c } in
        elim (Bool-cases (last == u32_max)) [
          | inl none ↦
              let no_tail = (==_iff last u32_max).0 none in
              let row : at linked c ≡ record (at t c) { parent = p } =
                ap (λ (w : DomTree). at w c) (linked_first no_tail)
                ∙ at-put_ne p c lasts (put p firsts owned) apart
                ∙ at-put_ne p c firsts owned apart
                ∙ owned_self in
              subst (IsLeaf p last) (sym row) (refl, back ∙ sym no_tail, first, final, next)
          | inr some ↦
              let some_tail : last ≢ u32_max = λ e. absurd (ground arith) in
              let one = put last nexts owned in
              let far : c < length one.nodes =
                omega (arith, length-put last nexts owned, owned_length, small) in
              let row : at linked c ≡ record (at t c) { parent = p; prev_sibling = last } =
                ap (λ (w : DomTree). at w c) (linked_next some_tail)
                ∙ at-put_ne p c lasts (put c backs one) apart
                ∙ at-put_self c backs one far
                ∙ ap backs (at-put_ne last c nexts owned not_tail ∙ owned_self) in
              subst (IsLeaf p last) (sym row) (refl, refl, first, final, next)
        ]
