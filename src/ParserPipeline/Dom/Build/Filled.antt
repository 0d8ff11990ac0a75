-- ===== src/ParserPipeline/Dom/Build/Filled.antt =====
-- Attributes and their values, as they are laid down in a tree.
use vpoiskaxroditeley.Prelude.{
  ℕ, suc, ◌+◌, ◌-◌, All, ◌≤◌, ◌<◌, ◌≡◌, ◌^◌, refl, sym, ap, ap₂, ◌∙◌, false, ◌==◌, ltb, leb, arith,
  if◌then◌else◌, List, [], ◌∷◌, ◌++◌, length, if_both, inl, inr, Option, none, some, List-cases,
  length-append, append_assoc, append-nil,
}
use vpoiskaxroditeley.Str.{Bytes}
use vpoiskaxroditeley.ParserPipeline.Scratch.{Span, get}
use vpoiskaxroditeley.ParserPipeline.Scratch.Spans.{get_between}
use vpoiskaxroditeley.ParserPipeline.Dom.{
  DomTree, Attr, u32_max, put, set_head, tail, set_tail, link_child, alloc_slot, place, push_at,
  push_slot,
}
use vpoiskaxroditeley.ParserPipeline.Dom.Build.{
  max_attrs, pool_bytes, pool_put, Opening, add_attr, add_attrs, find_attr,
}

-- The value of the first attribute with the name.
unfoldable pub value_of : ℕ → List (ℕ × Bytes) → Option Bytes
value_of name [] = none
value_of name ((n, v) ∷ l) = if n == name then some v else value_of name l

-- the values, one behind the other
unfoldable pub values : List (ℕ × Bytes) → Bytes
values [] = []
values ((n, v) ∷ l) = v ++ values l

-- the attributes whose values stand one behind the other from a place on
unfoldable pub attrs_from : ℕ → List (ℕ × Bytes) → List Attr
attrs_from start [] = []
attrs_from start ((n, v) ∷ l) =
    record { name = n; value = record { off = start; len = length v } }
    ∷ attrs_from (start + length v) l

pub find_attr-attrs_from :
    (name : ℕ) (l : List (ℕ × Bytes)) (before after : Bytes)
    → find_attr name (before ++ (values l ++ after)) (attrs_from (length before) l)
      ≡ value_of name l
unfolding value_of values attrs_from find_attr
find_attr-attrs_from name [] before after = refl
find_attr-attrs_from name ((n, v) ∷ l) before after =
    let pool = before ++ ((v ++ values l) ++ after) in
    let split : pool ≡ before ++ (v ++ (values l ++ after)) =
      ap (λ s. before ++ s) (append_assoc v (values l) after) in
    let here : get (record { off = length before; len = length v }) pool ≡ v =
      ap (get (record { off = length before; len = length v })) split
      ∙ get_between before v (values l ++ after) in
    let there : find_attr name pool (attrs_from (length before + length v) l) ≡ value_of name l =
      ap₂ (λ s k. find_attr name s (attrs_from k l))
        (split ∙ sym (append_assoc before v (values l ++ after))) (sym (length-append before v))
      ∙ find_attr-attrs_from name l (before ++ v) after in
    ap₂ (λ a b. if n == name then some a else b) here there

pub length-attrs_from : (start : ℕ) (l : List (ℕ × Bytes)) → length (attrs_from start l) ≡ length l
unfolding attrs_from
length-attrs_from start [] = refl
length-attrs_from start ((n, v) ∷ l) = ap suc (length-attrs_from (start + length v) l)

-- There is room for the values and for the attributes, whose number fits in its byte.
pub record HasRoom (l : List (ℕ × Bytes)) (attrs : ℕ) (pool : ℕ) (count : ℕ) : Type 0 where
  pub attrs_fit : attrs + length l ≤ max_attrs
  pub values_fit : pool + length (values l) ≤ pool_bytes
  pub count_fits : count + length l < 2 ^ 8
  pub spans_fit : All (λ (a : ℕ × Bytes). length a.1 ≤ 2 ^ 16 - 1) l

-- What an opening has after the attributes.
pub record IsFilled (l : List (ℕ × Bytes)) (s r : Opening) : Type 0 where
  pub nodes : r.tree.nodes ≡ s.tree.nodes
  pub attrs : r.tree.attrs ≡ s.tree.attrs ++ attrs_from (length s.tree.pool) l
  pub pool : r.tree.pool ≡ s.tree.pool ++ values l
  pub count : r.count ≡ s.count + length l

not_over : (cap n : ℕ) → n ≤ cap → ltb cap n ≡ false
not_over cap n h = ground arith

not_full : (cap n : ℕ) → n < cap → leb cap n ≡ false
not_full cap n h = ground arith

pool_put_fits :
    (v : Bytes) (t : DomTree)
    → length v ≤ 2 ^ 16 - 1
    → length t.pool + length v ≤ pool_bytes
    → pool_put v t
      ≡ (record { off = length t.pool; len = length v }, record t { pool = t.pool ++ v })
unfolding pool_put
pool_put_fits v t small room =
    rw (not_over (2 ^ 16 - 1) (length v) small, not_over pool_bytes (length t.pool + length v) room)
      refl

module _ (hash : Bytes → ℕ) (n : ℕ) (v : Bytes) (l : List (ℕ × Bytes)) (s : Opening)
    (room : HasRoom ((n, v) ∷ l) (length s.tree.attrs) (length s.tree.pool) s.count) where
  length-values : length (values ((n, v) ∷ l)) ≡ length v + length (values l)
  unfolding values
  length-values = length-append v (values l)

  next-IsFilled : IsFilled ((n, v) ∷ []) s (add_attr hash n v s)
  unfolding add_attr attrs_from values
  next-IsFilled =
      let put =
        pool_put_fits v s.tree room.spans_fit.0 (omega (arith, length-values, room.values_fit)) in
      record {
        nodes = ap (λ (r : Span × DomTree). r.1.nodes) put;
        attrs = ap (λ (r : Span × DomTree). r.1.attrs ++ record { name = n; value = r.0 } ∷ []) put;
        pool =
            ap (λ (r : Span × DomTree). r.1.pool) put
            ∙ ap (λ w. s.tree.pool ++ w) (sym (append-nil v));
        count = omega (arith, room.count_fits);
      }

  -- and there is room for the others
  next-HasRoom :
      let r = add_attr hash n v s in HasRoom l (length r.tree.attrs) (length r.tree.pool) r.count
  unfolding attrs_from values
  next-HasRoom =
      let f = next-IsFilled in
      let more =
        ap (λ (k : List Attr). length k) f.attrs
        ∙ length-append s.tree.attrs (attrs_from (length s.tree.pool) ((n, v) ∷ [])) in
      let longer =
        ap (λ (k : Bytes). length k) f.pool
        ∙ length-append s.tree.pool (v ++ [])
        ∙ ap (λ w. length s.tree.pool + length w) (append-nil v) in
      record {
        attrs_fit = omega (arith, more, room.attrs_fit);
        values_fit = omega (arith, longer, length-values, room.values_fit);
        count_fits = omega (arith, f.count, room.count_fits);
        spans_fit = room.spans_fit.1;
      }

IsFilled-trans :
    (n : ℕ) (v : Bytes) (l : List (ℕ × Bytes)) (s r q : Opening)
    → IsFilled ((n, v) ∷ []) s r
    → IsFilled l r q
    → IsFilled ((n, v) ∷ l) s q
unfolding attrs_from values
IsFilled-trans n v l s r q f g =
    let longer : length r.tree.pool ≡ length s.tree.pool + length v =
      ap (λ (k : Bytes). length k) f.pool
      ∙ length-append s.tree.pool (v ++ [])
      ∙ ap (λ w. length s.tree.pool + length w) (append-nil v) in
    record {
      nodes = g.nodes ∙ f.nodes;
      attrs =
          g.attrs
          ∙ ap₂ (λ k b. k ++ attrs_from b l) f.attrs longer
          ∙ append_assoc s.tree.attrs (attrs_from (length s.tree.pool) ((n, v) ∷ []))
              (attrs_from (length s.tree.pool + length v) l);
      pool =
          g.pool
          ∙ ap (λ k. k ++ values l) (f.pool ∙ ap (λ w. s.tree.pool ++ w) (append-nil v))
          ∙ append_assoc s.tree.pool v (values l);
      count = omega (arith, f.count, g.count);
    }

pub add_attrs-IsFilled :
    (hash : Bytes → ℕ) (l : List (ℕ × Bytes)) (s : Opening)
    → HasRoom l (length s.tree.attrs) (length s.tree.pool) s.count
    → IsFilled l s (add_attrs hash l s)
unfolding add_attrs attrs_from values
add_attrs-IsFilled hash [] s room = record {
  nodes = refl;
  attrs = sym (append-nil s.tree.attrs);
  pool = sym (append-nil s.tree.pool);
  count = omega arith;
}
add_attrs-IsFilled hash ((n, v) ∷ l) s room =
    rw (not_full max_attrs (length s.tree.attrs) (omega (arith, room.attrs_fit))) (
      IsFilled-trans n v l s (add_attr hash n v s) (add_attrs hash l (add_attr hash n v s))
        (next-IsFilled hash n v l s room)
        (add_attrs-IsFilled hash l (add_attr hash n v s) (next-HasRoom hash n v l s room)))

-- Two trees with the same attributes and the same texts.
abbrev pub SameStore : DomTree → DomTree → Type 0
SameStore t u = (t.attrs ≡ u.attrs) × (t.pool ≡ u.pool)

store_trans : (t u v : DomTree) → SameStore t u → SameStore u v → SameStore t v
store_trans t u v (a, b) (c, d) = (a ∙ c, b ∙ d)

set_head-SameStore : (p v : ℕ) (t : DomTree) → SameStore t (set_head p v t)
unfolding set_head put
set_head-SameStore p v t = if_both (SameStore t) (p == u32_max) (refl, refl) (refl, refl)

set_tail-SameStore : (p v : ℕ) (t : DomTree) → SameStore t (set_tail p v t)
unfolding set_tail put
set_tail-SameStore p v t = if_both (SameStore t) (p == u32_max) (refl, refl) (refl, refl)

link_child-SameStore : (p c : ℕ) (t : DomTree) → SameStore t (link_child p c t)
unfolding link_child put
link_child-SameStore p c t =
    let owned = put c (λ n. record n { parent = p }) t in
    let prev = tail owned p in
    let chained =
      if prev == u32_max
      then set_head p c owned
      else put c (λ n. record n { prev_sibling = prev })
          (put prev (λ n. record n { next_sibling = c }) owned) in
    store_trans t chained (set_tail p c chained)
      (if_both (SameStore t) (prev == u32_max) (set_head-SameStore p c owned) (refl, refl))
      (set_tail-SameStore p c chained)

place-SameStore :
    (i tag flags : ℕ) (span : Span) (t : DomTree) → SameStore t (place i tag flags span t)
unfolding place put
place-SameStore i tag flags span t =
    if_both (SameStore t) (i == length t.nodes) (refl, refl) (refl, refl)

alloc_slot-SameStore : (t : DomTree) → SameStore t (alloc_slot t).1
unfolding alloc_slot
alloc_slot-SameStore t = elim (List-cases t.free) [
  | inl e ↦ rw e (if_both (λ (r : Option ℕ × DomTree). SameStore t r.1) _ (refl, refl) (refl, refl))
  | inr (i, (rest, e)) ↦ rw e (refl, refl)
]

push_at-SameStore :
    (p tag flags : ℕ) (span : Span) (r : Option ℕ × DomTree)
    → SameStore r.1 (push_at p tag flags span r).1
unfolding push_at
push_at-SameStore p tag flags span (none, t) = (refl, refl)
push_at-SameStore p tag flags span (some i, t) =
    store_trans t (place i tag flags span t) (link_child p i (place i tag flags span t))
      (place-SameStore i tag flags span t) (link_child-SameStore p i (place i tag flags span t))

pub push_slot-SameStore :
    (p tag flags : ℕ) (span : Span) (t : DomTree) → SameStore t (push_slot p tag flags span t).1
unfolding push_slot
push_slot-SameStore p tag flags span t =
    store_trans t (alloc_slot t).1 (push_at p tag flags span (alloc_slot t)).1
      (alloc_slot-SameStore t) (push_at-SameStore p tag flags span (alloc_slot t))
