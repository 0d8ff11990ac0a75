-- ===== src/ParserPipeline/Dom/Build/Parsed.antt =====
-- The trees that a parse comes to.
use vpoiskaxroditeley.Prelude.{
  ℕ, ◌+◌, ◌-◌, ◌^◌, ◌<◌, ◌≡◌, ◌≢◌, refl, sym, subst, true, false, not, ◌&&◌, ◌==◌, leb, arith, List,
  length, min, take, ◌⊎◌, inl, inr, Bool-cases, Option,
}
use vpoiskaxroditeley.Str.{Bytes}
use vpoiskaxroditeley.CoreUtils.Numbers.{floor_char_boundary}
use vpoiskaxroditeley.ParserPipeline.Scratch.{Span}
use vpoiskaxroditeley.ParserPipeline.Dom.{DomTree, u32_max, tag_unknown, flag_text, new, at}
use vpoiskaxroditeley.ParserPipeline.Dom.Build.{
  text_node_bytes, pool_put, is_adjacent, put_text, push_text, open_element,
}
use vpoiskaxroditeley.ParserPipeline.Dom.Build.Shape.{
  SameShape-IsSound, pool_put-SameShape, put-IsSound,
}
use vpoiskaxroditeley.ParserPipeline.Dom.Build.Kept.{open_element-IsSound}
use vpoiskaxroditeley.ParserPipeline.Dom.Forest.{Forest, nil, has, size, has-last_child}
use vpoiskaxroditeley.ParserPipeline.Dom.Forest.Linked.{attach}
use vpoiskaxroditeley.ParserPipeline.Dom.Forest.Sound.{elem, IsSound}
use vpoiskaxroditeley.ParserPipeline.Dom.Forest.Pushed.{push_slot-IsPushed}

-- A tree that is sound for the forest, or for the forest with one node more below a node.
abbrev pub IsGrownBy : ℕ → Forest → DomTree → Type 0
IsGrownBy p f u = IsSound u f ⊎ ((c : ℕ) × (has c f ≡ false) × IsSound u (attach p c f))

put_text-IsGrownBy :
    (p : ℕ) (span : Span) (t : DomTree) (f : Forest)
    → has p f ≡ true
    → IsSound t f
    → IsGrownBy p f (put_text p span t)
unfolding put_text
put_text-IsGrownBy p span t f there s =
    let last = (at t p).last_child in
    let merged = (at t last).span.len + span.len in
    let goes_on = is_adjacent span (at t last) && leb merged (2 ^ 16 - 1) in
    elim (Bool-cases (not (last == u32_max) && goes_on)) [
      | inl yes_it_does ↦
          let some_last : last ≢ u32_max = λ e. absurd (ground arith) in
          let inside : has last f ≡ true =
            elim (has-last_child (length t.nodes) (at t) p u32_max u32_max t.roots_head t.roots_tail
              f s.forest.linked there) [ inl nothing ↦ absurd (some_last nothing) | inr h ↦ h ] in
          rw yes_it_does (
            inl (
              put-IsSound last (λ n. record n { span = record n.span { len = merged } }) t f inside
                s (λ n. (refl, refl, refl, refl, refl)) (s.alive last inside)))
      | inr it_does_not ↦
          rw it_does_not
            (elim (push_slot-IsPushed p tag_unknown flag_text span t f (inr there)
              (λ e. absurd (omega (arith, e))) s) [
                | inl (_, noted, _) ↦ inl (
                    subst (λ u. IsSound u f) (sym noted)
                      (SameShape-IsSound t (record t { truncated = true }) f
                        (refl, refl, refl, refl) s))
                | inr (c, _, out, sound, _) ↦ inr (c, out, sound)
              ])
    ]

-- Text below a node goes on in its last child, or is a new last child, or is left out of a full tree.
pub push_text-IsGrownBy :
    (p : ℕ) (text : Bytes) (t : DomTree) (f : Forest)
    → has p f ≡ true
    → IsSound t f
    → IsGrownBy p f (push_text p text t)
unfolding push_text
push_text-IsGrownBy p text t f there s = elim (Bool-cases (p == u32_max)) [
  | inl root ↦ rw root (inl s)
  | inr inner ↦
      let cut = take (floor_char_boundary text (min (length text) text_node_bytes)) text in
      let (span, u) = pool_put cut t in
      rw inner
        (put_text-IsGrownBy p span u f there (SameShape-IsSound t u f (pool_put-SameShape cut t) s))
]

-- A node is put among the roots, or below a node that is alive.
abbrev pub CanHold : ℕ → DomTree → Type 0
CanHold p t = (p ≡ u32_max) ⊎ ((p < length t.nodes) × ((at t p).flags ≢ 0))

pub data IsParsed (hash : Bytes → ℕ) : DomTree → Type 0 where
  begins : IsParsed hash new
  opens :
      {t : DomTree} (p tag : ℕ) (attrs : List (ℕ × Bytes))
      → CanHold p t
      → IsParsed hash t
      → IsParsed hash (open_element hash p tag attrs t).1
  texts :
      {t : DomTree} (p : ℕ) (text : Bytes)
      → CanHold p t
      → IsParsed hash t
      → IsParsed hash (push_text p text t)

holder :
    (p : ℕ) (t : DomTree) (f : Forest)
    → IsSound t f
    → CanHold p t
    → (p ≡ u32_max) ⊎ (has p f ≡ true)
holder p t f s (inl root) = inl root
holder p t f s (inr (lt, alive)) = inr (s.known p lt alive)

text_IsSound :
    (p : ℕ) (text : Bytes) (t : DomTree) (f : Forest)
    → (p ≡ u32_max) ⊎ (has p f ≡ true)
    → IsSound t f
    → IsGrownBy p f (push_text p text t)
unfolding push_text
text_IsSound p text t f (inl root) s = let e : (p == u32_max) ≡ true = ground arith in rw e (inl s)
text_IsSound p text t f (inr there) s = push_text-IsGrownBy p text t f there s

new-IsSound : IsSound new nil
unfolding new size has elem
new-IsSound = record {
  forest = record { linked = (refl, refl); distinct = tt; few = omega arith };
  vacant = λ y h. cc;
  once = tt;
  counted = refl;
  alive = λ y h. cc;
  known = λ y lt. absurd (omega (arith, lt));
}

grown_forest : (p : ℕ) (f : Forest) (u : DomTree) → IsGrownBy p f u → (g : Forest) × IsSound u g
grown_forest p f u (inl s) = (f, s)
grown_forest p f u (inr (c, _, s)) = (attach p c f, s)

-- Whatever elements and texts a parse adds to an empty tree, among the roots or below nodes that are
-- alive, the columns of the tree are the links of a forest: the first and last child of
-- each node, and the siblings of each, are those of one order, no node stands twice in it, the nodes
-- that are alive are the ones in it, and the other places are free.
pub IsParsed-IsSound :
    {hash : Bytes → ℕ} {t : DomTree} → IsParsed hash t → (f : Forest) × IsSound t f
IsParsed-IsSound begins = (nil, new-IsSound)
IsParsed-IsSound {hash} (opens {t = t} p tag attrs can r) =
    let (f, s) = IsParsed-IsSound r in
    elim (open_element-IsSound hash p tag attrs t f (holder p t f s can) s) [
      | inl (is, _) ↦ (
        f,
        subst (λ (u : Option ℕ × DomTree). IsSound u.1 f) (sym is)
            (SameShape-IsSound t (record t { truncated = true }) f (refl, refl, refl, refl) s),
      )
      | inr (c, _, _, sound) ↦ (attach p c f, sound)
    ]
IsParsed-IsSound {hash} (texts {t = t} p text can r) =
    let (f, s) = IsParsed-IsSound r in
    grown_forest p f (push_text p text t) (text_IsSound p text t f (holder p t f s can) s)
