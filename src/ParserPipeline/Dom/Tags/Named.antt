-- ===== src/ParserPipeline/Dom/Tags/Named.antt =====
-- The number of a tag leads back to its name, from the parser to the finished tree.
use vpoiskaxroditeley.Prelude.{
  ℕ, ◌+◌, ◌≤◌, ◌<◌, ◌≡◌, ◌≢◌, refl, sym, ap, ◌∙◌, subst, Bool, true, false, not, ◌&&◌, ◌==◌, ltb,
  leb, arith, Option, none, some, List, [], ◌∷◌, length, get_or, set, all, replicate, length-set,
  get_or-set_self, get_or-set_ne, length-replicate, Bool-cases, Option-cases, ◌⊎◌, inl, inr,
}
use vpoiskaxroditeley.Str.{Bytes, eq_bytes, eq_bytes→eq}
use vpoiskaxroditeley.ParserPipeline.Scratch.{
  pool_cap, Span, EvScratch, Op, run, push_str, drain_into,
}
use vpoiskaxroditeley.ParserPipeline.Scratch.Spans.{get-push_str}
use vpoiskaxroditeley.ParserPipeline.Dom.{DomTree, tag_unknown}
use vpoiskaxroditeley.ParserPipeline.Dom.Names.{
  Interner, new, number_of, intern, name_table, push_name, resolve_name,
}
use vpoiskaxroditeley.ParserPipeline.Dom.Names.Numbered.{interned, dynamic_name-intern}
use vpoiskaxroditeley.ParserPipeline.Dom.Tags.{
  tags, dynamic_tag_base, inverted, invert, static_tag_name, known_tags, tag_name,
}

-- no entry with the number
abbrev is_fresh : ℕ → List (Bytes × ℕ) → Bool
is_fresh id l = all (λ (e : Bytes × ℕ). not (e.1 == id)) l

-- every entry has a number of its own below the capacity
abbrev is_table : ℕ → List (Bytes × ℕ) → Bool
is_table cap [] = true
is_table cap ((name, id) ∷ l) = ltb id cap && (is_fresh id l && is_table cap l)

inverted_other :
    (l : List (Bytes × ℕ)) (v : List (Option Bytes)) (id : ℕ)
    → is_fresh id l ≡ true
    → get_or (inverted l v) id none ≡ get_or v id none
unfolding inverted
inverted_other [] v id h = refl
inverted_other ((name, k) ∷ l) v id h =
    inverted_other l (set v k (some name)) id (ground arith)
    ∙ get_or-set_ne v (some name) none (λ (e : k ≡ id). absurd (ground arith))

inverted_at :
    (cap : ℕ) (l : List (Bytes × ℕ)) (v : List (Option Bytes)) (name : Bytes) (id : ℕ)
    → is_table cap l ≡ true
    → length v ≡ cap
    → number_of name l ≡ some id
    → (id < cap) × (get_or (inverted l v) id none ≡ some name)
unfolding inverted number_of
inverted_at cap [] v name id h len e = cc
inverted_at cap ((other, k) ∷ l) v name id h len e =
    let small : k < cap = ground arith in
    let alone : is_fresh k l ≡ true = ground arith in
    let rest : is_table cap l ≡ true = ground arith in
    elim (Bool-cases (eq_bytes other name)) [
      | inl same ↦
          let found : some k ≡ some id = sym (rw same refl) ∙ e in
          subst (λ o. (id < cap) × (get_or (inverted l (set v k (some other))) id none ≡ o))
            (ap some (eq_bytes→eq other name same))
            (subst
              (λ i. (i < cap) × (get_or (inverted l (set v k (some other))) i none ≡ some other))
              (ap (λ (o : Option ℕ). elim o [ none ↦ k | some n ↦ n ]) found)
              (
                small,
                inverted_other l (set v k (some other)) k alone
                    ∙ get_or-set_self v k (some other) none (omega (arith, small, len)),
              ))
      | inr differs ↦
          inverted_at cap l (set v k (some other)) name id rest (length-set v k (some other) ∙ len)
            (sym (rw differs refl) ∙ e)
    ]

tags-is_table : is_table dynamic_tag_base tags ≡ true
tags-is_table = refl

not_eq : (a b : ℕ) → a ≢ b → (a == b) ≡ false
not_eq a b h = ground arith

static_known :
    (name : Bytes) (id : ℕ)
    → number_of name tags ≡ some id
    → ((id == tag_unknown) ≡ false) × (static_tag_name id ≡ some name)
unfolding static_tag_name invert
static_known name id e =
    let (small, found) =
      inverted_at dynamic_tag_base tags (replicate dynamic_tag_base none) name id tags-is_table
        (length-replicate {A = Option Bytes} dynamic_tag_base none) e in
    let own = not_eq id tag_unknown (λ k. absurd (omega (arith, small, k))) in
    let low : leb dynamic_tag_base id ≡ false = ground arith in
    (own, rw (static_tag_name, own, low) found)

static_dynamic : (id : ℕ) → dynamic_tag_base ≤ id → static_tag_name id ≡ none
unfolding static_tag_name
static_dynamic id h =
    let high : leb dynamic_tag_base id ≡ true = ground arith in
    elim (Bool-cases (id == tag_unknown)) [
      | inl e ↦ rw (static_tag_name, e) refl
      | inr e ↦ rw (static_tag_name, e, high) refl
    ]

-- the outcomes of a name: its tag has the name, or all numbers are given, or the scratch was full
abbrev pub IsNamed : Bytes → Interner → List Bytes → DomTree → Option ℕ → Type 0
IsNamed name i table t r =
    (tag : ℕ) × (r ≡ some tag)
    × ((tag_name tag (record t { tag_names = table }) ≡ some name)
        ⊎ ((tag ≡ tag_unknown) × (length i.dynamic ≡ known_tags.cap)))

-- what interning a name of its own comes to, for the tree
interned-IsNamed :
    (name : Bytes) (before after : List Bytes) (t : DomTree)
    → let i = interned known_tags before (new known_tags) in
      let r = intern known_tags name i in
      IsNamed name i (name_table (interned known_tags after r.1)).0 t (some r.0)
unfolding tag_name
interned-IsNamed name before after t =
    let i = interned known_tags before (new known_tags) in
    let r = intern known_tags name i in
    elim (dynamic_name-intern known_tags before after name (omega arith)) [
      | inl full ↦ (r.0, refl, inr full)
      | inr (low, _, found) ↦ (r.0, refl, inl (rw (tag_name, static_dynamic r.0 low) found))
    ]

resolve_known :
    (id : ℕ) (pool : Bytes) (i : Interner)
    → (id == tag_unknown) ≡ false
    → resolve_name known_tags id none pool i ≡ (some id, i)
unfolding resolve_name
resolve_known id pool i h = rw h refl

push_known :
    (name : Bytes) (id : ℕ) (sc : EvScratch)
    → number_of name tags ≡ some id
    → push_name known_tags name sc ≡ ((id, none), sc)
unfolding push_name
push_known name id sc e = rw (push_name, e) refl

push_other :
    (name : Bytes) (sc : EvScratch)
    → number_of name tags ≡ none
    → push_name known_tags name sc
      ≡ ((tag_unknown, some (push_str name sc).0), (push_str name sc).1)
unfolding push_name
push_other name sc e = rw (push_name, e) refl

-- what a name that was pushed into a scratch is resolved to, in the tree
abbrev pub IsResolved :
    Bytes
    → List Op
    → EvScratch
    → List Bytes
    → List Bytes
    → DomTree
    → (ℕ × Option Span) × EvScratch
    → Type 0
IsResolved name ops before_push before after t ((id, sp), sc) =
    let i = interned known_tags before (new known_tags) in
    let r = resolve_name known_tags id sp (run ops sc).pool.items i in
    IsNamed name i (name_table (interned known_tags after r.1)).0 t r.0
    ⊎ ((pool_cap < length before_push.pool.items + length name)
        × (number_of name tags ≡ none)
        × ((drain_into (run ops sc)).0.noted ≡ true))

-- The name of a tag that the parser pushes is resolved to a number, from which the tree that is given
-- the table of names at the end tells the name: whatever the parser pushes behind it, and whatever names
-- are interned before and after it. Otherwise the number is `TAG_UNKNOWN`, since `CAP` names have
-- numbers already, or the name is not one of the standard and the pool of the scratch had no room for
-- it, and that is noted.
pub tag_name-resolve_name :
    (name : Bytes) (ops : List Op) (sc : EvScratch) (before after : List Bytes) (t : DomTree)
    → IsResolved name ops sc before after t (push_name known_tags name sc)
unfolding resolve_name tag_name
tag_name-resolve_name name ops sc before after t =
    let i = interned known_tags before (new known_tags) in
    elim (Option-cases (number_of name tags)) [
      | inr (id, e) ↦
          let (own, is) = static_known name id e in
          subst (IsResolved name ops sc before after t) (sym (push_known name id sc e)) (
            inl (
              id,
              ap (λ (q : Option ℕ × Interner). q.0)
                  (resolve_known id (run ops sc).pool.items i own),
              inl (rw (tag_name, is) refl),
            ))
      | inl e ↦
          subst (IsResolved name ops sc before after t) (sym (push_other name sc e))
            (elim (get-push_str name ops sc) [
              | inl (_, still) ↦ inl (
                  subst
                    (λ n.
                      IsNamed name i
                        (name_table (interned known_tags after (intern known_tags n i).1)).0 t
                        (some (intern known_tags n i).0))
                    (sym still) (interned-IsNamed name before after t))
              | inr (full, _, _, noted, _) ↦ inr (full, e, noted)
            ])
    ]
