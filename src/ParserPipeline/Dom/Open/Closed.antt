-- ===== src/ParserPipeline/Dom/Open/Closed.antt =====
-- Which elements a tag closes.
use vpoiskaxroditeley.Prelude.{
  ℕ, suc, ◌+◌, ◌≡◌, refl, sym, ap, ◌∙◌, Bool, true, not, Option, none, some, List, [], ◌∷◌, ◌++◌,
  ◌==◌, ltb, if◌then◌else◌, arith, length, drop, all, Bool-cases, ==_iff, ◌⊎◌, inl, inr,
}
use vpoiskaxroditeley.ParserPipeline.Dom.{DomTree, at}
use vpoiskaxroditeley.ParserPipeline.Dom.Open.{OpenStack, max_open, push, matched, close}

-- an element without the tag
abbrev pub is_other : DomTree → ℕ → ℕ × Bool → Bool
is_other t tag (node, marked) = not ((at t node).tag_id == tag)

-- Where the search stops: nowhere, or at the first element with the tag.
abbrev IsMatch : DomTree → ℕ → ℕ → List (ℕ × Bool) → Option ℕ → Type 0
IsMatch t tag k l r =
    ((r ≡ none) × (all (is_other t tag) l ≡ true))
    ⊎ ((above below : List (ℕ × Bool)) × (node : ℕ) × (marked : Bool) × (r
          ≡ some (k + length above))
        × (l ≡ above ++ (node, marked) ∷ below)
        × (all (is_other t tag) above ≡ true)
        × ((at t node).tag_id ≡ tag))

matched-IsMatch :
    (t : DomTree) (tag k : ℕ) (l : List (ℕ × Bool)) → IsMatch t tag k l (matched t tag k l)
unfolding matched
matched-IsMatch t tag k [] = inl (refl, refl)
matched-IsMatch t tag k ((node, marked) ∷ l) = elim (Bool-cases ((at t node).tag_id == tag)) [
  | inl is ↦ rw is (
      inr (
        [],
        l,
        node,
        marked,
        ap some (omega arith),
        refl,
        refl,
        (==_iff (at t node).tag_id tag).0 is,
      ))
  | inr other ↦ elim (matched-IsMatch t tag (suc k) l) [
    | inl (nowhere, others) ↦ rw (other, nowhere) (inl (refl, others))
    | inr (above, below, n, m, found, split, others, is) ↦
        rw (other, found)
          (inr (
            (node, marked) ∷ above,
            below,
            n,
            m,
            ap some (omega arith),
            ap (λ s. (node, marked) ∷ s) split,
            rw other others,
            is,
          ))
  ]
]

drop-behind :
    (above below : List (ℕ × Bool)) (e : ℕ × Bool)
    → drop (suc (length above)) (above ++ e ∷ below) ≡ below
drop-behind [] below e = refl
drop-behind (x ∷ above) below e = drop-behind above below e

-- A closing tag without an open element leaves the stack as it is, and any other closes the innermost
-- element with the tag and all that are above it, and no more.
pub close-matched :
    (t : DomTree) (tag : ℕ) (s : OpenStack)
    → ((close t tag s ≡ s) × (all (is_other t tag) s.stack ≡ true))
      ⊎ ((above : List (ℕ × Bool)) × (node : ℕ) × (marked : Bool) × (s.stack
            ≡ above ++ (node, marked) ∷ (close t tag s).stack)
          × (all (is_other t tag) above ≡ true)
          × ((at t node).tag_id ≡ tag))
unfolding close
close-matched t tag s = elim (matched-IsMatch t tag 0 s.stack) [
  | inl (nowhere, others) ↦ rw (close, nowhere) (inl (refl, others))
  | inr (above, below, node, marked, found, split, others, is) ↦
      let rest : drop (suc (length above)) s.stack ≡ below =
        ap (drop (suc (length above))) split ∙ drop-behind above below (node, marked) in
      let at_match : matched t tag 0 s.stack ≡ some (length above) =
        found ∙ ap some (omega arith) in
      rw (close, at_match)
        (inr (
          above,
          node,
          marked,
          split ∙ ap (λ l. above ++ (node, marked) ∷ l) (sym rest),
          others,
          is,
        ))
]

same_test : (a : ℕ) → (a == a) ≡ true
same_test a = ground arith

closes_top :
    (t : DomTree) (node : ℕ) (marked : Bool) (s : OpenStack)
    → close t (at t node).tag_id (record { stack = (node, marked) ∷ s.stack }) ≡ s
unfolding close matched
closes_top t node marked s = rw (close, matched, same_test (at t node).tag_id) refl

-- Closing the element that was pushed last gives the stack before the push where it had fewer than 512
-- elements; a deeper element is not on the stack, and its tag closes an element that is, if any has
-- the tag.
pub close-push :
    (t : DomTree) (node : ℕ) (id_or_class : Bool) (s : OpenStack)
    → let tag = (at t node).tag_id in
      close t tag (push node id_or_class s)
      ≡ (if ltb (length s.stack) max_open then s else close t tag s)
unfolding push
close-push t node id_or_class s = elim (Bool-cases (ltb (length s.stack) max_open)) [
  | inl room ↦ rw room (closes_top t node id_or_class s)
  | inr full ↦ rw full refl
]
