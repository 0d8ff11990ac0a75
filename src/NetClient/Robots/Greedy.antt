-- ===== src/NetClient/Robots/Greedy.antt =====
-- Taking each segment at its first occurrence loses no match.
use vpoiskaxroditeley.Prelude.{
  ℕ, ◌≤◌, ◌≡◌, refl, sym, ap, subst, ◌∙◌, List, [], ◌∷◌, ◌++◌, none, some, Option-cases, arith,
  length, length-append, inl, inr, append_assoc,
}
use vpoiskaxroditeley.Str.{Bytes, strip_prefix, strip_prefix-append, strip_prefix-eq_some}
use vpoiskaxroditeley.Str.Split.{split_at_sub, split_at_sub-eq_some}
use vpoiskaxroditeley.NetClient.Robots.{match_mids}
use vpoiskaxroditeley.NetClient.Robots.Glob.{InOrder}

-- Of two ways to split a text, the one with the longer end has the other's end in it.
longer_end :
    (u w r rest : Bytes)
    → u ++ r ≡ w ++ rest
    → length rest ≤ length r
    → (x : Bytes) × (r ≡ x ++ rest)
longer_end [] w r rest e h = (w, e)
longer_end (a ∷ u) [] r rest e h = absurd (omega (arith, ap length e, length-append u r))
longer_end (a ∷ u) (b ∷ w) r rest e h = longer_end u w r rest (cc) h

split_at_sub_here : (n s r : Bytes) → strip_prefix n s ≡ some r → split_at_sub n s ≡ some ([], r)
unfolding split_at_sub
split_at_sub_here n [] r e = rw e
split_at_sub_here n (x ∷ xs) r e = rw (e, split_at_sub)

split_at_sub_later :
    (n : Bytes) (x : ℕ) (xs a b : Bytes)
    → strip_prefix n (x ∷ xs) ≡ none
    → split_at_sub n xs ≡ some (a, b)
    → split_at_sub n (x ∷ xs) ≡ some (x ∷ a, b)
unfolding split_at_sub
split_at_sub_later n x xs a b e f = rw (e, f, split_at_sub)

-- The first occurrence leaves at least what any other one leaves.
first_occurrence :
    (n pre rest : Bytes)
    → (a : Bytes) × (x : Bytes) × (split_at_sub n (pre ++ (n ++ rest)) ≡ some (a, x ++ rest))
first_occurrence n [] rest =
    ([], [], split_at_sub_here n (n ++ rest) rest (strip_prefix-append n rest))
first_occurrence n (p ∷ pre) rest =
    let s = pre ++ (n ++ rest) in
    elim (Option-cases (strip_prefix n (p ∷ s))) [
      | inl e ↦
          let (a, x, f) = first_occurrence n pre rest in
          (p ∷ a, x, split_at_sub_later n p s a (x ++ rest) e f)
      | inr (r, e) ↦
          let same : n ++ r ≡ (p ∷ pre) ++ (n ++ rest) = sym (strip_prefix-eq_some n (p ∷ s) e) in
          let (x, f) =
            longer_end n ((p ∷ pre) ++ n) r rest (same ∙ sym (append_assoc (p ∷ pre) n rest)) (
              omega (
                arith,
                ap length same,
                length-append n r,
                length-append n rest,
                length-append pre (n ++ rest),
              )) in
          ([], x, split_at_sub_here n (p ∷ s) r e ∙ ap (λ t. some ([], t)) f)
    ]

-- `P` still holds with more text in front.
abbrev pub Extends : (Bytes → Type 0) → Type 0
Extends P = (x t : Bytes) → P t → P (x ++ t)

module _ (P : Bytes → Type 0) (extend : Extends P) where
  InOrder-Extends : (ss : List Bytes) → Extends (InOrder P ss)
  InOrder-Extends [] x t h = extend x t h
  InOrder-Extends (s ∷ ss) x t (pre, rest, e, h) =
      (x ++ pre, rest, ap (◌++◌ x) e ∙ sym (append_assoc x pre (s ++ rest)), h)

  pub match_mids_sound :
      (ss : List Bytes) (t r : Bytes) → match_mids ss t ≡ some r → P r → InOrder P ss t
  unfolding match_mids
  match_mids_sound [] t r e h = subst P (cc) h
  match_mids_sound (s ∷ ss) t r e h = elim (Option-cases (split_at_sub s t)) [
    | inl f ↦ absurd (cc (rw (f, match_mids) at e))
    | inr ((a, b), f) ↦
        (a, b, split_at_sub-eq_some s t a b f, match_mids_sound ss b r (rw (f, match_mids) at e) h)
  ]

  pub match_mids_complete :
      (ss : List Bytes) (t : Bytes)
      → InOrder P ss t
      → (r : Bytes) × (match_mids ss t ≡ some r) × P r
  unfolding match_mids
  match_mids_complete [] t h = (t, refl, h)
  match_mids_complete (s ∷ ss) t (pre, rest, e, h) =
      let (a, x, f) = first_occurrence s pre rest in
      let (r, g, k) = match_mids_complete ss (x ++ rest) (InOrder-Extends ss x rest h) in
      (r, rw (e, f, match_mids) g, k)
