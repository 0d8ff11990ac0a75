-- ===== src/ParserPipeline/Dom/Orders/Compared.antt =====
-- Descent in a forest, and the comparison of intervals of numbers.
use vpoiskaxroditeley.Prelude.{
  ℕ, ◌≤◌, ◌<◌, ◌≡◌, refl, sym, ◌∙◌, Bool, true, false, ◌&&◌, ◌||◌, ◌==◌, leb, if◌then◌else◌, arith,
  get_or, Bool-cases, inl, inr, ==_iff,
}
use vpoiskaxroditeley.ParserPipeline.Dom.Forest.{Forest, nil, tree, has, not_has}
use vpoiskaxroditeley.ParserPipeline.Dom.Forest.Attached.{not_eq}
use vpoiskaxroditeley.ParserPipeline.Dom.Orders.Numbered.{Orders}

-- whether a node is another or below it
unfoldable pub under : ℕ → ℕ → Forest → Bool
unfolding has
under r n nil = false
under r n (tree x kids rest) =
    let in_kids = under r n kids in
    let in_rest = under r n rest in if x == r then n == r || has n kids else in_kids || in_rest

pub under_absent : (r n : ℕ) (f : Forest) → has r f ≡ false → under r n f ≡ false
unfolding under
under_absent r n nil h = refl
under_absent r n (tree x kids rest) h =
    let (apart, out_kids, out_rest) = not_has x kids rest r h in
    rw
      (
        not_eq x r (λ e. apart (sym e)),
        under_absent r n kids out_kids,
        under_absent r n rest out_rest,
      )
      refl

pub under_outside : (r n : ℕ) (f : Forest) → has n f ≡ false → under r n f ≡ false
unfolding under
under_outside r n nil h = refl
under_outside r n (tree x kids rest) h =
    let (apart, out_kids, out_rest) = not_has x kids rest n h in
    elim (Bool-cases (x == r)) [
      | inl e ↦
          let other : (n == r) ≡ false = not_eq n r (λ k. apart (k ∙ sym ((==_iff x r).0 e))) in
          rw (e, other, out_kids) refl
      | inr e ↦ rw (e, under_outside r n kids out_kids, under_outside r n rest out_rest) refl
    ]

pub or_false : (b : Bool) → b ≡ (b || false)
or_false true = refl
or_false false = refl

-- the intervals of numbers, one within the other
abbrev within : ℕ → ℕ → ℕ → ℕ → Bool
within r_pre r_post n_pre n_post = leb r_pre n_pre && leb n_post r_post

abbrev pub Decides : ℕ → ℕ → ℕ → Orders → Forest → Type 0
Decides d r n o f =
    within (get_or o.0 r d) (get_or o.1 r d) (get_or o.0 n d) (get_or o.1 n d) ≡ under r n f

pub outside_after : (a b c e : ℕ) → b < c → c < e → within a b c e ≡ false
outside_after a b c e h k = ground arith

pub outside_before : (a b c e : ℕ) → c < a → within a b c e ≡ false
outside_before a b c e h = ground arith

pub inside : (a b c e : ℕ) → a ≤ c → e ≤ b → within a b c e ≡ true
inside a b c e h k = ground arith

-- the numbers of both nodes, read where they come from
pub reads_within :
    (d r n : ℕ) (o : Orders) (f : Forest) (a b c e : ℕ)
    → (get_or o.0 r d ≡ a) × (get_or o.1 r d ≡ b)
    → (get_or o.0 n d ≡ c) × (get_or o.1 n d ≡ e)
    → within a b c e ≡ under r n f
    → Decides d r n o f
reads_within d r n o f a b c e (p, q) (s, t) h = rw (p, q, s, t) h
