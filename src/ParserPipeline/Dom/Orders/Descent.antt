-- ===== src/ParserPipeline/Dom/Orders/Descent.antt =====
-- The comparison of numbers is descent in the forest.
use vpoiskaxroditeley.Prelude.{
  ℕ, ◌+◌, ◌*◌, ◌<◌, ◌≡◌, refl, sym, ◌∙◌, subst, true, false, ◌==◌, leb, arith, List, length, set,
  get_or, replicate, length-replicate, Bool-cases, inl, inr, ==_iff, some,
}
use vpoiskaxroditeley.ParserPipeline.Dom.{DomTree, u32_max, at}
use vpoiskaxroditeley.ParserPipeline.Dom.Orders.{compute_orders, is_descendant}
use vpoiskaxroditeley.ParserPipeline.Dom.Forest.{
  Forest, nil, tree, has, size, IsDistinct, has_cases, has_self, has_apart, has-lt,
}
use vpoiskaxroditeley.ParserPipeline.Dom.Forest.Attached.{not_eq}
use vpoiskaxroditeley.ParserPipeline.Dom.Forest.Under.{absent}
use vpoiskaxroditeley.ParserPipeline.Dom.Forest.Sound.{IsSound}
use vpoiskaxroditeley.ParserPipeline.Dom.Orders.Walked.{number, compute_orders-number}
use vpoiskaxroditeley.ParserPipeline.Dom.Orders.Numbered.{
  Orders, number-length, root-Reads, kid-Reads, inner, outer, IsBetween, Fits, Fits-kids, Fits-rest,
  number-IsBetween,
}
use vpoiskaxroditeley.ParserPipeline.Dom.Orders.Compared.{
  Decides, inside, or_false, outside_after, outside_before, reads_within, under, under_absent,
  under_outside,
}

module _ (d tick x : ℕ) (kids rest : Forest) (pre post : List ℕ)
    (dist : IsDistinct (tree x kids rest)) (fits : Fits (tree x kids rest) (pre, post)) where
  abbrev o : Orders
  o = number tick (tree x kids rest) (pre, post)

  abbrev x_pre : x < length pre
  x_pre = (fits x (has_self x kids rest)).0

  abbrev x_post : x < length post
  x_post = (fits x (has_self x kids rest)).1

  abbrev i : Orders
  i = inner d tick x kids rest pre post dist x_pre x_post

  at_root : (get_or o.0 x d ≡ tick) × (get_or o.1 x d ≡ tick + 1 + 2 * size kids)
  at_root = root-Reads d tick x kids rest pre post dist x_pre x_post

  at_kid :
      (y : ℕ)
      → has y kids ≡ true
      → (get_or o.0 y d ≡ get_or i.0 y d) × (get_or o.1 y d ≡ get_or i.1 y d)
  at_kid y h = kid-Reads d tick x kids rest pre post dist x_pre x_post y h

  kid-IsBetween :
      (y : ℕ)
      → has y kids ≡ true
      → IsBetween (tick + 1) (tick + 1 + 2 * size kids) (get_or i.0 y d) (get_or i.1 y d)
  kid-IsBetween y h =
      number-IsBetween d (tick + 1) kids (set pre x tick, post) dist.3
        (Fits-kids tick x kids rest pre post fits) y h

  rest-IsBetween :
      (y : ℕ)
      → has y rest ≡ true
      → IsBetween
          (tick + 2 + 2 * size kids)
          (tick + 2 + 2 * size kids + 2 * size rest)
          (get_or o.0 y d)
          (get_or o.1 y d)
  unfolding number
  rest-IsBetween y h =
      number-IsBetween d (tick + 2 + 2 * size kids) rest
        (outer d tick x kids rest pre post dist x_pre x_post) dist.4
        (Fits-rest tick (tick + 1 + 2 * size kids) x kids rest pre post fits) y h

  -- the root against every node
  from_root : (n : ℕ) → has n (tree x kids rest) ≡ true → Decides d x n o (tree x kids rest)
  unfolding under
  from_root n h =
      let (xk, xr, kr, dk, dr) = dist in
      let same : (x == x) ≡ true = ground arith in
      elim (has_cases n x kids rest h) [
        | inl e ↦
            subst (λ v. Decides d x v o (tree x kids rest)) (sym e)
              (rw same (
                inside (get_or o.0 x d) (get_or o.1 x d) (get_or o.0 x d) (get_or o.1 x d)
                  (omega arith) (omega arith)))
        | inr (inl hk) ↦
            let (l, m, u) = kid-IsBetween n hk in
            reads_within d x n o (tree x kids rest) tick (tick + 1 + 2 * size kids) (get_or i.0 n d)
              (get_or i.1 n d) at_root (at_kid n hk)
              (rw (same, hk)
                (ground (
                  arith,
                  inside tick (tick + 1 + 2 * size kids) (get_or i.0 n d) (get_or i.1 n d)
                      (omega (arith, l)) (omega (arith, u)),
                )))
        | inr (inr hr) ↦
            let (l, m, u) = rest-IsBetween n hr in
            let other : (n == x) ≡ false = not_eq n x (has_apart n x rest hr xr) in
            reads_within d x n o (tree x kids rest) tick (tick + 1 + 2 * size kids) (get_or o.0 n d)
              (get_or o.1 n d) at_root (refl, refl)
              (rw (same, other, absent n kids rest kr hr)
                (outside_after tick (tick + 1 + 2 * size kids) (get_or o.0 n d) (get_or o.1 n d)
                  (omega (arith, l)) m))
      ]

  -- a node below the root against every node, where that is known among those below the root
  from_kid :
      (r n : ℕ)
      → has r kids ≡ true
      → has n (tree x kids rest) ≡ true
      → (has n kids ≡ true → Decides d r n i kids)
      → Decides d r n o (tree x kids rest)
  unfolding under
  from_kid r n rk h among =
      let (xk, xr, kr, dk, dr) = dist in
      let not_root : (x == r) ≡ false = not_eq x r (λ e. has_apart r x kids rk xk (sym e)) in
      let no_rest = under_absent r n rest (kr r rk) in
      let (l, m, u) = kid-IsBetween r rk in
      elim (has_cases n x kids rest h) [
        | inl e ↦
            let (enters, leaves) = at_root in
            subst (λ v. Decides d r v o (tree x kids rest)) (sym e)
              (reads_within d r x o (tree x kids rest) (get_or i.0 r d) (get_or i.1 r d) tick
                (tick + 1 + 2 * size kids) (at_kid r rk) at_root
                (rw (not_root, under_outside r x kids xk, under_outside r x rest xr)
                  (outside_before (get_or i.0 r d) (get_or i.1 r d) tick (tick + 1 + 2 * size kids)
                    (omega (arith, l)))))
        | inr (inl nk) ↦
            reads_within d r n o (tree x kids rest) (get_or i.0 r d) (get_or i.1 r d)
              (get_or i.0 n d) (get_or i.1 n d) (at_kid r rk) (at_kid n nk)
              (among nk ∙ rw (not_root, no_rest) (or_false (under r n kids)))
        | inr (inr nr) ↦
            let (l', m', u') = rest-IsBetween n nr in
            reads_within d r n o (tree x kids rest) (get_or i.0 r d) (get_or i.1 r d)
              (get_or o.0 n d) (get_or o.1 n d) (at_kid r rk) (refl, refl)
              (rw (not_root, no_rest, under_outside r n kids (absent n kids rest kr nr))
                (outside_after (get_or i.0 r d) (get_or i.1 r d) (get_or o.0 n d) (get_or o.1 n d)
                  (omega (arith, u, l')) m'))
      ]

  -- a node behind the first tree
  from_rest :
      (r n : ℕ)
      → has r rest ≡ true
      → has n (tree x kids rest) ≡ true
      → (has n rest ≡ true → Decides d r n o rest)
      → Decides d r n o (tree x kids rest)
  unfolding under
  from_rest r n rr h among =
      let (xk, xr, kr, dk, dr) = dist in
      let not_root : (x == r) ≡ false = not_eq x r (λ e. has_apart r x rest rr xr (sym e)) in
      let no_kids = under_absent r n kids (absent r kids rest kr rr) in
      let (l, m, u) = rest-IsBetween r rr in
      elim (has_cases n x kids rest h) [
        | inl e ↦
            subst (λ v. Decides d r v o (tree x kids rest)) (sym e)
              (reads_within d r x o (tree x kids rest) (get_or o.0 r d) (get_or o.1 r d) tick
                (tick + 1 + 2 * size kids) (refl, refl) at_root
                (rw (not_root, under_outside r x kids xk, under_outside r x rest xr)
                  (outside_before (get_or o.0 r d) (get_or o.1 r d) tick (tick + 1 + 2 * size kids)
                    (omega (arith, l)))))
        | inr (inl nk) ↦
            let (l', m', u') = kid-IsBetween n nk in
            reads_within d r n o (tree x kids rest) (get_or o.0 r d) (get_or o.1 r d)
              (get_or i.0 n d) (get_or i.1 n d) (refl, refl) (at_kid n nk)
              (rw (not_root, no_kids, under_outside r n rest (kr n nk))
                (outside_before (get_or o.0 r d) (get_or o.1 r d) (get_or i.0 n d) (get_or i.1 n d)
                  (omega (arith, l, u', m'))))
        | inr (inr nr) ↦ among nr ∙ rw (not_root, no_kids) refl
      ]

number-Decides :
    (d tick : ℕ) (f : Forest) (o : Orders) (r n : ℕ)
    → IsDistinct f
    → Fits f o
    → has r f ≡ true
    → has n f ≡ true
    → Decides d r n (number tick f o) f
unfolding has number
number-Decides d tick nil o r n dist fits hr hn = cc
number-Decides d tick (tree x kids rest) (pre, post) r n dist fits hr hn =
    elim (has_cases r x kids rest hr) [
      | inl e ↦
          subst (λ v. Decides d v n (number tick (tree x kids rest) (pre, post)) (tree x kids rest))
            (sym e) (from_root d tick x kids rest pre post dist fits n hn)
      | inr (inl rk) ↦ from_kid d tick x kids rest pre post dist fits r n rk hn (λ nk.
          number-Decides d (tick + 1) kids (set pre x tick, post) r n dist.3
            (Fits-kids tick x kids rest pre post fits) rk nk)
      | inr (inr rr) ↦
          let (x_pre, x_post) = fits x (has_self x kids rest) in
          from_rest d tick x kids rest pre post dist fits r n rr hn (λ nr.
            number-Decides d (tick + 2 + 2 * size kids) rest
              (outer d tick x kids rest pre post dist x_pre x_post) r n dist.4
              (Fits-rest tick (tick + 1 + 2 * size kids) x kids rest pre post fits) rr nr)
    ]

under_self : (r : ℕ) (f : Forest) → has r f ≡ true → under r r f ≡ true
unfolding under
under_self r nil h = cc
under_self r (tree x kids rest) h = ground (arith, under_self r kids, under_self r rest)

not_le : (a b : ℕ) → b < a → leb a b ≡ false
not_le a b h = ground arith

eq_test : (a b : ℕ) → a ≡ b → (a == b) ≡ true
eq_test a b h = ground arith

-- When the orders of a sound tree are computed, which ends, `is_descendant` tells of any two nodes of
-- it whether the one is the other or below it.
pub is_descendant-under :
    (t : DomTree) (f : Forest)
    → IsSound t f
    → (u : DomTree) × (compute_orders t ≡ some u)
      × ((n r : ℕ) → has n f ≡ true → has r f ≡ true → is_descendant n r u ≡ under r n f)
unfolding is_descendant
is_descendant-under t f s =
    let len = length t.nodes in
    let blanks : Orders = (replicate len u32_max, replicate len u32_max) in
    let o = number 0 f blanks in
    let u : DomTree = record t { pre_order = o.0; post_order = o.1 } in
    let few = s.forest.few in
    let done =
      compute_orders-number t (omega (arith, few)) f (omega (arith, s.counted))
        (omega (arith, s.counted, few)) s.forest.linked in
    let size_o : length o.0 ≡ len = (number-length 0 f blanks).0 ∙ length-replicate len u32_max in
    let small : (y : ℕ) → has y f ≡ true → y < len =
      λ y h. has-lt len (at t) y u32_max u32_max t.roots_head t.roots_tail f s.forest.linked h in
    let fits : Fits f blanks = λ y h. (
      omega (arith, small y h, length-replicate len u32_max),
      omega (arith, small y h, length-replicate len u32_max),
    ) in
    (
      u,
      done,
      λ n r hn hr. elim (Bool-cases (n == r)) [
        | inl same ↦
            rw same (
              sym (subst (λ v. under r v f ≡ true) (sym ((==_iff n r).0 same)) (under_self r f hr)))
        | inr other ↦
            rw
              (
                other,
                not_le len n (small n hn),
                not_le len r (small r hr),
                not_eq (at t n).flags 0 (s.alive n hn),
                not_eq (at t r).flags 0 (s.alive r hr),
                eq_test (length o.0) len size_o,
              )
              (number-Decides 0 0 f blanks r n s.forest.distinct fits hr hn)
      ],
    )
