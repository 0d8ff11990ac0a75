-- ===== src/ParserPipeline/Dom/Orders/Numbered.antt =====
-- The numbers of a node and its descendants: each within those of its ancestors, and apart from those of
-- any other node.
use vpoiskaxroditeley.Prelude.{
  ℕ, suc, ◌+◌, ◌*◌, ◌≤◌, ◌<◌, ◌≡◌, refl, sym, ◌∙◌, subst, true, false, arith, List, length, set,
  get_or, length-set, get_or-set_self, get_or-set_ne, inl, inr,
}
use vpoiskaxroditeley.ParserPipeline.Dom.Forest.{
  Forest, nil, tree, has, size, IsDistinct, has_cases, has_self, has_kid, has_rest, not_has,
  has_apart,
}
use vpoiskaxroditeley.ParserPipeline.Dom.Orders.Walked.{number}

abbrev pub Orders : Type 0
Orders = List ℕ × List ℕ

pub number-length :
    (tick : ℕ) (f : Forest) (o : Orders)
    → (length (number tick f o).0 ≡ length o.0) × (length (number tick f o).1 ≡ length o.1)
unfolding number
number-length tick nil o = (refl, refl)
number-length tick (tree x kids rest) (pre, post) =
    let start : Orders = (set pre x tick, post) in
    let inner = number (tick + 1) kids start in
    let outer : Orders = (inner.0, set inner.1 x (tick + 1 + 2 * size kids)) in
    let (a, b) = number-length (tick + 1) kids start in
    let (c, d) = number-length (tick + 2 + 2 * size kids) rest outer in
    (c ∙ a ∙ length-set pre x tick, d ∙ length-set inner.1 x (tick + 1 + 2 * size kids) ∙ b)

pub number_outside :
    (y d tick : ℕ) (f : Forest) (o : Orders)
    → has y f ≡ false
    → (get_or (number tick f o).0 y d ≡ get_or o.0 y d)
      × (get_or (number tick f o).1 y d ≡ get_or o.1 y d)
unfolding number
number_outside y d tick nil o h = (refl, refl)
number_outside y d tick (tree x kids rest) (pre, post) h =
    let (apart, out_kids, out_rest) = not_has x kids rest y h in
    let later = tick + 1 + 2 * size kids in
    let start : Orders = (set pre x tick, post) in
    let inner = number (tick + 1) kids start in
    let outer : Orders = (inner.0, set inner.1 x later) in
    let (a, b) = number_outside y d (tick + 1) kids start out_kids in
    let (a', b') = number_outside y d (tick + 2 + 2 * size kids) rest outer out_rest in
    (
      a' ∙ a ∙ get_or-set_ne pre tick d (λ e. apart (sym e)),
      b' ∙ get_or-set_ne inner.1 later d (λ e. apart (sym e)) ∙ b,
    )

-- A tree at the head of a forest, numbered: its root, its other nodes and those behind it.
module _ (d tick x : ℕ) (kids rest : Forest) (pre post : List ℕ)
    (dist : IsDistinct (tree x kids rest)) (x_pre : x < length pre) (x_post : x < length post) where
  abbrev pub later : ℕ
  later = tick + 1 + 2 * size kids

  abbrev pub inner : Orders
  inner = number (tick + 1) kids (set pre x tick, post)

  abbrev pub outer : Orders
  outer = (inner.0, set inner.1 x later)

  abbrev whole : Orders
  whole = number tick (tree x kids rest) (pre, post)

  -- the columns at a node before and after it
  abbrev pub Reads : ℕ → ℕ → ℕ → Type 0
  Reads y enters leaves = (get_or whole.0 y d ≡ enters) × (get_or whole.1 y d ≡ leaves)

  pub root-Reads : Reads x tick later
  unfolding number
  root-Reads =
      let (xk, xr, _, _, _) = dist in
      let (a, b) = number_outside x d (tick + 2 + 2 * size kids) rest outer xr in
      let (c, _) = number_outside x d (tick + 1) kids (set pre x tick, post) xk in
      let (_, same) = number-length (tick + 1) kids (set pre x tick, post) in
      (
        a ∙ c ∙ get_or-set_self pre x tick d x_pre,
        b ∙ get_or-set_self inner.1 x later d (omega (arith, same, x_post)),
      )

  pub kid-Reads : (y : ℕ) → has y kids ≡ true → Reads y (get_or inner.0 y d) (get_or inner.1 y d)
  unfolding number
  kid-Reads y h =
      let (xk, _, kr, _, _) = dist in
      let (a, b) = number_outside y d (tick + 2 + 2 * size kids) rest outer (kr y h) in
      let apart = has_apart y x kids h xk in
      (a, b ∙ get_or-set_ne inner.1 later d (λ e. apart (sym e)))

abbrev pub IsBetween : ℕ → ℕ → ℕ → ℕ → Type 0
IsBetween low high enters leaves = (low ≤ enters) × (enters < leaves) × (leaves < high)

-- all nodes are places of both columns
abbrev pub Fits : Forest → Orders → Type 0
Fits f o = (y : ℕ) → has y f ≡ true → (y < length o.0) × (y < length o.1)

pub Fits-kids :
    (tick x : ℕ) (kids rest : Forest) (pre post : List ℕ)
    → Fits (tree x kids rest) (pre, post)
    → Fits kids (set pre x tick, post)
Fits-kids tick x kids rest pre post fits y h =
    let (a, b) = fits y (has_kid x kids rest y h) in (omega (arith, a, length-set pre x tick), b)

pub Fits-rest :
    (tick later x : ℕ) (kids rest : Forest) (pre post : List ℕ)
    → Fits (tree x kids rest) (pre, post)
    → let inner = number (tick + 1) kids (set pre x tick, post) in
      Fits rest (inner.0, set inner.1 x later)
Fits-rest tick later x kids rest pre post fits y h =
    let inner = number (tick + 1) kids (set pre x tick, post) in
    let (a, b) = fits y (has_rest x kids rest y h) in
    let (c, d) = number-length (tick + 1) kids (set pre x tick, post) in
    (omega (arith, a, c, length-set pre x tick), omega (arith, b, d, length-set inner.1 x later))

pub number-IsBetween :
    (d tick : ℕ) (f : Forest) (o : Orders)
    → IsDistinct f
    → Fits f o
    → (y : ℕ) → has y f ≡ true
    → IsBetween tick
        (tick + 2 * size f)
        (get_or (number tick f o).0 y d)
        (get_or (number tick f o).1 y d)
unfolding number has size
number-IsBetween d tick nil o dist fits y h = cc
number-IsBetween d tick (tree x kids rest) (pre, post) dist fits y h =
    let (xk, xr, kr, dk, dr) = dist in
    let (x_pre, x_post) = fits x (has_self x kids rest) in
    elim (has_cases y x kids rest h) [
      | inl e ↦
          let (a, b) = root-Reads d tick x kids rest pre post dist x_pre x_post in
          subst
            (λ v.
              IsBetween tick (tick + 2 * suc (size kids + size rest))
                (get_or (number tick (tree x kids rest) (pre, post)).0 v d)
                (get_or (number tick (tree x kids rest) (pre, post)).1 v d))
            (sym e) (omega (arith, a, b))
      | inr (inl hk) ↦
          let (a, b) = kid-Reads d tick x kids rest pre post dist x_pre x_post y hk in
          let (l, m, u) =
            number-IsBetween d (tick + 1) kids (set pre x tick, post) dk
              (Fits-kids tick x kids rest pre post fits) y hk in
          (omega (arith, a, l), omega (arith, a, b, m), omega (arith, b, u))
      | inr (inr hr) ↦
          let (l, m, u) =
            number-IsBetween d (tick + 2 + 2 * size kids) rest
              (outer d tick x kids rest pre post dist x_pre x_post) dr
              (Fits-rest tick (tick + 1 + 2 * size kids) x kids rest pre post fits) y hr in
          (omega (arith, l), m, omega (arith, u))
    ]
