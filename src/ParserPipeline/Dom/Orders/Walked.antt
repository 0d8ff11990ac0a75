-- ===== src/ParserPipeline/Dom/Orders/Walked.antt =====
-- The walk through a tree that is linked ends, and numbers the nodes of its forest in their order.
use vpoiskaxroditeley.Prelude.{
  ℕ, zero, suc, ◌+◌, ◌-◌, ◌*◌, ◌%◌, ◌^◌, ◌≤◌, ◌<◌, ◌≡◌, refl, sym, ap, ◌∙◌, subst, Bool, true,
  false, Option, none, some, List, [], ◌∷◌, arith, length, set, replicate,
}
use vpoiskaxroditeley.ParserPipeline.Dom.{DomTree, u32_max, at}
use vpoiskaxroditeley.ParserPipeline.Dom.Forest.{Forest, nil, tree, size, IsLinked}
use vpoiskaxroditeley.ParserPipeline.Dom.Forest.Attached.{not_eq}
use vpoiskaxroditeley.ParserPipeline.Dom.Orders.{walk, enter, orders_loop, compute_orders}

-- the roots of a forest
abbrev pub tops : Forest → List ℕ
tops nil = []
tops (tree x kids rest) = x ∷ tops rest

-- A node is numbered before and after its children, and its siblings behind it after that.
unfoldable pub number : ℕ → Forest → List ℕ × List ℕ → List ℕ × List ℕ
unfolding size
number tick nil o = o
number tick (tree x kids rest) (pre, post) =
    let inner = number (tick + 1) kids (set pre x tick, post) in
    number (tick + 2 + 2 * size kids) rest (inner.0, set inner.1 x (tick + 1 + 2 * size kids))

tops-le-size : (f : Forest) → length (tops f) ≤ size f
unfolding size
tops-le-size nil = omega arith
tops-le-size (tree x kids rest) = omega (arith, tops-le-size rest)

module _ (t : DomTree) (few : length t.nodes ≤ u32_max) where
  pub walk-tops :
      (fuel parent prev cur last : ℕ) (f : Forest)
      → length (tops f) < fuel
      → IsLinked (length t.nodes) (at t) parent prev cur last f
      → walk t fuel cur ≡ some (tops f)
  unfolding walk
  walk-tops zero parent prev cur last f lt l = elim lt [ ]
  walk-tops (suc fuel) parent prev cur last nil lt (is, _) = rw is refl
  walk-tops (suc fuel) parent prev cur last (tree x kids rest) lt (is, small, _, _, _, r) =
      let more = walk-tops fuel parent x (at t x).next_sibling last rest (omega (arith, lt)) r in
      rw (not_eq cur u32_max (λ e. absurd (omega (arith, e, is, small, few)))) (
        subst
          (λ v.
            elim (walk t fuel (at t v).next_sibling) [ none ↦ none | some l ↦ some (v ∷ l) ]
            ≡ some (x ∷ tops rest))
          (sym is) (rw more refl))

  enter_step :
      (fuel i tick : ℕ) (kids : List ℕ) (stack : List (ℕ × Bool)) (pre post : List ℕ)
      → walk t (suc (length t.nodes)) (at t i).first_child ≡ some kids
      → tick + 1 < 2 ^ 32
      → orders_loop t (suc fuel) ((i, false) ∷ stack) tick (pre, post)
        ≡ orders_loop t fuel (enter kids ((i, true) ∷ stack)) (tick + 1) (set pre i tick, post)
  unfolding orders_loop
  enter_step fuel i tick kids stack pre post h small =
      let same : (tick + 1) % 2 ^ 32 ≡ tick + 1 = omega (arith, small) in
      subst
        (λ w.
          elim w [
            | none ↦ none
            | some l ↦
                orders_loop t fuel (enter l ((i, true) ∷ stack)) ((tick + 1) % 2 ^ 32)
                  (set pre i tick, post)
          ]
          ≡ orders_loop t fuel (enter kids ((i, true) ∷ stack)) (tick + 1) (set pre i tick, post))
        (sym h)
        (ap (λ v. orders_loop t fuel (enter kids ((i, true) ∷ stack)) v (set pre i tick, post))
          same)

  exit_step :
      (fuel i tick : ℕ) (stack : List (ℕ × Bool)) (o : List ℕ × List ℕ)
      → tick + 1 < 2 ^ 32
      → orders_loop t (suc fuel) ((i, true) ∷ stack) tick o
        ≡ orders_loop t fuel stack (tick + 1) (o.0, set o.1 i tick)
  unfolding orders_loop
  exit_step fuel i tick stack (pre, post) small =
      let same : (tick + 1) % 2 ^ 32 ≡ tick + 1 = omega (arith, small) in rw same refl

  last_step : (fuel tick : ℕ) (o : List ℕ × List ℕ) → orders_loop t (suc fuel) [] tick o ≡ some o
  unfolding orders_loop
  last_step fuel tick o = refl

  pub orders_loop-number :
      (n parent prev cur last tick : ℕ) (f : Forest) (stack : List (ℕ × Bool)) (o : List ℕ × List ℕ)
      → size f ≤ length t.nodes
      → tick + 2 * size f < 2 ^ 32
      → IsLinked (length t.nodes) (at t) parent prev cur last f
      → orders_loop t (2 * size f + n) (enter (tops f) stack) tick o
        ≡ orders_loop t n stack (tick + 2 * size f) (number tick f o)
  unfolding number size
  orders_loop-number n parent prev cur last tick nil stack (pre, post) fits small l =
      let fuel : 2 * 0 + n ≡ n = omega arith in
      let ticks : tick ≡ tick + 2 * 0 = omega arith in
      ap (λ v. orders_loop t v stack tick (pre, post)) fuel
      ∙ ap (λ v. orders_loop t n stack v (pre, post)) ticks
  orders_loop-number n parent prev cur last tick (tree x kids rest) stack (pre, post) fits small
        (is, small_x, _, _, k, r) =
      let sk = size kids in
      let sr = size rest in
      let beside = enter (tops rest) stack in
      let later = tick + 1 + 2 * sk in
      let inner = number (tick + 1) kids (set pre x tick, post) in
      let fuel : 2 * suc (sk + sr) + n ≡ suc (2 * sk + suc (2 * sr + n)) = omega arith in
      let found =
        walk-tops (suc (length t.nodes)) x u32_max (at t x).first_child (at t x).last_child kids
          (omega (arith, tops-le-size kids, fits)) k in
      let next : later + 1 ≡ tick + 2 + 2 * sk = omega arith in
      let done : tick + 2 + 2 * sk + 2 * sr ≡ tick + 2 * suc (sk + sr) = omega arith in
      let outer : List ℕ × List ℕ = (inner.0, set inner.1 x later) in
      ap (λ v. orders_loop t v ((x, false) ∷ beside) tick (pre, post)) fuel
      ∙ enter_step (2 * sk + suc (2 * sr + n)) x tick (tops kids) beside pre post found
          (omega (arith, small))
      ∙ orders_loop-number (suc (2 * sr + n)) x u32_max (at t x).first_child (at t x).last_child
          (tick + 1) kids ((x, true) ∷ beside) (set pre x tick, post) (omega (arith, fits))
          (omega (arith, small)) k
      ∙ exit_step (2 * sr + n) x later beside inner (omega (arith, small))
      ∙ ap (λ v. orders_loop t (2 * sr + n) beside v outer) next
      ∙ orders_loop-number n parent x (at t x).next_sibling last (tick + 2 + 2 * sk) rest stack
          outer (omega (arith, fits)) (omega (arith, small)) r
      ∙ ap (λ v. orders_loop t n stack v (number (tick + 2 + 2 * sk) rest outer)) done

  -- The orders are computed, with the fuel that is given.
  pub compute_orders-number :
      (f : Forest)
      → size f ≤ length t.nodes
      → 2 * size f < 2 ^ 32
      → IsLinked (length t.nodes) (at t) u32_max u32_max t.roots_head t.roots_tail f
      → let o =
          number 0 f (replicate (length t.nodes) u32_max, replicate (length t.nodes) u32_max) in
        compute_orders t ≡ some (record t { pre_order = o.0; post_order = o.1 })
  unfolding compute_orders
  compute_orders-number f fits small l =
      let n = length t.nodes in
      let blanks : List ℕ × List ℕ = (replicate n u32_max, replicate n u32_max) in
      let found =
        walk-tops (suc n) u32_max u32_max t.roots_head t.roots_tail f
          (omega (arith, tops-le-size f, fits)) l in
      let left = 2 * (n - size f) in
      let fuel : 2 * n + 1 ≡ 2 * size f + suc left = omega (arith, fits) in
      let numbered : orders_loop t (2 * n + 1) (enter (tops f) []) 0 blanks
          ≡ some (number 0 f blanks) =
        ap (λ v. orders_loop t v (enter (tops f) []) 0 blanks) fuel
        ∙ orders_loop-number (suc left) u32_max u32_max t.roots_head t.roots_tail 0 f [] blanks fits
            (omega (arith, small)) l
        ∙ last_step left (0 + 2 * size f) (number 0 f blanks) in
      let result : Option DomTree =
        some (record t { pre_order = (number 0 f blanks).0; post_order = (number 0 f blanks).1 }) in
      subst
        (λ w.
          elim w [
            | none ↦ none
            | some roots ↦ elim (orders_loop t (2 * n + 1) (enter roots []) 0 blanks) [
              | none ↦ none
              | some (pre, post) ↦ some (record t { pre_order = pre; post_order = post })
            ]
          ]
          ≡ result)
        (sym found)
        (subst
          (λ w.
            elim w [
              | none ↦ none
              | some (pre, post) ↦ some (record t { pre_order = pre; post_order = post })
            ]
            ≡ result)
          (sym numbered) refl)
