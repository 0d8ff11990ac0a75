-- ===== src/ParserPipeline/Dom/Orders.antt =====
-- crates/parser-pipeline/src/dom.rs: the numbers that a walk through the tree gives to each node when it
-- enters and leaves it, and the test of descent that compares them. A loop has fuel, and is `none`
-- when that does not suffice.
pub mod Walked
pub mod Numbered
pub mod Compared
pub mod Descent
use vpoiskaxroditeley.Prelude.{
  ℕ, zero, suc, ◌+◌, ◌*◌, ◌%◌, ◌^◌, Bool, true, false, ◌&&◌, ◌||◌, Option, none, some, List, [],
  ◌∷◌, ◌++◌, ◌==◌, leb, if◌then◌else◌, length, get_or, set, replicate, map,
}
use vpoiskaxroditeley.ParserPipeline.Dom.{DomTree, u32_max, at}

-- the loop that collects a node and its siblings behind it
unfoldable pub walk : DomTree → ℕ → ℕ → Option (List ℕ)
walk t zero cur = none
walk t (suc fuel) cur =
    let rest = walk t fuel (at t cur).next_sibling in
    if cur == u32_max then some [] else elim rest [ none ↦ none | some l ↦ some (cur ∷ l) ]

-- the nodes of a list are to be entered before what is on the stack
abbrev pub enter : List ℕ → List (ℕ × Bool) → List (ℕ × Bool)
enter nodes stack = map (λ k. (k, false)) nodes ++ stack

-- the loop of `compute_orders`: the two columns
unfoldable pub orders_loop :
    DomTree → ℕ → List (ℕ × Bool) → ℕ → List ℕ × List ℕ → Option (List ℕ × List ℕ)
orders_loop t zero stack tick o = none
orders_loop t (suc fuel) [] tick o = some o
orders_loop t (suc fuel) ((i, true) ∷ stack) tick (pre, post) =
    orders_loop t fuel stack ((tick + 1) % 2 ^ 32) (pre, set post i tick)
orders_loop t (suc fuel) ((i, false) ∷ stack) tick (pre, post) =
    elim (walk t (suc (length t.nodes)) (at t i).first_child) [
      | none ↦ none
      | some kids ↦
          orders_loop t fuel (enter kids ((i, true) ∷ stack)) ((tick + 1) % 2 ^ 32)
            (set pre i tick, post)
    ]

unfoldable pub compute_orders : DomTree → Option DomTree
compute_orders t =
    let n = length t.nodes in
    elim (walk t (suc n) t.roots_head) [
      | none ↦ none
      | some roots ↦
          elim (orders_loop t (2 * n + 1) (enter roots []) 0
            (replicate n u32_max, replicate n u32_max)) [
              | none ↦ none
              | some (pre, post) ↦ some (record t { pre_order = pre; post_order = post })
            ]
    ]

-- the loop over the parents of a node, cut off after 512 hops
unfoldable pub climb : DomTree → ℕ → ℕ → ℕ → Bool
climb t root zero cur = false
climb t root (suc hops) cur =
    let above = climb t root hops (at t cur).parent in
    if cur == u32_max then false else if cur == root then true else above

unfoldable pub is_descendant : ℕ → ℕ → DomTree → Bool
unfolding climb
is_descendant node root t =
    let n = length t.nodes in
    if node == root
    then true
    else if leb n node || leb n root
    then false
    else if (at t node).flags == 0 || (at t root).flags == 0
    then false
    else if length t.pre_order == n
    then leb (get_or t.pre_order root 0) (get_or t.pre_order node 0)
      && leb (get_or t.post_order node 0) (get_or t.post_order root 0)
    else climb t root 513 (at t node).parent
