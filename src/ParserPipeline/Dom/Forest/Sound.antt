-- ===== src/ParserPipeline/Dom/Forest/Sound.antt =====
-- The tree that a parse builds: its nodes are those of a forest, the free places are the others, and a
-- new node goes where it was asked to.
use vpoiskaxroditeley.Prelude.{
  ℕ, zero, suc, ◌+◌, ◌<◌, ◌≡◌, ◌≢◌, refl, ◌∙◌, Bool, true, false, ◌||◌, ◌==◌, if◌then◌else◌, List,
  [], ◌∷◌, length, get_or, set, inl, inr, Bool-cases, if_both,
}
use vpoiskaxroditeley.ParserPipeline.Dom.{
  Node, DomTree, u32_max, at, blank, put, set_head, set_tail, tail, link_child,
}
use vpoiskaxroditeley.ParserPipeline.Dom.Forest.{Forest, has, size}
use vpoiskaxroditeley.ParserPipeline.Dom.Forest.Columns.{length-put}
use vpoiskaxroditeley.ParserPipeline.Dom.Forest.Linked.{IsForest}

unfoldable pub elem : ℕ → List ℕ → Bool
elem y [] = false
elem y (x ∷ l) = y == x || elem y l

-- Each of the list but once.
abbrev pub IsOnce : List ℕ → Type 0
IsOnce [] = Unit {0}
IsOnce (x ∷ l) = (elem x l ≡ false) × IsOnce l

-- The nodes of the forest are alive, and the other places are free, each once.
pub record IsSound (t : DomTree) (f : Forest) : Type 0 where
  pub forest : IsForest t f
  pub vacant :
      (y : ℕ)
      → elem y t.free ≡ true
      → (has y f ≡ false) × (y < length t.nodes) × ((at t y).flags ≡ 0)
  pub once : IsOnce t.free
  pub counted : size f + length t.free ≡ length t.nodes
  pub alive : (y : ℕ) → has y f ≡ true → (at t y).flags ≢ 0
  pub known : (y : ℕ) → y < length t.nodes → (at t y).flags ≢ 0 → has y f ≡ true

-- A column that a write to the links leaves alone.
get_or-set_same :
    (l : List Node) (i j : ℕ) (v : Node)
    → v.flags ≡ (get_or l i blank).flags
    → (get_or (set l i v) j blank).flags ≡ (get_or l j blank).flags
get_or-set_same [] i j v h = refl
get_or-set_same (x ∷ l) zero zero v h = h
get_or-set_same (x ∷ l) zero (suc j) v h = refl
get_or-set_same (x ∷ l) (suc i) zero v h = refl
get_or-set_same (x ∷ l) (suc i) (suc j) v h = get_or-set_same l i j v h

put-flags :
    (i j : ℕ) (g : Node → Node) (t : DomTree)
    → ((n : Node) → (g n).flags ≡ n.flags)
    → (at (put i g t) j).flags ≡ (at t j).flags
unfolding put
put-flags i j g t h = get_or-set_same t.nodes i j (g (at t i)) (h (at t i))

-- What no write to a link or to the ends of the roots changes, linking a child does not change.
module _ (P : DomTree → Type 0)
    (puts : (i : ℕ) (g : Node → Node) (w : DomTree)
      → ((n : Node) → (g n).flags ≡ n.flags)
      → P w
      → P (put i g w))
    (heads : (v : ℕ) (w : DomTree) → P w → P (record w { roots_head = v }))
    (tails : (v : ℕ) (w : DomTree) → P w → P (record w { roots_tail = v })) where
  set_head-keeps : (p v : ℕ) (w : DomTree) → P w → P (set_head p v w)
  unfolding set_head
  set_head-keeps p v w h = elim (Bool-cases (p == u32_max)) [
    | inl i ↦ rw i (heads v w h)
    | inr i ↦ rw i (puts p (λ n. record n { first_child = v }) w (λ n. refl) h)
  ]

  set_tail-keeps : (p v : ℕ) (w : DomTree) → P w → P (set_tail p v w)
  unfolding set_tail
  set_tail-keeps p v w h = elim (Bool-cases (p == u32_max)) [
    | inl i ↦ rw i (tails v w h)
    | inr i ↦ rw i (puts p (λ n. record n { last_child = v }) w (λ n. refl) h)
  ]

  link_child-keeps : (p c : ℕ) (w : DomTree) → P w → P (link_child p c w)
  unfolding link_child
  link_child-keeps p c w h =
      let own = put c (λ n. record n { parent = p }) w in
      let owned = puts c (λ n. record n { parent = p }) w (λ n. refl) h in
      let prev = tail own p in
      let one = put prev (λ n. record n { next_sibling = c }) own in
      set_tail-keeps p c
        (if prev == u32_max
          then set_head p c own
          else put c (λ n. record n { prev_sibling = prev }) one)
        (if_both P (prev == u32_max) (set_head-keeps p c own owned) (
          puts c (λ n. record n { prev_sibling = prev }) one (λ n. refl)
            (puts prev (λ n. record n { next_sibling = c }) own (λ n. refl) owned)))

module _ (t : DomTree) where
  abbrev Keeps : ℕ → DomTree → Type 0
  Keeps j w =
      ((at w j).flags ≡ (at t j).flags) × (length w.nodes ≡ length t.nodes) × (w.free ≡ t.free)

  pub link_child-Keeps : (p c j : ℕ) → Keeps j (link_child p c t)
  unfolding put
  link_child-Keeps p c j =
      link_child-keeps (Keeps j)
        (λ i g w same h. (put-flags i j g w same ∙ h.0, length-put i g w ∙ h.1, h.2)) (λ v w h. h)
        (λ v w h. h) p c t (refl, refl, refl)
