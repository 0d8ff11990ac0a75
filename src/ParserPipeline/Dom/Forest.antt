-- ===== src/ParserPipeline/Dom/Forest.antt =====
-- Forests of nodes, and what the columns of a tree hold when they are the links of one.

pub mod Attached
pub mod Under
pub mod Members
pub mod Columns
pub mod Linked
pub mod Ends
pub mod Roots
pub mod Sound
pub mod Placed
pub mod Pushed
use vpoiskaxroditeley.Prelude.{
  ℕ, suc, ◌+◌, ◌≤◌, ◌<◌, ◌≡◌, ◌≢◌, refl, sym, ◌∙◌, subst, Bool, true, false, ◌||◌, ◌==◌, arith,
  length, if◌then◌else◌, ◌⊎◌, inl, inr, Bool-cases, ==_iff,
}
use vpoiskaxroditeley.ParserPipeline.Dom.{Node, u32_max}

-- A node, the forest of its children, and its siblings behind it.
pub data Forest : Type 0 where
  nil : Forest
  tree : (x : ℕ) (kids rest : Forest) → Forest

unfoldable pub has : ℕ → Forest → Bool
has y nil = false
has y (tree x kids rest) = y == x || (has y kids || has y rest)

unfoldable pub size : Forest → ℕ
size nil = 0
size (tree x kids rest) = suc (size kids + size rest)

-- No node stands twice in it.
abbrev pub IsDistinct : Forest → Type 0
IsDistinct nil = Unit {0}
IsDistinct (tree x kids rest) =
    (has x kids ≡ false)
    × (has x rest ≡ false)
    × ((y : ℕ) → has y kids ≡ true → has y rest ≡ false)
    × IsDistinct kids
    × IsDistinct rest

-- The columns link the forest: its nodes are under `n` and have the parent, and the first is `cur` and
-- comes after `prev`, and the last is `last`; `u32_max` where there is none. So too for the children.
abbrev pub IsLinked : ℕ → (ℕ → Node) → ℕ → ℕ → ℕ → ℕ → Forest → Type 0
IsLinked n g parent prev cur last nil = (cur ≡ u32_max) × (last ≡ prev)
IsLinked n g parent prev cur last (tree x kids rest) =
    (cur ≡ x)
    × (x < n)
    × ((g x).parent ≡ parent)
    × ((g x).prev_sibling ≡ prev)
    × IsLinked n g x u32_max (g x).first_child (g x).last_child kids
    × IsLinked n g parent x (g x).next_sibling last rest

pub has_cases :
    (y x : ℕ) (kids rest : Forest)
    → has y (tree x kids rest) ≡ true
    → (y ≡ x) ⊎ ((has y kids ≡ true) ⊎ (has y rest ≡ true))
unfolding has
has_cases y x kids rest h = elim (Bool-cases (y == x)) [
  | inl is ↦ inl ((==_iff y x).0 is)
  | inr not_x ↦ elim (Bool-cases (has y kids)) [
    | inl k ↦ inr (inl k)
    | inr not_k ↦ inr (inr (ground arith))
  ]
]

module _ (x : ℕ) (kids rest : Forest) where
  pub has_self : has x (tree x kids rest) ≡ true
  unfolding has
  has_self = ground arith

  pub has_kid : (y : ℕ) → has y kids ≡ true → has y (tree x kids rest) ≡ true
  unfolding has
  has_kid y h = ground arith

  pub has_rest : (y : ℕ) → has y rest ≡ true → has y (tree x kids rest) ≡ true
  unfolding has
  has_rest y h = ground arith

  pub not_has :
      (y : ℕ)
      → has y (tree x kids rest) ≡ false
      → (y ≢ x) × (has y kids ≡ false) × (has y rest ≡ false)
  unfolding has
  not_has y h = (λ e. ground arith, ground arith, ground arith)

-- One forest has it and the other has not: they are not the same node.
pub has_apart : (y z : ℕ) (f : Forest) → has y f ≡ true → has z f ≡ false → y ≢ z
has_apart y z f h k e = cc (subst (λ w. has w f ≡ true) e h)

-- The columns agree on the links of a node.
abbrev pub SameLinks : Node → Node → Type 0
SameLinks a b =
    (b.parent ≡ a.parent)
    × (b.prev_sibling ≡ a.prev_sibling)
    × (b.first_child ≡ a.first_child)
    × (b.last_child ≡ a.last_child)
    × (b.next_sibling ≡ a.next_sibling)

module _ (n : ℕ) (g : ℕ → Node) where
  pub IsLinked-move :
      (parent prev cur cur' last last' : ℕ) (f : Forest)
      → cur' ≡ cur
      → last' ≡ last
      → IsLinked n g parent prev cur last f
      → IsLinked n g parent prev cur' last' f
  IsLinked-move parent prev cur cur' last last' f c l h =
      subst (λ v. IsLinked n g parent prev cur' v f) (sym l)
        (subst (λ v. IsLinked n g parent prev v last f) (sym c) h)

  pub has-lt :
      (y parent prev cur last : ℕ) (f : Forest)
      → IsLinked n g parent prev cur last f
      → has y f ≡ true
      → y < n
  unfolding has
  has-lt y parent prev cur last nil l h = cc
  has-lt y parent prev cur last (tree x kids rest) (_, small, _, _, k, r) h =
      elim (has_cases y x kids rest h) [
        | inl is ↦ subst (λ v. v < n) (sym is) small
        | inr (inl hk) ↦ has-lt y x u32_max (g x).first_child (g x).last_child kids k hk
        | inr (inr hr) ↦ has-lt y parent x (g x).next_sibling last rest r hr
      ]

  pub has_last :
      (x parent prev cur last : ℕ) (kids rest : Forest)
      → IsLinked n g parent prev cur last (tree x kids rest)
      → (last ≡ x) ⊎ (has last rest ≡ true)
  unfolding has
  has_last x parent prev cur last kids nil (_, _, _, _, _, (_, is)) = inl is
  has_last x parent prev cur last kids (tree y kids' rest) (_, _, _, _, _, r) =
      elim (has_last y parent x (g x).next_sibling last kids' rest r) [
        | inl is ↦
            inr (subst (λ v. has v (tree y kids' rest) ≡ true) (sym is) (has_self y kids' rest))
        | inr h ↦ inr (has_rest y kids' rest last h)
      ]

  pub kids_last :
      (parent prev cur last : ℕ) (f : Forest)
      → IsLinked n g parent prev cur last f
      → (last ≡ prev) ⊎ (has last f ≡ true)
  kids_last parent prev cur last nil (_, is) = inl is
  kids_last parent prev cur last (tree y kids rest) l =
      elim (has_last y parent prev cur last kids rest l) [
        | inl is ↦
            inr (subst (λ v. has v (tree y kids rest) ≡ true) (sym is) (has_self y kids rest))
        | inr h ↦ inr (has_rest y kids rest last h)
      ]

  -- The last child of a node of the forest is in the forest, if there is one.
  pub has-last_child :
      (p parent prev cur last : ℕ) (f : Forest)
      → IsLinked n g parent prev cur last f
      → has p f ≡ true
      → ((g p).last_child ≡ u32_max) ⊎ (has (g p).last_child f ≡ true)
  unfolding has
  has-last_child p parent prev cur last nil l h = cc
  has-last_child p parent prev cur last (tree x kids rest) (_, _, _, _, k, r) h =
      elim (has_cases p x kids rest h) [
        | inl is ↦
            let here = kids_last x u32_max (g x).first_child (g x).last_child kids k in
            elim (subst (λ v. ((g v).last_child ≡ u32_max) ⊎ (has (g v).last_child kids ≡ true))
              (sym is) here) [
                | inl e ↦ inl e
                | inr e ↦ inr (has_kid x kids rest (g p).last_child e)
              ]
        | inr (inl hk) ↦
            elim (has-last_child p x u32_max (g x).first_child (g x).last_child kids k hk) [
              | inl e ↦ inl e
              | inr e ↦ inr (has_kid x kids rest (g p).last_child e)
            ]
        | inr (inr hr) ↦ elim (has-last_child p parent x (g x).next_sibling last rest r hr) [
          | inl e ↦ inl e
          | inr e ↦ inr (has_rest x kids rest (g p).last_child e)
        ]
      ]
