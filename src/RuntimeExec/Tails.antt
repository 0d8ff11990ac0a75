-- ===== src/RuntimeExec/Tails.antt =====
-- The hash map of timer.rs, from u32 to the callbacks: its entries, of which no two have one key.
use vpoiskaxroditeley.Prelude.{
  ℕ, suc, ◌≡◌, refl, sym, ap, ◌∙◌, false, Option, none, some, List, [], ◌∷◌, ◌==◌, ==_iff,
  if◌then◌else◌, length, arith, Bool-cases, inl, inr,
}

module _ {V : Type 0} where
  unfoldable pub lookup : ℕ → List (ℕ × V) → Option V
  lookup k [] = none
  lookup k ((j, v) ∷ l) = let rest = lookup k l in if j == k then some v else rest

  unfoldable pub remove : ℕ → List (ℕ × V) → List (ℕ × V)
  remove k [] = []
  remove k ((j, v) ∷ l) = let rest = remove k l in if j == k then rest else (j, v) ∷ rest

  unfoldable pub insert : ℕ → V → List (ℕ × V) → List (ℕ × V)
  unfolding remove
  insert k v l = (k, v) ∷ remove k l

  abbrev pub IsDistinct : List (ℕ × V) → Type 0
  IsDistinct [] = Unit
  IsDistinct ((k, v) ∷ l) = (lookup k l ≡ none) × IsDistinct l

  pub remove_absent : (k : ℕ) (l : List (ℕ × V)) → lookup k l ≡ none → remove k l ≡ l
  unfolding lookup remove
  remove_absent k [] h = refl
  remove_absent k ((j, v) ∷ l) h = ground (arith, remove_absent k l)

  pub lookup-remove_self : (k : ℕ) (l : List (ℕ × V)) → lookup k (remove k l) ≡ none
  unfolding lookup remove
  lookup-remove_self k [] = refl
  lookup-remove_self k ((j, v) ∷ l) = ground (arith, lookup-remove_self k l)

  pub lookup-remove_other :
      (k i : ℕ) (l : List (ℕ × V)) → (i == k) ≡ false → lookup i (remove k l) ≡ lookup i l
  unfolding lookup remove
  lookup-remove_other k i [] h = refl
  lookup-remove_other k i ((j, v) ∷ l) h = ground (arith, lookup-remove_other k i l h)

  pub lookup-remove-none :
      (k i : ℕ) (l : List (ℕ × V)) → lookup i l ≡ none → lookup i (remove k l) ≡ none
  unfolding lookup remove
  lookup-remove-none k i [] h = refl
  lookup-remove-none k i ((j, v) ∷ l) h = ground (arith, lookup-remove-none k i l)

  pub remove-IsDistinct : (k : ℕ) (l : List (ℕ × V)) → IsDistinct l → IsDistinct (remove k l)
  unfolding lookup remove
  remove-IsDistinct k [] h = tt
  remove-IsDistinct k ((j, v) ∷ l) (h, d) =
      ground (arith, remove-IsDistinct k l d, lookup-remove-none k j l h)

  pub insert-IsDistinct :
      (k : ℕ) (v : V) (l : List (ℕ × V)) → IsDistinct l → IsDistinct (insert k v l)
  unfolding insert
  insert-IsDistinct k v l d = (lookup-remove_self k l, remove-IsDistinct k l d)

  pub length-remove_lem :
      (k : ℕ) (l : List (ℕ × V)) {v : V}
      → IsDistinct l
      → lookup k l ≡ some v
      → suc (length (remove k l)) ≡ length l
  unfolding lookup remove
  length-remove_lem k [] d h = cc
  length-remove_lem k ((j, w) ∷ l) (e, d) h = elim (Bool-cases (j == k)) [
    | inl f ↦
        let same : j ≡ k = (==_iff j k).0 f in
        rw f (ap (λ t. suc (length t)) (remove_absent k l (ap (λ t. lookup t l) (sym same) ∙ e)))
    | inr f ↦ rw f (ap suc (length-remove_lem k l d (rw f at h)))
  ]
