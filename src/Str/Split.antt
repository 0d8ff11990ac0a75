-- ===== src/Str/Split.antt =====
-- Searching and splitting: find, split_at, split_once, rsplit_once, split, str::find.
use vpoiskaxroditeley.Prelude.{
  ℕ, ◌≡◌, refl, Bool, true, false, ◌||◌, Option, none, some, List, [], ◌∷◌, ◌++◌, ◌==◌,
  if◌then◌else◌, arith, Option-cases, Bool-cases, inl, inr,
}
use vpoiskaxroditeley.Str.{Bytes, strip_prefix, strip_prefix-eq_some}
use mathlib.Core.Option

-- <[u8]>::contains, on a class of bytes
abbrev pub any : (ℕ → Bool) → Bytes → Bool
any p [] = false
any p (x ∷ xs) = p x || any p xs

abbrev pub contains : ℕ → Bytes → Bool
contains c = any (λ b. b == c)

-- `s.split_at(s.find(p).unwrap_or(s.len()))`
unfoldable pub span_until : (ℕ → Bool) → Bytes → Bytes × Bytes
span_until p [] = ([], [])
span_until p (x ∷ xs) =
    let rest = span_until p xs in if p x then ([], x ∷ xs) else (x ∷ rest.0, rest.1)

-- split_once
unfoldable pub split_once : ℕ → Bytes → Option (Bytes × Bytes)
split_once c [] = none
split_once c (x ∷ xs) =
    let rest = split_once c xs in
    if x == c then some ([], xs) else Option.map (λ r. (x ∷ r.0, r.1)) rest

-- rsplit_once
unfoldable pub rsplit_once : ℕ → Bytes → Option (Bytes × Bytes)
rsplit_once c [] = none
rsplit_once c (x ∷ xs) = elim (rsplit_once c xs) [
  | some r ↦ some (x ∷ r.0, r.1)
  | none ↦ if x == c then some ([], xs) else none
]

abbrev pub cons_head : ℕ → List Bytes → List Bytes
cons_head x [] = (x ∷ []) ∷ []
cons_head x (s ∷ ss) = (x ∷ s) ∷ ss

-- split, by one byte
unfoldable pub split : ℕ → Bytes → List Bytes
split c [] = [] ∷ []
split c (x ∷ xs) = let rest = split c xs in if x == c then [] ∷ rest else cons_head x rest

-- the text before and after the first occurrence of a needle
unfoldable pub split_at_sub : Bytes → Bytes → Option (Bytes × Bytes)
split_at_sub n [] = Option.map (λ r. ([], r)) (strip_prefix n [])
split_at_sub n (x ∷ xs) =
    let later = Option.map (λ r. (x ∷ r.0, r.1)) (split_at_sub n xs) in
    elim (strip_prefix n (x ∷ xs)) [ some r ↦ some ([], r) | none ↦ later ]

module _ (p : ℕ → Bool) where
  pub span_until-append : (s : Bytes) → (span_until p s).0 ++ (span_until p s).1 ≡ s
  unfolding span_until
  span_until-append [] = refl
  span_until-append (x ∷ xs) = ground (arith, span_until-append xs)

  pub any-span_until : (s : Bytes) → any p (span_until p s).0 ≡ false
  unfolding span_until
  any-span_until [] = refl
  any-span_until (x ∷ xs) = ground (arith, any-span_until xs)

  -- What is left is empty, or begins with a byte of the class.
  abbrev pub StopsAt : Bytes → Type 0
  StopsAt [] = Unit {0}
  StopsAt (x ∷ xs) = p x ≡ true

  pub span_until-StopsAt : (s : Bytes) → StopsAt (span_until p s).1
  unfolding span_until
  span_until-StopsAt [] = tt
  span_until-StopsAt (x ∷ xs) = elim (Bool-cases (p x)) [
    | inl e ↦ rw e e
    | inr e ↦ rw e (span_until-StopsAt xs)
  ]

module _ (c : ℕ) where
  pub split_once-eq_some :
      (s a b : Bytes) → split_once c s ≡ some (a, b) → (s ≡ a ++ c ∷ b) × (contains c a ≡ false)
  unfolding split_once
  split_once-eq_some [] a b h = cc
  split_once-eq_some (x ∷ xs) a b h = elim (Option-cases (split_once c xs)) [
    | inl e ↦ ground (arith, e)
    | inr (r, e) ↦ ground (arith, e, split_once-eq_some xs r.0 r.1)
  ]

  pub split_once-eq_none : (s : Bytes) → split_once c s ≡ none → contains c s ≡ false
  unfolding split_once
  split_once-eq_none [] h = refl
  split_once-eq_none (x ∷ xs) h = ground (arith, split_once-eq_none xs)

  pub rsplit_once-eq_none : (s : Bytes) → rsplit_once c s ≡ none → contains c s ≡ false
  unfolding rsplit_once
  rsplit_once-eq_none [] h = refl
  rsplit_once-eq_none (x ∷ xs) h = ground (arith, rsplit_once-eq_none xs)

  pub rsplit_once-eq_some :
      (s a b : Bytes) → rsplit_once c s ≡ some (a, b) → (s ≡ a ++ c ∷ b) × (contains c b ≡ false)
  unfolding rsplit_once
  rsplit_once-eq_some [] a b h = cc
  rsplit_once-eq_some (x ∷ xs) a b h = elim (Option-cases (rsplit_once c xs)) [
    | inl e ↦ ground (arith, e, rsplit_once-eq_none xs)
    | inr (r, e) ↦ ground (arith, e, rsplit_once-eq_some xs r.0 r.1)
  ]

pub split_at_sub-eq_some : (n s a b : Bytes) → split_at_sub n s ≡ some (a, b) → s ≡ a ++ (n ++ b)
unfolding split_at_sub
split_at_sub-eq_some n [] a b h = elim (Option-cases (strip_prefix n [])) [
  | inl e ↦ ground (arith, e)
  | inr (r, e) ↦ ground (arith, e, strip_prefix-eq_some n [] {r = r})
]
split_at_sub-eq_some n (x ∷ xs) a b h = elim (Option-cases (strip_prefix n (x ∷ xs))) [
  | inr (r, e) ↦ ground (arith, e, strip_prefix-eq_some n (x ∷ xs) {r = r})
  | inl e ↦ elim (Option-cases (split_at_sub n xs)) [
    | inl f ↦ ground (arith, e, f)
    | inr (r, f) ↦ ground (arith, e, f, split_at_sub-eq_some n xs r.0 r.1)
  ]
]
