-- ===== src/NetClient/Robots/Glob.antt =====
-- What a robots.txt pattern means, and its segments.
use vpoiskaxroditeley.Prelude.{
  ℕ, ◌≡◌, ◌≢◌, refl, sym, ap, subst, ◌∙◌, Bool, true, false, List, [], ◌∷◌, ◌++◌, ◌==◌, Bool-cases,
  inl, inr,
}
use vpoiskaxroditeley.Str.{Bytes}
use vpoiskaxroditeley.Str.Split.{split, cons_head}

-- Where the pattern has ended: an anchored one wants the end of the path, another one does not care.
abbrev pub Ends : Bool → Bytes → Type 0
Ends true t = t ≡ []
Ends false t = Unit {0}

-- A path matches a pattern: `*` stands for any bytes, every other byte for itself.
pub data Glob (anchored : Bool) : Bytes → Bytes → Type 0 where
  end : {t : Bytes} → Ends anchored t → Glob anchored [] t
  lit :
      {c : ℕ} {p t : Bytes}
      → (c == b'*') ≡ false
      → Glob anchored p t
      → Glob anchored (c ∷ p) (c ∷ t)
  star : {c : ℕ} {p t : Bytes} → (c == b'*') ≡ true → Glob anchored p t → Glob anchored (c ∷ p) t
  more :
      {c x : ℕ} {p t : Bytes}
      → (c == b'*') ≡ true
      → Glob anchored (c ∷ p) t
      → Glob anchored (c ∷ p) (x ∷ t)

-- The segments stand in the text in order, each behind the one before, and `P` holds of the rest.
abbrev pub InOrder : (Bytes → Type 0) → List Bytes → Bytes → Type 0
InOrder P [] t = P t
InOrder P (s ∷ ss) t = (pre : Bytes) × (rest : Bytes) × (t ≡ pre ++ (s ++ rest)) × InOrder P ss rest

-- The same with the first segment at the start of the text.
abbrev pub FromStart : (Bytes → Type 0) → List Bytes → Bytes → Type 0
FromStart P [] t = ⊥
FromStart P (s ∷ ss) t = (rest : Bytes) × (t ≡ s ++ rest) × InOrder P ss rest

FromStart-cons :
    (P : Bytes → Type 0) (c : ℕ) (ss : List Bytes) (t : Bytes)
    → FromStart P ss t
    → FromStart P (cons_head c ss) (c ∷ t)
FromStart-cons P c [] t h = absurd h
FromStart-cons P c (s ∷ ss) t (rest, e, h) = (rest, ap (◌∷◌ c) e, h)

from_start→in_order :
    (P : Bytes → Type 0) (ss : List Bytes) (t : Bytes) → FromStart P ss t → InOrder P ss t
from_start→in_order P [] t h = absurd h
from_start→in_order P (s ∷ ss) t (rest, e, h) = ([], rest, e, h)

InOrder-more :
    (P : Bytes → Type 0) (x : ℕ) (ss : List Bytes) (t : Bytes)
    → ss ≢ []
    → InOrder P ss t
    → InOrder P ss (x ∷ t)
InOrder-more P x [] t ne h = absurd (ne refl)
InOrder-more P x (s ∷ ss) t ne (pre, rest, e, h) = (x ∷ pre, rest, ap (◌∷◌ x) e, h)

cons_head-ne-nil : (x : ℕ) (ss : List Bytes) → cons_head x ss ≢ []
cons_head-ne-nil x [] e = cc
cons_head-ne-nil x (s ∷ ss) e = cc

pub split-ne-nil : (c : ℕ) (p : Bytes) → split c p ≢ []
unfolding split
split-ne-nil c [] e = cc
split-ne-nil c (x ∷ p) e = elim (Bool-cases (x == c)) [
  | inl h ↦ absurd (cc (rw h at e))
  | inr h ↦ cons_head-ne-nil x (split c p) (rw h at e)
]

module _ (anchored : Bool) where
  abbrev pub Rest : Bytes → Type 0
  Rest = Ends anchored

  pub Glob→FromStart : {p t : Bytes} → Glob anchored p t → FromStart Rest (split b'*' p) t
  unfolding split
  Glob→FromStart (end {t} h) = (t, refl, h)
  Glob→FromStart (lit {c} {p} {t} e g) =
      rw e (FromStart-cons Rest c (split b'*' p) t (Glob→FromStart g))
  Glob→FromStart (star {p} {t} e g) =
      rw e (t, refl, from_start→in_order Rest (split b'*' p) t (Glob→FromStart g))
  Glob→FromStart (more {x} {p} {t} e g) =
      let (rest, f, h) = rw e at (Glob→FromStart g) in
      rw e (
        x ∷ t,
        refl,
        InOrder-more Rest x (split b'*' p) t (split-ne-nil b'*' p)
            (subst (InOrder Rest (split b'*' p)) (sym f) h),
      )

  -- a star before `pre` and a text that matches
  star_over :
      (c : ℕ) (pre p t : Bytes)
      → (c == b'*') ≡ true
      → Glob anchored p t
      → Glob anchored (c ∷ p) (pre ++ t)
  star_over c [] p t e g = star e g
  star_over c (x ∷ pre) p t e g = more e (star_over c pre p t e g)

  at_star :
      (c : ℕ) (p t : Bytes)
      → (c == b'*') ≡ true
      → ((u : Bytes) → FromStart Rest (split b'*' p) u → Glob anchored p u)
      → (ss : List Bytes) → split b'*' p ≡ ss
      → FromStart Rest ([] ∷ ss) t
      → Glob anchored (c ∷ p) t
  at_star c p t e ih [] q h = absurd (split-ne-nil b'*' p q)
  at_star c p t e ih (s ∷ ss) q (u, f, (pre, rest, g, h)) =
      let found : FromStart Rest (s ∷ ss) (s ++ rest) = (rest, refl, h) in
      subst (Glob anchored (c ∷ p)) (sym (f ∙ g))
        (star_over c pre p (s ++ rest) e (ih (s ++ rest) (rw q found)))

  at_literal :
      (c : ℕ) (p t : Bytes)
      → (c == b'*') ≡ false
      → ((u : Bytes) → FromStart Rest (split b'*' p) u → Glob anchored p u)
      → (ss : List Bytes) → split b'*' p ≡ ss
      → FromStart Rest (cons_head c ss) t
      → Glob anchored (c ∷ p) t
  at_literal c p t e ih [] q h = absurd (split-ne-nil b'*' p q)
  at_literal c p t e ih (s ∷ ss) q (rest, f, h) =
      let found : FromStart Rest (s ∷ ss) (s ++ rest) = (rest, refl, h) in
      subst (Glob anchored (c ∷ p)) (sym f) (lit e (ih (s ++ rest) (rw q found)))

  pub FromStart→Glob : (p t : Bytes) → FromStart Rest (split b'*' p) t → Glob anchored p t
  unfolding split
  FromStart→Glob [] t (rest, e, h) = end (subst Rest (sym e) h)
  FromStart→Glob (c ∷ p) t h = elim (Bool-cases (c == b'*')) [
    | inl e ↦ at_star c p t e (FromStart→Glob p) (split b'*' p) refl (rw e at h)
    | inr e ↦ at_literal c p t e (FromStart→Glob p) (split b'*' p) refl (rw e at h)
  ]
