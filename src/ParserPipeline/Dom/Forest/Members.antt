-- ===== src/ParserPipeline/Dom/Forest/Members.antt =====
-- The nodes of a forest to which one is added: it and the others, each once.
use vpoiskaxroditeley.Prelude.{
  ℕ, suc, ◌≡◌, refl, sym, ◌∙◌, subst, true, false, ◌||◌, ◌==◌, arith, inl, inr, Bool-cases, ==_iff,
}
use vpoiskaxroditeley.ParserPipeline.Dom.Forest.{
  Forest, nil, tree, has, size, IsDistinct, has_cases, not_has, has_apart,
}
use vpoiskaxroditeley.ParserPipeline.Dom.Forest.Attached.{add_last, add_under, not_eq}
use vpoiskaxroditeley.ParserPipeline.Dom.Forest.Under.{add_under_absent, absent}

pub has-add_last : (y c : ℕ) (f : Forest) → has y (add_last c f) ≡ (y == c || has y f)
unfolding add_last has
has-add_last y c nil = ground arith
has-add_last y c (tree x kids rest) = ground (arith, has-add_last y c rest)

pub size-add_last : (c : ℕ) (f : Forest) → size (add_last c f) ≡ suc (size f)
unfolding add_last size
size-add_last c nil = omega arith
size-add_last c (tree x kids rest) = omega (arith, size-add_last c rest)

module _ (p c : ℕ) where
  pub has-add_under :
      (y : ℕ) (f : Forest)
      → has p f ≡ true
      → IsDistinct f
      → has y (add_under p c f) ≡ (y == c || has y f)
  unfolding add_under has
  has-add_under y nil there d = cc
  has-add_under y (tree x kids rest) there (xk, xr, kr, dk, dr) =
      elim (has_cases p x kids rest there) [
        | inl e ↦
            let same : (x == p) ≡ true = ground arith in
            rw same (ground (arith, has-add_last y c kids))
        | inr (inl pk) ↦
            let not_p = has_apart p x kids pk xk in
            rw (not_eq x p (λ e. not_p (sym e)), add_under_absent p c rest (kr p pk))
              (ground (arith, has-add_under y kids pk dk))
        | inr (inr pr) ↦
            let not_p = has_apart p x rest pr xr in
            rw
              (
                not_eq x p (λ e. not_p (sym e)),
                add_under_absent p c kids (absent p kids rest kr pr),
              )
              (ground (arith, has-add_under y rest pr dr))
      ]

  pub size-add_under :
      (f : Forest) → has p f ≡ true → IsDistinct f → size (add_under p c f) ≡ suc (size f)
  unfolding add_under has size
  size-add_under nil there d = cc
  size-add_under (tree x kids rest) there (xk, xr, kr, dk, dr) =
      elim (has_cases p x kids rest there) [
        | inl e ↦
            let same : (x == p) ≡ true = ground arith in
            rw same (omega (arith, size-add_last c kids))
        | inr (inl pk) ↦
            let not_p = has_apart p x kids pk xk in
            rw (not_eq x p (λ e. not_p (sym e)), add_under_absent p c rest (kr p pk))
              (omega (arith, size-add_under kids pk dk))
        | inr (inr pr) ↦
            let not_p = has_apart p x rest pr xr in
            rw
              (
                not_eq x p (λ e. not_p (sym e)),
                add_under_absent p c kids (absent p kids rest kr pr),
              )
              (omega (arith, size-add_under rest pr dr))
      ]

-- Trees whose node lists are those of distinct ones with a new node in one of them.
with_kid :
    (c x : ℕ) (kids kids' rest : Forest)
    → ((y : ℕ) → has y kids' ≡ (y == c || has y kids))
    → has c (tree x kids rest) ≡ false
    → IsDistinct kids'
    → IsDistinct (tree x kids rest)
    → IsDistinct (tree x kids' rest)
unfolding has
with_kid c x kids kids' rest more out dk' (xk, xr, kr, dk, dr) =
    let (not_x, _, not_rest) = not_has x kids rest c out in
    (
      more x ∙ rw (not_eq x c (λ e. not_x (sym e))) xk,
      xr,
      λ y h. elim (Bool-cases (y == c)) [
        | inl is ↦ subst (λ v. has v rest ≡ false) (sym ((==_iff y c).0 is)) not_rest
        | inr other ↦ kr y (sym (more y ∙ rw other refl) ∙ h)
      ],
      dk',
      dr,
    )

with_rest :
    (c x : ℕ) (kids rest rest' : Forest)
    → ((y : ℕ) → has y rest' ≡ (y == c || has y rest))
    → has c (tree x kids rest) ≡ false
    → IsDistinct rest'
    → IsDistinct (tree x kids rest)
    → IsDistinct (tree x kids rest')
unfolding has
with_rest c x kids rest rest' more out dr' (xk, xr, kr, dk, dr) =
    let (not_x, not_kids, _) = not_has x kids rest c out in
    (
      xk,
      more x ∙ rw (not_eq x c (λ e. not_x (sym e))) xr,
      λ y h. more y ∙ rw (not_eq y c (has_apart y c kids h not_kids)) (kr y h),
      dk,
      dr',
    )

pub add_last-IsDistinct :
    (c : ℕ) (f : Forest) → has c f ≡ false → IsDistinct f → IsDistinct (add_last c f)
unfolding add_last has
add_last-IsDistinct c nil out d = (refl, refl, λ y h. refl, tt, tt)
add_last-IsDistinct c (tree x kids rest) out d =
    let (_, _, not_rest) = not_has x kids rest c out in
    with_rest c x kids rest (add_last c rest) (λ y. has-add_last y c rest) out
      (add_last-IsDistinct c rest not_rest d.4) d

pub add_under-IsDistinct :
    (p c : ℕ) (f : Forest)
    → has p f ≡ true
    → has c f ≡ false
    → IsDistinct f
    → IsDistinct (add_under p c f)
unfolding add_under
add_under-IsDistinct p c nil there out d = tt
add_under-IsDistinct p c (tree x kids rest) there out d =
    let (xk, xr, kr, dk, dr) = d in
    let (_, not_kids, not_rest) = not_has x kids rest c out in
    elim (has_cases p x kids rest there) [
      | inl e ↦
          let same : (x == p) ≡ true = ground arith in
          rw same (
            with_kid c x kids (add_last c kids) rest (λ y. has-add_last y c kids) out
              (add_last-IsDistinct c kids not_kids dk) d)
      | inr (inl pk) ↦
          let not_p = has_apart p x kids pk xk in
          rw (not_eq x p (λ e. not_p (sym e)), add_under_absent p c rest (kr p pk))
            (with_kid c x kids (add_under p c kids) rest (λ y. has-add_under p c y kids pk dk) out
              (add_under-IsDistinct p c kids pk not_kids dk) d)
      | inr (inr pr) ↦
          let not_p = has_apart p x rest pr xr in
          rw (not_eq x p (λ e. not_p (sym e)), add_under_absent p c kids (absent p kids rest kr pr))
            (with_rest c x kids rest (add_under p c rest) (λ y. has-add_under p c y rest pr dr) out
              (add_under-IsDistinct p c rest pr not_rest dr) d)
    ]
