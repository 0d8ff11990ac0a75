-- ===== src/Str/Ends.antt =====
-- What a text ends in.
use vpoiskaxroditeley.Prelude.{◌≡◌, refl, sym, ap, ◌∙◌, true, ◌++◌, Option-cases, inl, inr, reverse}
use vpoiskaxroditeley.Str.{
  Bytes, strip_prefix, strip_prefix-append, strip_prefix-eq_some, starts_with, ends_with,
}
use mathlib.Core.List.{reverse-append, reverse-reverse}

abbrev pub EndsIn : Bytes → Bytes → Type 0
EndsIn last t = (pre : Bytes) × (t ≡ pre ++ last)

pub ends_with→EndsIn : (last s : Bytes) → ends_with last s ≡ true → EndsIn last s
unfolding ends_with
ends_with→EndsIn last s h = elim (Option-cases (strip_prefix (reverse last) (reverse s))) [
  | inl e ↦ absurd (cc (rw (e, starts_with) at h))
  | inr (r, e) ↦
      let f : reverse s ≡ reverse last ++ r = strip_prefix-eq_some (reverse last) (reverse s) e in
      (
        reverse r,
        sym (reverse-reverse s)
            ∙ ap reverse f
            ∙ reverse-append (reverse last) r
            ∙ ap (◌++◌ (reverse r)) (reverse-reverse last),
      )
]

pub EndsIn→ends_with : (last s : Bytes) → EndsIn last s → ends_with last s ≡ true
unfolding ends_with
EndsIn→ends_with last s (pre, e) = rw (e, reverse-append, starts_with, strip_prefix-append) refl
