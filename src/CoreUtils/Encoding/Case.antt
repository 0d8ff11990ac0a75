-- ===== src/CoreUtils/Encoding/Case.antt =====
-- The ways of encoding.rs to ignore ASCII case agree.
use vpoiskaxroditeley.Prelude.{
  ℕ, ◌≡◌, refl, ap, ap₂, ◌∙◌, sym, Bool, true, false, [], ◌∷◌, ◌==◌, ==_iff, ◌↔◌, if◌then◌else◌,
  length, length-map, arith, All, passes, passes_sound, map,
}
use vpoiskaxroditeley.Str.{Bytes, to_lower, eq_ignore_ascii_case_iff}
use vpoiskaxroditeley.CoreUtils.Encoding.{
  ascii_lower_byte, ascii_upper_byte, case_byte, ascii_lower_compact, eq_ci,
}
use vpoiskaxroditeley.CoreUtils.Encoding.Percent.{IsByte}

case_table :
    (upper : Bool)
    → passes
        (λ b. case_byte upper b == (if upper then ascii_upper_byte b else ascii_lower_byte b))
        256
      ≡ true
unfolding passes case_byte ascii_upper_byte ascii_lower_byte
case_table true = refl
case_table false = refl

lower_table : passes (λ b. case_byte false b == to_lower b) 256 ≡ true
unfolding passes case_byte
lower_table = refl

-- On every byte the mask of `push_ascii_case_into`, applied by `^`, does what `ascii_upper_byte`
-- and `ascii_lower_byte` do by a subtraction and an addition.
pub case_byte_lem :
    (upper : Bool) (b : ℕ)
    → IsByte b
    → case_byte upper b ≡ (if upper then ascii_upper_byte b else ascii_lower_byte b)
case_byte_lem upper b h = (==_iff _ _).0 (passes_sound _ 256 (case_table upper) b h)

pub ascii_lower_compact_lem : (s : Bytes) → All IsByte s → ascii_lower_compact s ≡ map to_lower s
unfolding ascii_lower_compact
ascii_lower_compact_lem [] h = refl
ascii_lower_compact_lem (b ∷ bs) h =
    ap₂ ◌∷◌ ((==_iff _ _).0 (passes_sound _ 256 lower_table b h.0)) (ascii_lower_compact_lem bs h.1)

to_lower_idem : (b : ℕ) → to_lower (to_lower b) ≡ to_lower b
to_lower_idem b = ground arith

pub map-to_lower_idem : (s : Bytes) → map to_lower (map to_lower s) ≡ map to_lower s
map-to_lower_idem [] = refl
map-to_lower_idem (b ∷ bs) = ap₂ ◌∷◌ (to_lower_idem b) (map-to_lower_idem bs)

-- `eq_ci` holds exactly when the two texts have one lower-case form.
pub eq_ci_iff :
    (xs ys : Bytes)
    → All IsByte xs
    → All IsByte ys
    → (eq_ci xs ys ≡ true) ↔ (ascii_lower_compact xs ≡ ascii_lower_compact ys)
unfolding eq_ci
eq_ci_iff xs ys hx hy = rw (ascii_lower_compact_lem xs hx, ascii_lower_compact_lem ys hy) (to, from)
  where
    to : eq_ci xs ys ≡ true → map to_lower xs ≡ map to_lower ys
    to h = (eq_ignore_ascii_case_iff xs ys).0 (ground arith)

    from : map to_lower xs ≡ map to_lower ys → eq_ci xs ys ≡ true
    from e =
        let n : length xs ≡ length ys =
          sym (length-map xs to_lower) ∙ ap length e ∙ length-map ys to_lower in
        rw ((==_iff _ _).1 n, (eq_ignore_ascii_case_iff xs ys).1 e)
