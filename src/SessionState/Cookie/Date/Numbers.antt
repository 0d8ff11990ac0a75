-- ===== src/SessionState/Cookie/Date/Numbers.antt =====
-- The numbers that the crates print, parsed again.
use vpoiskaxroditeley.Prelude.{
  ℕ, suc, ◌+◌, ◌-◌, ◌*◌, ◌^◌, ◌≤◌, ◌<◌, ◌≡◌, refl, ap, ◌∙◌, true, false, Option, none, some, [],
  ◌∷◌, ◌==◌, ltb, leb, arith,
}
use vpoiskaxroditeley.Prelude.Int.{ℤ, pos, negsuc, neg}
use vpoiskaxroditeley.Str.{Bytes, is_empty, strip_prefix}
use vpoiskaxroditeley.CoreUtils.Numbers.{int_to_compact}
use vpoiskaxroditeley.CoreUtils.Numbers.Decimal.{AllDigits, worth, u64_digits_into_total}
use vpoiskaxroditeley.SessionState.Cookie.Date.{digits_from, parse_digits, negative_i64, parse_i64}

digits_from-worth : (acc : ℕ) (l : Bytes) → AllDigits l → digits_from acc l ≡ some (worth acc l)
unfolding digits_from worth
digits_from-worth acc [] h = refl
digits_from-worth acc (c ∷ l) (d, h) = rw d (digits_from-worth (acc * 10 + (c - b'0')) l h)

parse_digits-worth :
    (l : Bytes) → AllDigits l → is_empty l ≡ false → parse_digits l ≡ some (worth 0 l)
unfolding parse_digits
parse_digits-worth [] h full = absurd (cc full)
parse_digits-worth (c ∷ l) h full = digits_from-worth 0 (c ∷ l) h

unprefixed : (p c : ℕ) (l : Bytes) → (p == c) ≡ false → strip_prefix (p ∷ []) (c ∷ l) ≡ none
unfolding strip_prefix
unprefixed p c l h = rw h refl

-- digits with no sign in front
parse_i64_plain :
    (l : Bytes)
    → AllDigits l
    → is_empty l ≡ false
    → worth 0 l < 2 ^ 63
    → parse_i64 l ≡ some (pos (worth 0 l))
unfolding parse_i64
parse_i64_plain [] h full small = absurd (cc full)
parse_i64_plain (c ∷ l) (d, h) full small =
    let minus = unprefixed b'-' c l (ground arith) in
    let plus = unprefixed b'+' c l (ground arith) in
    let read = parse_digits-worth (c ∷ l) (d, h) full in
    let fits : ltb (worth 0 (c ∷ l)) (2 ^ 63) ≡ true = ground arith in
    rw (parse_i64, minus, plus, read, fits) refl

parse_i64_minus :
    (l : Bytes)
    → AllDigits l
    → is_empty l ≡ false
    → worth 0 l ≤ 2 ^ 63
    → parse_i64 (b'-' ∷ l) ≡ some (neg (worth 0 l))
unfolding parse_i64 negative_i64
parse_i64_minus l h full small =
    let read = parse_digits-worth l h full in
    let fits : leb (worth 0 l) (2 ^ 63) ≡ true = ground arith in
    rw (parse_i64, negative_i64, read, fits) refl

neg-suc : (n : ℕ) → neg (suc n) ≡ negsuc n
neg-suc n =
    let some_left : leb (suc n) 0 ≡ false = ground arith in
    let same : suc n - 0 - 1 ≡ n = omega arith in rw (some_left, same) refl

-- an i64
abbrev pub IsI64 : ℤ → Type 0
IsI64 (pos n) = n < 2 ^ 63
IsI64 (negsuc n) = n < 2 ^ 63

-- Every i64 is printed, and parsing the text that is printed as an i64 gives it back.
pub parse_i64-int_to_compact :
    (v : ℤ) → IsI64 v → (s : Bytes) × (int_to_compact v ≡ some s) × (parse_i64 s ≡ some v)
unfolding int_to_compact
parse_i64-int_to_compact (pos n) small =
    let total = u64_digits_into_total n (omega arith) in
    let (out, run, all, value, short, full) = total in
    (
      out,
      ap (λ o. elim o as (λ _. Option Bytes) [ some digits ↦ some digits | none ↦ none ]) run,
      parse_i64_plain out all full (omega arith) ∙ ap (λ t. some (pos t)) value,
    )
parse_i64-int_to_compact (negsuc n) small =
    let total = u64_digits_into_total (suc n) (omega arith) in
    let (out, run, all, value, short, full) = total in
    (
      b'-' ∷ out,
      ap (λ o. elim o as (λ _. Option Bytes) [ some digits ↦ some (b'-' ∷ digits) | none ↦ none ])
          run,
      parse_i64_minus out all full (omega arith)
          ∙ ap (λ t. some (neg t)) value
          ∙ ap some (neg-suc n),
    )
