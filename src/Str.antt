-- ===== src/Str.antt =====
-- The parts of Rust's `str`, slices and `u8` that the crates call. A `str` or a byte slice is the
-- list of its bytes; the delimiters that the program searches for are ASCII.
pub mod Split
pub mod Trim
pub mod Lines
pub mod Ends
pub mod Utf8
use vpoiskaxroditeley.Prelude.{
  ℕ, ◌+◌, ◌-◌, ◌≡◌, refl, Bool, true, false, ◌&&◌, ◌||◌, not, Option, none, some, List, [], ◌∷◌,
  ◌++◌, reverse, String, ◌==◌, leb, ltb, if◌then◌else◌, length, arith, ==_iff, ◌↔◌, ap, is_some,
  map, ap₂, Bool-cases, inl, inr,
}
use Prim.Native.Char.{code}

abbrev pub Bytes : Type 0
Bytes = List ℕ

abbrev pub codes : String → Bytes
codes String.[] = []
codes (String.◌∷◌ c s) = code c ∷ codes s

abbrev pub is_empty {ℓ} : {A : Type ℓ} → List A → Bool
is_empty [] = true
is_empty (x ∷ xs) = false

-- u8::is_ascii_digit and its kind
abbrev pub is_digit : ℕ → Bool
is_digit b = leb b'0' b && leb b b'9'

abbrev pub is_lower : ℕ → Bool
is_lower b = leb b'a' b && leb b b'z'

abbrev pub is_upper : ℕ → Bool
is_upper b = leb b'A' b && leb b b'Z'

abbrev pub is_alphanumeric : ℕ → Bool
is_alphanumeric b = is_digit b || is_lower b || is_upper b

-- u8::to_ascii_lowercase
abbrev pub to_lower : ℕ → ℕ
to_lower b = if is_upper b then b + 32 else b

-- <[u8]>::eq
unfoldable pub eq_bytes : Bytes → Bytes → Bool
eq_bytes [] [] = true
eq_bytes [] (y ∷ ys) = false
eq_bytes (x ∷ xs) [] = false
eq_bytes (x ∷ xs) (y ∷ ys) = x == y && eq_bytes xs ys

pub eq_bytes→eq : (xs ys : Bytes) → eq_bytes xs ys ≡ true → xs ≡ ys
unfolding eq_bytes
eq_bytes→eq [] [] h = refl
eq_bytes→eq [] (y ∷ ys) h = cc
eq_bytes→eq (x ∷ xs) [] h = cc
eq_bytes→eq (x ∷ xs) (y ∷ ys) h = ground (arith, eq_bytes→eq xs ys)

pub eq_bytes_refl : (xs : Bytes) → eq_bytes xs xs ≡ true
unfolding eq_bytes
eq_bytes_refl [] = refl
eq_bytes_refl (x ∷ xs) = ground (arith, eq_bytes_refl xs)

pub eq_bytes_iff : (xs ys : Bytes) → (eq_bytes xs ys ≡ true) ↔ (xs ≡ ys)
eq_bytes_iff xs ys = (eq_bytes→eq xs ys, λ e. rw e (eq_bytes_refl ys))

-- eq_ignore_ascii_case
unfoldable pub eq_ignore_ascii_case : Bytes → Bytes → Bool
eq_ignore_ascii_case [] [] = true
eq_ignore_ascii_case [] (y ∷ ys) = false
eq_ignore_ascii_case (x ∷ xs) [] = false
eq_ignore_ascii_case (x ∷ xs) (y ∷ ys) = to_lower x == to_lower y && eq_ignore_ascii_case xs ys

eq_ignore_ascii_case→eq :
    (xs ys : Bytes) → eq_ignore_ascii_case xs ys ≡ true → map to_lower xs ≡ map to_lower ys
unfolding eq_ignore_ascii_case
eq_ignore_ascii_case→eq [] [] h = refl
eq_ignore_ascii_case→eq [] (y ∷ ys) h = cc
eq_ignore_ascii_case→eq (x ∷ xs) [] h = cc
eq_ignore_ascii_case→eq (x ∷ xs) (y ∷ ys) h = elim (Bool-cases (to_lower x == to_lower y)) [
  | inl e ↦ ap₂ ◌∷◌ ((==_iff _ _).0 e) (eq_ignore_ascii_case→eq xs ys (rw e at h))
  | inr e ↦ let f = rw e at h in cc
]

eq→eq_ignore_ascii_case :
    (xs ys : Bytes) → map to_lower xs ≡ map to_lower ys → eq_ignore_ascii_case xs ys ≡ true
unfolding eq_ignore_ascii_case
eq→eq_ignore_ascii_case [] [] h = refl
eq→eq_ignore_ascii_case [] (y ∷ ys) h = cc
eq→eq_ignore_ascii_case (x ∷ xs) [] h = cc
eq→eq_ignore_ascii_case (x ∷ xs) (y ∷ ys) h =
    let first : to_lower x ≡ to_lower y = cc in
    let rest : map to_lower xs ≡ map to_lower ys = cc in
    rw ((==_iff (to_lower x) (to_lower y)).1 first) (eq→eq_ignore_ascii_case xs ys rest)

pub eq_ignore_ascii_case_iff :
    (xs ys : Bytes) → (eq_ignore_ascii_case xs ys ≡ true) ↔ (map to_lower xs ≡ map to_lower ys)
eq_ignore_ascii_case_iff xs ys = (eq_ignore_ascii_case→eq xs ys, eq→eq_ignore_ascii_case xs ys)

-- strip_prefix, starts_with
unfoldable pub strip_prefix : Bytes → Bytes → Option Bytes
strip_prefix [] s = some s
strip_prefix (p ∷ ps) [] = none
strip_prefix (p ∷ ps) (x ∷ xs) = if p == x then strip_prefix ps xs else none

pub strip_prefix-eq_some : (p s : Bytes) {r : Bytes} → strip_prefix p s ≡ some r → s ≡ p ++ r
unfolding strip_prefix
strip_prefix-eq_some [] s h = cc
strip_prefix-eq_some (p ∷ ps) [] h = cc
strip_prefix-eq_some (p ∷ ps) (x ∷ xs) {r} h = ground (arith, strip_prefix-eq_some ps xs {r = r})

pub strip_prefix-append : (p r : Bytes) → strip_prefix p (p ++ r) ≡ some r
unfolding strip_prefix
strip_prefix-append [] r = refl
strip_prefix-append (p ∷ ps) r = ground (arith, strip_prefix-append ps r)

unfoldable pub starts_with : Bytes → Bytes → Bool
starts_with p s = is_some (strip_prefix p s)

unfoldable pub ends_with : Bytes → Bytes → Bool
unfolding starts_with strip_prefix
ends_with n s = starts_with (reverse n) (reverse s)
