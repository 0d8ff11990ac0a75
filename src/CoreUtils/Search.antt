-- ===== src/CoreUtils/Search.antt =====
-- crates/core-utils/src/encoding.rs: texts found in byte strings. `memchr`'s search for a needle is an
-- argument: the position where the needle is found, if any.
pub mod Tokens
use vpoiskaxroditeley.Prelude.{
  ℕ, zero, suc, ◌+◌, ◌-◌, ◌*◌, ◌≤◌, ◌≡◌, refl, Bool, true, false, ◌&&◌, ◌||◌, not, Option, none,
  some, List, [], ◌∷◌, ◌++◌, ◌==◌, if◌then◌else◌, length, drop, arith, Bool-cases, Option-cases,
  inl, inr, reverse, ap,
}
use vpoiskaxroditeley.Str.{Bytes, is_digit, is_empty}
use vpoiskaxroditeley.Str.Split.{contains}
use mathlib.Core.Option

infixl 5 ◌>>=◌
abbrev ◌>>=◌ {ℓ κ} : {A : Type ℓ} {B : Type κ} → Option A → (A → Option B) → Option B
none >>= f = none
some a >>= f = f a

-- what stands before the closing quote; a backslash takes the byte after it along
unfoldable pub quoted : Bytes → Option Bytes
quoted [] = none
quoted (c ∷ []) = if c == b'"' then some [] else none
quoted (c ∷ d ∷ r) =
    let skip = quoted r in
    let next = quoted (d ∷ r) in
    if c == b'\\'
    then Option.map (λ t. c ∷ d ∷ t) skip
    else if c == b'"'
    then some []
    else Option.map (λ t. c ∷ t) next

-- the bytes before the stop, at most so many
unfoldable pub token : ℕ → ℕ → Bytes → Bytes
token stop zero s = []
token stop (suc n) [] = []
token stop (suc n) (c ∷ s) = let rest = token stop n s in if c == stop then [] else c ∷ rest

-- the value of at most so many digits, and how many there were
unfoldable pub number : ℕ → ℕ → Bytes → ℕ × ℕ
number zero val s = (val, 0)
number (suc n) val [] = (val, 0)
number (suc n) val (c ∷ s) =
    let (rest, count) = number n (val * 10 + (c - b'0')) s in
    if is_digit c then (rest, count + 1) else (val, 0)

unfoldable pub trim_left : (ℕ → Bool) → Bytes → Bytes
trim_left junk [] = []
trim_left junk (c ∷ s) = let rest = trim_left junk s in if junk c then rest else c ∷ s

unfoldable pub is_junk : Bytes → ℕ → Bool
is_junk extra b =
    b == b' '
    || b == b'\t'
    || b == b'\n'
    || b == b'\r'
    || b == 0x0b
    || b == 0x0c
    || contains b extra

-- trim_ascii_extra: from the front, then from the back
unfoldable pub trim_ascii_extra : Bytes → Bytes → Bytes
unfolding trim_left is_junk
trim_ascii_extra extra s =
    reverse (trim_left (is_junk extra) (reverse (trim_left (is_junk extra) s)))

module _ (find_sub : Bytes → Bytes → Option ℕ) where
  unfoldable pub find_quoted : Bytes → Bytes → Option Bytes
  unfolding quoted
  find_quoted s key = do
    rel ← find_sub s key
    text ← quoted (drop (rel + length key) s)
    if is_empty text then none else some text

  unfoldable pub find_token : Bytes → Bytes → ℕ → ℕ → Option Bytes
  unfolding token
  find_token s key stop max_len = do
    pos ← find_sub s key
    let found = token stop max_len (drop (pos + length key) s) in
        if is_empty found then none else some found

  -- Each round begins behind the start of the last match; fuel is the length of the text and one more.
  unfoldable pub u32_from : ℕ → ℕ → Bytes → Bytes → Option ℕ
  unfolding number
  u32_from zero from s key = none
  u32_from (suc fuel) from s key = elim (find_sub (drop from s) key) [
    | none ↦ none
    | some rel ↦
        let (val, count) = number 8 0 (drop (from + rel + length key) s) in
        let later = u32_from fuel (from + rel + 1) s key in if count == 0 then later else some val
  ]

  unfoldable pub find_u32 : Bytes → Bytes → Option ℕ
  unfolding u32_from
  find_u32 s key = u32_from (length s + 1) 0 s key
