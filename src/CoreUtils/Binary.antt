-- ===== src/CoreUtils/Binary.antt =====
-- crates/core-utils/src/encoding.rs: binary numbers, the sizes of base64 and grouped hexadecimal. A read
-- out of range, which would be a panic, gives `none`.
pub mod Leb
pub mod Grouped
use vpoiskaxroditeley.Prelude.{
  ℕ, zero, suc, ◌+◌, ◌-◌, ◌*◌, ◌/◌, ◌%◌, ◌^◌, Bool, true, false, ◌||◌, Option, none, some, List, [],
  ◌∷◌, ◌++◌, ◌==◌, leb, ltb, if◌then◌else◌, length, get_elem?, take, drop, min, bit_and, bit_or,
}
use vpoiskaxroditeley.Prelude.Int.{ℤ, pos, negsuc}
use vpoiskaxroditeley.Str.{Bytes, is_empty}
use vpoiskaxroditeley.CoreUtils.Encoding.{hex_compact}

infixl 5 ◌>>=◌
abbrev ◌>>=◌ {ℓ κ} : {A : Type ℓ} {B : Type κ} → Option A → (A → Option B) → Option B
none >>= f = none
some a >>= f = f a

-- The loop over the bytes behind the first: the value and the position behind its last byte.
unfoldable pub leb_loop : ℕ → ℕ → ℕ → Bytes → Option (ℕ × ℕ)
leb_loop val shift p [] = none
leb_loop val shift p (b ∷ bs) =
    let val = bit_or val (bit_and b 0x7f * 2 ^ shift % 2 ^ 64) in
    let rest = leb_loop val (shift + 7) (p + 1) bs in
    if bit_and b 0x80 == 0 then some (val, p + 1) else if ltb 63 (shift + 7) then none else rest

unfoldable pub leb128 : Bytes → ℕ → Option (ℕ × ℕ)
unfolding leb_loop
leb128 s position = elim (drop position s) [
  | [] ↦ none
  | b0 ∷ bs ↦
      if bit_and b0 0x80 == 0
      then some (b0, position + 1)
      else leb_loop (bit_and b0 0x7f) 7 (position + 1) bs
]

unfoldable pub be_u16 : Bytes → ℕ → Option ℕ
be_u16 s o = do a ← get_elem? s o; b ← get_elem? s (o + 1); some (a * 256 + b)

-- the same in two's complement
unfoldable pub be_i16 : Bytes → ℕ → Option ℤ
unfolding be_u16
be_i16 s o = do n ← be_u16 s o; some (if ltb n (2 ^ 15) then pos n else negsuc (2 ^ 16 - 1 - n))

unfoldable pub be_u32 : Bytes → ℕ → Option ℕ
be_u32 s o = do
  a ← get_elem? s o
  b ← get_elem? s (o + 1)
  c ← get_elem? s (o + 2)
  d ← get_elem? s (o + 3)
  some (((a * 256 + b) * 256 + c) * 256 + d)

abbrev pub saturated : ℕ → ℕ
saturated n = min n (2 ^ 64 - 1)

unfoldable pub b64_decode_cap : ℕ → ℕ
b64_decode_cap n = saturated (n * 3) / 4 + 4

unfoldable pub b64_encoded_len : ℕ → ℕ
b64_encoded_len raw_len = (raw_len + 2) / 3 * 4

-- The first pass of `hex_grouped`: how many separators there will be.
unfoldable pub count_seps : ℕ → ℕ → List ℕ → ℕ
count_seps hex_len covered [] = 0
count_seps hex_len covered (g ∷ gs) =
    let rest = count_seps hex_len (min (covered + g) hex_len) gs in
    if g == 0 || leb hex_len covered then 0 else (if ltb 0 covered then 1 else 0) + rest

-- The second pass: the digits in groups, and what no group takes behind them.
unfoldable pub write_groups : Bytes → Bool → List ℕ → Bytes → Bytes
write_groups sep first [] digits = digits
write_groups sep first (g ∷ gs) digits =
    let rest = write_groups sep false gs (drop g digits) in
    if g == 0 || is_empty digits
    then digits
    else (if first then [] else sep) ++ (take g digits ++ rest)

-- the bytes that are reserved for the raw writes
unfoldable pub grouped_reserved : ℕ → Bytes → List ℕ → ℕ
unfolding count_seps
grouped_reserved count sep groups = count * 2 + count_seps (count * 2) 0 groups * length sep

unfoldable pub hex_grouped : Bytes → Bool → Bytes → List ℕ → Bytes
unfolding write_groups
hex_grouped bytes upper sep groups = write_groups sep true groups (hex_compact bytes upper)
