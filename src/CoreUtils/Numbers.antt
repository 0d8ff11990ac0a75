-- ===== src/CoreUtils/Numbers.antt =====
-- crates/core-utils/src/math.rs: numbers in decimal, identifiers and cuts of texts. A buffer is the
-- list of its bytes; a write outside it would be a panic or worse.
pub mod Decimal
use vpoiskaxroditeley.Prelude.{
  ℕ, zero, suc, ◌+◌, ◌-◌, ◌*◌, ◌/◌, ◌%◌, ◌^◌, Bool, true, false, ◌&&◌, ◌||◌, not, Option, none,
  some, List, [], ◌∷◌, ◌++◌, ◌==◌, ltb, leb, if◌then◌else◌, length, get_or, set, take, min, max,
  bit_and,
}
use vpoiskaxroditeley.Prelude.Int.{ℤ, pos, negsuc}
use vpoiskaxroditeley.Str.{Bytes}

-- the quotient by ten, by a multiply and a shift of u128
unfoldable pub tenth : ℕ → ℕ
tenth n = n * 0xCCCCCCCCCCCCCCCD / 2 ^ 67

-- The loop writes downwards from the end of the buffer: the digits of `uv` before those written. The
-- fuel is the length of the buffer, 20; out of fuel is a write in front of it.
unfoldable pub digits_loop : ℕ → ℕ → Bytes → Option Bytes
unfolding tenth
digits_loop zero uv written = none
digits_loop (suc room) uv written =
    let q = tenth uv in
    let written = (b'0' + (uv - q * 10)) ∷ written in
    let rest = digits_loop room q written in if q == 0 then some written else rest

-- the used part of the buffer, `buf[start..]`
unfoldable pub u64_digits_into : ℕ → Option Bytes
unfolding digits_loop
u64_digits_into uv = digits_loop 20 uv []

abbrev pub unsigned_abs : ℤ → ℕ
unsigned_abs (pos n) = n
unsigned_abs (negsuc n) = suc n

abbrev pub is_negative : ℤ → Bool
is_negative (pos n) = false
is_negative (negsuc n) = true

-- push_int_into, int_to_compact
unfoldable pub int_to_compact : ℤ → Option Bytes
unfolding u64_digits_into
int_to_compact v = elim (u64_digits_into (unsigned_abs v)) [
  | some digits ↦ some (if is_negative v then b'-' ∷ digits else digits)
  | none ↦ none
]

abbrev pub zeros : ℕ → Bytes
zeros zero = []
zeros (suc n) = b'0' ∷ zeros n

-- `10u64.checked_pow(width).unwrap_or(u64::MAX)`
abbrev pub magnitude : ℕ → ℕ
magnitude width = if ltb (10 ^ width) (2 ^ 64) then 10 ^ width else 2 ^ 64 - 1

unfoldable pub push_int_padded_into : ℤ → ℕ → Option Bytes
unfolding u64_digits_into
push_int_padded_into v width =
    let a = unsigned_abs v in
    elim (u64_digits_into a) [
      | none ↦ none
      | some digits ↦
          let sign = if is_negative v then b'-' ∷ [] else [] in
          some (
            if ltb a (magnitude width)
            then sign ++ (zeros (width - (length digits + length sign)) ++ digits)
            else (if is_negative v then b'-' else b'+') ∷ digits)
    ]

-- the first `width` bytes of the buffer, the last digit written first
unfoldable pub fixed_loop : ℕ → ℕ → Bytes → Bytes
unfolding tenth
fixed_loop zero n written = written
fixed_loop (suc i) n written = let q = tenth n in fixed_loop i q ((b'0' + (n - q * 10)) ∷ written)

unfoldable pub u64_digits_fixed_into : ℕ → ℕ → Bytes
unfolding fixed_loop
u64_digits_fixed_into n width = fixed_loop width n []

unfoldable pub bump_u32_id : ℕ → ℕ
bump_u32_id n = max ((n + 1) % 2 ^ 32) 1

unfoldable pub bump_u64_id : ℕ → ℕ
bump_u64_id n = max ((n + 1) % 2 ^ 64) 1

-- the loop of `floor_char_boundary_bytes`, from a position down
unfoldable pub boundary_from : Bytes → ℕ → ℕ
boundary_from s zero = zero
boundary_from s (suc i) =
    let lower = boundary_from s i in
    if bit_and (get_or s (suc i) 0) 0xC0 == 0x80 then lower else suc i

unfoldable pub floor_char_boundary : Bytes → ℕ → ℕ
unfolding boundary_from
floor_char_boundary s limit = if leb (length s) limit then length s else boundary_from s limit

unfoldable pub truncate_str : Bytes → ℕ → Bytes
unfolding floor_char_boundary
truncate_str s cap = take (floor_char_boundary s cap) s
