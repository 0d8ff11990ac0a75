-- ===== src/CoreUtils/Encoding.antt =====
-- crates/core-utils/src/encoding.rs: hexadecimal, percent and form encodings, ASCII case.
-- `b >> 4` is `b / 16`; writes through raw pointers are appends, and their reserved sizes are
-- functions of their own.
pub mod Percent
pub mod Case
use vpoiskaxroditeley.Prelude.{
  ℕ, ◌+◌, ◌-◌, ◌*◌, ◌/◌, ◌%◌, Bool, true, false, ◌&&◌, ◌||◌, not, List, [], ◌∷◌, ◌++◌, ◌==◌, leb,
  if◌then◌else◌, length, get_or, take, drop, Option, none, some, bit_and, bit_or, bit_xor, map, ltb,
  get_elem?, Option, none, some,
}
use vpoiskaxroditeley.Str.{
  Bytes, codes, is_digit, is_lower, is_upper, is_alphanumeric, eq_ignore_ascii_case,
}
use vpoiskaxroditeley.Str.Split.{contains}

unfoldable pub hex_val : ℕ → ℕ
hex_val c =
    if is_digit c
    then c - b'0'
    else if leb b'a' c && leb c b'f'
    then c - b'a' + 10
    else if leb b'A' c && leb c b'F'
    then c - b'A' + 10
    else 0

-- HEX_LOWER and HEX_UPPER
abbrev pub hex_lower : Bytes
hex_lower = codes "0123456789abcdef"

abbrev pub hex_upper : Bytes
hex_upper = codes "0123456789ABCDEF"

abbrev pub hex_table : Bool → Bytes
hex_table upper = if upper then hex_upper else hex_lower

-- HEX_NIBBLE: 255 marks what is no digit.
unfoldable pub hex_nibble : ℕ → ℕ
hex_nibble c =
    if is_digit c
    then c - b'0'
    else if leb b'a' c && leb c b'f'
    then c - b'a' + 10
    else if leb b'A' c && leb c b'F'
    then c + 32 - b'a' + 10
    else 255

-- hex_into, hex_compact: two digits for each byte
unfoldable pub hex_compact : Bytes → Bool → Bytes
hex_compact [] upper = []
hex_compact (b ∷ bs) upper =
    get_or (hex_table upper) (b / 16) 0
    ∷ get_or (hex_table upper) (bit_and b 0x0f) 0
    ∷ hex_compact bs upper

-- `hex_byte` at the index of the first of two digits, in u8 arithmetic
unfoldable pub hex_byte : Bytes → ℕ → ℕ
unfolding hex_val
hex_byte s i = (hex_val (get_or s i 0) * 16 % 256 + hex_val (get_or s (i + 1) 0)) % 256

unfoldable pub ascii_lower_byte : ℕ → ℕ
ascii_lower_byte b = b + 0x20 * (if is_upper b then 1 else 0)

unfoldable pub ascii_upper_byte : ℕ → ℕ
ascii_upper_byte b = b - 0x20 * (if is_lower b then 1 else 0)

-- the mask that the loop of `push_ascii_case_into` applies by `^`
unfoldable pub case_byte : Bool → ℕ → ℕ
case_byte upper b =
    let mask =
      if upper
      then 0x20 * (if is_lower b then 1 else 0)
      else 0x20 * (if is_upper b then 1 else 0) in
    bit_xor b mask

unfoldable pub push_ascii_case_into : Bytes → Bytes → Bool → Bytes
unfolding case_byte
push_ascii_case_into out s upper = out ++ map (case_byte upper) s

unfoldable pub ascii_upper_compact : Bytes → Bytes
unfolding push_ascii_case_into
ascii_upper_compact s = push_ascii_case_into [] s true

unfoldable pub ascii_lower_compact : Bytes → Bytes
unfolding push_ascii_case_into
ascii_lower_compact s = push_ascii_case_into [] s false

unfoldable pub eq_ci : Bytes → Bytes → Bool
unfolding eq_ignore_ascii_case
eq_ci xs ys = length xs == length ys && eq_ignore_ascii_case xs ys

abbrev pub is_unreserved : ℕ → Bool
is_unreserved b = is_alphanumeric b || b == b'-' || b == b'_' || b == b'.' || b == b'~'

-- what the loop of `percent_encode_into` writes for one byte
unfoldable pub escape_byte : ℕ → Bytes
escape_byte b = b'%' ∷ get_or hex_upper (b / 16) 0 ∷ get_or hex_upper (bit_and b 0x0f) 0 ∷ []

unfoldable pub percent_encode : Bytes → Bytes
unfolding escape_byte
percent_encode [] = []
percent_encode (b ∷ bs) = (if is_unreserved b then b ∷ [] else escape_byte b) ++ percent_encode bs

unfoldable pub escapes : Bytes → ℕ
escapes [] = 0
escapes (b ∷ bs) = (if not (is_unreserved b) then 1 else 0) + escapes bs

-- the bytes that `percent_encode_into` reserves before it writes through a raw pointer
unfoldable pub percent_encode_reserved : Bytes → ℕ
unfolding escapes
percent_encode_reserved src = length src + escapes src * 2

unfoldable pub percent_encode_into : Bytes → Bytes → Bytes
unfolding percent_encode
percent_encode_into src out = out ++ percent_encode src

-- The two bytes behind a `%` are read only where both are there (`i + 2 < bytes.len()`).
unfoldable pub percent_decode_bytes : Bool → Bytes → Bytes
percent_decode_bytes plus [] = []
percent_decode_bytes plus (b ∷ []) = (if plus && b == b'+' then b' ' else b) ∷ []
percent_decode_bytes plus (b ∷ h ∷ []) =
    (if plus && b == b'+' then b' ' else b) ∷ percent_decode_bytes plus (h ∷ [])
percent_decode_bytes plus (b ∷ h ∷ l ∷ r) =
    let next = percent_decode_bytes plus (h ∷ l ∷ r) in
    let skip = percent_decode_bytes plus r in
    let hi = hex_nibble h in
    let lo = hex_nibble l in
    if plus && b == b'+'
    then b' ' ∷ next
    else if b == b'%' && not (hi == 255) && not (lo == 255)
    then bit_or (hi * 16 % 256) lo ∷ skip
    else b ∷ next

unfoldable pub percent_decode : Bytes → Bytes
unfolding percent_decode_bytes
percent_decode src = if not (contains b'%' src) then src else percent_decode_bytes false src

abbrev pub form_plain : ℕ → Bool
form_plain b = is_alphanumeric b || b == b'*' || b == b'-' || b == b'.' || b == b'_'

unfoldable pub form_urlencoded_encode : Bytes → Bytes
unfolding escape_byte
form_urlencoded_encode [] = []
form_urlencoded_encode (b ∷ bs) =
    (if form_plain b then b ∷ [] else if b == b' ' then b'+' ∷ [] else escape_byte b)
    ++ form_urlencoded_encode bs

unfoldable pub starts_with_ci : Bytes → Bytes → Bool
unfolding eq_ci
starts_with_ci s prefix = leb (length prefix) (length s) && eq_ci (take (length prefix) s) prefix

unfoldable pub ends_with_ci : Bytes → Bytes → Bool
unfolding eq_ci
ends_with_ci s suffix =
    leb (length suffix) (length s) && eq_ci (drop (length s - length suffix) s) suffix

unfoldable pub strip_prefix_ci : Bytes → Bytes → Option Bytes
unfolding starts_with_ci
strip_prefix_ci s prefix = if starts_with_ci s prefix then some (drop (length prefix) s) else none
