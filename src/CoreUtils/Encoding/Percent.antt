-- ===== src/CoreUtils/Encoding/Percent.antt =====
-- Percent and form encoding against the decoder, the reserved size, and hexadecimal.
use vpoiskaxroditeley.Prelude.{
  ℕ, suc, ◌+◌, ◌*◌, ◌/◌, ◌%◌, ◌<◌, ◌≡◌, refl, sym, ap, ◌∙◌, Bool, true, false, ◌&&◌, not, [], ◌∷◌,
  ◌++◌, ◌==◌, ==_iff, length, length-append, get_or, bit_and, bit_or, arith, All, passes,
  passes_sound, Bool-cases, inl, inr,
}
use vpoiskaxroditeley.Str.{Bytes}
use vpoiskaxroditeley.Str.Split.{contains}
use vpoiskaxroditeley.CoreUtils.Encoding.{
  hex_table, hex_upper, hex_val, hex_nibble, hex_byte, hex_compact, is_unreserved, escape_byte,
  percent_encode, escapes, percent_encode_reserved, percent_encode_into, percent_decode_bytes,
  percent_decode, form_urlencoded_encode,
}

abbrev pub IsByte : ℕ → Type 0
IsByte b = b < 256

abbrev upper_digit : ℕ → ℕ
upper_digit n = get_or hex_upper n 0

-- What the decoder needs of the two digits that the encoder writes for a byte.
abbrev digits_read_back : ℕ → Bool
digits_read_back b =
    not (hex_nibble (upper_digit (b / 16)) == 255)
    && not (hex_nibble (upper_digit (bit_and b 0x0f)) == 255)
    && bit_or (hex_nibble (upper_digit (b / 16)) * 16 % 256)
        (hex_nibble (upper_digit (bit_and b 0x0f)))
      == b

digits_table : passes digits_read_back 256 ≡ true
unfolding passes hex_nibble
digits_table = refl

-- A byte that stands for itself.
decode_plain :
    (plus : Bool) (b : ℕ) (rest : Bytes)
    → (b == b'%') ≡ false
    → (plus && b == b'+') ≡ false
    → percent_decode_bytes plus (b ∷ rest) ≡ b ∷ percent_decode_bytes plus rest
unfolding percent_decode_bytes
decode_plain plus b [] h k = rw k
decode_plain plus b (x ∷ []) h k = rw k
decode_plain plus b (x ∷ y ∷ r) h k = rw (k, h)

decode-escape_byte :
    (plus : Bool) (b : ℕ) (rest : Bytes)
    → IsByte b
    → percent_decode_bytes plus (escape_byte b ++ rest) ≡ b ∷ percent_decode_bytes plus rest
unfolding percent_decode_bytes escape_byte
decode-escape_byte plus b rest h =
    ground (arith, passes_sound digits_read_back 256 digits_table b h)

decode_plus :
    (rest : Bytes) → percent_decode_bytes true (b'+' ∷ rest) ≡ b' ' ∷ percent_decode_bytes true rest
unfolding percent_decode_bytes
decode_plus [] = refl
decode_plus (x ∷ []) = refl
decode_plus (x ∷ y ∷ r) = refl

percent_decode_bytes-percent_encode :
    (s : Bytes) → All IsByte s → percent_decode_bytes false (percent_encode s) ≡ s
unfolding percent_encode
percent_decode_bytes-percent_encode [] h = unfold percent_decode_bytes in refl
percent_decode_bytes-percent_encode (b ∷ bs) h = elim (Bool-cases (is_unreserved b)) [
  | inl e ↦ rw e (
      decode_plain false b (percent_encode bs) (ground arith) refl
      ∙ ap (◌∷◌ b) (percent_decode_bytes-percent_encode bs h.1))
  | inr e ↦ rw e (
      decode-escape_byte false b (percent_encode bs) h.0
      ∙ ap (◌∷◌ b) (percent_decode_bytes-percent_encode bs h.1))
]

-- The loop alone gives the answer of the fast path for a text with no `%`.
percent_decode_bytes_plain :
    (s : Bytes) → contains b'%' s ≡ false → percent_decode_bytes false s ≡ s
percent_decode_bytes_plain [] h = unfold percent_decode_bytes in refl
percent_decode_bytes_plain (b ∷ bs) h =
    decode_plain false b bs (ground arith) refl
    ∙ ap (◌∷◌ b) (percent_decode_bytes_plain bs (ground arith))

percent_decode-eq-bytes : (s : Bytes) → percent_decode s ≡ percent_decode_bytes false s
unfolding percent_decode
percent_decode-eq-bytes s = elim (Bool-cases (contains b'%' s)) [
  | inl e ↦ rw e
  | inr e ↦ rw e (sym (percent_decode_bytes_plain s e))
]

-- Decoding a percent-encoded byte string gives it back, whatever bytes it holds.
pub percent_decode-percent_encode :
    (s : Bytes) → All IsByte s → percent_decode (percent_encode s) ≡ s
percent_decode-percent_encode s h =
    percent_decode-eq-bytes _ ∙ percent_decode_bytes-percent_encode s h

-- Form decoding (`+` read as a space) gives a form-encoded byte string back.
pub percent_decode_bytes-form_urlencoded_encode :
    (s : Bytes) → All IsByte s → percent_decode_bytes true (form_urlencoded_encode s) ≡ s
unfolding form_urlencoded_encode
percent_decode_bytes-form_urlencoded_encode [] h = unfold percent_decode_bytes in refl
percent_decode_bytes-form_urlencoded_encode (b ∷ bs) h =
    let rest = form_urlencoded_encode bs in
    ground (
      arith,
      decode_plain true b rest,
      decode_plus rest,
      decode-escape_byte true b rest h.0,
      percent_decode_bytes-form_urlencoded_encode bs h.1,
    )

-- The encoder writes exactly the bytes that it reserved behind what `out` held.
pub length-percent_encode_into :
    (src out : Bytes)
    → length (percent_encode_into src out) ≡ length out + percent_encode_reserved src
unfolding percent_encode_into percent_encode_reserved
length-percent_encode_into src out = rw length-append (omega (arith, size src))
  where
    size : (s : Bytes) → length (percent_encode s) ≡ length s + escapes s * 2
    size [] = refl
    size (b ∷ bs) = ground (arith, size bs)

digit_at :
    (front rest : Bytes) (b : ℕ) (upper : Bool)
    → (get_or (hex_compact (front ++ b ∷ rest) upper) (length front * 2) 0
        ≡ get_or (hex_table upper) (b / 16) 0)
      × (get_or (hex_compact (front ++ b ∷ rest) upper) (length front * 2 + 1) 0
          ≡ get_or (hex_table upper) (bit_and b 0x0f) 0)
unfolding hex_compact
digit_at [] rest b upper = (refl, refl)
digit_at (x ∷ xs) rest b upper =
    let e : length (x ∷ xs) * 2 ≡ suc (suc (length xs * 2)) = omega arith in
    let f : length (x ∷ xs) * 2 + 1 ≡ suc (suc (length xs * 2 + 1)) = omega arith in
    let (first, second) = digit_at xs rest b upper in (rw e first, rw f second)

abbrev digit_values : Bool → ℕ → Bool
digit_values upper b =
    (hex_val (get_or (hex_table upper) (b / 16) 0) * 16 % 256
        + hex_val (get_or (hex_table upper) (bit_and b 0x0f) 0))
      % 256
    == b

digit_values_table : (upper : Bool) → passes (digit_values upper) 256 ≡ true
unfolding passes hex_val
digit_values_table true = refl
digit_values_table false = refl

-- `hex_byte` at the place of a byte's two digits in a hexadecimal text gives that byte, in either
-- case of the digits and whatever stands before and behind.
pub hex_byte-hex_compact :
    (front : Bytes) (b : ℕ) (back : Bytes) (upper : Bool)
    → IsByte b
    → hex_byte (hex_compact (front ++ b ∷ back) upper) (length front * 2) ≡ b
hex_byte-hex_compact front b back upper h =
    let (first, second) = digit_at front back b upper in
    let e = (==_iff _ b).0 (passes_sound (digit_values upper) 256 (digit_values_table upper) b h) in
    unfold hex_byte in rw (first, second) e
