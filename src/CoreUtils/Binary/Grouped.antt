-- ===== src/CoreUtils/Binary/Grouped.antt =====
-- The raw writes of `hex_grouped` against its reservation.
use vpoiskaxroditeley.Prelude.{
  ℕ, zero, suc, ◌+◌, ◌*◌, ◌≡◌, refl, ap, ◌∙◌, Bool, true, false, ◌||◌, List, [], ◌∷◌, ◌++◌, ◌==◌,
  leb, ltb, if◌then◌else◌, length, length-append, length-take, length-drop, take, drop, min, arith,
  Bool-cases, inl, inr,
}
use vpoiskaxroditeley.Str.{Bytes, is_empty}
use vpoiskaxroditeley.CoreUtils.Encoding.{hex_compact}
use vpoiskaxroditeley.CoreUtils.Binary.{count_seps, write_groups, grouped_reserved, hex_grouped}

is_empty_covered :
    (hex_len covered : ℕ) (digits : Bytes)
    → covered + length digits ≡ hex_len
    → is_empty digits ≡ leb hex_len covered
is_empty_covered hex_len covered [] h = ground arith
is_empty_covered hex_len covered (x ∷ digits) h = ground arith

length_sep :
    (covered : ℕ) (sep t : Bytes)
    → length ((if covered == 0 then [] else sep) ++ t)
      ≡ (if ltb 0 covered then 1 else 0) * length sep + length t
length_sep zero sep t = omega arith
length_sep (suc covered) sep t =
    let later : (suc covered == 0) ≡ false = ground arith in
    let first : ltb 0 (suc covered) ≡ true = ground arith in
    rw (later, first, length-append sep t) (omega arith)

distributed : (a b c : ℕ) → (a + b) * c ≡ a * c + b * c
distributed a b c = omega arith

write_groups-count_seps :
    (sep : Bytes) (hex_len covered : ℕ) (groups : List ℕ) (digits : Bytes)
    → covered + length digits ≡ hex_len
    → length (write_groups sep (covered == 0) groups digits)
      ≡ length digits + count_seps hex_len covered groups * length sep
unfolding write_groups count_seps
write_groups-count_seps sep hex_len covered [] digits h = omega arith
write_groups-count_seps sep hex_len covered (g ∷ gs) digits h =
    let e = is_empty_covered hex_len covered digits h in
    elim (Bool-cases (g == 0 || leb hex_len covered)) [
      | inl f ↦ rw (write_groups, count_seps, e, f) (omega arith)
      | inr f ↦
          let next = min (covered + g) hex_len in
          let whole = length-drop g digits in
          let more : (next == 0) ≡ false = ground arith in
          let later = write_groups-count_seps sep hex_len next gs (drop g digits) (omega arith) in
          let rest = rw more at later in
          let part =
            length_sep covered sep (take g digits ++ write_groups sep false gs (drop g digits)) in
          let parts = length-append (take g digits) (write_groups sep false gs (drop g digits)) in
          let taken = length-take g digits in
          let split =
            distributed (if ltb 0 covered then 1 else 0) (count_seps hex_len next gs)
              (length sep) in
          rw (write_groups, count_seps, e, f, part, parts, rest, whole, taken, split) (omega arith)
    ]

length-hex_compact :
    (bytes : Bytes) (upper : Bool) → length (hex_compact bytes upper) ≡ length bytes * 2
unfolding hex_compact
length-hex_compact [] upper = refl
length-hex_compact (b ∷ bytes) upper = let rest = length-hex_compact bytes upper in omega arith

-- Grouped hexadecimal writes through its raw pointer exactly the bytes that were reserved: two for each
-- byte and a separator wherever the first pass counted one, whatever groups are asked for.
pub length-hex_grouped :
    (bytes : Bytes) (upper : Bool) (sep : Bytes) (groups : List ℕ)
    → length (hex_grouped bytes upper sep groups) ≡ grouped_reserved (length bytes) sep groups
unfolding hex_grouped grouped_reserved
length-hex_grouped bytes upper sep groups =
    let digits = length-hex_compact bytes upper in
    write_groups-count_seps sep (length bytes * 2) 0 groups (hex_compact bytes upper) (omega arith)
    ∙ ap (λ n. n + count_seps (length bytes * 2) 0 groups * length sep) digits
