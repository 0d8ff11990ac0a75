-- ===== src/Str/Utf8.antt =====
-- The test of `str::from_utf8`: the well-formed sequences of the Unicode standard's table 3-7.
use vpoiskaxroditeley.Prelude.{
  ℕ, Bool, true, false, ◌&&◌, Option, none, some, List, [], ◌∷◌, ◌==◌, ltb, leb, if◌then◌else◌,
}
use vpoiskaxroditeley.Str.{Bytes}

abbrev within : ℕ → ℕ → ℕ → Bool
within lo hi b = leb lo b && leb b hi

abbrev continuation : ℕ × ℕ
continuation = (0x80, 0xBF)

-- the ranges of the bytes that follow a first byte
unfoldable pub followers : ℕ → Option (List (ℕ × ℕ))
followers b =
    if ltb b 0x80
    then some []
    else if within 0xC2 0xDF b
    then some (continuation ∷ [])
    else if b == 0xE0
    then some ((0xA0, 0xBF) ∷ continuation ∷ [])
    else if b == 0xED
    then some ((0x80, 0x9F) ∷ continuation ∷ [])
    else if within 0xE1 0xEF b
    then some (continuation ∷ continuation ∷ [])
    else if b == 0xF0
    then some ((0x90, 0xBF) ∷ continuation ∷ continuation ∷ [])
    else if within 0xF1 0xF3 b
    then some (continuation ∷ continuation ∷ continuation ∷ [])
    else if b == 0xF4
    then some ((0x80, 0x8F) ∷ continuation ∷ continuation ∷ [])
    else none

unfoldable pub utf8_from : List (ℕ × ℕ) → Bytes → Bool
unfolding followers
utf8_from [] [] = true
utf8_from ((lo, hi) ∷ rs) [] = false
utf8_from ((lo, hi) ∷ rs) (b ∷ bs) = let rest = utf8_from rs bs in within lo hi b && rest
utf8_from [] (b ∷ bs) = elim (followers b) [ some rs ↦ utf8_from rs bs | none ↦ false ]

unfoldable pub is_utf8 : Bytes → Bool
unfolding utf8_from
is_utf8 bs = utf8_from [] bs
