-- ===== src/CoreUtils/Binary/Leb.antt =====
-- The bytes that a LEB128 number takes.
use vpoiskaxroditeley.Prelude.{
  ℕ, zero, suc, ◌+◌, ◌-◌, ◌*◌, ◌%◌, ◌^◌, ◌≤◌, ◌<◌, ◌≡◌, refl, subst, Bool, true, false, Option,
  none, some, [], ◌∷◌, ◌==◌, ltb, if◌then◌else◌, length, drop, length-drop, bit_and, bit_or, arith,
}
use vpoiskaxroditeley.Str.{Bytes}
use vpoiskaxroditeley.CoreUtils.Binary.{leb_loop, leb128}

-- A position behind `from`, of at most `room` bytes, within `rest` bytes.
abbrev pub EndsWithin : ℕ → ℕ → ℕ → Option (ℕ × ℕ) → Type 0
EndsWithin from room rest none = Unit
EndsWithin from room rest (some (v, p)) = (from < p) × (p ≤ from + room) × (p ≤ from + rest)

within_if :
    (b : Bool) (from room rest : ℕ) (x y : Option (ℕ × ℕ))
    → (b ≡ true → EndsWithin from room rest x)
    → (b ≡ false → EndsWithin from room rest y)
    → EndsWithin from room rest (if b then x else y)
within_if true from room rest x y h k = h refl
within_if false from room rest x y h k = k refl

within_next :
    (from room rest : ℕ) (o : Option (ℕ × ℕ))
    → EndsWithin (from + 1) room rest o
    → EndsWithin from (suc room) (suc rest) o
within_next from room rest none h = tt
within_next from room rest (some (v, p)) (a, b, c) = (omega arith, omega arith, omega arith)

leb_loop-EndsWithin :
    (room val shift p : ℕ) (bs : Bytes)
    → shift + 7 * room ≡ 70
    → 0 < room
    → EndsWithin p room (length bs) (leb_loop val shift p bs)
unfolding leb_loop
leb_loop-EndsWithin room val shift p [] h r = tt
leb_loop-EndsWithin zero val shift p (b ∷ bs) h r = absurd (omega arith)
leb_loop-EndsWithin (suc room) val shift p (b ∷ bs) h r =
    let val' = bit_or val (bit_and b 0x7f * 2 ^ shift % 2 ^ 64) in
    within_if (bit_and b 0x80 == 0) p (suc room) (suc (length bs)) (some (val', p + 1))
      (if ltb 63 (shift + 7) then none else leb_loop val' (shift + 7) (p + 1) bs)
      (λ _. (omega arith, omega arith, omega arith))
      (λ _.
        within_if (ltb 63 (shift + 7)) p (suc room) (suc (length bs)) none
          (leb_loop val' (shift + 7) (p + 1) bs) (λ _. tt)
          (λ more.
            within_next p room (length bs) (leb_loop val' (shift + 7) (p + 1) bs)
              (leb_loop-EndsWithin room val' (shift + 7) (p + 1) bs (omega arith) (ground arith))))

-- Reading a LEB128 number fails, or leaves the position behind at least one and at most ten bytes, all
-- of them in the text.
pub leb128-EndsWithin :
    (s : Bytes) (position : ℕ) → EndsWithin position 10 (length s - position) (leb128 s position)
unfolding leb128
leb128-EndsWithin s position =
    subst (λ n. EndsWithin position 10 n (leb128 s position)) (length-drop position s)
      (read (drop position s))
  where
    read :
        (r : Bytes)
        → EndsWithin position 10 (length r) (elim r [
          | [] ↦ none
          | b0 ∷ bs ↦
              if bit_and b0 0x80 == 0
              then some (b0, position + 1)
              else leb_loop (bit_and b0 0x7f) 7 (position + 1) bs
        ])
    read [] = tt
    read (b0 ∷ bs) =
        within_if (bit_and b0 0x80 == 0) position 10 (suc (length bs)) (some (b0, position + 1))
          (leb_loop (bit_and b0 0x7f) 7 (position + 1) bs)
          (λ _. (omega arith, omega arith, omega arith))
          (λ _.
            within_next position 9 (length bs) (leb_loop (bit_and b0 0x7f) 7 (position + 1) bs) (
              leb_loop-EndsWithin 9 (bit_and b0 0x7f) 7 (position + 1) bs (omega arith)
                (omega arith)))
