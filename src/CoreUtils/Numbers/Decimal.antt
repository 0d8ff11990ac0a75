-- ===== src/CoreUtils/Numbers/Decimal.antt =====
-- The decimal digits that are written, read back.
use vpoiskaxroditeley.Prelude.{
  ℕ, zero, suc, ◌+◌, ◌-◌, ◌*◌, ◌/◌, ◌^◌, ◌≤◌, ◌<◌, ◌≡◌, refl, ap, ◌∙◌, true, false, some, [], ◌∷◌,
  ◌==◌, length, arith, Bool-cases, inl, inr,
}
use vpoiskaxroditeley.Str.{Bytes, is_digit, is_empty}
use vpoiskaxroditeley.CoreUtils.Numbers.{tenth, digits_loop, u64_digits_into}
use native.Mathlib.Nat.{pow-succ'}

tenth_lem : (n : ℕ) → n < 2 ^ 64 → tenth n ≡ n / 10
unfolding tenth
tenth_lem n h = omega arith

-- What the digits of a number are worth, from a value read so far.
unfoldable pub worth : ℕ → Bytes → ℕ
worth acc [] = acc
worth acc (c ∷ cs) = worth (acc * 10 + (c - b'0')) cs

abbrev pub AllDigits : Bytes → Type 0
AllDigits [] = Unit
AllDigits (c ∷ cs) = (is_digit c ≡ true) × AllDigits cs

digits_loop_lem :
    (room n : ℕ) (written : Bytes)
    → n < 2 ^ 64
    → n < 10 ^ room
    → 0 < room
    → AllDigits written
    → (out : Bytes) × (digits_loop room n written ≡ some out)
      × AllDigits out
      × (worth 0 out ≡ worth n written)
      × (length out ≤ length written + room)
      × (is_empty out ≡ false)
unfolding digits_loop worth
digits_loop_lem zero n written small fits p h = absurd (omega arith)
digits_loop_lem (suc room) n written small fits p h =
    let q = tenth n in
    let d = b'0' + (n - q * 10) in
    let eq : q ≡ n / 10 = tenth_lem n small in
    let digit : is_digit d ≡ true = ground arith in
    let back : q * 10 + (d - b'0') ≡ n = omega arith in
    let power : 10 ^ suc room ≡ 10 * 10 ^ room = pow-succ' 10 room in
    elim (Bool-cases (q == 0)) [
      | inl e ↦
          let none_left : 0 * 10 + (d - b'0') ≡ n = ground arith in
          (
            d ∷ written,
            rw e refl,
            (digit, h),
            ap (λ t. worth t written) none_left,
            omega arith,
            refl,
          )
      | inr e ↦
          let more : 0 < q = ground arith in
          let (out, run, all, value, short, full) =
            digits_loop_lem room q (d ∷ written) (omega arith) (omega arith)
              (room_left room n fits (omega arith)) (digit, h) in
          (out, rw e run, all, value ∙ ap (λ t. worth t written) back, omega arith, full)
    ]
  where
    room_left : (room n : ℕ) → n < 10 ^ suc room → 0 < n / 10 → 0 < room
    room_left zero n fits more = absurd (omega arith)
    room_left (suc r) n fits more = omega arith

-- Every u64 fits the buffer of twenty bytes, whatever its digits: the loop ends before it would write
-- in front of the buffer, what it writes are digits, at least one, and they are worth the number.
pub u64_digits_into_total :
    (n : ℕ)
    → n < 2 ^ 64
    → (out : Bytes) × (u64_digits_into n ≡ some out)
      × AllDigits out
      × (worth 0 out ≡ n)
      × (length out ≤ 20)
      × (is_empty out ≡ false)
unfolding u64_digits_into worth
u64_digits_into_total n small = digits_loop_lem 20 n [] small (omega arith) (omega arith) tt
