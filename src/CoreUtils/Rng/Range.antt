-- ===== src/CoreUtils/Rng/Range.antt =====
-- The ranges of the generators.
use vpoiskaxroditeley.Prelude.{
  ℕ, zero, suc, ◌+◌, ◌-◌, ◌*◌, ◌/◌, ◌%◌, ◌^◌, ◌≤◌, ◌<◌, ◌≡◌, refl, sym, true, List, [], ◌∷◌, length,
  get_elem?, bit_xor, arith, is_some, subst,
}
use vpoiskaxroditeley.CoreUtils.Rng.{
  golden, splitmix_m1, splitmix_m2, mix, mulhi_bounded, next_u64, next_range, mix_to_range, pick,
}
use Prim.Native.Nat.{digits, differ, bit_xor-bitwise}
use native.Mathlib.Nat.{two-pow-succ, mul-le-mul_left, mul_comm}

-- A factor under a bound keeps the product under the bound times the other factor.
mul_under : (b v n : ℕ) → v < b → 0 < n → v * n < b * n
mul_under b v n h p =
    let step : n * suc v ≤ n * b = mul-le-mul_left n (omega arith) in
    let apart : n * suc v ≡ n * v + n = omega arith in
    let left : n * v ≡ v * n = mul_comm n v in
    let right : n * b ≡ b * n = mul_comm n b in omega arith

mulhi_bounded_lt : (v n : ℕ) → v < 2 ^ 64 → 0 < n → mulhi_bounded v n < n
unfolding mulhi_bounded
mulhi_bounded_lt v n h p = let under = mul_under (2 ^ 64) v n h p in omega arith

differ_le : (x y : ℕ) → x < 2 → y < 2 → differ x y < 2
differ_le zero y h k = k
differ_le (suc x) zero h k = h
differ_le (suc zero) (suc y) h k = omega arith
differ_le (suc (suc x)) (suc y) h k = absurd (omega arith)

digits_under : (k n a b : ℕ) → a < 2 ^ k → b < 2 ^ k → digits (λ b. b) differ n a b < 2 ^ k
digits_under k zero a b h l = l
digits_under k (suc n) zero b h l = l
digits_under zero (suc n) (suc a) b h l = absurd (omega arith)
digits_under (suc k) (suc n) (suc a) b h l =
    let double : 2 ^ suc k ≡ 2 ^ k + 2 ^ k = two-pow-succ k in
    let bit = differ_le (suc a % 2) (b % 2) (omega arith) (omega arith) in
    let rest = digits_under k n (suc a / 2) (b / 2) (omega arith) (omega arith) in omega arith

bit_xor_under : (a b : ℕ) → a < 2 ^ 64 → b < 2 ^ 64 → bit_xor a b < 2 ^ 64
bit_xor_under a b h l =
    subst (λ t. t < 2 ^ 64) (sym (λ i. bit_xor-bitwise a b i)) (digits_under 64 a a b h l)

mix_lt : (z : ℕ) → z < 2 ^ 64 → mix z < 2 ^ 64
unfolding mix
mix_lt z h =
    let z1 = bit_xor z (z / 2 ^ 30) * splitmix_m1 % 2 ^ 64 in
    let z2 = bit_xor z1 (z1 / 2 ^ 27) * splitmix_m2 % 2 ^ 64 in
    bit_xor_under z2 (z2 / 2 ^ 31) (omega arith) (omega arith)

-- The multiply and shift that reduce a mixed seed stay under the bound, whatever seed and salt are.
pub mix_to_range_lt : (seed salt bound : ℕ) → 0 < bound → mix_to_range seed salt bound < bound
unfolding mix_to_range
mix_to_range_lt seed salt bound p =
    let mixed = (seed * golden % 2 ^ 64 + salt * splitmix_m1 % 2 ^ 64) % 2 ^ 64 in
    let under = mul_under (2 ^ 32) (mixed / 2 ^ 32) bound (omega arith) p in ground arith

-- A draw from a range of u32 is inside it, whatever the state is, and consumes one step of the
-- generator; from an empty range it is the lower end and the state is kept.
pub next_range_bounds :
    (lo hi state : ℕ)
    → hi < 2 ^ 32
    → ((lo < hi)
        → (lo ≤ (next_range lo hi state).0)
          × ((next_range lo hi state).0 < hi)
          × ((next_range lo hi state).1 ≡ (next_u64 state).1))
      × (hi ≤ lo → next_range lo hi state ≡ (lo, state))
unfolding next_range
next_range_bounds lo hi state small = (inside, empty)
  where
    inside :
        lo < hi
        → (lo ≤ (next_range lo hi state).0)
          × ((next_range lo hi state).0 < hi)
          × ((next_range lo hi state).1 ≡ (next_u64 state).1)
    inside h =
        let drawn =
          mulhi_bounded_lt (mix ((state + golden) % 2 ^ 64)) (hi - lo)
            (mix_lt ((state + golden) % 2 ^ 64) (omega arith)) (omega arith) in
        ground arith

    empty : hi ≤ lo → next_range lo hi state ≡ (lo, state)
    empty h = ground arith

is_some_below : {A : Type 0} (l : List A) (i : ℕ) → i < length l → is_some (get_elem? l i) ≡ true
is_some_below [] i h = absurd (omega arith)
is_some_below (x ∷ l) zero h = refl
is_some_below (x ∷ l) (suc i) h = is_some_below l i (omega arith)

-- Picking from a list that is not empty never reaches past its end.
pub pick_in_bounds :
    {A : Type 0} (id : ℕ) (items : List A)
    → id < 2 ^ 64
    → 0 < length items
    → is_some (pick id items) ≡ true
unfolding pick
pick_in_bounds id items h p =
    is_some_below items (mulhi_bounded (mix id) (length items))
      (mulhi_bounded_lt (mix id) (length items) (mix_lt id h) p)
