-- ===== src/CoreUtils/Rng.antt =====
-- crates/core-utils/src/rng.rs: the integer generators and their reduction to a range. u64 arithmetic
-- wraps; the products of u128 do not reach their bound.
pub mod Range
use vpoiskaxroditeley.Prelude.{
  ℕ, ◌+◌, ◌-◌, ◌*◌, ◌/◌, ◌%◌, ◌^◌, Bool, Option, none, some, List, [], ◌∷◌, ◌==◌, leb,
  if◌then◌else◌, length, get_elem?, bit_xor,
}

abbrev pub golden : ℕ
golden = 0x9E3779B97F4A7C15

abbrev pub splitmix_m1 : ℕ
splitmix_m1 = 0xBF58476D1CE4E5B9

abbrev pub splitmix_m2 : ℕ
splitmix_m2 = 0x94D049BB133111EB

-- U64Ext::mix
unfoldable pub mix : ℕ → ℕ
mix z0 =
    let z1 = bit_xor z0 (z0 / 2 ^ 30) * splitmix_m1 % 2 ^ 64 in
    let z2 = bit_xor z1 (z1 / 2 ^ 27) * splitmix_m2 % 2 ^ 64 in bit_xor z2 (z2 / 2 ^ 31)

unfoldable pub mulhi_bounded : ℕ → ℕ → ℕ
mulhi_bounded v n = v * n / 2 ^ 64

-- The integer state of SplitMix64Rng; `next_u64` gives the value and the state after it.
unfoldable pub stepped : ℕ → ℕ → ℕ
stepped state n = (state + n * golden % 2 ^ 64) % 2 ^ 64

unfoldable pub next_u64 : ℕ → ℕ × ℕ
unfolding mix
next_u64 state = let state = (state + golden) % 2 ^ 64 in (mix state, state)

unfoldable pub next_range : ℕ → ℕ → ℕ → ℕ × ℕ
unfolding next_u64 mulhi_bounded
next_range lo hi state =
    if leb hi lo
    then (lo, state)
    else (let (v, state) = next_u64 state in (lo + mulhi_bounded v (hi - lo) % 2 ^ 32, state))

unfoldable pub next_below : ℕ → ℕ → ℕ × ℕ
unfolding next_u64 mulhi_bounded
next_below n state =
    if n == 0 then (0, state) else (let (v, state) = next_u64 state in (mulhi_bounded v n, state))

unfoldable pub mix_to_range : ℕ → ℕ → ℕ → ℕ
mix_to_range seed salt bound =
    let mixed = (seed * golden % 2 ^ 64 + salt * splitmix_m1 % 2 ^ 64) % 2 ^ 64 in
    if bound == 0 then 0 else mixed / 2 ^ 32 * bound / 2 ^ 32

-- Identity, by its number
unfoldable pub ident_at : ℕ → ℕ → ℕ
unfolding mix
ident_at id salt = bit_xor (mix id) (salt * golden % 2 ^ 64)

unfoldable pub u64_in : ℕ → ℕ → ℕ → ℕ
unfolding mix mulhi_bounded
u64_in id lo hi = if leb hi lo then lo else lo + mulhi_bounded (mix id) (hi - lo)

-- An index out of range would be a panic.
unfoldable pub pick {ℓ} : {A : Type ℓ} → ℕ → List A → Option A
unfolding mix mulhi_bounded
pick id items = get_elem? items (mulhi_bounded (mix id) (length items))
