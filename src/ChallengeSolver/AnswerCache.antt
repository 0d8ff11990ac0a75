-- ===== src/ChallengeSolver/AnswerCache.antt =====
-- crates/challenge-solver/src/cache.rs: the cache of answers, a table of slots without locks. The
-- atomic words are plain numbers; `lookup` and `record` are given whole, and also as their single loads
-- and stores, which threads interleave. usize has 64 bits.
pub mod Answers
pub mod Race
use vpoiskaxroditeley.Prelude.{
  ℕ, zero, suc, ◌+◌, ◌-◌, ◌*◌, ◌/◌, ◌%◌, ◌^◌, Bool, true, false, Option, none, some, List, [], ◌∷◌,
  ◌==◌, leb, if◌then◌else◌, length, get_or, set, replicate, max, bit_and, ◌⊎◌, inl, inr,
}

pub record RingSlot : Type 0 where
  pub key : ℕ
  pub xy : ℕ

pub record AnswerCache : Type 0 where
  pub slots : List RingSlot
  pub mask : ℕ
  pub len : ℕ

abbrev pub empty_slot : RingSlot
empty_slot = record { key = 0; xy = 0 }

-- usize::next_power_of_two, by doubling at most 64 times
unfoldable pub power_from : ℕ → ℕ → ℕ → ℕ
power_from zero p n = p
power_from (suc fuel) p n = let next = power_from fuel (2 * p) n in if leb n p then p else next

unfoldable pub next_power_of_two : ℕ → ℕ
unfolding power_from
next_power_of_two n = power_from 64 1 n

unfoldable pub new : ℕ → AnswerCache
unfolding next_power_of_two
new cap =
    let pow = next_power_of_two (max cap 64) in
    record { slots = replicate pow empty_slot; mask = pow - 1; len = 0 }

abbrev pub index : ℕ → AnswerCache → ℕ
index key c = bit_and key c.mask

-- The slot of a key; an index out of range would be a panic.
abbrev pub slot_of : ℕ → AnswerCache → RingSlot
slot_of key c = get_or c.slots (index key c) empty_slot

abbrev pub answer_of : ℕ → ℕ × ℕ
answer_of xy = (xy / 2 ^ 32, xy % 2 ^ 32)

unfoldable pub lookup : ℕ → AnswerCache → Option (ℕ × ℕ)
lookup key c =
    let slot = slot_of key c in if slot.key == key then some (answer_of slot.xy) else none

unfoldable pub record_answer : ℕ → ℕ → ℕ → AnswerCache → AnswerCache
record_answer key x y c =
    let old_key = (slot_of key c).key in
    if old_key == key then c else record c {
      slots = set c.slots (index key c) (record { key = key; xy = x * 2 ^ 32 + y });
      len = if old_key == 0 then (c.len + 1) % 2 ^ 64 else c.len;
    }

pub data OutcomeKind : Type 0 where
  computed : (ssd : ℕ) → OutcomeKind
  cache_hit : OutcomeKind

pub record SliderOutcome : Type 0 where
  pub x : ℕ
  pub y : ℕ
  pub kind : OutcomeKind

-- What the slider solver found: a place and its distance.
pub record Hit : Type 0 where
  pub x : ℕ
  pub y : ℕ
  pub ssd : ℕ

-- `inl` is the solver's error. The key of the payload and the solver's answer, which is asked for only
-- on a miss, are arguments.
unfoldable pub solve_with_cache :
    {E : Type 0} → ℕ → (Unit {0} → E ⊎ Hit) → AnswerCache → (E ⊎ SliderOutcome) × AnswerCache
unfolding lookup record_answer
solve_with_cache key solve c = elim (lookup key c) [
  | some (x, y) ↦ (inr (record { x = x; y = y; kind = cache_hit }), c)
  | none ↦ elim (solve tt) [
    | inl e ↦ (inl e, c)
    | inr hit ↦ (
      inr (record { x = hit.x; y = hit.y; kind = computed hit.ssd }),
      record_answer key hit.x hit.y c,
    )
  ]
]
