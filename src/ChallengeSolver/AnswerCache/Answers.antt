-- ===== src/ChallengeSolver/AnswerCache/Answers.antt =====
-- What the cache answers after a recording, and when it is fresh.
use vpoiskaxroditeley.Prelude.{
  ℕ, zero, suc, ◌+◌, ◌*◌, ◌/◌, ◌%◌, ◌^◌, ◌≤◌, ◌<◌, ◌≡◌, ◌≢◌, refl, sym, ap, ap₂, ◌∙◌, subst, true,
  false, Option, none, some, ◌==◌, ==_iff, if◌then◌else◌, length, max, min, bit_and, arith, is_some,
  length-set, length-replicate, get_or-set_self, get_or-set_ne, get_or-replicate, Bool-cases, inl,
  inr,
}
use Prim.Native.Nat.{digits, bit_and-bitwise}
use vpoiskaxroditeley.ChallengeSolver.AnswerCache.{
  RingSlot, AnswerCache, empty_slot, power_from, next_power_of_two, new, index, slot_of, answer_of,
  lookup, record_answer,
}

digits_le : (n a b : ℕ) → digits (λ b. zero) min n a b ≤ b
digits_le zero a b = omega arith
digits_le (suc n) zero b = omega arith
digits_le (suc n) (suc a) b = let rest = digits_le n (suc a / 2) (b / 2) in omega arith

bit_and_le : (a b : ℕ) → bit_and a b ≤ b
bit_and_le a b = subst (λ t. t ≤ b) (sym (λ i. bit_and-bitwise a b i)) (digits_le a a b)

-- The mask is the last index.
abbrev pub IsSized : AnswerCache → Type 0
IsSized c = c.mask + 1 ≡ length c.slots

power_from_pos : (fuel p n : ℕ) → 0 < p → 0 < power_from fuel p n
unfolding power_from
power_from_pos zero p n h = h
power_from_pos (suc fuel) p n h =
    let rest = power_from_pos fuel (2 * p) n (omega arith) in ground arith

pub new-IsSized : (cap : ℕ) → IsSized (new cap)
unfolding new next_power_of_two
new-IsSized cap =
    let some_slots = power_from_pos 64 1 (max cap 64) (omega arith) in
    rw (length-replicate (next_power_of_two (max cap 64)) empty_slot) (omega arith)

index_lt : (key : ℕ) (c : AnswerCache) → IsSized c → index key c < length c.slots
index_lt key c h = let low = bit_and_le key c.mask in omega arith

pub record_answer-IsSized :
    (key x y : ℕ) (c : AnswerCache) → IsSized c → IsSized (record_answer key x y c)
unfolding record_answer
record_answer-IsSized key x y c h = elim (Bool-cases ((slot_of key c).key == key)) [
  | inl e ↦ rw (record_answer, e) h
  | inr e ↦ rw (record_answer, e, length-set) h
]

pub answer_of_packed : (x y : ℕ) → y < 2 ^ 32 → answer_of (x * 2 ^ 32 + y) ≡ (x, y)
answer_of_packed x y h =
    let high : (x * 2 ^ 32 + y) / 2 ^ 32 ≡ x = omega arith in
    let low : (x * 2 ^ 32 + y) % 2 ^ 32 ≡ y = omega arith in ap₂ (λ a b. (a, b)) high low

record_hit :
    (key x y : ℕ) (c : AnswerCache)
    → ((slot_of key c).key == key) ≡ true
    → record_answer key x y c ≡ c
unfolding record_answer
record_hit key x y c e = rw (record_answer, e) refl

slot_recorded :
    (key j x y : ℕ) (c : AnswerCache)
    → IsSized c
    → ((slot_of key c).key == key) ≡ false
    → index key c ≡ index j c
    → slot_of j (record_answer key x y c) ≡ record { key = key; xy = x * 2 ^ 32 + y }
unfolding record_answer
slot_recorded key j x y c h e same =
    rw (record_answer, e, ← same)
      (get_or-set_self c.slots (index key c) (record { key = key; xy = x * 2 ^ 32 + y }) empty_slot
        (index_lt key c h))

slot_kept :
    (key j x y : ℕ) (c : AnswerCache)
    → index key c ≢ index j c
    → slot_of j (record_answer key x y c) ≡ slot_of j c
unfolding record_answer
slot_kept key j x y c other = elim (Bool-cases ((slot_of key c).key == key)) [
  | inl e ↦ rw (record_answer, e) refl
  | inr e ↦
      rw (record_answer, e)
        (get_or-set_ne c.slots (record { key = key; xy = x * 2 ^ 32 + y }) empty_slot other)
]

abbrev seen : ℕ → RingSlot → Option (ℕ × ℕ)
seen j s = if s.key == j then some (answer_of s.xy) else none

lookup_lem : (j : ℕ) (c : AnswerCache) → lookup j c ≡ seen j (slot_of j c)
unfolding lookup
lookup_lem j c = refl

-- After a recording, a key of another slot is answered as before; the key itself is answered with what
-- it had, or else with what was recorded; any other key of the slot is forgotten, unless the key was
-- already there and nothing was written.
pub lookup-record_answer :
    (key j x y : ℕ) (c : AnswerCache)
    → IsSized c
    → y < 2 ^ 32
    → lookup j (record_answer key x y c) ≡ (
        if index key c == index j c
        then (if is_some (lookup key c) then lookup j c else if key == j then some (x, y) else none)
        else lookup j c)
lookup-record_answer key j x y c h small = elim (Bool-cases (index key c == index j c)) [
  | inr f ↦
      let other =
        slot_kept key j x y c (λ e. absurd (cc (f, (==_iff (index key c) (index j c)).1 e))) in
      rw f (lookup_lem j (record_answer key x y c) ∙ ap (seen j) other ∙ sym (lookup_lem j c))
  | inl f ↦ elim (Bool-cases ((slot_of key c).key == key)) [
    | inl e ↦ rw (f, record_hit key x y c e, lookup_lem key c, e) refl
    | inr e ↦
        let same = (==_iff (index key c) (index j c)).0 f in
        rw (f, lookup_lem key c, e)
          (lookup_lem j (record_answer key x y c)
            ∙ ap (seen j) (slot_recorded key j x y c h e same)
            ∙ ap (λ a. if key == j then some a else none) (answer_of_packed x y small))
  ]
]

-- A fresh cache answers no key but 0, which it answers as if it had been recorded: (0, 0).
pub lookup-new : (cap key : ℕ) → lookup key (new cap) ≡ (if key == 0 then some (0, 0) else none)
unfolding new
lookup-new cap key =
    let slot = get_or-replicate (next_power_of_two (max cap 64)) empty_slot (index key (new cap)) in
    lookup_lem key (new cap) ∙ ap (seen key) slot ∙ flipped key
  where
    flipped : (key : ℕ) → seen key empty_slot ≡ (if key == 0 then some (0, 0) else none)
    flipped zero = refl
    flipped (suc k) = ground arith
