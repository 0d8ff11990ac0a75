-- ===== src/RuntimeExec/Budget.antt =====
-- crates/runtime-exec/src/cache.rs: the budget of entries and bytes that threads share. `reserve` and
-- the drop of a charge are given as their single atomic operations, which threads interleave, and
-- `reserve_alone` is `reserve` when nobody interferes. u64 and usize have 64 bits.
pub mod Steps
pub mod Race
pub mod Alone
use vpoiskaxroditeley.Prelude.{
  ℕ, zero, suc, ◌+◌, ◌-◌, ◌%◌, ◌^◌, Bool, true, false, not, ◌&&◌, Option, none, some, List, [], ◌∷◌,
  ◌==◌, ltb, if◌then◌else◌, max,
}

pub record Budget : Type 0 where
  pub entry_limit : ℕ
  pub byte_limit : ℕ
  pub entries : ℕ
  pub bytes : ℕ

unfoldable pub new : ℕ → ℕ → Budget
new entry_limit byte_limit = record {
  entry_limit = max entry_limit 1;
  byte_limit = max byte_limit 1;
  entries = 0;
  bytes = 0;
}

abbrev pub checked_add : ℕ → ℕ → Option ℕ
checked_add a b = if ltb (a + b) (2 ^ 64) then some (a + b) else none

-- `fetch_sub` wraps
abbrev pub wrapping_sub : ℕ → ℕ → ℕ
wrapping_sub a b = (a + 2 ^ 64 - b) % 2 ^ 64

-- a sum under a limit, `none` when it overflows or is over it
unfoldable pub checked_within : ℕ → ℕ → ℕ → Option ℕ
checked_within limit a b = elim (checked_add a b) [
  | none ↦ none
  | some next ↦ if ltb limit next then none else some next
]

-- What a caller of `reserve` will do next.
pub data Phase : Type 0 where
  load_entries : Phase
  load_bytes : (entries : ℕ) → Phase
  swap_entries : (entries bytes_now : ℕ) → Phase
  swap_bytes : (bytes_now next_bytes : ℕ) → Phase
  undo_entries : Phase
  charged : Phase
  drop_bytes : Phase
  refused : Phase
  dropped : Phase

pub record Caller : Type 0 where
  pub units : ℕ
  pub bytes : ℕ
  pub phase : Phase

-- One atomic operation with the local computations before it. A weak exchange may fail though the
-- value is the expected one: `spurious`. A caller that is charged drops its charge.
unfoldable pub step : Bool → Budget → Caller → Budget × Caller
unfolding checked_within
step spurious b c = elim c.phase [
  | load_entries ↦ (b, record c { phase = load_bytes b.entries })
  | load_bytes entries ↦ (b, record c { phase = swap_entries entries b.bytes })
  | swap_entries entries bytes_now ↦ elim (checked_within b.entry_limit entries c.units) [
    | none ↦ (b, record c { phase = refused })
    | some next_entries ↦ elim (checked_within b.byte_limit bytes_now c.bytes) [
      | none ↦ (b, record c { phase = refused })
      | some next_bytes ↦
          if not spurious && (b.entries == entries)
          then (
            record b { entries = next_entries },
            record c { phase = swap_bytes bytes_now next_bytes },
          )
          else (b, record c { phase = load_entries })
    ]
  ]
  | swap_bytes bytes_now next_bytes ↦
      if b.bytes == bytes_now
      then (record b { bytes = next_bytes }, record c { phase = charged })
      else (b, record c { phase = undo_entries })
  | undo_entries ↦
      (record b { entries = wrapping_sub b.entries c.units }, record c { phase = load_entries })
  | charged ↦
      (record b { entries = wrapping_sub b.entries c.units }, record c { phase = drop_bytes })
  | drop_bytes ↦ (record b { bytes = wrapping_sub b.bytes c.bytes }, record c { phase = dropped })
  | refused ↦ (b, c)
  | dropped ↦ (b, c)
]

unfoldable pub step_at : ℕ → Bool → Budget → List Caller → Budget × List Caller
unfolding step
step_at i spurious b [] = (b, [])
step_at zero spurious b (c ∷ cs) = let (b, c) = step spurious b c in (b, c ∷ cs)
step_at (suc i) spurious b (c ∷ cs) = let (b, cs) = step_at i spurious b cs in (b, c ∷ cs)

-- The callers take their steps in the order of the list.
unfoldable pub interleave : List (ℕ × Bool) → Budget × List Caller → Budget × List Caller
unfolding step_at
interleave [] w = w
interleave ((i, spurious) ∷ is) (b, cs) = interleave is (step_at i spurious b cs)

-- `reserve` when no other thread takes a step meanwhile
unfoldable pub reserve_alone : ℕ → ℕ → Budget → Option Budget
unfolding checked_within
reserve_alone units bytes b = elim (checked_within b.entry_limit b.entries units) [
  | none ↦ none
  | some next_entries ↦ elim (checked_within b.byte_limit b.bytes bytes) [
    | none ↦ none
    | some next_bytes ↦ some (record b { entries = next_entries; bytes = next_bytes })
  ]
]

-- the drop of a charge when no other thread takes a step meanwhile
unfoldable pub drop_alone : ℕ → ℕ → Budget → Budget
drop_alone units bytes b = record b {
  entries = wrapping_sub b.entries units;
  bytes = wrapping_sub b.bytes bytes;
}
