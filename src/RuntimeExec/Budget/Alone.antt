-- ===== src/RuntimeExec/Budget/Alone.antt =====
-- A reservation that nobody disturbs, and its drop.
use vpoiskaxroditeley.Prelude.{
  ℕ, ◌+◌, ◌^◌, ◌≤◌, ◌<◌, ◌≡◌, Bool, false, none, some, List, [], ◌∷◌, arith,
}
use vpoiskaxroditeley.RuntimeExec.Budget.{
  Budget, Caller, load_entries, charged, refused, checked_within, step, step_at, interleave,
  reserve_alone, drop_alone,
}

abbrev pub alone : Budget → ℕ → ℕ → Budget × List Caller
alone b units bytes = (b, record { units = units; bytes = bytes; phase = load_entries } ∷ [])

abbrev pub turns : List (ℕ × Bool)
turns = (0, false) ∷ (0, false) ∷ (0, false) ∷ (0, false) ∷ []

-- Undisturbed, four operations decide: the caller is refused and the budget is as it was, or it has
-- its charge and the budget is what `reserve_alone` makes of it.
pub interleave-reserve_alone :
    (b : Budget) (units bytes : ℕ)
    → interleave turns (alone b units bytes) ≡ elim (reserve_alone units bytes b) [
      | none ↦ (b, record { units = units; bytes = bytes; phase = refused } ∷ [])
      | some b' ↦ (b', record { units = units; bytes = bytes; phase = charged } ∷ [])
    ]
unfolding interleave step_at step reserve_alone
interleave-reserve_alone b units bytes = ground arith

-- The drop of a charge takes its reservation back: the budget is as it was.
pub reserve_alone-drop_alone :
    (b b' : Budget) (units bytes : ℕ)
    → b.entry_limit < 2 ^ 64
    → b.byte_limit < 2 ^ 64
    → reserve_alone units bytes b ≡ some b'
    → drop_alone units bytes b' ≡ b
unfolding reserve_alone drop_alone checked_within
reserve_alone-drop_alone b b' units bytes small small' h = ground arith

-- What a reservation makes of the budget.
pub record IsReserved (units bytes : ℕ) (b b' : Budget) : Type 0 where
  pub entries_sum : b'.entries ≡ b.entries + units
  pub bytes_sum : b'.bytes ≡ b.bytes + bytes
  pub entries_fit : b'.entries ≤ b'.entry_limit
  pub bytes_fit : b'.bytes ≤ b'.byte_limit
  pub same_entry_limit : b'.entry_limit ≡ b.entry_limit
  pub same_byte_limit : b'.byte_limit ≡ b.byte_limit

pub reserve_alone-IsReserved :
    (b b' : Budget) (units bytes : ℕ)
    → reserve_alone units bytes b ≡ some b'
    → IsReserved units bytes b b'
unfolding reserve_alone checked_within
reserve_alone-IsReserved b b' units bytes h = record {
  entries_sum = ground arith;
  bytes_sum = ground arith;
  entries_fit = ground arith;
  bytes_fit = ground arith;
  same_entry_limit = ground arith;
  same_byte_limit = ground arith;
}

-- Where there is room a reservation is made.
pub reserve_alone-room :
    (b : Budget) (units bytes : ℕ)
    → b.entries + units ≤ b.entry_limit
    → b.bytes + bytes ≤ b.byte_limit
    → b.entry_limit < 2 ^ 64
    → b.byte_limit < 2 ^ 64
    → reserve_alone units bytes b
      ≡ some (record b { entries = b.entries + units; bytes = b.bytes + bytes })
unfolding reserve_alone checked_within
reserve_alone-room b units bytes free fits small small' = ground arith
