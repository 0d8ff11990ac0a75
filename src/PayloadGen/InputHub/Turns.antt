-- ===== src/PayloadGen/InputHub/Turns.antt =====
-- The loop over the turns that are due ends.
use vpoiskaxroditeley.Prelude.{
  ℕ, ◌≤◌, ◌<◌, ◌≡◌, true, ◌||◌, ◌⊎◌, Option, none, some, List, [], ◌∷◌, ◌==◌, ltb, arith,
}
use vpoiskaxroditeley.PayloadGen.Cursors.{RawEvent}
use vpoiskaxroditeley.PayloadGen.InputHub.{TabInput, Turn, InputHub}

module _ {I : Type 0} (kind : TabInput I) where
  -- Nothing of the heap is due.
  abbrev pub IsIdle : ℕ → List Turn → Type 0
  IsIdle now_us [] = Unit {0}
  IsIdle now_us (t ∷ l) = now_us < t.due

  -- The loop has ended, after at most 256 steps, and after fewer nothing is due.
  abbrev pub IsSettled : ℕ → Option (List (ℕ × RawEvent) × (ℕ × InputHub I)) → Type 0
  IsSettled now_us none = ⊥
  IsSettled now_us (some (evs, (steps, h))) = (steps ≤ 256) × ((steps ≡ 256) ⊎ IsIdle now_us h.heap)

  -- A loop that stops at once has settled.
  stopped :
      (now_us steps : ℕ) (t : Turn) (l : List Turn)
      → steps ≤ 256
      → (ltb now_us t.due || steps == 256) ≡ true
      → (steps ≤ 256) × ((steps ≡ 256) ⊎ (now_us < t.due))
  stopped now_us steps t l few h = ground arith
