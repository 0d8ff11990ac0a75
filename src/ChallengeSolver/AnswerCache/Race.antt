-- ===== src/ChallengeSolver/AnswerCache/Race.antt =====
-- `lookup` and `record` as their single loads and stores on one slot, run by two threads.
use vpoiskaxroditeley.Prelude.{
  ℕ, ◌+◌, ◌*◌, ◌^◌, ◌<◌, ◌≡◌, refl, ap, true, false, Option, none, some, List, [], ◌∷◌, ◌==◌,
  if◌then◌else◌,
}
use vpoiskaxroditeley.ChallengeSolver.AnswerCache.{RingSlot, answer_of}
use vpoiskaxroditeley.ChallengeSolver.AnswerCache.Answers.{answer_of_packed}

-- Where a thread stands: in `lookup` before either of its loads, in `record` before its load or either
-- of its stores.
pub data Reader : Type 0 where
  load_key : Reader
  load_xy : Reader
  answered : Option (ℕ × ℕ) → Reader

pub data Writer : Type 0 where
  load_old : Writer
  store_xy : Writer
  store_key : Writer
  finished : Writer

unfoldable pub reader_step : ℕ → RingSlot → Reader → Reader
reader_step key s load_key = if s.key == key then load_xy else answered none
reader_step key s load_xy = answered (some (answer_of s.xy))
reader_step key s (answered o) = answered o

unfoldable pub writer_step : ℕ → ℕ → ℕ → RingSlot → Writer → RingSlot × Writer
writer_step key x y s load_old = (s, if s.key == key then finished else store_xy)
writer_step key x y s store_xy = (record s { xy = x * 2 ^ 32 + y }, store_key)
writer_step key x y s store_key = (record s { key = key }, finished)
writer_step key x y s finished = (s, finished)

pub data Thread : Type 0 where
  reads : Thread
  writes : Thread

-- The threads take their steps in the order of the list: one looks `k` up, one records `j`.
unfoldable pub interleave :
    ℕ → ℕ → ℕ → ℕ → List Thread → RingSlot × Reader × Writer → RingSlot × Reader × Writer
unfolding reader_step writer_step
interleave k j x y [] st = st
interleave k j x y (reads ∷ ts) (s, r, w) = interleave k j x y ts (s, reader_step k s r, w)
interleave k j x y (writes ∷ ts) (s, r, w) =
    let (s, w) = writer_step j x y s w in interleave k j x y ts (s, r, w)

-- A lookup can answer with the answer of another key: if the slot holds the key that is looked up, and
-- another key of the slot is recorded between the two loads, then the lookup answers what is recorded.
-- Undisturbed, it answers what the slot holds.
pub interleave-lookup :
    (k j x y : ℕ) (s : RingSlot)
    → (s.key == k) ≡ true
    → (s.key == j) ≡ false
    → y < 2 ^ 32
    → ((interleave k j x y (reads ∷ writes ∷ writes ∷ reads ∷ []) (s, load_key, load_old)).1
        ≡ answered (some (x, y)))
      × ((interleave k j x y (reads ∷ reads ∷ writes ∷ writes ∷ []) (s, load_key, load_old)).1
          ≡ answered (some (answer_of s.xy)))
unfolding interleave
interleave-lookup k j x y s held other small = (
  rw (interleave, reader_step, writer_step, held, other)
      (ap (λ a. answered (some a)) (answer_of_packed x y small)),
  rw (interleave, reader_step, held) refl,
)
