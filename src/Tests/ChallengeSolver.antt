-- ===== src/Tests/ChallengeSolver.antt =====
-- crates/challenge-solver at concrete inputs.
use vpoiskaxroditeley.Prelude.{
  ◌≡◌, ◌==◌, ◌+◌, ◌*◌, ◌^◌, refl, some, none, [], ◌∷◌, if◌then◌else◌, is_some, arith,
}
use vpoiskaxroditeley.ChallengeSolver.AnswerCache.{
  RingSlot, new, index, lookup, record_answer, answer_of,
}
use vpoiskaxroditeley.ChallengeSolver.AnswerCache.Answers.{new-IsSized, lookup-record_answer}
use vpoiskaxroditeley.ChallengeSolver.AnswerCache.Race.{
  load_key, load_old, answered, reads, writes, interleave, interleave-lookup,
}

lookup-record_answer_example : lookup 7 (record_answer 7 30 40 (new 64)) ≡ (
    if index 7 (new 64) == index 7 (new 64)
    then (if is_some (lookup 7 (new 64))
        then lookup 7 (new 64)
        else if 7 == 7
        then some (30, 40)
        else none)
    else lookup 7 (new 64))
lookup-record_answer_example =
    lookup-record_answer 7 7 30 40 (new 64) (new-IsSized 64) (omega arith)

abbrev slot : RingSlot
slot = record { key = 7; xy = 30 * 2 ^ 32 + 40 }

interleave-lookup_example :
    ((interleave 7 71 1 2 (reads ∷ writes ∷ writes ∷ reads ∷ []) (slot, load_key, load_old)).1
      ≡ answered (some (1, 2)))
    × ((interleave 7 71 1 2 (reads ∷ reads ∷ writes ∷ writes ∷ []) (slot, load_key, load_old)).1
        ≡ answered (some (answer_of slot.xy)))
interleave-lookup_example = interleave-lookup 7 71 1 2 slot refl refl (omega arith)
