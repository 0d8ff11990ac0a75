-- ===== src/Tests/Queues.antt =====
-- crates/runtime-exec at concrete inputs: a budget that two callers share and a cache with room for two.
use vpoiskaxroditeley.Prelude.{
  ℕ, ◌≡◌, ◌≤◌, ◌+◌, refl, true, false, Bool, none, List, [], ◌∷◌, length, max, arith,
}
use vpoiskaxroditeley.RuntimeExec.Budget
use vpoiskaxroditeley.RuntimeExec.Budget.{Budget, Caller, charged, reserve_alone, interleave}
use vpoiskaxroditeley.RuntimeExec.Budget.Race.{starting, interleave-new}
use vpoiskaxroditeley.RuntimeExec.Budget.Steps.{sum, entries_of, bytes_of}
use vpoiskaxroditeley.RuntimeExec.NormCache.{
  Store, Op, put_src, lookup_src, sweep, run, with_budget, accounted_bytes,
}
use vpoiskaxroditeley.RuntimeExec.NormCache.Charges.{charges, run-accounted_bytes}
use vpoiskaxroditeley.RuntimeExec.NormCache.Lookups.{entry_of}

-- two callers that each want three bytes of four, and whose operations alternate
abbrev wants : List (ℕ × ℕ)
wants = (1, 3) ∷ (1, 3) ∷ []

abbrev both : List (ℕ × Bool)
both =
    (0, false)
    ∷ (1, false)
    ∷ (0, false)
    ∷ (1, false)
    ∷ (0, false)
    ∷ (1, true)
    ∷ (0, false)
    ∷ (1, false)
    ∷ []

interleave-new_example :
    ((interleave both (Budget.new 2 4, starting wants)).0.entries ≤ max 2 1)
    × ((interleave both (Budget.new 2 4, starting wants)).0.bytes ≤ max 4 1)
    × ((interleave both (Budget.new 2 4, starting wants)).0.entries
        ≡ sum entries_of (interleave both (Budget.new 2 4, starting wants)).1)
    × ((interleave both (Budget.new 2 4, starting wants)).0.bytes
        ≡ sum bytes_of (interleave both (Budget.new 2 4, starting wants)).1)
interleave-new_example = interleave-new 2 4 wants both (omega arith) (omega arith)

-- The first caller has its charge, and the second has to begin again.
first_charged : (interleave both (Budget.new 2 4, starting wants)).0.bytes ≡ 3
unfolding interleave Budget.new starting Budget.step_at Budget.step Budget.checked_within
first_charged = refl

abbrev room : Budget
room = record { entry_limit = 2; byte_limit = 9; entries = 1; bytes = 4 }

abbrev ops : List Op
ops =
    put_src 0 1 7 (40 ∷ 41 ∷ []) 10
    ∷ lookup_src 5 1 7
    ∷ put_src 6 1 8 (42 ∷ []) 10
    ∷ sweep 12 8
    ∷ []

run-accounted_bytes_example :
    (length (run ops (with_budget 2 100)).raw.table ≤ max 2 1)
    × (length (run ops (with_budget 2 100)).src.table ≤ max 2 1)
    × (accounted_bytes (run ops (with_budget 2 100))
        ≡ charges (run ops (with_budget 2 100)).raw.table
          + charges (run ops (with_budget 2 100)).src.table)
    × (accounted_bytes (run ops (with_budget 2 100)) ≤ max 100 2)
run-accounted_bytes_example = run-accounted_bytes 2 100 ops (omega arith) (omega arith)

abbrev empty : Store ℕ
empty = record {
  table = [];
  budget = record { entry_limit = 2; byte_limit = 9; entries = 0; bytes = 0 };
}

abbrev two : Store ℕ
two = record {
  table =
      ((1, 7), record { value = 50; used = 2; charge = 5 })
      ∷ ((1, 8), record { value = 51; used = 9; charge = 3 })
      ∷ [];
  budget = record { entry_limit = 2; byte_limit = 9; entries = 2; bytes = 8 };
}

two_distinct :
    entry_of {V = ℕ} (1, 7) (((1, 8), record { value = 51; used = 9; charge = 3 }) ∷ []) ≡ none
unfolding entry_of
two_distinct = refl

last_distinct : entry_of {V = ℕ} (1, 8) [] ≡ none
unfolding entry_of
last_distinct = refl
