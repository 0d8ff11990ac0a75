-- ===== src/Tests/ParserPipeline.antt =====
-- crates/parser-pipeline at concrete inputs: a text that is pushed and what is pushed behind it.
use vpoiskaxroditeley.Prelude.{ℕ, ◌≡◌, ◌⊎◌, ◌+◌, ◌≤◌, ◌<◌, length, true, false, List, [], ◌∷◌}
use vpoiskaxroditeley.ParserPipeline.Scratch.{
  pool_cap, Op, pushes_str, emits, title_text, nil_span, new, run, get, push_str, drain_into,
}
use vpoiskaxroditeley.ParserPipeline.Scratch.Spans.{get-push_str}

abbrev title : List ℕ
title = 104 ∷ 105 ∷ []

abbrev behind : List Op
behind = emits (title_text (record { off = 0; len = 2 }) true) ∷ pushes_str (33 ∷ []) ∷ []

get-push_str_example :
    ((length new.pool.items + length title ≤ pool_cap)
      × (get (push_str title new).0 (run behind (push_str title new).1).pool.items ≡ title))
    ⊎ ((pool_cap < length new.pool.items + length title)
        × ((push_str title new).1.pool ≡ new.pool)
        × ((push_str title new).0 ≡ nil_span)
        × ((drain_into (run behind (push_str title new).1)).0.noted ≡ true)
        × ((drain_into (run behind (push_str title new).1)).1.overflow ≡ false))
get-push_str_example = get-push_str title behind new
