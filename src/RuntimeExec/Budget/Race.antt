-- ===== src/RuntimeExec/Budget/Race.antt =====
-- What the counters of a budget hold while threads reserve and drop.
use vpoiskaxroditeley.Prelude.{
  ℕ, zero, suc, ◌+◌, ◌^◌, ◌≤◌, ◌<◌, ◌≡◌, refl, sym, subst, ◌∙◌, map, max, Bool, List, [], ◌∷◌, All,
  arith,
}
use vpoiskaxroditeley.RuntimeExec.Budget.{Budget, new, Caller, load_entries, step_at, interleave}
use vpoiskaxroditeley.RuntimeExec.Budget.Steps.{
  entries_of, bytes_of, sum, IsChecked, IsAccounted, phase-IsAccounted, step-limit,
}

step_at-limit :
    (i : ℕ) (spurious : Bool) (b : Budget) (cs : List Caller)
    → ((step_at i spurious b cs).0.byte_limit ≡ b.byte_limit)
      × ((step_at i spurious b cs).0.entry_limit ≡ b.entry_limit)
unfolding step_at
step_at-limit i spurious b [] = (refl, refl)
step_at-limit zero spurious b (c ∷ cs) = step-limit spurious b c.units c.bytes c.phase
step_at-limit (suc i) spurious b (c ∷ cs) = step_at-limit i spurious b cs

step_at-IsAccounted :
    (i : ℕ) (spurious : Bool) (entries bytes : ℕ) (b : Budget) (cs : List Caller)
    → IsAccounted entries bytes b cs
    → IsAccounted entries bytes (step_at i spurious b cs).0 (step_at i spurious b cs).1
unfolding step_at sum
step_at-IsAccounted i spurious entries bytes b [] h = h
step_at-IsAccounted zero spurious entries bytes b (c ∷ cs) h =
    phase-IsAccounted entries bytes c.units c.bytes cs spurious b c.phase h
step_at-IsAccounted (suc i) spurious entries bytes b (c ∷ cs) h =
    let inner : IsAccounted (entries + entries_of c) (bytes + bytes_of c) b cs = record {
      entries_sum = omega (arith, h.entries_sum);
      bytes_sum = omega (arith, h.bytes_sum);
      entries_fit = h.entries_fit;
      bytes_fit = h.bytes_fit;
      entry_limit_fits = h.entry_limit_fits;
      byte_limit_fits = h.byte_limit_fits;
      checked = h.checked.1;
    } in
    let k =
      step_at-IsAccounted i spurious (entries + entries_of c) (bytes + bytes_of c) b cs inner in
    let same = (step_at-limit i spurious b cs).0 in
    record {
      entries_sum = omega (arith, k.entries_sum);
      bytes_sum = omega (arith, k.bytes_sum);
      entries_fit = k.entries_fit;
      bytes_fit = k.bytes_fit;
      entry_limit_fits = k.entry_limit_fits;
      byte_limit_fits = k.byte_limit_fits;
      checked = (subst (λ l. IsChecked l c) (sym same) h.checked.0, k.checked);
    }

interleave-IsAccounted :
    (is : List (ℕ × Bool)) (b : Budget) (cs : List Caller)
    → IsAccounted 0 0 b cs
    → IsAccounted 0 0 (interleave is (b, cs)).0 (interleave is (b, cs)).1
unfolding interleave
interleave-IsAccounted [] b cs h = h
interleave-IsAccounted ((i, spurious) ∷ is) b cs h =
    interleave-IsAccounted is (step_at i spurious b cs).0 (step_at i spurious b cs).1
      (step_at-IsAccounted i spurious 0 0 b cs h)

interleave-limit :
    (is : List (ℕ × Bool)) (b : Budget) (cs : List Caller)
    → ((interleave is (b, cs)).0.byte_limit ≡ b.byte_limit)
      × ((interleave is (b, cs)).0.entry_limit ≡ b.entry_limit)
unfolding interleave
interleave-limit [] b cs = (refl, refl)
interleave-limit ((i, spurious) ∷ is) b cs =
    let rest = interleave-limit is (step_at i spurious b cs).0 (step_at i spurious b cs).1 in
    let here = step_at-limit i spurious b cs in (rest.0 ∙ here.0, rest.1 ∙ here.1)

-- Callers that have not begun have charged nothing.
unfoldable pub starting : List (ℕ × ℕ) → List Caller
starting wants = map (λ w. record { units = w.0; bytes = w.1; phase = load_entries }) wants

starting-sum :
    (wants : List (ℕ × ℕ)) (limit : ℕ)
    → (sum entries_of (starting wants) ≡ 0)
      × (sum bytes_of (starting wants) ≡ 0)
      × All (IsChecked limit) (starting wants)
unfolding sum starting
starting-sum [] limit = (refl, refl, tt)
starting-sum (w ∷ ws) limit =
    let rest = starting-sum ws limit in (omega (arith, rest.0), omega (arith, rest.1), (tt, rest.2))

-- On a new budget, whatever reservations and drops the threads make and however their atomic
-- operations interleave, spurious failures of the weak exchange included, the counters stay within the
-- limits, of which 0 counts as 1, and are the sums of what the callers have charged at that time.
pub interleave-new :
    (entry_limit byte_limit : ℕ) (wants : List (ℕ × ℕ)) (is : List (ℕ × Bool))
    → entry_limit < 2 ^ 64
    → byte_limit < 2 ^ 64
    → ((interleave is (new entry_limit byte_limit, starting wants)).0.entries ≤ max entry_limit 1)
      × ((interleave is (new entry_limit byte_limit, starting wants)).0.bytes ≤ max byte_limit 1)
      × ((interleave is (new entry_limit byte_limit, starting wants)).0.entries
          ≡ sum entries_of (interleave is (new entry_limit byte_limit, starting wants)).1)
      × ((interleave is (new entry_limit byte_limit, starting wants)).0.bytes
          ≡ sum bytes_of (interleave is (new entry_limit byte_limit, starting wants)).1)
unfolding new
interleave-new entry_limit byte_limit wants is small small' =
    let b = new entry_limit byte_limit in
    let begun = starting-sum wants b.byte_limit in
    let k = interleave-IsAccounted is b (starting wants) (record {
      entries_sum = omega (arith, begun.0);
      bytes_sum = omega (arith, begun.1);
      entries_fit = omega arith;
      bytes_fit = omega arith;
      entry_limit_fits = omega arith;
      byte_limit_fits = omega arith;
      checked = begun.2;
    }) in
    let limits = interleave-limit is b (starting wants) in
    (
      subst (λ l. (interleave is (b, starting wants)).0.entries ≤ l) limits.1 k.entries_fit,
      subst (λ l. (interleave is (b, starting wants)).0.bytes ≤ l) limits.0 k.bytes_fit,
      omega (arith, k.entries_sum),
      omega (arith, k.bytes_sum),
    )
