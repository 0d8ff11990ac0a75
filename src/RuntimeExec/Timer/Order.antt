-- ===== src/RuntimeExec/Timer/Order.antt =====
-- The order in which timers fire.
use vpoiskaxroditeley.Prelude.{
  ℕ, ◌≤◌, ◌<◌, ◌≡◌, Bool, true, false, Option, none, some, List, [], ◌∷◌, ltb, leb, length, arith,
  is_some, Bool-cases, Option-cases, inl, inr, if_both,
}
use vpoiskaxroditeley.RuntimeExec.Tails.{lookup}
use vpoiskaxroditeley.RuntimeExec.Timer.{
  timer_cap, TimerKey, TimerState, fires_before, push_key, retain_keys, compacted, push_timer,
  next_due, take_due,
}

fires_before_total : (a b : TimerKey) → fires_before a b ≡ false → fires_before b a ≡ true
unfolding fires_before
fires_before_total a b h = ground arith

fires_before_refl : (a : TimerKey) → fires_before a a ≡ true
unfolding fires_before
fires_before_refl a = ground arith

fires_before_trans :
    (a b c : TimerKey) → fires_before a b ≡ true → fires_before b c ≡ true → fires_before a c ≡ true
unfolding fires_before
fires_before_trans a b c h k = ground arith

abbrev pub IsFirst : TimerKey → List TimerKey → Type 0
IsFirst k [] = Unit
IsFirst k (j ∷ l) = (fires_before k j ≡ true) × IsFirst k l

abbrev pub IsOrdered : List TimerKey → Type 0
IsOrdered [] = Unit
IsOrdered (k ∷ l) = IsFirst k l × IsOrdered l

IsFirst-trans :
    (k j : TimerKey) (l : List TimerKey) → fires_before k j ≡ true → IsFirst j l → IsFirst k l
IsFirst-trans k j [] h f = tt
IsFirst-trans k j (i ∷ l) h (f, g) = (fires_before_trans k j i h f, IsFirst-trans k j l h g)

push_key-IsFirst :
    (i k : TimerKey) (l : List TimerKey)
    → fires_before i k ≡ true
    → IsFirst i l
    → IsFirst i (push_key k l)
unfolding push_key
push_key-IsFirst i k [] h f = (h, tt)
push_key-IsFirst i k (j ∷ l) h (f, g) =
    if_both (IsFirst i) (fires_before k j) (h, (f, g)) (f, push_key-IsFirst i k l h g)

push_key-IsOrdered : (k : TimerKey) (l : List TimerKey) → IsOrdered l → IsOrdered (push_key k l)
unfolding push_key
push_key-IsOrdered k [] o = (tt, tt)
push_key-IsOrdered k (j ∷ l) (f, o) = elim (Bool-cases (fires_before k j)) [
  | inl e ↦ rw e ((e, IsFirst-trans k j l e f), (f, o))
  | inr e ↦ rw e (push_key-IsFirst j k l (fires_before_total k j e) f, push_key-IsOrdered k l o)
]

retain_keys-IsFirst :
    (p : TimerKey → Bool) (k : TimerKey) (l : List TimerKey)
    → IsFirst k l
    → IsFirst k (retain_keys p l)
unfolding retain_keys
retain_keys-IsFirst p k [] f = tt
retain_keys-IsFirst p k (j ∷ l) (f, g) =
    let rest = retain_keys-IsFirst p k l g in if_both (IsFirst k) (p j) (f, rest) rest

retain_keys-IsOrdered :
    (p : TimerKey → Bool) (l : List TimerKey) → IsOrdered l → IsOrdered (retain_keys p l)
unfolding retain_keys
retain_keys-IsOrdered p [] o = tt
retain_keys-IsOrdered p (j ∷ l) (f, o) =
    let rest = retain_keys-IsOrdered p l o in
    if_both IsOrdered (p j) (retain_keys-IsFirst p j l f, rest) rest

module _ {Tail : Type 0} where
  -- Among the keys of a list, those that are due and whose timer is there all fire after `k`.
  abbrev pub IsNext : ℕ → List (ℕ × Tail) → TimerKey → List TimerKey → Type 0
  IsNext now_us tails k [] = Unit
  IsNext now_us tails k (j ∷ l) =
      (is_some (lookup j.id tails) ≡ true → j.due_us ≤ now_us → fires_before k j ≡ true)
      × IsNext now_us tails k l

  -- No key of a list is due with its timer there.
  abbrev pub IsIdle : ℕ → List (ℕ × Tail) → List TimerKey → Type 0
  IsIdle now_us tails [] = Unit
  IsIdle now_us tails (j ∷ l) =
      (is_some (lookup j.id tails) ≡ true → now_us < j.due_us) × IsIdle now_us tails l

  pub push_timer-IsOrdered :
      (due_us id interval_us : ℕ) (tail : Tail) (q : TimerState Tail)
      → IsOrdered q.heap
      → IsOrdered (push_timer due_us id interval_us tail q).heap
  unfolding push_timer compacted
  push_timer-IsOrdered due_us id interval_us tail q o = elim (Bool-cases (leb timer_cap q.live)) [
    | inl e ↦ rw (push_timer, e) o
    | inr e ↦
        rw (push_timer, e)
          (push_key-IsOrdered _ (compacted q) (
            if_both IsOrdered (leb timer_cap (length q.heap))
              (retain_keys-IsOrdered (λ k. is_some (lookup k.id q.tails)) q.heap o) o))
  ]

  first→next :
      (now_us : ℕ) (tails : List (ℕ × Tail)) (k : TimerKey) (l : List TimerKey)
      → IsFirst k l
      → IsNext now_us tails k l
  first→next now_us tails k [] f = tt
  first→next now_us tails k (j ∷ l) (f, g) = (λ _ _. f, first→next now_us tails k l g)

  late→idle :
      (now_us : ℕ) (tails : List (ℕ × Tail)) (k : TimerKey) (l : List TimerKey)
      → now_us < k.due_us
      → IsFirst k l
      → IsIdle now_us tails l
  unfolding fires_before
  late→idle now_us tails k [] h f = tt
  late→idle now_us tails k (j ∷ l) h (f, g) = (λ _. ground arith, late→idle now_us tails k l h g)

  -- What the loop took from a list is the next timer, or there is none.
  abbrev pub IsTurn : ℕ → List (ℕ × Tail) → List TimerKey → Option (TimerKey × Tail) → Type 0
  IsTurn now_us tails l (some p) =
      (lookup p.0.id tails ≡ some p.1) × (p.0.due_us ≤ now_us) × IsNext now_us tails p.0 l
  IsTurn now_us tails l none = IsIdle now_us tails l

  IsTurn-skip :
      (now_us : ℕ) (tails : List (ℕ × Tail)) (k : TimerKey) (l : List TimerKey)
      (r : Option (TimerKey × Tail))
      → lookup k.id tails ≡ none
      → IsTurn now_us tails l r
      → IsTurn now_us tails (k ∷ l) r
  IsTurn-skip now_us tails k l none e t = (λ s. absurd (cc (rw e at s)), t)
  IsTurn-skip now_us tails k l (some p) e (held, due, next) =
      (held, due, (λ s. absurd (cc (rw e at s)), next))

  next_due_lem :
      (now_us : ℕ) (tails : List (ℕ × Tail)) (l : List TimerKey)
      → IsOrdered l
      → IsOrdered (next_due now_us tails l).1 × IsTurn now_us tails l (next_due now_us tails l).0
  unfolding next_due
  next_due_lem now_us tails [] o = (tt, tt)
  next_due_lem now_us tails (k ∷ l) (f, o) = elim (Bool-cases (ltb now_us k.due_us)) [
    | inl e ↦
        let late : now_us < k.due_us = ground arith in
        rw (next_due, e) ((f, o), (λ _. late, late→idle now_us tails k l late f))
    | inr e ↦ elim (Option-cases (lookup k.id tails)) [
      | inl g ↦
          let (ordered, turn) = next_due_lem now_us tails l o in
          rw (next_due, e, g)
            (ordered, IsTurn-skip now_us tails k l (next_due now_us tails l).0 g turn)
      | inr (v, g) ↦
          let due : k.due_us ≤ now_us = ground arith in
          rw (next_due, e, g)
            (o, (g, due, (λ _ _. fires_before_refl k, first→next now_us tails k l f)))
    ]
  ]

  -- From an ordered heap the loop takes a timer that is due and has not been cancelled, with its
  -- callback, and that fires before all others of these, and takes none only if there is none of these; it leaves the heap in order.
  pub take_due-IsTurn :
      (now_us : ℕ) (q : TimerState Tail)
      → IsOrdered q.heap
      → IsOrdered (take_due now_us q).1.heap × IsTurn now_us q.tails q.heap (take_due now_us q).0
  unfolding take_due
  take_due-IsTurn now_us q o =
      let (ordered, turn) = next_due_lem now_us q.tails q.heap o in
      elim (Option-cases (next_due now_us q.tails q.heap).0) [
        | inl e ↦ rw (take_due, e) (ordered, rw e at turn)
        | inr (p, e) ↦ rw (take_due, e) (ordered, rw e at turn)
      ]
