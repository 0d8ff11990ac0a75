-- ===== src/PayloadGen/Cursors/Pump.antt =====
-- The loop that runs a cursor to a deadline ends.
use vpoiskaxroditeley.Prelude.{
  ℕ, zero, suc, ◌+◌, ◌-◌, ◌%◌, ◌^◌, ◌≤◌, ◌<◌, ◌≡◌, Bool, true, not, ◌&&◌, ◌⊎◌, Option, none, some,
  List, ◌∷◌, ltb, max, arith, Bool-cases, inl, inr,
}
use vpoiskaxroditeley.PayloadGen.Cursors.{RawEvent, InputCursor, pump}

goes_iff :
    (done : Bool) (now deadline_us : ℕ)
    → (not done && ltb now deadline_us) ≡ true
    → now < deadline_us
goes_iff done now deadline_us h = ground arith

module _ {C : Type 0} (cursor : InputCursor C) where
  -- The loop has ended: the cursor is done or the deadline has come.
  abbrev pub IsEnded : ℕ → Option (List RawEvent × (ℕ × C)) → Type 0
  IsEnded deadline_us none = ⊥
  IsEnded deadline_us (some (evs, (now, c))) = (cursor.done c ≡ true) ⊎ (deadline_us ≤ now)

  -- An event before the others changes nothing of the end.
  IsEnded-with :
      (deadline_us : ℕ) (ev : Option RawEvent) (rest : Option (List RawEvent × (ℕ × C)))
      → IsEnded deadline_us rest
      → IsEnded deadline_us (elim rest [
        | none ↦ none
        | some (evs, end) ↦ some (elim ev [ none ↦ evs | some e ↦ e ∷ evs ], end)
      ])
  IsEnded-with deadline_us ev none h = h
  IsEnded-with deadline_us ev (some (evs, (now, c))) h = h

  -- A round for each microsecond to the deadline suffices for any cursor, whatever it says of when it
  -- is due: the loop ends, with the cursor done or the deadline reached.
  pub pump-IsEnded :
      (fuel now deadline_us : ℕ) (c : C)
      → deadline_us < 2 ^ 64
      → deadline_us - now ≤ fuel
      → IsEnded deadline_us (pump cursor fuel now deadline_us c)
  unfolding pump
  pump-IsEnded zero now deadline_us c small enough = ground arith
  pump-IsEnded (suc fuel) now deadline_us c small enough =
      elim (Bool-cases (not (cursor.done c) && ltb now deadline_us)) [
        | inl t ↦
            let (ev, c') = cursor.step now c in
            let now' = max (cursor.next_due_us c') ((now + 1) % 2 ^ 64) in
            rw (pump, t)
              (IsEnded-with deadline_us ev (pump cursor fuel now' deadline_us c') (
                pump-IsEnded fuel now' deadline_us c' small
                  (omega (arith, goes_iff (cursor.done c) now deadline_us t))))
        | inr t ↦ rw (pump, t) (ground arith)
      ]
