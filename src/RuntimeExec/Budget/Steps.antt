-- ===== src/RuntimeExec/Budget/Steps.antt =====
-- A single step of a caller keeps the counters of a budget the sums of what the callers charge.
use vpoiskaxroditeley.Prelude.{
  ℕ, ◌+◌, ◌-◌, ◌^◌, ◌≤◌, ◌<◌, ◌≡◌, refl, Bool, true, false, not, ◌&&◌, some, List, [], ◌∷◌, ◌==◌,
  All, arith, Option-cases, Bool-cases, inl, inr,
}
use vpoiskaxroditeley.RuntimeExec.Budget.{
  Budget, Caller, Phase, load_entries, load_bytes, swap_entries, swap_bytes, undo_entries, charged,
  drop_bytes, refused, dropped, checked_within, step, wrapping_sub,
}

-- What a caller has added to each counter.
abbrev pub entries_of : Caller → ℕ
entries_of c = elim c.phase [
  | swap_bytes bytes_now next_bytes ↦ c.units
  | undo_entries ↦ c.units
  | charged ↦ c.units
  | _ ↦ 0
]

abbrev pub bytes_of : Caller → ℕ
bytes_of c = elim c.phase [ charged ↦ c.bytes | drop_bytes ↦ c.bytes | _ ↦ 0 ]

unfoldable pub sum : (Caller → ℕ) → List Caller → ℕ
sum f [] = 0
sum f (c ∷ cs) = f c + sum f cs

-- A caller that will exchange the bytes has checked what it will write.
abbrev pub IsChecked : ℕ → Caller → Type 0
IsChecked limit c = elim c.phase [
  | swap_bytes bytes_now next_bytes ↦ (next_bytes ≡ bytes_now + c.bytes) × (next_bytes ≤ limit)
  | _ ↦ Unit {0}
]

-- The counters are the sums over the callers and the others' shares, and within the limits.
pub record IsAccounted (entries bytes : ℕ) (b : Budget) (cs : List Caller) : Type 0 where
  pub entries_sum : b.entries ≡ entries + sum entries_of cs
  pub bytes_sum : b.bytes ≡ bytes + sum bytes_of cs
  pub entries_fit : b.entries ≤ b.entry_limit
  pub bytes_fit : b.bytes ≤ b.byte_limit
  pub entry_limit_fits : b.entry_limit < 2 ^ 64
  pub byte_limit_fits : b.byte_limit < 2 ^ 64
  pub checked : All (IsChecked b.byte_limit) cs

pub checked_within_sound :
    (limit a b next : ℕ) → checked_within limit a b ≡ some next → (next ≡ a + b) × (next ≤ limit)
unfolding checked_within
checked_within_sound limit a b next h = ground arith

pub wrapping_sub_lem : (a b : ℕ) → b ≤ a → a < 2 ^ 64 → wrapping_sub a b ≡ a - b
wrapping_sub_lem a b le lt = omega arith

exchanged_iff : (spurious : Bool) (a b : ℕ) → (not spurious && (a == b)) ≡ true → a ≡ b
exchanged_iff spurious a b h = ground arith

module _ (entries bytes units wanted : ℕ) (cs : List Caller) where
  abbrev pub caller : Phase → Caller
  caller p = record { units = units; bytes = wanted; phase = p }

  abbrev pub Before : Budget → Phase → Type 0
  Before b p = IsAccounted entries bytes b (caller p ∷ cs)

  abbrev pub After : Bool → Budget → Phase → Type 0
  After spurious b p =
      IsAccounted entries bytes (step spurious b (caller p)).0 ((step spurious b (caller p)).1 ∷ cs)

  -- A phase that charges as much as the one before, and has nothing to check.
  step-phase :
      (b : Budget) (p p' : Phase)
      → entries_of (caller p') ≡ entries_of (caller p)
      → bytes_of (caller p') ≡ bytes_of (caller p)
      → IsChecked b.byte_limit (caller p')
      → Before b p
      → Before b p'
  unfolding sum
  step-phase b p p' e y k h = record {
    entries_sum = omega (arith, e, h.entries_sum);
    bytes_sum = omega (arith, y, h.bytes_sum);
    entries_fit = h.entries_fit;
    bytes_fit = h.bytes_fit;
    entry_limit_fits = h.entry_limit_fits;
    byte_limit_fits = h.byte_limit_fits;
    checked = (k, h.checked.1);
  }

  swap_entries-IsAccounted :
      (spurious : Bool) (b : Budget) (loaded bytes_now : ℕ)
      → Before b (swap_entries loaded bytes_now)
      → After spurious b (swap_entries loaded bytes_now)
  unfolding step sum
  swap_entries-IsAccounted spurious b loaded bytes_now h =
      elim (Option-cases (checked_within b.entry_limit loaded units)) [
        | inl f ↦ rw (step, f) (step-phase b (swap_entries loaded bytes_now) refused refl refl tt h)
        | inr (next, f) ↦ elim (Option-cases (checked_within b.byte_limit bytes_now wanted)) [
          | inl g ↦
              rw (step, f, g) (step-phase b (swap_entries loaded bytes_now) refused refl refl tt h)
          | inr (next_bytes, g) ↦ elim (Bool-cases (not spurious && (b.entries == loaded))) [
            | inl t ↦
                let next_lem = checked_within_sound b.entry_limit loaded units next f in
                let same = exchanged_iff spurious b.entries loaded t in
                rw (step, f, g, t)
                  (record {
                    entries_sum = omega (arith, next_lem.0, same, h.entries_sum);
                    bytes_sum = h.bytes_sum;
                    entries_fit = next_lem.1;
                    bytes_fit = h.bytes_fit;
                    entry_limit_fits = h.entry_limit_fits;
                    byte_limit_fits = h.byte_limit_fits;
                    checked = (
                      checked_within_sound b.byte_limit bytes_now wanted next_bytes g,
                      h.checked.1,
                    );
                  })
            | inr t ↦
                rw (step, f, g, t)
                  (step-phase b (swap_entries loaded bytes_now) load_entries refl refl tt h)
          ]
        ]
      ]

  swap_bytes-IsAccounted :
      (spurious : Bool) (b : Budget) (bytes_now next_bytes : ℕ)
      → Before b (swap_bytes bytes_now next_bytes)
      → After spurious b (swap_bytes bytes_now next_bytes)
  unfolding step sum
  swap_bytes-IsAccounted spurious b bytes_now next_bytes h =
      elim (Bool-cases (b.bytes == bytes_now)) [
        | inl t ↦
            let same = exchanged_iff false b.bytes bytes_now t in
            let next_lem = h.checked.0 in
            rw (step, t)
              (record {
                entries_sum = h.entries_sum;
                bytes_sum = omega (arith, next_lem.0, same, h.bytes_sum);
                entries_fit = h.entries_fit;
                bytes_fit = next_lem.1;
                entry_limit_fits = h.entry_limit_fits;
                byte_limit_fits = h.byte_limit_fits;
                checked = (tt, h.checked.1);
              })
        | inr t ↦
            rw (step, t)
              (step-phase b (swap_bytes bytes_now next_bytes) undo_entries refl refl tt h)
      ]

  -- A charge taken back is there to be taken back, so the subtraction does not wrap.
  entries_back :
      (b : Budget) (p p' : Phase)
      → entries_of (caller p) ≡ units
      → entries_of (caller p') ≡ 0
      → bytes_of (caller p') ≡ bytes_of (caller p)
      → IsChecked b.byte_limit (caller p')
      → Before b p
      → Before (record b { entries = wrapping_sub b.entries units }) p'
  unfolding sum
  entries_back b p p' e e' y k h =
      let back =
        wrapping_sub_lem b.entries units (omega (arith, e, h.entries_sum))
          (omega (arith, h.entries_fit, h.entry_limit_fits)) in
      record {
        entries_sum = omega (arith, back, e, e', h.entries_sum);
        bytes_sum = omega (arith, y, h.bytes_sum);
        entries_fit = omega (arith, back, h.entries_fit);
        bytes_fit = h.bytes_fit;
        entry_limit_fits = h.entry_limit_fits;
        byte_limit_fits = h.byte_limit_fits;
        checked = (k, h.checked.1);
      }

  bytes_back : (spurious : Bool) (b : Budget) → Before b drop_bytes → After spurious b drop_bytes
  unfolding step sum
  bytes_back spurious b h =
      let back =
        wrapping_sub_lem b.bytes wanted (omega (arith, h.bytes_sum))
          (omega (arith, h.bytes_fit, h.byte_limit_fits)) in
      record {
        entries_sum = h.entries_sum;
        bytes_sum = omega (arith, back, h.bytes_sum);
        entries_fit = h.entries_fit;
        bytes_fit = omega (arith, back, h.bytes_fit);
        entry_limit_fits = h.entry_limit_fits;
        byte_limit_fits = h.byte_limit_fits;
        checked = (tt, h.checked.1);
      }

  pub phase-IsAccounted :
      (spurious : Bool) (b : Budget) (p : Phase) → Before b p → After spurious b p
  unfolding step
  phase-IsAccounted spurious b load_entries h =
      step-phase b load_entries (load_bytes b.entries) refl refl tt h
  phase-IsAccounted spurious b (load_bytes e) h =
      step-phase b (load_bytes e) (swap_entries e b.bytes) refl refl tt h
  phase-IsAccounted spurious b (swap_entries e y) h = swap_entries-IsAccounted spurious b e y h
  phase-IsAccounted spurious b (swap_bytes y n) h = swap_bytes-IsAccounted spurious b y n h
  phase-IsAccounted spurious b undo_entries h =
      entries_back b undo_entries load_entries refl refl refl tt h
  phase-IsAccounted spurious b charged h = entries_back b charged drop_bytes refl refl refl tt h
  phase-IsAccounted spurious b drop_bytes h = bytes_back spurious b h
  phase-IsAccounted spurious b refused h = h
  phase-IsAccounted spurious b dropped h = h

-- No step moves a limit.
pub step-limit :
    (spurious : Bool) (b : Budget) (units wanted : ℕ) (p : Phase)
    → ((step spurious b (caller 0 0 units wanted [] p)).0.byte_limit ≡ b.byte_limit)
      × ((step spurious b (caller 0 0 units wanted [] p)).0.entry_limit ≡ b.entry_limit)
unfolding step
step-limit spurious b units wanted p = ground arith
