-- ===== src/ParserPipeline/Dom/Names/Numbered.antt =====
-- A number that is given to a name stays that of the name, and leads back to it.
use vpoiskaxroditeley.Prelude.{
  ℕ, ◌+◌, ◌-◌, ◌%◌, ◌^◌, ◌≤◌, ◌<◌, ◌≡◌, refl, sym, ap, ap₂, ◌∙◌, subst, true, false, ltb, arith,
  none, some, List, [], ◌∷◌, length, get_elem?, Bool-cases, Option-cases, ◌⊎◌, inl, inr,
}
use vpoiskaxroditeley.Str.{Bytes, eq_bytes, eq_bytes→eq, eq_bytes_refl}
use vpoiskaxroditeley.ParserPipeline.Dom.Names.{
  Names, Interner, new, number_of, intern, name_table, dynamic_name,
}
use vpoiskaxroditeley.ParserPipeline.Dom.Names.Table.{
  IsNumbered, IsNumbered-length, names_of, sort-in_order, table_at,
}

-- What every interner keeps.
pub record IsInterned (names : Names) (i : Interner) : Type 0 where
  pub numbered : IsNumbered names.base i.dynamic i.next
  pub within : i.next ≤ names.base + names.cap

pub new-IsInterned : (names : Names) → IsInterned names (new names)
unfolding new
new-IsInterned names = record { numbered = refl; within = omega arith }

module _ (names : Names) (name : Bytes) (i : Interner) where
  known : (id : ℕ) → number_of name i.dynamic ≡ some id → intern names name i ≡ (id, i)
  unfolding intern
  known id e = rw (intern, e) refl

  added :
      number_of name i.dynamic ≡ none
      → i.next < names.base + names.cap
      → intern names name i
        ≡ (i.next, record { dynamic = (name, i.next) ∷ i.dynamic; next = i.next + 1 })
  unfolding intern
  added e room =
      let test : ltb i.next (names.base + names.cap) ≡ true = ground arith in
      rw (intern, e, test) refl

  refused :
      number_of name i.dynamic ≡ none
      → names.base + names.cap ≤ i.next
      → intern names name i ≡ (names.unknown, i)
  unfolding intern
  refused e full =
      let test : ltb i.next (names.base + names.cap) ≡ false = ground arith in
      rw (intern, e, test) refl

-- What an interning comes to: a number of the name, or none where all have been given.
abbrev IsNumber : Names → Bytes → Interner → ℕ × Interner → Type 0
IsNumber names name i (id, j) =
    IsInterned names j
    × ((other : Bytes) (k : ℕ)
        → number_of other i.dynamic ≡ some k
        → number_of other j.dynamic ≡ some k)
    × ((number_of name j.dynamic ≡ some id)
        ⊎ ((id ≡ names.unknown) × (length i.dynamic ≡ names.cap)))

intern-IsNumber :
    (names : Names) (name : Bytes) (i : Interner)
    → IsInterned names i
    → IsNumber names name i (intern names name i)
unfolding number_of
intern-IsNumber names name i s = elim (Option-cases (number_of name i.dynamic)) [
  | inr (id, e) ↦
      subst (IsNumber names name i) (sym (known names name i id e)) (s, (λ other k h. h), inl e)
  | inl e ↦ elim (Bool-cases (ltb i.next (names.base + names.cap))) [
    | inl room ↦
        let small : i.next < names.base + names.cap = ground arith in
        subst (IsNumber names name i) (sym (added names name i e small)) (
          record { numbered = (omega arith, e, s.numbered); within = omega (arith, small) },
          (λ other k h. elim (Bool-cases (eq_bytes name other)) [
            | inl same ↦
                cc (sym e ∙ ap (λ n. number_of n i.dynamic) (eq_bytes→eq name other same) ∙ h)
            | inr differs ↦ rw differs h
          ]),
          inl (rw (eq_bytes_refl name) refl),
        )
    | inr full ↦
        let large : names.base + names.cap ≤ i.next = ground arith in
        subst (IsNumber names name i) (sym (refused names name i e large)) (
          s,
          (λ other k h. h),
          inr (
            refl,
            omega
                (arith, large, s.within, IsNumbered-length names.base i.dynamic i.next s.numbered),
          ),
        )
  ]
]

-- names that are interned one after another
abbrev pub interned : Names → List Bytes → Interner → Interner
interned names [] i = i
interned names (n ∷ l) i = interned names l (intern names n i).1

interned-IsInterned :
    (names : Names) (l : List Bytes) (i : Interner)
    → IsInterned names i
    → IsInterned names (interned names l i)
interned-IsInterned names [] i s = s
interned-IsInterned names (n ∷ l) i s =
    interned-IsInterned names l (intern names n i).1 (intern-IsNumber names n i s).0

interned_keeps :
    (names : Names) (l : List Bytes) (i : Interner) (name : Bytes) (id : ℕ)
    → IsInterned names i
    → number_of name i.dynamic ≡ some id
    → number_of name (interned names l i).dynamic ≡ some id
interned_keeps names [] i name id s e = e
interned_keeps names (n ∷ l) i name id s e =
    let (sound, kept, _) = intern-IsNumber names n i s in
    interned_keeps names l (intern names n i).1 name id sound (kept name id e)

-- A name that is interned among others, before and after it, has the number `UNKNOWN` only where `CAP`
-- names have numbers already. Any other number is `BASE` or more, is that of the name whenever it is
-- interned again, and has the name in the table which is made at the end. The numbers have to fit in 16 bits.
pub dynamic_name-intern :
    (names : Names) (before after : List Bytes) (name : Bytes)
    → names.base + names.cap ≤ 2 ^ 16
    → let i = interned names before (new names) in
      let r = intern names name i in
      let j = interned names after r.1 in
      ((r.0 ≡ names.unknown) × (length i.dynamic ≡ names.cap))
      ⊎ ((names.base ≤ r.0)
          × ((intern names name j).0 ≡ r.0)
          × (dynamic_name names (name_table j).0 r.0 ≡ some name))
unfolding dynamic_name name_table
dynamic_name-intern names before after name fits =
    let i = interned names before (new names) in
    let r = intern names name i in
    let j = interned names after r.1 in
    let (sound, _, outcome) =
      intern-IsNumber names name i
        (interned-IsInterned names before (new names) (new-IsInterned names)) in
    elim outcome [
      | inr none_left ↦ inl none_left
      | inl given ↦
          let s = interned-IsInterned names after r.1 sound in
          let still = interned_keeps names after r.1 name r.0 sound given in
          let (low, high, found) = table_at names.base j.dynamic j.next name r.0 s.numbered still in
          let place : (r.0 + 2 ^ 16 - names.base) % 2 ^ 16 ≡ r.0 - names.base =
            omega (arith, low, high, s.within, fits) in
          inr (
            low,
            ap (λ (q : ℕ × Interner). q.0) (known names name j r.0 still),
            ap₂ (λ l k. get_elem? (names_of l) k)
                  (sort-in_order names.base j.dynamic j.next s.numbered) place
                ∙ found,
          )
    ]
