-- ===== src/RuntimeExec/NormCache/Lookups.antt =====
-- What the tables of the cache answer.
use vpoiskaxroditeley.Prelude.{
  ℕ, ◌+◌, ◌^◌, ◌≤◌, ◌<◌, ◌≡◌, refl, sym, ap, ◌∙◌, true, false, Option, none, some, List, [], ◌∷◌,
  if◌then◌else◌, arith, Option-cases, Bool-cases, inl, inr,
}
use vpoiskaxroditeley.RuntimeExec.Budget.{Budget, drop_alone}
use vpoiskaxroditeley.RuntimeExec.Budget.Alone.{reserve_alone-room}
use vpoiskaxroditeley.RuntimeExec.NormCache.{
  Key, Entry, Store, same_key, find, touch, lookup, put, is_fresh, retain, sweep_store,
}

same_key_refl : (k : Key) → same_key k k ≡ true
same_key_refl (a, b) = ground arith

same_key_trans : (i j k : Key) → same_key i j ≡ true → same_key i k ≡ same_key j k
same_key_trans (a, b) (c, d) (e, f) h = ground arith

same_key_sym : (i j : Key) → same_key i j ≡ same_key j i
same_key_sym (a, b) (c, d) = ground arith

module _ {V : Type 0} where
  abbrev HasRoom : ℕ → Store V → Type 0
  HasRoom bytes s =
      (s.budget.entries < s.budget.entry_limit)
      × (s.budget.bytes + bytes ≤ s.budget.byte_limit)
      × (s.budget.entry_limit < 2 ^ 64)
      × (s.budget.byte_limit < 2 ^ 64)

  find_touch : (now : ℕ) (k j : Key) (l : List (Key × Entry V)) → find j (touch now k l) ≡ find j l
  unfolding find touch
  find_touch now k j [] = refl
  find_touch now k j ((i, e) ∷ l) = ground (arith, find_touch now k j l)

  find-put :
      (now : ℕ) (k : Key) (v : V) (bytes : ℕ) (s : Store V)
      → HasRoom bytes s
      → find k (put now k v bytes s).table
        ≡ elim (find k s.table) [ some w ↦ some w | none ↦ some v ]
  unfolding put find
  find-put now k v bytes s (free, fits, small, small') =
      let made = reserve_alone-room s.budget 1 bytes (omega arith) fits small small' in
      elim (Option-cases (find k s.table)) [
        | inl f ↦ rw (put, made, f, find, same_key_refl k) refl
        | inr (w, f) ↦ rw (put, made, f, f) refl
      ]

  -- What is put where there is room is found, whoever looks something up in between; an entry that is
  -- there already stays, and is found instead.
  pub lookup-put :
      (now later last : ℕ) (k j : Key) (v : V) (bytes : ℕ) (s : Store V)
      → HasRoom bytes s
      → (lookup last k (lookup later j (put now k v bytes s)).1).0
        ≡ elim (find k s.table) [ some w ↦ some w | none ↦ some v ]
  unfolding lookup
  lookup-put now later last k j v bytes s room =
      find_touch later j k (put now k v bytes s).table ∙ find-put now k v bytes s room

  -- the entry of a key
  unfoldable pub entry_of : Key → List (Key × Entry V) → Option (Entry V)
  entry_of k [] = none
  entry_of k ((j, e) ∷ l) = if same_key j k then some e else entry_of k l

  -- No key has two entries.
  abbrev pub IsDistinct : List (Key × Entry V) → Type 0
  IsDistinct [] = Unit {0}
  IsDistinct ((k, e) ∷ l) = (entry_of k l ≡ none) × IsDistinct l

  entry_of_same :
      (i j : Key) (l : List (Key × Entry V)) → same_key i j ≡ true → entry_of i l ≡ entry_of j l
  unfolding entry_of
  entry_of_same i j [] h = refl
  entry_of_same i j ((k, e) ∷ l) h = ground (
    arith,
    same_key_trans k i j,
    entry_of_same i j l h,
    same_key_trans i j k h,
    same_key_sym i k,
    same_key_sym j k,
  )

  retain-absent :
      (now max_age : ℕ) (k : Key) (l : List (Key × Entry V)) (b : Budget)
      → entry_of k l ≡ none
      → entry_of k (retain now max_age l b).table ≡ none
  unfolding retain entry_of
  retain-absent now max_age k [] b h = refl
  retain-absent now max_age k ((j, e) ∷ l) b h =
      let here : (same_key j k ≡ false) × (entry_of k l ≡ none) = ground arith in
      elim (Bool-cases (is_fresh e.used now max_age)) [
        | inl t ↦ rw (retain, t, entry_of, here.0) (retain-absent now max_age k l b here.1)
        | inr t ↦ rw (retain, t) (retain-absent now max_age k l (drop_alone 1 e.charge b) here.1)
      ]

  entry_of-retain :
      (now max_age : ℕ) (k : Key) (l : List (Key × Entry V)) (b : Budget)
      → IsDistinct l
      → entry_of k (retain now max_age l b).table ≡ elim (entry_of k l) [
        | none ↦ none
        | some e ↦ if is_fresh e.used now max_age then some e else none
      ]
  unfolding retain entry_of
  entry_of-retain now max_age k [] b d = refl
  entry_of-retain now max_age k ((j, e) ∷ l) b (new, d) =
      elim (Bool-cases (is_fresh e.used now max_age)) [
        | inl t ↦ elim (Bool-cases (same_key j k)) [
          | inl s ↦ rw (retain, t, entry_of, s) (sym (ap (λ c. if c then some e else none) t))
          | inr s ↦ rw (retain, t, entry_of, s) (entry_of-retain now max_age k l b d)
        ]
        | inr t ↦
            let b' = drop_alone 1 e.charge b in
            elim (Bool-cases (same_key j k)) [
              | inl s ↦
                  let gone : entry_of k l ≡ none = sym (entry_of_same j k l s) ∙ new in
                  rw (retain, t, s, t) (retain-absent now max_age k l b' gone)
              | inr s ↦ rw (retain, t, s) (entry_of-retain now max_age k l b' d)
            ]
      ]

  -- A sweep keeps of the entries of distinct keys just those that were used less than the given
  -- seconds ago.
  pub entry_of-sweep_store :
      (now max_age : ℕ) (k : Key) (s : Store V)
      → IsDistinct s.table
      → entry_of k (sweep_store now max_age s).table ≡ elim (entry_of k s.table) [
        | none ↦ none
        | some e ↦ if is_fresh e.used now max_age then some e else none
      ]
  unfolding sweep_store
  entry_of-sweep_store now max_age k s d = entry_of-retain now max_age k s.table s.budget d
