-- ===== src/RuntimeExec/NormCache/Charges.antt =====
-- The budgets of the cache are those of its entries.
use vpoiskaxroditeley.Prelude.{
  ℕ, suc, ◌+◌, ◌-◌, ◌/◌, ◌^◌, ◌≤◌, ◌<◌, ◌≡◌, ◌↔◌, refl, ◌∙◌, List, [], ◌∷◌, length, max, is_some,
  arith, Option-cases, Bool-cases, inl, inr,
}
use vpoiskaxroditeley.RuntimeExec.Budget.{Budget, reserve_alone, drop_alone, new}
use vpoiskaxroditeley.RuntimeExec.Budget.Steps.{wrapping_sub_lem}
use vpoiskaxroditeley.RuntimeExec.Budget.Alone.{reserve_alone-drop_alone, reserve_alone-IsReserved}
use vpoiskaxroditeley.RuntimeExec.NormCache.{
  Key, Entry, Store, NormCache, Op, find, touch, lookup, put, is_fresh, retain, sweep_store,
  lookup_raw, put_raw, lookup_src, put_src, sweep, apply, run, with_budget, accounted_bytes,
  raw_charge, saturating_add,
}

-- The limits of a budget stay what they are.
abbrev HasLimits : ℕ → ℕ → Budget → Type 0
HasLimits entry_limit byte_limit b = (b.entry_limit ≡ entry_limit) × (b.byte_limit ≡ byte_limit)

module _ {V : Type 0} where
  unfoldable pub charges : List (Key × Entry V) → ℕ
  charges [] = 0
  charges ((k, e) ∷ l) = e.charge + charges l

  -- The counters of the budget are those of the table and of the entries still to come.
  pub record IsCharged (entries bytes : ℕ) (l : List (Key × Entry V)) (b : Budget) : Type 0 where
    pub entries_sum : b.entries ≡ entries + length l
    pub bytes_sum : b.bytes ≡ bytes + charges l
    pub entries_fit : b.entries ≤ b.entry_limit
    pub bytes_fit : b.bytes ≤ b.byte_limit
    pub entry_limit_fits : b.entry_limit < 2 ^ 64
    pub byte_limit_fits : b.byte_limit < 2 ^ 64

  touch-charges :
      (now : ℕ) (k : Key) (l : List (Key × Entry V))
      → (length (touch now k l) ≡ length l) × (charges (touch now k l) ≡ charges l)
  unfolding touch charges
  touch-charges now k [] = (refl, refl)
  touch-charges now k ((j, e) ∷ l) = ground (arith, touch-charges now k l)

  -- An entry that is dropped gives its charge back.
  dropped-IsCharged :
      (entries bytes : ℕ) (k : Key) (e : Entry V) (l : List (Key × Entry V)) (b : Budget)
      → IsCharged entries bytes ((k, e) ∷ l) b
      → IsCharged entries bytes l (drop_alone 1 e.charge b)
  unfolding charges drop_alone
  dropped-IsCharged entries bytes k e l b h =
      let one =
        wrapping_sub_lem b.entries 1 (omega (arith, h.entries_sum))
          (omega (arith, h.entries_fit, h.entry_limit_fits)) in
      let all =
        wrapping_sub_lem b.bytes e.charge (omega (arith, h.bytes_sum))
          (omega (arith, h.bytes_fit, h.byte_limit_fits)) in
      record {
        entries_sum = omega (arith, one, h.entries_sum);
        bytes_sum = omega (arith, all, h.bytes_sum);
        entries_fit = omega (arith, one, h.entries_fit);
        bytes_fit = omega (arith, all, h.bytes_fit);
        entry_limit_fits = h.entry_limit_fits;
        byte_limit_fits = h.byte_limit_fits;
      }

  kept-IsCharged :
      (entries bytes : ℕ) (k : Key) (e : Entry V) (l : List (Key × Entry V)) (b : Budget)
      → IsCharged entries bytes ((k, e) ∷ l) b ↔ IsCharged (suc entries) (e.charge + bytes) l b
  unfolding charges
  kept-IsCharged entries bytes k e l b = (
    λ h. record {
      entries_sum = omega (arith, h.entries_sum);
      bytes_sum = omega (arith, h.bytes_sum);
      entries_fit = h.entries_fit;
      bytes_fit = h.bytes_fit;
      entry_limit_fits = h.entry_limit_fits;
      byte_limit_fits = h.byte_limit_fits;
    },
    λ h. record {
      entries_sum = omega (arith, h.entries_sum);
      bytes_sum = omega (arith, h.bytes_sum);
      entries_fit = h.entries_fit;
      bytes_fit = h.bytes_fit;
      entry_limit_fits = h.entry_limit_fits;
      byte_limit_fits = h.byte_limit_fits;
    },
  )

  abbrev pub IsSound : Store V → Type 0
  IsSound s = IsCharged 0 0 s.table s.budget

  retain-IsCharged :
      (now max_age entries bytes : ℕ) (l : List (Key × Entry V)) (b : Budget)
      → IsCharged entries bytes l b
      → IsCharged entries bytes (retain now max_age l b).table (retain now max_age l b).budget
  unfolding retain
  retain-IsCharged now max_age entries bytes [] b h = h
  retain-IsCharged now max_age entries bytes ((k, e) ∷ l) b h =
      elim (Bool-cases (is_fresh e.used now max_age)) [
        | inl t ↦
            let inner = (kept-IsCharged entries bytes k e l b).0 h in
            let rest = retain-IsCharged now max_age (suc entries) (e.charge + bytes) l b inner in
            let kept = retain now max_age l b in
            rw (retain, t) ((kept-IsCharged entries bytes k e kept.table kept.budget).1 rest)
        | inr t ↦
            rw (retain, t)
              (retain-IsCharged now max_age entries bytes l (drop_alone 1 e.charge b)
                (dropped-IsCharged entries bytes k e l b h))
      ]

  put-IsSound :
      (now : ℕ) (k : Key) (v : V) (bytes : ℕ) (s : Store V)
      → IsSound s
      → IsSound (put now k v bytes s)
  unfolding put charges
  put-IsSound now k v bytes s h = elim (Option-cases (reserve_alone 1 bytes s.budget)) [
    | inl f ↦ rw (put, f) h
    | inr (b, f) ↦ elim (Bool-cases (is_some (find k s.table))) [
      | inl t ↦
          let back =
            reserve_alone-drop_alone s.budget b 1 bytes h.entry_limit_fits h.byte_limit_fits f in
          rw (put, f, t, back) h
      | inr t ↦
          let made = reserve_alone-IsReserved s.budget b 1 bytes f in
          rw (put, f, t)
            (record {
              entries_sum = omega (arith, made.entries_sum, h.entries_sum);
              bytes_sum = omega (arith, made.bytes_sum, h.bytes_sum);
              entries_fit = made.entries_fit;
              bytes_fit = made.bytes_fit;
              entry_limit_fits = omega (arith, made.same_entry_limit, h.entry_limit_fits);
              byte_limit_fits = omega (arith, made.same_byte_limit, h.byte_limit_fits);
            })
    ]
  ]

  lookup-IsSound : (now : ℕ) (k : Key) (s : Store V) → IsSound s → IsSound (lookup now k s).1
  unfolding lookup
  lookup-IsSound now k s h =
      let same = touch-charges now k s.table in
      record {
        entries_sum = omega (arith, same.0, h.entries_sum);
        bytes_sum = omega (arith, same.1, h.bytes_sum);
        entries_fit = h.entries_fit;
        bytes_fit = h.bytes_fit;
        entry_limit_fits = h.entry_limit_fits;
        byte_limit_fits = h.byte_limit_fits;
      }

  retain-HasLimits :
      (now max_age entry_limit byte_limit : ℕ) (l : List (Key × Entry V)) (b : Budget)
      → HasLimits entry_limit byte_limit b
      → HasLimits entry_limit byte_limit (retain now max_age l b).budget
  unfolding retain drop_alone
  retain-HasLimits now max_age entry_limit byte_limit [] b h = h
  retain-HasLimits now max_age entry_limit byte_limit ((k, e) ∷ l) b h =
      elim (Bool-cases (is_fresh e.used now max_age)) [
        | inl t ↦ rw (retain, t) (retain-HasLimits now max_age entry_limit byte_limit l b h)
        | inr t ↦
            rw (retain, t)
              (retain-HasLimits now max_age entry_limit byte_limit l (drop_alone 1 e.charge b) h)
      ]

  put-HasLimits :
      (now : ℕ) (k : Key) (v : V) (bytes entry_limit byte_limit : ℕ) (s : Store V)
      → HasLimits entry_limit byte_limit s.budget
      → HasLimits entry_limit byte_limit (put now k v bytes s).budget
  unfolding put drop_alone
  put-HasLimits now k v bytes entry_limit byte_limit s h =
      elim (Option-cases (reserve_alone 1 bytes s.budget)) [
        | inl f ↦ rw (put, f) h
        | inr (b, f) ↦
            let made = reserve_alone-IsReserved s.budget b 1 bytes f in
            let limits : HasLimits entry_limit byte_limit b =
              (made.same_entry_limit ∙ h.0, made.same_byte_limit ∙ h.1) in
            elim (Bool-cases (is_some (find k s.table))) [
              | inl t ↦ rw (put, f, t) limits
              | inr t ↦ rw (put, f, t) limits
            ]
      ]

  abbrev IsWithin : ℕ → ℕ → Store V → Type 0
  IsWithin entry_limit byte_limit s = IsSound s × HasLimits entry_limit byte_limit s.budget

abbrev IsBounded : ℕ → ℕ → ℕ → NormCache → Type 0
IsBounded cap raw_bytes src_bytes c = IsWithin cap raw_bytes c.raw × IsWithin cap src_bytes c.src

apply-IsBounded :
    (cap raw_bytes src_bytes : ℕ) (op : Op) (c : NormCache)
    → IsBounded cap raw_bytes src_bytes c
    → IsBounded cap raw_bytes src_bytes (apply op c)
unfolding apply lookup sweep_store
apply-IsBounded cap rb sb (lookup_raw now d raw) c ((s, m), r) =
    ((lookup-IsSound now (d, raw) c.raw s, m), r)
apply-IsBounded cap rb sb (lookup_src now d skel) c (r, (s, m)) =
    (r, (lookup-IsSound now (d, skel) c.src s, m))
apply-IsBounded cap rb sb (put_raw now d raw skel args a v l spilled) c ((s, m), r) = (
  (
    put-IsSound now (d, raw) (skel, args) (raw_charge a v l spilled args) c.raw s,
    put-HasLimits now (d, raw) (skel, args) (raw_charge a v l spilled args) cap rb c.raw m,
  ),
  r,
)
apply-IsBounded cap rb sb (put_src now d skel source a) c (r, (s, m)) =
    let bytes = saturating_add a (length source) in
    (
      r,
      (
        put-IsSound now (d, skel) source bytes c.src s,
        put-HasLimits now (d, skel) source bytes cap sb c.src m,
      ),
    )
apply-IsBounded cap rb sb (sweep now max_age) c ((s, m), (s', m')) = (
  (
    retain-IsCharged now max_age 0 0 c.raw.table c.raw.budget s,
    retain-HasLimits now max_age cap rb c.raw.table c.raw.budget m,
  ),
  (
    retain-IsCharged now max_age 0 0 c.src.table c.src.budget s',
    retain-HasLimits now max_age cap sb c.src.table c.src.budget m',
  ),
)

run-IsBounded :
    (cap raw_bytes src_bytes : ℕ) (ops : List Op) (c : NormCache)
    → IsBounded cap raw_bytes src_bytes c
    → IsBounded cap raw_bytes src_bytes (run ops c)
unfolding run
run-IsBounded cap rb sb [] c h = h
run-IsBounded cap rb sb (op ∷ ops) c h =
    run-IsBounded cap rb sb ops (apply op c) (apply-IsBounded cap rb sb op c h)

empty-IsWithin :
    {V : Type 0} (cap bytes : ℕ)
    → cap < 2 ^ 64
    → bytes < 2 ^ 64
    → IsWithin {V = V} (max cap 1) (max bytes 1) (record { table = []; budget = new cap bytes })
unfolding new charges
empty-IsWithin cap bytes small small' = (
  record {
    entries_sum = omega arith;
    bytes_sum = omega arith;
    entries_fit = omega arith;
    bytes_fit = omega arith;
    entry_limit_fits = omega arith;
    byte_limit_fits = omega arith;
  },
  (refl, refl),
)

-- Whatever is looked up, put and swept, neither table of a new cache comes to have more entries than
-- its capacity, of which 0 counts as 1, and the bytes that are accounted are the charges of the
-- entries that are there, at most the bytes that were asked for, of which 0 and 1 count as 2.
pub run-accounted_bytes :
    (cap bytes : ℕ) (ops : List Op)
    → cap < 2 ^ 64
    → bytes < 2 ^ 63
    → (length (run ops (with_budget cap bytes)).raw.table ≤ max cap 1)
      × (length (run ops (with_budget cap bytes)).src.table ≤ max cap 1)
      × (accounted_bytes (run ops (with_budget cap bytes))
          ≡ charges (run ops (with_budget cap bytes)).raw.table
            + charges (run ops (with_budget cap bytes)).src.table)
      × (accounted_bytes (run ops (with_budget cap bytes)) ≤ max bytes 2)
unfolding with_budget
run-accounted_bytes cap bytes ops small small' =
    let ((r, m), (s, n)) =
      run-IsBounded (max cap 1) (max (bytes / 2) 1) (max (bytes - bytes / 2) 1) ops
        (with_budget cap bytes)
        (
          empty-IsWithin cap (bytes / 2) small (omega arith),
          empty-IsWithin cap (bytes - bytes / 2) small (omega arith),
        ) in
    (
      omega (arith, r.entries_sum, r.entries_fit, m.0),
      omega (arith, s.entries_sum, s.entries_fit, n.0),
      omega (arith, r.bytes_sum, s.bytes_sum, r.bytes_fit, s.bytes_fit, m.1, n.1),
      omega (arith, r.bytes_sum, s.bytes_sum, r.bytes_fit, s.bytes_fit, m.1, n.1),
    )
