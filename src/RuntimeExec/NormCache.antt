-- ===== src/RuntimeExec/NormCache.antt =====
-- crates/runtime-exec/src/cache.rs: the cache of normalised scripts, two tables with a budget each, used
-- by one thread at a time. Seconds since the epoch are an argument. The sizes of the types in memory,
-- which the compiler chooses, are arguments, as is the capacity of a vector.
pub mod Charges
pub mod Lookups
use vpoiskaxroditeley.Prelude.{
  ℕ, ◌+◌, ◌-◌, ◌*◌, ◌/◌, ◌^◌, Bool, true, false, ◌&&◌, Option, none, some, List, [], ◌∷◌, ◌==◌, ltb,
  if◌then◌else◌, length, min, is_some,
}
use vpoiskaxroditeley.Str.{Bytes}
use vpoiskaxroditeley.RuntimeExec.Budget.{Budget, new, reserve_alone, drop_alone}

-- a literal of a script; a number is the bits of its float
pub data Lit : Type 0 where
  num : (bits : ℕ) → Lit
  str : (s : Bytes) → Lit

abbrev pub Key : Type 0
Key = ℕ × ℕ

abbrev pub same_key : Key → Key → Bool
same_key (a, b) (c, d) = a == c && b == d

-- `RawEntry` and `SourceEntry`: a value, the second of its last use and the bytes of its charge.
pub record Entry (V : Type 0) : Type 0 where
  pub value : V
  pub used : ℕ
  pub charge : ℕ

-- a table and its budget
pub record Store (V : Type 0) : Type 0 where
  pub table : List (Key × Entry V)
  pub budget : Budget

abbrev pub saturating_add : ℕ → ℕ → ℕ
saturating_add a b = min (a + b) (2 ^ 64 - 1)

abbrev pub saturating_mul : ℕ → ℕ → ℕ
saturating_mul a b = min (a * b) (2 ^ 64 - 1)

abbrev pub is_fresh : ℕ → ℕ → ℕ → Bool
is_fresh used now max_age_secs = ltb (now - used) max_age_secs

module _ {V : Type 0} where
  unfoldable pub find : Key → List (Key × Entry V) → Option V
  find k [] = none
  find k ((j, e) ∷ l) = if same_key j k then some e.value else find k l

  -- `read_sync` with the store of the time of use
  unfoldable pub touch : ℕ → Key → List (Key × Entry V) → List (Key × Entry V)
  touch now k [] = []
  touch now k ((j, e) ∷ l) =
      let rest = touch now k l in
      if same_key j k then (j, record e { used = now }) ∷ l else (j, e) ∷ rest

  unfoldable pub lookup : ℕ → Key → Store V → Option V × Store V
  unfolding find touch
  lookup now k s = (find k s.table, record s { table = touch now k s.table })

  -- `insert_sync` leaves an entry that is there, and the new one is dropped with its charge.
  unfoldable pub put : ℕ → Key → V → ℕ → Store V → Store V
  unfolding find reserve_alone drop_alone
  put now k v bytes s = elim (reserve_alone 1 bytes s.budget) [
    | none ↦ s
    | some budget ↦
        if is_some (find k s.table)
        then record s { budget = drop_alone 1 bytes budget }
        else record {
          table = (k, record { value = v; used = now; charge = bytes }) ∷ s.table;
          budget = budget;
        }
  ]

  -- `retain_sync`: an entry that is not kept is dropped with its charge.
  unfoldable pub retain : ℕ → ℕ → List (Key × Entry V) → Budget → Store V
  unfolding drop_alone
  retain now max_age_secs [] b = record { table = []; budget = b }
  retain now max_age_secs ((k, e) ∷ l) b =
      let kept = retain now max_age_secs l b in
      let others = retain now max_age_secs l (drop_alone 1 e.charge b) in
      if is_fresh e.used now max_age_secs
      then record kept { table = (k, e) ∷ kept.table }
      else others

  unfoldable pub sweep_store : ℕ → ℕ → Store V → Store V
  unfolding retain
  sweep_store now max_age_secs s = retain now max_age_secs s.table s.budget

pub record NormCache : Type 0 where
  pub raw : Store (ℕ × List Lit)
  pub src : Store Bytes

unfoldable pub with_budget : ℕ → ℕ → NormCache
unfolding new
with_budget cap accounted_bytes =
    let raw_bytes = accounted_bytes / 2 in
    record {
      raw = record { table = []; budget = new cap raw_bytes };
      src = record { table = []; budget = new cap (accounted_bytes - raw_bytes) };
    }

unfoldable pub strings_bytes : ℕ → List Lit → ℕ
strings_bytes bytes [] = bytes
strings_bytes bytes (num bits ∷ l) = strings_bytes bytes l
strings_bytes bytes (str s ∷ l) = strings_bytes (saturating_add bytes (length s)) l

-- what `put_raw` charges; `spilled` is the capacity of a vector that is not in line
unfoldable pub raw_charge : ℕ → ℕ → ℕ → Option ℕ → List Lit → ℕ
unfolding strings_bytes
raw_charge entry_size vec_size lit_size spilled args =
    let bytes = saturating_add entry_size vec_size in
    strings_bytes
      (elim spilled [
        | none ↦ bytes
        | some capacity ↦ saturating_add bytes (saturating_mul capacity lit_size)
      ])
      args

-- The operations with what they are called with: the time, the domain and the hash.
pub data Op : Type 0 where
  lookup_raw : (now domain raw : ℕ) → Op
  put_raw :
      (now domain raw skel : ℕ) (args : List Lit) (entry_size vec_size lit_size : ℕ)
      (spilled : Option ℕ)
      → Op
  lookup_src : (now domain skel : ℕ) → Op
  put_src : (now domain skel : ℕ) (source : Bytes) (entry_size : ℕ) → Op
  sweep : (now max_age_secs : ℕ) → Op

unfoldable pub apply : Op → NormCache → NormCache
unfolding lookup put sweep_store raw_charge
apply (lookup_raw now domain raw) c = record c { raw = (lookup now (domain, raw) c.raw).1 }
apply (put_raw now domain raw skel args entry_size vec_size lit_size spilled) c = record c {
  raw =
      put now (domain, raw) (skel, args) (raw_charge entry_size vec_size lit_size spilled args)
        c.raw;
}
apply (lookup_src now domain skel) c = record c { src = (lookup now (domain, skel) c.src).1 }
apply (put_src now domain skel source entry_size) c = record c {
  src = put now (domain, skel) source (saturating_add entry_size (length source)) c.src;
}
apply (sweep now max_age_secs) c = record {
  raw = sweep_store now max_age_secs c.raw;
  src = sweep_store now max_age_secs c.src;
}

unfoldable pub run : List Op → NormCache → NormCache
unfolding apply
run [] c = c
run (op ∷ ops) c = run ops (apply op c)

abbrev pub accounted_bytes : NormCache → ℕ
accounted_bytes c = saturating_add c.raw.budget.bytes c.src.budget.bytes
