-- ===== src/Supervisor/Form.antt =====
-- crates/supervisor/src/task.rs: `FormBuilder`, the pairs of a form with an index from keys to places.
-- The index is a hash map: the list of its entries.
pub mod Pairs
use vpoiskaxroditeley.Prelude.{
  ℕ, zero, suc, Bool, Option, none, some, List, [], ◌∷◌, ◌++◌, if◌then◌else◌, length, get_elem?,
  set,
}
use vpoiskaxroditeley.Str.{Bytes, eq_bytes}

pub record FormBuilder : Type 0 where
  pub body : List (Bytes × Bytes)
  pub index : List (Bytes × ℕ)

unfoldable pub new : FormBuilder
new = record { body = []; index = [] }

-- the place that the index has for a key
unfoldable pub place_of : Bytes → List (Bytes × ℕ) → Option ℕ
place_of k [] = none
place_of k ((j, i) ∷ l) = if eq_bytes j k then some i else place_of k l

-- `body[i].1 = v`; a place out of range would be a panic
unfoldable pub set_value : ℕ → Bytes → List (Bytes × Bytes) → List (Bytes × Bytes)
set_value i v body = elim (get_elem? body i) [ none ↦ body | some (k, w) ↦ set body i (k, v) ]

unfoldable pub upsert : Bytes → Bytes → FormBuilder → FormBuilder
unfolding place_of set_value
upsert k v f = elim (place_of k f.index) [
  | some i ↦ record f { body = set_value i v f.body }
  | none ↦ record { index = (k, length f.body) ∷ f.index; body = f.body ++ (k, v) ∷ [] }
]

unfoldable pub upserts : List (Bytes × Bytes) → FormBuilder → FormBuilder
unfolding upsert
upserts [] f = f
upserts ((k, v) ∷ l) f = upserts l (upsert k v f)
