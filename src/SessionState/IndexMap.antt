-- ===== src/SessionState/IndexMap.antt =====
-- The insertion-ordered map of the `indexmap` crate, as session.rs uses it: its iteration order, and
-- what its documentation says that each operation makes of it.
use vpoiskaxroditeley.Prelude.{
  ℕ, zero, suc, ◌≡◌, refl, Bool, Option, none, some, List, [], ◌∷◌, if◌then◌else◌,
}
use mathlib.Core.Option

module _ {K V : Type 0} where
  -- A key that is there keeps its place; a new one comes last.
  unfoldable pub upsert : (K → K → Bool) → K → V → List (K × V) → List (K × V)
  upsert same k v [] = (k, v) ∷ []
  upsert same k v ((j, w) ∷ l) = if same j k then (j, v) ∷ l else (j, w) ∷ upsert same k v l

  unfoldable pub index_of : (K → K → Bool) → K → List (K × V) → Option ℕ
  index_of same k [] = none
  index_of same k ((j, w) ∷ l) = if same j k then some 0 else Option.map suc (index_of same k l)

  unfoldable pub keep : (K × V → Bool) → List (K × V) → List (K × V)
  keep p [] = []
  keep p (x ∷ l) = let rest = keep p l in if p x then x ∷ rest else rest

  unfoldable pub remove_at : ℕ → List (K × V) → List (K × V)
  remove_at i [] = []
  remove_at zero (x ∷ l) = l
  remove_at (suc i) (x ∷ l) = x ∷ remove_at i l

pub record IndexMap (K V : Type 0) (same : K → K → Bool) : Type 1 where
  pub Map : Type 0
  pub entries : Map → List (K × V)
  pub new : Map
  pub insert : K → V → Map → Map
  pub retain : (K × V → Bool) → Map → Map
  pub shift_remove_index : ℕ → Map → Map
  pub get_index_of : K → Map → Option ℕ
  pub entries-new : entries new ≡ []
  pub entries-insert :
      (k : K) (v : V) (m : Map) → entries (insert k v m) ≡ upsert same k v (entries m)
  pub entries-retain : (p : K × V → Bool) (m : Map) → entries (retain p m) ≡ keep p (entries m)
  pub entries-shift_remove_index :
      (i : ℕ) (m : Map) → entries (shift_remove_index i m) ≡ remove_at i (entries m)
  pub get_index_of-entries : (k : K) (m : Map) → get_index_of k m ≡ index_of same k (entries m)

-- A list meets the laws.
abbrev pub listed : (K V : Type 0) (same : K → K → Bool) → IndexMap K V same
listed K V same = record {
  Map = List (K × V);
  entries = λ m. m;
  new = [];
  insert = upsert same;
  retain = keep;
  shift_remove_index = remove_at;
  get_index_of = index_of same;
  entries-new = refl;
  entries-insert = λ k v m. refl;
  entries-retain = λ p m. refl;
  entries-shift_remove_index = λ i m. refl;
  get_index_of-entries = λ k m. refl;
}
