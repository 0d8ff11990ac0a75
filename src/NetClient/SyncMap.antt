-- ===== src/NetClient/SyncMap.antt =====
-- The concurrent map of the `scc` crate, as robots.rs uses it: operations with what its documentation
-- says of them. `insert_sync` leaves an entry that is there, and hands the new value back.
use vpoiskaxroditeley.Prelude.{◌≡◌, refl, Option, none, some, List, [], ◌∷◌, if◌then◌else◌, arith}
use vpoiskaxroditeley.Str.{Bytes, eq_bytes, eq_bytes_iff}

pub record SyncMap (V : Type 0) : Type 1 where
  pub Map : Type 0
  pub empty : Map
  pub read_sync : Bytes → Map → Option V
  pub insert_sync : Bytes → V → Map → Map
  pub read-empty : (k : Bytes) → read_sync k empty ≡ none
  pub read-insert :
      (k j : Bytes) (v : V) (m : Map)
      → read_sync j (insert_sync k v m) ≡ (
          if eq_bytes k j
          then (elim (read_sync j m) [ some w ↦ some w | none ↦ some v ])
          else read_sync j m)

-- A list of entries meets the laws.
module _ {V : Type 0} where
  unfoldable pub read : Bytes → List (Bytes × V) → Option V
  read k [] = none
  read k ((j, v) ∷ l) = if eq_bytes j k then some v else read k l

  unfoldable pub insert : Bytes → V → List (Bytes × V) → List (Bytes × V)
  insert k v [] = (k, v) ∷ []
  insert k v ((j, w) ∷ l) = if eq_bytes j k then (j, w) ∷ l else (j, w) ∷ insert k v l

  pub read-insert_lem :
      (k j : Bytes) (v : V) (l : List (Bytes × V))
      → read j (insert k v l)
        ≡ (if eq_bytes k j then (elim (read j l) [ some w ↦ some w | none ↦ some v ]) else read j l)
  unfolding read insert
  read-insert_lem k j v [] = ground arith
  read-insert_lem k j v ((i, w) ∷ l) =
      ground (arith, eq_bytes_iff i k, eq_bytes_iff i j, eq_bytes_iff k j, read-insert_lem k j v l)

-- the map of entries
abbrev pub entries : (V : Type 0) → SyncMap V
unfolding read insert
entries V = record {
  Map = List (Bytes × V);
  empty = [];
  read_sync = read;
  insert_sync = insert;
  read-empty = λ k. refl;
  read-insert = read-insert_lem;
}
