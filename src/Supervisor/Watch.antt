-- ===== src/Supervisor/Watch.antt =====
-- crates/supervisor/src/watch.rs: the list of watched pages. The concurrent map is the list of its
-- entries, in the order in which it is walked; no two have one key. Instants are seconds.
pub mod Bounded
use vpoiskaxroditeley.Prelude.{
  ℕ, zero, suc, ◌+◌, ◌-◌, ◌*◌, Bool, true, false, not, Option, none, some, List, [], ◌∷◌, ltb, leb,
  if◌then◌else◌, length, drop,
}
use vpoiskaxroditeley.Str.{Bytes, eq_bytes}

pub record WatchRec : Type 0 where
  pub probe_page : Bool
  pub script : Bytes
  pub token : Option Bytes
  pub seen : ℕ

abbrev pub watch_ttl : ℕ
watch_ttl = 6 * 3600

abbrev pub watch_cap : ℕ
watch_cap = 512

abbrev pub Watched : Type 0
Watched = List (Bytes × WatchRec)

unfoldable pub watch_rec : ℕ → Bool → Bytes → WatchRec
watch_rec now probe_page script = record {
  probe_page = probe_page;
  script = script;
  token = none;
  seen = now;
}

-- Entries that were seen too long ago go.
unfoldable pub without_old : ℕ → Watched → Watched
without_old now [] = []
without_old now ((k, v) ∷ l) =
    let rest = without_old now l in if ltb watch_ttl (now - v.seen) then rest else (k, v) ∷ rest

-- Of more than `cap` entries the first that are walked go; without a cap none.
unfoldable pub watch_gc : ℕ → Option ℕ → Watched → Watched
unfolding without_old
watch_gc now cap watched =
    let l = without_old now watched in
    elim cap [ none ↦ l | some cap ↦ if leb (length l) cap then l else drop (length l - cap) l ]

unfoldable pub lookup : Bytes → Watched → Option WatchRec
lookup k [] = none
lookup k ((j, v) ∷ l) = if eq_bytes j k then some v else lookup k l

-- `insert_sync` leaves an entry that is there. A new one is walked at some place of the map, which is
-- an argument.
unfoldable pub insert_at : ℕ → Bytes → WatchRec → Watched → Watched
insert_at zero k v l = (k, v) ∷ l
insert_at (suc n) k v [] = (k, v) ∷ []
insert_at (suc n) k v (x ∷ l) = x ∷ insert_at n k v l

unfoldable pub insert_sync : ℕ → Bytes → WatchRec → Watched → Watched
unfolding lookup insert_at
insert_sync n k v l = elim (lookup k l) [ some w ↦ l | none ↦ insert_at n k v l ]

unfoldable pub watch_put : ℕ → ℕ → Bytes → WatchRec → Watched → Watched
unfolding insert_sync watch_gc
watch_put now n url rec l =
    let l = insert_sync n url rec l in
    if ltb watch_cap (length l) then watch_gc now (some watch_cap) l else l
