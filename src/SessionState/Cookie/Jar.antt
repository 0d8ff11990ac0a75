-- ===== src/SessionState/Cookie/Jar.antt =====
-- crates/session-state/src/session.rs: the cookie jar, a map in insertion order with an index of its
-- positions by name. The clock is an argument of each operation.
pub mod Index
pub mod Get
pub mod Capacity
pub mod Order
pub mod Header
use vpoiskaxroditeley.Prelude.{
  ℕ, zero, suc, ◌+◌, ◌-◌, ◌*◌, ◌%◌, ◌^◌, Bool, true, false, ◌&&◌, ◌||◌, not, Option, none, some,
  List, [], ◌∷◌, ◌++◌, ◌==◌, ltb, leb, if◌then◌else◌, length, get_elem?, map,
}
use vpoiskaxroditeley.Str.{Bytes, codes, is_empty, eq_bytes}
use vpoiskaxroditeley.Str.Split.{split}
use vpoiskaxroditeley.Str.Trim.{trim}
use vpoiskaxroditeley.CoreUtils.Url.{host_of}
use vpoiskaxroditeley.SessionState.IndexMap.{IndexMap}
use vpoiskaxroditeley.SessionState.Cookie.{
  CookieEntry, CookieKey, CookieAttrs, jar_cap, u64_max, host_key, domain_matches, path_matches,
  parent_path, attrs_start, attr_loop, split_cookie, bad_pair, url_is_secure,
}

unfoldable pub same_key : CookieKey → CookieKey → Bool
same_key a b = eq_bytes a.name b.name && (eq_bytes a.domain b.domain && eq_bytes a.path b.path)

abbrev pub Slot : Type 0
Slot = CookieKey × CookieEntry

-- HashMap<CompactString, SmallVec<[u32; 2]>>
abbrev pub NameIndex : Type 0
NameIndex = Bytes → Option (List ℕ)

abbrev pub no_names : NameIndex
no_names _ = none

-- push onto the positions of a name, or begin a list for it; a position is kept as u32
unfoldable pub push_position : Bytes → ℕ → NameIndex → NameIndex
push_position name i index n =
    if eq_bytes name n
    then (elim (index name) [
      | some v ↦ some (v ++ (i % 2 ^ 32) ∷ [])
      | none ↦ some ((i % 2 ^ 32) ∷ [])
    ])
    else index n

-- the loop of `rebuild_by_name`, from a position on
unfoldable pub index_slots : ℕ → List Slot → NameIndex → NameIndex
unfolding push_position
index_slots i [] index = index
index_slots i ((k, _) ∷ l) index = index_slots (i + 1) l (push_position k.name i index)

-- One round of the search for the victim: the least expiry, then the oldest.
unfoldable pub victim_from : ℕ → List Slot → ℕ × ℕ × ℕ → ℕ × ℕ × ℕ
victim_from i [] best = best
victim_from i ((_, e) ∷ l) (idx, expires, seq) = victim_from (i + 1) l (
    if ltb e.expires_ms expires || e.expires_ms == expires && ltb e.creation_seq seq
    then (i, e.expires_ms, e.creation_seq)
    else (idx, expires, seq))

unfoldable pub victim_idx : List Slot → ℕ
unfolding victim_from
victim_idx l = (victim_from 0 l (0, u64_max, u64_max)).0

-- the tests of `header_for_into` on one cookie
unfoldable pub is_sent : ℕ → Bytes → Bytes → Bool → Slot → Bool
is_sent now host path secure_ok (k, e) =
    not (leb e.expires_ms now)
    && (not (e.secure && not secure_ok)
        && ((if not (is_empty host)
              then domain_matches host k.domain e.host_only
              else not (not (is_empty k.domain) && e.host_only))
            && (is_empty path || path_matches path k.path)))

-- `idx.sort_by`: longer paths first, then older cookies
unfoldable pub goes_before : Slot → Slot → Bool
goes_before (j, d) (k, e) =
    ltb (length k.path) (length j.path)
    || length j.path == length k.path && leb d.creation_seq e.creation_seq

unfoldable pub insert_sorted : Slot → List Slot → List Slot
unfolding goes_before
insert_sorted x [] = x ∷ []
insert_sorted x (y ∷ l) = if goes_before x y then x ∷ (y ∷ l) else y ∷ insert_sorted x l

unfoldable pub sort_slots : List Slot → List Slot
unfolding insert_sorted
sort_slots [] = []
sort_slots (x ∷ l) = insert_sorted x (sort_slots l)

unfoldable pub select_sent : ℕ → Bytes → Bytes → Bool → List Slot → List Slot
unfolding is_sent
select_sent now host path secure_ok [] = []
select_sent now host path secure_ok (x ∷ l) =
    let rest = select_sent now host path secure_ok l in
    if is_sent now host path secure_ok x then x ∷ rest else rest

-- `name=value` of each cookie, separated by `; `
unfoldable pub header_bytes : Bool → List Slot → Bytes
header_bytes first [] = []
header_bytes first ((k, e) ∷ l) =
    (if first then [] else codes "; ") ++ (k.name ++ b'=' ∷ (e.value ++ header_bytes false l))

-- the cookie that an ingested line asks for
unfoldable pub entry_of : Bytes → CookieAttrs → ℕ → CookieEntry
entry_of value a seq = record {
  value = value;
  host_only = a.host_only;
  expires_ms = a.expires_ms;
  secure = a.secure;
  creation_seq = seq;
}

pub record CookieJar (Map : Type 0) : Type 0 where
  pub slots : Map
  pub by_name : NameIndex
  pub next_seq : ℕ

module _ (im : IndexMap CookieKey CookieEntry same_key) where
  open im use {Map, entries, new, insert, retain, shift_remove_index, get_index_of}

  abbrev pub Jar : Type 0
  Jar = CookieJar Map

  unfoldable pub new_jar : Jar
  new_jar = record { slots = new; by_name = no_names; next_seq = 0 }

  abbrev pub len : Jar → ℕ
  len j = length (entries j.slots)

  unfoldable pub rebuild_by_name : Jar → Jar
  unfolding index_slots
  rebuild_by_name j = record j { by_name = index_slots 0 (entries j.slots) no_names }

  -- drop what has expired, and rebuild the index if anything was dropped
  unfoldable pub drop_expired : ℕ → Jar → Jar
  unfolding rebuild_by_name
  drop_expired now j =
      let kept = record j { slots = retain (λ s. ltb now s.1.expires_ms) j.slots } in
      if len kept == len j then kept else rebuild_by_name kept

  unfoldable pub evict_one : Jar → Jar
  unfolding rebuild_by_name victim_idx
  evict_one j =
      rebuild_by_name
        (record j { slots = shift_remove_index (victim_idx (entries j.slots)) j.slots })

  unfoldable pub make_room : ℕ → Jar → Jar
  unfolding drop_expired evict_one
  make_room now j =
      if leb jar_cap (len j)
      then (let kept = drop_expired now j in
          if leb jar_cap (len kept) then evict_one kept else kept)
      else j

  -- The entry's sequence number: the old one for a key that is there, else the next.
  unfoldable pub creation_seq_of : Jar → Option ℕ → ℕ
  creation_seq_of j none = j.next_seq
  creation_seq_of j (some idx) = elim (get_elem? (entries j.slots) idx) [
    | some s ↦ s.1.creation_seq
    | none ↦ 0
  ]

  -- the end of `ingest_scoped` and of the loop of `copy_matching`
  unfoldable pub store : CookieKey → (ℕ → CookieEntry) → Jar → Jar
  unfolding creation_seq_of push_position
  store key entry j =
      let old = get_index_of key j.slots in
      let slots = insert key (entry (creation_seq_of j old)) j.slots in
      elim old [
        | some _ ↦ record j { slots = slots }
        | none ↦ record {
          slots = slots;
          by_name = push_position key.name (length (entries slots) - 1) j.by_name;
          next_seq = (j.next_seq + 1) % 2 ^ 64;
        }
      ]

  unfoldable pub ingest_scoped : ℕ → Bytes → Bytes → Bytes → Jar → Jar
  unfolding split_cookie attrs_start attr_loop make_room store entry_of
  ingest_scoped now set_cookie url_host url_path j =
      let (pair, attrs_raw) = split_cookie set_cookie in
      elim pair [
        | none ↦ j
        | some (name, value) ↦
            if bad_pair name value
            then j
            else (let a =
                  attr_loop now url_host (attrs_start url_host url_path) (split b';' attrs_raw) in
                store (record { name = name; domain = a.domain; path = a.path }) (entry_of value a)
                  (make_room now j))
      ]

  unfoldable pub ingest : ℕ → Bytes → Jar → Jar
  unfolding ingest_scoped
  ingest now set_cookie j = ingest_scoped now set_cookie [] [] j

  unfoldable pub ingest_for_url : ℕ → Bytes → Bytes → Jar → Jar
  unfolding ingest_scoped host_of parent_path
  ingest_for_url now set_cookie url j =
      ingest_scoped now set_cookie (host_of url) (parent_path url) j

  unfoldable pub ingest_pieces : ℕ → Bytes → Bytes → List Bytes → Jar → Jar
  unfolding ingest_scoped
  ingest_pieces now host path [] j = j
  ingest_pieces now host path (p ∷ ps) j =
      ingest_pieces now host path ps (ingest_scoped now (trim p) host path j)

  unfoldable pub ingest_header : ℕ → Bytes → Bytes → Jar → Jar
  unfolding ingest_pieces host_of parent_path
  ingest_header now header url j =
      ingest_pieces now (host_of url) (parent_path url) (split b';' header) j

  -- the `continue`s of the loop of `copy_matching`
  unfoldable pub is_copied : ℕ → Bytes → Bytes → Bool → Slot → Bool
  is_copied now host path secure_ok (k, e) =
      not (leb e.expires_ms now)
      && (not (e.secure && not secure_ok)
          && (domain_matches host k.domain e.host_only && path_matches path k.path))

  unfoldable pub copy_slots : ℕ → Bytes → Bytes → Bool → List Slot → Jar → Jar
  unfolding is_copied store
  copy_slots now host path secure_ok [] j = j
  copy_slots now host path secure_ok ((k, e) ∷ l) j = copy_slots now host path secure_ok l (
      if is_copied now host path secure_ok (k, e)
      then store k (λ seq. record e { creation_seq = seq }) j
      else j)

  unfoldable pub copy_matching : ℕ → Jar → Bytes → Jar → Jar
  unfolding copy_slots host_key host_of parent_path url_is_secure
  copy_matching now from url j =
      copy_slots now (host_key (host_of url)) (parent_path url) (url_is_secure url)
        (entries from.slots) j

  -- the first position of the list whose cookie passes the test
  unfoldable pub find_position : (Slot → Bool) → List Slot → List ℕ → Option Bytes
  find_position test l [] = none
  find_position test l (i ∷ is) =
      let later = find_position test l is in
      elim (get_elem? l i) [ some s ↦ if test s then some s.1.value else later | none ↦ later ]

  unfoldable pub get : ℕ → Jar → Bytes → Option Bytes
  unfolding find_position
  get now j name = elim (j.by_name name) [
    | some idxs ↦ find_position (λ s. ltb now s.1.expires_ms) (entries j.slots) idxs
    | none ↦ none
  ]

  unfoldable pub get_for_host : ℕ → Jar → Bytes → Bytes → Option Bytes
  unfolding find_position host_key
  get_for_host now j name host =
      let h = host_key host in
      elim (j.by_name name) [
        | some idxs ↦
            find_position (λ s. domain_matches h s.0.domain s.1.host_only && ltb now s.1.expires_ms)
              (entries j.slots) idxs
        | none ↦ none
      ]

  unfoldable pub header_for_into : ℕ → Bytes → Bytes → Bool → Jar → Bytes
  unfolding select_sent sort_slots header_bytes
  header_for_into now host path secure_ok j =
      header_bytes true (sort_slots (select_sent now host path secure_ok (entries j.slots)))

  unfoldable pub header_for_url : ℕ → Bytes → Jar → Option Bytes
  unfolding header_for_into host_of parent_path url_is_secure
  header_for_url now url j =
      let header = header_for_into now (host_of url) (parent_path url) (url_is_secure url) j in
      if is_empty header then none else some header
