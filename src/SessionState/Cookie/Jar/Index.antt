-- ===== src/SessionState/Cookie/Jar/Index.antt =====
-- The index by name against the positions of the cookies of each name, over the operations of the jar.
use vpoiskaxroditeley.Prelude.{
  ℕ, suc, ◌+◌, ◌-◌, ◌%◌, ◌^◌, ◌≤◌, ◌≡◌, refl, sym, ap, ◌∙◌, Bool, true, false, Option, none, some,
  List, [], ◌∷◌, ◌++◌, ◌==◌, ==_iff, ltb, leb, if◌then◌else◌, length, length-append, arith, if_both,
  Bool-cases, Option-cases, inl, inr, append-nil, append_assoc,
}
use vpoiskaxroditeley.Str.{Bytes, eq_bytes, eq_bytes_iff}
use vpoiskaxroditeley.Str.Split.{split}
use vpoiskaxroditeley.Str.Trim.{trim}
use vpoiskaxroditeley.SessionState.IndexMap.{IndexMap, upsert, index_of, keep}
use vpoiskaxroditeley.SessionState.Cookie.{
  CookieEntry, CookieKey, attrs_start, attr_loop, split_cookie, bad_pair, jar_cap,
}
use vpoiskaxroditeley.SessionState.Cookie.Jar.{
  same_key, Slot, NameIndex, no_names, push_position, index_slots, Jar, new_jar, len,
  rebuild_by_name, drop_expired, evict_one, make_room, store, creation_seq_of, ingest_scoped,
  entry_of, victim_idx, ingest_pieces, is_copied, copy_slots,
}

-- The positions of a name, from a position on, as u32.
unfoldable pub positions : Bytes → ℕ → List Slot → List ℕ
positions n i [] = []
positions n i ((k, _) ∷ l) =
    let rest = positions n (i + 1) l in if eq_bytes k.name n then (i % 2 ^ 32) ∷ rest else rest

abbrev pub at : NameIndex → Bytes → List ℕ
at index n = elim (index n) [ some v ↦ v | none ↦ [] ]

abbrev at_of : Option (List ℕ) → List ℕ
at_of o = elim o [ some v ↦ v | none ↦ [] ]

at_pushed :
    (x : ℕ) (o o' : Option (List ℕ))
    → o ≡ o'
    → at_of (elim o [ some v ↦ some (v ++ x ∷ []) | none ↦ some (x ∷ []) ]) ≡ at_of o' ++ x ∷ []
at_pushed x none o' e = rw (← e) refl
at_pushed x (some v) o' e = rw (← e) refl

pushed_if :
    (b : Bool) (x : ℕ) (o o' : Option (List ℕ))
    → (b ≡ true → o ≡ o')
    → at_of (if b then (elim o [ some v ↦ some (v ++ x ∷ []) | none ↦ some (x ∷ []) ]) else o')
      ≡ at_of o' ++ (if b then x ∷ [] else [])
pushed_if true x o o' e = at_pushed x o o' (e refl)
pushed_if false x o o' e = sym (append-nil (at_of o'))

at-push_position :
    (name n : Bytes) (i : ℕ) (index : NameIndex)
    → at (push_position name i index) n
      ≡ at index n ++ (if eq_bytes name n then (i % 2 ^ 32) ∷ [] else [])
unfolding push_position
at-push_position name n i index =
    pushed_if (eq_bytes name n) (i % 2 ^ 32) (index name) (index n)
      (λ e. ap index ((eq_bytes_iff name n).0 e))

at-index_slots :
    (n : Bytes) (i : ℕ) (l : List Slot) (index : NameIndex)
    → at (index_slots i l index) n ≡ at index n ++ positions n i l
unfolding index_slots positions
at-index_slots n i [] index = sym (append-nil (at index n))
at-index_slots n i ((k, e) ∷ l) index =
    at-index_slots n (i + 1) l (push_position k.name i index)
    ∙ ap (λ t. t ++ positions n (i + 1) l) (at-push_position k.name n i index)
    ∙ grouped (eq_bytes k.name n)
  where
    grouped :
        (b : Bool)
        → (at index n ++ (if b then (i % 2 ^ 32) ∷ [] else [])) ++ positions n (i + 1) l
          ≡ at index n
            ++ (if b then (i % 2 ^ 32) ∷ positions n (i + 1) l else positions n (i + 1) l)
    grouped true = append_assoc (at index n) ((i % 2 ^ 32) ∷ []) (positions n (i + 1) l)
    grouped false = ap (λ t. t ++ positions n (i + 1) l) (append-nil (at index n))

positions-append :
    (n : Bytes) (i : ℕ) (l : List Slot) (k : CookieKey) (e : CookieEntry)
    → positions n i (l ++ (k, e) ∷ [])
      ≡ positions n i l ++ (if eq_bytes k.name n then ((i + length l) % 2 ^ 32) ∷ [] else [])
unfolding positions
positions-append n i [] k e = ground arith
positions-append n i ((j, d) ∷ l) k e =
    let later = positions-append n (i + 1) l k e in
    let e : i + 1 + length l ≡ i + suc (length l) = omega arith in
    elim (Bool-cases (eq_bytes j.name n)) [
      | inl f ↦ rw (f, ← e) (ap (◌∷◌ (i % 2 ^ 32)) later)
      | inr f ↦ rw (f, ← e) later
    ]

upsert_new :
    (k : CookieKey) (v : CookieEntry) (l : List Slot)
    → index_of same_key k l ≡ none
    → upsert same_key k v l ≡ l ++ (k, v) ∷ []
unfolding upsert index_of
upsert_new k v [] h = refl
upsert_new k v ((j, w) ∷ l) h = elim (Bool-cases (same_key j k)) [
  | inl e ↦ absurd (cc (rw e at h))
  | inr e ↦ elim (Option-cases (index_of same_key k l)) [
    | inl f ↦ rw e (ap (◌∷◌ (j, w)) (upsert_new k v l f))
    | inr (p, f) ↦ absurd (cc (rw (e, f) at h))
  ]
]

positions-upsert :
    (n : Bytes) (i : ℕ) (k : CookieKey) (v : CookieEntry) (l : List Slot) {p : ℕ}
    → index_of same_key k l ≡ some p
    → positions n i (upsert same_key k v l) ≡ positions n i l
unfolding positions upsert index_of
positions-upsert n i k v [] h = cc
positions-upsert n i k v ((j, w) ∷ l) h = elim (Bool-cases (same_key j k)) [
  | inl e ↦ rw e refl
  | inr e ↦ elim (Option-cases (index_of same_key k l)) [
    | inl f ↦ absurd (cc (rw (e, f) at h))
    | inr (p, f) ↦ rw (e, positions-upsert n (i + 1) k v l f) refl
  ]
]

keep_all :
    (p : Slot → Bool) (l : List Slot)
    → (length (keep p l) ≤ length l) × (length (keep p l) ≡ length l → keep p l ≡ l)
unfolding keep
keep_all p [] = (omega arith, λ _. refl)
keep_all p (x ∷ l) = ground (arith, keep_all p l)

module _ (im : IndexMap CookieKey CookieEntry same_key) where
  open im use {
    Map, entries, insert, retain, get_index_of, entries-new, entries-insert, entries-retain,
    get_index_of-entries,
  }

  -- Under each name the index has the positions of its cookies, oldest first.
  abbrev pub IsIndexed : Jar im → Type 0
  IsIndexed j = (n : Bytes) → at j.by_name n ≡ positions n 0 (entries j.slots)

  pub new_jar-IsIndexed : IsIndexed (new_jar im)
  unfolding new_jar positions
  new_jar-IsIndexed n = rw (entries-new, positions) refl

  rebuild_by_name-IsIndexed : (j : Jar im) → IsIndexed (rebuild_by_name im j)
  unfolding rebuild_by_name
  rebuild_by_name-IsIndexed j n = at-index_slots n 0 (entries j.slots) no_names

  drop_expired-IsIndexed : (now : ℕ) (j : Jar im) → IsIndexed j → IsIndexed (drop_expired im now j)
  unfolding drop_expired
  drop_expired-IsIndexed now j h =
      let slots = retain (λ s. ltb now s.1.expires_ms) j.slots in
      elim (Bool-cases (length (entries slots) == len im j)) [
        | inr e ↦ rw e (rebuild_by_name-IsIndexed (record j { slots = slots }))
        | inl e ↦
            let kept = entries-retain (λ s. ltb now s.1.expires_ms) j.slots in
            let same =
              (keep_all (λ s. ltb now s.1.expires_ms) (entries j.slots)).1
                (ap length (sym kept) ∙ (==_iff (length (entries slots)) (len im j)).0 e) in
            rw e (λ n. h n ∙ ap (positions n 0) (sym (kept ∙ same)))
      ]

  evict_one-IsIndexed : (j : Jar im) → IsIndexed (evict_one im j)
  unfolding evict_one
  evict_one-IsIndexed j =
      rebuild_by_name-IsIndexed
        (record j { slots = im.shift_remove_index (victim_idx (entries j.slots)) j.slots })

  make_room-IsIndexed : (now : ℕ) (j : Jar im) → IsIndexed j → IsIndexed (make_room im now j)
  unfolding make_room
  make_room-IsIndexed now j h = elim (Bool-cases (leb jar_cap (len im j))) [
    | inr e ↦ rw e h
    | inl e ↦ elim (Bool-cases (leb jar_cap (len im (drop_expired im now j)))) [
      | inl f ↦ rw (e, f) (evict_one-IsIndexed (drop_expired im now j))
      | inr f ↦ rw (e, f) (drop_expired-IsIndexed now j h)
    ]
  ]

  store_old-IsIndexed :
      (k : CookieKey) (v : CookieEntry) (j : Jar im) {p : ℕ}
      → get_index_of k j.slots ≡ some p
      → IsIndexed j
      → IsIndexed (record j { slots = insert k v j.slots })
  store_old-IsIndexed k v j e h n =
      h n
      ∙ sym (
          ap (positions n 0) (entries-insert k v j.slots)
          ∙ positions-upsert n 0 k v (entries j.slots) (sym (get_index_of-entries k j.slots) ∙ e))

  store_new-IsIndexed :
      (k : CookieKey) (v : CookieEntry) (j : Jar im) (seq : ℕ)
      → get_index_of k j.slots ≡ none
      → IsIndexed j
      → IsIndexed (record {
        slots = insert k v j.slots;
        by_name = push_position k.name (length (entries (insert k v j.slots)) - 1) j.by_name;
        next_seq = seq;
      })
  store_new-IsIndexed k v j seq e h n =
      let count = length (entries j.slots) in
      let pushed =
        entries-insert k v j.slots
        ∙ upsert_new k v (entries j.slots) (sym (get_index_of-entries k j.slots) ∙ e) in
      let last : count + 1 - 1 ≡ 0 + count = omega arith in
      rw
        (
          pushed,
          positions-append n 0 (entries j.slots) k v,
          ← h n,
          length-append (entries j.slots) ((k, v) ∷ []),
          last,
        )
        (at-push_position k.name n (0 + count) j.by_name)

  store-IsIndexed :
      (k : CookieKey) (entry : ℕ → CookieEntry) (j : Jar im)
      → IsIndexed j
      → IsIndexed (store im k entry j)
  unfolding store
  store-IsIndexed k entry j h =
      let v = entry (creation_seq_of im j (get_index_of k j.slots)) in
      elim (Option-cases (get_index_of k j.slots)) [
        | inl e ↦ rw (store, e) (store_new-IsIndexed k v j ((j.next_seq + 1) % 2 ^ 64) e h)
        | inr (p, e) ↦ rw (store, e) (store_old-IsIndexed k v j e h)
      ]

  -- Whatever line is ingested, in whatever scope, the index by name stays the u32 positions of each name's
  -- cookies in the map, oldest first: also when expired cookies are dropped, when one is evicted and
  -- when a cookie is replaced.
  pub ingest_scoped-IsIndexed :
      (now : ℕ) (set_cookie url_host url_path : Bytes) (j : Jar im)
      → IsIndexed j
      → IsIndexed (ingest_scoped im now set_cookie url_host url_path j)
  unfolding ingest_scoped
  ingest_scoped-IsIndexed now set_cookie url_host url_path j h =
      let pieces = split_cookie set_cookie in
      let a = attr_loop now url_host (attrs_start url_host url_path) (split b';' pieces.1) in
      elim (Option-cases pieces.0) [
        | inl e ↦ rw (ingest_scoped, e) h
        | inr ((name, value), e) ↦
            rw (ingest_scoped, e)
              (if_both IsIndexed (bad_pair name value) h (
                store-IsIndexed (record { name = name; domain = a.domain; path = a.path })
                  (entry_of value a) (make_room im now j) (make_room-IsIndexed now j h)))
      ]

  ingest_pieces-IsIndexed :
      (now : ℕ) (host path : Bytes) (ps : List Bytes) (j : Jar im)
      → IsIndexed j
      → IsIndexed (ingest_pieces im now host path ps j)
  unfolding ingest_pieces
  ingest_pieces-IsIndexed now host path [] j h = h
  ingest_pieces-IsIndexed now host path (p ∷ ps) j h =
      ingest_pieces-IsIndexed now host path ps (ingest_scoped im now (trim p) host path j)
        (ingest_scoped-IsIndexed now (trim p) host path j h)

  copy_slots-IsIndexed :
      (now : ℕ) (host path : Bytes) (secure_ok : Bool) (l : List Slot) (j : Jar im)
      → IsIndexed j
      → IsIndexed (copy_slots im now host path secure_ok l j)
  unfolding copy_slots
  copy_slots-IsIndexed now host path secure_ok [] j h = h
  copy_slots-IsIndexed now host path secure_ok ((k, e) ∷ l) j h =
      copy_slots-IsIndexed now host path secure_ok l _ (
        if_both IsIndexed (is_copied im now host path secure_ok (k, e))
          (store-IsIndexed k (λ seq. record e { creation_seq = seq }) j h) h)
