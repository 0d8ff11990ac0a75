-- ===== src/SessionState/Cookie/Jar/Capacity.antt =====
-- The number of cookies that a jar holds.
use vpoiskaxroditeley.Prelude.{
  ℕ, zero, suc, ◌+◌, ◌≤◌, ◌<◌, ◌≡◌, ap, ◌∙◌, Bool, ◌&&◌, ◌||◌, List, [], ◌∷◌, ◌==◌, ltb, leb,
  length, arith, Bool-cases, Option-cases, inl, inr, if_both,
}
use vpoiskaxroditeley.Str.{Bytes}
use vpoiskaxroditeley.Str.Split.{split}
use vpoiskaxroditeley.SessionState.IndexMap.{IndexMap, upsert, keep, remove_at}
use vpoiskaxroditeley.SessionState.Cookie.{
  CookieEntry, CookieKey, attrs_start, attr_loop, split_cookie, bad_pair, jar_cap, u64_max,
}
use vpoiskaxroditeley.SessionState.Cookie.Jar.{
  same_key, Slot, Jar, len, victim_from, victim_idx, drop_expired, evict_one, make_room, store,
  creation_seq_of, entry_of, ingest_scoped, rebuild_by_name,
}

-- the victim is a cookie of the list
victim_from_lt :
    (i : ℕ) (l : List Slot) (best : ℕ × ℕ × ℕ) (total : ℕ)
    → i + length l ≡ total
    → best.0 < total
    → (victim_from i l best).0 < total
unfolding victim_from
victim_from_lt i [] best total h b = b
victim_from_lt i ((k, e) ∷ l) (idx, expires, seq) total h b =
    victim_from_lt (i + 1) l _ total (omega arith) (
      if_both (λ (t : ℕ × ℕ × ℕ). t.0 < total)
        (ltb e.expires_ms expires || e.expires_ms == expires && ltb e.creation_seq seq)
        {x = (i, e.expires_ms, e.creation_seq)} {y = (idx, expires, seq)} (omega arith) b)

length-remove_at : (i : ℕ) (l : List Slot) → i < length l → suc (length (remove_at i l)) ≡ length l
unfolding remove_at
length-remove_at i [] h = absurd (omega arith)
length-remove_at zero (x ∷ l) h = omega arith
length-remove_at (suc i) (x ∷ l) h = ap suc (length-remove_at i l (omega arith))

length-upsert :
    (k : CookieKey) (v : CookieEntry) (l : List Slot)
    → length (upsert same_key k v l) ≤ suc (length l)
unfolding upsert
length-upsert k v [] = omega arith
length-upsert k v (x ∷ l) = ground (arith, length-upsert k v l)

length-keep : (p : Slot → Bool) (l : List Slot) → length (keep p l) ≤ length l
unfolding keep
length-keep p [] = omega arith
length-keep p (x ∷ l) = ground (arith, length-keep p l)

module _ (im : IndexMap CookieKey CookieEntry same_key) where
  open im use {
    Map, entries, insert, retain, get_index_of, shift_remove_index, entries-insert, entries-retain,
    entries-shift_remove_index,
  }

  len-drop_expired : (now : ℕ) (j : Jar im) → len im (drop_expired im now j) ≤ len im j
  unfolding drop_expired rebuild_by_name
  len-drop_expired now j =
      let fewer = length-keep (λ s. ltb now s.1.expires_ms) (entries j.slots) in
      let kept = ap length (entries-retain (λ s. ltb now s.1.expires_ms) j.slots) in
      if_both (λ t. len im t ≤ len im j)
        (length (entries (retain (λ s. ltb now s.1.expires_ms) j.slots)) == len im j) (omega arith)
        (omega arith)

  len-evict_one : (j : Jar im) → 0 < len im j → suc (len im (evict_one im j)) ≡ len im j
  unfolding evict_one rebuild_by_name victim_idx
  len-evict_one j h =
      let at =
        victim_from_lt 0 (entries j.slots) (0, u64_max, u64_max) (len im j) (omega arith) h in
      ap (λ l. suc (length l)) (entries-shift_remove_index (victim_idx (entries j.slots)) j.slots)
      ∙ length-remove_at (victim_idx (entries j.slots)) (entries j.slots) at

  len-make_room :
      (now : ℕ) (j : Jar im) → len im j ≤ jar_cap → len im (make_room im now j) < jar_cap
  unfolding make_room
  len-make_room now j h = elim (Bool-cases (leb jar_cap (len im j))) [
    | inr e ↦ rw (make_room, e) (ground arith)
    | inl e ↦
        let fewer = len-drop_expired now j in
        elim (Bool-cases (leb jar_cap (len im (drop_expired im now j)))) [
          | inr f ↦ rw (make_room, e, f) (ground arith)
          | inl f ↦
              let one = len-evict_one (drop_expired im now j) (ground arith) in
              rw (make_room, e, f) (omega arith)
        ]
  ]

  len-store :
      (k : CookieKey) (entry : ℕ → CookieEntry) (j : Jar im)
      → len im (store im k entry j) ≤ suc (len im j)
  unfolding store
  len-store k entry j =
      let v = entry (creation_seq_of im j (get_index_of k j.slots)) in
      let more = length-upsert k v (entries j.slots) in
      let stored = ap length (entries-insert k v j.slots) in
      elim (Option-cases (get_index_of k j.slots)) [
        | inl e ↦ rw (store, e) (omega arith)
        | inr (p, e) ↦ rw (store, e) (omega arith)
      ]

  -- A jar of at most 512 cookies still has at most 512 after any line is ingested: a full jar first
  -- drops what has expired, and if nothing has it gives one cookie up.
  pub ingest_scoped-len :
      (now : ℕ) (set_cookie url_host url_path : Bytes) (j : Jar im)
      → len im j ≤ jar_cap
      → len im (ingest_scoped im now set_cookie url_host url_path j) ≤ jar_cap
  unfolding ingest_scoped
  ingest_scoped-len now set_cookie url_host url_path j h =
      let pieces = split_cookie set_cookie in
      let a = attr_loop now url_host (attrs_start url_host url_path) (split b';' pieces.1) in
      elim (Option-cases pieces.0) [
        | inl e ↦ rw (ingest_scoped, e) h
        | inr ((name, value), e) ↦
            let room = len-make_room now j h in
            let key : CookieKey = record { name = name; domain = a.domain; path = a.path } in
            let one_more = len-store key (entry_of value a) (make_room im now j) in
            rw (ingest_scoped, e)
              (if_both (λ t. len im t ≤ jar_cap) (bad_pair name value) h (omega arith))
      ]
