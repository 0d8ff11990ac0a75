-- ===== src/Supervisor/Watch/Bounded.antt =====
-- How many pages are watched, and what putting one does to the others.
use vpoiskaxroditeley.Prelude.{
  ℕ, zero, suc, ◌-◌, ◌≤◌, ◌<◌, ◌≡◌, refl, sym, ap, ◌∙◌, false, if◌then◌else◌, Option-cases, Option,
  none, some, [], ◌∷◌, ltb, leb, length, length-drop, arith, Bool-cases, inl, inr,
}
use vpoiskaxroditeley.Str.{Bytes, eq_bytes, eq_bytes→eq, eq_bytes_refl}
use vpoiskaxroditeley.Supervisor.Watch.{
  WatchRec, Watched, watch_cap, without_old, watch_gc, lookup, insert_at, insert_sync, watch_put,
}

length-without_old : (now : ℕ) (l : Watched) → length (without_old now l) ≤ length l
unfolding without_old
length-without_old now [] = omega arith
length-without_old now ((k, v) ∷ l) = ground (arith, length-without_old now l)

length-watch_gc : (now cap : ℕ) (l : Watched) → length (watch_gc now (some cap) l) ≤ cap
unfolding watch_gc
length-watch_gc now cap l = elim (Bool-cases (leb (length (without_old now l)) cap)) [
  | inl t ↦ rw (watch_gc, t) (ground arith)
  | inr t ↦
      rw (watch_gc, t)
        (omega (arith, length-drop (length (without_old now l) - cap) (without_old now l)))
]

-- After a page was put at most `watch_cap` are watched, however many were.
pub length-watch_put :
    (now n : ℕ) (url : Bytes) (rec : WatchRec) (l : Watched)
    → length (watch_put now n url rec l) ≤ watch_cap
unfolding watch_put
length-watch_put now n url rec l =
    elim (Bool-cases (ltb watch_cap (length (insert_sync n url rec l)))) [
      | inl t ↦ rw (watch_put, t) (length-watch_gc now watch_cap (insert_sync n url rec l))
      | inr t ↦ rw (watch_put, t) (ground arith)
    ]

lookup-insert_at :
    (n : ℕ) (url : Bytes) (rec : WatchRec) (l : Watched)
    → lookup url l ≡ none
    → lookup url (insert_at n url rec l) ≡ some rec
unfolding lookup insert_at
lookup-insert_at zero url rec l absent = rw (lookup, eq_bytes_refl url) refl
lookup-insert_at (suc n) url rec [] absent = rw (lookup, eq_bytes_refl url) refl
lookup-insert_at (suc n) url rec ((k, v) ∷ l) absent = elim (Bool-cases (eq_bytes k url)) [
  | inl t ↦ let some_none : ◌≡◌ {A = Option WatchRec} (some v) none = rw (lookup, t) at absent in cc
  | inr t ↦ rw (lookup, t) (lookup-insert_at n url rec l (rw (lookup, t) at absent))
]

lookup-insert_at_other :
    (n : ℕ) (url k : Bytes) (rec : WatchRec) (l : Watched)
    → eq_bytes url k ≡ false
    → lookup k (insert_at n url rec l) ≡ lookup k l
unfolding lookup insert_at
lookup-insert_at_other zero url k rec l other = rw (lookup, other) refl
lookup-insert_at_other (suc n) url k rec [] other = rw (lookup, other) refl
lookup-insert_at_other (suc n) url k rec ((j, v) ∷ l) other =
    ap (λ r. if eq_bytes j k then some v else r) (lookup-insert_at_other n url k rec l other)

length-insert_at :
    (n : ℕ) (url : Bytes) (rec : WatchRec) (l : Watched)
    → length (insert_at n url rec l) ≡ suc (length l)
unfolding insert_at
length-insert_at zero url rec l = refl
length-insert_at (suc n) url rec [] = refl
length-insert_at (suc n) url rec (x ∷ l) = ap suc (length-insert_at n url rec l)

-- what is watched under a key after a page was put
unfoldable pub put_at : Bytes → WatchRec → Watched → Bytes → Option WatchRec
put_at url rec l k =
    if eq_bytes url k
    then elim (lookup url l) [ some old ↦ some old | none ↦ some rec ]
    else lookup k l

-- After a page was put where fewer than `watch_cap` were watched, it is watched: with what was put, or,
-- if it was watched before, with its old script, token and time of last sight. Every other page is
-- watched as before, whatever its age, or is not watched, as before.
pub lookup-watch_put :
    (now n : ℕ) (url : Bytes) (rec : WatchRec) (l : Watched) (k : Bytes)
    → length l < watch_cap
    → lookup k (watch_put now n url rec l) ≡ put_at url rec l k
unfolding watch_put insert_sync put_at
lookup-watch_put now n url rec l k few = elim (Option-cases (lookup url l)) [
  | inr (old, there) ↦
      let room : ltb watch_cap (length l) ≡ false = ground arith in
      elim (Bool-cases (eq_bytes url k)) [
        | inl same ↦
            rw (watch_put, insert_sync, there, room, put_at, same)
              (sym (ap (λ j. lookup j l) (eq_bytes→eq url k same)) ∙ there)
        | inr other ↦ rw (watch_put, insert_sync, there, room, put_at, other) refl
      ]
  | inl absent ↦
      let room : ltb watch_cap (length (insert_at n url rec l)) ≡ false =
        over (length l) (length (insert_at n url rec l)) (length-insert_at n url rec l) few in
      elim (Bool-cases (eq_bytes url k)) [
        | inl same ↦
            rw (watch_put, insert_sync, absent, room, put_at, same)
              (sym (ap (λ j. lookup j (insert_at n url rec l)) (eq_bytes→eq url k same))
                ∙ lookup-insert_at n url rec l absent)
        | inr other ↦
            rw (watch_put, insert_sync, absent, room, put_at, other)
              (lookup-insert_at_other n url k rec l other)
      ]
]
  where
    over : (m p : ℕ) → p ≡ suc m → m < watch_cap → ltb watch_cap p ≡ false
    over m p e few = ground (arith, e)
