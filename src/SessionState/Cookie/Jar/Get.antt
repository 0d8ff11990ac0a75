-- ===== src/SessionState/Cookie/Jar/Get.antt =====
-- Looking a cookie up through the index by name, against a scan of the whole map.
use vpoiskaxroditeley.Prelude.{
  ℕ, ◌+◌, ◌%◌, ◌^◌, ◌≤◌, ◌≡◌, subst, refl, ap, ◌∙◌, Bool, ◌&&◌, Option, none, some, List, [], ◌∷◌,
  ◌++◌, ltb, if◌then◌else◌, length, length-append, get_elem?, arith, Bool-cases, Option-cases, inl,
  inr, append_assoc,
}
use vpoiskaxroditeley.Str.{Bytes, eq_bytes}
use vpoiskaxroditeley.SessionState.IndexMap.{IndexMap}
use vpoiskaxroditeley.SessionState.Cookie.{CookieEntry, CookieKey}
use vpoiskaxroditeley.SessionState.Cookie.Jar.{same_key, Slot, Jar, len, find_position, get}
use vpoiskaxroditeley.SessionState.Cookie.Jar.Index.{positions, at, IsIndexed}

-- the value of the first cookie of a name that passes a test
unfoldable pub scan : (Slot → Bool) → Bytes → List Slot → Option Bytes
scan test n [] = none
scan test n ((k, e) ∷ l) =
    let rest = scan test n l in if eq_bytes k.name n && test (k, e) then some e.value else rest

get_elem?_at :
    (pre : List Slot) (x : Slot) (l : List Slot) → get_elem? (pre ++ x ∷ l) (length pre) ≡ some x
get_elem?_at [] x l = refl
get_elem?_at (y ∷ pre) x l = get_elem?_at pre x l

module _ (im : IndexMap CookieKey CookieEntry same_key) where
  open im use {entries}

  find_position-positions :
      (test : Slot → Bool) (n : Bytes) (pre l : List Slot)
      → length pre + length l ≤ 2 ^ 32
      → find_position im test (pre ++ l) (positions n (length pre) l) ≡ scan test n l
  unfolding find_position positions scan
  find_position-positions test n pre [] h = refl
  find_position-positions test n pre ((k, e) ∷ l) h =
      let later =
        subst
          (λ t.
            find_position im test t (positions n (length (pre ++ (k, e) ∷ [])) l) ≡ scan test n l)
          (append_assoc pre ((k, e) ∷ []) l)
          (find_position-positions test n (pre ++ (k, e) ∷ []) l
            (rw (length-append pre ((k, e) ∷ [])) (omega arith))) in
      let here = get_elem?_at pre (k, e) l in
      let small : length pre % 2 ^ 32 ≡ length pre = omega arith in
      let later' = rw (length-append pre ((k, e) ∷ [])) at later in
      elim (Bool-cases (eq_bytes k.name n)) [
        | inr f ↦ rw f later'
        | inl f ↦ elim (Bool-cases (test (k, e))) [
          | inl g ↦ rw (f, small, find_position, here, g) refl
          | inr g ↦ rw (f, small, find_position, here, g) later'
        ]
      ]

  -- While the index is that of the map, and the map has at most 2^32 cookies, `get` answers with the
  -- first cookie of the map, in its order, that has the name and has not expired.
  pub get-scan :
      (now : ℕ) (j : Jar im) (name : Bytes)
      → IsIndexed im j
      → len im j ≤ 2 ^ 32
      → get im now j name ≡ scan (λ s. ltb now s.1.expires_ms) name (entries j.slots)
  unfolding get find_position
  get-scan now j name h small =
      let test : Slot → Bool = λ s. ltb now s.1.expires_ms in
      let hn = h name in
      let found = find_position-positions test name [] (entries j.slots) (omega arith) in
      elim (Option-cases (j.by_name name)) [
        | inl e ↦
            rw (get, e) (ap (find_position im test (entries j.slots)) (rw (at, e) at hn) ∙ found)
        | inr (v, e) ↦
            rw (get, e) (ap (find_position im test (entries j.slots)) (rw (at, e) at hn) ∙ found)
      ]
