-- ===== src/Supervisor/Form/Pairs.antt =====
-- The pairs of a form are those of an insertion-ordered map.
use vpoiskaxroditeley.Prelude.{
  ℕ, suc, ◌≡◌, refl, sym, ap, subst, ◌∙◌, Bool, true, false, Option, none, some, List, [], ◌∷◌,
  ◌++◌, if◌then◌else◌, length, get_elem?, Bool-cases, Option-cases, inl, inr,
}
use mathlib.Core.Option
use mathlib.Core.Option.{some-injective}
use vpoiskaxroditeley.Str.{Bytes, eq_bytes, eq_bytes_iff}
use vpoiskaxroditeley.SessionState.IndexMap
use vpoiskaxroditeley.SessionState.IndexMap.{index_of}
use vpoiskaxroditeley.Supervisor.Form.{FormBuilder, new, place_of, set_value, upsert, upserts}

abbrev Pairs : Type 0
Pairs = List (Bytes × Bytes)

-- The index has for each key the place at which the pairs have it.
abbrev IsIndexed : FormBuilder → Type 0
IsIndexed f = (k : Bytes) → place_of k f.index ≡ index_of eq_bytes k f.body

-- pairs put one after the other into an insertion-ordered map
unfoldable pub inserted : Pairs → Pairs → Pairs
inserted [] m = m
inserted ((k, v) ∷ l) m = inserted l (IndexMap.upsert eq_bytes k v m)

set_value-cons :
    (i : ℕ) (v : Bytes) (x : Bytes × Bytes) (body : Pairs)
    → set_value (suc i) v (x ∷ body) ≡ x ∷ set_value i v body
unfolding set_value
set_value-cons i v x body = elim (Option-cases (get_elem? body i)) [
  | inl e ↦ rw (set_value, e) refl
  | inr ((k, w), e) ↦ rw (set_value, e) refl
]

-- a place behind the first is one of the rest
map-suc :
    (o : Option ℕ) (i : ℕ) → Option.map suc o ≡ some i → (j : ℕ) × ((o ≡ some j) × (i ≡ suc j))
map-suc none i h = absurd cc
map-suc (some j) i h = (j, (refl, sym (some-injective (suc j) i h)))

map-none : (o : Option ℕ) → Option.map suc o ≡ none → o ≡ none
map-none none h = refl
map-none (some j) h = absurd cc

set_value_zero : (v j w : Bytes) (body : Pairs) → set_value 0 v ((j, w) ∷ body) ≡ (j, v) ∷ body
unfolding set_value
set_value_zero v j w body = refl

set_value-index_of :
    (k v : Bytes) (i : ℕ) (body : Pairs)
    → index_of eq_bytes k body ≡ some i
    → set_value i v body ≡ IndexMap.upsert eq_bytes k v body
unfolding IndexMap.upsert index_of
set_value-index_of k v i [] h = cc
set_value-index_of k v i ((j, w) ∷ body) h = elim (Bool-cases (eq_bytes j k)) [
  | inl t ↦
      let first = some-injective 0 i (rw (index_of, t) at h) in
      rw (IndexMap.upsert, t)
        (subst (λ n. set_value n v ((j, w) ∷ body) ≡ (j, v) ∷ body) first
          (set_value_zero v j w body))
  | inr f ↦
      let (n, (e, s)) = map-suc (index_of eq_bytes k body) i (rw (index_of, f) at h) in
      rw (IndexMap.upsert, f, s)
        (set_value-cons n v (j, w) body ∙ ap (λ l. (j, w) ∷ l) (set_value-index_of k v n body e))
]

append-index_of :
    (k v : Bytes) (body : Pairs)
    → index_of eq_bytes k body ≡ none
    → body ++ (k, v) ∷ [] ≡ IndexMap.upsert eq_bytes k v body
unfolding IndexMap.upsert index_of
append-index_of k v [] h = refl
append-index_of k v ((j, w) ∷ body) h = elim (Bool-cases (eq_bytes j k)) [
  | inl t ↦ let zero_none : ◌≡◌ {A = Option ℕ} (some 0) none = rw (index_of, t) at h in absurd cc
  | inr f ↦
      rw (IndexMap.upsert, f)
        (ap (λ l. (j, w) ∷ l) (append-index_of k v body (map-none _ (rw (index_of, f) at h))))
]

-- A key that is there keeps every key's place.
index_of-upsert :
    (k v j : Bytes) (i : ℕ) (body : Pairs)
    → index_of eq_bytes k body ≡ some i
    → index_of eq_bytes j (IndexMap.upsert eq_bytes k v body) ≡ index_of eq_bytes j body
unfolding IndexMap.upsert index_of
index_of-upsert k v j i [] h = cc
index_of-upsert k v j i ((l, w) ∷ body) h = elim (Bool-cases (eq_bytes l k)) [
  | inl t ↦ rw (IndexMap.upsert, t) refl
  | inr f ↦
      let (n, (e, s)) = map-suc (index_of eq_bytes k body) i (rw (index_of, f) at h) in
      rw (IndexMap.upsert, f)
        (ap (λ o. if eq_bytes l j then some 0 else Option.map suc o)
          (index_of-upsert k v j n body e))
]

map_behind :
    (o : Option ℕ) (b : Bool) (n : ℕ)
    → Option.map suc (elim o [ some i ↦ some i | none ↦ if b then some n else none ])
      ≡ elim (Option.map suc o) [ some i ↦ some i | none ↦ if b then some (suc n) else none ]
map_behind (some i) b n = refl
map_behind none true n = refl
map_behind none false n = refl

behind_other :
    (o : Option ℕ) (b : Bool) (n : ℕ)
    → b ≡ false
    → elim o [ some i ↦ some i | none ↦ if b then some n else none ] ≡ o
behind_other o true n h = cc
behind_other none false n h = refl
behind_other (some i) false n h = refl

-- A new key has the place behind the others.
index_of-append :
    (k v j : Bytes) (body : Pairs)
    → index_of eq_bytes j (body ++ (k, v) ∷ []) ≡ elim (index_of eq_bytes j body) [
      | some i ↦ some i
      | none ↦ if eq_bytes k j then some (length body) else none
    ]
unfolding index_of
index_of-append k v j [] = refl
index_of-append k v j ((l, w) ∷ body) = elim (Bool-cases (eq_bytes l j)) [
  | inl t ↦ rw (t) refl
  | inr f ↦ rw (f) (
      ap (Option.map suc) (index_of-append k v j body)
      ∙ map_behind (index_of eq_bytes j body) (eq_bytes k j) (length body))
]

upsert-IsIndexed :
    (k v : Bytes) (f : FormBuilder)
    → IsIndexed f
    → IsIndexed (upsert k v f) × ((upsert k v f).body ≡ IndexMap.upsert eq_bytes k v f.body)
unfolding upsert place_of
upsert-IsIndexed k v f h = elim (Option-cases (place_of k f.index)) [
  | inl e ↦
      let absent = sym (h k) ∙ e in
      rw (upsert, e)
        (
          λ j. elim (Bool-cases (eq_bytes k j)) [
            | inl t ↦
                let same = (eq_bytes_iff k j).0 t in
                let gone = subst (λ q. index_of eq_bytes q f.body ≡ none) same absent in
                sym (index_of-append k v j f.body ∙ rw (gone, t) refl)
            | inr n ↦ rw (n) (
                h j
                ∙ sym (behind_other (index_of eq_bytes j f.body) (eq_bytes k j) (length f.body) n)
                ∙ sym (index_of-append k v j f.body))
          ],
          append-index_of k v f.body absent,
        )
  | inr (i, e) ↦
      let there = sym (h k) ∙ e in
      let same = set_value-index_of k v i f.body there in
      rw (upsert, e)
        (
          (λ j. h j ∙ sym (ap (index_of eq_bytes j) same ∙ index_of-upsert k v j i f.body there)),
          same,
        )
]

upserts-IsIndexed :
    (l : Pairs) (f : FormBuilder) → IsIndexed f → (upserts l f).body ≡ inserted l f.body
unfolding upserts inserted
upserts-IsIndexed [] f h = refl
upserts-IsIndexed ((k, v) ∷ l) f h =
    let (indexed, same) = upsert-IsIndexed k v f h in
    upserts-IsIndexed l (upsert k v f) indexed ∙ ap (inserted l) same

-- The pairs that `done` gives are those of an insertion-ordered map into which all were put: each key
-- once, where it came first, with the value that came last.
pub upserts-inserted : (l : Pairs) → (upserts l new).body ≡ inserted l []
unfolding new place_of index_of
upserts-inserted l = upserts-IsIndexed l new (λ k. refl)
