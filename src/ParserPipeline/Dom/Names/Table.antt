-- ===== src/ParserPipeline/Dom/Names/Table.antt =====
-- The table of the names that have been numbered.
use vpoiskaxroditeley.Prelude.{
  ℕ, zero, suc, ◌+◌, ◌-◌, ◌≤◌, ◌<◌, ◌≡◌, refl, sym, ap, ◌∙◌, false, leb, arith, Option, none, some,
  List, [], ◌∷◌, ◌++◌, map, length, get_elem?, length-append, Bool-cases, inl, inr,
}
use vpoiskaxroditeley.Str.{Bytes, eq_bytes, eq_bytes→eq}
use vpoiskaxroditeley.ParserPipeline.Dom.Names.{number_of, insert_by_id, sort_by_id}

-- The entries have the numbers from `base` to `next`, the last first, and each its own name.
abbrev pub IsNumbered : ℕ → List (Bytes × ℕ) → ℕ → Type 0
IsNumbered base [] next = next ≡ base
IsNumbered base ((name, id) ∷ l) next =
    (next ≡ suc id) × (number_of name l ≡ none) × IsNumbered base l id

-- the entries as they were inserted
abbrev in_order : List (Bytes × ℕ) → List (Bytes × ℕ)
in_order [] = []
in_order (e ∷ l) = in_order l ++ e ∷ []

length-in_order : (l : List (Bytes × ℕ)) → length (in_order l) ≡ length l
length-in_order [] = refl
length-in_order (e ∷ l) = omega (arith, length-append (in_order l) (e ∷ []), length-in_order l)

pub IsNumbered-length :
    (base : ℕ) (l : List (Bytes × ℕ)) (next : ℕ) → IsNumbered base l next → next ≡ base + length l
IsNumbered-length base [] next h = omega (arith, h)
IsNumbered-length base ((name, id) ∷ l) next (is, own, h) =
    omega (arith, is, IsNumbered-length base l id h)

-- All the numbers of a list are below one.
abbrev IsBelow : ℕ → List (Bytes × ℕ) → Type 0
IsBelow k [] = Unit {0}
IsBelow k (e ∷ l) = (e.1 < k) × IsBelow k l

IsBelow-append :
    (k : ℕ) (l : List (Bytes × ℕ)) (e : Bytes × ℕ) → IsBelow k l → e.1 < k → IsBelow k (l ++ e ∷ [])
IsBelow-append k [] e h small = (small, tt)
IsBelow-append k (x ∷ l) e (s, h) small = (s, IsBelow-append k l e h small)

IsBelow-weaken : (k m : ℕ) (l : List (Bytes × ℕ)) → k ≤ m → IsBelow k l → IsBelow m l
IsBelow-weaken k m [] le h = tt
IsBelow-weaken k m (x ∷ l) le (s, h) = (omega (arith, s, le), IsBelow-weaken k m l le h)

in_order-IsBelow :
    (base : ℕ) (l : List (Bytes × ℕ)) (next : ℕ)
    → IsNumbered base l next
    → IsBelow next (in_order l)
in_order-IsBelow base [] next h = tt
in_order-IsBelow base ((name, id) ∷ l) next (is, own, h) =
    IsBelow-append next (in_order l) (name, id)
      (IsBelow-weaken id next (in_order l) (omega (arith, is)) (in_order-IsBelow base l id h))
      (omega (arith, is))

insert_last :
    (e : Bytes × ℕ) (l : List (Bytes × ℕ)) → IsBelow e.1 l → insert_by_id e l ≡ l ++ e ∷ []
unfolding insert_by_id
insert_last e [] h = refl
insert_last e (x ∷ l) (s, h) =
    let not_before : leb e.1 x.1 ≡ false = ground arith in
    rw not_before (ap (λ k. x ∷ k) (insert_last e l h))

pub sort-in_order :
    (base : ℕ) (l : List (Bytes × ℕ)) (next : ℕ)
    → IsNumbered base l next
    → sort_by_id l ≡ in_order l
unfolding sort_by_id
sort-in_order base [] next h = refl
sort-in_order base ((name, id) ∷ l) next (is, own, h) =
    ap (insert_by_id (name, id)) (sort-in_order base l id h)
    ∙ insert_last (name, id) (in_order l) (in_order-IsBelow base l id h)

abbrev pub names_of : List (Bytes × ℕ) → List Bytes
names_of l = map (λ (e : Bytes × ℕ). e.0) l

names_of-append :
    (l : List (Bytes × ℕ)) (e : Bytes × ℕ) → names_of (l ++ e ∷ []) ≡ names_of l ++ e.0 ∷ []
names_of-append [] e = refl
names_of-append (x ∷ l) e = ap (λ k. x.0 ∷ k) (names_of-append l e)

length-names_of : (l : List (Bytes × ℕ)) → length (names_of l) ≡ length l
length-names_of [] = refl
length-names_of (x ∷ l) = ap suc (length-names_of l)

elem_last : (xs : List Bytes) (x : Bytes) → get_elem? (xs ++ x ∷ []) (length xs) ≡ some x
elem_last [] x = refl
elem_last (y ∷ xs) x = elem_last xs x

elem_before :
    (xs : List Bytes) (x : Bytes) (i : ℕ)
    → i < length xs
    → get_elem? (xs ++ x ∷ []) i ≡ get_elem? xs i
elem_before [] x i h = absurd (omega (arith, h))
elem_before (y ∷ xs) x zero h = refl
elem_before (y ∷ xs) x (suc i) h = elem_before xs x i (omega (arith, h))

abbrev or_zero : Option ℕ → ℕ
or_zero none = 0
or_zero (some n) = n

or_zero_eq : {a b : ℕ} → some a ≡ some b → a ≡ b
or_zero_eq e = ap or_zero e

-- The table has each name at its number.
pub table_at :
    (base : ℕ) (l : List (Bytes × ℕ)) (next : ℕ) (name : Bytes) (id : ℕ)
    → IsNumbered base l next
    → number_of name l ≡ some id
    → (base ≤ id) × (id < next) × (get_elem? (names_of (in_order l)) (id - base) ≡ some name)
unfolding number_of
table_at base [] next name id h e = cc
table_at base ((other, k) ∷ l) next name id (is, own, h) e =
    let counted = IsNumbered-length base l k h in
    let len = length-names_of (in_order l) ∙ length-in_order l in
    let rows = names_of (in_order l) in
    elim (Bool-cases (eq_bytes other name)) [
      | inl same ↦
          let id_is : id ≡ k = or_zero_eq (sym e ∙ rw same refl) in
          (
            omega (arith, id_is, counted),
            omega (arith, id_is, is),
            ap (λ r. get_elem? r (id - base)) (names_of-append (in_order l) (other, k))
                ∙ ap (get_elem? (rows ++ other ∷ [])) (omega (arith, id_is, counted, len))
                ∙ elem_last rows other
                ∙ ap some (eq_bytes→eq other name same),
          )
      | inr differs ↦
          let (low, high, found) = table_at base l k name id h (sym (rw differs refl) ∙ e) in
          (
            low,
            omega (arith, high, is),
            ap (λ r. get_elem? r (id - base)) (names_of-append (in_order l) (other, k))
                ∙ elem_before rows other (id - base) (omega (arith, low, high, counted, len))
                ∙ found,
          )
    ]
