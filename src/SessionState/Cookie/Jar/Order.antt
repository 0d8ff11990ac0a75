-- ===== src/SessionState/Cookie/Jar/Order.antt =====
-- The order of the cookies of a header.
use vpoiskaxroditeley.Prelude.{
  ℕ, ◌≡◌, ◌<◌, ◌≤◌, ◌⊎◌, refl, ap, Bool, true, false, ltb, List, [], ◌∷◌, length, if◌then◌else◌,
  arith, Bool-cases, inl, inr,
}
use mathlib.Core.List.{Perm}
use mathlib.Core.List.Perm
use vpoiskaxroditeley.Str.{Bytes}
use vpoiskaxroditeley.SessionState.IndexMap.{keep}
use vpoiskaxroditeley.SessionState.Cookie.Jar.{
  Slot, is_sent, goes_before, insert_sorted, sort_slots, select_sent,
}

-- A cookie with a longer path, or with one as long that is not younger.
abbrev pub IsBefore : Slot → Slot → Type 0
IsBefore (j, d) (k, e) =
    (length k.path < length j.path)
    ⊎ ((length j.path ≡ length k.path) × (d.creation_seq ≤ e.creation_seq))

goes_before-IsBefore : (a b : Slot) → goes_before a b ≡ true → IsBefore a b
unfolding goes_before
goes_before-IsBefore (j, d) (k, e) h = elim (Bool-cases (ltb (length k.path) (length j.path))) [
  | inl t ↦ inl (ground arith)
  | inr t ↦ inr (ground arith, ground arith)
]

goes_before_total : (a b : Slot) → goes_before a b ≡ false → IsBefore b a
unfolding goes_before
goes_before_total (j, d) (k, e) h = elim (Bool-cases (ltb (length j.path) (length k.path))) [
  | inl t ↦ inl (ground arith)
  | inr t ↦ inr (ground arith, ground arith)
]

IsBefore-trans : (a b c : Slot) → IsBefore a b → IsBefore b c → IsBefore a c
IsBefore-trans (i, c) (j, d) (k, e) (inl h) (inl g) = inl (omega (arith, h, g))
IsBefore-trans (i, c) (j, d) (k, e) (inl h) (inr (g, n)) = inl (omega (arith, h, g))
IsBefore-trans (i, c) (j, d) (k, e) (inr (h, m)) (inl g) = inl (omega (arith, h, g))
IsBefore-trans (i, c) (j, d) (k, e) (inr (h, m)) (inr (g, n)) =
    inr (omega (arith, h, g), omega (arith, m, n))

-- the first goes before all the others
abbrev pub Leads : Slot → List Slot → Type 0
Leads x [] = Unit
Leads x (y ∷ l) = IsBefore x y × Leads x l

abbrev pub IsSorted : List Slot → Type 0
IsSorted [] = Unit
IsSorted (x ∷ l) = Leads x l × IsSorted l

Leads-trans : (x y : Slot) (l : List Slot) → IsBefore x y → Leads y l → Leads x l
Leads-trans x y [] h f = tt
Leads-trans x y (z ∷ l) h (f, g) = (IsBefore-trans x y z h f, Leads-trans x y l h g)

insert_sorted-Leads :
    (x y : Slot) (l : List Slot) → IsBefore x y → Leads x l → Leads x (insert_sorted y l)
unfolding insert_sorted
insert_sorted-Leads x y [] h f = (h, tt)
insert_sorted-Leads x y (z ∷ l) h (f, g) = elim (Bool-cases (goes_before y z)) [
  | inl e ↦ rw (insert_sorted, e) (h, (f, g))
  | inr e ↦ rw (insert_sorted, e) (f, insert_sorted-Leads x y l h g)
]

insert_sorted-IsSorted : (x : Slot) (l : List Slot) → IsSorted l → IsSorted (insert_sorted x l)
unfolding insert_sorted
insert_sorted-IsSorted x [] h = (tt, tt)
insert_sorted-IsSorted x (y ∷ l) (f, h) = elim (Bool-cases (goes_before x y)) [
  | inl e ↦
      rw (insert_sorted, e)
        (let before = goes_before-IsBefore x y e in ((before, Leads-trans x y l before f), (f, h)))
  | inr e ↦
      rw (insert_sorted, e)
        (insert_sorted-Leads y x l (goes_before_total x y e) f, insert_sorted-IsSorted x l h)
]

pub sort_slots-IsSorted : (l : List Slot) → IsSorted (sort_slots l)
unfolding sort_slots
sort_slots-IsSorted [] = tt
sort_slots-IsSorted (x ∷ l) = insert_sorted-IsSorted x (sort_slots l) (sort_slots-IsSorted l)

insert_sorted-Perm : (x : Slot) (l : List Slot) → Perm (insert_sorted x l) (x ∷ l)
unfolding insert_sorted
insert_sorted-Perm x [] = Perm.refl (x ∷ [])
insert_sorted-Perm x (y ∷ l) = elim (Bool-cases (goes_before x y)) [
  | inl e ↦ rw (insert_sorted, e) (Perm.refl (x ∷ y ∷ l))
  | inr e ↦
      rw (insert_sorted, e) (Perm.trans (Perm.cons y (insert_sorted-Perm x l)) (Perm.swap x y l))
]

pub sort_slots-Perm : (l : List Slot) → Perm (sort_slots l) l
unfolding sort_slots
sort_slots-Perm [] = Perm.refl []
sort_slots-Perm (x ∷ l) =
    Perm.trans (insert_sorted-Perm x (sort_slots l)) (Perm.cons x (sort_slots-Perm l))

pub select_sent-keep :
    (now : ℕ) (host path : Bytes) (secure_ok : Bool) (l : List Slot)
    → select_sent now host path secure_ok l ≡ keep (is_sent now host path secure_ok) l
unfolding select_sent keep
select_sent-keep now host path secure_ok [] = refl
select_sent-keep now host path secure_ok (x ∷ l) =
    ap (λ r. if is_sent now host path secure_ok x then x ∷ r else r)
      (select_sent-keep now host path secure_ok l)
