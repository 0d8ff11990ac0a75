-- ===== src/Supervisor/Fleet/Links.antt =====
-- Slots and handles that lead to one another, as lists: whose each slot is, the free slots, the map of
-- the handles, the count of live slots and the next handle.
use vpoiskaxroditeley.Prelude.{
  ℕ, zero, suc, ◌+◌, ◌-◌, ◌<◌, ◌≡◌, ◌≢◌, ◌⊎◌, refl, sym, ap, subst, ◌∙◌, false, Option, none, some,
  List, [], ◌∷◌, ◌++◌, ◌==◌, ==_iff, length, get_elem?, set, map, arith, Bool-cases, inl, inr,
  get_elem?-set_self, get_elem?-set_ne,
}
use mathlib.Core.Option.{some-injective}
use vpoiskaxroditeley.RuntimeExec.Tails.{
  lookup, remove, insert, lookup-remove_self, lookup-remove_other,
}
use vpoiskaxroditeley.PayloadGen.InputHub.{u32_max}
use vpoiskaxroditeley.PayloadGen.InputHub.Reached.{
  get_elem?-length, get_elem?-append_length, get_elem?-append_ne,
}
use vpoiskaxroditeley.PayloadGen.InputHub.Slots.{
  IsFree, live, live-set, live-append, reused-IsFree, grown-IsFree, freed-IsFree,
}

-- a closed slot is marked as a closed tab of a hub is
abbrev pub mark : Option ℕ → ℕ
mark none = u32_max
mark (some h) = 0

abbrev pub marks_of : List (Option ℕ) → List ℕ
marks_of who = map mark who

-- The handles lead to the slots that have them and only there, and were all issued.
pub record IsMapped (who : List (Option ℕ)) (handles : List (ℕ × ℕ)) (next : ℕ) : Type 0 where
  pub leads : (h i : ℕ) → lookup h handles ≡ some i → get_elem? who i ≡ some (some h)
  pub led_to : (h i : ℕ) → get_elem? who i ≡ some (some h) → lookup h handles ≡ some i
  pub issued : (h i : ℕ) → get_elem? who i ≡ some (some h) → h < next

pub record IsLinked (who : List (Option ℕ)) (free : List ℕ) (handles : List (ℕ × ℕ))
    (count next : ℕ) : Type 0 where
  pub free_slots : IsFree (marks_of who) free
  pub counted : count ≡ live (marks_of who)
  pub mapped : IsMapped who handles next

marks_of-set :
    (who : List (Option ℕ)) (i : ℕ) (o : Option ℕ)
    → marks_of (set who i o) ≡ set (marks_of who) i (mark o)
marks_of-set [] i o = refl
marks_of-set (x ∷ who) zero o = refl
marks_of-set (x ∷ who) (suc i) o = ap (λ l. mark x ∷ l) (marks_of-set who i o)

marks_of-append :
    (who : List (Option ℕ)) (o : Option ℕ) → marks_of (who ++ o ∷ []) ≡ marks_of who ++ mark o ∷ []
marks_of-append [] o = refl
marks_of-append (x ∷ who) o = ap (λ l. mark x ∷ l) (marks_of-append who o)

marks_of-get :
    (who : List (Option ℕ)) (i : ℕ) (o : Option ℕ)
    → get_elem? who i ≡ some o
    → get_elem? (marks_of who) i ≡ some (mark o)
marks_of-get [] i o h = cc
marks_of-get (x ∷ who) zero o h = ap (λ p. some (mark p)) (some-injective x o h)
marks_of-get (x ∷ who) (suc i) o h = marks_of-get who i o h

zero_max : 0 ≢ u32_max
zero_max h = omega arith

-- A slot that is marked as closed is nobody's.
closed_nobody :
    (who : List (Option ℕ)) (i : ℕ)
    → get_elem? (marks_of who) i ≡ some u32_max
    → get_elem? who i ≡ some none
closed_nobody [] i h = cc
closed_nobody (none ∷ who) zero h = refl
closed_nobody (some x ∷ who) zero h = absurd (zero_max (some-injective 0 u32_max h))
closed_nobody (x ∷ who) (suc i) h = closed_nobody who i h

bound : (who : List (Option ℕ)) (i : ℕ) (o : Option ℕ) → get_elem? who i ≡ some o → i < length who
bound [] i o h = cc
bound (x ∷ who) zero o h = omega arith
bound (x ∷ who) (suc i) o h = omega (arith, bound who i o h)

pub lookup-insert_self : (h i : ℕ) (handles : List (ℕ × ℕ)) → lookup h (insert h i handles) ≡ some i
unfolding lookup insert
lookup-insert_self h i handles = ground arith

lookup-insert_other :
    (h j i : ℕ) (handles : List (ℕ × ℕ))
    → (j == h) ≡ false
    → lookup j (insert h i handles) ≡ lookup j handles
unfolding lookup insert
lookup-insert_other h j i handles n = ground (arith, lookup-remove_other h j handles n)

-- One slot is written, and the others are as they were.
record IsWritten (who who' : List (Option ℕ)) (i : ℕ) (o : Option ℕ) : Type 0 where
  self : get_elem? who' i ≡ some o
  others : (j : ℕ) → i ≢ j → get_elem? who' j ≡ get_elem? who j

set-IsWritten :
    (who : List (Option ℕ)) (i : ℕ) (o : Option ℕ)
    → i < length who
    → IsWritten who (set who i o) i o
set-IsWritten who i o h = record {
  self = get_elem?-set_self who i o h;
  others = λ j n. get_elem?-set_ne who o n;
}

append-IsWritten :
    (who : List (Option ℕ)) (o : Option ℕ) → IsWritten who (who ++ o ∷ []) (length who) o
append-IsWritten who o = record {
  self = get_elem?-append_length who o;
  others = λ j n. get_elem?-append_ne who o j n;
}

apart : (i j : ℕ) → (i == j) ≡ false → i ≢ j
apart i j h = ground arith

none_never : (o : Option ℕ) → ◌≢◌ {A = Option (Option ℕ)} none (some o)
none_never o e = cc

none_not_some : (h : ℕ) → ◌≢◌ {A = Option ℕ} none (some h)
none_not_some h e = cc

below_not_same : (g next : ℕ) → g < next → (g == next) ≡ false
below_not_same g next h = ground arith

not_same : (g h : ℕ) → g ≢ h → (g == h) ≡ false
not_same g h n = ground arith

-- A handle that is found behind a place that was emptied stood there before.
kept :
    (who who' : List (Option ℕ)) (i : ℕ)
    → IsWritten who who' i none
    → (g j : ℕ) → get_elem? who' j ≡ some (some g)
    → (i ≢ j) × (get_elem? who j ≡ some (some g))
kept who who' i w g j e = elim (Bool-cases (i == j)) [
  | inl t ↦
      let none_some : ◌≡◌ {A = Option ℕ} none (some g) =
        some-injective none (some g) (sym w.self ∙ ap (get_elem? who') ((==_iff i j).0 t) ∙ e) in
      cc
  | inr f ↦ (apart i j f, sym (w.others j (apart i j f)) ∙ e)
]

gone-IsMapped :
    (who who' : List (Option ℕ)) (handles : List (ℕ × ℕ)) (next h i : ℕ)
    → get_elem? who i ≡ some (some h)
    → IsWritten who who' i none
    → IsMapped who handles next
    → IsMapped who' (remove h handles) next
gone-IsMapped who who' handles next h i at w m = record {
  leads = λ g j e. elim (Bool-cases (g == h)) [
    | inl t ↦
        let none_some : ◌≡◌ {A = Option ℕ} none (some j) =
          sym (
            subst (λ k. lookup k (remove h handles) ≡ none) (sym ((==_iff g h).0 t))
              (lookup-remove_self h handles))
          ∙ e in
        cc
    | inr f ↦
        let old = m.leads g j (sym (lookup-remove_other h g handles f) ∙ e) in
        w.others j (λ (q : i ≡ j). apart g h f (
          some-injective g h
            (some-injective (some g) (some h) (sym old ∙ ap (get_elem? who) (sym q) ∙ at))))
        ∙ old
  ];
  led_to = λ g j e.
      let (n, old) = kept who who' i w g j e in
      lookup-remove_other h g handles (
        not_same g h (λ (q : g ≡ h). n (
          some-injective i j
            (sym (m.led_to h i at) ∙ ap (λ k. lookup k handles) (sym q) ∙ m.led_to g j old))))
      ∙ m.led_to g j old;
  issued = λ g j e. m.issued g j (kept who who' i w g j e).1;
}

-- A handle that is found where a new one was written is the new one, or stood there before.
found :
    (who who' : List (Option ℕ)) (i next : ℕ)
    → IsWritten who who' i (some next)
    → (g j : ℕ) → get_elem? who' j ≡ some (some g)
    → ((i ≡ j) × (next ≡ g)) ⊎ (get_elem? who j ≡ some (some g))
found who who' i next w g j e = elim (Bool-cases (i == j)) [
  | inl t ↦
      let same = (==_iff i j).0 t in
      inl (
        same,
        some-injective next g
            (some-injective (some next) (some g) (sym w.self ∙ ap (get_elem? who') same ∙ e)),
      )
  | inr f ↦ inr (sym (w.others j (apart i j f)) ∙ e)
]

new-IsMapped :
    (who who' : List (Option ℕ)) (handles : List (ℕ × ℕ)) (next i : ℕ)
    → ((h : ℕ) → get_elem? who i ≢ some (some h))
    → IsWritten who who' i (some next)
    → IsMapped who handles next
    → IsMapped who' (insert next i handles) (suc next)
new-IsMapped who who' handles next i nobody w m = record {
  leads = λ g j e. elim (Bool-cases (g == next)) [
    | inl t ↦
        let same = (==_iff g next).0 t in
        let at : i ≡ j = some-injective i j (
          sym (lookup-insert_self next i handles)
          ∙ ap (λ k. lookup k (insert next i handles)) (sym same)
          ∙ e) in
        subst (λ k. get_elem? who' k ≡ some (some g)) at
          (w.self ∙ ap (λ k. some (some k)) (sym same))
    | inr f ↦
        let old = m.leads g j (sym (lookup-insert_other next g i handles f) ∙ e) in
        w.others j (λ (q : i ≡ j). nobody g (ap (get_elem? who) q ∙ old)) ∙ old
  ];
  led_to = λ g j e. elim (found who who' i next w g j e) [
    | inl (at, same) ↦
        subst (λ k. lookup k (insert next i handles) ≡ some j) same
          (lookup-insert_self next i handles ∙ ap some at)
    | inr old ↦
        lookup-insert_other next g i handles (below_not_same g next (m.issued g j old))
        ∙ m.led_to g j old
  ];
  issued = λ g j e. elim (found who who' i next w g j e) [
    | inl (at, same) ↦ omega (arith, same)
    | inr old ↦ omega (arith, m.issued g j old)
  ];
}

-- A handle whose slot is given up.
pub gone-IsLinked :
    (who : List (Option ℕ)) (free : List ℕ) (handles : List (ℕ × ℕ)) (count next h i : ℕ)
    → get_elem? who i ≡ some (some h)
    → IsLinked who free handles count next
    → IsLinked (set who i none) (i ∷ free) (remove h handles) (count - 1) next
gone-IsLinked who free handles count next h i at s =
    let mine = marks_of-get who i (some h) at in
    record {
      free_slots =
          subst (λ l. IsFree l (i ∷ free)) (sym (marks_of-set who i none))
            (freed-IsFree (marks_of who) free i 0 mine zero_max s.free_slots);
      counted = omega (
        arith,
        ap live (marks_of-set who i none),
        live-set (marks_of who) i 0 u32_max mine,
        s.counted,
      );
      mapped =
          gone-IsMapped who (set who i none) handles next h i at
            (set-IsWritten who i none (bound who i (some h) at)) s.mapped;
    }

-- The next handle for the free slot `i`.
pub reused-IsLinked :
    (who : List (Option ℕ)) (free : List ℕ) (handles : List (ℕ × ℕ)) (count next i : ℕ)
    → IsLinked who (i ∷ free) handles count next
    → IsLinked (set who i (some next)) free (insert next i handles) (count + 1) (suc next)
reused-IsLinked who free handles count next i s =
    let closed = s.free_slots.closed.0 in
    let nobody = closed_nobody who i closed in
    record {
      free_slots =
          subst (λ l. IsFree l free) (sym (marks_of-set who i (some next)))
            (reused-IsFree (marks_of who) free i 0 zero_max s.free_slots);
      counted = omega (
        arith,
        ap live (marks_of-set who i (some next)),
        live-set (marks_of who) i u32_max 0 closed,
        s.counted,
      );
      mapped =
          new-IsMapped who (set who i (some next)) handles next i
            (λ h e. none_not_some h (some-injective none (some h) (sym nobody ∙ e)))
            (set-IsWritten who i (some next) (bound who i none nobody)) s.mapped;
    }

-- The next handle for a slot behind the others.
pub grown-IsLinked :
    (who : List (Option ℕ)) (handles : List (ℕ × ℕ)) (count next : ℕ)
    → IsLinked who [] handles count next
    → IsLinked (who ++ some next ∷ []) [] (insert next (length who) handles) (count + 1) (suc next)
grown-IsLinked who handles count next s = record {
  free_slots =
      subst (λ l. IsFree l []) (sym (marks_of-append who (some next)))
        (grown-IsFree (marks_of who) 0 zero_max s.free_slots);
  counted =
      omega
        (arith, ap live (marks_of-append who (some next)), live-append (marks_of who) 0, s.counted);
  mapped =
      new-IsMapped who (who ++ some next ∷ []) handles next (length who)
        (λ h e. none_never (some h) (sym (get_elem?-length who) ∙ e))
        (append-IsWritten who (some next)) s.mapped;
}
