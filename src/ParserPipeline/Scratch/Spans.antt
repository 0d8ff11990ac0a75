-- ===== src/ParserPipeline/Scratch/Spans.antt =====
-- What the spans of a scratch refer to, and how full it is.
use vpoiskaxroditeley.Prelude.{
  ℕ, ◌+◌, ◌≤◌, ◌<◌, ◌≡◌, ◌⊎◌, refl, sym, ap, ◌∙◌, true, false, List, [], ◌∷◌, ◌++◌, ltb, leb,
  length, take, arith, Bool-cases, ltb→lt, inl, inr, if_both, length-append, append_assoc,
  append-nil, take-append_lem, drop-append_lem,
}
use vpoiskaxroditeley.Str.{Bytes}
use vpoiskaxroditeley.ParserPipeline.Scratch.{
  nil_span, get, EvScratch, Op, pushes_str, pushes_attr, emits, push_str, push_attr, emit, apply,
  run, pool_cap, ev_cap, attr_cap, new, push, push_bytes, drain_into, reset,
}

-- A span behind some bytes refers to its own, whatever follows them.
pub get_between :
    (before s after : Bytes)
    → get (record { off = length before; len = length s }) (before ++ (s ++ after)) ≡ s
unfolding get
get_between before s after =
    ap (take (length s)) (drop-append_lem before (s ++ after)) ∙ take-append_lem s after

-- Within its capacities.
pub record IsWithin (sc : EvScratch) : Type 0 where
  pub pool_fits : length sc.pool.items ≤ pool_cap
  pub evs_fit : length sc.evs.items ≤ sc.evs.cap
  pub attrs_fit : length sc.attrs.items ≤ sc.attrs.cap
  pub evs_cap : sc.evs.cap ≡ ev_cap
  pub attrs_cap : sc.attrs.cap ≡ attr_cap

flagged-IsWithin : (sc : EvScratch) → IsWithin sc → IsWithin (record sc { overflow = true })
flagged-IsWithin sc h = record {
  pool_fits = h.pool_fits;
  evs_fit = h.evs_fit;
  attrs_fit = h.attrs_fit;
  evs_cap = h.evs_cap;
  attrs_cap = h.attrs_cap;
}

not_over : (cap n : ℕ) → ltb cap n ≡ false → n ≤ cap
not_over cap n h = ground arith

not_full : (cap n : ℕ) → leb cap n ≡ false → n < cap
not_full cap n h = ground arith

apply-IsWithin : (op : Op) (sc : EvScratch) → IsWithin sc → IsWithin (apply op sc)
unfolding apply push_str push_attr emit push push_bytes
apply-IsWithin (pushes_str s) sc h =
    elim (Bool-cases (ltb pool_cap (length sc.pool.items + length s))) [
      | inl t ↦ rw (apply, t) (flagged-IsWithin sc h)
      | inr t ↦
          rw (apply, t)
            (record {
              pool_fits = omega (
                arith,
                length-append sc.pool.items s,
                not_over pool_cap (length sc.pool.items + length s) t,
              );
              evs_fit = h.evs_fit;
              attrs_fit = h.attrs_fit;
              evs_cap = h.evs_cap;
              attrs_cap = h.attrs_cap;
            })
    ]
apply-IsWithin (pushes_attr a) sc h = elim (Bool-cases (leb sc.attrs.cap (length sc.attrs.items))) [
  | inl t ↦ rw (apply, t) (flagged-IsWithin sc h)
  | inr t ↦
      rw (apply, t)
        (record {
          pool_fits = h.pool_fits;
          evs_fit = h.evs_fit;
          attrs_fit = omega (
            arith,
            length-append sc.attrs.items (a ∷ []),
            not_full sc.attrs.cap (length sc.attrs.items) t,
          );
          evs_cap = h.evs_cap;
          attrs_cap = h.attrs_cap;
        })
]
apply-IsWithin (emits ev) sc h = elim (Bool-cases (leb sc.evs.cap (length sc.evs.items))) [
  | inl t ↦ rw (apply, t) (flagged-IsWithin sc h)
  | inr t ↦
      rw (apply, t)
        (record {
          pool_fits = h.pool_fits;
          evs_fit = omega (
            arith,
            length-append sc.evs.items (ev ∷ []),
            not_full sc.evs.cap (length sc.evs.items) t,
          );
          attrs_fit = h.attrs_fit;
          evs_cap = h.evs_cap;
          attrs_cap = h.attrs_cap;
        })
]

-- The pool only grows, and an overflow is not forgotten.
pub Grows : EvScratch → EvScratch → Type 0
Grows sc sc' =
    ((after : Bytes) × (sc'.pool.items ≡ sc.pool.items ++ after))
    × ((sc.overflow ≡ true) → sc'.overflow ≡ true)

same-Grows :
    (sc sc' : EvScratch)
    → sc'.pool.items ≡ sc.pool.items
    → ((sc.overflow ≡ true) → sc'.overflow ≡ true)
    → Grows sc sc'
unfolding Grows
same-Grows sc sc' e o = (([], e ∙ sym (append-nil sc.pool.items)), o)

apply-Grows : (op : Op) (sc : EvScratch) → Grows sc (apply op sc)
unfolding Grows apply push_str push_attr emit push_bytes
apply-Grows (pushes_str s) sc = elim (Bool-cases (ltb pool_cap (length sc.pool.items + length s))) [
  | inl t ↦ rw (apply, t) (same-Grows sc (record sc { overflow = true }) refl (λ o. refl))
  | inr t ↦ rw (apply, t) ((s, refl), λ o. o)
]
apply-Grows (pushes_attr a) sc =
    if_both (Grows sc) (leb sc.attrs.cap (length sc.attrs.items))
      (same-Grows sc (record sc { overflow = true }) refl (λ o. refl))
      (same-Grows sc (record sc { attrs = push a sc.attrs }) refl (λ o. o))
apply-Grows (emits ev) sc =
    if_both (Grows sc) (leb sc.evs.cap (length sc.evs.items))
      (same-Grows sc (record sc { overflow = true }) refl (λ o. refl))
      (same-Grows sc (record sc { evs = push ev sc.evs }) refl (λ o. o))

run-Grows : (ops : List Op) (sc : EvScratch) → Grows sc (run ops sc)
unfolding Grows run
run-Grows [] sc = same-Grows sc sc refl (λ o. o)
run-Grows (op ∷ ops) sc =
    let ((here, e), o) = apply-Grows op sc in
    let ((rest, e'), o') = run-Grows ops (apply op sc) in
    (
      (here ++ rest, e' ∙ ap (λ l. l ++ rest) e ∙ append_assoc sc.pool.items here rest),
      λ t. o' (o t),
    )

run-IsWithin : (ops : List Op) (sc : EvScratch) → IsWithin sc → IsWithin (run ops sc)
unfolding run
run-IsWithin [] sc h = h
run-IsWithin (op ∷ ops) sc h = run-IsWithin ops (apply op sc) (apply-IsWithin op sc h)

new-IsWithin : IsWithin new
unfolding new
new-IsWithin = record {
  pool_fits = omega arith;
  evs_fit = omega arith;
  attrs_fit = omega arith;
  evs_cap = refl;
  attrs_cap = refl;
}

-- A drain notes an overflow and forgets it.
drain_into-noted :
    (sc : EvScratch)
    → sc.overflow ≡ true
    → ((drain_into sc).0.noted ≡ true) × ((drain_into sc).1.overflow ≡ false)
unfolding drain_into reset
drain_into-noted sc h = ground arith

-- Whatever a parser leaves in a new scratch, its arenas are within their capacities, so that no write
-- goes past their end and no offset overflows its 32 bits.
pub run-new : (ops : List Op) → IsWithin (run ops new)
run-new ops = run-IsWithin ops new new-IsWithin

-- A text that is pushed where the pool has room for it can be read by its span at any time before the
-- scratch is reset, whatever is pushed behind it; where it has none, the pool is as it was, the span is
-- the empty one, and the overflow is noted then and when the scratch is drained.
pub get-push_str :
    (s : Bytes) (ops : List Op) (sc : EvScratch)
    → ((length sc.pool.items + length s ≤ pool_cap)
        × (get (push_str s sc).0 (run ops (push_str s sc).1).pool.items ≡ s))
      ⊎ ((pool_cap < length sc.pool.items + length s)
          × ((push_str s sc).1.pool ≡ sc.pool)
          × ((push_str s sc).0 ≡ nil_span)
          × ((drain_into (run ops (push_str s sc).1)).0.noted ≡ true)
          × ((drain_into (run ops (push_str s sc).1)).1.overflow ≡ false))
unfolding Grows push_str push_bytes
get-push_str s ops sc = elim (Bool-cases (ltb pool_cap (length sc.pool.items + length s))) [
  | inl t ↦
      let full = record sc { overflow = true } in
      let noted = drain_into-noted (run ops full) ((run-Grows ops full).1 refl) in
      rw (push_str, t)
        (inr (ltb→lt pool_cap (length sc.pool.items + length s) t, refl, refl, noted.0, noted.1))
  | inr t ↦
      let pushed = record sc { pool = push_bytes s sc.pool } in
      let ((rest, e), o) = run-Grows ops pushed in
      rw (push_str, t)
        (inl (
          not_over pool_cap (length sc.pool.items + length s) t,
          ap (get (record { off = length sc.pool.items; len = length s }))
                (e ∙ append_assoc sc.pool.items s rest)
              ∙ get_between sc.pool.items s rest,
        ))
]
