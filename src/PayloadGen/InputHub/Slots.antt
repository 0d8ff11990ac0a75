-- ===== src/PayloadGen/InputHub/Slots.antt =====
-- The slots of a hub: which are free, and that no open tab is given away.
use vpoiskaxroditeley.Prelude.{
  ℕ, zero, suc, ◌+◌, ◌<◌, ◌≡◌, ◌≢◌, sym, ap, ◌∙◌, some, List, [], ◌∷◌, ◌++◌, ◌==◌, if◌then◌else◌,
  length, get_elem?, set, All, arith, length-set, length-append, get_elem?-set_self,
  get_elem?-set_ne,
}
use mathlib.Core.Option.{some-injective}
use vpoiskaxroditeley.PayloadGen.InputHub.{u32_max}

abbrev pub open_count : ℕ → ℕ
open_count site = if site == u32_max then 0 else 1

unfoldable pub live : List ℕ → ℕ
live [] = 0
live (site ∷ l) = open_count site + live l

pub open_count-one : (site : ℕ) → site ≢ u32_max → open_count site ≡ 1
open_count-one site n = ground arith

pub live-set :
    (l : List ℕ) (i old site : ℕ)
    → get_elem? l i ≡ some old
    → live (set l i site) + open_count old ≡ live l + open_count site
unfolding live
live-set [] i old site h = cc
live-set (s ∷ l) zero old site h = ground arith
live-set (s ∷ l) (suc i) old site h = omega (arith, live-set l i old site h)

pub live-append : (l : List ℕ) (site : ℕ) → live (l ++ site ∷ []) ≡ live l + open_count site
unfolding live
live-append [] site = omega arith
live-append (s ∷ l) site = omega (arith, live-append l site)

get_elem?-append :
    (l : List ℕ) (i : ℕ) (x s : ℕ) → get_elem? l i ≡ some x → get_elem? (l ++ s ∷ []) i ≡ some x
get_elem?-append [] i x s h = cc
get_elem?-append (y ∷ l) zero x s h = h
get_elem?-append (y ∷ l) (suc i) x s h = get_elem?-append l i x s h

pub get_elem?-bound : (l : List ℕ) (i x : ℕ) → get_elem? l i ≡ some x → i < length l
get_elem?-bound [] i x h = cc
get_elem?-bound (y ∷ l) zero x h = omega arith
get_elem?-bound (y ∷ l) (suc i) x h = omega (arith, get_elem?-bound l i x h)

abbrev pub IsDistinct : List ℕ → Type 0
IsDistinct [] = Unit {0}
IsDistinct (i ∷ l) = All (λ j. i ≢ j) l × IsDistinct l

-- The sites of the slots, and the free places among them: closed, no two the same, as many as there
-- are closed slots.
pub record IsFree (sites free : List ℕ) : Type 0 where
  pub closed : All (λ i. get_elem? sites i ≡ some u32_max) free
  pub distinct : IsDistinct free
  pub counted : length free + live sites ≡ length sites

-- What is closed stays closed when another place is written.
closed-set :
    (sites free : List ℕ) (i site : ℕ)
    → All (λ j. i ≢ j) free
    → All (λ j. get_elem? sites j ≡ some u32_max) free
    → All (λ j. get_elem? (set sites i site) j ≡ some u32_max) free
closed-set sites [] i site n h = tt
closed-set sites (j ∷ free) i site (n, ns) (h, hs) =
    (get_elem?-set_ne sites site n ∙ h, closed-set sites free i site ns hs)

-- A place that is open is not among the closed ones.
open_apart :
    (sites free : List ℕ) (i site : ℕ)
    → get_elem? sites i ≡ some site
    → site ≢ u32_max
    → All (λ j. get_elem? sites j ≡ some u32_max) free
    → All (λ j. i ≢ j) free
open_apart sites [] i site h n c = tt
open_apart sites (j ∷ free) i site h n (c, cs) = (
  λ e. n (some-injective site u32_max (sym h ∙ ap (get_elem? sites) e ∙ c)),
  open_apart sites free i site h n cs,
)

pub reused-IsFree :
    (sites free : List ℕ) (i site : ℕ)
    → site ≢ u32_max
    → IsFree sites (i ∷ free)
    → IsFree (set sites i site) free
reused-IsFree sites free i site n h = record {
  closed = closed-set sites free i site h.distinct.0 h.closed.1;
  distinct = h.distinct.1;
  counted = omega (
    arith,
    live-set sites i u32_max site h.closed.0,
    open_count-one site n,
    length-set sites i site,
    h.counted,
  );
}

pub grown-IsFree :
    (sites : List ℕ) (site : ℕ) → site ≢ u32_max → IsFree sites [] → IsFree (sites ++ site ∷ []) []
grown-IsFree sites site n h = record {
  closed = tt;
  distinct = tt;
  counted = omega (
    arith,
    live-append sites site,
    open_count-one site n,
    length-append sites (site ∷ []),
    h.counted,
  );
}

pub freed-IsFree :
    (sites free : List ℕ) (i site : ℕ)
    → get_elem? sites i ≡ some site
    → site ≢ u32_max
    → IsFree sites free
    → IsFree (set sites i u32_max) (i ∷ free)
freed-IsFree sites free i site at n h =
    let apart = open_apart sites free i site at n h.closed in
    record {
      closed = (
        get_elem?-set_self sites i u32_max (get_elem?-bound sites i site at),
        closed-set sites free i u32_max apart h.closed,
      );
      distinct = (apart, h.distinct);
      counted = omega (
        arith,
        live-set sites i site u32_max at,
        open_count-one site n,
        length-set sites i u32_max,
        h.counted,
      );
    }
