-- ===== src/SessionState/Grease/Brands.antt =====
-- The brands of every major version are three: a made-up one, Chromium and Google Chrome.
use vpoiskaxroditeley.Prelude.{
  ℕ, zero, suc, ◌+◌, ◌*◌, ◌/◌, ◌%◌, ◌<◌, ◌≡◌, refl, ap, ap₂, subst, Option, none, some, List, [],
  ◌∷◌, ◌++◌, length, ◌==◌, All, get_or, if◌then◌else◌, arith, Option-cases, Bool-cases, inl, inr,
}
use vpoiskaxroditeley.Str.{Bytes, codes, eq_bytes}
use vpoiskaxroditeley.SessionState.Grease.{
  BrandPair, search, grease_brand_set, canonical_wreq_brands, wreq_chrome_brands, shuffle,
  shuffle_orders, grease_chars, grease_versions, combo_name, major_str,
}

-- the versions of the brands of a name
unfoldable pub versions : Bytes → List BrandPair → List Bytes
unfolding eq_bytes
versions name [] = []
versions name ((brand, version) ∷ l) =
    if eq_bytes brand name then version ∷ versions name l else versions name l

-- Three brands, of which one is Chromium and one Google Chrome, of the same version.
abbrev pub IsBrandSet : Bytes → List BrandPair → Type 0
IsBrandSet version l =
    (length l ≡ 3)
    × (versions (codes "Chromium") l ≡ version ∷ [])
    × (versions (codes "Google Chrome") l ≡ version ∷ [])

-- of a table by version, the version as three digits
abbrev IsListed : ℕ × List BrandPair → Type 0
IsListed (major, l) = IsBrandSet (major_str major) l

search-All :
    {A : Type 0}
    → (P : ℕ × A → Type 0) (major : ℕ) (l : List (ℕ × A)) (a : A) → All P l
    → search major l ≡ some a
    → P (major, a)
unfolding search
search-All P major [] a h e = ground arith
search-All {A = A} P major ((m, b) ∷ l) a (p, ps) e = elim (Bool-cases (m == major)) [
  | inl t ↦
      let is : m ≡ major = ground arith in
      let found : some b ≡ some a =
        subst (λ c. (if c then some b else search major l) ≡ some a) t e in
      let same = ap (λ (o : Option A). elim o [ none ↦ b | some x ↦ x ]) found in
      subst P (ap₂ (λ x y. (x, y)) is same) p
  | inr t ↦
      search-All P major l a ps (subst (λ c. (if c then some b else search major l) ≡ some a) t e)
]

wreq_chrome_brands-IsListed : All IsListed wreq_chrome_brands
unfolding versions eq_bytes major_str
wreq_chrome_brands-IsListed = ground arith

shuffled :
    (o : ℕ)
    → o < 6
    → (a b : ℕ) (v w : Bytes)
    → let source : List BrandPair =
        (codes "Not" ++ a ∷ b'A' ∷ b ∷ codes "Brand", v)
        ∷ (codes "Chromium", w)
        ∷ (codes "Google Chrome", w)
        ∷ [] in
      IsBrandSet w (shuffle (get_or shuffle_orders o []) source source)
unfolding shuffle versions eq_bytes
shuffled zero h a b v w = (refl, refl, refl)
shuffled (suc zero) h a b v w = (refl, refl, refl)
shuffled (suc (suc zero)) h a b v w = (refl, refl, refl)
shuffled (suc (suc (suc zero))) h a b v w = (refl, refl, refl)
shuffled (suc (suc (suc (suc zero)))) h a b v w = (refl, refl, refl)
shuffled (suc (suc (suc (suc (suc zero))))) h a b v w = (refl, refl, refl)
shuffled (suc (suc (suc (suc (suc (suc o)))))) h a b v w = ground arith

-- For every major version, listed or not, the brands are three, of which one is Chromium and one
-- Google Chrome, and both have that version, as three digits; or 0 where it is not within 120 to 160.
pub grease_brand_set-IsBrandSet :
    (major : ℕ) → IsBrandSet (major_str major) (grease_brand_set major)
unfolding grease_brand_set canonical_wreq_brands combo_name
grease_brand_set-IsBrandSet major = elim (Option-cases (canonical_wreq_brands major)) [
  | inr (l, h) ↦
      rw (grease_brand_set, h)
        (search-All IsListed major wreq_chrome_brands l wreq_chrome_brands-IsListed h)
  | inl h ↦
      rw (grease_brand_set, h)
        (shuffled (major % 6) (omega arith)
          (get_or grease_chars ((major % 11 * 11 + (major + 1) % 11) / 11) 0)
          (get_or grease_chars ((major % 11 * 11 + (major + 1) % 11) % 11) 0)
          (get_or grease_versions (major % 3) []) (major_str major))
]
