-- ===== src/SessionState/Grease.antt =====
-- crates/session-state/src/grease.rs: the brands by which a browser of a major version names itself.
-- The binary search of std in a table that is sorted by version is `search`; a name is put together
-- where it is needed, not looked up in the tables of names that the source prepares.
pub mod Brands
use vpoiskaxroditeley.Prelude.{
  ℕ, zero, suc, ◌+◌, ◌-◌, ◌*◌, ◌/◌, ◌%◌, Bool, true, false, ◌&&◌, Option, none, some, List, [], ◌∷◌,
  ◌++◌, map, ◌==◌, leb, if◌then◌else◌, set, get_or,
}
use vpoiskaxroditeley.Str.{Bytes, codes}
use vpoiskaxroditeley.CoreUtils.Numbers.{u64_digits_fixed_into}

abbrev pub BrandPair : Type 0
BrandPair = Bytes × Bytes

abbrev pub grease_chars : List ℕ
grease_chars = codes " (:-./);=?_"

abbrev pub grease_versions : List Bytes
grease_versions = codes "8" ∷ codes "99" ∷ codes "24" ∷ []

abbrev pub shuffle_orders : List (List ℕ)
shuffle_orders =
    (0 ∷ 1 ∷ 2 ∷ [])
    ∷ (0 ∷ 2 ∷ 1 ∷ [])
    ∷ (1 ∷ 0 ∷ 2 ∷ [])
    ∷ (1 ∷ 2 ∷ 0 ∷ [])
    ∷ (2 ∷ 0 ∷ 1 ∷ [])
    ∷ (2 ∷ 1 ∷ 0 ∷ [])
    ∷ []

abbrev pub wreq_chrome_brands : List (ℕ × List BrandPair)
wreq_chrome_brands =
    (
      131,
      (codes "Google Chrome", codes "131")
          ∷ (codes "Chromium", codes "131")
          ∷ (codes "Not_A Brand", codes "24")
          ∷ [],
    )
    ∷ (
      132,
      (codes "Not A(Brand", codes "8")
          ∷ (codes "Chromium", codes "132")
          ∷ (codes "Google Chrome", codes "132")
          ∷ [],
    )
    ∷ (
      133,
      (codes "Not(A:Brand", codes "99")
          ∷ (codes "Google Chrome", codes "133")
          ∷ (codes "Chromium", codes "133")
          ∷ [],
    )
    ∷ (
      134,
      (codes "Chromium", codes "134")
          ∷ (codes "Not:A-Brand", codes "24")
          ∷ (codes "Google Chrome", codes "134")
          ∷ [],
    )
    ∷ (
      135,
      (codes "Google Chrome", codes "135")
          ∷ (codes "Not-A.Brand", codes "8")
          ∷ (codes "Chromium", codes "135")
          ∷ [],
    )
    ∷ (
      136,
      (codes "Chromium", codes "136")
          ∷ (codes "Google Chrome", codes "136")
          ∷ (codes "Not.A/Brand", codes "99")
          ∷ [],
    )
    ∷ (
      137,
      (codes "Google Chrome", codes "137")
          ∷ (codes "Chromium", codes "137")
          ∷ (codes "Not/A)Brand", codes "24")
          ∷ [],
    )
    ∷ (
      138,
      (codes "Not)A;Brand", codes "8")
          ∷ (codes "Chromium", codes "138")
          ∷ (codes "Google Chrome", codes "138")
          ∷ [],
    )
    ∷ (
      139,
      (codes "Not;A=Brand", codes "99")
          ∷ (codes "Google Chrome", codes "139")
          ∷ (codes "Chromium", codes "139")
          ∷ [],
    )
    ∷ (
      140,
      (codes "Chromium", codes "140")
          ∷ (codes "Not=A?Brand", codes "24")
          ∷ (codes "Google Chrome", codes "140")
          ∷ [],
    )
    ∷ (
      141,
      (codes "Google Chrome", codes "141")
          ∷ (codes "Not?A_Brand", codes "8")
          ∷ (codes "Chromium", codes "141")
          ∷ [],
    )
    ∷ (
      142,
      (codes "Chromium", codes "142")
          ∷ (codes "Google Chrome", codes "142")
          ∷ (codes "Not_A Space", codes "99")
          ∷ [],
    )
    ∷ (
      143,
      (codes "Google Chrome", codes "143")
          ∷ (codes "Chromium", codes "143")
          ∷ (codes "Not A(Brand", codes "24")
          ∷ [],
    )
    ∷ (
      144,
      (codes "Not(A:Brand", codes "8")
          ∷ (codes "Chromium", codes "144")
          ∷ (codes "Google Chrome", codes "144")
          ∷ [],
    )
    ∷ (
      145,
      (codes "Not:A-Brand", codes "99")
          ∷ (codes "Google Chrome", codes "145")
          ∷ (codes "Chromium", codes "145")
          ∷ [],
    )
    ∷ (
      146,
      (codes "Chromium", codes "146")
          ∷ (codes "Not-A.Brand", codes "24")
          ∷ (codes "Google Chrome", codes "146")
          ∷ [],
    )
    ∷ (
      147,
      (codes "Google Chrome", codes "147")
          ∷ (codes "Chromium", codes "147")
          ∷ (codes "Not.A/Brand", codes "8")
          ∷ [],
    )
    ∷ (
      148,
      (codes "Chromium", codes "148")
          ∷ (codes "Google Chrome", codes "148")
          ∷ (codes "Not/A)Brand", codes "99")
          ∷ [],
    )
    ∷ (
      149,
      (codes "Google Chrome", codes "149")
          ∷ (codes "Chromium", codes "149")
          ∷ (codes "Not_A Brand", codes "24")
          ∷ [],
    )
    ∷ []

abbrev pub chrome_full_versions : List (ℕ × Bytes)
chrome_full_versions =
    (131, codes "131.0.6778.205")
    ∷ (132, codes "132.0.6834.159")
    ∷ (133, codes "133.0.6943.127")
    ∷ (134, codes "134.0.6998.166")
    ∷ (135, codes "135.0.7049.95")
    ∷ (136, codes "136.0.7103.114")
    ∷ (137, codes "137.0.7151.69")
    ∷ (138, codes "138.0.7204.157")
    ∷ (139, codes "139.0.7258.66")
    ∷ (140, codes "140.0.7339.81")
    ∷ (141, codes "141.0.7390.54")
    ∷ (142, codes "142.0.7445.94")
    ∷ (143, codes "143.0.7544.97")
    ∷ (144, codes "144.0.7554.104")
    ∷ (145, codes "145.0.7565.59")
    ∷ (146, codes "146.0.7680.164")
    ∷ (147, codes "147.0.7712.122")
    ∷ (148, codes "148.0.7738.0")
    ∷ (149, codes "149.0.7770.0")
    ∷ []

unfoldable pub search : {A : Type 0} → ℕ → List (ℕ × A) → Option A
search major [] = none
search major ((m, a) ∷ l) = if m == major then some a else search major l

unfoldable pub chrome_full_version : ℕ → Option Bytes
unfolding search
chrome_full_version major = search major chrome_full_versions

unfoldable pub canonical_wreq_brands : ℕ → Option (List BrandPair)
unfolding search
canonical_wreq_brands major = search major wreq_chrome_brands

unfoldable pub combo_name : ℕ → Bytes
combo_name i =
    codes "Not"
    ++ get_or grease_chars (i / 11) 0 ∷ b'A' ∷ get_or grease_chars (i % 11) 0 ∷ codes "Brand"

unfoldable pub major_str : ℕ → Bytes
unfolding u64_digits_fixed_into
major_str major =
    if leb 120 major && leb major 160 then u64_digits_fixed_into major 3 else codes "0"

-- the loop that puts each brand of the source where the order says
unfoldable pub shuffle : List ℕ → List BrandPair → List BrandPair → List BrandPair
shuffle [] source out = out
shuffle (o ∷ order) [] out = out
shuffle (o ∷ order) (b ∷ source) out = shuffle order source (set out o b)

unfoldable pub grease_brand_set : ℕ → List BrandPair
unfolding canonical_wreq_brands combo_name major_str shuffle
grease_brand_set major = elim (canonical_wreq_brands major) [
  | some canonical ↦ canonical
  | none ↦
      let greased = combo_name (major % 11 * 11 + (major + 1) % 11) in
      let source : List BrandPair =
        (greased, get_or grease_versions (major % 3) [])
        ∷ (codes "Chromium", major_str major)
        ∷ (codes "Google Chrome", major_str major)
        ∷ [] in
      shuffle (get_or shuffle_orders (major % 6) []) source source
]

abbrev pub quoted : BrandPair → Bytes
quoted (brand, version) = codes "\"" ++ (brand ++ (codes "\";v=\"" ++ (version ++ codes "\"")))

unfoldable pub sec_chua_header_of : List BrandPair → Bytes
sec_chua_header_of [] = []
sec_chua_header_of (b ∷ []) = quoted b
sec_chua_header_of (b ∷ c ∷ brands) = quoted b ++ (codes ", " ++ sec_chua_header_of (c ∷ brands))
