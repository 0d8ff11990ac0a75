-- ===== src/SessionState/Proxy/Read.antt =====
-- What the parts of a proxy URL are read as.
use vpoiskaxroditeley.Prelude.{
  ℕ, ◌+◌, ◌≤◌, ◌≡◌, ◌≢◌, ◌↔◌, refl, sym, ap, ap₂, ==_iff, ◌∙◌, Bool, true, false, not, ◌&&◌, ◌||◌,
  Option, none, some, [], ◌∷◌, ◌==◌, ltb, if◌then◌else◌, length, ◌⊎◌, inl, inr, arith, Bool-cases,
  Option-cases, Sum-cases, inr_injective,
}
use vpoiskaxroditeley.Str.{Bytes, is_empty, starts_with, strip_prefix}
use vpoiskaxroditeley.Str.Utf8.{is_utf8}
use vpoiskaxroditeley.CoreUtils.Encoding.{percent_decode}
use vpoiskaxroditeley.CoreUtils.Url.{Authority}
use vpoiskaxroditeley.SessionState.Proxy.{
  ProxyAuth, percent_decode_compact, parse_auth, bad_host, bad_user_info,
}

-- A host is not empty, has at most 255 bytes, and begins with a colon only in brackets.
abbrev pub IsHost : Authority → Type 0
IsHost a =
    (a.host ≢ [])
    × (length a.host ≤ 255)
    × ((a.host_bracketed ≡ true) ⊎ ((rest : Bytes) → a.host ≢ b':' ∷ rest))

colon_first :
    (host : Bytes) → starts_with (b':' ∷ []) host ≡ true → (rest : Bytes) × (host ≡ b':' ∷ rest)
unfolding starts_with strip_prefix
colon_first [] h = absurd cc
colon_first (x ∷ xs) h = elim (Bool-cases (b':' == x)) [
  | inl e ↦ (xs, ap (λ c. c ∷ xs) (sym ((==_iff b':' x).0 e)))
  | inr e ↦ absurd (cc (rw e at h))
]

first_colon : (rest : Bytes) → starts_with (b':' ∷ []) (b':' ∷ rest) ≡ true
unfolding starts_with strip_prefix
first_colon rest = refl

abbrev host_tests : Bytes → Bool → Bool
host_tests host bracketed =
    is_empty host || (not bracketed && starts_with (b':' ∷ []) host || ltb 255 (length host))

abbrev IsHostWith : Bytes → Bool → Type 0
IsHostWith host bracketed =
    (host ≢ []) × (length host ≤ 255) × ((bracketed ≡ true) ⊎ ((rest : Bytes) → host ≢ b':' ∷ rest))

tests→IsHostWith :
    (host : Bytes) (bracketed : Bool)
    → host_tests host bracketed ≡ false
    → IsHostWith host bracketed
tests→IsHostWith host bracketed h = elim (Bool-cases (is_empty host)) [
  | inl e ↦ absurd (ground arith)
  | inr e ↦
      let short : length host ≤ 255 = ground arith in
      let full : host ≢ [] = λ n. cc (sym e ∙ ap is_empty n) in
      elim (Bool-cases bracketed) [
        | inl b ↦ (full, short, inl b)
        | inr b ↦
            let plain : starts_with (b':' ∷ []) host ≡ false = ground arith in
            (
              full,
              short,
              inr (λ rest n.
                  cc (sym (first_colon rest) ∙ ap (starts_with (b':' ∷ [])) (sym n) ∙ plain)),
            )
      ]
]

not_nil : (host : Bytes) → host ≢ [] → is_empty host ≡ false
not_nil [] h = absurd (h refl)
not_nil (x ∷ host) h = refl

IsHostWith→tests :
    (host : Bytes) (bracketed : Bool)
    → IsHostWith host bracketed
    → host_tests host bracketed ≡ false
IsHostWith→tests host bracketed (full, short, first) =
    let some_host = not_nil host full in
    elim first [
      | inl b ↦ ground arith
      | inr plain ↦ elim (Bool-cases (starts_with (b':' ∷ []) host)) [
        | inl c ↦ let (rest, e) = colon_first host c in absurd (plain rest e)
        | inr c ↦ ground arith
      ]
    ]

pub bad_host_iff : (a : Authority) → (bad_host a ≡ false) ↔ IsHost a
bad_host_iff a =
    (tests→IsHostWith a.host a.host_bracketed, IsHostWith→tests a.host a.host_bracketed)

-- A password that was left out is empty.
abbrev pub written : Option Bytes → Bytes
written none = []
written (some p) = p

-- the bytes of a password with its colon
abbrev pub written_len : Option Bytes → ℕ
written_len none = 0
written_len (some p) = 1 + length p

-- The user is the decoded one, whose name was not empty as it was written, which had at most 256 bytes
-- with its password, and which is text.
abbrev pub IsUserOf : Option (Bytes × Option Bytes) → Option ProxyAuth → Type 0
IsUserOf none auth = auth ≡ none
IsUserOf (some (user, pass)) auth =
    (user ≢ [])
    × (length user + written_len pass ≤ 256)
    × (is_utf8 (percent_decode user) ≡ true)
    × (is_utf8 (percent_decode (written pass)) ≡ true)
    × (auth
        ≡ some
            (record { username = percent_decode user; password = percent_decode (written pass) }))

decoded :
    (s t : Bytes)
    → percent_decode_compact s ≡ inr t
    → (is_utf8 (percent_decode s) ≡ true) × (percent_decode s ≡ t)
unfolding percent_decode_compact
decoded s t h = elim (Bool-cases (is_utf8 (percent_decode s))) [
  | inl e ↦ (e, inr_injective (rw (percent_decode_compact, e) at h))
  | inr e ↦ absurd (cc (rw (percent_decode_compact, e) at h))
]

decodes :
    (s : Bytes)
    → is_utf8 (percent_decode s) ≡ true
    → percent_decode_compact s ≡ inr (percent_decode s)
unfolding percent_decode_compact
decodes s e = rw (percent_decode_compact, e) refl

-- the parser, with the password as it was written
module _ (user : Bytes) (pass : Option Bytes) where
  parse_user : parse_auth (some (user, pass)) ≡ (
      if is_empty user || ltb 256 (length user + written_len pass)
      then inl bad_user_info
      else elim (percent_decode_compact user) [
        | inl e ↦ inl e
        | inr username ↦ elim (percent_decode_compact (written pass)) [
          | inl e ↦ inl e
          | inr password ↦ inr (some (record { username = username; password = password }))
        ]
      ])
  unfolding parse_auth
  parse_user = elim (Option-cases pass) [
    | inl e ↦ rw (parse_auth, e) refl
    | inr (p, e) ↦ rw (parse_auth, e) refl
  ]

  auth→IsUserOf :
      (auth : Option ProxyAuth)
      → parse_auth (some (user, pass)) ≡ inr auth
      → IsUserOf (some (user, pass)) auth
  auth→IsUserOf auth h0 =
      let h = sym parse_user ∙ h0 in
      elim (Bool-cases (is_empty user || ltb 256 (length user + written_len pass))) [
        | inl f ↦ absurd (cc (rw f at h))
        | inr f ↦ elim (Sum-cases (percent_decode_compact user)) [
          | inl (e, k) ↦ absurd (cc (rw (f, k) at h))
          | inr (name, k) ↦ elim (Sum-cases (percent_decode_compact (written pass))) [
            | inl (e, m) ↦ absurd (cc (rw (f, k, m) at h))
            | inr (word, m) ↦
                let (name_text, name_is) = decoded user name k in
                let (word_text, word_is) = decoded (written pass) word m in
                let same : some (record { username = name; password = word }) ≡ auth =
                  inr_injective (rw (f, k, m) at h) in
                let some_user : is_empty user ≡ false = ground arith in
                (
                  λ e. cc (sym some_user ∙ ap is_empty e),
                  ground arith,
                  name_text,
                  word_text,
                  sym same
                      ∙ ap₂ (λ u w. some (record { username = u; password = w })) (sym name_is)
                          (sym word_is),
                )
          ]
        ]
      ]

  IsUserOf→auth :
      (auth : Option ProxyAuth)
      → IsUserOf (some (user, pass)) auth
      → parse_auth (some (user, pass)) ≡ inr auth
  IsUserOf→auth auth (full, short, name_text, word_text, is) =
      let some_user = not_nil user full in
      let fits : (is_empty user || ltb 256 (length user + written_len pass)) ≡ false =
        ground arith in
      parse_user
      ∙ rw (fits, decodes user name_text, decodes (written pass) word_text) (ap inr (sym is))

pub parse_auth_iff :
    (u : Option (Bytes × Option Bytes)) (auth : Option ProxyAuth)
    → (parse_auth u ≡ inr auth) ↔ IsUserOf u auth
unfolding parse_auth
parse_auth_iff none auth = (λ h. sym (inr_injective h), λ h. ap inr (sym h))
parse_auth_iff (some (user, pass)) auth =
    (auth→IsUserOf user pass auth, IsUserOf→auth user pass auth)
