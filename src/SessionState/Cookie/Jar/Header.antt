-- ===== src/SessionState/Cookie/Jar/Header.antt =====
-- Which cookies the Cookie header has, and in what order.
use vpoiskaxroditeley.Prelude.{
  ℕ, ◌≡◌, ◌≢◌, ◌<◌, ◌⊎◌, ◌↔◌, refl, sym, ap, subst, ◌∙◌, Bool, true, false, not, ◌&&◌, ◌||◌, List,
  [], ◌∷◌, ◌++◌, if◌then◌else◌, arith, Bool-cases, inl, inr, append-nil, append_assoc,
}
use mathlib.Core.List.{Perm}
use vpoiskaxroditeley.Str.{Bytes, is_empty}
use vpoiskaxroditeley.Str.Ends.{EndsIn}
use vpoiskaxroditeley.SessionState.IndexMap.{IndexMap, keep}
use vpoiskaxroditeley.SessionState.Cookie.{CookieEntry, CookieKey, domain_matches, path_matches}
use vpoiskaxroditeley.SessionState.Cookie.Matching.{domain_matches_iff, path_matches_iff}
use vpoiskaxroditeley.SessionState.Cookie.Jar.{
  same_key, Slot, Jar, is_sent, sort_slots, select_sent, header_bytes, header_for_into,
}
use vpoiskaxroditeley.SessionState.Cookie.Jar.Order.{
  IsSorted, select_sent-keep, sort_slots-IsSorted, sort_slots-Perm,
}

-- `name=value` of each cookie, with `; ` between them
abbrev pub pair_of : Slot → Bytes
pair_of (k, e) = k.name ++ b'=' ∷ e.value

abbrev pub joined : List Slot → Bytes
joined [] = []
joined (x ∷ []) = pair_of x
joined (x ∷ y ∷ l) = pair_of x ++ (b';' ∷ b' ' ∷ joined (y ∷ l))

header_bytes-later :
    (x : Slot) (l : List Slot)
    → header_bytes false (x ∷ l) ≡ b';' ∷ b' ' ∷ header_bytes true (x ∷ l)
unfolding header_bytes
header_bytes-later (k, e) l = refl

header_bytes-joined : (l : List Slot) → header_bytes true l ≡ joined l
unfolding header_bytes
header_bytes-joined [] = refl
header_bytes-joined ((k, e) ∷ []) = ap (λ v. k.name ++ b'=' ∷ v) (append-nil e.value)
header_bytes-joined ((k, e) ∷ y ∷ l) =
    ap (λ v. k.name ++ b'=' ∷ (e.value ++ v))
      (header_bytes-later y l ∙ ap (λ v. b';' ∷ b' ' ∷ v) (header_bytes-joined (y ∷ l)))
    ∙ sym (append_assoc k.name (b'=' ∷ e.value) (b';' ∷ b' ' ∷ joined (y ∷ l)))

-- The domain of a cookie is that of the host, by RFC 6265; without a host, any cookie is that is not
-- bound to one.
abbrev pub IsForHost : Bytes → Slot → Type 0
IsForHost host (k, e) =
    ((host ≢ [])
      × ((host ≡ k.domain)
          ⊎ ((e.host_only ≡ false)
              × (k.domain ≢ [])
              × ((pre : Bytes) × (host ≡ pre ++ b'.' ∷ k.domain)))))
    ⊎ ((host ≡ []) × ((k.domain ≡ []) ⊎ (e.host_only ≡ false)))

-- The path of a cookie is that of the request or a prefix of it up to a slash, by RFC 6265; without a
-- path, any is.
abbrev pub IsForPath : Bytes → Slot → Type 0
IsForPath path (k, e) =
    (path ≡ [])
    ⊎ ((rest : Bytes) × (path ≡ k.path ++ rest)
        × ((rest ≡ []) ⊎ (EndsIn (b'/' ∷ []) k.path ⊎ ((more : Bytes) × (rest ≡ b'/' ∷ more)))))

-- The cookie has not expired, is not for secure requests only or the request is one, and is for the
-- host and the path.
abbrev pub IsSent : ℕ → Bytes → Bytes → Bool → Slot → Type 0
IsSent now host path secure_ok (k, e) =
    (now < e.expires_ms)
    × ((e.secure ≡ false) ⊎ (secure_ok ≡ true))
    × IsForHost host (k, e)
    × IsForPath path (k, e)

abbrev for_host : Bytes → Slot → Bool
for_host host (k, e) =
    if not (is_empty host)
    then domain_matches host k.domain e.host_only
    else not (not (is_empty k.domain) && e.host_only)

abbrev for_path : Bytes → Slot → Bool
for_path path (k, e) = is_empty path || path_matches path k.path

nil_iff : (s : Bytes) → (is_empty s ≡ true) ↔ (s ≡ [])
nil_iff [] = (λ h. refl, λ h. refl)
nil_iff (x ∷ s) = (λ h. cc, λ h. cc)

for_host→IsForHost : (host : Bytes) (x : Slot) → for_host host x ≡ true → IsForHost host x
for_host→IsForHost host (k, e) h = elim (Bool-cases (is_empty host)) [
  | inl n ↦ inr (
    (nil_iff host).0 n,
    elim (Bool-cases e.host_only) [
      | inl o ↦
          let none_set : is_empty k.domain ≡ true = ground arith in
          inl ((nil_iff k.domain).0 none_set)
      | inr o ↦ inr o
    ],
  )
  | inr n ↦
      let matches : domain_matches host k.domain e.host_only ≡ true = ground arith in
      inl (
        λ z. cc (sym n ∙ (nil_iff host).1 z),
        (domain_matches_iff host k.domain e.host_only).0 matches,
      )
]

IsForHost→for_host : (host : Bytes) (x : Slot) → IsForHost host x → for_host host x ≡ true
IsForHost→for_host host (k, e) (inl (full, m)) =
    let matches = (domain_matches_iff host k.domain e.host_only).1 m in
    elim (Bool-cases (is_empty host)) [
      | inl n ↦ absurd (full ((nil_iff host).0 n))
      | inr n ↦ ground arith
    ]
IsForHost→for_host host (k, e) (inr (empty, inl d)) =
    let n = (nil_iff host).1 empty in let m = (nil_iff k.domain).1 d in ground arith
IsForHost→for_host host (k, e) (inr (empty, inr o)) = let n = (nil_iff host).1 empty in ground arith

for_path→IsForPath : (path : Bytes) (x : Slot) → for_path path x ≡ true → IsForPath path x
for_path→IsForPath path (k, e) h = elim (Bool-cases (is_empty path)) [
  | inl n ↦ inl ((nil_iff path).0 n)
  | inr n ↦
      let matches : path_matches path k.path ≡ true = ground arith in
      inr ((path_matches_iff path k.path).0 matches)
]

IsForPath→for_path : (path : Bytes) (x : Slot) → IsForPath path x → for_path path x ≡ true
IsForPath→for_path path (k, e) (inl empty) = let n = (nil_iff path).1 empty in ground arith
IsForPath→for_path path (k, e) (inr m) =
    let matches = (path_matches_iff path k.path).1 m in ground arith

is_sent_iff :
    (now : ℕ) (host path : Bytes) (secure_ok : Bool) (x : Slot)
    → (is_sent now host path secure_ok x ≡ true) ↔ IsSent now host path secure_ok x
unfolding is_sent
is_sent_iff now host path secure_ok (k, e) = (
  λ h. (
    ground arith,
    elim (Bool-cases e.secure) [ inl s ↦ inr (ground arith) | inr s ↦ inl s ],
    for_host→IsForHost host (k, e) (ground arith),
    for_path→IsForPath path (k, e) (ground arith),
  ),
  λ (fresh, safe, here, there).
      let a = IsForHost→for_host host (k, e) here in
      let b = IsForPath→for_path path (k, e) there in
      elim safe [ inl s ↦ ground arith | inr s ↦ ground arith ],
)

module _ (im : IndexMap CookieKey CookieEntry same_key) where
  open im use {entries}

  -- The Cookie header is `name=value` of cookies with `; ` between them, and these are the cookies of
  -- the jar, each once and no others, that have not expired, are not only for secure requests unless the
  -- request is one, and match the host and the path by RFC 6265; an empty path is matched by every
  -- cookie, and an empty host by those without a domain or not bound to a host. Cookies with longer paths
  -- come first, and among these the older ones.
  pub header_for_into-IsSorted :
      (now : ℕ) (host path : Bytes) (secure_ok : Bool) (j : Jar im)
      → (sent : List Slot) × (header_for_into im now host path secure_ok j ≡ joined sent)
        × IsSorted sent
        × ((test : Slot → Bool) × ((x : Slot) → (test x ≡ true) ↔ IsSent now host path secure_ok x)
            × Perm sent (keep test (entries j.slots)))
  unfolding header_for_into
  header_for_into-IsSorted now host path secure_ok j =
      let chosen = select_sent now host path secure_ok (entries j.slots) in
      (
        sort_slots chosen,
        header_bytes-joined (sort_slots chosen),
        sort_slots-IsSorted chosen,
        (
          is_sent now host path secure_ok,
          is_sent_iff now host path secure_ok,
          subst (Perm (sort_slots chosen))
              (select_sent-keep now host path secure_ok (entries j.slots)) (sort_slots-Perm chosen),
        ),
      )
