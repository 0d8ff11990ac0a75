-- ===== src/SessionState/Cookie/Matching.antt =====
-- RFC 6265's domain and path matching.
use vpoiskaxroditeley.Prelude.{
  ℕ, ◌-◌, ◌≡◌, ◌≢◌, ◌⊎◌, ◌↔◌, inl, inr, refl, sym, ap, ◌∙◌, Bool, true, false, ◌&&◌, ◌||◌, not, [],
  ◌∷◌, ◌++◌, ◌==◌, ==_iff, ltb, ltb→lt, lt→ltb, ◌<◌, length, length-append, get_or, arith,
  Bool-cases, Option-cases, append_assoc,
}
use vpoiskaxroditeley.Str.{
  Bytes, is_empty, eq_bytes, eq_bytes_iff, strip_prefix, strip_prefix-eq_some, strip_prefix-append,
  starts_with, ends_with,
}
use vpoiskaxroditeley.Str.Ends.{EndsIn, ends_with→EndsIn, EndsIn→ends_with}
use vpoiskaxroditeley.SessionState.Cookie.{domain_matches, path_matches}

and_true : (a b : Bool) → (a && b) ≡ true → (a ≡ true) × (b ≡ true)
and_true true b h = (refl, h)
and_true false b h = absurd (cc)

join_true : {a b : Bool} → a ≡ true → b ≡ true → (a && b) ≡ true
join_true h k = rw (h, k)

get_or-append : (xs ys : Bytes) (y : ℕ) → get_or (xs ++ y ∷ ys) (length xs) 0 ≡ y
get_or-append [] ys y = refl
get_or-append (x ∷ xs) ys y = get_or-append xs ys y

-- A text that is long enough splits before its last byte.
split_last : (pre : Bytes) → pre ≢ [] → (front : Bytes) × (c : ℕ) × (pre ≡ front ++ c ∷ [])
split_last [] ne = absurd (ne refl)
split_last (x ∷ []) ne = ([], x, refl)
split_last (x ∷ y ∷ r) ne =
    let (front, c, e) = split_last (y ∷ r) (λ e. cc) in (x ∷ front, c, ap (◌∷◌ x) e)

abbrev pub Dotted : Bytes → Bytes → Bool → Type 0
Dotted host domain host_only =
    (host ≡ domain)
    ⊎ ((host_only ≡ false) × (domain ≢ []) × ((pre : Bytes) × (host ≡ pre ++ b'.' ∷ domain)))

ne_nil : (s : Bytes) → not (is_empty s) ≡ true → s ≢ []
ne_nil [] h e = cc
ne_nil (x ∷ xs) h e = cc

not_empty : (s : Bytes) → s ≢ [] → not (is_empty s) ≡ true
not_empty [] h = absurd (h refl)
not_empty (x ∷ xs) h = refl

dot_index :
    (front domain : Bytes) (c : ℕ) → length (front ++ c ∷ domain) - length domain - 1 ≡ length front
dot_index front domain c = omega (arith, length-append front (c ∷ domain))

dotted_suffix :
    (host domain pre : Bytes)
    → host ≡ pre ++ domain
    → length domain < length host
    → (get_or host (length host - length domain - 1) 0 == b'.') ≡ true
    → (front : Bytes) × (host ≡ front ++ b'.' ∷ domain)
dotted_suffix host domain pre e longer dot =
    let (front, c, f) =
      split_last pre
        (λ z. let g : host ≡ domain = e ∙ ap (λ t. t ++ domain) z in omega (arith, ap length g)) in
    let whole : host ≡ front ++ c ∷ domain =
      e ∙ ap (λ t. t ++ domain) f ∙ append_assoc front (c ∷ []) domain in
    let at : c ≡ b'.' =
      (==_iff c b'.').0 (rw (whole, dot_index front domain c, get_or-append) at dot) in
    (front, whole ∙ ap (λ x. front ++ x ∷ domain) at)

matches→dotted :
    (host domain : Bytes) (host_only : Bool)
    → domain_matches host domain host_only ≡ true
    → Dotted host domain host_only
unfolding domain_matches
matches→dotted host domain true h = inl ((eq_bytes_iff host domain).0 h)
matches→dotted host domain false h = elim (Bool-cases (eq_bytes host domain)) [
  | inl e ↦ inl ((eq_bytes_iff host domain).0 e)
  | inr e ↦
      let k = rw e at h in
      let (full, k1) = and_true (not (is_empty domain)) _ k in
      let (longer, k2) = and_true (ltb (length domain) (length host)) _ k1 in
      let (ends, dot) = and_true (ends_with domain host) _ k2 in
      let (pre, f) = ends_with→EndsIn domain host ends in
      inr (refl, ne_nil domain full, dotted_suffix host domain pre f (ltb→lt _ _ longer) dot)
]

dotted→matches :
    (host domain : Bytes) (host_only : Bool)
    → Dotted host domain host_only
    → domain_matches host domain host_only ≡ true
unfolding domain_matches
dotted→matches host domain true (inl e) = (eq_bytes_iff host domain).1 e
dotted→matches host domain false (inl e) = let f = (eq_bytes_iff host domain).1 e in rw f
dotted→matches host domain true (inr (b, ne, w)) = absurd (cc)
dotted→matches host domain false (inr (b, ne, (pre, e))) =
    elim (Bool-cases (eq_bytes host domain)) [
      | inl f ↦ rw f
      | inr f ↦ rw f (
          join_true (not_empty domain ne) (
            join_true (longer pre e) (
              join_true
                (EndsIn→ends_with domain host
                  (pre ++ b'.' ∷ [], e ∙ sym (append_assoc pre (b'.' ∷ []) domain)))
                (dot_at pre e))))
    ]
  where
    longer : (pre : Bytes) → host ≡ pre ++ b'.' ∷ domain → ltb (length domain) (length host) ≡ true
    longer pre e = lt→ltb _ _ (omega (arith, ap length e, length-append pre (b'.' ∷ domain)))

    dot_at :
        (pre : Bytes)
        → host ≡ pre ++ b'.' ∷ domain
        → (get_or host (length host - length domain - 1) 0 == b'.') ≡ true
    dot_at pre e = rw (e, dot_index pre domain b'.', get_or-append) refl

-- A host matches a cookie's domain exactly when it is that domain or, for a cookie that is not bound
-- to one host, ends in a dot and the domain, which is not empty, with something before the dot or not.
pub domain_matches_iff :
    (host domain : Bytes) (host_only : Bool)
    → (domain_matches host domain host_only ≡ true) ↔ (
        (host ≡ domain)
        ⊎ ((host_only ≡ false) × (domain ≢ []) × ((pre : Bytes) × (host ≡ pre ++ b'.' ∷ domain))))
domain_matches_iff host domain host_only =
    (matches→dotted host domain host_only, dotted→matches host domain host_only)

or_cases : (a b : Bool) → (a || b) ≡ true → (a ≡ true) ⊎ (b ≡ true)
or_cases true b h = inl refl
or_cases false b h = inr h

is_empty→nil : (s : Bytes) → is_empty s ≡ true → s ≡ []
is_empty→nil [] h = refl
is_empty→nil (x ∷ xs) h = cc

starts_with→slash :
    (s : Bytes) → starts_with (b'/' ∷ []) s ≡ true → (more : Bytes) × (s ≡ b'/' ∷ more)
unfolding starts_with strip_prefix
starts_with→slash [] h = absurd (cc)
starts_with→slash (x ∷ xs) h = elim (Bool-cases (b'/' == x)) [
  | inl e ↦ (xs, ap (λ c. c ∷ xs) (sym ((==_iff b'/' x).0 e)))
  | inr e ↦ absurd (cc (rw e at h))
]

starts_slash : (more : Bytes) → starts_with (b'/' ∷ []) (b'/' ∷ more) ≡ true
unfolding starts_with strip_prefix
starts_slash more = refl

abbrev pub Closes : Bytes → Bytes → Type 0
Closes cookie rest =
    (rest ≡ []) ⊎ (EndsIn (b'/' ∷ []) cookie ⊎ ((more : Bytes) × (rest ≡ b'/' ∷ more)))

matches→prefix :
    (request cookie : Bytes)
    → path_matches request cookie ≡ true
    → (rest : Bytes) × (request ≡ cookie ++ rest) × Closes cookie rest
unfolding path_matches
matches→prefix request cookie h = elim (Option-cases (strip_prefix cookie request)) [
  | inl e ↦ absurd (cc (rw (e, path_matches) at h))
  | inr (r, e) ↦ (r, strip_prefix-eq_some cookie request e, closes r (rw (e, path_matches) at h))
]
  where
    closes :
        (r : Bytes)
        → (is_empty r || (ends_with (b'/' ∷ []) cookie || starts_with (b'/' ∷ []) r)) ≡ true
        → Closes cookie r
    closes r k = elim (or_cases (is_empty r) _ k) [
      | inl a ↦ inl (is_empty→nil r a)
      | inr b ↦ elim (or_cases (ends_with (b'/' ∷ []) cookie) _ b) [
        | inl c ↦ inr (inl (ends_with→EndsIn (b'/' ∷ []) cookie c))
        | inr d ↦ inr (inr (starts_with→slash r d))
      ]
    ]

or_true : (a b : Bool) → (a ≡ true) ⊎ (b ≡ true) → (a || b) ≡ true
or_true true b h = refl
or_true false b (inl h) = cc
or_true false b (inr h) = h

prefix→matches :
    (request cookie rest : Bytes)
    → request ≡ cookie ++ rest
    → Closes cookie rest
    → path_matches request cookie ≡ true
unfolding path_matches
prefix→matches request cookie rest e o =
    rw (e, strip_prefix-append cookie rest, path_matches) (closed rest o)
  where
    closed :
        (r : Bytes)
        → Closes cookie r
        → (is_empty r || (ends_with (b'/' ∷ []) cookie || starts_with (b'/' ∷ []) r)) ≡ true
    closed r (inl z) = rw z
    closed r (inr (inl z)) =
        or_true (is_empty r) _ (
          inr (or_true _ (starts_with (b'/' ∷ []) r) (inl (EndsIn→ends_with (b'/' ∷ []) cookie z))))
    closed r (inr (inr (more, z))) = rw z (or_true _ _ (inr (starts_slash more)))

-- A cookie's path matches exactly when it is the request's path, or a prefix of it that ends in a
-- slash or is followed by one.
pub path_matches_iff :
    (request cookie : Bytes)
    → (path_matches request cookie ≡ true) ↔ (
        (rest : Bytes) × (request ≡ cookie ++ rest)
        × ((rest ≡ []) ⊎ (EndsIn (b'/' ∷ []) cookie ⊎ ((more : Bytes) × (rest ≡ b'/' ∷ more)))))
path_matches_iff request cookie =
    (matches→prefix request cookie, λ (rest, e, o). prefix→matches request cookie rest e o)
