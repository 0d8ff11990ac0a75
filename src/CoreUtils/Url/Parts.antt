-- ===== src/CoreUtils/Url/Parts.antt =====
-- What the pieces of a URL have to do with the URL.
use vpoiskaxroditeley.Prelude.{
  ℕ, true, false, Option, none, some, [], ◌∷◌, ◌++◌, ◌==◌, ◌≡◌, refl, subst, if◌then◌else◌, arith,
  sym, ap, ◌∙◌, append-nil, append_assoc, Bool-cases, Option-cases, inl, inr, ◌⊎◌, ◌≡⟨◌⟩◌, ◌∎,
}
use vpoiskaxroditeley.Str.{
  Bytes, codes, is_empty, eq_ignore_ascii_case, strip_prefix, strip_prefix-append,
}
use vpoiskaxroditeley.Str.Split.{
  contains, span_until, span_until-append, any-span_until, StopsAt, span_until-StopsAt, split_once,
  split_once-eq_some, rsplit_once, rsplit_once-eq_some, split_at_sub, split_at_sub-eq_some,
}
use vpoiskaxroditeley.CoreUtils.Url.{
  Authority, ends_authority, scheme_sep, split_scheme, split_user, split_userinfo, split_bracketed,
  split_plain, split_hostport, split_authority, HrefParts, tail_parts, href_parts, path_of,
  origin_of_authority,
}

-- The text of each piece, with its delimiter.
abbrev pub scheme_text : Bytes → Bytes
scheme_text s = if is_empty s then [] else s ++ scheme_sep

abbrev pub user_text : Bytes × Option Bytes → Bytes
user_text (n, none) = n
user_text (n, some p) = n ++ b':' ∷ p

abbrev pub userinfo_text : Option (Bytes × Option Bytes) → Bytes
userinfo_text none = []
userinfo_text (some u) = user_text u ++ b'@' ∷ []

abbrev pub port_text : Option Bytes → Bytes
port_text none = []
port_text (some p) = b':' ∷ p

split_user_lem : (u : Bytes) → user_text (split_user u) ≡ u
unfolding split_user
split_user_lem u = elim (Option-cases (split_once b':' u)) [
  | inl e ↦ ground (arith, e)
  | inr ((n, p), e) ↦ ground (arith, e, split_once-eq_some b':' u n p)
]

split_userinfo_lem : (s : Bytes) → userinfo_text (split_userinfo s).0 ++ (split_userinfo s).1 ≡ s
unfolding split_userinfo
split_userinfo_lem s = elim (Option-cases (rsplit_once b'@' s)) [
  | inl e ↦ ground (arith, e)
  | inr ((u, hp), e) ↦ ground (
    arith,
    e,
    rsplit_once-eq_some b'@' s u hp,
    split_user_lem u,
    append_assoc (user_text (split_user u)) (b'@' ∷ []) hp,
  )
]

split_plain_lem : (s : Bytes) → (split_plain s).0 ++ port_text (split_plain s).1 ≡ s
unfolding split_plain
split_plain_lem s = elim (Option-cases (rsplit_once b':' s)) [
  | inl e ↦ ground (arith, e, append-nil s)
  | inr ((h, p), e) ↦ ground (arith, e, append-nil s, rsplit_once-eq_some b':' s h p)
]

split_hostport_lem :
    (s : Bytes)
    → (split_hostport s).2 ≡ false
    → (split_hostport s).0 ++ port_text (split_hostport s).1 ≡ s
unfolding split_hostport
split_hostport_lem s h = elim (Option-cases (strip_prefix (b'[' ∷ []) s)) [
  | inl e ↦ rw (e, split_hostport) (split_plain_lem s)
  | inr (r, e) ↦ absurd (cc (bracketed_flag s r, e, h))
]
  where
    bracketed_flag : (s r : Bytes) → (split_bracketed s r).2 ≡ true
    bracketed_flag s r = elim (Option-cases (split_once b']' r)) [
      | inl e ↦ ground (arith, e)
      | inr (x, e) ↦ ground (arith, e)
    ]

split_scheme_lem :
    (s : Bytes)
    → strip_prefix scheme_sep s ≡ none
    → scheme_text (split_scheme s).0 ++ (split_scheme s).1 ≡ s
unfolding split_scheme
split_scheme_lem s h = elim (Option-cases (split_at_sub scheme_sep s)) [
  | inl e ↦ rw (e, split_scheme)
  | inr (([], b), e) ↦
      let f = split_at_sub-eq_some scheme_sep s [] b e in
      cc (h, f, strip_prefix-append scheme_sep b)
  | inr ((x ∷ a, b), e) ↦
      rw (e, split_scheme)
        (append_assoc (x ∷ a) scheme_sep b ∙ sym (split_at_sub-eq_some scheme_sep s (x ∷ a) b e))
]

five_parts :
    (a u h p t rest auth hp s : Bytes)
    → a ++ rest ≡ s
    → auth ++ t ≡ rest
    → u ++ hp ≡ auth
    → h ++ p ≡ hp
    → a ++ (u ++ (h ++ (p ++ t))) ≡ s
five_parts a u h p t rest auth hp s e f g k =
    a ++ (u ++ (h ++ (p ++ t)))
    ≡⟨ ap (λ x. a ++ (u ++ x)) (sym (append_assoc h p t)) ⟩ a ++ (u ++ ((h ++ p) ++ t))
    ≡⟨ ap (λ x. a ++ (u ++ (x ++ t))) k ⟩ a ++ (u ++ (hp ++ t))
    ≡⟨ ap (◌++◌ a) (sym (append_assoc u hp t)) ⟩ a ++ ((u ++ hp) ++ t)
    ≡⟨ ap (λ x. a ++ (x ++ t)) g ⟩ a ++ (auth ++ t)
    ≡⟨ ap (◌++◌ a) f ⟩ a ++ rest
    ≡⟨ e ⟩ s ∎

-- A URL that does not begin with `://`, and whose host is not in brackets, is its scheme, user
-- part, host, port and tail, each with its delimiter, in that order: nothing is lost.
pub split_authority_lossless :
    (s : Bytes)
    → strip_prefix scheme_sep s ≡ none
    → (split_authority s).host_bracketed ≡ false
    → scheme_text (split_authority s).scheme
        ++ (userinfo_text (split_authority s).userinfo
            ++ ((split_authority s).host
                ++ (port_text (split_authority s).port ++ (split_authority s).tail)))
      ≡ s
split_authority_lossless s h k =
    let rest = (split_scheme s).1 in
    let auth = (span_until ends_authority rest).0 in
    let hp = (split_userinfo auth).1 in
    unfold split_authority in
    five_parts _ _ _ _ _ rest auth hp s (split_scheme_lem s h)
      (span_until-append ends_authority rest) (split_userinfo_lem auth) (split_hostport_lem hp k)

-- What `href_parts` makes of the tail of a URL.
pub record SplitsTail (tail : Bytes) (parts : HrefParts) : Type 0 where
  pub joins :
      (parts.path ++ (parts.search ++ parts.hash) ≡ tail)
      ⊎ ((parts.path ≡ b'/' ∷ []) × (parts.search ++ parts.hash ≡ tail))
  pub path_rooted : (r : Bytes) × (parts.path ≡ b'/' ∷ r)
  pub search_marked : StopsAt (λ b. b == b'?') parts.search
  pub hash_marked : StopsAt (λ b. b == b'#') parts.hash
  pub path_plain : contains b'?' parts.path ≡ false
  pub search_plain : contains b'#' (parts.path ++ parts.search) ≡ false

-- A tail begins where `split_authority` cut it.
tail_stops : (s : Bytes) → StopsAt ends_authority (split_authority s).tail
unfolding split_authority
tail_stops s = span_until-StopsAt ends_authority (split_scheme s).1

marked_slash :
    (x : ℕ) → ends_authority x ≡ true → (x == b'?') ≡ false → (x == b'#') ≡ false → x ≡ b'/'
marked_slash x h q k = ground arith

SplitsTail-of_pieces :
    (origin host path query hash no_hash tail : Bytes)
    → path ++ query ≡ no_hash
    → no_hash ++ hash ≡ tail
    → contains b'?' path ≡ false
    → contains b'#' no_hash ≡ false
    → StopsAt (λ b. b == b'?') query
    → StopsAt (λ b. b == b'#') hash
    → StopsAt ends_authority tail
    → SplitsTail tail (record {
      origin = origin;
      host = host;
      path = if is_empty path then b'/' ∷ [] else path;
      search = query;
      hash = hash;
    })
SplitsTail-of_pieces origin host [] query hash no_hash tail e f np nh ms mh h = record {
  joins = inr (refl, cc);
  path_rooted = ([], refl);
  search_marked = ms;
  hash_marked = mh;
  path_plain = refl;
  search_plain = rw e nh;
}
SplitsTail-of_pieces origin host (x ∷ xs) query hash no_hash tail e f np nh ms mh h =
    let whole : (x ∷ xs) ++ (query ++ hash) ≡ tail =
      sym (append_assoc (x ∷ xs) query hash) ∙ ap (λ t. t ++ hash) e ∙ f in
    let head : ends_authority x ≡ true = subst (StopsAt ends_authority) (sym whole) h in
    let clean = subst (λ t. contains b'#' t ≡ false) (sym e) nh in
    record {
      joins = inl whole;
      path_rooted = (xs, ap (λ c. c ∷ xs) (marked_slash x head (ground arith) (ground arith)));
      search_marked = ms;
      hash_marked = mh;
      path_plain = np;
      search_plain = clean;
    }

tail_parts-SplitsTail :
    (oh : Bytes × Bytes) (t : Bytes) → StopsAt ends_authority t → SplitsTail t (tail_parts oh t)
unfolding tail_parts
tail_parts-SplitsTail oh t h =
    let no_hash = (span_until (λ b. b == b'#') t).0 in
    SplitsTail-of_pieces oh.0 oh.1 _ _ _ no_hash t (span_until-append (λ b. b == b'?') no_hash)
      (span_until-append (λ b. b == b'#') t) (any-span_until (λ b. b == b'?') no_hash)
      (any-span_until (λ b. b == b'#') t) (span_until-StopsAt (λ b. b == b'?') no_hash)
      (span_until-StopsAt (λ b. b == b'#') t) h

-- A URL with a scheme has a rooted path; its path, query and fragment joined are the tail, except
-- that an empty path is written as `/`; the query is empty or begins with `?`, the fragment is
-- empty or begins with `#`; the path holds no `?`, and neither path nor query holds a `#`.
pub href_parts-SplitsTail :
    (url : Bytes)
    → is_empty (split_authority url).scheme ≡ false
    → SplitsTail (split_authority url).tail (href_parts url)
unfolding href_parts
href_parts-SplitsTail url h =
    rw h (tail_parts-SplitsTail _ (split_authority url).tail (tail_stops url))

-- `path_of` begins with a slash, whatever the URL.
pub path_of_rooted : (url : Bytes) → (r : Bytes) × (path_of url ≡ b'/' ∷ r)
unfolding path_of
path_of_rooted url =
    let after : Bytes = elim (split_at_sub scheme_sep url) [ some (a, b) ↦ b | none ↦ url ] in
    rooted (span_until (λ b. b == b'/') after).1 (span_until-StopsAt (λ b. b == b'/') after)
  where
    rooted :
        (s : Bytes)
        → StopsAt (λ b. b == b'/') s
        → (r : Bytes) × (elim s as (λ x. Bytes) [ [] ↦ b'/' ∷ [] | x ∷ xs ↦ x ∷ xs ] ≡ b'/' ∷ r)
    rooted [] h = ([], refl)
    rooted (x ∷ xs) h = (xs, ground arith)

-- An origin with the scheme's default port written out is the origin without it.
pub origin_of_authority_default_port :
    (a : Authority) (p : Bytes)
    → ((eq_ignore_ascii_case a.scheme (codes "http") ≡ true) × (p ≡ codes "80"))
      ⊎ ((eq_ignore_ascii_case a.scheme (codes "https") ≡ true) × (p ≡ codes "443"))
    → origin_of_authority (record a { port = some p })
      ≡ origin_of_authority (record a { port = none })
unfolding origin_of_authority
origin_of_authority_default_port a p (inl (s, e)) = rw (e, s)
origin_of_authority_default_port a p (inr (s, e)) =
    elim (Bool-cases (eq_ignore_ascii_case a.scheme (codes "http"))) [
      | inl k ↦ rw (e, s, k)
      | inr k ↦ rw (e, s, k)
    ]
