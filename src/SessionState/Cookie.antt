-- ===== src/SessionState/Cookie.antt =====
-- crates/session-state/src/session.rs: matching rules and the fields of a `Set-Cookie` line. The
-- clock is an argument, read once for each call; arithmetic on u64 wraps as in a release build.
pub mod Date
pub mod Jar
pub mod Matching
pub mod Scope
use vpoiskaxroditeley.Prelude.{
  ℕ, zero, suc, ◌+◌, ◌-◌, ◌*◌, ◌%◌, ◌^◌, Bool, true, false, ◌&&◌, ◌||◌, not, Option, none, some,
  List, [], ◌∷◌, ◌++◌, ◌==◌, ltb, leb, if◌then◌else◌, length, get_or, min,
}
use vpoiskaxroditeley.Str.{
  Bytes, codes, is_empty, is_digit, eq_bytes, eq_ignore_ascii_case, strip_prefix, starts_with,
  ends_with,
}
use vpoiskaxroditeley.Str.Split.{span_until, split, split_once, rsplit_once}
use vpoiskaxroditeley.Str.Trim.{trim, trim_end}
use vpoiskaxroditeley.CoreUtils.Encoding.{ascii_lower_compact, starts_with_ci}
use vpoiskaxroditeley.CoreUtils.Url.{path_of}
use vpoiskaxroditeley.Prelude.Int.{pos, negsuc}
use vpoiskaxroditeley.SessionState.Cookie.Date.{http_date_ms, parse_i64}

pub record CookieEntry : Type 0 where
  pub value : Bytes
  pub host_only : Bool
  pub expires_ms : ℕ
  pub secure : Bool
  pub creation_seq : ℕ

-- name, domain and path
pub record CookieKey : Type 0 where
  pub name : Bytes
  pub domain : Bytes
  pub path : Bytes

abbrev pub jar_cap : ℕ
jar_cap = 512

abbrev pub u64_max : ℕ
u64_max = 2 ^ 64 - 1

unfoldable pub host_key : Bytes → Bytes
unfolding trim strip_prefix ascii_lower_compact
host_key domain =
    let d = trim domain in
    ascii_lower_compact (elim (strip_prefix (b'.' ∷ []) d) [ some r ↦ r | none ↦ d ])

unfoldable pub domain_matches : Bytes → Bytes → Bool → Bool
domain_matches host cookie_domain host_only =
    if host_only || eq_bytes host cookie_domain
    then eq_bytes host cookie_domain
    else not (is_empty cookie_domain)
      && (ltb (length cookie_domain) (length host)
          && (ends_with cookie_domain host
              && get_or host (length host - length cookie_domain - 1) 0 == b'.'))

unfoldable pub path_matches : Bytes → Bytes → Bool
path_matches request_path cookie_path = elim (strip_prefix cookie_path request_path) [
  | some rest ↦ is_empty rest || (ends_with (b'/' ∷ []) cookie_path || starts_with (b'/' ∷ []) rest)
  | none ↦ false
]

-- parent_path, parent_path_into: the directory of a URL's path
unfoldable pub parent_path : Bytes → Bytes
unfolding path_of span_until rsplit_once
parent_path url =
    let path = (span_until (λ b. b == b'?' || b == b'#') (path_of url)).0 in
    if is_empty path then b'/' ∷ [] else elim (rsplit_once b'/' path) [
      | some (front, _) ↦ if is_empty front then b'/' ∷ [] else front
      | none ↦ b'/' ∷ []
    ]

unfoldable pub attr_of : Bytes → Option (Bytes × Bytes)
unfolding split_once trim
attr_of part = elim (split_once b'=' part) [ some (k, v) ↦ some (trim k, trim v) | none ↦ none ]

-- The variables of the loop over the attributes.
pub record CookieAttrs : Type 0 where
  pub domain : Bytes
  pub host_only : Bool
  pub path : Bytes
  pub expires_ms : ℕ
  pub max_age_seen : Bool
  pub secure : Bool

unfoldable pub attrs_start : Bytes → Bytes → CookieAttrs
attrs_start url_host url_path = record {
  domain = if is_empty url_host then [] else host_key url_host;
  host_only = true;
  path = if is_empty url_path then b'/' ∷ [] else url_path;
  expires_ms = u64_max;
  max_age_seen = false;
  secure = false;
}

-- `now.saturating_add((secs as u64) * 1000)`
unfoldable pub max_age_ms : ℕ → Bytes → ℕ
unfolding parse_i64
max_age_ms now v = elim (parse_i64 v) [
  | some (pos secs) ↦ if ltb 0 secs then min (now + secs * 1000 % 2 ^ 64) u64_max else 0
  | some (negsuc _) ↦ 0
  | none ↦ 0
]

unfoldable pub domain_attr : Bytes → Bytes → CookieAttrs → CookieAttrs
domain_attr url_host v a =
    let d = host_key v in
    if not (is_empty url_host) && domain_matches url_host d false
    then record a { domain = d; host_only = false }
    else a

unfoldable pub expires_attr : Bytes → CookieAttrs → CookieAttrs
expires_attr v a = elim (http_date_ms v) [ some ms ↦ record a { expires_ms = ms } | none ↦ a ]

-- an attribute with a value
unfoldable pub keyed_attr : ℕ → Bytes → CookieAttrs → Bytes × Bytes → CookieAttrs
keyed_attr now url_host a (key, v) =
    if eq_ignore_ascii_case key (codes "secure")
    then record a { secure = true }
    else if eq_ignore_ascii_case key (codes "domain") && not (is_empty v)
    then domain_attr url_host v a
    else if eq_ignore_ascii_case key (codes "path")
        && (not (is_empty v) && starts_with (codes "/") v)
    then record a { path = v }
    else if eq_ignore_ascii_case key (codes "max-age")
    then record a { expires_ms = max_age_ms now v; max_age_seen = true }
    else if eq_ignore_ascii_case key (codes "expires") && not a.max_age_seen
    then expires_attr v a
    else a

unfoldable pub attr_step : ℕ → Bytes → CookieAttrs → Bytes → CookieAttrs
unfolding attr_of trim
attr_step now url_host a raw =
    let part = trim raw in
    elim (attr_of part) [
      | some kv ↦ if is_empty part then a else keyed_attr now url_host a kv
      | none ↦ if eq_ignore_ascii_case part (codes "secure") then record a { secure = true } else a
    ]

unfoldable pub attr_loop : ℕ → Bytes → CookieAttrs → List Bytes → CookieAttrs
attr_loop now url_host a [] = a
attr_loop now url_host a (p ∷ ps) = attr_loop now url_host (attr_step now url_host a p) ps

-- the name and the value, and what follows the first `;`
unfoldable pub split_cookie : Bytes → Option (Bytes × Bytes) × Bytes
unfolding split_once trim
split_cookie set_cookie =
    let (first, attrs) : Bytes × Bytes = elim (split_once b';' set_cookie) [
      | some r ↦ r
      | none ↦ (set_cookie, [])
    ] in
    (
      elim (split_once b'=' (trim first)) [ some (n, v) ↦ some (trim_end n, trim v) | none ↦ none ],
      attrs,
    )

-- the early return on a name or a value of a bad length
abbrev pub bad_pair : Bytes → Bytes → Bool
bad_pair name value = is_empty name || ltb 256 (length name) || ltb 4096 (length value)

unfoldable pub url_is_secure : Bytes → Bool
unfolding starts_with_ci
url_is_secure url = starts_with_ci url (codes "https:")
