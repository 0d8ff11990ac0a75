-- ===== src/CoreUtils/Url.antt =====
-- crates/core-utils/src/url.rs: URLs taken apart without a URL library. A `&str` inside another is
-- the list of its bytes.
pub mod Parts
use vpoiskaxroditeley.Prelude.{
  ℕ, ◌+◌, Bool, true, false, ◌&&◌, ◌||◌, not, Option, none, some, List, [], ◌∷◌, ◌++◌, ◌==◌,
  if◌then◌else◌, reverse, all,
}
use vpoiskaxroditeley.Str.{
  Bytes, codes, is_empty, is_digit, eq_bytes, eq_ignore_ascii_case, strip_prefix, starts_with,
}
use vpoiskaxroditeley.Str.Split.{span_until, split_once, rsplit_once, split_at_sub}
use vpoiskaxroditeley.CoreUtils.Encoding.{ascii_lower_compact, push_ascii_case_into}

pub record Authority : Type 0 where
  pub scheme : Bytes
  pub userinfo : Option (Bytes × Option Bytes)
  pub host : Bytes
  pub port : Option Bytes
  pub host_bracketed : Bool
  pub tail : Bytes

-- `/`, `?` and `#` end the authority.
abbrev pub ends_authority : ℕ → Bool
ends_authority b = b == b'/' || b == b'?' || b == b'#'

abbrev pub scheme_sep : Bytes
scheme_sep = codes "://"

unfoldable pub split_scheme : Bytes → Bytes × Bytes
unfolding split_at_sub
split_scheme s = elim (split_at_sub scheme_sep s) [ some (a, b) ↦ (a, b) | none ↦ ([], s) ]

unfoldable pub split_user : Bytes → Bytes × Option Bytes
unfolding split_once
split_user u = elim (split_once b':' u) [ some (n, p) ↦ (n, some p) | none ↦ (u, none) ]

unfoldable pub split_userinfo : Bytes → Option (Bytes × Option Bytes) × Bytes
unfolding rsplit_once split_user
split_userinfo authority = elim (rsplit_once b'@' authority) [
  | some (u, hp) ↦ (some (split_user u), hp)
  | none ↦ (none, authority)
]

-- host, port and whether the host stands in brackets, where the text begins with `[`
unfoldable pub split_bracketed : Bytes → Bytes → Bytes × Option Bytes × Bool
unfolding split_once strip_prefix
split_bracketed hostport stripped = elim (split_once b']' stripped) [
  | some (h, p) ↦ (h, strip_prefix (b':' ∷ []) p, true)
  | none ↦ (hostport, none, true)
]

-- the same where it does not; a colon with nothing before it is no port
unfoldable pub split_plain : Bytes → Bytes × Option Bytes × Bool
unfolding rsplit_once
split_plain hostport = elim (rsplit_once b':' hostport) [
  | some (h, p) ↦ if not (is_empty h) then (h, some p, false) else (hostport, none, false)
  | none ↦ (hostport, none, false)
]

unfoldable pub split_hostport : Bytes → Bytes × Option Bytes × Bool
unfolding split_bracketed split_plain strip_prefix
split_hostport hostport = elim (strip_prefix (b'[' ∷ []) hostport) [
  | some stripped ↦ split_bracketed hostport stripped
  | none ↦ split_plain hostport
]

unfoldable pub split_authority : Bytes → Authority
unfolding split_scheme span_until split_userinfo split_hostport
split_authority s =
    let (scheme, rest) = split_scheme s in
    let (authority, tail) = span_until ends_authority rest in
    let (userinfo, hostport) = split_userinfo authority in
    let (host, port, host_bracketed) = split_hostport hostport in
    record {
      scheme = scheme;
      userinfo = userinfo;
      host = host;
      port = port;
      host_bracketed = host_bracketed;
      tail = tail;
    }

unfoldable pub scheme_is_http : Bytes → Bool
unfolding eq_ignore_ascii_case
scheme_is_http scheme =
    eq_ignore_ascii_case scheme (codes "http") || eq_ignore_ascii_case scheme (codes "https")

unfoldable pub port_displayed : Bytes → Bytes → Bool
unfolding eq_ignore_ascii_case eq_bytes
port_displayed scheme port =
    let default =
      eq_ignore_ascii_case scheme (codes "http") && eq_bytes port (codes "80")
      || eq_ignore_ascii_case scheme (codes "https") && eq_bytes port (codes "443") in
    not default && not (is_empty port) && all is_digit port

-- `:` and the port, where there is one that is displayed
unfoldable pub port_suffix : Authority → Bytes
unfolding port_displayed
port_suffix a = elim a.port [
  | some p ↦ if port_displayed a.scheme p then b':' ∷ p else []
  | none ↦ []
]

unfoldable pub origin_of_authority : Authority → Bytes × Bytes
unfolding ascii_lower_compact port_suffix
origin_of_authority a =
    let host = ascii_lower_compact a.host in
    let shown = if a.host_bracketed then b'[' ∷ (host ++ b']' ∷ []) else host in
    (a.scheme ++ (scheme_sep ++ (shown ++ port_suffix a)), host)

unfoldable pub host_of : Bytes → Bytes
unfolding split_authority ascii_lower_compact
host_of url = ascii_lower_compact (split_authority url).host

-- The brackets of an IPv6 host are written only with a port.
unfoldable pub host_port : Bytes → Bytes
unfolding split_authority ascii_lower_compact port_displayed
host_port url =
    let a = split_authority url in
    let out = ascii_lower_compact a.host in
    elim a.port [
      | some p ↦
          if port_displayed a.scheme p
          then (if a.host_bracketed then b'[' ∷ (out ++ b']' ∷ []) else out) ++ b':' ∷ p
          else out
      | none ↦ out
    ]

unfoldable pub origin_parts : Bytes → Bytes × Bytes
unfolding split_authority origin_of_authority
origin_parts url =
    let a = split_authority url in if is_empty a.scheme then ([], []) else origin_of_authority a

pub record HrefParts : Type 0 where
  pub origin : Bytes
  pub host : Bytes
  pub path : Bytes
  pub search : Bytes
  pub hash : Bytes

abbrev pub empty_parts : HrefParts
empty_parts = record { origin = []; host = []; path = []; search = []; hash = [] }

-- the part of `href_parts` that takes the tail apart
unfoldable pub tail_parts : Bytes × Bytes → Bytes → HrefParts
unfolding span_until
tail_parts origin_host tail =
    let (no_hash, hash) = span_until (λ b. b == b'#') tail in
    let (path, search) = span_until (λ b. b == b'?') no_hash in
    record {
      origin = origin_host.0;
      host = origin_host.1;
      path = if is_empty path then b'/' ∷ [] else path;
      search = search;
      hash = hash;
    }

unfoldable pub href_parts : Bytes → HrefParts
unfolding split_authority origin_of_authority tail_parts
href_parts url =
    let a = split_authority url in
    if is_empty a.scheme then empty_parts else tail_parts (origin_of_authority a) a.tail

-- path_of: from the first `/` behind the scheme
unfoldable pub path_of : Bytes → Bytes
unfolding split_at_sub span_until
path_of url =
    let after : Bytes = elim (split_at_sub scheme_sep url) [ some (a, b) ↦ b | none ↦ url ] in
    elim ((span_until (λ b. b == b'/') after).1) [ [] ↦ b'/' ∷ [] | x ∷ xs ↦ x ∷ xs ]

-- trim_start_matches('/')
unfoldable pub trim_slashes : Bytes → Bytes
trim_slashes [] = []
trim_slashes (x ∷ xs) = let rest = trim_slashes xs in if x == b'/' then rest else x ∷ xs

-- the base up to the first `/` of what follows its scheme
unfoldable pub origin_cut : Bytes → Bytes
unfolding split_at_sub span_until
origin_cut base = elim (split_at_sub scheme_sep base) [
  | some (a, b) ↦ a ++ (scheme_sep ++ (span_until (λ b. b == b'/') b).0)
  | none ↦ base
]

-- the scheme and its colon, for a path that begins with `//`
unfoldable pub scheme_colon : Bytes → Bytes
unfolding split_at_sub
scheme_colon base = elim (split_at_sub scheme_sep base) [
  | some (a, b) ↦ if is_empty a then [] else a ++ b':' ∷ []
  | none ↦ []
]

unfoldable pub join_origin : Bytes → Bytes → Bool → Bytes
unfolding starts_with strip_prefix trim_slashes origin_cut scheme_colon
join_origin base path trim_leading_slash =
    if starts_with (codes "http://") path || starts_with (codes "https://") path
    then path
    else if starts_with (codes "//") path
    then scheme_colon base ++ (if trim_leading_slash then trim_slashes path else path)
    else if trim_leading_slash
    then origin_cut base ++ b'/' ∷ trim_slashes path
    else origin_cut base ++ path

unfoldable pub host_of_into : Bytes → Bytes → Bytes
unfolding split_authority push_ascii_case_into
host_of_into url out = push_ascii_case_into [] (split_authority url).host false
