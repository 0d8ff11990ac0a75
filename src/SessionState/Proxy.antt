-- ===== src/SessionState/Proxy.antt =====
-- crates/session-state/src/proxy.rs: the URLs of proxies. `std`'s addresses are what `IpAddr` has of
-- them: a test for version 6, a parser and a printer.
pub mod Ports
pub mod Read
pub mod Accepted
use vpoiskaxroditeley.Prelude.{
  ℕ, zero, suc, ◌+◌, ◌-◌, ◌*◌, ◌^◌, ◌≤◌, ◌<◌, Bool, true, false, ◌&&◌, ◌||◌, not, Option, none,
  some, List, [], ◌∷◌, ◌++◌, ◌==◌, ltb, leb, if◌then◌else◌, length, drop, take, get_or, get_elem?,
  ◌⊎◌, inl, inr,
}
use vpoiskaxroditeley.Prelude.Int.{ℤ, pos, negsuc}
use vpoiskaxroditeley.Str.{Bytes, codes, is_empty, eq_bytes, starts_with}
use vpoiskaxroditeley.Str.Split.{split_once, span_until}
use vpoiskaxroditeley.Str.Trim.{trim}
use vpoiskaxroditeley.Str.Utf8.{is_utf8}
use vpoiskaxroditeley.CoreUtils.Encoding.{ascii_lower_compact, percent_decode, percent_encode}
use vpoiskaxroditeley.CoreUtils.Numbers.{int_to_compact}
use vpoiskaxroditeley.CoreUtils.Url.{Authority, split_authority}
use vpoiskaxroditeley.SessionState.Cookie.Date.{parse_u32, parse_i64}

pub data ProxyScheme : Type 0 where
  http : ProxyScheme
  https : ProxyScheme
  socks5 : ProxyScheme
  socks5h : ProxyScheme
  socks4 : ProxyScheme

unfoldable pub as_str : ProxyScheme → Bytes
as_str http = codes "http"
as_str https = codes "https"
as_str socks5 = codes "socks5"
as_str socks5h = codes "socks5h"
as_str socks4 = codes "socks4"

unfoldable pub parse_scheme : Bytes → Option ProxyScheme
unfolding ascii_lower_compact eq_bytes
parse_scheme s =
    let lower = ascii_lower_compact s in
    if eq_bytes lower (codes "http")
    then some http
    else if eq_bytes lower (codes "https")
    then some https
    else if eq_bytes lower (codes "socks5")
    then some socks5
    else if eq_bytes lower (codes "socks5h")
    then some socks5h
    else if eq_bytes lower (codes "socks4")
    then some socks4
    else none

abbrev pub wreq_supported : ProxyScheme → Bool
wreq_supported http = true
wreq_supported https = true
wreq_supported socks5 = true
wreq_supported socks5h = false
wreq_supported socks4 = false

pub record IpAddr : Type 1 where
  pub Ip : Type 0
  pub is_v6 : Ip → Bool
  pub parse_ip : Bytes → Option Ip
  pub print_ip : Ip → Bytes

pub record ProxyAuth : Type 0 where
  pub username : Bytes
  pub password : Bytes

pub data ProxyParseError : Type 0 where
  empty : ProxyParseError
  too_long : ProxyParseError
  missing_scheme : ProxyParseError
  unsupported_scheme : ProxyParseError
  missing_host : ProxyParseError
  missing_port : ProxyParseError
  bad_port : ProxyParseError
  bad_user_info : ProxyParseError

abbrev pub max_url : ℕ
max_url = 512

unfoldable pub percent_decode_compact : Bytes → ProxyParseError ⊎ Bytes
unfolding percent_decode is_utf8
percent_decode_compact s =
    let decoded = percent_decode s in if is_utf8 decoded then inr decoded else inl bad_user_info

-- The user's name and password: the name not empty, the two and their colon at most 256 bytes.
unfoldable pub parse_auth : Option (Bytes × Option Bytes) → ProxyParseError ⊎ Option ProxyAuth
unfolding percent_decode_compact
parse_auth none = inr none
parse_auth (some (user, pass)) =
    let ui_len = length user + (elim pass [ some p ↦ 1 + length p | none ↦ 0 ]) in
    if is_empty user || ltb 256 ui_len
    then inl bad_user_info
    else elim (percent_decode_compact user) [
      | inl e ↦ inl e
      | inr username ↦ elim (percent_decode_compact (elim pass [ some p ↦ p | none ↦ [] ])) [
        | inl e ↦ inl e
        | inr password ↦ inr (some (record { username = username; password = password }))
      ]
    ]

unfoldable pub parse_port : ProxyScheme → Option Bytes → ProxyParseError ⊎ ℕ
unfolding parse_u32
parse_port scheme (some p) = elim (parse_u32 p) [
  | some v ↦ if v == 0 || ltb (2 ^ 16 - 1) v then inl bad_port else inr v
  | none ↦ inl bad_port
]
parse_port http none = inr 80
parse_port https none = inr 443
parse_port socks5 none = inl missing_port
parse_port socks5h none = inl missing_port
parse_port socks4 none = inl missing_port

-- the start of the text, or the byte in front of a place in it
abbrev pub is_boundary : Option ℕ → Bool
is_boundary none = true
is_boundary (some b) = b == b'?' || b == b'&'

-- The first place at which the key stands behind a boundary and before `=` decides.
unfoldable pub query_from : Option ℕ → Bytes → Bytes → Option ℤ
unfolding starts_with eq_bytes parse_i64 span_until
query_from before key [] = none
query_from before key (c ∷ s) =
    let later = query_from (some c) key s in
    if starts_with key (c ∷ s) && (is_boundary before && get_or (c ∷ s) (length key) 0 == b'=')
    then parse_i64 (span_until (λ b. b == b'&') (drop (length key + 1) (c ∷ s))).0
    else later

unfoldable pub query_int : Bytes → Bytes → Option ℤ
unfolding query_from split_once
query_int s key = elim (split_once b'?' s) [
  | some (_, rest) ↦ query_from none key rest
  | none ↦ none
]

-- i32::try_from and u32::try_from
abbrev pub to_i32 : ℤ → Option ℤ
to_i32 (pos n) = if ltb n (2 ^ 31) then some (pos n) else none
to_i32 (negsuc n) = if ltb n (2 ^ 31) then some (negsuc n) else none

abbrev pub to_u32 : ℤ → Option ℕ
to_u32 (pos n) = if ltb n (2 ^ 32) then some n else none
to_u32 (negsuc n) = none

-- the tests on the host
abbrev pub bad_host : Authority → Bool
bad_host a =
    is_empty a.host
    || (not a.host_bracketed && starts_with (b':' ∷ []) a.host || ltb 255 (length a.host))

module _ (ip : IpAddr) where
  open ip use {Ip, is_v6, parse_ip, print_ip}

  pub data TargetAddr : Type 0 where
    address : Ip → TargetAddr
    domain : Bytes → TargetAddr

  abbrev pub is_ipv6 : TargetAddr → Bool
  is_ipv6 (address a) = is_v6 a
  is_ipv6 (domain d) = false

  abbrev pub host_string : TargetAddr → Bytes
  host_string (address a) = print_ip a
  host_string (domain d) = d

  pub record ProxyConfig : Type 0 where
    pub scheme : ProxyScheme
    pub target : TargetAddr
    pub port : ℕ
    pub auth : Option ProxyAuth
    pub utc_offset : Option ℤ
    pub asn : Option ℕ

  abbrev pub target_of : Bytes → TargetAddr
  target_of host = elim (parse_ip host) [ some a ↦ address a | none ↦ domain host ]

  -- What `parse` does once the scheme is known.
  unfoldable pub parse_with : Bytes → ProxyScheme → Authority → ProxyParseError ⊎ ProxyConfig
  unfolding parse_auth parse_port query_int
  parse_with s scheme a = elim (parse_auth a.userinfo) [
    | inl e ↦ inl e
    | inr auth ↦ if bad_host a then inl missing_host else elim (parse_port scheme a.port) [
      | inl e ↦ inl e
      | inr port ↦ inr (record {
        scheme = scheme;
        target = target_of a.host;
        port = port;
        auth = auth;
        utc_offset = elim (query_int s (codes "utc")) [ some v ↦ to_i32 v | none ↦ none ];
        asn = elim (query_int s (codes "asn")) [ some v ↦ to_u32 v | none ↦ none ];
      })
    ]
  ]

  unfoldable pub parse : Bytes → ProxyParseError ⊎ ProxyConfig
  unfolding trim split_authority parse_scheme parse_with
  parse s0 =
      let s = trim s0 in
      let a = split_authority s in
      if is_empty s
      then inl empty
      else if ltb max_url (length s)
      then inl too_long
      else if is_empty a.scheme
      then inl missing_scheme
      else elim (parse_scheme a.scheme) [
        | some scheme ↦ parse_with s scheme a
        | none ↦ inl unsupported_scheme
      ]

  -- the digits of a number; nothing where there is no room for them, which would be a panic
  abbrev digits_of : ℤ → Bytes
  digits_of v = elim (int_to_compact v) [ some d ↦ d | none ↦ [] ]

  unfoldable pub write_authority : ProxyConfig → Bytes
  unfolding int_to_compact
  write_authority c =
      let v6 = is_ipv6 c.target in
      (if v6 then b'[' ∷ [] else [])
      ++ (host_string c.target
          ++ ((if v6 then b']' ∷ [] else []) ++ (b':' ∷ digits_of (pos c.port))))

  unfoldable pub to_url_string : ProxyConfig → Bytes
  unfolding as_str percent_encode write_authority
  to_url_string c =
      as_str c.scheme
      ++ (codes "://"
          ++ ((elim c.auth [
            | some a ↦
                percent_encode a.username ++ (b':' ∷ (percent_encode a.password ++ (b'@' ∷ [])))
            | none ↦ []
          ])
              ++ write_authority c))

  unfoldable pub redacted_string : ProxyConfig → Bytes
  unfolding as_str write_authority
  redacted_string c = as_str c.scheme ++ (codes "://" ++ write_authority c)

  unfoldable pub identity_key : ProxyConfig → Bytes
  unfolding redacted_string int_to_compact
  identity_key c =
      redacted_string c
      ++ ((elim c.auth [ some a ↦ b'@' ∷ a.username | none ↦ [] ])
          ++ (b'#'
              ∷ ((elim c.asn [ some n ↦ digits_of (pos n) | none ↦ [] ])
                  ++ (b'|' ∷ (elim c.utc_offset [ some z ↦ digits_of z | none ↦ [] ])))))
