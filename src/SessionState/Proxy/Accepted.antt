-- ===== src/SessionState/Proxy/Accepted.antt =====
-- What the parser of proxy URLs accepts.
use vpoiskaxroditeley.Prelude.{
  ℕ, ◌≤◌, ◌≡◌, ◌≢◌, ◌↔◌, refl, sym, ap, subst, ◌∙◌, false, Option, none, some, [], ◌∷◌, ltb, length,
  inl, inr, arith, Bool-cases, Option-cases, Sum-cases, inr_injective,
}
use vpoiskaxroditeley.Prelude.Int.{ℤ}
use vpoiskaxroditeley.Str.{Bytes, codes, is_empty}
use vpoiskaxroditeley.Str.Trim.{trim}
use vpoiskaxroditeley.CoreUtils.Encoding.{ascii_lower_compact}
use vpoiskaxroditeley.CoreUtils.Url.{Authority, split_authority}
use vpoiskaxroditeley.SessionState.Proxy.{
  ProxyScheme, http, https, socks5, socks5h, socks4, as_str, parse_scheme, IpAddr, max_url,
  parse_auth, parse_port, bad_host, address, domain, query_int, to_i32, to_u32, ProxyConfig,
  parse_with, parse,
}
use vpoiskaxroditeley.SessionState.Proxy.Ports.{IsPortOf, parse_scheme_iff, parse_port_iff}
use vpoiskaxroditeley.SessionState.Proxy.Read.{IsHost, IsUserOf, parse_auth_iff, bad_host_iff}

module _ (ip : IpAddr) where
  open ip use {parse_ip}

  -- What an accepted text and the configuration that is read from it have.
  pub record IsReadFrom (s : Bytes) (a : Authority) (c : ProxyConfig ip) : Type 0 where
    pub filled : s ≢ []
    pub short : length s ≤ 512
    pub scheme : as_str c.scheme ≡ ascii_lower_compact a.scheme
    pub host : IsHost a
    pub target : c.target ≡ (elim (parse_ip a.host) [ some x ↦ address x | none ↦ domain a.host ])
    pub port : IsPortOf c.scheme a.port c.port
    pub user : IsUserOf a.userinfo c.auth
    pub utc_offset :
        c.utc_offset ≡ (elim (query_int s (codes "utc")) [ some v ↦ to_i32 v | none ↦ none ])
    pub asn : c.asn ≡ (elim (query_int s (codes "asn")) [ some v ↦ to_u32 v | none ↦ none ])

  not_below→le : (a b : ℕ) → ltb a b ≡ false → b ≤ a
  not_below→le a b h = ground arith

  le→not_below : (a b : ℕ) → b ≤ a → ltb a b ≡ false
  le→not_below a b h = ground arith

  not_nil : (s : Bytes) → s ≢ [] → is_empty s ≡ false
  not_nil [] h = absurd (h refl)
  not_nil (x ∷ s) h = refl

  read :
      (s : Bytes) (scheme : ProxyScheme) (a : Authority) (c : ProxyConfig ip)
      → is_empty s ≡ false
      → ltb max_url (length s) ≡ false
      → parse_scheme a.scheme ≡ some scheme
      → parse_with ip s scheme a ≡ inr c
      → IsReadFrom s a c
  unfolding parse_with
  read s scheme a c full short is h = elim (Sum-cases (parse_auth a.userinfo)) [
    | inl (e, f) ↦ absurd (cc (rw (parse_with, f) at h))
    | inr (auth, f) ↦ elim (Bool-cases (bad_host a)) [
      | inl g ↦ absurd (cc (rw (parse_with, f, g) at h))
      | inr g ↦ elim (Sum-cases (parse_port scheme a.port)) [
        | inl (e, p) ↦ absurd (cc (rw (parse_with, f, g, p) at h))
        | inr (port, p) ↦
            subst (IsReadFrom s a) (inr_injective (rw (parse_with, f, g, p) at h)) (record {
              filled = λ e. cc (sym full ∙ ap is_empty e);
              short = not_below→le max_url (length s) short;
              scheme = (parse_scheme_iff a.scheme scheme).0 is;
              host = (bad_host_iff a).0 g;
              target = refl;
              port = (parse_port_iff scheme a.port port).0 p;
              user = (parse_auth_iff a.userinfo auth).0 f;
              utc_offset = refl;
              asn = refl;
            })
      ]
    ]
  ]

  -- the configuration from its parts
  made :
      (s : Bytes) (a : Authority) (c : ProxyConfig ip)
      → IsReadFrom s a c
      → parse_with ip s c.scheme a ≡ inr c
  unfolding parse_with
  made s a c r =
      let auth = (parse_auth_iff a.userinfo c.auth).1 r.user in
      let host = (bad_host_iff a).1 r.host in
      let port = (parse_port_iff c.scheme a.port c.port).1 r.port in
      let utc : Option ℤ = elim (query_int s (codes "utc")) [ some v ↦ to_i32 v | none ↦ none ] in
      let asn : Option ℕ = elim (query_int s (codes "asn")) [ some v ↦ to_u32 v | none ↦ none ] in
      rw (parse_with, auth, host, port)
        (ap (λ t. inr (record c { target = t; utc_offset = utc; asn = asn })) (sym r.target)
          ∙ ap (λ u. inr (record c { utc_offset = u; asn = asn })) (sym r.utc_offset)
          ∙ ap (λ n. inr (record c { asn = n })) (sym r.asn))

  parsed→IsReadFrom :
      (s : Bytes) (c : ProxyConfig ip)
      → parse ip s ≡ inr c
      → IsReadFrom (trim s) (split_authority (trim s)) c
  unfolding parse
  parsed→IsReadFrom s c h =
      let text = trim s in
      let a = split_authority text in
      elim (Bool-cases (is_empty text)) [
        | inl e ↦ absurd (cc (rw (parse, e) at h))
        | inr e ↦ elim (Bool-cases (ltb max_url (length text))) [
          | inl f ↦ absurd (cc (rw (parse, e, f) at h))
          | inr f ↦ elim (Bool-cases (is_empty a.scheme)) [
            | inl g ↦ absurd (cc (rw (parse, e, f, g) at h))
            | inr g ↦ elim (Option-cases (parse_scheme a.scheme)) [
              | inl k ↦ absurd (cc (rw (parse, e, f, g, k) at h))
              | inr (scheme, k) ↦ read text scheme a c e f k (rw (parse, e, f, g, k) at h)
            ]
          ]
        ]
      ]

  some_scheme :
      (s : Bytes) (x : ProxyScheme) → as_str x ≡ ascii_lower_compact s → is_empty s ≡ false
  unfolding as_str ascii_lower_compact
  some_scheme [] http h = absurd cc
  some_scheme [] https h = absurd cc
  some_scheme [] socks5 h = absurd cc
  some_scheme [] socks5h h = absurd cc
  some_scheme [] socks4 h = absurd cc
  some_scheme (b ∷ s) x h = refl

  IsReadFrom→parsed :
      (s : Bytes) (c : ProxyConfig ip)
      → IsReadFrom (trim s) (split_authority (trim s)) c
      → parse ip s ≡ inr c
  unfolding parse
  IsReadFrom→parsed s c r =
      let text = trim s in
      let a = split_authority text in
      rw
        (
          parse,
          not_nil text r.filled,
          le→not_below max_url (length text) r.short,
          some_scheme a.scheme c.scheme r.scheme,
          (parse_scheme_iff a.scheme c.scheme).1 r.scheme,
        )
        (made text a c r)

  -- A proxy URL is accepted, with a configuration, exactly when it is, without blanks around it, not
  -- empty and at most 512 bytes long, names one of the five schemes, in any case, and has a host that is
  -- not empty, begins with a colon only in brackets, and has at most 255 bytes; a port from 1 to 65535,
  -- or none for http and https; and no user, or one whose name is not empty, that has at most 256 bytes
  -- with the password and its colon, and that is decoded to text. The configuration has the scheme, the host, as an
  -- address where it is one, the port that was written, or 80 or 443, the decoded user, and the offset
  -- and the number of the network that `query_int` reads, where they fit in their words.
  pub parse-IsReadFrom :
      (s : Bytes) (c : ProxyConfig ip)
      → (parse ip s ≡ inr c) ↔ IsReadFrom (trim s) (split_authority (trim s)) c
  parse-IsReadFrom s c = (parsed→IsReadFrom s c, IsReadFrom→parsed s c)
