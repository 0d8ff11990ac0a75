-- ===== src/SessionState/Proxy/Ports.antt =====
-- The schemes and ports of proxy URLs.
use vpoiskaxroditeley.Prelude.{
  ℕ, ◌-◌, ◌^◌, ◌<◌, ◌≡◌, ◌↔◌, refl, sym, ap, ◌∙◌, false, ◌||◌, Option, none, some, ◌==◌, ltb,
  if◌then◌else◌, inl, inr, arith, Bool-cases, Option-cases, inr_injective,
}
use vpoiskaxroditeley.Str.{Bytes, eq_bytes, eq_bytes_iff}
use vpoiskaxroditeley.CoreUtils.Encoding.{ascii_lower_compact}
use vpoiskaxroditeley.SessionState.Cookie.Date.{parse_u32}
use vpoiskaxroditeley.SessionState.Proxy.{
  ProxyScheme, http, https, socks5, socks5h, socks4, as_str, parse_scheme, parse_port,
}

some_injective : {A : Type 0} {x y : A} → some x ≡ some y → x ≡ y
some_injective {x = x} e = ap (λ o. elim o [ some a ↦ a | none ↦ x ]) e

-- one of the scheme's names, then the others
named :
    (l : Bytes) (x scheme : ProxyScheme) {rest : Option ProxyScheme}
    → (rest ≡ some scheme → as_str scheme ≡ l)
    → (if eq_bytes l (as_str x) then some x else rest) ≡ some scheme
    → as_str scheme ≡ l
named l x scheme later h = elim (Bool-cases (eq_bytes l (as_str x))) [
  | inl e ↦ sym (ap as_str (some_injective (rw e at h))) ∙ sym ((eq_bytes_iff l (as_str x)).0 e)
  | inr e ↦ later (rw e at h)
]

parse_scheme-as_str :
    (s : Bytes) (scheme : ProxyScheme)
    → parse_scheme s ≡ some scheme
    → as_str scheme ≡ ascii_lower_compact s
unfolding parse_scheme as_str
parse_scheme-as_str s scheme h =
    let l = ascii_lower_compact s in
    named l http scheme
      (named l https scheme (
        named l socks5 scheme
          (named l socks5h scheme (named l socks4 scheme (λ e. absurd (cc e))))))
      h

as_str-parse_scheme :
    (s : Bytes) (scheme : ProxyScheme)
    → as_str scheme ≡ ascii_lower_compact s
    → parse_scheme s ≡ some scheme
unfolding parse_scheme as_str eq_bytes
as_str-parse_scheme s http h = rw (parse_scheme, ← h) refl
as_str-parse_scheme s https h = rw (parse_scheme, ← h) refl
as_str-parse_scheme s socks5 h = rw (parse_scheme, ← h) refl
as_str-parse_scheme s socks5h h = rw (parse_scheme, ← h) refl
as_str-parse_scheme s socks4 h = rw (parse_scheme, ← h) refl

pub parse_scheme_iff :
    (s : Bytes) (scheme : ProxyScheme)
    → (parse_scheme s ≡ some scheme) ↔ (as_str scheme ≡ ascii_lower_compact s)
parse_scheme_iff s scheme = (parse_scheme-as_str s scheme, as_str-parse_scheme s scheme)

-- The port is the number that was written, from 1 to 65535, or 80 or 443 where none was.
abbrev pub IsPortOf : ProxyScheme → Option Bytes → ℕ → Type 0
IsPortOf scheme (some p) port = (parse_u32 p ≡ some port) × (0 < port) × (port < 2 ^ 16)
IsPortOf http none port = port ≡ 80
IsPortOf https none port = port ≡ 443
IsPortOf socks5 none port = ⊥
IsPortOf socks5h none port = ⊥
IsPortOf socks4 none port = ⊥

port→IsPortOf :
    (scheme : ProxyScheme) (p : Option Bytes) (v : ℕ)
    → parse_port scheme p ≡ inr v
    → IsPortOf scheme p v
unfolding parse_port
port→IsPortOf scheme (some p) v h = elim (Option-cases (parse_u32 p)) [
  | inl e ↦ absurd (cc (rw (parse_port, e) at h))
  | inr (n, e) ↦ elim (Bool-cases (n == 0 || ltb (2 ^ 16 - 1) n)) [
    | inl f ↦ absurd (cc (rw (parse_port, e, f) at h))
    | inr f ↦
        let same : n ≡ v = inr_injective (rw (parse_port, e, f) at h) in
        (e ∙ ap some same, rw (← same) (ground arith), rw (← same) (ground arith))
  ]
]
port→IsPortOf http none v h = sym (inr_injective h)
port→IsPortOf https none v h = sym (inr_injective h)
port→IsPortOf socks5 none v h = absurd (cc h)
port→IsPortOf socks5h none v h = absurd (cc h)
port→IsPortOf socks4 none v h = absurd (cc h)

IsPortOf→port :
    (scheme : ProxyScheme) (p : Option Bytes) (v : ℕ)
    → IsPortOf scheme p v
    → parse_port scheme p ≡ inr v
unfolding parse_port
IsPortOf→port scheme (some p) v (e, above, below) =
    let fits : (v == 0 || ltb (2 ^ 16 - 1) v) ≡ false = ground arith in
    rw (parse_port, e, fits) refl
IsPortOf→port http none v h = ap inr (sym h)
IsPortOf→port https none v h = ap inr (sym h)
IsPortOf→port socks5 none v h = absurd h
IsPortOf→port socks5h none v h = absurd h
IsPortOf→port socks4 none v h = absurd h

pub parse_port_iff :
    (scheme : ProxyScheme) (p : Option Bytes) (v : ℕ)
    → (parse_port scheme p ≡ inr v) ↔ IsPortOf scheme p v
parse_port_iff scheme p v = (port→IsPortOf scheme p v, IsPortOf→port scheme p v)
