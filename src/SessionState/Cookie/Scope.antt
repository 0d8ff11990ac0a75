-- ===== src/SessionState/Cookie/Scope.antt =====
-- A cookie is stored for the host that sent it, or for a domain that this host belongs to.
use vpoiskaxroditeley.Prelude.{
  ℕ, ◌≡◌, true, false, ◌&&◌, not, List, [], ◌∷◌, arith, Bool-cases, Option-cases, inl, inr,
}
use vpoiskaxroditeley.Str.{Bytes, codes, is_empty, eq_bytes_refl, eq_ignore_ascii_case}
use vpoiskaxroditeley.Str.Trim.{trim}
use vpoiskaxroditeley.SessionState.Cookie.Date.{http_date_ms}
use vpoiskaxroditeley.SessionState.Cookie.{
  CookieAttrs, host_key, domain_matches, attr_of, attrs_start, domain_attr, expires_attr,
  keyed_attr, attr_step, attr_loop,
}

abbrev pub InScope : Bytes → CookieAttrs → Type 0
InScope host a = domain_matches host a.domain a.host_only ≡ true

module _ (host : Bytes) where
  start-InScope :
      (path : Bytes)
      → is_empty host ≡ false
      → host_key host ≡ host
      → InScope host (attrs_start host path)
  unfolding attrs_start domain_matches
  start-InScope path full clean = rw (full, clean) (eq_bytes_refl host)

  domain_attr-InScope :
      (v : Bytes) (a : CookieAttrs) → InScope host a → InScope host (domain_attr host v a)
  unfolding domain_attr
  domain_attr-InScope v a h =
      elim (Bool-cases (not (is_empty host) && domain_matches host (host_key v) false)) [
        | inl e ↦ rw e (ground (arith, e))
        | inr e ↦ rw e h
      ]

  expires_attr-InScope :
      (v : Bytes) (a : CookieAttrs) → InScope host a → InScope host (expires_attr v a)
  unfolding expires_attr
  expires_attr-InScope v a h = elim (Option-cases (http_date_ms v)) [
    | inl e ↦ rw (e, expires_attr) h
    | inr (ms, e) ↦ rw (e, expires_attr) h
  ]

  keyed_attr-InScope :
      (now : ℕ) (a : CookieAttrs) (kv : Bytes × Bytes)
      → InScope host a
      → InScope host (keyed_attr now host a kv)
  unfolding keyed_attr
  keyed_attr-InScope now a (key, v) h =
      ground (arith, domain_attr-InScope v a h, expires_attr-InScope v a h)

  attr_step-InScope :
      (now : ℕ) (a : CookieAttrs) (raw : Bytes)
      → InScope host a
      → InScope host (attr_step now host a raw)
  unfolding attr_step
  attr_step-InScope now a raw h = elim (Option-cases (attr_of (trim raw))) [
    | inl e ↦ elim (Bool-cases (eq_ignore_ascii_case (trim raw) (codes "secure"))) [
      | inl f ↦ rw (e, attr_step, f) h
      | inr f ↦ rw (e, attr_step, f) h
    ]
    | inr (kv, e) ↦ elim (Bool-cases (is_empty (trim raw))) [
      | inl f ↦ rw (e, attr_step, f) h
      | inr f ↦ rw (e, attr_step, f) (keyed_attr-InScope now a kv h)
    ]
  ]

  attr_loop-InScope :
      (now : ℕ) (a : CookieAttrs) (ps : List Bytes)
      → InScope host a
      → InScope host (attr_loop now host a ps)
  unfolding attr_loop
  attr_loop-InScope now a [] h = h
  attr_loop-InScope now a (p ∷ ps) h =
      attr_loop-InScope now (attr_step now host a p) ps (attr_step-InScope now a p h)

  -- Whatever attributes a line has, the domain that its cookie gets matches the host that sent it, if
  -- the host's name is not empty and has neither a dot in front, blanks around it nor capitals.
  pub attr_loop-InScope_start :
      (now : ℕ) (path : Bytes) (ps : List Bytes)
      → is_empty host ≡ false
      → host_key host ≡ host
      → domain_matches host
          (attr_loop now host (attrs_start host path) ps).domain
          (attr_loop now host (attrs_start host path) ps).host_only
        ≡ true
  attr_loop-InScope_start now path ps full clean =
      attr_loop-InScope now (attrs_start host path) ps (start-InScope path full clean)
