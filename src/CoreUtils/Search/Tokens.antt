-- ===== src/CoreUtils/Search/Tokens.antt =====
-- What a found token is.
use vpoiskaxroditeley.Prelude.{
  ℕ, zero, suc, ◌+◌, ◌≤◌, ◌≡◌, refl, ap, false, Option, none, some, [], ◌∷◌, length, drop, arith,
  Bool-cases, Option-cases, inl, inr,
}
use vpoiskaxroditeley.Str.{Bytes, is_empty}
use vpoiskaxroditeley.Str.Split.{contains}
use vpoiskaxroditeley.CoreUtils.Search.{token, find_token}

token_lem :
    (stop n : ℕ) (s : Bytes)
    → (length (token stop n s) ≤ n) × (contains stop (token stop n s) ≡ false)
unfolding token
token_lem stop zero s = (omega arith, refl)
token_lem stop (suc n) [] = (omega arith, refl)
token_lem stop (suc n) (c ∷ s) = ground (arith, token_lem stop n s)

module _ (find_sub : Bytes → Bytes → Option ℕ) where
  -- Wherever the search finds the key, a token that is found is not empty, has at most the bytes that
  -- were asked for, and has not the byte at which it should stop.
  pub find_token_lem :
      (s key : Bytes) (stop max_len : ℕ) (t : Bytes)
      → find_token find_sub s key stop max_len ≡ some t
      → (is_empty t ≡ false) × (length t ≤ max_len) × (contains stop t ≡ false)
  unfolding find_token
  find_token_lem s key stop max_len t h = elim (Option-cases (find_sub s key)) [
    | inl e ↦ absurd (cc (rw (find_token, e) at h))
    | inr (p, e) ↦
        let found = token stop max_len (drop (p + length key) s) in
        let (short, clean) = token_lem stop max_len (drop (p + length key) s) in
        elim (Bool-cases (is_empty found)) [
          | inl f ↦ absurd (cc (rw (find_token, e, f) at h))
          | inr f ↦
              let same : found ≡ t =
                ap (λ o. elim o as (λ _. Bytes) [ some b ↦ b | none ↦ found ])
                  (rw (find_token, e, f) at h) in
              rw (← same) (f, short, clean)
        ]
  ]
