-- ===== src/NetClient/Robots/Verdict.antt =====
-- Which rule decides.
use vpoiskaxroditeley.Prelude.{
  ℕ, ◌+◌, ◌≡◌, Bool, true, false, ◌&&◌, not, Option-cases, List, [], ◌∷◌, Option, none, some, ltb,
  leb, max, if◌then◌else◌, length, arith, Bool-cases, inl, inr,
}
use vpoiskaxroditeley.Str.{Bytes, eq_bytes}
use vpoiskaxroditeley.NetClient.SyncMap.{SyncMap}
use vpoiskaxroditeley.NetClient.Robots.{
  RobotsRules, path_matches, consider, best_of, rules_allow, is_allowed, parse_and_store, is_cached,
  parse_robots_txt,
}

-- One more than the length of the longest pattern that matches, or 0.
unfoldable pub longest : Bytes → List Bytes → ℕ
longest path [] = 0
longest path (p ∷ ps) = max (if path_matches path p then length p + 1 else 0) (longest path ps)

abbrev rank : Option (ℕ × Bool) → ℕ
rank none = 0
rank (some (n, _)) = n + 1

abbrev verdict : Option (ℕ × Bool) → Bool
verdict none = true
verdict (some (_, allow)) = allow

consider_lem :
    (path : Bytes) (allow : Bool) (best : Option (ℕ × Bool)) (p : Bytes)
    → let here = if path_matches path p then length p + 1 else 0 in
      (rank (consider path allow best p) ≡ max here (rank best))
      × (verdict (consider path allow best p)
          ≡ (if ltb (rank best) here then allow else verdict best))
unfolding consider
consider_lem path allow none p = ground arith
consider_lem path allow (some (n, b)) p = ground arith

best_of_lem :
    (path : Bytes) (allow : Bool) (best : Option (ℕ × Bool)) (ps : List Bytes)
    → (rank (best_of path allow best ps) ≡ max (longest path ps) (rank best))
      × (verdict (best_of path allow best ps)
          ≡ (if ltb (rank best) (longest path ps) then allow else verdict best))
unfolding best_of longest
best_of_lem path allow best [] = ground arith
best_of_lem path allow best (p ∷ ps) =
    ground (
      arith,
      consider_lem path allow best p,
      best_of_lem path allow (consider path allow best p) ps,
    )

-- The longest matching pattern decides, an `Allow` wins against a `Disallow` of its length, and a
-- path that nothing matches is allowed.
pub rules_allow_lem :
    (rules : RobotsRules) (path : Bytes)
    → rules_allow rules path ≡ leb (longest path rules.disallowed) (longest path rules.allowed)
unfolding rules_allow
rules_allow_lem rules path =
    let allowing = best_of path true none rules.allowed in
    ground (
      arith,
      best_of_lem path true none rules.allowed,
      best_of_lem path false allowing rules.disallowed,
    )

module _ (m : SyncMap RobotsRules) where
  open m use {Map, insert_sync, read_sync, read-insert}

  -- A domain that nothing was stored for gets the rules of the first body stored, and every path is
  -- judged by them; a later body changes nothing, and no body changes the verdicts of other domains.
  pub is_allowed-parse_and_store :
      (cache : Map) (domain other body agent path : Bytes)
      → is_allowed m (parse_and_store m cache domain body agent) other path ≡ (
          if eq_bytes domain other && not (is_cached m cache other)
          then rules_allow (parse_robots_txt body agent) path
          else is_allowed m cache other path)
  unfolding is_allowed parse_and_store is_cached
  is_allowed-parse_and_store cache domain other body agent path =
      let rules = parse_robots_txt body agent in
      let after = read-insert domain other rules cache in
      elim (Bool-cases (eq_bytes domain other)) [
        | inr e ↦ rw (after, e, is_allowed)
        | inl e ↦ elim (Option-cases (read_sync other cache)) [
          | inl f ↦ rw (after, e, f, is_allowed, is_cached)
          | inr (old, f) ↦ rw (after, e, f, is_allowed, is_cached)
        ]
      ]
