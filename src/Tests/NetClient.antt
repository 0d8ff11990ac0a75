-- ===== src/Tests/NetClient.antt =====
-- crates/net-client at concrete inputs.
use vpoiskaxroditeley.Prelude.{◌≡◌, ◌↔◌, refl, true, false, ◌&&◌, not, [], ◌∷◌, leb, if◌then◌else◌}
use vpoiskaxroditeley.Str.{Bytes, codes, eq_bytes, strip_prefix}
use vpoiskaxroditeley.NetClient.SyncMap.{SyncMap, entries}
use vpoiskaxroditeley.NetClient.Robots.{
  RobotsRules, parse_robots_txt, path_matches, strip_last, best_of, rules_allow, is_allowed,
  is_cached, parse_and_store,
}
use vpoiskaxroditeley.NetClient.Robots.Glob.{Glob}
use vpoiskaxroditeley.NetClient.Robots.Patterns.{path_matches-dollar, path_matches_open}
use vpoiskaxroditeley.NetClient.Robots.Verdict.{
  longest, rules_allow_lem, is_allowed-parse_and_store,
}

abbrev body : Bytes
body = codes "User-agent: *\nDisallow: /\n\nUser-agent: Bot\n# note\nDisallow: /a\nAllow: /a/b$\n"

abbrev bot_rules : RobotsRules
bot_rules = record { disallowed = codes "/a" ∷ []; allowed = codes "/a/b$" ∷ [] }

parse_run : parse_robots_txt body (codes "bot/1.0") ≡ bot_rules
unfolding parse_robots_txt strip_prefix
parse_run = refl

rules_run :
    (rules_allow bot_rules (codes "/a/b") ≡ true) × (rules_allow bot_rules (codes "/a/bc") ≡ false)
unfolding rules_allow best_of strip_prefix
rules_run = (refl, refl)

path_matches-dollar_example :
    (path_matches (codes "/x/y.php") (codes "/*.php$") ≡ true)
    ↔ Glob true (codes "/*.php") (codes "/x/y.php")
path_matches-dollar_example = path_matches-dollar (codes "/x/y.php") (codes "/*.php")

path_matches_open_example :
    (path_matches (codes "/x/y.php?q") (codes "/*.php") ≡ true)
    ↔ Glob false (codes "/*.php") (codes "/x/y.php?q")
unfolding strip_last
path_matches_open_example = path_matches_open (codes "/x/y.php?q") (codes "/*.php") refl

rules_allow_example :
    rules_allow bot_rules (codes "/a/b")
    ≡ leb (longest (codes "/a/b") bot_rules.disallowed) (longest (codes "/a/b") bot_rules.allowed)
rules_allow_example = rules_allow_lem bot_rules (codes "/a/b")

abbrev cache : SyncMap RobotsRules
cache = entries RobotsRules

is_allowed-parse_and_store_example :
    is_allowed cache
      (parse_and_store cache cache.empty (codes "h") body (codes "bot"))
      (codes "h")
      (codes "/a")
    ≡ (if eq_bytes (codes "h") (codes "h") && not (is_cached cache cache.empty (codes "h"))
        then rules_allow (parse_robots_txt body (codes "bot")) (codes "/a")
        else is_allowed cache cache.empty (codes "h") (codes "/a"))
is_allowed-parse_and_store_example =
    is_allowed-parse_and_store cache cache.empty (codes "h") (codes "h") body (codes "bot")
      (codes "/a")
