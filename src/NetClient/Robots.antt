-- ===== src/NetClient/Robots.antt =====
-- crates/net-client/src/robots.rs: robots.txt groups, path patterns and the verdict for a path.
pub mod Glob
pub mod Greedy
pub mod Patterns
pub mod Verdict
pub mod Groups
use vpoiskaxroditeley.Prelude.{
  ℕ, ◌+◌, Bool, true, false, ◌&&◌, ◌||◌, not, Option, none, some, List, [], ◌∷◌, ◌++◌, ◌==◌, ltb,
  if◌then◌else◌, reverse, length, take, get_or,
}
use vpoiskaxroditeley.Str.{
  Bytes, codes, is_empty, eq_bytes, eq_ignore_ascii_case, strip_prefix, starts_with, ends_with,
  to_lower,
}
use vpoiskaxroditeley.Str.Split.{split, split_once, split_at_sub}
use vpoiskaxroditeley.Str.Trim.{trim}
use vpoiskaxroditeley.Str.Lines.{lines}
use vpoiskaxroditeley.CoreUtils.Encoding.{eq_ci}
use vpoiskaxroditeley.NetClient.SyncMap.{SyncMap}
use mathlib.Core.List.{map, foldl}
use mathlib.Core.Option

pub record RobotsRules : Type 0 where
  pub disallowed : List Bytes
  pub allowed : List Bytes

-- RobotsRules::default
abbrev pub no_rules : RobotsRules
no_rules = record { disallowed = []; allowed = [] }

-- What the loop of `parse_section` keeps between two lines.
pub record SectionParse : Type 0 where
  pub rules : RobotsRules
  pub has_specific_agent : Bool
  pub group_matches : Bool
  pub last_was_ua : Bool

abbrev pub section_start : SectionParse
section_start = record {
  rules = no_rules;
  has_specific_agent = false;
  group_matches = false;
  last_was_ua = false;
}

-- The agent's name, whole or up to the `/` before its version.
unfoldable pub token_match : Bytes → Bytes → Bool
unfolding eq_ignore_ascii_case
token_match a agent =
    length a == length agent && eq_ignore_ascii_case a agent
    || ltb (length a) (length agent)
      && (eq_ignore_ascii_case (take (length a) agent) a && get_or agent (length a) 0 == b'/')

unfoldable pub user_agent_line : Bytes → Bool → Bytes → SectionParse → SectionParse
unfolding token_match eq_bytes
user_agent_line our_agent specific_only value s =
    let before = if not s.last_was_ua then false else s.group_matches in
    let named = token_match value our_agent in
    if eq_bytes value (codes "*")
    then record s { group_matches = if not specific_only then true else before; last_was_ua = true }
    else record s {
      group_matches = if named then true else before;
      has_specific_agent = if named then true else s.has_specific_agent;
      last_was_ua = true;
    }

unfoldable pub add_rule : Bytes → Bytes → RobotsRules → RobotsRules
unfolding eq_ci
add_rule key value rules =
    if eq_ci key (codes "disallow")
    then record rules { disallowed = rules.disallowed ++ value ∷ [] }
    else if eq_ci key (codes "allow")
    then record rules { allowed = rules.allowed ++ value ∷ [] }
    else rules

unfoldable pub rule_line : Bytes → Bytes → SectionParse → SectionParse
unfolding add_rule
rule_line key value s = record s {
  rules = if s.group_matches && not (is_empty value) then add_rule key value s.rules else s.rules;
  last_was_ua = false;
}

-- one round of the loop, on a key and a value
unfoldable pub field_line : Bytes → Bool → SectionParse → Bytes × Bytes → SectionParse
unfolding user_agent_line rule_line eq_ci trim
field_line our_agent specific_only s (key, value) =
    if eq_ci (trim key) (codes "user-agent")
    then user_agent_line our_agent specific_only (trim value) s
    else rule_line (trim key) (trim value) s

-- The key and the value of a line; none for a blank line, a comment, or a line with no colon.
unfoldable pub field_of : Bytes → Option (Bytes × Bytes)
unfolding trim starts_with split_once
field_of raw =
    let line = trim raw in
    if is_empty line || starts_with (codes "#") line then none else split_once b':' line

unfoldable pub section_line : Bytes → Bool → SectionParse → Bytes → SectionParse
unfolding field_of field_line
section_line our_agent specific_only s raw = elim (field_of raw) [
  | some kv ↦ field_line our_agent specific_only s kv
  | none ↦ s
]

unfoldable pub section_lines : Bytes → Bool → SectionParse → List Bytes → SectionParse
unfolding section_line
section_lines our_agent specific_only s [] = s
section_lines our_agent specific_only s (l ∷ ls) =
    section_lines our_agent specific_only (section_line our_agent specific_only s l) ls

unfoldable pub parse_section : Bytes → Bytes → Bool → SectionParse
unfolding section_lines lines
parse_section body our_agent specific_only =
    section_lines our_agent specific_only section_start (lines body)

unfoldable pub parse_robots_txt : Bytes → Bytes → RobotsRules
unfolding parse_section
parse_robots_txt body our_agent =
    let agent_lower = map to_lower our_agent in
    let specific = parse_section body agent_lower true in
    if specific.has_specific_agent
    then specific.rules
    else (parse_section body agent_lower false).rules

-- strip_suffix of one byte
unfoldable pub strip_last : ℕ → Bytes → Option Bytes
strip_last c [] = none
strip_last c (x ∷ []) = if x == c then some [] else none
strip_last c (x ∷ y ∷ r) = Option.map (λ t. x ∷ t) (strip_last c (y ∷ r))

-- `(pat, anchored)` of a pattern
unfoldable pub anchor_of : Bytes → Bytes × Bool
unfolding strip_last
anchor_of pattern = elim (strip_last b'$' pattern) [ some p ↦ (p, true) | none ↦ (pattern, false) ]

-- the loops over `mids`: each segment at its first occurrence in what is left
unfoldable pub match_mids : List Bytes → Bytes → Option Bytes
unfolding split_at_sub
match_mids [] rest = some rest
match_mids (seg ∷ segs) rest = elim (split_at_sub seg rest) [
  | some r ↦ match_mids segs r.1
  | none ↦ none
]

-- Vec::pop
unfoldable pub pop_last : List Bytes → Option (List Bytes × Bytes)
pop_last [] = none
pop_last (x ∷ []) = some ([], x)
pop_last (x ∷ y ∷ r) = Option.map (λ t. (x ∷ t.0, t.1)) (pop_last (y ∷ r))

unfoldable pub match_rest : Bool → List Bytes → Bytes → Bool
unfolding match_mids pop_last ends_with
match_rest true mids rest = elim (pop_last mids) [
  | some (front, last) ↦ elim (match_mids front rest) [ some r ↦ ends_with last r | none ↦ false ]
  | none ↦ is_empty rest
]
match_rest false mids rest = elim (match_mids mids rest) [ some r ↦ true | none ↦ false ]

-- from the segments of the pattern on
unfoldable pub match_segments : Bool → List Bytes → Bytes → Bool
unfolding match_rest strip_prefix
match_segments anchored [] path = match_rest anchored [] path
match_segments anchored (first ∷ mids) path = elim (strip_prefix first path) [
  | some rest ↦ match_rest anchored mids rest
  | none ↦ false
]

unfoldable pub path_matches : Bytes → Bytes → Bool
unfolding anchor_of split match_segments
path_matches path pattern =
    let (pat, anchored) = anchor_of pattern in
    if is_empty pattern then true else match_segments anchored (split b'*' pat) path

-- the body of the loop over one list of patterns
unfoldable pub consider : Bytes → Bool → Option (ℕ × Bool) → Bytes → Option (ℕ × Bool)
unfolding path_matches
consider path allow best pattern =
    let longer : Bool = elim best [ none ↦ true | some (len, _) ↦ ltb len (length pattern) ] in
    if path_matches path pattern && longer then some (length pattern, allow) else best

unfoldable pub best_of : Bytes → Bool → Option (ℕ × Bool) → List Bytes → Option (ℕ × Bool)
unfolding consider
best_of path allow best [] = best
best_of path allow best (p ∷ ps) = best_of path allow (consider path allow best p) ps

unfoldable pub rules_allow : RobotsRules → Bytes → Bool
rules_allow rules path =
    elim (best_of path false (best_of path true none rules.allowed) rules.disallowed) [
      | none ↦ true
      | some (_, allow) ↦ allow
    ]

-- RobotsCache: the rules of each domain, in the concurrent map that the crate takes from `scc`.
module _ (m : SyncMap RobotsRules) where
  open m use {Map, insert_sync, read_sync}

  unfoldable pub parse_and_store : Map → Bytes → Bytes → Bytes → Map
  parse_and_store cache domain body our_agent =
      insert_sync domain (parse_robots_txt body our_agent) cache

  unfoldable pub store_empty : Map → Bytes → Map
  store_empty cache domain = insert_sync domain no_rules cache

  unfoldable pub is_cached : Map → Bytes → Bool
  is_cached cache domain = elim (read_sync domain cache) [ some _ ↦ true | none ↦ false ]

  unfoldable pub is_allowed : Map → Bytes → Bytes → Bool
  is_allowed cache domain path = elim (read_sync domain cache) [
    | some rules ↦ rules_allow rules path
    | none ↦ true
  ]
