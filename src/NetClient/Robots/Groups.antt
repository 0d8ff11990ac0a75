-- ===== src/NetClient/Robots/Groups.antt =====
-- What `parse_section` makes of the lines of a body.
use vpoiskaxroditeley.Prelude.{
  ◌≡◌, refl, ap, Bool, true, false, List, [], ◌∷◌, ◌++◌, none, some, arith, Bool-cases,
  Option-cases, inl, inr, All, All-append, map,
}
use vpoiskaxroditeley.Str.{Bytes, codes, is_empty, to_lower}
use vpoiskaxroditeley.Str.Lines.{lines}
use vpoiskaxroditeley.Str.Trim.{trim}
use vpoiskaxroditeley.CoreUtils.Encoding.{eq_ci}
use vpoiskaxroditeley.NetClient.Robots.{
  RobotsRules, no_rules, SectionParse, section_start, user_agent_line, add_rule, rule_line,
  field_line, field_of, section_line, section_lines, parse_section, parse_robots_txt,
}

abbrev pub IsFull : Bytes → Type 0
IsFull p = is_empty p ≡ false

-- No pattern is empty (an empty one would match every path).
pub record NoEmptyRule (rules : RobotsRules) : Type 0 where
  pub disallow : All IsFull rules.disallowed
  pub allow : All IsFull rules.allowed

add_rule-NoEmptyRule :
    (key value : Bytes) (rules : RobotsRules)
    → IsFull value
    → NoEmptyRule rules
    → NoEmptyRule (add_rule key value rules)
unfolding add_rule
add_rule-NoEmptyRule key value rules f h = elim (Bool-cases (eq_ci key (codes "disallow"))) [
  | inl e ↦ rw e (record {
    disallow = All-append IsFull rules.disallowed (value ∷ []) h.disallow (f, tt);
    allow = h.allow;
  })
  | inr e ↦ elim (Bool-cases (eq_ci key (codes "allow"))) [
    | inl k ↦
        rw (e, k)
          (record {
            disallow = h.disallow;
            allow = All-append IsFull rules.allowed (value ∷ []) h.allow (f, tt);
          })
    | inr k ↦ rw (e, k) h
  ]
]

rule_line-NoEmptyRule :
    (key value : Bytes) (s : SectionParse)
    → NoEmptyRule s.rules
    → NoEmptyRule (rule_line key value s).rules
unfolding rule_line
rule_line-NoEmptyRule key value s h = elim (Bool-cases (is_empty value)) [
  | inl e ↦ elim (Bool-cases s.group_matches) [ inl k ↦ rw (k, e) h | inr k ↦ rw k h ]
  | inr e ↦ elim (Bool-cases s.group_matches) [
    | inl k ↦ rw (k, e) (add_rule-NoEmptyRule key value s.rules e h)
    | inr k ↦ rw k h
  ]
]

user_agent_line-rules :
    (agent : Bytes) (only : Bool) (value : Bytes) (s : SectionParse)
    → (user_agent_line agent only value s).rules ≡ s.rules
unfolding user_agent_line
user_agent_line-rules agent only value s = ground arith

module _ (agent : Bytes) (only : Bool) where
  section_line-NoEmptyRule :
      (s : SectionParse) (l : Bytes)
      → NoEmptyRule s.rules
      → NoEmptyRule (section_line agent only s l).rules
  unfolding section_line
  section_line-NoEmptyRule s l h = elim (Option-cases (field_of l)) [
    | inl e ↦ rw (e, section_line) h
    | inr ((key, value), e) ↦ elim (Bool-cases (eq_ci (trim key) (codes "user-agent"))) [
      | inl k ↦ rw (e, section_line, field_line, k, user_agent_line-rules) h
      | inr k ↦
          rw (e, section_line, field_line, k) (rule_line-NoEmptyRule (trim key) (trim value) s h)
    ]
  ]

  section_lines-NoEmptyRule :
      (s : SectionParse) (ls : List Bytes)
      → NoEmptyRule s.rules
      → NoEmptyRule (section_lines agent only s ls).rules
  unfolding section_lines
  section_lines-NoEmptyRule s [] h = h
  section_lines-NoEmptyRule s (l ∷ ls) h =
      section_lines-NoEmptyRule (section_line agent only s l) ls (section_line-NoEmptyRule s l h)

  -- A blank line, a comment or a line with no colon changes nothing wherever it stands, not even
  -- between the `User-agent` lines of one group.
  pub section_lines_skip :
      (s : SectionParse) (front back : List Bytes) (l : Bytes)
      → field_of l ≡ none
      → section_lines agent only s (front ++ l ∷ back) ≡ section_lines agent only s (front ++ back)
  unfolding section_lines
  section_lines_skip s [] back l e =
      ap (λ t. section_lines agent only t back) (unfold section_line in rw (e, section_line) refl)
  section_lines_skip s (x ∷ front) back l e =
      section_lines_skip (section_line agent only s x) front back l e

-- Whatever the body, no rule kept has an empty pattern.
pub parse_robots_txt-NoEmptyRule : (body agent : Bytes) → NoEmptyRule (parse_robots_txt body agent)
unfolding parse_robots_txt parse_section
parse_robots_txt-NoEmptyRule body agent =
    let name = map to_lower agent in
    let start : NoEmptyRule no_rules = record { disallow = tt; allow = tt } in
    let specific = section_lines-NoEmptyRule name true section_start (lines body) start in
    let general = section_lines-NoEmptyRule name false section_start (lines body) start in
    elim (Bool-cases (parse_section body name true).has_specific_agent) [
      | inl e ↦ rw e specific
      | inr e ↦ rw e general
    ]

-- Whether a line is a `User-agent` line.
abbrev pub names_agent : Bytes → Bool
names_agent l = elim (field_of l) [
  | some kv ↦ eq_ci (trim kv.0) (codes "user-agent")
  | none ↦ false
]

-- No group has begun yet.
record IsBefore (s : SectionParse) : Type 0 where
  rules : s.rules ≡ no_rules
  unmatched : s.group_matches ≡ false
  unnamed : s.has_specific_agent ≡ false

module _ (agent : Bytes) (only : Bool) where
  section_line-IsBefore :
      (s : SectionParse) (l : Bytes)
      → names_agent l ≡ false
      → IsBefore s
      → IsBefore (section_line agent only s l)
  unfolding section_line
  section_line-IsBefore s l n h = elim (Option-cases (field_of l)) [
    | inl e ↦ rw (e, section_line) h
    | inr ((key, value), e) ↦
        let k : eq_ci (trim key) (codes "user-agent") ≡ false = rw (e, names_agent) at n in
        rw (e, section_line, field_line, k, rule_line, h.unmatched)
          (record { rules = h.rules; unmatched = refl; unnamed = h.unnamed })
  ]

  section_lines-IsBefore :
      (s : SectionParse) (ls : List Bytes)
      → All (λ l. names_agent l ≡ false) ls
      → IsBefore s
      → IsBefore (section_lines agent only s ls)
  unfolding section_lines
  section_lines-IsBefore s [] n h = h
  section_lines-IsBefore s (l ∷ ls) n h =
      section_lines-IsBefore (section_line agent only s l) ls n.1 (section_line-IsBefore s l n.0 h)

-- A body without a `User-agent` line gives no rules, whatever rule lines it has.
pub parse_robots_txt_no_agent :
    (body agent : Bytes)
    → All (λ l. names_agent l ≡ false) (lines body)
    → parse_robots_txt body agent ≡ no_rules
unfolding parse_robots_txt parse_section
parse_robots_txt_no_agent body agent n =
    let name = map to_lower agent in
    let start : IsBefore section_start = record {
      rules = refl;
      unmatched = refl;
      unnamed = refl;
    } in
    let specific = section_lines-IsBefore name true section_start (lines body) n start in
    let general = section_lines-IsBefore name false section_start (lines body) n start in
    rw specific.unnamed general.rules
