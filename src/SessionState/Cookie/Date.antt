-- ===== src/SessionState/Cookie/Date.antt =====
-- crates/session-state/src/session.rs: the dates of `Expires` attributes.
pub mod Numbers
use vpoiskaxroditeley.Prelude.{
  ℕ, suc, reverse, ◌+◌, ◌-◌, ◌*◌, ◌^◌, ◌&&◌, ◌||◌, not, Option, none, some, List, [], ◌∷◌, ◌==◌,
  ltb, leb, if◌then◌else◌,
}
use vpoiskaxroditeley.Prelude.Int.{ℤ, pos, negsuc, neg, pos_part}
use vpoiskaxroditeley.Str.{Bytes, codes, is_empty, is_digit, eq_ignore_ascii_case, strip_prefix}
use vpoiskaxroditeley.Str.Split.{split}
use vpoiskaxroditeley.CoreUtils.Dates.{epoch_ms_from_civil}
use mathlib.Core.Option

infixl 5 ◌>>=◌
abbrev ◌>>=◌ {ℓ κ} : {A : Type ℓ} {B : Type κ} → Option A → (A → Option B) → Option B
none >>= f = none
some a >>= f = f a

unfoldable pub digits_from : ℕ → Bytes → Option ℕ
digits_from acc [] = some acc
digits_from acc (c ∷ cs) =
    let rest = digits_from (acc * 10 + (c - b'0')) cs in if is_digit c then rest else none

-- the digits of a number, at least one
unfoldable pub parse_digits : Bytes → Option ℕ
unfolding digits_from
parse_digits [] = none
parse_digits (c ∷ cs) = digits_from 0 (c ∷ cs)

-- str::parse::<u32>
unfoldable pub parse_u32 : Bytes → Option ℕ
unfolding parse_digits strip_prefix
parse_u32 s = do
  n ← parse_digits (elim (strip_prefix (b'+' ∷ []) s) [ some r ↦ r | none ↦ s ])
  if ltb n (2 ^ 32) then some n else none

-- str::parse::<i64>, behind a minus sign
unfoldable pub negative_i64 : Bytes → Option ℤ
unfolding parse_digits
negative_i64 s = do n ← parse_digits s; if leb n (2 ^ 63) then some (neg n) else none

unfoldable pub parse_i64 : Bytes → Option ℤ
unfolding parse_digits strip_prefix negative_i64
parse_i64 s =
    let plain = do
      n ← parse_digits (elim (strip_prefix (b'+' ∷ []) s) [ some r ↦ r | none ↦ s ])
      if ltb n (2 ^ 63) then some (pos n) else none
    in elim (strip_prefix (b'-' ∷ []) s) [ some r ↦ negative_i64 r | none ↦ plain ]

-- `(lo..=hi).contains(&z)` for bounds that are not negative
unfoldable pub in_range : ℕ → ℕ → ℤ → Option ℕ
in_range lo hi (pos n) = if leb lo n && leb n hi then some n else none
in_range lo hi (negsuc n) = none

abbrev months : List Bytes
months =
    codes "jan"
    ∷ codes "feb"
    ∷ codes "mar"
    ∷ codes "apr"
    ∷ codes "may"
    ∷ codes "jun"
    ∷ codes "jul"
    ∷ codes "aug"
    ∷ codes "sep"
    ∷ codes "oct"
    ∷ codes "nov"
    ∷ codes "dec"
    ∷ []

unfoldable pub position_of : Bytes → List Bytes → Option ℕ
unfolding eq_ignore_ascii_case
position_of s [] = none
position_of s (m ∷ ms) =
    let later = position_of s ms in
    if eq_ignore_ascii_case s m then some 0 else Option.map suc later

-- the pieces between blanks and commas that are not empty
unfoldable pub tokens_from : Bytes → Bytes → List Bytes
tokens_from cur [] = if is_empty cur then [] else reverse cur ∷ []
tokens_from cur (c ∷ cs) =
    let cut = c == b' ' || c == b',' in
    let rest = tokens_from (if cut then [] else c ∷ cur) cs in
    if cut && not (is_empty cur) then reverse cur ∷ rest else rest

-- hour, minute and second; the second is 0 where it is missing or no number
unfoldable pub time_of : List Bytes → Option (ℤ × ℤ × ℤ)
unfolding parse_i64
time_of (h ∷ m ∷ []) = do hour ← parse_i64 h; minute ← parse_i64 m; some (hour, minute, pos 0)
time_of (h ∷ m ∷ s ∷ _) = do
  hour ← parse_i64 h
  minute ← parse_i64 m
  some (hour, minute, elim (parse_i64 s) [ some z ↦ z | none ↦ pos 0 ])
time_of _ = none

unfoldable pub date_fields : List Bytes → Option ℕ
unfolding parse_u32 parse_i64 in_range position_of time_of split epoch_ms_from_civil
date_fields (_ ∷ d ∷ mon_str ∷ y ∷ time ∷ _) = do
  day_read ← parse_u32 d
  day ← in_range 1 31 (pos day_read)
  mon ← position_of mon_str months
  year_read ← parse_i64 y
  year ← in_range 1970 9999 year_read
  (h, mi, s) ← time_of (split b':' time)
  hour ← in_range 0 23 h
  minute ← in_range 0 59 mi
  second ← in_range 0 59 s
  some (pos_part (epoch_ms_from_civil (pos year) (mon + 1) day hour minute second 0))
date_fields _ = none

-- A date before 1970 gives 0, which the years that are read exclude.
unfoldable pub http_date_ms : Bytes → Option ℕ
unfolding tokens_from date_fields
http_date_ms v = date_fields (tokens_from [] v)
