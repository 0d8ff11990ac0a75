-- ===== src/ParserPipeline/Dom/Names.antt =====
-- crates/parser-pipeline/src/dom.rs: the numbers of names. A name of the standard has a number of its
-- own; others are numbered from `BASE` on as they come, at most `CAP` of them. The hash map of the
-- interner is the list of its entries, the last inserted first. The two traits differ in their tables and
-- constants.
pub mod Table
pub mod Numbered
use vpoiskaxroditeley.Prelude.{
  ℕ, ◌+◌, ◌-◌, ◌%◌, ◌^◌, Bool, true, false, ◌||◌, Option, none, some, List, [], ◌∷◌, ◌==◌, ltb, leb,
  if◌then◌else◌, map, get_elem?,
}
use vpoiskaxroditeley.Str.{Bytes, eq_bytes}
use vpoiskaxroditeley.ParserPipeline.Scratch.{Span, EvScratch, push_str, get}

-- the trait `Names`
pub record Names : Type 0 where
  pub builtin : Bytes → Option ℕ
  pub unknown : ℕ
  pub base : ℕ
  pub cap : ℕ

-- `TagNames` and `AttrNames`, over the perfect hash maps `TAGS` and `ATTR_NAMES`
abbrev pub tag_names : (Bytes → Option ℕ) → Names
tag_names tags = record { builtin = tags; unknown = 2 ^ 16 - 1; base = 200; cap = 500 }

abbrev pub attr_names : (Bytes → Option ℕ) → Names
attr_names attrs = record { builtin = attrs; unknown = 2 ^ 16 - 1; base = 100; cap = 200 }

pub record Interner : Type 0 where
  pub dynamic : List (Bytes × ℕ)
  pub next : ℕ

unfoldable pub new : Names → Interner
new names = record { dynamic = []; next = names.base }

-- `get` of the hash map
unfoldable pub number_of : Bytes → List (Bytes × ℕ) → Option ℕ
number_of name [] = none
number_of name ((other, id) ∷ l) = if eq_bytes other name then some id else number_of name l

unfoldable pub intern : Names → Bytes → Interner → ℕ × Interner
unfolding number_of
intern names name i = elim (number_of name i.dynamic) [
  | some id ↦ (id, i)
  | none ↦
      if ltb i.next (names.base + names.cap)
      then (i.next, record { dynamic = (name, i.next) ∷ i.dynamic; next = i.next + 1 })
      else (names.unknown, i)
]

-- `sort_unstable_by_key` on the numbers
unfoldable pub insert_by_id : Bytes × ℕ → List (Bytes × ℕ) → List (Bytes × ℕ)
insert_by_id e [] = e ∷ []
insert_by_id e (x ∷ l) = if leb e.1 x.1 then e ∷ (x ∷ l) else x ∷ insert_by_id e l

unfoldable pub sort_by_id : List (Bytes × ℕ) → List (Bytes × ℕ)
unfolding insert_by_id
sort_by_id [] = []
sort_by_id (e ∷ l) = insert_by_id e (sort_by_id l)

-- the table, and the drained interner
unfoldable pub name_table : Interner → List Bytes × Interner
unfolding sort_by_id
name_table i = (map (λ e. e.0) (sort_by_id i.dynamic), record i { dynamic = [] })

-- the name of a number that is not of the standard, from the table
unfoldable pub dynamic_name : Names → List Bytes → ℕ → Option Bytes
dynamic_name names table id = get_elem? table ((id + 2 ^ 16 - names.base) % 2 ^ 16)

unfoldable pub push_name : Names → Bytes → EvScratch → (ℕ × Option Span) × EvScratch
unfolding push_str
push_name names name sc = elim (names.builtin name) [
  | some id ↦ ((id, none), sc)
  | none ↦ let (sp, pushed) = push_str name sc in ((names.unknown, some sp), pushed)
]

unfoldable pub resolve_name : Names → ℕ → Option Span → Bytes → Interner → Option ℕ × Interner
unfolding intern get
resolve_name names id sp pool i =
    if id == names.unknown
    then elim sp [
      | none ↦ (none, i)
      | some sp ↦ let (id, interned) = intern names (get sp pool) i in (some id, interned)
    ]
    else (some id, i)
