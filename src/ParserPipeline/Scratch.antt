-- ===== src/ParserPipeline/Scratch.antt =====
-- crates/parser-pipeline/src/scratch.rs: the events of a parse and the bytes and attributes that they
-- refer to, in arenas of fixed capacity. An arena is the list of what is in it. What the collector is
-- called with when the scratch is drained is a value.
pub mod Spans
use vpoiskaxroditeley.Prelude.{
  ℕ, zero, suc, ◌+◌, ◌*◌, Bool, true, false, ◌&&◌, Option, none, some, List, [], ◌∷◌, ◌++◌, ◌==◌,
  ltb, leb, if◌then◌else◌, length, take, drop,
}
use vpoiskaxroditeley.Str.{Bytes, is_empty}

abbrev pub pool_cap : ℕ
pool_cap = 512 * 1024

abbrev pub ev_cap : ℕ
ev_cap = 8192

abbrev pub attr_cap : ℕ
attr_cap = 8192

pub record Span : Type 0 where
  pub off : ℕ
  pub len : ℕ

abbrev pub nil_span : Span
nil_span = record { off = 0; len = 0 }

-- `Span::get`
unfoldable pub get : Span → Bytes → Bytes
get s pool = take s.len (drop s.off pool)

pub record AttrEv : Type 0 where
  pub name : ℕ
  pub name_dyn : Option Span
  pub value : Span

pub data ScriptEvKind : Type 0 where
  inline next_data anubis anubis_version : ScriptEvKind

pub data Ev : Type 0 where
  title_open : Ev
  script : (src : Option Span) (kind : ScriptEvKind) → Ev
  script_text : (span : Span) (last : Bool) → Ev
  title_text : (span : Span) (last : Bool) → Ev
  meta_description : (span : Span) → Ev
  form : (action : Option Span) (method : Span) → Ev
  field : (name : Span) (value : Option Span) (kind : Span) (hidden : Bool) → Ev
  extract : (key : ℕ) (span : Span) → Ev
  dom_open : (tag : ℕ) (tag_dyn : Option Span) (attr_start attr_count : ℕ) → Ev
  dom_text : (span : Span) → Ev
  dom_close : (tag : ℕ) (tag_dyn : Option Span) → Ev
  challenge_detected : (marker : Span) → Ev

-- an arena, with its capacity
pub record Arena (T : Type 0) : Type 0 where
  pub items : List T
  pub cap : ℕ

module _ {T : Type 0} where
  unfoldable pub new_arena : ℕ → Arena T
  new_arena cap = record { items = []; cap = cap }

  unfoldable pub push : T → Arena T → Arena T
  push value a =
      if leb a.cap (length a.items) then a else record a { items = a.items ++ value ∷ [] }

  unfoldable pub reset_arena : Arena T → Arena T
  reset_arena a = record a { items = [] }

-- without a test of the capacity, which the caller has made
unfoldable pub push_bytes : Bytes → Arena ℕ → Arena ℕ
push_bytes bytes a = record a { items = a.items ++ bytes }

pub record EvScratch : Type 0 where
  pub pool : Arena ℕ
  pub evs : Arena Ev
  pub attrs : Arena AttrEv
  pub overflow : Bool

unfoldable pub new : EvScratch
unfolding new_arena
new = record {
  pool = new_arena pool_cap;
  evs = new_arena ev_cap;
  attrs = new_arena attr_cap;
  overflow = false;
}

unfoldable pub push_str : Bytes → EvScratch → Span × EvScratch
unfolding push_bytes
push_str s sc =
    if ltb pool_cap (length sc.pool.items + length s)
    then (nil_span, record sc { overflow = true })
    else (
      record { off = length sc.pool.items; len = length s },
      record sc { pool = push_bytes s sc.pool },
    )

unfoldable pub push_attr : AttrEv → EvScratch → EvScratch
unfolding push
push_attr a sc =
    if leb sc.attrs.cap (length sc.attrs.items)
    then record sc { overflow = true }
    else record sc { attrs = push a sc.attrs }

unfoldable pub emit : Ev → EvScratch → EvScratch
unfolding push
emit ev sc =
    if leb sc.evs.cap (length sc.evs.items)
    then record sc { overflow = true }
    else record sc { evs = push ev sc.evs }

abbrev pub attr_mark : EvScratch → ℕ
attr_mark sc = length sc.attrs.items

unfoldable pub reset : EvScratch → EvScratch
unfolding reset_arena
reset sc = record {
  pool = reset_arena sc.pool;
  evs = reset_arena sc.evs;
  attrs = reset_arena sc.attrs;
  overflow = false;
}

-- The calls of the collector that a drain makes: `apply` for each event with the pool and the
-- attributes, then `note_scratch_overflow` if it is noted.
pub record Drained : Type 0 where
  pub pool : Bytes
  pub attrs : List AttrEv
  pub applied : List Ev
  pub noted : Bool

unfoldable pub drain_into : EvScratch → Drained × EvScratch
unfolding reset
drain_into sc =
    if is_empty sc.evs.items && is_empty sc.pool.items && is_empty sc.attrs.items
    then (
      record { pool = []; attrs = []; applied = []; noted = sc.overflow },
      record sc { overflow = false },
    )
    else (
      record {
        pool = sc.pool.items;
        attrs = sc.attrs.items;
        applied = sc.evs.items;
        noted = sc.overflow;
      },
      reset sc,
    )

-- What a parser does with the scratch between two drains.
pub data Op : Type 0 where
  pushes_str : (s : Bytes) → Op
  pushes_attr : (a : AttrEv) → Op
  emits : (ev : Ev) → Op

unfoldable pub apply : Op → EvScratch → EvScratch
unfolding push_str push_attr emit
apply (pushes_str s) sc = (push_str s sc).1
apply (pushes_attr a) sc = push_attr a sc
apply (emits ev) sc = emit ev sc

unfoldable pub run : List Op → EvScratch → EvScratch
unfolding apply
run [] sc = sc
run (op ∷ ops) sc = run ops (apply op sc)
