-- ===== src/ParserPipeline/Dom.antt =====
-- crates/parser-pipeline/src/dom.rs: the tree of a page, in columns that are indexed by node. The columns
-- are one list here, whose entries have a field for each column. u32::MAX stands for no node, and, as a
-- parent, for the list of roots. A read of a column out of range, which panics, gives `blank`, and a
-- write changes nothing.
pub mod Build
pub mod Orders
pub mod Open
pub mod Names
pub mod Tags
pub mod Forest
use vpoiskaxroditeley.Prelude.{
  ℕ, ◌+◌, ◌-◌, ◌*◌, ◌%◌, ◌^◌, Bool, true, false, not, ◌&&◌, Option, none, some, List, [], ◌∷◌, ◌++◌,
  ◌==◌, ltb, if◌then◌else◌, length, get_or, set,
}
use vpoiskaxroditeley.Str.{Bytes}
use vpoiskaxroditeley.ParserPipeline.Scratch.{Span, nil_span}

abbrev pub u32_max : ℕ
u32_max = 2 ^ 32 - 1

abbrev pub tag_unknown : ℕ
tag_unknown = 2 ^ 16 - 1

abbrev pub max_nodes : ℕ
max_nodes = 20_000

-- `node_flags`: single bits
abbrev pub flag_element : ℕ
flag_element = 1

abbrev pub flag_text : ℕ
flag_text = 2

abbrev pub flag_hidden : ℕ
flag_hidden = 4

pub record NodeId : Type 0 where
  pub index : ℕ
  pub generation : ℕ

pub record Attr : Type 0 where
  pub name : ℕ
  pub value : Span

-- the columns of `DomTree` at one index
pub record Node : Type 0 where
  pub parent : ℕ
  pub first_child : ℕ
  pub last_child : ℕ
  pub next_sibling : ℕ
  pub prev_sibling : ℕ
  pub tag_id : ℕ
  pub flags : ℕ
  pub generation : ℕ
  pub span : Span
  pub attr_start : ℕ
  pub attr_count : ℕ

abbrev pub blank : Node
blank = record {
  parent = u32_max;
  first_child = u32_max;
  last_child = u32_max;
  next_sibling = u32_max;
  prev_sibling = u32_max;
  tag_id = tag_unknown;
  flags = 0;
  generation = 0;
  span = nil_span;
  attr_start = 0;
  attr_count = 0;
}

-- The top of the stack of free places is the head of its list.
pub record DomTree : Type 0 where
  pub nodes : List Node
  pub attrs : List Attr
  pub pool : Bytes
  pub tag_names : List Bytes
  pub attr_name_table : List Bytes
  pub free : List ℕ
  pub roots_head : ℕ
  pub roots_tail : ℕ
  pub truncated : Bool
  pub id_index : List (ℕ × NodeId)
  pub pre_order : List ℕ
  pub scripts : List ℕ
  pub post_order : List ℕ
  pub forms : List ℕ
  pub inputs : List ℕ
  pub title_node : Option ℕ
  pub meta_desc_node : Option ℕ

unfoldable pub new : DomTree
new = record {
  nodes = [];
  attrs = [];
  pool = [];
  tag_names = [];
  attr_name_table = [];
  free = [];
  roots_head = u32_max;
  roots_tail = u32_max;
  truncated = false;
  id_index = [];
  pre_order = [];
  scripts = [];
  post_order = [];
  forms = [];
  inputs = [];
  title_node = none;
  meta_desc_node = none;
}

-- what the columns have at a node
abbrev pub at : DomTree → ℕ → Node
at t i = get_or t.nodes i blank

-- writes to columns at a node
unfoldable pub put : ℕ → (Node → Node) → DomTree → DomTree
put i f t = record t { nodes = set t.nodes i (f (at t i)) }

-- `*head_mut(parent)`, read and written
unfoldable pub head : DomTree → ℕ → ℕ
head t parent = if parent == u32_max then t.roots_head else (at t parent).first_child

unfoldable pub set_head : ℕ → ℕ → DomTree → DomTree
unfolding put
set_head parent v t =
    if parent == u32_max
    then record t { roots_head = v }
    else put parent (λ n. record n { first_child = v }) t

unfoldable pub tail : DomTree → ℕ → ℕ
tail t parent = if parent == u32_max then t.roots_tail else (at t parent).last_child

unfoldable pub set_tail : ℕ → ℕ → DomTree → DomTree
unfolding put
set_tail parent v t =
    if parent == u32_max
    then record t { roots_tail = v }
    else put parent (λ n. record n { last_child = v }) t

unfoldable pub link_child : ℕ → ℕ → DomTree → DomTree
unfolding put head set_head tail set_tail
link_child parent child t =
    let owned = put child (λ n. record n { parent = parent }) t in
    let prev = tail owned parent in
    let chained =
      if prev == u32_max
      then set_head parent child owned
      else put child (λ n. record n { prev_sibling = prev })
          (put prev (λ n. record n { next_sibling = child }) owned) in
    set_tail parent child chained

-- `none` when there is no place; whether the tree was cut short is noted
unfoldable pub alloc_slot : DomTree → Option ℕ × DomTree
alloc_slot t = elim t.free [
  | index ∷ rest ↦ (some index, record t { free = rest })
  | [] ↦
      if ltb (length t.nodes) max_nodes
      then (some (length t.nodes), t)
      else (none, record t { truncated = true })
]

-- a node at a place, with its generation, before it is linked
abbrev pub fresh : ℕ → ℕ → Span → Node → Node
fresh tag flags span n = record n {
  first_child = u32_max;
  last_child = u32_max;
  next_sibling = u32_max;
  prev_sibling = u32_max;
  tag_id = tag;
  flags = flags;
  span = span;
  attr_start = 0;
  attr_count = 0;
}

unfoldable pub place : ℕ → ℕ → ℕ → Span → DomTree → DomTree
unfolding put
place index tag flags span t =
    let grown = if index == length t.nodes then record t { nodes = t.nodes ++ blank ∷ [] } else t in
    put index (fresh tag flags span) grown

-- `push_slot` at the place that it has got
unfoldable pub push_at : ℕ → ℕ → ℕ → Span → Option ℕ × DomTree → Option ℕ × DomTree
unfolding place link_child
push_at parent tag flags span (none, t) = (none, t)
push_at parent tag flags span (some index, t) =
    (some index, link_child parent index (place index tag flags span t))

unfoldable pub push_slot : ℕ → ℕ → ℕ → Span → DomTree → Option ℕ × DomTree
unfolding alloc_slot push_at
push_slot parent tag flags span t = push_at parent tag flags span (alloc_slot t)

unfoldable pub is_valid : NodeId → DomTree → Bool
is_valid id t =
    ltb id.index (length t.nodes)
    && not ((at t id.index).flags == 0)
    && ((at t id.index).generation == id.generation)

unfoldable pub node_id : ℕ → DomTree → NodeId
node_id index t = record { index = index; generation = (at t index).generation }

-- how many nodes there are
unfoldable pub len : DomTree → ℕ
len t = length t.nodes - length t.free
