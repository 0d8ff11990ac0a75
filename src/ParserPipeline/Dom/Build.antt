-- ===== src/ParserPipeline/Dom/Build.antt =====
-- crates/parser-pipeline/src/dom.rs: elements with their attributes, and text, as a parse adds them. The
-- hash of an identifier, `xxh3::hash`, is an argument. Attribute lists are what the parser collects, at
-- most 255, so that the count fits in its byte.
pub mod Shape
pub mod Kept
pub mod Parsed
pub mod Filled
pub mod Attributes
use vpoiskaxroditeley.Prelude.{
  ℕ, ◌+◌, ◌-◌, ◌*◌, ◌%◌, ◌^◌, min, Bool, true, false, not, ◌&&◌, ◌||◌, Option, none, some, List, [],
  ◌∷◌, ◌++◌, ◌==◌, ltb, leb, if◌then◌else◌, length, take, drop, bit_or, bit_and, is_some,
}
use vpoiskaxroditeley.Str.{Bytes, codes}
use vpoiskaxroditeley.CoreUtils.Encoding.{eq_ci}
use vpoiskaxroditeley.CoreUtils.Numbers.{floor_char_boundary}
use vpoiskaxroditeley.ParserPipeline.Scratch.{Span, nil_span, get}
use vpoiskaxroditeley.ParserPipeline.Dom.{
  Node, DomTree, NodeId, Attr, u32_max, tag_unknown, flag_element, flag_text, flag_hidden, at, put,
  push_slot, node_id,
}

abbrev pub max_attrs : ℕ
max_attrs = 16_384

abbrev pub id_index_cap : ℕ
id_index_cap = 4096

abbrev pub pool_bytes : ℕ
pool_bytes = 256 * 1024

abbrev pub text_node_bytes : ℕ
text_node_bytes = 4 * 1024

-- the tags and the attributes that are told apart, by their numbers in `tags` and `attrs`
abbrev pub tag_button : ℕ
tag_button = 15

abbrev pub tag_form : ℕ
tag_form = 38

abbrev pub tag_input : ℕ
tag_input = 53

abbrev pub tag_meta : ℕ
tag_meta = 64

abbrev pub tag_script : ℕ
tag_script = 84

abbrev pub tag_select : ℕ
tag_select = 87

abbrev pub tag_textarea : ℕ
tag_textarea = 101

abbrev pub tag_title : ℕ
tag_title = 106

abbrev pub attr_id : ℕ
attr_id = 17

abbrev pub attr_name : ℕ
attr_name = 26

abbrev pub attr_type : ℕ
attr_type = 50

unfoldable pub is_hidden_type : Bytes → Bool
is_hidden_type value = eq_ci value (codes "hidden")

unfoldable pub pool_put : Bytes → DomTree → Span × DomTree
pool_put bytes t =
    let cut =
      if ltb (2 ^ 16 - 1) (length bytes)
      then take (floor_char_boundary bytes (2 ^ 16 - 1)) bytes
      else bytes in
    if ltb pool_bytes (length t.pool + length cut)
    then (nil_span, record t { truncated = true })
    else (record { off = length t.pool; len = length cut }, record t { pool = t.pool ++ cut })

-- what the loop over the attributes of an element carries
pub record Opening : Type 0 where
  pub tree : DomTree
  pub count : ℕ
  pub hidden : Bool
  pub id_hash : Option ℕ

-- one attribute, for which there is room
unfoldable pub add_attr : (Bytes → ℕ) → ℕ → Bytes → Opening → Opening
unfolding pool_put is_hidden_type
add_attr hash name value s =
    let (span, t) = pool_put value s.tree in
    record {
      tree = record t { attrs = t.attrs ++ record { name = name; value = span } ∷ [] };
      count = (s.count + 1) % 2 ^ 8;
      hidden = if name == attr_type then is_hidden_type value else s.hidden;
      id_hash =
          if name == attr_type
          then s.id_hash
          else if name == attr_id
          then some (hash value)
          else s.id_hash;
    }

unfoldable pub add_attrs : (Bytes → ℕ) → List (ℕ × Bytes) → Opening → Opening
unfolding add_attr
add_attrs hash [] s = s
add_attrs hash ((name, value) ∷ l) s =
    let more = add_attrs hash l (add_attr hash name value s) in
    if leb max_attrs (length s.tree.attrs)
    then record s { tree = record s.tree { truncated = true } }
    else more

-- `any` attribute that names the description of the page
unfoldable pub names_description : List (ℕ × Bytes) → Bool
names_description [] = false
names_description ((name, value) ∷ l) =
    name == attr_name && eq_ci value (codes "description") || names_description l

-- the columns of the element, and its identifier
unfoldable pub seal : ℕ → ℕ → Opening → DomTree
unfolding put
seal node start s =
    let t =
      put node
        (λ n. record n {
          attr_start = start;
          attr_count = s.count;
          flags = if s.hidden then bit_or n.flags flag_hidden else n.flags;
        })
        s.tree in
    elim s.id_hash [
      | none ↦ t
      | some h ↦
          if ltb (length t.id_index) id_index_cap
          then record t { id_index = t.id_index ++ (h, node_id node t) ∷ [] }
          else t
    ]

-- the lists of nodes that are asked for later
unfoldable pub note : ℕ → ℕ → List (ℕ × Bytes) → DomTree → DomTree
unfolding names_description
note node tag attrs t =
    if tag == tag_script
    then record t { scripts = t.scripts ++ node ∷ [] }
    else if tag == tag_form
    then record t { forms = t.forms ++ node ∷ [] }
    else if tag == tag_input || (tag == tag_select || (tag == tag_textarea || tag == tag_button))
    then record t { inputs = t.inputs ++ node ∷ [] }
    else if tag == tag_title && not (is_some t.title_node)
    then record t { title_node = some node }
    else if tag == tag_meta && (not (is_some t.meta_desc_node) && names_description attrs)
    then record t { meta_desc_node = some node }
    else t

-- the element at its node
unfoldable pub furnish : (Bytes → ℕ) → ℕ → List (ℕ × Bytes) → ℕ → DomTree → DomTree
unfolding add_attrs seal note
furnish hash tag attrs node t = note node tag attrs (
    seal node (length t.attrs)
      (add_attrs hash attrs (record { tree = t; count = 0; hidden = false; id_hash = none })))

abbrev pub furnished : (Bytes → ℕ) → ℕ → List (ℕ × Bytes) → Option ℕ × DomTree → Option ℕ × DomTree
furnished hash tag attrs (none, t) = (none, t)
furnished hash tag attrs (some node, t) = (some node, furnish hash tag attrs node t)

unfoldable pub open_element : (Bytes → ℕ) → ℕ → ℕ → List (ℕ × Bytes) → DomTree → Option ℕ × DomTree
unfolding furnish push_slot
open_element hash parent tag attrs t =
    furnished hash tag attrs (push_slot parent tag flag_element nil_span t)

-- whether a text goes on where the last child ends, which is text too
unfoldable pub is_adjacent : Span → Node → Bool
is_adjacent span last =
    not (bit_and last.flags flag_text == 0) && (last.span.off + last.span.len == span.off)

-- text that is in the pool, below a parent
unfoldable pub put_text : ℕ → Span → DomTree → DomTree
unfolding is_adjacent put push_slot
put_text parent span t =
    let last = (at t parent).last_child in
    let merged = (at t last).span.len + span.len in
    if not (last == u32_max) && (is_adjacent span (at t last) && leb merged (2 ^ 16 - 1))
    then put last (λ n. record n { span = record n.span { len = merged } }) t
    else (push_slot parent tag_unknown flag_text span t).1

unfoldable pub push_text : ℕ → Bytes → DomTree → DomTree
unfolding pool_put put_text
push_text parent text t0 =
    if parent == u32_max
    then t0
    else let cut = floor_char_boundary text (min (length text) text_node_bytes) in
      let (span, t) = pool_put (take cut text) t0 in put_text parent span t

-- the first of the attributes with the name
unfoldable pub find_attr : ℕ → Bytes → List Attr → Option Bytes
unfolding get
find_attr name pool [] = none
find_attr name pool (a ∷ l) =
    if a.name == name then some (get a.value pool) else find_attr name pool l

unfoldable pub attr : ℕ → ℕ → DomTree → Option Bytes
unfolding find_attr
attr index name t =
    find_attr name t.pool (take (at t index).attr_count (drop (at t index).attr_start t.attrs))

unfoldable pub text : ℕ → DomTree → Option Bytes
unfolding get
text index t =
    if bit_and (at t index).flags flag_text == 0 then none else some (get (at t index).span t.pool)
