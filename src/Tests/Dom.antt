-- ===== src/Tests/Dom.antt =====
-- crates/parser-pipeline/src/dom.rs at a page with a form, an input with a type and an identifier, and a
-- text behind it.
use vpoiskaxroditeley.Prelude.{
  ℕ, ◌≡◌, ◌<◌, ◌⊎◌, inl, inr, refl, Bool, true, false, Option, none, some, List, [], ◌∷◌, ◌++◌,
  arith, length, all,
}
use vpoiskaxroditeley.Str.{Bytes, codes, eq_bytes}
use vpoiskaxroditeley.ParserPipeline.Scratch.{emits, title_text}
use vpoiskaxroditeley.ParserPipeline.Dom.{
  DomTree, u32_max, max_nodes, new, put, head, set_head, tail, set_tail, link_child, alloc_slot,
  place, push_at, push_slot, at,
}
use vpoiskaxroditeley.ParserPipeline.Dom.Build.{
  tag_form, tag_input, attr_id, attr_type, is_hidden_type, pool_put, add_attr, add_attrs, seal,
  note, furnish, open_element, is_adjacent, put_text, push_text, attr,
}
use vpoiskaxroditeley.ParserPipeline.Dom.Build.Parsed.{
  IsParsed, begins, opens, texts, CanHold, IsParsed-IsSound,
}
use vpoiskaxroditeley.ParserPipeline.Dom.Forest.{Forest, has, size}
use vpoiskaxroditeley.ParserPipeline.Dom.Forest.Sound.{IsSound}
use vpoiskaxroditeley.ParserPipeline.Scratch.{Op, pushes_str, EvScratch, get, run}
use vpoiskaxroditeley.ParserPipeline.Dom.Build.{find_attr, text}
use vpoiskaxroditeley.ParserPipeline.Dom.Build.Kept.{open_element-IsSound}
use vpoiskaxroditeley.ParserPipeline.Dom.Build.Filled.{HasRoom, value_of, values}
use vpoiskaxroditeley.ParserPipeline.Dom.Build.Attributes.{attr-open_element}
use vpoiskaxroditeley.ParserPipeline.Dom.Forest.Linked.{attach}
use vpoiskaxroditeley.ParserPipeline.Dom.Orders.{walk, orders_loop, compute_orders, is_descendant}
use vpoiskaxroditeley.ParserPipeline.Dom.Orders.Compared.{under}
use vpoiskaxroditeley.ParserPipeline.Dom.Orders.Descent.{is_descendant-under}
use vpoiskaxroditeley.ParserPipeline.Dom.Open.{OpenStack, matched, close}
use vpoiskaxroditeley.ParserPipeline.Dom.Open.Closed.{is_other, close-matched}
use vpoiskaxroditeley.ParserPipeline.Dom.Names.{push_name, resolve_name, intern}
use vpoiskaxroditeley.ParserPipeline.Dom.Names
use vpoiskaxroditeley.ParserPipeline.Dom.Names.Numbered.{interned}
use vpoiskaxroditeley.ParserPipeline.Dom.Tags.{known_tags}
use vpoiskaxroditeley.ParserPipeline.Dom.Tags.Named.{IsResolved, tag_name-resolve_name}
use vpoiskaxroditeley.ParserPipeline.Scratch
use vpoiskaxroditeley.CoreUtils.Numbers.{floor_char_boundary}
use vpoiskaxroditeley.CoreUtils.Encoding.{eq_ci}

abbrev scratch : EvScratch
scratch = Scratch.new

abbrev map_some {ℓ κ} : {A : Type ℓ} {B : Type κ} → (A → B) → Option A → Option B
map_some f none = none
map_some f (some a) = some (f a)

abbrev hash : Bytes → ℕ
hash b = length b

abbrev inputs : List (ℕ × Bytes)
inputs = (attr_type, codes "hidden") ∷ (attr_id, codes "q") ∷ []

abbrev with_form : DomTree
with_form = (open_element hash u32_max tag_form [] new).1

abbrev with_input : DomTree
with_input = (open_element hash 0 tag_input inputs with_form).1

abbrev page : DomTree
page = push_text 0 (codes "hi") with_input

form_CanHold : CanHold 0 with_form
unfolding open_element furnish push_slot push_at alloc_slot place link_child put head set_head tail
    set_tail add_attrs add_attr pool_put is_hidden_type seal note new
form_CanHold = inr (omega arith, λ e. absurd (omega (arith, e)))

input_CanHold : CanHold 0 with_input
unfolding open_element furnish push_slot push_at alloc_slot place link_child put head set_head tail
    set_tail add_attrs add_attr pool_put is_hidden_type seal note new
input_CanHold = inr (omega arith, λ e. absurd (omega (arith, e)))

page-IsParsed : IsParsed hash page
page-IsParsed =
    texts 0 (codes "hi") input_CanHold
      (opens 0 tag_input inputs form_CanHold (opens u32_max tag_form [] (inl refl) begins))

-- the columns of the page
page_links :
    (page.roots_head ≡ 0)
    × ((at page 0).first_child ≡ 1)
    × ((at page 0).last_child ≡ 2)
    × ((at page 1).next_sibling ≡ 2)
    × ((at page 2).prev_sibling ≡ 1)
    × (page.inputs ≡ 1 ∷ [])
    × (attr 1 attr_id page ≡ some (codes "q"))
    × (text 2 page ≡ some (codes "hi"))
unfolding open_element furnish push_slot push_at alloc_slot place link_child put head set_head tail
    set_tail add_attrs add_attr pool_put is_hidden_type seal note new push_text put_text is_adjacent
    floor_char_boundary eq_ci attr text find_attr get
page_links = (refl, refl, refl, refl, refl, refl, refl, refl)

IsParsed-IsSound_example : (f : Forest) × IsSound page f
IsParsed-IsSound_example = IsParsed-IsSound page-IsParsed

abbrev page_forest : Forest
page_forest = (IsParsed-IsSound page-IsParsed).0

page-IsSound : IsSound page page_forest
page-IsSound = (IsParsed-IsSound page-IsParsed).1

is_descendant-under_example :
    (u : DomTree) × (compute_orders page ≡ some u)
    × ((n r : ℕ)
        → has n page_forest ≡ true
        → has r page_forest ≡ true
        → is_descendant n r u ≡ under r n page_forest)
is_descendant-under_example = is_descendant-under page page_forest page-IsSound

-- the text is below the form, and not below the input
page_descent :
    (map_some (is_descendant 2 0) (compute_orders page) ≡ some true)
    × (map_some (is_descendant 2 1) (compute_orders page) ≡ some false)
unfolding open_element furnish push_slot push_at alloc_slot place link_child put head set_head tail
    set_tail add_attrs add_attr pool_put is_hidden_type seal note new push_text put_text is_adjacent
    floor_char_boundary eq_ci compute_orders orders_loop walk is_descendant
page_descent = (refl, refl)

open_element-IsSound_example :
    let r = open_element hash u32_max tag_form [] page in
    ((r ≡ (none, record page { truncated = true })) × (size page_forest ≡ max_nodes))
    ⊎ ((c : ℕ) × (r.0 ≡ some c)
        × (has c page_forest ≡ false)
        × IsSound r.1 (attach u32_max c page_forest))
open_element-IsSound_example =
    open_element-IsSound hash u32_max tag_form [] page page_forest (inl refl) page-IsSound

few_nodes : size page_forest < max_nodes
unfolding open_element furnish push_slot push_at alloc_slot place link_child put head set_head tail
    set_tail add_attrs add_attr pool_put is_hidden_type seal note new push_text put_text is_adjacent
    floor_char_boundary eq_ci
few_nodes = let nodes : length page.nodes ≡ 3 = refl in omega (arith, nodes, page-IsSound.counted)

page-HasRoom : HasRoom inputs (length page.attrs) (length page.pool) 0
unfolding open_element furnish push_slot push_at alloc_slot place link_child put head set_head tail
    set_tail add_attrs add_attr pool_put is_hidden_type seal note new push_text put_text is_adjacent
    floor_char_boundary eq_ci values
page-HasRoom =
    let attrs : length page.attrs ≡ 2 = refl in
    let pool : length page.pool ≡ 9 = refl in
    record {
      attrs_fit = omega (arith, attrs);
      values_fit = omega (arith, pool);
      count_fits = omega arith;
      spans_fit = (omega arith, (omega arith, tt));
    }

attr-open_element_example :
    let r = open_element hash u32_max tag_input inputs page in
    (c : ℕ) × (r.0 ≡ some c) × ((name : ℕ) → attr c name r.1 ≡ value_of name inputs)
attr-open_element_example =
    attr-open_element hash u32_max tag_input inputs page page_forest (inl refl) page-IsSound
      few_nodes page-HasRoom

abbrev dashed : Bytes
dashed = codes "x-box"

tag_name-resolve_name_example :
    IsResolved dashed
      (pushes_str (codes "q") ∷ [])
      scratch
      (codes "x-a" ∷ [])
      (codes "x-b" ∷ [])
      page
      (push_name known_tags dashed scratch)
tag_name-resolve_name_example =
    tag_name-resolve_name dashed (pushes_str (codes "q") ∷ []) scratch (codes "x-a" ∷ [])
      (codes "x-b" ∷ []) page

-- the name is there
box_run :
    let p = push_name known_tags dashed scratch in
    resolve_name known_tags p.0.0 p.0.1
      (run (pushes_str (codes "q") ∷ []) p.1).pool.items
      (interned known_tags (codes "x-a" ∷ []) (Names.new known_tags))
    ≡ (some 201, record { dynamic = (dashed, 201) ∷ (codes "x-a", 200) ∷ []; next = 202 })
unfolding push_name resolve_name run Scratch.push_str Scratch.new intern get Names.new eq_bytes
box_run = refl

abbrev opened : OpenStack
opened = record { stack = (1, true) ∷ (0, false) ∷ [] }

-- closing the form closes the input above it
close_form : close page tag_form opened ≡ record { stack = [] }
unfolding open_element furnish push_slot push_at alloc_slot place link_child put head set_head tail
    set_tail add_attrs add_attr pool_put is_hidden_type seal note new push_text put_text is_adjacent
    floor_char_boundary eq_ci close matched
close_form = refl

close-matched_example :
    ((close page tag_form opened ≡ opened) × (all (is_other page tag_form) opened.stack ≡ true))
    ⊎ ((above : List (ℕ × Bool)) × (node : ℕ) × (marked : Bool) × (opened.stack
          ≡ above ++ (node, marked) ∷ (close page tag_form opened).stack)
        × (all (is_other page tag_form) above ≡ true)
        × ((at page node).tag_id ≡ tag_form))
close-matched_example = close-matched page tag_form opened
