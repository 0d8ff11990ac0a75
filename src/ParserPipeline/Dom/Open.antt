-- ===== src/ParserPipeline/Dom/Open.antt =====
-- crates/parser-pipeline/src/dom.rs: the stack of open elements, each with whether it has an id or a
-- class. The top of the stack is the head of its list.
pub mod Closed
use vpoiskaxroditeley.Prelude.{
  ℕ, zero, suc, ◌+◌, Bool, true, false, ◌&&◌, ◌||◌, Option, none, some, List, [], ◌∷◌, ◌==◌, ltb,
  if◌then◌else◌, length, drop,
}
use vpoiskaxroditeley.ParserPipeline.Dom.{DomTree, at}

abbrev pub tag_dd : ℕ
tag_dd = 24

abbrev pub tag_dt : ℕ
tag_dt = 31

abbrev pub tag_li : ℕ
tag_li = 58

abbrev pub tag_option : ℕ
tag_option = 71

abbrev pub tag_p : ℕ
tag_p = 73

abbrev pub tag_tbody : ℕ
tag_tbody = 98

abbrev pub tag_td : ℕ
tag_td = 99

abbrev pub tag_tfoot : ℕ
tag_tfoot = 102

abbrev pub tag_th : ℕ
tag_th = 103

abbrev pub tag_thead : ℕ
tag_thead = 104

abbrev pub tag_tr : ℕ
tag_tr = 108

abbrev pub max_open : ℕ
max_open = 512

pub record OpenStack : Type 0 where
  pub stack : List (ℕ × Bool)

unfoldable pub top : OpenStack → Option ℕ
top s = elim s.stack [ [] ↦ none | (node, marked) ∷ rest ↦ some node ]

unfoldable pub top_has_id_or_class : OpenStack → Bool
top_has_id_or_class s = elim s.stack [ [] ↦ false | (node, marked) ∷ rest ↦ marked ]

unfoldable pub push : ℕ → Bool → OpenStack → OpenStack
push node id_or_class s =
    if ltb (length s.stack) max_open then record { stack = (node, id_or_class) ∷ s.stack } else s

-- how far from the top the first element with a tag is
unfoldable pub matched : DomTree → ℕ → ℕ → List (ℕ × Bool) → Option ℕ
matched t tag from_top [] = none
matched t tag from_top ((node, marked) ∷ rest) =
    let further = matched t tag (suc from_top) rest in
    if (at t node).tag_id == tag then some from_top else further

unfoldable pub close : DomTree → ℕ → OpenStack → OpenStack
unfolding matched
close t tag s = elim (matched t tag 0 s.stack) [
  | none ↦ s
  | some k ↦ record { stack = drop (suc k) s.stack }
]

unfoldable pub sibling_closes : ℕ → ℕ → Bool
sibling_closes opening b =
    let cell = b == tag_td || b == tag_th in
    if opening == tag_p && (b == tag_p)
    then true
    else if opening == tag_li && (b == tag_li)
    then true
    else if (opening == tag_dt || opening == tag_dd) && (b == tag_dt || b == tag_dd)
    then true
    else if (opening == tag_th || opening == tag_td) && (b == tag_th || b == tag_td)
    then true
    else if opening == tag_tr && (cell || b == tag_tr)
    then true
    else if opening == tag_thead || (opening == tag_tbody || opening == tag_tfoot)
    then b == tag_thead || (b == tag_tbody || (b == tag_tfoot || (cell || b == tag_tr)))
    else opening == tag_option && (b == tag_option)

-- the loop of `imply_close`
unfoldable pub pop_implied : DomTree → ℕ → List (ℕ × Bool) → List (ℕ × Bool)
unfolding sibling_closes
pop_implied t opening [] = []
pop_implied t opening ((node, marked) ∷ rest) =
    let popped = pop_implied t opening rest in
    if sibling_closes opening (at t node).tag_id then popped else (node, marked) ∷ rest

unfoldable pub imply_close : DomTree → ℕ → OpenStack → OpenStack
unfolding pop_implied
imply_close t opening s = record { stack = pop_implied t opening s.stack }
