-- ===== src/ParserPipeline/Dom/Tags.antt =====
-- crates/parser-pipeline/src/dom.rs: the tags and attributes that are known by name, with their numbers,
-- and the names of the numbers. The perfect hash maps of the phf crate are the lists of their entries.
pub mod Named
use vpoiskaxroditeley.Prelude.{
  ℕ, ◌-◌, ◌^◌, Bool, true, false, ◌||◌, Option, none, some, List, [], ◌∷◌, ◌==◌, leb, if◌then◌else◌,
  get_or, set, replicate,
}
use vpoiskaxroditeley.Str.{Bytes, codes}
use vpoiskaxroditeley.Str.Split.{contains}
use vpoiskaxroditeley.ParserPipeline.Dom.{DomTree, tag_unknown}
use vpoiskaxroditeley.ParserPipeline.Dom.Names.{
  Names, number_of, tag_names, attr_names, dynamic_name,
}

-- `tags` and `TAGS`
abbrev pub tags : List (Bytes × ℕ)
tags =
    (codes "a", 1)
    ∷ (codes "abbr", 2)
    ∷ (codes "address", 3)
    ∷ (codes "area", 4)
    ∷ (codes "article", 5)
    ∷ (codes "aside", 6)
    ∷ (codes "audio", 7)
    ∷ (codes "b", 8)
    ∷ (codes "base", 9)
    ∷ (codes "bdi", 10)
    ∷ (codes "bdo", 11)
    ∷ (codes "blockquote", 12)
    ∷ (codes "body", 13)
    ∷ (codes "br", 14)
    ∷ (codes "button", 15)
    ∷ (codes "canvas", 16)
    ∷ (codes "caption", 17)
    ∷ (codes "cite", 18)
    ∷ (codes "code", 19)
    ∷ (codes "col", 20)
    ∷ (codes "colgroup", 21)
    ∷ (codes "data", 22)
    ∷ (codes "datalist", 23)
    ∷ (codes "dd", 24)
    ∷ (codes "del", 25)
    ∷ (codes "details", 26)
    ∷ (codes "dfn", 27)
    ∷ (codes "dialog", 28)
    ∷ (codes "div", 29)
    ∷ (codes "dl", 30)
    ∷ (codes "dt", 31)
    ∷ (codes "em", 32)
    ∷ (codes "embed", 33)
    ∷ (codes "fieldset", 34)
    ∷ (codes "figcaption", 35)
    ∷ (codes "figure", 36)
    ∷ (codes "footer", 37)
    ∷ (codes "form", 38)
    ∷ (codes "h1", 39)
    ∷ (codes "h2", 40)
    ∷ (codes "h3", 41)
    ∷ (codes "h4", 42)
    ∷ (codes "h5", 43)
    ∷ (codes "h6", 44)
    ∷ (codes "head", 45)
    ∷ (codes "header", 46)
    ∷ (codes "hgroup", 47)
    ∷ (codes "hr", 48)
    ∷ (codes "html", 49)
    ∷ (codes "i", 50)
    ∷ (codes "iframe", 51)
    ∷ (codes "img", 52)
    ∷ (codes "input", 53)
    ∷ (codes "ins", 54)
    ∷ (codes "kbd", 55)
    ∷ (codes "label", 56)
    ∷ (codes "legend", 57)
    ∷ (codes "li", 58)
    ∷ (codes "link", 59)
    ∷ (codes "main", 60)
    ∷ (codes "map", 61)
    ∷ (codes "mark", 62)
    ∷ (codes "menu", 63)
    ∷ (codes "meta", 64)
    ∷ (codes "meter", 65)
    ∷ (codes "nav", 66)
    ∷ (codes "noscript", 67)
    ∷ (codes "object", 68)
    ∷ (codes "ol", 69)
    ∷ (codes "optgroup", 70)
    ∷ (codes "option", 71)
    ∷ (codes "output", 72)
    ∷ (codes "p", 73)
    ∷ (codes "param", 74)
    ∷ (codes "picture", 75)
    ∷ (codes "pre", 76)
    ∷ (codes "progress", 77)
    ∷ (codes "q", 78)
    ∷ (codes "rp", 79)
    ∷ (codes "rt", 80)
    ∷ (codes "ruby", 81)
    ∷ (codes "s", 82)
    ∷ (codes "samp", 83)
    ∷ (codes "script", 84)
    ∷ (codes "search", 85)
    ∷ (codes "section", 86)
    ∷ (codes "select", 87)
    ∷ (codes "slot", 88)
    ∷ (codes "small", 89)
    ∷ (codes "source", 90)
    ∷ (codes "span", 91)
    ∷ (codes "strong", 92)
    ∷ (codes "style", 93)
    ∷ (codes "sub", 94)
    ∷ (codes "summary", 95)
    ∷ (codes "sup", 96)
    ∷ (codes "table", 97)
    ∷ (codes "tbody", 98)
    ∷ (codes "td", 99)
    ∷ (codes "template", 100)
    ∷ (codes "textarea", 101)
    ∷ (codes "tfoot", 102)
    ∷ (codes "th", 103)
    ∷ (codes "thead", 104)
    ∷ (codes "time", 105)
    ∷ (codes "title", 106)
    ∷ (codes "tr", 108)
    ∷ (codes "track", 107)
    ∷ (codes "u", 109)
    ∷ (codes "ul", 110)
    ∷ (codes "var", 111)
    ∷ (codes "video", 112)
    ∷ (codes "wbr", 113)
    ∷ []

-- `attrs` and `ATTR_NAMES`
abbrev pub attrs : List (Bytes × ℕ)
attrs =
    (codes "accept", 1)
    ∷ (codes "action", 2)
    ∷ (codes "alt", 3)
    ∷ (codes "async", 4)
    ∷ (codes "charset", 5)
    ∷ (codes "checked", 6)
    ∷ (codes "class", 7)
    ∷ (codes "cols", 8)
    ∷ (codes "content", 9)
    ∷ (codes "defer", 10)
    ∷ (codes "dir", 11)
    ∷ (codes "disabled", 12)
    ∷ (codes "for", 13)
    ∷ (codes "headers", 14)
    ∷ (codes "height", 15)
    ∷ (codes "href", 16)
    ∷ (codes "id", 17)
    ∷ (codes "lang", 18)
    ∷ (codes "loading", 19)
    ∷ (codes "max", 20)
    ∷ (codes "maxlength", 21)
    ∷ (codes "media", 22)
    ∷ (codes "method", 23)
    ∷ (codes "min", 24)
    ∷ (codes "multiple", 25)
    ∷ (codes "name", 26)
    ∷ (codes "pattern", 27)
    ∷ (codes "placeholder", 28)
    ∷ (codes "property", 29)
    ∷ (codes "rel", 30)
    ∷ (codes "required", 31)
    ∷ (codes "rows", 32)
    ∷ (codes "sandbox", 33)
    ∷ (codes "scope", 34)
    ∷ (codes "selected", 35)
    ∷ (codes "shape", 36)
    ∷ (codes "size", 37)
    ∷ (codes "sizes", 38)
    ∷ (codes "span", 39)
    ∷ (codes "src", 40)
    ∷ (codes "srcdoc", 41)
    ∷ (codes "srclang", 42)
    ∷ (codes "srcset", 43)
    ∷ (codes "start", 44)
    ∷ (codes "step", 45)
    ∷ (codes "style", 46)
    ∷ (codes "tabindex", 47)
    ∷ (codes "target", 48)
    ∷ (codes "title", 49)
    ∷ (codes "type", 50)
    ∷ (codes "usemap", 51)
    ∷ (codes "value", 52)
    ∷ (codes "width", 53)
    ∷ (codes "wrap", 54)
    ∷ (codes "role", 55)
    ∷ (codes "aria-hidden", 56)
    ∷ (codes "aria-label", 57)
    ∷ (codes "crossorigin", 58)
    ∷ (codes "integrity", 59)
    ∷ (codes "referrerpolicy", 60)
    ∷ (codes "nomodule", 61)
    ∷ (codes "kind", 62)
    ∷ (codes "label", 63)
    ∷ (codes "open", 64)
    ∷ (codes "datetime", 65)
    ∷ (codes "download", 66)
    ∷ (codes "hidden", 67)
    ∷ []

abbrev pub dynamic_tag_base : ℕ
dynamic_tag_base = 200

abbrev pub dynamic_attr_base : ℕ
dynamic_attr_base = 100

-- the loop of `invert`
unfoldable pub inverted : List (Bytes × ℕ) → List (Option Bytes) → List (Option Bytes)
inverted [] v = v
inverted ((name, id) ∷ l) v = inverted l (set v id (some name))

unfoldable pub invert : List (Bytes × ℕ) → ℕ → List (Option Bytes)
unfolding inverted
invert map cap = inverted map (replicate cap none)

unfoldable pub static_tag_name : ℕ → Option Bytes
unfolding invert
static_tag_name tag =
    if tag == tag_unknown || leb dynamic_tag_base tag
    then none
    else get_or (invert tags dynamic_tag_base) tag none

-- `TagNames` and `AttrNames`
abbrev pub known_tags : Names
known_tags = tag_names (λ name. number_of name tags)

abbrev pub known_attrs : Names
known_attrs = attr_names (λ name. number_of name attrs)

unfoldable pub tag_name : ℕ → DomTree → Option Bytes
unfolding static_tag_name dynamic_name
tag_name tag t = elim (static_tag_name tag) [
  | some name ↦ some name
  | none ↦ dynamic_name known_tags t.tag_names tag
]

unfoldable pub reverse_attr_name : ℕ → List Bytes → Option Bytes
unfolding invert dynamic_name
reverse_attr_name name dynamic =
    if leb dynamic_attr_base name
    then (if name == known_attrs.unknown then none else dynamic_name known_attrs dynamic name)
    else get_or (invert attrs dynamic_attr_base) name none

-- AREA, BASE, BR, COL, EMBED, HR, IMG, INPUT, LINK, META, PARAM, SOURCE, TRACK and WBR
abbrev pub void_tags : List ℕ
void_tags = 4 ∷ 9 ∷ 14 ∷ 20 ∷ 33 ∷ 48 ∷ 52 ∷ 53 ∷ 59 ∷ 64 ∷ 74 ∷ 90 ∷ 107 ∷ 113 ∷ []

unfoldable pub is_void_tag : ℕ → Bool
is_void_tag tag = contains tag void_tags
