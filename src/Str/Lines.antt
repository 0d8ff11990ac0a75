-- ===== src/Str/Lines.antt =====
-- str::lines: lines end at `\n` or `\r\n`, and an empty last line is none.
use vpoiskaxroditeley.Prelude.{List, [], ◌∷◌, ◌==◌, if◌then◌else◌, reverse}
use vpoiskaxroditeley.Str.{Bytes, is_empty}

-- a finished line, from its bytes last one first
unfoldable pub line_of : Bytes → Bytes
line_of [] = []
line_of (c ∷ cs) = if c == 13 then reverse cs else reverse (c ∷ cs)

unfoldable pub lines_from : Bytes → Bytes → List Bytes
unfolding line_of
lines_from cur [] = if is_empty cur then [] else reverse cur ∷ []
lines_from cur (c ∷ cs) =
    let rest = lines_from (if c == 10 then [] else c ∷ cur) cs in
    if c == 10 then line_of cur ∷ rest else rest

unfoldable pub lines : Bytes → List Bytes
unfolding lines_from
lines s = lines_from [] s
