-- ===== src/Str/Trim.antt =====
-- str::trim. White space is Unicode's, read off the UTF-8 bytes.
use vpoiskaxroditeley.Prelude.{
  ℕ, zero, suc, ◌-◌, Bool, ◌||◌, ◌&&◌, [], ◌∷◌, ◌==◌, leb, if◌then◌else◌, reverse,
}
use vpoiskaxroditeley.Str.{Bytes}

-- \t \n \v \f \r and the space
abbrev pub is_space : ℕ → Bool
is_space b = b == 32 || leb 9 b && leb b 13

-- U+0085 and U+00A0
abbrev is_space_2 : ℕ → ℕ → Bool
is_space_2 a b = a == 0xc2 && (b == 0x85 || b == 0xa0)

-- U+1680, U+2000 to U+200A, U+2028, U+2029, U+202F, U+205F, U+3000
abbrev is_space_3 : ℕ → ℕ → ℕ → Bool
is_space_3 a b c =
    a == 0xe1 && b == 0x9a && c == 0x80
    || a == 0xe2 && b == 0x80 && (leb 0x80 c && leb c 0x8a || c == 0xa8 || c == 0xa9 || c == 0xaf)
    || a == 0xe2 && b == 0x81 && c == 0x9f
    || a == 0xe3 && b == 0x80 && c == 0x80

-- The bytes of the white space that a text begins with, or 0.
unfoldable pub space_at : Bytes → ℕ
space_at [] = 0
space_at (a ∷ []) = if is_space a then 1 else 0
space_at (a ∷ b ∷ []) = if is_space a then 1 else if is_space_2 a b then 2 else 0
space_at (a ∷ b ∷ c ∷ r) =
    if is_space a then 1 else if is_space_2 a b then 2 else if is_space_3 a b c then 3 else 0

-- The same at the end of a text, whose bytes come last one first.
unfoldable pub space_at_end : Bytes → ℕ
space_at_end [] = 0
space_at_end (a ∷ []) = if is_space a then 1 else 0
space_at_end (b ∷ a ∷ []) = if is_space b then 1 else if is_space_2 a b then 2 else 0
space_at_end (c ∷ b ∷ a ∷ r) =
    if is_space c then 1 else if is_space_2 b c then 2 else if is_space_3 a b c then 3 else 0

-- `k` bytes of a white space are still to be dropped.
unfoldable pub drop_spaces : (Bytes → ℕ) → ℕ → Bytes → Bytes
drop_spaces space k [] = []
drop_spaces space (suc k) (x ∷ xs) = drop_spaces space k xs
drop_spaces space zero (x ∷ xs) =
    let n = space (x ∷ xs) in
    let rest = drop_spaces space (n - 1) xs in if n == 0 then x ∷ xs else rest

unfoldable pub trim_start : Bytes → Bytes
unfolding drop_spaces space_at
trim_start s = drop_spaces space_at 0 s

unfoldable pub trim_end : Bytes → Bytes
unfolding drop_spaces space_at_end
trim_end s = reverse (drop_spaces space_at_end 0 (reverse s))

unfoldable pub trim : Bytes → Bytes
unfolding trim_start trim_end
trim s = trim_end (trim_start s)
