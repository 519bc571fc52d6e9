-- ===== src/Prelude/Strings.antt =====
-- The functions of the package `strings` that the program calls.
use Prim.Native.Nat.{ℕ, suc}
use Prim.Native.Char.{Char, code}
use Prim.Native.String
use Prim.Native.String.{String}
use mathlib.Core.Bool.{Bool, true, false, ◌&&◌, ◌||◌}
use mathlib.Core.List.{List, [], ◌∷◌}
use ipman.Prelude.Tests.{nat_eq, leb, if◌then◌else◌}

abbrev pub single : Char → String
single c = String.◌∷◌ c String.[]

-- The first and the last code of each block of characters with the property White_Space.
abbrev space_blocks : List (ℕ × ℕ)
space_blocks =
    (9, 13)
    ∷ (32, 32)
    ∷ (133, 133)
    ∷ (160, 160)
    ∷ (5760, 5760)
    ∷ (8192, 8202)
    ∷ (8232, 8233)
    ∷ (8239, 8239)
    ∷ (8287, 8287)
    ∷ (12288, 12288)
    ∷ []

unfoldable in_blocks : ℕ → List (ℕ × ℕ) → Bool
in_blocks c [] = false
in_blocks c ((low, high) ∷ bs) = (leb low c && leb c high) || in_blocks c bs

-- unicode.IsSpace
unfoldable pub is_space : ℕ → Bool
unfolding in_blocks
is_space c = in_blocks c space_blocks

-- strings.TrimSpace(s) == ""
unfoldable pub is_blank : String → Bool
unfolding is_space
is_blank String.[] = true
is_blank (String.◌∷◌ c s) = is_space (code c) && is_blank s

-- strings.Count(s, c) for one character
unfoldable pub count_char : ℕ → String → ℕ
count_char k String.[] = 0
count_char k (String.◌∷◌ c s) =
    let rest = count_char k s in if nat_eq (code c) k then suc rest else rest

-- strings.Join
unfoldable pub join : List String → String → String
join [] sep = ""
join (s ∷ []) sep = s
join (s ∷ t ∷ rest) sep = String.◌++◌ s (String.◌++◌ sep (join (t ∷ rest) sep))

-- strings.HasSuffix(s, c) for one character
unfoldable pub ends_with : ℕ → String → Bool
ends_with k String.[] = false
ends_with k (String.◌∷◌ c String.[]) = nat_eq (code c) k
ends_with k (String.◌∷◌ c (String.◌∷◌ d s)) = ends_with k (String.◌∷◌ d s)

abbrev prepend : Char → List String → List String
prepend c [] = single c ∷ []
prepend c (s ∷ rest) = String.◌∷◌ c s ∷ rest

-- strings.Split(s, c) for one character
unfoldable pub split : ℕ → String → List String
split k String.[] = "" ∷ []
split k (String.◌∷◌ c s) =
    let rest = split k s in if nat_eq (code c) k then "" ∷ rest else prepend c rest

unfoldable space_before : Char → String → String
unfolding is_space
space_before c String.[] = if is_space (code c) then String.[] else single c
space_before c (String.◌∷◌ d s) = String.◌∷◌ c (String.◌∷◌ d s)

unfoldable pub trim_right_space : String → String
unfolding space_before
trim_right_space String.[] = String.[]
trim_right_space (String.◌∷◌ c s) = space_before c (trim_right_space s)

-- strings.TrimSpace
unfoldable pub trim_space : String → String
unfolding is_space trim_right_space
trim_space String.[] = String.[]
trim_space (String.◌∷◌ c s) =
    let rest = trim_space s in if is_space (code c) then rest else String.◌∷◌ c (trim_right_space s)
