-- ===== src/Text/Lines.antt =====
-- Splitting, joining and printing: `str.split(",")`, `str.join`, `dict.fromkeys` and decimal numbers.
use Prim.Native.Char.{Char, code}
use Prim.Native.String as Native
use Prim.Native.String.{◌++◌}
use project_g_one.Prelude.{
  ◌≡◌, refl, ℕ, zero, suc, ◌/◌, ◌%◌, String, not, List, [], ◌∷◌, ltb, nat_eq, ◌==◌, if◌then◌else◌,
  where_true, map,
}
use project_g_one.Text.{strip, is_empty}

-- The first piece of a text, and the pieces after it.
unfoldable pub add_to_first : Char → List String → List String
add_to_first c [] = Native.◌∷◌ c Native.[] ∷ []
add_to_first c (s ∷ ss) = Native.◌∷◌ c s ∷ ss

-- `text.split(separator)` for a separator of one character
unfoldable pub split_on : ℕ → String → List String
unfolding add_to_first
split_on sep Native.[] = "" ∷ []
split_on sep (Native.◌∷◌ c s) =
    let rest = split_on sep s in if nat_eq (code c) sep then "" ∷ rest else add_to_first c rest

-- `text.split(separator, n)`
unfoldable pub split_max : ℕ → ℕ → String → List String
unfolding add_to_first
split_max n sep Native.[] = "" ∷ []
split_max zero sep (Native.◌∷◌ c s) = Native.◌∷◌ c s ∷ []
split_max (suc n) sep (Native.◌∷◌ c s) =
    let rest = split_max n sep s in
    let same = split_max (suc n) sep s in
    if nat_eq (code c) sep then "" ∷ rest else add_to_first c same

-- `separator.join(texts)`
unfoldable pub join : String → List String → String
join sep [] = ""
join sep (s ∷ []) = s
join sep (s ∷ t ∷ ts) = s ++ sep ++ join sep (t ∷ ts)

-- `[part.strip() for part in parts if part.strip()]`
unfoldable pub stripped : List String → List String
unfolding strip is_empty
stripped ss = where_true (λ s. not (is_empty s)) (map strip ss)

-- `list(dict.fromkeys(texts))`: the first of each, in order
unfoldable pub from_keys : List String → List String
from_keys [] = []
from_keys (s ∷ ss) = s ∷ where_true (λ t. not (t == s)) (from_keys ss)

digit : ℕ → String
digit n =
    if nat_eq n 0
    then "0"
    else if nat_eq n 1
    then "1"
    else if nat_eq n 2
    then "2"
    else if nat_eq n 3
    then "3"
    else if nat_eq n 4
    then "4"
    else if nat_eq n 5
    then "5"
    else if nat_eq n 6
    then "6"
    else if nat_eq n 7
    then "7"
    else if nat_eq n 8
    then "8"
    else "9"

digits : ℕ → ℕ → String
digits zero n = ""
digits (suc fuel) n =
    let rest = digits fuel (n / 10) ++ digit (n % 10) in if ltb n 10 then digit n else rest

-- `str(n)`: a number has fewer digits than its successor.
unfoldable pub str : ℕ → String
unfolding digits digit
str n = digits (suc n) n

split_and_join :
    join ", " (from_keys (stripped (split_on 44 "a, b,,a "))) ++ str 51820 ≡ "a, b51820"
unfolding split_on join from_keys stripped str
split_and_join = refl
