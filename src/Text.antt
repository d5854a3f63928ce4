-- ===== src/Text.antt =====
-- What the program uses of Python's `str`, on texts as sequences of characters.
pub mod Sets
pub mod Lines
pub mod Breaks
pub mod Strip
pub mod Trimmed
pub mod Split
use Prim.Native.Char.{Char, code}
use Prim.Native.String as Native
use project_g_one.Prelude.{
  ◌≡◌, refl, String, Bool, true, false, ◌&&◌, ◌||◌, List, [], ◌∷◌, Option, none, some, leb, nat_eq,
  if◌then◌else◌,
}

-- `str.isspace` of one character: the code points that `str.strip` removes.
unfoldable pub is_space : Char → Bool
is_space ch =
    let c = code ch in
    leb 9 c && leb c 13
    || leb 28 c && leb c 32
    || nat_eq c 0x85
    || nat_eq c 0xa0
    || nat_eq c 0x1680
    || leb 0x2000 c && leb c 0x200a
    || leb 0x2028 c && leb c 0x2029
    || nat_eq c 0x202f
    || nat_eq c 0x205f
    || nat_eq c 0x3000

unfoldable pub is_empty : String → Bool
is_empty Native.[] = true
is_empty (Native.◌∷◌ c s) = false

pub lstrip : String → String
lstrip Native.[] = Native.[]
lstrip (Native.◌∷◌ c s) = let rest = lstrip s in if is_space c then rest else Native.◌∷◌ c s

pub rstrip : String → String
rstrip Native.[] = Native.[]
rstrip (Native.◌∷◌ c s) =
    let rest = rstrip s in if is_space c && is_empty rest then Native.[] else Native.◌∷◌ c rest

-- `str.strip()`
unfoldable pub strip : String → String
unfolding lstrip rstrip is_space is_empty
strip s = rstrip (lstrip s)

strip_trims : strip "  a b \t\n" ≡ "a b"
unfolding strip
strip_trims = refl

-- `body.x.strip() if body.x else None`
unfoldable pub strip_or_none : Option String → Option String
unfolding strip is_empty
strip_or_none none = none
strip_or_none (some s) = if is_empty s then none else some (strip s)

char_in : Char → List Char → Bool
char_in c [] = false
char_in c (d ∷ ds) = nat_eq (code c) (code d) || char_in c ds

-- `any(character in text for character in characters)`
unfoldable pub has_any : List Char → String → Bool
unfolding char_in
has_any cs Native.[] = false
has_any cs (Native.◌∷◌ c s) = char_in c cs || has_any cs s
