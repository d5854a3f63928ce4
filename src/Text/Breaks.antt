-- ===== src/Text/Breaks.antt =====
-- `str.splitlines` on a text that `Path.read_text` gave, which holds no carriage return before a newline.
use Prim.Native.Char.{Char, code}
use Prim.Native.String as Native
use Prim.Native.String.{◌++◌}
use Prim.Native.String.append
use project_g_one.Prelude.{
  ◌≡◌, refl, ap, ◌∙◌, String, Bool, true, false, not, ◌&&◌, ◌||◌, List, [], ◌∷◌, leb, nat_eq,
  if◌then◌else◌, arith, all,
}
use project_g_one.Text.Lines.{add_to_first}

-- The characters at which `splitlines` splits.
unfoldable pub is_break : Char → Bool
is_break ch =
    let c = code ch in
    leb 10 c && leb c 13
    || leb 28 c && leb c 30
    || nat_eq c 0x85
    || nat_eq c 0x2028
    || nat_eq c 0x2029

unfoldable pub splitlines : String → List String
unfolding is_break add_to_first
splitlines Native.[] = []
splitlines (Native.◌∷◌ c s) =
    let rest = splitlines s in if is_break c then "" ∷ rest else add_to_first c rest

unfoldable pub has_break : String → Bool
has_break Native.[] = false
has_break (Native.◌∷◌ c s) = is_break c || has_break s

splitlines_example : splitlines "a=1\n\nb" ≡ "a=1" ∷ "" ∷ "b" ∷ []
unfolding splitlines
splitlines_example = refl

abbrev pub AllLines : List String → Type 0
AllLines ls = all (λ l. not (has_break l)) ls ≡ true

-- A line with its newline in front of other lines.
pub splitlines-append :
    (l rest : String) → has_break l ≡ false → splitlines (l ++ ("\n" ++ rest)) ≡ l ∷ splitlines rest
unfolding splitlines has_break
splitlines-append Native.[] rest h =
    ap splitlines (
      append.nil ("\n" ++ rest) ∙ append.cons "\n" "" rest ∙ ap (Native.◌∷◌ "\n") (append.nil rest))
splitlines-append (Native.◌∷◌ c s) rest h =
    ap splitlines (append.cons c s ("\n" ++ rest)) ∙ ground (arith, splitlines-append s rest)

pub splitlines_nil : splitlines "" ≡ []
unfolding splitlines
splitlines_nil = refl
