-- ===== src/Scripts/EnvFile.antt =====
-- The file of settings that the scripts share: `read_environment` and `write_setting` of
-- scripts/configure_server.py, on the text that `Path.read_text` gives.
pub mod Lookup
pub mod Update
use Prim.Native.Char.{code}
use Prim.Native.String as Native
use Prim.Native.String.{◌++◌}
use mathlib.Core.List.{◌++◌ as ◌+++◌}
use project_g_one.Prelude.{
  ◌≡◌, refl, ℕ, String, Bool, true, false, not, ◌&&◌, ◌||◌, List, [], ◌∷◌, ◌==◌, Option, none, some,
  nat_eq, if◌then◌else◌,
}
use project_g_one.Text.{strip, is_empty}
use project_g_one.Text.Lines.{split_max, join}
use project_g_one.Text.Breaks.{splitlines}
use project_g_one.Text.Split.{has_code}

-- `dict[str, str]`, in the order of the first assignments
abbrev pub Values : Type 0
Values = List (String × String)

unfoldable pub set_value : String → String → Values → Values
set_value k v [] = (k, v) ∷ []
set_value k v ((j, w) ∷ m) =
    let rest = set_value k v m in if j == k then (k, v) ∷ m else (j, w) ∷ rest

unfoldable pub get_value : String → Values → Option String
get_value k [] = none
get_value k ((j, v) ∷ m) = if j == k then some v else get_value k m

-- `line.startswith("#")`
unfoldable pub is_comment : String → Bool
is_comment Native.[] = false
is_comment (Native.◌∷◌ c s) = nat_eq (code c) 35

abbrev pub pair_of : List String → Option (String × String)
pair_of (key ∷ value ∷ []) = some (strip key, strip value)
pair_of _ = none

-- The key and the value of a stripped line that assigns.
unfoldable pub assignment : String → Option (String × String)
unfolding is_empty is_comment has_code split_max strip
assignment line =
    if is_empty line || (is_comment line || not (has_code 61 line))
    then none
    else pair_of (split_max 1 61 line)

abbrev pub assign : Option (String × String) → Values → Values
assign none values = values
assign (some (key, value)) values = set_value key value values

-- The loop of `read_environment`.
unfoldable pub read_lines : List String → Values → Values
unfolding assignment strip set_value
read_lines [] values = values
read_lines (raw_line ∷ lines) values =
    read_lines lines (assign (assignment (strip raw_line)) values)

abbrev pub lines_of : Option String → List String
lines_of none = []
lines_of (some text) = splitlines text

-- There is none where the path does not exist.
unfoldable pub read_environment : Option String → Values
unfolding read_lines splitlines
read_environment contents = read_lines (lines_of contents) []

abbrev pub first_of : List String → String
first_of [] = ""
first_of (s ∷ ss) = s

-- `line.strip().split("=", 1)[0]`
unfoldable pub line_key : String → String
unfolding strip split_max
line_key line = first_of (split_max 1 61 (strip line))

-- The loop of `write_setting`: the first line of the key is replaced, and the others go.
unfoldable pub replace_lines : String → String → Bool → List String → List String
unfolding line_key
replace_lines key replacement true [] = []
replace_lines key replacement false [] = replacement ∷ []
replace_lines key replacement true (line ∷ lines) =
    let rest = replace_lines key replacement true lines in
    if line_key line == key then rest else line ∷ rest
replace_lines key replacement false (line ∷ lines) =
    let rest = replace_lines key replacement true lines in
    let later = replace_lines key replacement false lines in
    if line_key line == key then replacement ∷ rest else line ∷ later

-- The text that `write_setting` writes.
unfoldable pub updated_text : Option String → String → String → String
unfolding replace_lines splitlines join
updated_text contents key value =
    join "\n" (replace_lines key (key ++ "=" ++ value) false (lines_of contents)) ++ "\n"

read_example : read_environment (some "# demo\nA = 1\nB=2\n\nA=3") ≡ ("A", "3") ∷ ("B", "2") ∷ []
unfolding read_environment
read_example = refl

updated_example : updated_text (some "A=1\nB=2\nA=3") "A" "4" ≡ "A=4\nB=2\n"
unfolding updated_text
updated_example = refl

-- A line with a space before its equals sign is not replaced.
spaced_example :
    read_environment (some (updated_text (some "A=1\nA = 2") "A" "3")) ≡ ("A", "2") ∷ []
unfolding read_environment updated_text
spaced_example = refl
