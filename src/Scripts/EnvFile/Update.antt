-- ===== src/Scripts/EnvFile/Update.antt =====
-- Reading back a setting that was written: `write_setting` and `read_environment` of
-- scripts/configure_server.py.
use Prim.Native.String as Native
use Prim.Native.String.{◌++◌}
use Prim.Native.String.append
use text.Mathlib.TextLemmas.{append_assoc, append-nil}
use project_g_one.Prelude.{
  ◌≡◌, ◌≢◌, refl, sym, ap, ◌∙◌, String, Bool, true, false, ◌||◌, List, [], ◌∷◌, Option, none, some,
  arith, if◌then◌else◌,
}
use project_g_one.Text.{strip, rstrip, is_empty, is_space}
use project_g_one.Text.Lines.{split_max, join, add_to_first}
use project_g_one.Text.Breaks.{
  is_break, has_break, splitlines, splitlines-append, splitlines_nil, AllLines,
}
use project_g_one.Text.Strip.{starts_plain, strip-append, strip-rstrip, rstrip-cons}
use project_g_one.Text.Split.{has_code, split_max-append, split_max-none}
use project_g_one.Scripts.EnvFile.{
  get_value, is_comment, assignment, pair_of, read_environment, lines_of, replace_lines,
  updated_text,
}
use project_g_one.Scripts.EnvFile.Lookup.{
  last_value, get_value-read_lines, NoneSpaced, replaced_value, other_value,
}

-- A key that can be written: a text with no space at its ends, no equals sign, no line break, and
-- no number sign in front.
pub record IsKey (key : String) : Type 0 where
  pub plain : starts_plain key ≡ true
  pub stripped : strip key ≡ key
  pub no_comment : is_comment key ≡ false
  pub no_equals : has_code 61 key ≡ false
  pub one_line : has_break key ≡ false

-- The lines of a text hold no line break.
splitlines-AllLines : (s : String) → AllLines (splitlines s)
unfolding splitlines has_break
splitlines-AllLines Native.[] = refl
splitlines-AllLines (Native.◌∷◌ c s) =
    first (splitlines s) (splitlines-AllLines s) (is_break c) refl
  where
    first :
        (ls : List String)
        → AllLines ls
        → (b : Bool) → is_break c ≡ b
        → AllLines (if b then "" ∷ ls else add_to_first c ls)
    first ls h true e = h
    first [] h false e = ground (arith)
    first (l ∷ ls) h false e = ground (arith)

has_break-append : (s t : String) → has_break (s ++ t) ≡ (has_break s || has_break t)
unfolding has_break
has_break-append Native.[] t = ap has_break (append.nil t)
has_break-append (Native.◌∷◌ c s) t =
    ap has_break (append.cons c s t) ∙ ground (arith, has_break-append s t)

replace_lines-AllLines :
    (key text : String) (done : Bool) (lines : List String)
    → has_break text ≡ false
    → AllLines lines
    → AllLines (replace_lines key text done lines)
unfolding replace_lines
replace_lines-AllLines key text true [] h a = refl
replace_lines-AllLines key text false [] h a = ground (arith)
replace_lines-AllLines key text true (line ∷ lines) h a =
    ground (arith, replace_lines-AllLines key text true lines h)
replace_lines-AllLines key text false (line ∷ lines) h a = ground (
  arith,
  replace_lines-AllLines key text true lines h,
  replace_lines-AllLines key text false lines h,
)

replace_lines_nonempty :
    (key text : String) (lines : List String) → replace_lines key text false lines ≢ []
unfolding replace_lines
replace_lines_nonempty key text [] h = cc
replace_lines_nonempty key text (line ∷ lines) h = ground (arith)

-- Lines that are joined and ended by a newline are the lines of the text.
pub splitlines-join :
    (l : String) (ls : List String)
    → AllLines (l ∷ ls)
    → splitlines (join "\n" (l ∷ ls) ++ "\n") ≡ l ∷ ls
unfolding join
splitlines-join l [] h =
    ap (λ (t : String). splitlines (l ++ t)) (sym (append-nil "\n"))
    ∙ splitlines-append l "" (ground (arith))
    ∙ ap (◌∷◌ l) splitlines_nil
splitlines-join l (m ∷ ls) h =
    ap splitlines (
      append_assoc l ("\n" ++ join "\n" (m ∷ ls)) "\n"
      ∙ ap (λ (t : String). l ++ t) (append_assoc "\n" (join "\n" (m ∷ ls)) "\n"))
    ∙ splitlines-append l (join "\n" (m ∷ ls) ++ "\n") (ground (arith))
    ∙ ap (◌∷◌ l) (splitlines-join m ls (ground (arith)))

has_code-append : (a rest : String) → has_code 61 (a ++ ("=" ++ rest)) ≡ true
unfolding has_code
has_code-append Native.[] rest =
    ap (has_code 61) (append.nil ("=" ++ rest) ∙ append.cons "=" "" rest)
has_code-append (Native.◌∷◌ c s) rest =
    ap (has_code 61) (append.cons c s ("=" ++ rest)) ∙ ground (arith, has_code-append s rest)

rstrip_value : (value : String) → rstrip ("=" ++ value) ≡ "=" ++ rstrip value
unfolding is_space
rstrip_value value =
    ap rstrip (append.cons "=" "" value ∙ ap (Native.◌∷◌ "=") (append.nil value))
    ∙ rstrip-cons "=" value refl
    ∙ sym (append.cons "=" "" (rstrip value) ∙ ap (Native.◌∷◌ "=") (append.nil (rstrip value)))

comment_front : (key t : String) → starts_plain key ≡ true → is_comment (key ++ t) ≡ is_comment key
unfolding is_comment starts_plain
comment_front Native.[] t h = cc
comment_front (Native.◌∷◌ c s) t h = ap is_comment (append.cons c s t)

nonempty_front : (key t : String) → starts_plain key ≡ true → is_empty (key ++ t) ≡ false
unfolding is_empty starts_plain
nonempty_front Native.[] t h = cc
nonempty_front (Native.◌∷◌ c s) t h = ap is_empty (append.cons c s t)

assignment_of :
    (line : String) (ps : List String)
    → is_empty line ≡ false
    → is_comment line ≡ false
    → has_code 61 line ≡ true
    → split_max 1 61 line ≡ ps
    → assignment line ≡ pair_of ps
unfolding assignment
assignment_of line ps e c h split = ground (arith, ap pair_of split)

split_line : (key t : String) → IsKey key → assignment (key ++ ("=" ++ t)) ≡ some (key, strip t)
split_line key t k =
    assignment_of (key ++ ("=" ++ t)) (key ∷ t ∷ []) (nonempty_front key ("=" ++ t) k.plain)
      (comment_front key ("=" ++ t) k.plain ∙ k.no_comment) (has_code-append key t)
      (split_max-append "=" 0 key t k.no_equals ∙ ap (◌∷◌ key) (split_max-none 61 t))
    ∙ ap (λ (x : String). some (x, strip t)) k.stripped

value_front : (t : String) → is_empty ("=" ++ t) ≡ false
unfolding starts_plain is_space
value_front t = nonempty_front "=" t refl

-- The line that is written assigns the stripped value to the key.
pub written_assignment :
    (key value : String)
    → IsKey key
    → assignment (strip (key ++ ("=" ++ value))) ≡ some (key, strip value)
written_assignment key value k =
    ap assignment (
      strip-append key ("=" ++ value) k.plain
        (ap is_empty (rstrip_value value) ∙ value_front (rstrip value))
      ∙ ap (λ (t : String). key ++ t) (rstrip_value value))
    ∙ split_line key (rstrip value) k
    ∙ ap (λ (x : String). some (key, x)) (strip-rstrip value)

has_break_equals : (value : String) → has_break ("=" ++ value) ≡ has_break value
unfolding is_break has_break
has_break_equals value =
    ap has_break (append.cons "=" "" value ∙ ap (Native.◌∷◌ "=") (append.nil value))

pub written_break :
    (key value : String)
    → IsKey key
    → has_break value ≡ false
    → has_break (key ++ ("=" ++ value)) ≡ false
written_break key value k h =
    has_break-append key ("=" ++ value) ∙ ground (arith, k.one_line, has_break_equals value)

lines_of-AllLines : (contents : Option String) → AllLines (lines_of contents)
lines_of-AllLines none = refl
lines_of-AllLines (some text) = splitlines-AllLines text

-- The lines of the text that is written are the lines that were put together.
updated_lines :
    (contents : Option String) (key value : String)
    → IsKey key
    → has_break value ≡ false
    → splitlines (updated_text contents key value)
      ≡ replace_lines key (key ++ ("=" ++ value)) false (lines_of contents)
unfolding updated_text
updated_lines contents key value k h =
    joined (replace_lines key (key ++ ("=" ++ value)) false (lines_of contents))
      (replace_lines-AllLines key (key ++ ("=" ++ value)) false (lines_of contents)
        (written_break key value k h) (lines_of-AllLines contents))
      (replace_lines_nonempty key (key ++ ("=" ++ value)) (lines_of contents))
  where
    joined : (ls : List String) → AllLines ls → ls ≢ [] → splitlines (join "\n" ls ++ "\n") ≡ ls
    joined [] a ne = absurd (ne refl)
    joined (l ∷ ls) a ne = splitlines-join l ls a

-- A setting that was written reads back as its stripped value, where its value is one line and no
-- line of the file assigns its key with a space before the equals sign; every other key reads as
-- before.
pub read_environment-updated_text :
    (contents : Option String) (key k value : String)
    → IsKey key
    → has_break value ≡ false
    → NoneSpaced key (lines_of contents)
    → key ≢ k
    → (get_value key (read_environment (some (updated_text contents key value)))
        ≡ some (strip value))
      × (get_value k (read_environment (some (updated_text contents key value)))
          ≡ get_value k (read_environment contents))
unfolding read_environment get_value
read_environment-updated_text contents key k value is_key line spaced ne = (
  get_value-read_lines key (splitlines (updated_text contents key value)) []
      ∙ ap (λ (ls : List String). last_value key ls none)
          (updated_lines contents key value is_key line)
      ∙ replaced_value key (key ++ ("=" ++ value)) (strip value) (lines_of contents) none
          (written_assignment key value is_key) spaced,
  get_value-read_lines k (splitlines (updated_text contents key value)) []
      ∙ ap (λ (ls : List String). last_value k ls none)
          (updated_lines contents key value is_key line)
      ∙ other_value key k (key ++ ("=" ++ value)) (strip value)
          (written_assignment key value is_key) is_key.stripped ne false (lines_of contents) none
      ∙ sym (get_value-read_lines k (lines_of contents) []),
)
