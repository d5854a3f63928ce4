-- ===== src/Scripts/EnvFile/Lookup.antt =====
-- What a key reads as, from the lines of the file: `read_environment` of scripts/configure_server.py.
use project_g_one.Prelude.{
  ◌≡◌, ◌≢◌, refl, sym, ap, ◌∙◌, String, Bool, true, false, not, ◌&&◌, List, [], ◌∷◌, ◌==◌, Option,
  none, some, eq_iff, arith, if◌then◌else◌, any, eq_refl,
}
use project_g_one.Text.{strip}
use project_g_one.Text.Lines.{split_max}
use project_g_one.Scripts.EnvFile.{
  Values, set_value, get_value, pair_of, assignment, assign, read_lines, first_of, line_key,
  replace_lines,
}

-- The value of a key after a line, given the one before it.
abbrev pub pick : String → Option (String × String) → Option String → Option String
pick k none old = old
pick k (some (j, v)) old = if j == k then some v else old

-- The value of a key after the lines: the last assignment counts.
unfoldable pub last_value : String → List String → Option String → Option String
last_value k [] old = old
last_value k (line ∷ lines) old = last_value k lines (pick k (assignment (strip line)) old)

get_value-set_value :
    (j k v : String) (m : Values)
    → get_value j (set_value k v m) ≡ (if k == j then some v else get_value j m)
unfolding get_value set_value
get_value-set_value j k v [] = refl
get_value-set_value j k v ((i, w) ∷ m) =
    ground (arith, get_value-set_value j k v m, eq_iff k j, eq_iff i k, eq_iff i j)

get_value-assign :
    (k : String) (x : Option (String × String)) (m : Values)
    → get_value k (assign x m) ≡ pick k x (get_value k m)
get_value-assign k none m = refl
get_value-assign k (some (j, v)) m = get_value-set_value k j v m

pub get_value-read_lines :
    (k : String) (lines : List String) (m : Values)
    → get_value k (read_lines lines m) ≡ last_value k lines (get_value k m)
unfolding read_lines last_value
get_value-read_lines k [] m = refl
get_value-read_lines k (line ∷ lines) m =
    get_value-read_lines k lines (assign (assignment (strip line)) m)
    ∙ ap (last_value k lines) (get_value-assign k (assignment (strip line)) m)

abbrev pub assigns : String → Option (String × String) → Bool
assigns key none = false
assigns key (some (j, v)) = j == key

-- The line assigns the key, but has a space before its equals sign.
abbrev pub is_spaced : String → String → Bool
is_spaced key line = assigns key (assignment (strip line)) && not (line_key line == key)

-- No line of the file assigns the key with a space before the equals sign.
abbrev pub NoneSpaced : String → List String → Type 0
NoneSpaced key lines = any (is_spaced key) lines ≡ false

pair_key : (ps : List String) (j v : String) → pair_of ps ≡ some (j, v) → j ≡ strip (first_of ps)
pair_key [] j v h = cc
pair_key (a ∷ []) j v h = cc
pair_key (a ∷ b ∷ []) j v h = ground (arith)
pair_key (a ∷ b ∷ c ∷ ps) j v h = cc

assignment_key :
    (line j v : String) → assignment line ≡ some (j, v) → j ≡ strip (first_of (split_max 1 61 line))
unfolding assignment
assignment_key line j v h = pair_key (split_max 1 61 line) j v (ground (arith))

pick_same :
    (k : String) (x : Option (String × String)) (old : Option String)
    → assigns k x ≡ false
    → pick k x old ≡ old
pick_same k none old h = refl
pick_same k (some (j, v)) old h = ground (arith)

-- A line of the key is no line of another.
dropped_line :
    (key k line : String) (x : Option (String × String)) (old : Option String)
    → assignment (strip line) ≡ x
    → (line_key line == key) ≡ true
    → strip key ≡ key
    → key ≢ k
    → pick k x old ≡ old
unfolding line_key
dropped_line key k line none old e same plain ne = refl
dropped_line key k line (some (j, v)) old e same plain ne =
    ground (arith, assignment_key (strip line) j v e, eq_iff (line_key line) key, eq_iff j k)

kept_line :
    (key line : String) (old : Option String)
    → is_spaced key line ≡ false
    → (line_key line == key) ≡ false
    → pick key (assignment (strip line)) old ≡ old
kept_line key line old h other = pick_same key (assignment (strip line)) old (ground (arith))

-- The lines that stay after the first one of the key do not assign it.
dropped_value :
    (key text : String) (lines : List String) (old : Option String)
    → NoneSpaced key lines
    → last_value key (replace_lines key text true lines) old ≡ old
unfolding last_value replace_lines
dropped_value key text [] old h = refl
dropped_value key text (line ∷ lines) old h =
    ground (arith, dropped_value key text lines old, kept_line key line old)

-- The key reads as the line that was written says.
pub replaced_value :
    (key text v : String) (lines : List String) (old : Option String)
    → assignment (strip text) ≡ some (key, v)
    → NoneSpaced key lines
    → last_value key (replace_lines key text false lines) old ≡ some v
unfolding last_value replace_lines
replaced_value key text v [] old e h = ground (arith, e, eq_refl key)
replaced_value key text v (line ∷ lines) old e h = ground (
  arith,
  e,
  eq_refl key,
  replaced_value key text v lines old e,
  dropped_value key text lines (some v),
  kept_line key line old,
)

-- The line that is written leaves another key alone.
written_line :
    (key k v : String) (x : Option (String × String)) (old : Option String)
    → x ≡ some (key, v)
    → key ≢ k
    → pick k x old ≡ old
written_line key k v none old e ne = refl
written_line key k v (some (j, w)) old e ne = ground (arith, eq_iff j k)

module _ (key k text v : String) (written : assignment (strip text) ≡ some (key, v))
    (plain : strip key ≡ key) (ne : key ≢ k) where
  -- One line in front of lines that do not matter.
  other_step :
      (b : Bool) (line : String) (dropped kept lines : List String) (old : Option String)
      → (line_key line == key) ≡ b
      → last_value k dropped old ≡ last_value k lines old
      → ((d : Option String) → last_value k kept d ≡ last_value k lines d)
      → last_value k (if b then dropped else line ∷ kept) old ≡ last_value k (line ∷ lines) old
  unfolding last_value
  other_step true line dropped kept lines old e h rest =
      h
      ∙ ap (last_value k lines)
          (sym (dropped_line key k line (assignment (strip line)) old refl e plain ne))
  other_step false line dropped kept lines old e h rest =
      rest (pick k (assignment (strip line)) old)

  -- Another key reads as before.
  pub other_value :
      (done : Bool) (lines : List String) (old : Option String)
      → last_value k (replace_lines key text done lines) old ≡ last_value k lines old
  unfolding last_value replace_lines
  other_value true [] old = refl
  other_value false [] old = written_line key k v (assignment (strip text)) old written ne
  other_value true (line ∷ lines) old =
      other_step (line_key line == key) line (replace_lines key text true lines)
        (replace_lines key text true lines) lines old refl (other_value true lines old)
        (λ d. other_value true lines d)
  other_value false (line ∷ lines) old =
      other_step (line_key line == key) line (text ∷ replace_lines key text true lines)
        (replace_lines key text false lines) lines old refl
        (ap (last_value k (replace_lines key text true lines))
            (written_line key k v (assignment (strip text)) old written ne)
          ∙ other_value true lines old)
        (λ d. other_value false lines d)
