-- ===== src/Scripts/Ensure/Complete.antt =====
-- What the text of settings holds after the missing ones were added: `ensure_environment` of
-- scripts/ensure_compose_env.py.
use Prim.Native.String.{◌++◌}
use project_g_one.Prelude.{
  ◌≡◌, refl, sym, ap, ◌∙◌, String, Bool, true, false, not, ◌&&◌, ◌||◌, List, [], ◌∷◌, map, ◌==◌,
  Option, none, some, if◌then◌else◌, arith, contains, eq_iff, eq_refl,
}
use project_g_one.Text.{is_empty, strip}
use project_g_one.Text.Breaks.{splitlines, AllLines, has_break}
use project_g_one.Scripts.EnvFile.{Values, get_value, assignment, read_environment}
use project_g_one.Scripts.EnvFile.Lookup.{last_value, pick, get_value-read_lines}
use project_g_one.Scripts.EnvFile.Update.{IsKey, written_assignment, written_break}
use project_g_one.Scripts.Ensure.{
  Secrets, required_values, missing_lines, assigned_keys, additions, completed, ensured_text,
  keys_of, counted,
}
use project_g_one.Scripts.Ensure.Completed.{completed_value, completed_keys}

-- A setting whose line reads back as it is.
pub record IsSetting (key value : String) : Type 0 where
  pub is_key : IsKey key
  pub filled : is_empty key || is_empty value ≡ false
  pub trimmed : strip value ≡ value
  pub one_line : has_break value ≡ false

-- Settings whose keys differ.
pub data AllSettings : Values → Type 0 where
  none_left : AllSettings []
  one_more :
      {key value : String} {values : Values}
      → IsSetting key value
      → get_value key values ≡ none
      → AllSettings values
      → AllSettings ((key, value) ∷ values)

abbrev pub or_old : Option String → Option String → Option String
or_old none old = old
or_old (some v) old = some v

abbrev pub is_given : Option String → Bool
is_given none = false
is_given (some v) = true

missing_lines-AllLines :
    (keys : List String) (values : Values)
    → AllSettings values
    → AllLines (missing_lines keys values)
unfolding missing_lines
missing_lines-AllLines keys [] none_left = refl
missing_lines-AllLines keys ((key, value) ∷ values) (one_more s e ss) =
    ground
      (arith, written_break key value s.is_key s.one_line, missing_lines-AllLines keys values ss)

setting_line :
    (key value : String)
    → IsSetting key value
    → assignment (strip (key ++ ("=" ++ value))) ≡ some (key, value)
setting_line key value s =
    written_assignment key value s.is_key ∙ ap (λ (v : String). some (key, v)) s.trimmed

-- The value of a key after the lines of the missing settings.
reading : String → List String → Values → Option String → Option String
unfolding get_value
reading k keys values old = if contains k keys then old else or_old (get_value k values) old

reading_skip :
    (k key value : String) (keys : List String) (values : Values) (old : Option String)
    → contains key keys ≡ true
    → reading k keys values old ≡ reading k keys ((key, value) ∷ values) old
unfolding reading get_value
reading_skip k key value keys values old h = ground (arith, eq_iff key k)

reading_add :
    (k key value : String) (keys : List String) (values : Values) (old : Option String)
    → contains key keys ≡ false
    → get_value key values ≡ none
    → reading k keys values (if key == k then some value else old)
      ≡ reading k keys ((key, value) ∷ values) old
unfolding reading get_value
reading_add k key value keys values old h e = ground (arith, eq_iff key k)

missing_value :
    (k : String) (keys : List String) (values : Values) (old : Option String)
    → AllSettings values
    → last_value k (missing_lines keys values) old ≡ reading k keys values old
unfolding missing_lines last_value reading get_value
missing_value k keys [] old none_left = ground (arith)
missing_value k keys ((key, value) ∷ values) old (one_more s e ss) =
    added (contains key keys) refl (λ d. missing_value k keys values d ss)
  where
    added :
        (b : Bool)
        → contains key keys ≡ b
        → ((d : Option String)
            → last_value k (missing_lines keys values) d ≡ reading k keys values d)
        → last_value k
            (if b
              then missing_lines keys values
              else (key ++ ("=" ++ value)) ∷ missing_lines keys values)
            old
          ≡ reading k keys ((key, value) ∷ values) old
    added true h ih = ih old ∙ reading_skip k key value keys values old h
    added false h ih =
        ap
          (λ (x : Option (String × String)).
            last_value k (missing_lines keys values) (pick k x old))
          (setting_line key value s)
        ∙ ih (if key == k then some value else old)
        ∙ reading_add k key value keys values old h e

keys_of_missing :
    (k : String) (keys : List String) (values : Values)
    → AllSettings values
    → contains k (keys_of (missing_lines keys values))
      ≡ (not (contains k keys) && is_given (get_value k values))
unfolding missing_lines keys_of get_value
keys_of_missing k keys [] none_left = ground (arith)
keys_of_missing k keys ((key, value) ∷ values) (one_more s e ss) =
    added (contains key keys) refl (keys_of_missing k keys values ss)
  where
    added :
        (b : Bool)
        → contains key keys ≡ b
        → contains k (keys_of (missing_lines keys values))
          ≡ (not (contains k keys) && is_given (get_value k values))
        → contains k (
            keys_of (
              if b
              then missing_lines keys values
              else (key ++ ("=" ++ value)) ∷ missing_lines keys values))
          ≡ (not (contains k keys)
              && is_given (if key == k then some value else get_value k values))
    added true h ih = ground (arith, ih, eq_iff key k)
    added false h ih =
        ap
          (λ (x : Option (String × String)).
            contains k (counted x (keys_of (missing_lines keys values))))
          (setting_line key value s)
        ∙ ground (arith, ih, eq_iff key k, eq_iff k key, s.filled)

-- A text of settings, completed, reads the settings that were assigned as before, and those that were
-- missing with their new values, where the new lines read back as they are.
pub ensured_text-value :
    (secrets : Secrets) (existing k : String)
    → AllSettings (required_values secrets)
    → get_value k (read_environment (some (ensured_text secrets existing))) ≡ (
        if contains k (assigned_keys existing)
        then get_value k (read_environment (some existing))
        else or_old
            (get_value k (required_values secrets))
            (get_value k (read_environment (some existing))))
unfolding ensured_text additions read_environment reading
ensured_text-value secrets existing k ss =
    let lines = missing_lines (assigned_keys existing) (required_values secrets) in
    get_value-read_lines k (splitlines (completed existing lines)) []
    ∙ completed_value k existing lines none
        (missing_lines-AllLines (assigned_keys existing) (required_values secrets) ss)
    ∙ missing_value k (assigned_keys existing) (required_values secrets)
        (last_value k (splitlines existing) none) ss
    ∙ ap (reading k (assigned_keys existing) (required_values secrets))
        (sym (get_value-read_lines k (splitlines existing) []))

-- The keys of a completed text are its old ones and the required ones.
ensured_text-keys :
    (secrets : Secrets) (existing k : String)
    → AllSettings (required_values secrets)
    → contains k (assigned_keys (ensured_text secrets existing))
      ≡ (contains k (assigned_keys existing) || is_given (get_value k (required_values secrets)))
unfolding ensured_text additions assigned_keys
ensured_text-keys secrets existing k ss =
    let lines = missing_lines (assigned_keys existing) (required_values secrets) in
    completed_keys k existing lines
      (missing_lines-AllLines (assigned_keys existing) (required_values secrets) ss)
    ∙ ap (◌||◌ (contains k (assigned_keys existing)))
        (keys_of_missing k (assigned_keys existing) (required_values secrets) ss)
    ∙ absorbed (contains k (assigned_keys existing))
        (is_given (get_value k (required_values secrets)))
  where
    absorbed : (a b : Bool) → (a || (not a && b)) ≡ (a || b)
    absorbed true b = refl
    absorbed false b = refl

first_key : String × String → String
first_key (key, value) = key

given_keys :
    (k : String) (values : Values)
    → is_given (get_value k values) ≡ contains k (map first_key values)
unfolding get_value first_key
given_keys k [] = refl
given_keys k ((key, value) ∷ values) =
    ground (arith, given_keys k values, eq_iff key k, eq_iff k key)

missing_none :
    (keys : List String) (values : Values)
    → ((k : String) → contains k (map first_key values) ≡ true → contains k keys ≡ true)
    → missing_lines keys values ≡ []
unfolding missing_lines first_key
missing_none keys [] h = refl
missing_none keys ((key, value) ∷ values) h = ground (
  arith,
  h key (ground (arith, eq_refl key)),
  missing_none keys values (λ k m. h k (ground (arith))),
)

-- Completing a completed text, with whatever new secrets, changes nothing, where the first secrets read
-- back as they are.
pub ensured_text_idem :
    (first second : Secrets) (existing : String)
    → AllSettings (required_values first)
    → ensured_text second (ensured_text first existing) ≡ ensured_text first existing
unfolding ensured_text additions first_key
ensured_text_idem first second existing ss =
    ap (completed (ensured_text first existing))
      (missing_none (assigned_keys (ensured_text first existing)) (required_values second) kept)
  where
    kept :
        (k : String)
        → contains k (map first_key (required_values first)) ≡ true
        → contains k (assigned_keys (ensured_text first existing)) ≡ true
    kept k h =
        ground (arith, ensured_text-keys first existing k ss, given_keys k (required_values first))
