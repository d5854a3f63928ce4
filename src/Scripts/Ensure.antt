-- ===== src/Scripts/Ensure.antt =====
-- Missing settings: `assigned_keys` and `ensure_environment` of scripts/ensure_compose_env.py, on the
-- text that `Path.read_text` gives.
pub mod Lines
pub mod Completed
pub mod Complete
use Prim.Native.Char.{code}
use Prim.Native.String as Native
use Prim.Native.String.{◌++◌}
use project_g_one.Prelude.{
  ◌≡◌, refl, ℕ, String, Bool, true, false, not, ◌&&◌, ◌||◌, List, [], ◌∷◌, ◌==◌, Option, none, some,
  nat_eq, contains, if◌then◌else◌,
}
use project_g_one.Text.{strip, is_empty}
use project_g_one.Text.Lines.{join}
use project_g_one.Text.Breaks.{splitlines}
use project_g_one.Scripts.EnvFile.{assignment}

-- A key with a value, both not blank.
abbrev pub counted : Option (String × String) → List String → List String
counted none keys = keys
counted (some (key, value)) keys = if is_empty key || is_empty value then keys else key ∷ keys

-- The loop of `assigned_keys`, with its set as a list.
unfoldable pub keys_of : List String → List String
unfolding assignment strip is_empty
keys_of [] = []
keys_of (raw_line ∷ lines) = counted (assignment (strip raw_line)) (keys_of lines)

unfoldable pub assigned_keys : String → List String
unfolding keys_of splitlines
assigned_keys contents = keys_of (splitlines contents)

-- What `secrets` gave for the five settings that are random.
pub record Secrets : Type 0 where
  pub jwt_secret : String
  pub db_password : String
  pub db_root_password : String
  pub console_password : String
  pub wireguard_private_key : String

-- `DEFAULTS`
abbrev pub default_values : List (String × String)
default_values =
    ("G_ONE_JWT_ISSUER", "g-one")
    ∷ ("G_ONE_JWT_AUDIENCE", "g-one-api")
    ∷ ("G_ONE_HTTP_PORT", "8000")
    ∷ ("G_ONE_HTTP_BIND", "0.0.0.0")
    ∷ ("G_ONE_DB_NAME", "g_one")
    ∷ ("G_ONE_DB_USER", "g_one")
    ∷ []

-- `values`
abbrev pub required_values : Secrets → List (String × String)
required_values s =
    ("G_ONE_JWT_SECRET", s.jwt_secret)
    ∷ ("G_ONE_DB_PASSWORD", s.db_password)
    ∷ ("G_ONE_DB_ROOT_PASSWORD", s.db_root_password)
    ∷ ("G_ONE_CONSOLE_PASSWORD", s.console_password)
    ∷ ("G_ONE_WIREGUARD_PRIVATE_KEY", s.wireguard_private_key)
    ∷ default_values

-- `[f"{key}={value}" for key, value in values.items() if key not in keys]`
unfoldable pub missing_lines : List String → List (String × String) → List String
missing_lines keys [] = []
missing_lines keys ((key, value) ∷ values) =
    let rest = missing_lines keys values in
    if contains key keys then rest else (key ++ ("=" ++ value)) ∷ rest

-- `additions`
unfoldable pub additions : Secrets → String → List String
unfolding missing_lines assigned_keys
additions secrets existing = missing_lines (assigned_keys existing) (required_values secrets)

-- `text.endswith("\n")`
unfoldable pub ends_with_newline : String → Bool
unfolding is_empty
ends_with_newline Native.[] = false
ends_with_newline (Native.◌∷◌ c s) =
    let rest = ends_with_newline s in if is_empty s then nat_eq (code c) 10 else rest

abbrev pub separator : String → String
separator existing = if is_empty existing || ends_with_newline existing then "" else "\n"

-- The text that `ensure_environment` leaves: it writes only where there are additions.
abbrev pub completed : String → List String → String
completed existing [] = existing
completed existing (line ∷ lines) =
    existing ++ (separator existing ++ (join "\n" (line ∷ lines) ++ "\n"))

unfoldable pub ensured_text : Secrets → String → String
unfolding additions ends_with_newline join is_empty
ensured_text secrets existing = completed existing (additions secrets existing)
