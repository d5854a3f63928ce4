-- ===== src/Scripts/Configure.antt =====
-- Showing and changing settings: `ALLOWED_SETTINGS` and `main` of scripts/configure_server.py.
pub mod Shown
pub mod Changed
use Prim.Native.Char.{Char}
use Prim.Native.Nat.{Ordering}
use Prim.Native.String as Native
use Prim.Native.String.{◌++◌, compare}
use project_g_one.Prelude.{
  ◌≡◌, refl, ℕ, String, Bool, true, false, not, ◌&&◌, ◌||◌, List, [], ◌∷◌, map, any, ◌==◌, Option,
  none, some, leb, if◌then◌else◌, sort_by,
}
use project_g_one.Text.{strip, is_empty}
use project_g_one.Scripts.Words.{int_of, has_part}
use project_g_one.Scripts.Database.{replace_code}
use project_g_one.Scripts.EnvFile.{Values, read_environment, updated_text}
use project_g_one.Scripts.Machine.{system_exit, returned, Host, Script, ◌>>=◌, ◌>>◌, raise_if}

-- The keys of `ALLOWED_SETTINGS`.
pub data Setting : Type 0 where
  http_port http_bind db_name db_user jwt_issuer jwt_audience : Setting

abbrev pub key_of : Setting → String
key_of http_port = "G_ONE_HTTP_PORT"
key_of http_bind = "G_ONE_HTTP_BIND"
key_of db_name = "G_ONE_DB_NAME"
key_of db_user = "G_ONE_DB_USER"
key_of jwt_issuer = "G_ONE_JWT_ISSUER"
key_of jwt_audience = "G_ONE_JWT_AUDIENCE"

-- There is no number where `int` raises, which makes the value invalid.
abbrev pub is_port : Option (Bool × ℕ) → Bool
is_port (some (false, n)) = leb 1 n && leb n 65535
is_port _ = false

-- `write_setting(path, key, value)`
unfoldable pub write_setting : String → String → Script (Unit {0})
unfolding updated_text
write_setting key value h = (returned tt, record h { env = some (updated_text h.env key value) })

module _ (is_alnum : Char → Bool) where
  all_alnum : String → Bool
  all_alnum Native.[] = true
  all_alnum (Native.◌∷◌ c s) = is_alnum c && all_alnum s

  -- `text.isalnum()`, given that of a character.
  unfoldable pub isalnum : String → Bool
  unfolding all_alnum is_empty
  isalnum s = not (is_empty s) && all_alnum s

  -- The validators, with their exceptions.
  unfoldable pub is_valid : Setting → String → Bool
  unfolding int_of isalnum strip is_empty replace_code
  is_valid http_port value = is_port (int_of value)
  is_valid http_bind value = (value == "127.0.0.1") || (value == "0.0.0.0")
  is_valid db_name value = isalnum (replace_code 95 "" value)
  is_valid db_user value = isalnum (replace_code 95 "" value)
  is_valid jwt_issuer value = not (is_empty (strip value))
  is_valid jwt_audience value = not (is_empty (strip value))

  -- The command `set`.
  unfoldable pub set_setting : Setting → String → Script (Unit {0})
  unfolding is_valid write_setting
  set_setting setting value =
      raise_if (not (is_valid setting value)) (system_exit 2)
      >> write_setting (key_of setting) value

-- `any(marker in key for marker in SECRET_MARKERS)`
unfoldable pub is_secret : String → Bool
unfolding has_part
is_secret key = any (λ marker. has_part marker key) ("SECRET" ∷ "PASSWORD" ∷ [])

abbrev pub key_before : String × String → String × String → Bool
key_before (j, v) (k, w) = elim (compare j k) [ Ordering.lt ↦ true | _ ↦ false ]

abbrev pub shown_line : String × String → String
shown_line (key, value) = key ++ ("=" ++ (if is_secret key then "********" else value))

-- What the command `show` prints.
unfoldable pub show_settings : Values → List String
unfolding is_secret
show_settings values = map shown_line (sort_by key_before values)

shown_example :
    show_settings (("G_ONE_JWT_SECRET", "a") ∷ ("G_ONE_HTTP_PORT", "8000") ∷ [])
    ≡ "G_ONE_HTTP_PORT=8000" ∷ "G_ONE_JWT_SECRET=********" ∷ []
unfolding show_settings sort_by
shown_example = refl

-- The private key of WireGuard, which scripts/ensure_compose_env.py writes, is shown.
private_key_example :
    show_settings (("G_ONE_WIREGUARD_PRIVATE_KEY", "secret") ∷ [])
    ≡ "G_ONE_WIREGUARD_PRIVATE_KEY=secret" ∷ []
unfolding show_settings sort_by
private_key_example = refl
