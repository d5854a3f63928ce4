-- ===== src/Settings/Environment.antt =====
-- `Settings.from_environment` of src/g_one/config.py, over the environment's variables.
use Prim.Native.Char.{code}
use Prim.Native.String as Native
use project_g_one.Prelude.{
  ◌≡◌, ◌≢◌, ◌⊎◌, inl, inr, refl, ℕ, ◌+◌, ◌≤◌, String, Bool, true, false, not, ◌&&◌, ◌||◌, Option,
  none, some, List, ◌==◌, ltb, nat_eq, eq_iff, if◌then◌else◌, length, arith,
}
use project_g_one.Text.{is_empty}
use project_g_one.Outside.{Outside}
use project_g_one.Settings.{Settings}

-- The settings, or the text of the RuntimeError.
pub data Loaded : Type 0 where
  refused : String → Loaded
  loaded : Settings → Loaded

-- `cls()`
abbrev pub defaults : Settings
defaults = record {
  database_url = "sqlite:///./g-one.db";
  jwt_secret = "development-only-secret-change-me";
  jwt_issuer = "g-one";
  jwt_audience = "g-one-api";
  console_password = "development-console-password";
  environment = "development";
  wireguard_private_key = "";
  wireguard_interface = "wg0";
  wireguard_config_path = "/etc/wireguard/wg0.conf";
  wireguard_apply = false;
  windows_client_artifact = "windows/dist/win-x64/GOne.Client-x64.msi";
}

-- `os.getenv(name, default)`, given the value of the variable.
abbrev pub or_default : String → Option String → String
or_default default none = default
or_default default (some value) = value

-- The bytes of a character in UTF-8.
abbrev pub utf8_size : ℕ → ℕ
utf8_size c = if ltb c 128 then 1 else if ltb c 2048 then 2 else if ltb c 65536 then 3 else 4

-- `len(text.encode())` and `len(text)`
unfoldable pub utf8_length : String → ℕ
utf8_length Native.[] = 0
utf8_length (Native.◌∷◌ c s) = utf8_size (code c) + utf8_length s

unfoldable pub text_length : String → ℕ
text_length Native.[] = 0
text_length (Native.◌∷◌ c s) = 1 + text_length s

-- `value.lower() in {"1", "true", "yes"}`
abbrev pub is_affirmative : String → Bool
is_affirmative value = value == "1" || (value == "true" || value == "yes")

module _ (o : Outside) (getenv : String → Option String) where
  abbrev pub from_variables : Settings
  from_variables = record {
    database_url = or_default defaults.database_url (getenv "G_ONE_DATABASE_URL");
    jwt_secret = or_default defaults.jwt_secret (getenv "G_ONE_JWT_SECRET");
    jwt_issuer = or_default defaults.jwt_issuer (getenv "G_ONE_JWT_ISSUER");
    jwt_audience = or_default defaults.jwt_audience (getenv "G_ONE_JWT_AUDIENCE");
    console_password = or_default defaults.console_password (getenv "G_ONE_CONSOLE_PASSWORD");
    environment = or_default defaults.environment (getenv "G_ONE_ENVIRONMENT");
    wireguard_private_key = or_default "" (getenv "G_ONE_WIREGUARD_PRIVATE_KEY");
    wireguard_interface =
        or_default defaults.wireguard_interface (getenv "G_ONE_WIREGUARD_INTERFACE");
    wireguard_config_path =
        or_default defaults.wireguard_config_path (getenv "G_ONE_WIREGUARD_CONFIG_PATH");
    wireguard_apply =
        is_affirmative (o.lower (or_default "false" (getenv "G_ONE_WIREGUARD_APPLY")));
    windows_client_artifact =
        or_default defaults.windows_client_artifact (getenv "G_ONE_WINDOWS_CLIENT_ARTIFACT");
  }

  -- The checks of the key, after its base64 was decoded.
  abbrev pub check_key : Settings → Option (List ℕ) → Loaded
  check_key settings none = refused "G_ONE_WIREGUARD_PRIVATE_KEY must be valid base64"
  check_key settings (some key) =
      if nat_eq (length key) 32
      then loaded settings
      else refused "G_ONE_WIREGUARD_PRIVATE_KEY must contain exactly 32 bytes"

  unfoldable pub check_settings : Settings → Loaded
  unfolding utf8_length text_length is_empty
  check_settings settings =
      if not (settings.environment == "development") && settings.jwt_secret == defaults.jwt_secret
      then refused "G_ONE_JWT_SECRET must be set outside development"
      else if not (settings.environment == "development")
          && settings.console_password == defaults.console_password
      then refused "G_ONE_CONSOLE_PASSWORD must be set outside development"
      else if ltb (utf8_length settings.jwt_secret) 32
      then refused "G_ONE_JWT_SECRET must contain at least 32 bytes"
      else if ltb (text_length settings.console_password) 16
      then refused "G_ONE_CONSOLE_PASSWORD must contain at least 16 characters"
      else if is_empty settings.wireguard_private_key
      then loaded settings
      else check_key settings (o.b64decode settings.wireguard_private_key)

  unfoldable pub from_environment : Loaded
  unfolding check_settings
  from_environment = check_settings from_variables

  -- The key is left out, or it is the base64 of 32 bytes.
  abbrev pub IsKey : String → Type 0
  IsKey text =
      (is_empty text ≡ true) ⊎ ((key : List ℕ) × (o.b64decode text ≡ some key) × (length key ≡ 32))

  -- It is a development server, or neither secret is the one of the source.
  abbrev pub IsSecret : Settings → Type 0
  IsSecret settings =
      (settings.environment ≡ "development")
      ⊎ ((settings.jwt_secret ≢ defaults.jwt_secret)
          × (settings.console_password ≢ defaults.console_password))

  -- Settings that may run a server.
  abbrev pub IsSafe : Settings → Type 0
  IsSafe settings =
      IsSecret settings
      × (32 ≤ utf8_length settings.jwt_secret)
      × (16 ≤ text_length settings.console_password)
      × IsKey settings.wireguard_private_key

  check_key-same :
      (settings s : Settings) (x : Option (List ℕ))
      → check_key settings x ≡ loaded s
      → (s ≡ settings) × (key : List ℕ) × (x ≡ some key) × (length key ≡ 32)
  check_key-same settings s none h = ground (arith)
  check_key-same settings s (some key) h = (ground (arith), key, refl, ground (arith))

  check_settings-IsSafe :
      (settings s : Settings) → check_settings settings ≡ loaded s → IsSafe settings
  unfolding check_settings
  check_settings-IsSafe settings s h = (
    secret (settings.environment == "development") refl,
    ground (arith),
    ground (arith),
    given (is_empty settings.wireguard_private_key) refl,
  )
    where
      secret : (b : Bool) → (settings.environment == "development") ≡ b → IsSecret settings
      secret true e = inl ((eq_iff settings.environment "development").0 e)
      secret false e = inr (
        ground (arith, eq_iff settings.jwt_secret defaults.jwt_secret),
        ground (arith, eq_iff settings.console_password defaults.console_password),
      )

      given :
          (b : Bool)
          → is_empty settings.wireguard_private_key ≡ b
          → IsKey settings.wireguard_private_key
      given true e = inl e
      given false e =
          let (_, key, decoded, size) =
            check_key-same settings s (o.b64decode settings.wireguard_private_key)
              (ground (arith)) in
          inr (key, decoded, size)

  check_settings-same : (settings s : Settings) → check_settings settings ≡ loaded s → s ≡ settings
  unfolding check_settings
  check_settings-same settings s h =
      ground (arith, check_key-same settings s (o.b64decode settings.wireguard_private_key))

  -- The settings that are loaded are those of the variables, and they are safe: outside development
  -- neither secret is the one of the source, the secret of the tokens has at least 32 bytes, the
  -- console's password at least 16 characters, and the key of the VPN, where there is one, is the
  -- base64 of 32 bytes.
  pub from_environment-IsSafe :
      (s : Settings) → from_environment ≡ loaded s → (s ≡ from_variables) × IsSafe from_variables
  unfolding from_environment
  from_environment-IsSafe s h =
      (check_settings-same from_variables s h, check_settings-IsSafe from_variables s h)
