-- ===== src/Scripts/Database.antt =====
-- Credentials of the database: scripts/sync_database_credentials.py.
pub mod Literal
pub mod Recovery
pub mod Accepted
use Prim.Native.Char.{Char, code}
use Prim.Native.String as Native
use Prim.Native.String.{◌++◌}
use project_g_one.Prelude.{
  ◌≡◌, refl, ℕ, zero, suc, String, Bool, true, false, not, ◌&&◌, ◌||◌, List, [], ◌∷◌, ◌==◌, Option,
  none, some, nat_eq, leb, if◌then◌else◌, where_true,
}
use project_g_one.Text.{is_empty}
use project_g_one.Text.Lines.{join}
use project_g_one.Scripts.Machine.{
  Machine, Script, Failure, runtime_error, pure, raise, raise_if, ◌>>=◌, ◌>>◌, finally, succeeds,
  checked, unchecked, pause, Host,
}
use project_g_one.Scripts.EnvFile.{Values, get_value, read_environment}

-- `text.replace(character, replacement)` for one character
unfoldable pub replace_code : ℕ → String → String → String
replace_code d replacement Native.[] = Native.[]
replace_code d replacement (Native.◌∷◌ c s) =
    let rest = replace_code d replacement s in
    if nat_eq (code c) d then replacement ++ rest else Native.◌∷◌ c rest

unfoldable pub sql_string : String → String
unfolding replace_code
sql_string value = "'" ++ (replace_code 39 "''" (replace_code 92 "\\\\" value) ++ "'")

unfoldable pub credential_statement : String → String → String → String
unfolding sql_string
credential_statement username password root_password =
    "FLUSH PRIVILEGES;\n"
    ++ ("ALTER USER `root`@`localhost` IDENTIFIED BY "
        ++ (sql_string root_password
            ++ (";\nALTER USER `"
                ++ (username ++ ("`@`%` IDENTIFIED BY " ++ (sql_string password ++ ";\n"))))))

abbrev pub is_identifier_code : ℕ → Bool
is_identifier_code c =
    leb 65 c && leb c 90 || leb 97 c && leb c 122 || leb 48 c && leb c 57 || nat_eq c 95

-- `[A-Za-z0-9_]*`
unfoldable pub identifier_codes : String → Bool
identifier_codes Native.[] = true
identifier_codes (Native.◌∷◌ c s) = is_identifier_code (code c) && identifier_codes s

-- `SAFE_IDENTIFIER.fullmatch(text)`
unfoldable pub is_safe_identifier : String → Bool
unfolding identifier_codes is_empty
is_safe_identifier s = not (is_empty s) && identifier_codes s

abbrev pub docker_compose : List String → List String
docker_compose arguments = "docker" ∷ "compose" ∷ arguments

abbrev pub recovery_container : String
recovery_container = "g-one-database-credential-recovery"

-- The password goes by the environment of the process.
abbrev pub update_args : List String
update_args = docker_compose (
    "exec" ∷ "-T" ∷ "--env" ∷ "MYSQL_PWD" ∷ "database" ∷ "mariadb" ∷ "--protocol=socket"
    ∷ "--user=root" ∷ [])

abbrev pub stop_args : List String
stop_args = docker_compose ("stop" ∷ "web" ∷ "database" ∷ [])

abbrev pub remove_args : List String
remove_args = "docker" ∷ "rm" ∷ "-f" ∷ recovery_container ∷ []

abbrev pub start_args : List String
start_args = docker_compose (
    "run" ∷ "-d" ∷ "--rm" ∷ "--name" ∷ recovery_container ∷ "--no-deps" ∷ "database"
    ∷ "--skip-grant-tables" ∷ "--skip-networking" ∷ [])

abbrev pub ping_args : List String
ping_args = "docker" ∷ "exec" ∷ recovery_container ∷ "mariadb-admin" ∷ "ping" ∷ "--silent" ∷ []

abbrev pub reset_args : List String
reset_args = "docker" ∷ "exec" ∷ "-i" ∷ recovery_container ∷ "mariadb" ∷ "--user=root" ∷ []

abbrev pub up_args : List String
up_args = docker_compose ("up" ∷ "-d" ∷ "database" ∷ "--wait" ∷ "--wait-timeout" ∷ "120" ∷ [])

abbrev pub text_or_empty : Option String → String
text_or_empty none = ""
text_or_empty (some v) = v

abbrev pub required_keys : List String
required_keys = "G_ONE_DB_USER" ∷ "G_ONE_DB_PASSWORD" ∷ "G_ONE_DB_ROOT_PASSWORD" ∷ []

abbrev pub missing_keys : Values → List String
missing_keys values = where_true (λ k. is_empty (text_or_empty (get_value k values))) required_keys

unfoldable pub settings_of : Host → Values
unfolding read_environment
settings_of h = read_environment h.env

unfoldable pub statement_of : Values → String
unfolding credential_statement get_value
statement_of values =
    credential_statement (text_or_empty (get_value "G_ONE_DB_USER" values))
      (text_or_empty (get_value "G_ONE_DB_PASSWORD" values))
      (text_or_empty (get_value "G_ONE_DB_ROOT_PASSWORD" values))

abbrev pub is_missing : List String → Bool
is_missing [] = false
is_missing (k ∷ ks) = true

module _ (m : Machine) where
  unfoldable pub authenticate_and_update : String → Script Bool
  authenticate_and_update statement = succeeds m update_args (some statement)

  -- The loop over the probes, with its `else`.
  unfoldable pub wait_for_ping : ℕ → Script (Unit {0})
  wait_for_ping zero = raise (runtime_error "MariaDB recovery server did not become ready")
  wait_for_ping (suc n) = do
    ready ← succeeds m ping_args none
    if ready then pure tt else (pause 1000 >> wait_for_ping n)

  -- The body of the `try`.
  unfoldable pub reset_offline : String → Script (Unit {0})
  unfolding wait_for_ping
  reset_offline statement = do
    checked m start_args none
    wait_for_ping 30
    checked m reset_args (some statement)

  unfoldable pub recover_credentials : String → Script (Unit {0})
  unfolding reset_offline finally
  recover_credentials statement = do
    checked m stop_args none
    unchecked remove_args
    finally (reset_offline statement) (unchecked remove_args)
    checked m up_args none

  -- Updates the credentials, and recovers where that fails.
  unfoldable pub update_or_recover : String → Script (Unit {0})
  unfolding authenticate_and_update recover_credentials
  update_or_recover statement = do
    updated ← authenticate_and_update statement
    if updated then pure tt else recover_credentials statement

  unfoldable pub synchronize : Script (Unit {0})
  unfolding settings_of is_safe_identifier update_or_recover
  synchronize h =
      let values = settings_of h in
      (do
        raise_if (is_missing (missing_keys values))
            (runtime_error ("Missing database setting(s): " ++ join ", " (missing_keys values)))
        raise_if (not (is_safe_identifier (text_or_empty (get_value "G_ONE_DB_USER" values))))
            (runtime_error "G_ONE_DB_USER may contain only letters, numbers, and underscores")
        update_or_recover (statement_of values))
        h
