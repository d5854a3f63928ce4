-- ===== src/Tests/Scripts.antt =====
-- The theorems on the scripts at a sample machine.
use Prim.Native.String.{◌++◌}
use project_g_one.Prelude.{
  ◌≡◌, refl, ℕ, ◌+◌, String, not, ◌&&◌, ◌||◌, contains, if◌then◌else◌, Bool, true, false, List, [],
  ◌∷◌, none, some, arith, eq_iff, ◌⊎◌,
}
use project_g_one.Text.{strip, is_space, is_empty}
use project_g_one.Text.Breaks.{has_break, is_break, splitlines}
use project_g_one.Text.Strip.{starts_plain}
use project_g_one.Text.Split.{has_code}
use project_g_one.Scripts.Machine.{
  Action, sleep, Machine, Host, returned, raised, runtime_error, act, pure, raise_if, succeeds,
  checked, unchecked, ◌>>=◌, run,
}
use project_g_one.Scripts.EnvFile.{
  is_comment, get_value, set_value, read_environment, updated_text, assignment, line_key,
}
use project_g_one.Scripts.EnvFile.Update.{read_environment-updated_text}
use project_g_one.Scripts.Ensure.{Secrets, required_values, ensured_text, assigned_keys}
use project_g_one.Scripts.Ensure.Complete.{
  AllSettings, none_left, one_more, IsSetting, or_old, ensured_text-value, ensured_text_idem,
}
use project_g_one.Scripts.Database.{sql_string, synchronize, statement_of, settings_of}
use project_g_one.Scripts.Database.Literal.{read_literal, read_literal-sql_string, starts_quote}
use project_g_one.Scripts.Database.Recovery.{is_cleaned}
use project_g_one.Scripts.Database.Accepted.{
  synchronize-refused, synchronize-cleaned, synchronize-accepted, was_accepted, IsUsable,
}
use project_g_one.Scripts.HostPort.{ensure_host_port}
use project_g_one.Scripts.HostPort.Free.{is_free, ensure_host_port-free}
use project_g_one.Scripts.Manage.{restart, run_command, wait_until_ready}
use project_g_one.Scripts.Manage.Ready.{said_ready, Times, run_command-ready, wait_until_ready-ends}
use project_g_one.Scripts.Configure.{
  jwt_issuer, key_of, is_valid, set_setting, is_secret, show_settings,
}
use project_g_one.Scripts.Configure.Shown.{show_settings-secret}
use project_g_one.Scripts.Configure.Changed.{set_setting-reads}

-- The pauses alone take time.
abbrev elapsed : List Action → ℕ
elapsed [] = 0
elapsed (sleep ms ∷ done) = elapsed done + ms
elapsed (a ∷ done) = elapsed done

-- A machine where the password of the database is unknown at first, so the first process fails.
abbrev first_fails : List Action → ℕ
first_fails (a ∷ []) = 1
first_fails done = 0

abbrev machine : Machine
machine = record {
  returncode = first_fails;
  stdout = λ done. "";
  inspection = λ done. record { image = ""; service = none; working_directory = none };
  connected = λ done. false;
  reply = λ done. some 200;
  monotonic = elapsed;
  tables = λ done. [];
  processes = λ done. [];
  which = λ name. true;
  is_windows = false;
  env_writable = true;
  root_writable = true;
}

times : Times machine
times = record {
  pauses = λ ms done. omega arith;
  fetches = λ url done. omega arith;
  replies = λ url done code e. ground (arith);
}

abbrev secrets : Secrets
secrets = record {
  jwt_secret = "a";
  db_password = "b'";
  db_root_password = "c";
  console_password = "d";
  wireguard_private_key = "e=";
}

abbrev existing : String
existing = "# mine\nG_ONE_DB_NAME=other\nG_ONE_HTTP_PORT="

abbrev host : Host
host = record {
  env = some "G_ONE_DB_USER=u\nG_ONE_DB_PASSWORD=a'b\nG_ONE_DB_ROOT_PASSWORD=c";
  done = [];
}

-- A setting, by its tests.
setting :
    (key value : String)
    → starts_plain key
        && not (is_comment key)
        && not (has_code 61 key)
        && not (has_break key || has_break value)
      ≡ true
    → not (is_empty key || is_empty value) ≡ true
    → strip key ≡ key
    → strip value ≡ value
    → IsSetting key value
setting key value h f k v = record {
  is_key = record {
    plain = ground (arith);
    stripped = k;
    no_comment = ground (arith);
    no_equals = ground (arith);
    one_line = ground (arith);
  };
  filled = ground (arith);
  trimmed = v;
  one_line = ground (arith);
}

settings : AllSettings (required_values secrets)
unfolding starts_plain is_space strip is_comment has_code has_break is_break get_value is_empty
settings = one_more (setting _ _ refl refl refl refl) refl (
    one_more (setting _ _ refl refl refl refl) refl (
      one_more (setting _ _ refl refl refl refl) refl (
        one_more (setting _ _ refl refl refl refl) refl (
          one_more (setting _ _ refl refl refl refl) refl (
            one_more (setting _ _ refl refl refl refl) refl (
              one_more (setting _ _ refl refl refl refl) refl (
                one_more (setting _ _ refl refl refl refl) refl (
                  one_more (setting _ _ refl refl refl refl) refl (
                    one_more (setting _ _ refl refl refl refl) refl
                      (one_more (setting _ _ refl refl refl refl) refl (none_left)))))))))))

read_environment-updated_text_example :
    (get_value "A" (read_environment (some (updated_text (some "A=1\nB=2") "A" " 3 ")))
      ≡ some (strip " 3 "))
    × (get_value "B" (read_environment (some (updated_text (some "A=1\nB=2") "A" " 3 ")))
        ≡ get_value "B" (read_environment (some "A=1\nB=2")))
unfolding starts_plain is_space strip is_comment has_code has_break is_break assignment line_key
    read_environment
read_environment-updated_text_example =
    read_environment-updated_text (some "A=1\nB=2") "A" "B" " 3 "
      (record {
        plain = refl;
        stripped = refl;
        no_comment = refl;
        no_equals = refl;
        one_line = refl;
      })
      refl refl (λ (e : "A" ≡ "B"). ground (arith, eq_iff "A" "B"))

ensured_text-value_example :
    get_value "G_ONE_HTTP_PORT" (read_environment (some (ensured_text secrets existing))) ≡ (
      if contains "G_ONE_HTTP_PORT" (assigned_keys existing)
      then get_value "G_ONE_HTTP_PORT" (read_environment (some existing))
      else or_old
          (get_value "G_ONE_HTTP_PORT" (required_values secrets))
          (get_value "G_ONE_HTTP_PORT" (read_environment (some existing))))
ensured_text-value_example = ensured_text-value secrets existing "G_ONE_HTTP_PORT" settings

ensured_text_idem_example :
    ensured_text secrets (ensured_text secrets existing) ≡ ensured_text secrets existing
ensured_text_idem_example = ensured_text_idem secrets secrets existing settings

read_literal-sql_string_example : read_literal (sql_string "a'b\\" ++ ";\n") ≡ some ("a'b\\", ";\n")
unfolding starts_quote
read_literal-sql_string_example = read_literal-sql_string "a'b\\" ";\n" refl

synchronize-refused_example :
    ((message : String) × (synchronize machine host ≡ (raised (runtime_error message), host)))
    ⊎ IsUsable host
synchronize-refused_example = synchronize-refused machine host

-- A machine where the password of the database is unknown at first, so that the first statement fails.
abbrev first_statement_fails : List Action → ℕ
first_statement_fails (run args (some text) ∷ []) = 1
first_statement_fails done = 0

synchronize-cleaned_example :
    is_cleaned
      (record machine { returncode = first_statement_fails })
      ((synchronize (record machine { returncode = first_statement_fails }) host).1).done
    ≡ true
synchronize-cleaned_example =
    synchronize-cleaned (record machine { returncode = first_statement_fails }) (λ done. refl) host
      refl

synchronize-accepted_example :
    was_accepted machine (statement_of (settings_of host)) ((synchronize machine host).1).done
    ≡ true
unfolding synchronize raise_if ◌>>=◌ settings_of statement_of succeeds checked unchecked pure
synchronize-accepted_example = synchronize-accepted machine host refl

ensure_host_port-free_example :
    is_free machine "0.0.0.0" 8000
      ((ensure_host_port machine "/srv" ("docker" ∷ []) "0.0.0.0" 8000 true host).1).done
    ≡ true
unfolding ensure_host_port ◌>>=◌ pure
ensure_host_port-free_example =
    ensure_host_port-free machine "/srv" ("docker" ∷ []) "0.0.0.0" 8000 true host refl

run_command-ready_example :
    said_ready machine "8000"
      ((run_command machine ("docker" ∷ []) "/srv" "0.0.0.0" "8000" restart (act (sleep 1) host)).1
        ).done
    ≡ true
unfolding run_command act ◌>>=◌ pure
run_command-ready_example =
    run_command-ready machine ("docker" ∷ []) "/srv" "0.0.0.0" "8000" restart (act (sleep 1) host)
      refl refl

wait_until_ready-ends_example :
    (ready : Bool) × ((wait_until_ready machine "8000" host).0 ≡ returned (some ready))
wait_until_ready-ends_example = wait_until_ready-ends machine times "8000" host

show_settings-secret_example :
    show_settings (set_value "G_ONE_JWT_SECRET" "a" (("G_ONE_HTTP_PORT", "8000") ∷ []))
    ≡ show_settings (set_value "G_ONE_JWT_SECRET" "b" (("G_ONE_HTTP_PORT", "8000") ∷ []))
unfolding is_secret
show_settings-secret_example =
    show_settings-secret "G_ONE_JWT_SECRET" "a" "b" (("G_ONE_HTTP_PORT", "8000") ∷ []) refl

set_setting-reads_example :
    (get_value
        (key_of jwt_issuer)
        (read_environment ((set_setting (λ c. true) jwt_issuer "me" host).1).env)
      ≡ some (strip "me"))
    × (get_value "G_ONE_DB_USER"
          (read_environment ((set_setting (λ c. true) jwt_issuer "me" host).1).env)
        ≡ get_value "G_ONE_DB_USER" (read_environment host.env))
unfolding is_valid is_space strip has_code has_break is_break assignment line_key splitlines
set_setting-reads_example =
    set_setting-reads (λ c. true) jwt_issuer "me" "G_ONE_DB_USER" host refl refl refl (λ e. cc)

-- A quote is doubled, and so is a backslash.
sql_string_escapes : sql_string "a'b\\c" ≡ "'a''b\\\\c'"
unfolding sql_string
sql_string_escapes = refl
