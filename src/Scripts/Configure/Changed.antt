-- ===== src/Scripts/Configure/Changed.antt =====
-- What `set` of scripts/configure_server.py changes.
use Prim.Native.Char.{Char}
use project_g_one.Prelude.{◌≡◌, ◌≢◌, refl, ap, ◌∙◌, String, Bool, true, false, not, Option, some}
use project_g_one.Text.{strip, is_space}
use project_g_one.Text.Breaks.{has_break, is_break}
use project_g_one.Text.Strip.{starts_plain}
use project_g_one.Text.Split.{has_code}
use project_g_one.Scripts.Machine.{Host, system_exit, ◌>>=◌, ◌>>◌, raise_if}
use project_g_one.Scripts.EnvFile.{is_comment, get_value, read_environment, updated_text, lines_of}
use project_g_one.Scripts.EnvFile.Lookup.{NoneSpaced}
use project_g_one.Scripts.EnvFile.Update.{IsKey, read_environment-updated_text}
use project_g_one.Scripts.Configure.{
  Setting, http_port, http_bind, db_name, db_user, jwt_issuer, jwt_audience, key_of, is_valid,
  write_setting, set_setting,
}

-- The keys of the settings can be written.
key_of-IsKey : (setting : Setting) → IsKey (key_of setting)
unfolding starts_plain is_space strip is_comment has_code has_break is_break
key_of-IsKey http_port = record {
  plain = refl;
  stripped = refl;
  no_comment = refl;
  no_equals = refl;
  one_line = refl;
}
key_of-IsKey http_bind = record {
  plain = refl;
  stripped = refl;
  no_comment = refl;
  no_equals = refl;
  one_line = refl;
}
key_of-IsKey db_name = record {
  plain = refl;
  stripped = refl;
  no_comment = refl;
  no_equals = refl;
  one_line = refl;
}
key_of-IsKey db_user = record {
  plain = refl;
  stripped = refl;
  no_comment = refl;
  no_equals = refl;
  one_line = refl;
}
key_of-IsKey jwt_issuer = record {
  plain = refl;
  stripped = refl;
  no_comment = refl;
  no_equals = refl;
  one_line = refl;
}
key_of-IsKey jwt_audience = record {
  plain = refl;
  stripped = refl;
  no_comment = refl;
  no_equals = refl;
  one_line = refl;
}

-- The file after a valid value.
set_valid :
    (is_alnum : Char → Bool) (setting : Setting) (value : String) (h : Host)
    → is_valid is_alnum setting value ≡ true
    → ((set_setting is_alnum setting value h).1).env
      ≡ some (updated_text h.env (key_of setting) value)
unfolding set_setting write_setting raise_if ◌>>=◌
set_valid is_alnum setting value h v = written (is_valid is_alnum setting value) v
  where
    written :
        (b : Bool)
        → b ≡ true
        → (((raise_if (not b) (system_exit 2) >> write_setting (key_of setting) value) h).1).env
          ≡ some (updated_text h.env (key_of setting) value)
    written true v = refl
    written false v = cc

-- A valid value of one line is the value of its setting afterwards, without the spaces at its ends,
-- where no line of the file assigns the key with a space before the equals sign; every other key
-- reads as before.
pub set_setting-reads :
    (is_alnum : Char → Bool) (setting : Setting) (value k : String) (h : Host)
    → is_valid is_alnum setting value ≡ true
    → has_break value ≡ false
    → NoneSpaced (key_of setting) (lines_of h.env)
    → key_of setting ≢ k
    → (get_value (key_of setting) (read_environment ((set_setting is_alnum setting value h).1).env)
        ≡ some (strip value))
      × (get_value k (read_environment ((set_setting is_alnum setting value h).1).env)
          ≡ get_value k (read_environment h.env))
set_setting-reads is_alnum setting value k h v line spaced ne =
    let reading =
      read_environment-updated_text h.env (key_of setting) k value (key_of-IsKey setting) line
        spaced ne in
    let env = set_valid is_alnum setting value h v in
    (
      ap (λ (e : Option String). get_value (key_of setting) (read_environment e)) env ∙ reading.0,
      ap (λ (e : Option String). get_value k (read_environment e)) env ∙ reading.1,
    )
