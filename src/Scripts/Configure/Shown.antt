-- ===== src/Scripts/Configure/Shown.antt =====
-- What `show` of scripts/configure_server.py gives away.
use project_g_one.Prelude.{
  ◌≡◌, refl, sym, ap, ◌∙◌, String, true, [], ◌∷◌, map, if◌then◌else◌, arith, sort_by, map-sort_by,
}
use project_g_one.Scripts.EnvFile.{Values, set_value}
use project_g_one.Scripts.Configure.{is_secret, key_before, shown_line, show_settings}

-- A setting without its value, where it is secret.
hidden : String × String → String × String
hidden (key, value) = (key, if is_secret key then "********" else value)

hidden_line : (pair : String × String) → shown_line (hidden pair) ≡ shown_line pair
unfolding hidden
hidden_line (key, value) = ground (arith)

lines_of_hidden : (values : Values) → map shown_line (map hidden values) ≡ map shown_line values
lines_of_hidden [] = refl
lines_of_hidden (pair ∷ values) = ground (arith, hidden_line pair, lines_of_hidden values)

same_order : (a b : String × String) → key_before (hidden a) (hidden b) ≡ key_before a b
unfolding hidden
same_order (j, v) (k, w) = refl

shown_of_hidden : (values : Values) → show_settings (map hidden values) ≡ show_settings values
unfolding show_settings
shown_of_hidden values =
    ap (map shown_line) (sym (map-sort_by key_before hidden same_order values))
    ∙ lines_of_hidden (sort_by key_before values)

hidden_value :
    (key v w : String) (values : Values)
    → is_secret key ≡ true
    → map hidden (set_value key v values) ≡ map hidden (set_value key w values)
unfolding set_value hidden
hidden_value key v w [] s = ground (arith)
hidden_value key v w ((j, x) ∷ values) s = ground (arith, hidden_value key v w values s)

-- What is printed does not depend on the value of a key that holds a marker of secrets.
pub show_settings-secret :
    (key v w : String) (values : Values)
    → is_secret key ≡ true
    → show_settings (set_value key v values) ≡ show_settings (set_value key w values)
show_settings-secret key v w values s =
    sym (shown_of_hidden (set_value key v values))
    ∙ ap show_settings (hidden_value key v w values s)
    ∙ shown_of_hidden (set_value key w values)
