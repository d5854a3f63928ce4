-- ===== src/Tests/Handlers.antt =====
-- The theorems on single handlers, addresses, settings and passwords at the sample server.
use project_g_one.Api.Bodies.Normal.{IsBounded, valid_support_request-IsBounded}
use project_g_one.Api.Bodies.{valid_support_request}
use project_g_one.Prelude.{◌≡◌, refl, some, [], ◌∷◌, true}
use project_g_one.Text.{strip}
use project_g_one.Models.Tables.{with_table}
use project_g_one.Passwords.{verify_password, hash_password, encode_password}
use project_g_one.Passwords.Roundtrip.{verify_password-hash_password}
use project_g_one.Text.Split.{has_code}
use project_g_one.Auth.{require_role}
use project_g_one.Auth.Token.{encode_token}
use project_g_one.Session.{
  raised, http, run_request, ◌>>=◌, read, pure, insert, save, delete, commit, raise_if,
  select_first, select_or, select_all, for_each, start,
}
use project_g_one.Api.Audit.{audit}
use project_g_one.Api.Sessions.{create_user_session, session_token}
use project_g_one.Api.Users.{delete_user, check_last_admin, retarget_profiles}
use project_g_one.Api.Support.{end_support_request, get_support_request, target_device, screen_view}
use project_g_one.Requests.Decision.{IsEnded, end_support_request-IsEnded}
use project_g_one.Requests.SignIn.{
  IsKnown, create_user_session-IsKnown, create_user_session-refused,
}
use project_g_one.Requests.Deletion.{IsDeletable, delete_user-IsDeletable}
use project_g_one.Settings.Environment.{
  from_environment, from_variables, IsSafe, from_environment-IsSafe,
}
use project_g_one.Wireguard.Routes.{address_belongs}
use project_g_one.Wireguard.Config.{render_server_config}
use project_g_one.Wireguard.Enabled.{enabled_peers, render_server_config-enabled_peers}
use project_g_one.Wireguard.Addresses.{IsFreeHost, address_belongs-IsFreeHost}
use project_g_one.Tests.Samples.{
  sample_outside, sample_settings, sample_codec, sample_admin, sample_accepted, sample_session,
  sample_accounts, sample_network, sample_peer, sample_variables, sample_database,
}

end_support_request-IsEnded_example :
    IsEnded sample_outside sample_admin sample_session "s1"
      (record sample_accepted { state = "ended"; ended_at = some 1000000 })
unfolding run_request end_support_request get_support_request target_device ◌>>=◌ raise_if pure
    insert save commit read audit select_first select_or with_table
end_support_request-IsEnded_example =
    end_support_request-IsEnded sample_outside sample_admin sample_session "s1"
      (record sample_accepted { state = "ended"; ended_at = some 1000000 }) refl

create_user_session-IsKnown_example :
    IsKnown sample_outside sample_codec sample_settings sample_accounts "bob" "acme" "password"
unfolding run_request create_user_session session_token encode_token ◌>>=◌ insert commit read audit
    select_first pure verify_password strip with_table
create_user_session-IsKnown_example =
    create_user_session-IsKnown sample_outside sample_codec sample_settings sample_accounts "bob"
      "acme" "password" ".." refl

create_user_session-refused_example :
    run_request
      (create_user_session sample_outside sample_codec sample_settings "eve" "acme" "password")
      sample_accounts
    ≡ (raised (http 401 "invalid account credentials"), sample_accounts)
unfolding strip with_table
create_user_session-refused_example =
    create_user_session-refused sample_outside sample_codec sample_settings sample_accounts "eve"
      "acme" "password" refl

delete_user-IsDeletable_example : IsDeletable sample_outside sample_admin sample_accounts "u1"
unfolding run_request delete_user check_last_admin retarget_profiles ◌>>=◌ require_role raise_if
    select_or select_all pure insert delete commit read audit for_each with_table
delete_user-IsDeletable_example =
    delete_user-IsDeletable sample_outside sample_admin sample_accounts "u1" tt refl

render_server_config-enabled_peers_example :
    render_server_config sample_outside sample_network (enabled_peers (sample_peer ∷ [])) "key"
    ≡ render_server_config sample_outside sample_network (sample_peer ∷ []) "key"
render_server_config-enabled_peers_example =
    render_server_config-enabled_peers sample_outside sample_network (sample_peer ∷ []) "key"

address_belongs-IsFreeHost_example : IsFreeHost sample_outside "10.0.0.1/24" "10.0.0.2"
unfolding address_belongs
address_belongs-IsFreeHost_example =
    address_belongs-IsFreeHost sample_outside "10.0.0.1/24" "10.0.0.2" "" refl

from_environment-IsSafe_example :
    (from_variables sample_outside sample_variables
      ≡ from_variables sample_outside sample_variables)
    × IsSafe sample_outside sample_variables (from_variables sample_outside sample_variables)
unfolding from_environment
from_environment-IsSafe_example =
    from_environment-IsSafe sample_outside sample_variables
      (from_variables sample_outside sample_variables) refl

verify_password-hash_password_example :
    verify_password sample_outside "password" (some "pbkdf2_sha256$600000$$") ≡ true
unfolding hash_password ◌>>=◌ read pure encode_password has_code
verify_password-hash_password_example =
    verify_password-hash_password sample_outside "password" (start sample_database)
      "pbkdf2_sha256$600000$$" refl refl refl refl refl

valid_support_request-IsBounded_example : IsBounded (record {
  target_device_id = "d";
  purpose = "fix it";
  permissions = screen_view ∷ [];
  lifetime_seconds = 300;
})
unfolding valid_support_request
valid_support_request-IsBounded_example =
    valid_support_request-IsBounded
      (record {
        target_device_id = "d";
        purpose = " fix it\n";
        permissions = screen_view ∷ [];
        lifetime_seconds = 300;
      })
      (record {
        target_device_id = "d";
        purpose = "fix it";
        permissions = screen_view ∷ [];
        lifetime_seconds = 300;
      })
      refl
