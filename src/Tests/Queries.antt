-- ===== src/Tests/Queries.antt =====
-- The theorem on the replies of src/g_one/api.py, at two databases that differ in their secrets.
use project_g_one.Prelude.{◌≡◌, refl, String, none, some, [], ◌∷◌}
use project_g_one.Models.{WorkspaceUser}
use project_g_one.Models.Tables.{Kind, Database, empty_database, put_table, with_table}
use project_g_one.Session.{run_request}
use project_g_one.Api.Queries.{Query, answer}
use project_g_one.Api.Visible.{visible}
use project_g_one.Api.Confidential.{answer-visible}
use project_g_one.Tests.Samples.{sample_outside, sample_settings, sample_admin}

abbrev account : String → String → String → WorkspaceUser
account id tenant hash = record {
  id = id;
  tenant_id = tenant;
  subject = "ann";
  display_name = "Ann";
  email = none;
  password_hash = some hash;
  roles = "tenant_admin" ∷ [];
  vpn_address = none;
  allowed_ips = "";
  policy_version = 1;
  status = "active";
  created_at = 1;
  updated_at = 1;
}

abbrev one_account : Database
one_account = put_table Kind.users (account "u1" "acme" "a" ∷ []) empty_database

-- Another hash of the password, and an account of another tenant.
abbrev more_accounts : Database
more_accounts =
    put_table Kind.users (account "u2" "globex" "c" ∷ account "u1" "acme" "b" ∷ []) empty_database

agree : (k : Kind) → (visible "acme" one_account).rows k ≡ (visible "acme" more_accounts).rows k
unfolding with_table
agree Kind.users = refl
agree Kind.devices = refl
agree Kind.support_requests = refl
agree Kind.audit_events = refl
agree Kind.api_tokens = refl
agree Kind.networks = refl
agree Kind.peers = refl
agree Kind.file_servers = refl
agree Kind.profiles = refl
agree Kind.enrollment_codes = refl

answer-visible_example :
    (run_request (answer sample_outside sample_settings sample_admin Query.users) one_account).0
    ≡ (run_request (answer sample_outside sample_settings sample_admin Query.users) more_accounts).0
answer-visible_example =
    answer-visible sample_outside sample_settings sample_admin Query.users one_account more_accounts
      agree
