-- ===== src/Tests/Downloads.antt =====
-- The theorem on the bundles of deployments at a sample profile.
use project_g_one.Prelude.{◌+◌, ◌*◌, refl, true, some, [], ◌∷◌}
use project_g_one.Text.{strip}
use project_g_one.Models.{ClientDeploymentProfile}
use project_g_one.Models.Tables.{Kind, Database, put_table, with_table}
use project_g_one.Session.{
  ◌>>=◌, run_request, start, pure, raise_if, insert, select_or, select_all, commit, read,
}
use project_g_one.Api.Audit.{audit}
use project_g_one.Api.Download.{Manifest, download_client_deployment}
use project_g_one.Api.Download.Target.{IsAssigned, IsIssued, download_client_deployment-IsAssigned}
use project_g_one.Tests.Samples.{sample_outside, sample_admin, sample_database}

abbrev sample_profile : ClientDeploymentProfile
sample_profile = record {
  id = "c1";
  tenant_id = "acme";
  name = "office";
  vpn_network_id = "n1";
  allowed_ips = "10.44.0.0/24";
  file_server_ids = "f1" ∷ [];
  target_subjects = "bob" ∷ [];
  deliver_vpn_on_login = true;
  deliver_file_servers_on_login = true;
  revision = 1;
  enabled = true;
  created_at = 1;
  updated_at = 1;
}

abbrev sample_profiles : Database
sample_profiles = put_table Kind.profiles (sample_profile ∷ []) sample_database

abbrev bundle : Manifest
bundle = record {
  server_url = "https://vpn";
  tenant_id = "acme";
  profile_id = "c1";
  profile_name = "office";
  revision = 1;
  target_subject = "bob";
  enrollment_code = sample_outside.token_urlsafe 1;
  expires_at = sample_outside.clock 2 + 600 * 1_000_000;
  network_id = "n1";
  allowed_ips = "10.44.0.0/24";
  file_servers = [];
}

-- The administrator gets the bundle of another user.
download_client_deployment-IsAssigned_example :
    IsAssigned sample_outside sample_admin sample_profiles "c1" bundle
    × IsIssued sample_outside sample_admin sample_profiles bundle
        (run_request
          (download_client_deployment sample_outside sample_admin "c1"
            (some " bob ")
            "https://vpn/")
          sample_profiles).1
unfolding run_request start download_client_deployment ◌>>=◌ raise_if pure insert commit read audit
    select_or select_all with_table strip
download_client_deployment-IsAssigned_example =
    download_client_deployment-IsAssigned sample_outside sample_admin sample_profiles "c1"
      (some " bob ") "https://vpn/" bundle refl
