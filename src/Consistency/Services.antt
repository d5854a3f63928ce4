-- ===== src/Consistency/Services.antt =====
-- Closed invariants under the handlers of file servers and deployment profiles.
use project_g_one.Api.Download.{download_client_deployment}
use project_g_one.Prelude.{String, Option}
use project_g_one.Outside.{Outside}
use project_g_one.Models.Tables.{Database}
use project_g_one.Auth.{Principal}
use project_g_one.Session.Keeps.{Keeps}
use project_g_one.Consistency.Writes.{IsClosed, closed_rules}
use project_g_one.Api.Files.{
  FileServerCreate, checked_host, create_file_server, update_file_server, delete_file_server,
}
use project_g_one.Api.Deployments.{
  DeploymentProfileCreate, validate_deployment_profile, create_client_deployment,
  update_client_deployment, delete_client_deployment,
}

module _ {P : Database → Database → Type 0} (c : IsClosed P) (o : Outside) (p : Principal) where
  closed-checked_host : (text : String) → Keeps P (checked_host o p text)
  unfolding checked_host
  closed-checked_host text = search closed_rules depth 8

  pub closed-create_file_server : (body : FileServerCreate) → Keeps P (create_file_server o p body)
  unfolding create_file_server
  closed-create_file_server body = search (closed_rules, closed-checked_host) depth 40 fits 20000

  pub closed-update_file_server :
      (id : String) (body : FileServerCreate) → Keeps P (update_file_server o p id body)
  unfolding update_file_server
  closed-update_file_server id body = search (closed_rules, closed-checked_host) depth 40 fits 20000

  pub closed-delete_file_server : (id : String) → Keeps P (delete_file_server o p id)
  unfolding delete_file_server
  closed-delete_file_server id = search closed_rules depth 40 fits 20000

  closed-validate :
      (body : DeploymentProfileCreate) → Keeps P (validate_deployment_profile o p body)
  unfolding validate_deployment_profile
  closed-validate body = search closed_rules depth 40 fits 20000

  pub closed-create_client_deployment :
      (body : DeploymentProfileCreate) → Keeps P (create_client_deployment o p body)
  unfolding create_client_deployment
  closed-create_client_deployment body = search (closed_rules, closed-validate) depth 40 fits 20000

  pub closed-update_client_deployment :
      (id : String) (body : DeploymentProfileCreate)
      → Keeps P (update_client_deployment o p id body)
  unfolding update_client_deployment
  closed-update_client_deployment id body =
      search (closed_rules, closed-validate) depth 40 fits 20000

  pub closed-delete_client_deployment : (id : String) → Keeps P (delete_client_deployment o p id)
  unfolding delete_client_deployment
  closed-delete_client_deployment id = search closed_rules depth 40 fits 20000

  pub closed-download_client_deployment :
      (id : String) (subject : Option String) (url : String)
      → Keeps P (download_client_deployment o p id subject url)
  unfolding download_client_deployment
  closed-download_client_deployment id subject url = search closed_rules depth 50 fits 20000
