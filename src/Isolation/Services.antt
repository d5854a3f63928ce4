-- ===== src/Isolation/Services.antt =====
-- Isolation of the handlers of file servers, deployment profiles and sessions.
use project_g_one.Api.Download.{download_client_deployment}
use project_g_one.Prelude.{String, Option}
use project_g_one.Outside.{Outside}
use project_g_one.Models.Tables.{Database}
use project_g_one.Auth.{Principal}
use project_g_one.Session.Keeps.{Keeps}
use project_g_one.Session.Isolation.{IsIsolated}
use project_g_one.Isolation.Rules.{tenant_rules}
use project_g_one.Api.Files.{
  FileServerCreate, checked_host, create_file_server, update_file_server, delete_file_server,
}
use project_g_one.Api.Deployments.{
  DeploymentProfileCreate, validate_deployment_profile, create_client_deployment,
  update_client_deployment, delete_client_deployment,
}

module _ (o : Outside) (p : Principal) (base : Database) where
  checked_host-IsIsolated :
      (text : String) → Keeps (IsIsolated p.tenant_id base) (checked_host o p text)
  unfolding checked_host
  checked_host-IsIsolated text = search tenant_rules depth 8

  pub create_file_server-IsIsolated :
      (body : FileServerCreate) → Keeps (IsIsolated p.tenant_id base) (create_file_server o p body)
  unfolding create_file_server
  create_file_server-IsIsolated body =
      search (tenant_rules, checked_host-IsIsolated) depth 40 fits 20000

  pub update_file_server-IsIsolated :
      (id : String) (body : FileServerCreate)
      → Keeps (IsIsolated p.tenant_id base) (update_file_server o p id body)
  unfolding update_file_server
  update_file_server-IsIsolated id body =
      search (tenant_rules, checked_host-IsIsolated) depth 40 fits 20000

  pub delete_file_server-IsIsolated :
      (id : String) → Keeps (IsIsolated p.tenant_id base) (delete_file_server o p id)
  unfolding delete_file_server
  delete_file_server-IsIsolated id = search tenant_rules depth 40 fits 20000

  validate-IsIsolated :
      (body : DeploymentProfileCreate)
      → Keeps (IsIsolated p.tenant_id base) (validate_deployment_profile o p body)
  unfolding validate_deployment_profile
  validate-IsIsolated body = search tenant_rules depth 40 fits 20000

  pub create_client_deployment-IsIsolated :
      (body : DeploymentProfileCreate)
      → Keeps (IsIsolated p.tenant_id base) (create_client_deployment o p body)
  unfolding create_client_deployment
  create_client_deployment-IsIsolated body =
      search (tenant_rules, validate-IsIsolated) depth 40 fits 20000

  pub update_client_deployment-IsIsolated :
      (id : String) (body : DeploymentProfileCreate)
      → Keeps (IsIsolated p.tenant_id base) (update_client_deployment o p id body)
  unfolding update_client_deployment
  update_client_deployment-IsIsolated id body =
      search (tenant_rules, validate-IsIsolated) depth 40 fits 20000

  pub delete_client_deployment-IsIsolated :
      (id : String) → Keeps (IsIsolated p.tenant_id base) (delete_client_deployment o p id)
  unfolding delete_client_deployment
  delete_client_deployment-IsIsolated id = search tenant_rules depth 40 fits 20000

  pub download_client_deployment-IsIsolated :
      (id : String) (subject : Option String) (url : String)
      → Keeps (IsIsolated p.tenant_id base) (download_client_deployment o p id subject url)
  unfolding download_client_deployment
  download_client_deployment-IsIsolated id subject url = search tenant_rules depth 50 fits 20000
