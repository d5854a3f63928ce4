-- ===== src/Api/Deployments.antt =====
-- Client deployment profiles: `validate_deployment_profile` and the list, create, update and delete
-- handlers of src/g_one/api.py.
use project_g_one.Prelude.{
  ◌+◌, String, Bool, true, false, not, ◌&&◌, List, [], ◌∷◌, ◌==◌, nat_eq, if◌then◌else◌, contains,
  length, where_true, sort_by,
}
use project_g_one.Text.{strip}
use project_g_one.Outside.{Outside}
use project_g_one.Models.{VpnNetwork, ClientDeploymentProfile, texts, number}
use project_g_one.Models.Tables.{Kind}
use project_g_one.Auth.{Principal, has_role, require_role}
use project_g_one.Session.{
  Handler, ◌>>=◌, ◌>>◌, pure, raise, raise_if, lift, http, insert, save, select_or, select_all,
  commit, rollback, except_integrity, unprocessable,
}
use project_g_one.Wireguard.Routes.{normalize_allowed_ips}
use project_g_one.Api.Audit.{now, new_id, audit}
use project_g_one.Api.Roles.{normalized_values}

pub record DeploymentProfileCreate : Type 0 where
  pub name : String
  pub vpn_network_id : String
  pub allowed_ips : String
  pub file_server_ids : List String
  pub target_subjects : List String
  pub deliver_vpn_on_login : Bool
  pub deliver_file_servers_on_login : Bool

-- The references of a profile, once they were validated and normalized.
pub record References : Type 0 where
  pub network : VpnNetwork
  pub file_server_ids : List String
  pub subjects : List String
  pub allowed_ips : String

module _ (o : Outside) (p : Principal) where
  unfoldable pub validate_deployment_profile : DeploymentProfileCreate → Handler References
  validate_deployment_profile body = do
    network ←
        select_or (http 422 "VPN network not found") Kind.networks
          (λ n. n.tenant_id == p.tenant_id && (n.id == body.vpn_network_id && n.enabled))
    file_server_ids ← lift (normalized_values body.file_server_ids "file servers")
    servers ←
        select_all Kind.file_servers
          (λ s. s.tenant_id == p.tenant_id && (contains s.id file_server_ids && s.enabled))
    raise_if (not (nat_eq (length servers) (length file_server_ids)))
        (http 422 "file server not found")
    subjects ← lift (normalized_values body.target_subjects "target subjects")
    users ←
        select_all Kind.users
          (λ u. u.tenant_id == p.tenant_id && (contains u.subject subjects && u.status == "active"))
    raise_if (not (nat_eq (length users) (length subjects)))
        (http 422 "active target user not found")
    allowed_ips ← lift (unprocessable (normalize_allowed_ips o body.allowed_ips))
    pure (record {
      network = network;
      file_server_ids = file_server_ids;
      subjects = subjects;
      allowed_ips = allowed_ips;
    })

  unfoldable pub list_client_deployments : Handler (List ClientDeploymentProfile)
  list_client_deployments = do
    found ← select_all Kind.profiles (λ c. c.tenant_id == p.tenant_id && c.enabled)
    let profiles = sort_by (λ a b. o.name_before a.name b.name) found
    pure (
        if has_role p "tenant_admin"
        then profiles
        else where_true (λ c. contains p.subject c.target_subjects) profiles)

  unfoldable pub select_profile : String → Handler ClientDeploymentProfile
  select_profile profile_id =
      select_or (http 404 "deployment profile not found") Kind.profiles
        (λ c. c.tenant_id == p.tenant_id && (c.id == profile_id && c.enabled))

  unfoldable pub create_client_deployment :
      DeploymentProfileCreate → Handler ClientDeploymentProfile
  create_client_deployment body = do
    require_role p ("tenant_admin" ∷ [])
    references ← validate_deployment_profile body
    id ← new_id o
    created ← now o
    updated ← now o
    let profile : ClientDeploymentProfile = record {
      id = id;
      tenant_id = p.tenant_id;
      name = strip body.name;
      vpn_network_id = references.network.id;
      allowed_ips = references.allowed_ips;
      file_server_ids = references.file_server_ids;
      target_subjects = references.subjects;
      deliver_vpn_on_login = body.deliver_vpn_on_login;
      deliver_file_servers_on_login = body.deliver_file_servers_on_login;
      revision = 1;
      enabled = true;
      created_at = created;
      updated_at = updated;
    }
    except_integrity (insert Kind.profiles profile)
        (do rollback; raise (http 409 "deployment profile name already exists"))
    audit o p "client_deployment.created" "client_deployment" id
        (("target_subjects", texts references.subjects) ∷ [])
    commit
    pure profile

  unfoldable pub update_client_deployment :
      String → DeploymentProfileCreate → Handler ClientDeploymentProfile
  update_client_deployment profile_id body = do
    require_role p ("tenant_admin" ∷ [])
    profile ← select_profile profile_id
    references ← validate_deployment_profile body
    at ← now o
    let changed : ClientDeploymentProfile = record profile {
      name = strip body.name;
      vpn_network_id = references.network.id;
      allowed_ips = references.allowed_ips;
      file_server_ids = references.file_server_ids;
      target_subjects = references.subjects;
      deliver_vpn_on_login = body.deliver_vpn_on_login;
      deliver_file_servers_on_login = body.deliver_file_servers_on_login;
      revision = profile.revision + 1;
      updated_at = at;
    }
    except_integrity (save Kind.profiles changed)
        (do rollback; raise (http 409 "deployment profile name already exists"))
    audit o p "client_deployment.updated" "client_deployment" profile.id (
        ("revision", number changed.revision) ∷ ("target_subjects", texts references.subjects) ∷ [])
    commit
    pure changed

  unfoldable pub delete_client_deployment : String → Handler (Unit {0})
  delete_client_deployment profile_id = do
    require_role p ("tenant_admin" ∷ [])
    profile ← select_profile profile_id
    at ← now o
    save Kind.profiles
        (record profile { enabled = false; revision = profile.revision + 1; updated_at = at })
    audit o p "client_deployment.disabled" "client_deployment" profile.id []
    commit
