-- ===== src/Api/Users.antt =====
-- The accounts of a tenant: `list_users`, `create_user`, `delete_user` and `update_user` of
-- src/g_one/api.py.
use project_g_one.Prelude.{
  ℕ, ◌+◌, String, Bool, true, false, not, ◌&&◌, List, [], ◌∷◌, ◌==◌, Option, none, some, ltb,
  if◌then◌else◌, any, contains, where_true, sort_by,
}
use project_g_one.Text.{strip, strip_or_none, is_empty}
use project_g_one.Outside.{Outside}
use project_g_one.Models.{WorkspaceUser, VpnNetwork, ClientDeploymentProfile, text, texts}
use project_g_one.Models.Tables.{Kind}
use project_g_one.Auth.{Principal, require_role}
use project_g_one.Session.{
  Handler, Outcome, returned, raised, ◌>>=◌, ◌>>◌, pure, raise, raise_if, lift, http, insert, save,
  delete, select_first, select_or, select_all, for_each, commit, rollback, except_integrity,
  unprocessable,
}
use project_g_one.Wireguard.Routes.{normalize_allowed_ips, address_belongs}
use project_g_one.Passwords.{hash_password}
use project_g_one.Api.Audit.{now, new_id, audit}
use project_g_one.Api.Roles.{validate_roles}

pub record UserCreate : Type 0 where
  pub subject : String
  pub display_name : String
  pub email : Option String
  pub password : String
  pub roles : List String
  pub vpn_address : Option String
  pub allowed_ips : String

pub record UserUpdate : Type 0 where
  pub display_name : String
  pub email : Option String
  pub roles : List String
  pub status : String
  pub password : Option String
  pub vpn_address : Option String
  pub allowed_ips : String

-- The profile without a user: `delete_user` takes the subject out of its targets.
abbrev pub is_nonempty : List String → Bool
is_nonempty [] = false
is_nonempty (s ∷ ss) = true

unfoldable pub without_target : String → ℕ → ClientDeploymentProfile → ClientDeploymentProfile
without_target subject at profile =
    let targets = where_true (λ s. not (s == subject)) profile.target_subjects in
    record profile {
      target_subjects = targets;
      enabled = is_nonempty targets;
      revision = profile.revision + 1;
      updated_at = at;
    }

-- An optional text that is there, once it was computed.
abbrev pub some_returned : Outcome String → Outcome (Option String)
some_returned (returned a) = returned (some a)
some_returned (raised e) = raised e

-- Another active administrator is left.
unfoldable pub has_admin : List WorkspaceUser → Bool
has_admin = any (λ candidate. contains "tenant_admin" candidate.roles)

module _ (o : Outside) (p : Principal) where
  unfoldable pub list_users : Handler (List WorkspaceUser)
  list_users = do
    require_role p ("tenant_admin" ∷ [])
    found ← select_all Kind.users (λ u. u.tenant_id == p.tenant_id)
    pure (sort_by (λ a b. ltb a.created_at b.created_at) found)

  -- `address_belongs(network.address_cidr, address) if network and address else None`
  unfoldable pub assigned_address : Option VpnNetwork → Option String → Outcome (Option String)
  unfolding is_empty
  assigned_address none address = returned none
  assigned_address (some network) none = returned none
  assigned_address (some network) (some address) =
      if is_empty address
      then returned none
      else some_returned (address_belongs o network.address_cidr address)

  -- `normalize_allowed_ips(routes) if routes else ""`
  unfoldable pub assigned_routes : String → Outcome String
  unfolding is_empty
  assigned_routes routes = if is_empty routes then returned "" else normalize_allowed_ips o routes

  unfoldable pub create_user : UserCreate → Handler WorkspaceUser
  create_user body = do
    require_role p ("tenant_admin" ∷ [])
    network ← select_first Kind.networks (λ n. n.tenant_id == p.tenant_id)
    vpn_address ← lift (unprocessable (assigned_address network body.vpn_address))
    allowed_ips ← lift (unprocessable (assigned_routes body.allowed_ips))
    password_hash ← hash_password o body.password
    roles ← lift (validate_roles body.roles)
    id ← new_id o
    created ← now o
    updated ← now o
    let user : WorkspaceUser = record {
      id = id;
      tenant_id = p.tenant_id;
      subject = strip body.subject;
      display_name = strip body.display_name;
      email = strip_or_none body.email;
      password_hash = some password_hash;
      roles = roles;
      vpn_address = vpn_address;
      allowed_ips = allowed_ips;
      policy_version = 1;
      status = "active";
      created_at = created;
      updated_at = updated;
    }
    except_integrity (insert Kind.users user) (do rollback; raise (http 409 "user already exists"))
    audit o p "user.created" "user" id (("roles", texts roles) ∷ [])
    commit
    pure user

  -- The loop over the profiles.
  unfoldable pub retarget : WorkspaceUser → ClientDeploymentProfile → Handler (Unit {0})
  retarget user profile =
      if contains user.subject profile.target_subjects
      then (do at ← now o; save Kind.profiles (without_target user.subject at profile))
      else pure tt

  unfoldable pub retarget_profiles : WorkspaceUser → Handler (Unit {0})
  retarget_profiles user = do
    profiles ← select_all Kind.profiles (λ c. c.tenant_id == p.tenant_id && c.enabled)
    for_each profiles (retarget user)

  unfoldable pub check_last_admin : WorkspaceUser → Handler (Unit {0})
  check_last_admin user =
      if contains "tenant_admin" user.roles
      then (do
        others ←
            select_all Kind.users
              (λ u. u.tenant_id == p.tenant_id && (not (u.id == user.id) && u.status == "active"))
        raise_if (not (has_admin others)) (http 409 "cannot delete the last administrator"))
      else pure tt

  unfoldable pub delete_user : String → Handler (Unit {0})
  delete_user user_id = do
    require_role p ("tenant_admin" ∷ [])
    user ←
        select_or (http 404 "user not found") Kind.users
          (λ u. u.tenant_id == p.tenant_id && u.id == user_id)
    raise_if (user.subject == p.subject) (http 409 "cannot delete the signed-in account")
    check_last_admin user
    retarget_profiles user
    audit o p "user.deleted" "user" user.id (("subject", text user.subject) ∷ [])
    delete Kind.users user
    commit

  -- `if body.password: user.password_hash = hash_password(body.password)`
  unfoldable pub new_password : Option String → Option String → Handler (Option String)
  unfolding is_empty
  new_password none old = pure old
  new_password (some password) old =
      if is_empty password then pure old else (do hash ← hash_password o password; pure (some hash))

  unfoldable pub update_user : String → UserUpdate → Handler WorkspaceUser
  update_user user_id body = do
    require_role p ("tenant_admin" ∷ [])
    user ←
        select_or (http 404 "user not found") Kind.users
          (λ u. u.tenant_id == p.tenant_id && u.id == user_id)
    network ← select_first Kind.networks (λ n. n.tenant_id == p.tenant_id)
    vpn_address ← lift (unprocessable (assigned_address network body.vpn_address))
    allowed_ips ← lift (unprocessable (assigned_routes body.allowed_ips))
    roles ← lift (validate_roles body.roles)
    at ← now o
    password_hash ← new_password body.password user.password_hash
    let changed : WorkspaceUser = record user {
      vpn_address = vpn_address;
      allowed_ips = allowed_ips;
      display_name = strip body.display_name;
      email = strip_or_none body.email;
      roles = roles;
      status = body.status;
      updated_at = at;
      policy_version = user.policy_version + 1;
      password_hash = password_hash;
    }
    save Kind.users changed
    audit o p "user.updated" "user" user.id
        (("roles", texts roles) ∷ ("status", text body.status) ∷ [])
    commit
    pure changed
