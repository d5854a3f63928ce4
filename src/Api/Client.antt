-- ===== src/Api/Client.antt =====
-- What a Windows client asks for: `bootstrap_client` and `enroll_client_vpn` of src/g_one/api.py.
use Prim.Native.String.{◌++◌}
use mathlib.Core.List.{flat_map}
use project_g_one.Prelude.{
  ℕ, String, Bool, true, not, ◌&&◌, ◌||◌, List, [], ◌∷◌, ◌==◌, Option, none, some, leb, ltb, nat_eq,
  if◌then◌else◌, is_none, contains, find_first, map, sort_by,
}
use project_g_one.Text.{strip, is_empty}
use project_g_one.Outside.{Outside}
use project_g_one.Settings.{Settings}
use project_g_one.Models.{
  Device, WorkspaceUser, VpnNetwork, VpnPeer, FileServer, ClientDeploymentProfile,
  ClientEnrollmentCode, flag, text,
}
use project_g_one.Models.Tables.{Kind}
use project_g_one.Auth.{Principal}
use project_g_one.Session.{
  Handler, Outcome, returned, ◌>>=◌, ◌>>◌, pure, raise, raise_if, lift, http, insert, save,
  select_first, select_or, select_all, on_option, commit, unprocessable, reraise,
}
use project_g_one.Wireguard.Curve.{public_key}
use project_g_one.Wireguard.Routes.{normalize_allowed_ips, address_belongs}
use project_g_one.Wireguard.Config.{render_client_config, routes_or_network, generate_keypair}
use project_g_one.Api.Audit.{now, new_id, audit}
use project_g_one.Api.Vpn.{
  VpnNetworkRead, VpnPeerEnrollment, network_response, sync_vpn, get_vpn_network, has_server_key,
  or_else,
}

pub record ClientFileShare : Type 0 where
  pub name : String
  pub unc_path : String

pub record ClientBootstrap : Type 0 where
  pub version : ℕ
  pub user : WorkspaceUser
  pub vpn : Option VpnNetworkRead
  pub vpn_profile : Option String
  pub file_shares : List ClientFileShare
  pub device : Device

-- The shares of a file server, for a client.
abbrev pub server_shares : FileServer → List ClientFileShare
server_shares server =
    map
      (λ share. record {
        name = server.name ++ " - " ++ share;
        unc_path = "\\\\" ++ server.host ++ "\\" ++ share;
      })
      server.shares

-- `order_by(updated_at.desc(), name)`
abbrev pub newest_first :
    (String → String → Bool) → ClientDeploymentProfile → ClientDeploymentProfile → Bool
newest_first name_before a b =
    ltb b.updated_at a.updated_at || (nat_eq a.updated_at b.updated_at && name_before a.name b.name)

module _ (o : Outside) (settings : Settings) (p : Principal) where
  -- The peer with the address gets the new key and routes; there is a new one if there is none.
  unfoldable pub issue_peer : VpnNetwork → String → String → String → String → Handler VpnPeer
  issue_peer network name address routes key = do
    found ←
        select_first Kind.peers
          (λ q. q.tenant_id == p.tenant_id && (q.network_id == network.id && q.address == address))
    on_option found
        (do
          id ← new_id o
          created ← now o
          let peer : VpnPeer = record {
            id = id;
            tenant_id = p.tenant_id;
            network_id = network.id;
            name = name;
            public_key = key;
            address = address;
            allowed_ips = routes;
            persistent_keepalive = 25;
            enabled = true;
            created_at = created;
            revoked_at = none;
          }
          insert Kind.peers peer
          pure peer)
        (λ old. do
          let peer : VpnPeer = record old {
            name = name;
            public_key = key;
            allowed_ips = routes;
            persistent_keepalive = 25;
            enabled = true;
            revoked_at = none;
          }
          save Kind.peers peer
          pure peer)

  unfoldable pub active_user : Handler (Option WorkspaceUser)
  active_user =
      select_first Kind.users
        (λ u. u.tenant_id == p.tenant_id && (u.subject == p.subject && u.status == "active"))

  -- `user is None or not user.vpn_address`
  abbrev pub user_address : Option WorkspaceUser → Option (WorkspaceUser × String)
  user_address none = none
  user_address (some user) = elim user.vpn_address [
    | none ↦ none
    | some a ↦ if is_empty a then none else some (user, a)
  ]

  unfoldable pub require_address :
      Option (WorkspaceUser × String) → Handler (WorkspaceUser × String)
  require_address found =
      on_option found (raise (http 409 "VPN address is not assigned to this user")) pure

  unfoldable pub enroll_client_vpn : String → Handler VpnPeerEnrollment
  enroll_client_vpn device_name = do
    found ← active_user
    (user, assigned) ← require_address (user_address found)
    network ← get_vpn_network o settings p.tenant_id
    raise_if (not (has_server_key o settings)) (http 503 "VPN server key is not configured")
    address ← lift (unprocessable (address_belongs o network.address_cidr assigned))
    wanted ← lift (unprocessable (routes_or_network o user.allowed_ips network.address_cidr))
    routes ← lift (unprocessable (normalize_allowed_ips o wanted))
    (private_key, peer_public_key) ← reraise unprocessable (generate_keypair o)
    peer ←
        issue_peer network ("client:" ++ p.subject ++ ":" ++ strip device_name) address routes
          peer_public_key
    audit o p "vpn.client.enrolled" "vpn_peer" peer.id (("device", text (strip device_name)) ∷ [])
    sync_vpn o settings network
    commit
    server_public ← lift (public_key o settings.wireguard_private_key)
    config ← lift (render_client_config o network private_key address server_public routes)
    pure (record { peer = peer; client_config = some config })

  -- The device of this name that is not revoked, or a new one.
  unfoldable pub bootstrap_device : String → Handler Device
  bootstrap_device name = do
    found ← select_first Kind.devices (λ d.
        d.tenant_id == p.tenant_id
        && (d.owner_id == p.subject && (d.name == name && is_none d.revoked_at)))
    on_option found
        (do
          id ← new_id o
          created ← now o
          let device : Device = record {
            id = id;
            tenant_id = p.tenant_id;
            owner_id = p.subject;
            name = name;
            platform = "windows";
            status = "registered";
            created_at = created;
            revoked_at = none;
          }
          insert Kind.devices device
          pure device)
        pure

  -- A code expires before its first use, and not after it.
  unfoldable pub activate_code : ClientEnrollmentCode → Handler (Unit {0})
  activate_code code =
      if is_none code.used_at
      then (do
        at ← now o
        raise_if (leb code.expires_at at) (http 410 "client enrollment code expired")
        used ← now o
        save Kind.enrollment_codes (record code { used_at = some used }))
      else pure tt

  unfoldable pub redeem_code : String → Handler ClientDeploymentProfile
  redeem_code raw = do
    code ← select_or (http 403 "invalid client enrollment code") Kind.enrollment_codes (λ c.
        c.tenant_id == p.tenant_id && (c.token_hash == o.sha256_hex raw && c.subject == p.subject))
    activate_code code
    profile ←
        select_or (http 409 "client deployment is no longer available") Kind.profiles
          (λ c. c.tenant_id == p.tenant_id && (c.id == code.profile_id && c.enabled))
    raise_if (not (contains p.subject profile.target_subjects))
        (http 409 "client deployment is no longer available")
    pure profile

  -- The newest profile that is assigned to the user.
  unfoldable pub assigned_profile : Handler (Option ClientDeploymentProfile)
  assigned_profile = do
    found ← select_all Kind.profiles (λ c. c.tenant_id == p.tenant_id && c.enabled)
    pure (
        find_first (λ c. contains p.subject c.target_subjects)
          (sort_by (newest_first o.name_before) found))

  abbrev pub profile_routes :
      Option ClientDeploymentProfile → WorkspaceUser → String → Outcome String
  profile_routes none user cidr = routes_or_network o user.allowed_ips cidr
  profile_routes (some profile) user cidr = returned profile.allowed_ips

  -- The configuration of the tunnel, with fresh keys.
  unfoldable pub deliver_vpn :
      VpnNetwork → WorkspaceUser → String → Option ClientDeploymentProfile → String → Handler String
  deliver_vpn network user assigned profile device_name = do
    address ← lift (address_belongs o network.address_cidr assigned)
    wanted ← lift (profile_routes profile user network.address_cidr)
    routes ← lift (normalize_allowed_ips o wanted)
    (private_key, peer_public_key) ← generate_keypair o
    issue_peer network ("client:" ++ p.subject ++ ":" ++ device_name) address routes peer_public_key
    sync_vpn o settings network
    server_public ← lift (public_key o settings.wireguard_private_key)
    lift (render_client_config o network private_key address server_public routes)

  -- `profile is None or not login_delivery or profile.deliver_vpn_on_login`
  abbrev pub delivers_vpn : Bool → Option ClientDeploymentProfile → Bool
  delivers_vpn login_delivery none = true
  delivers_vpn login_delivery (some profile) = not login_delivery || profile.deliver_vpn_on_login

  unfoldable pub delivered :
      Option VpnNetwork
      → WorkspaceUser
      → Bool
      → Option ClientDeploymentProfile
      → String
      → Handler (Option String)
  delivered network user login_delivery profile device_name = on_option network (pure none) λ n.
      on_option (user_address (some user)) (pure none) λ found.
        if has_server_key o settings && delivers_vpn login_delivery profile
        then (do config ← deliver_vpn n user found.1 profile device_name; pure (some config))
        else pure none

  -- The shares of the profile's servers that are enabled.
  unfoldable pub profile_shares :
      Bool → Option ClientDeploymentProfile → Handler (List ClientFileShare)
  profile_shares login_delivery profile = on_option profile (pure []) λ c.
      if not login_delivery || c.deliver_file_servers_on_login
      then (do
        servers ←
            select_all Kind.file_servers
              (λ s. s.tenant_id == p.tenant_id && (contains s.id c.file_server_ids && s.enabled))
        pure (flat_map server_shares servers))
      else pure []

  unfoldable pub optional_response : Option VpnNetwork → Handler (Option VpnNetworkRead)
  optional_response network =
      on_option network (pure none)
        λ n. do response ← network_response o settings n; pure (some response)

  unfoldable pub bootstrap_client : String → Option String → Handler ClientBootstrap
  bootstrap_client device_name enrollment_code = do
    user ←
        select_or (http 403 "active provisioned account required") Kind.users
          (λ u. u.tenant_id == p.tenant_id && (u.subject == p.subject && u.status == "active"))
    device ← bootstrap_device device_name
    let code = or_else enrollment_code ""
    let login_delivery = is_empty code
    profile ←
        if login_delivery
        then assigned_profile
        else (do profile ← redeem_code code; pure (some profile))
    network ← select_first Kind.networks (λ n. n.tenant_id == p.tenant_id)
    vpn_profile ← delivered network user login_delivery profile device_name
    audit o p "client.bootstrapped" "device" device.id
        (("vpn", flag (not (is_none vpn_profile))) ∷ [])
    commit
    file_shares ← profile_shares login_delivery profile
    vpn ← optional_response network
    pure (record {
      version = user.policy_version;
      user = user;
      vpn = vpn;
      vpn_profile = vpn_profile;
      file_shares = file_shares;
      device = device;
    })
