-- ===== src/Api/Vpn.antt =====
-- The VPN network and its peers: `get_vpn_network`, `network_response`, `sync_vpn` and the handlers
-- under /api/v1/vpn of src/g_one/api.py.
use project_g_one.Prelude.{
  ℕ, String, Bool, true, false, not, ◌&&◌, List, [], ◌∷◌, ◌==◌, Option, none, some, ltb,
  if◌then◌else◌, is_none, sort_by,
}
use project_g_one.Text.{strip, strip_or_none, is_empty}
use project_g_one.Outside.{Outside}
use project_g_one.Settings.{Settings}
use project_g_one.Models.{VpnNetwork, VpnPeer, text}
use project_g_one.Models.Tables.{Kind}
use project_g_one.Auth.{Principal, require_role}
use project_g_one.Session.{
  Handler, Outcome, returned, raised, ◌>>=◌, ◌>>◌, pure, raise, lift, http, os_error, insert, save,
  select_first, select_or, select_all, on_option, commit, rollback, except_integrity, unprocessable,
  reraise,
}
use project_g_one.Wireguard.Curve.{validate_key, public_key}
use project_g_one.Wireguard.Routes.{normalize_allowed_ips, address_belongs}
use project_g_one.Wireguard.Config.{
  render_server_config, render_client_config, network_text, routes_or_network, generate_keypair,
  apply_config,
}
use project_g_one.Api.Audit.{now, new_id, audit}

pub record VpnNetworkCreate : Type 0 where
  pub name : String
  pub address_cidr : String
  pub endpoint : String
  pub listen_port : ℕ
  pub dns : Option String

pub record VpnPeerCreate : Type 0 where
  pub name : String
  pub address : String
  pub public_key : Option String
  pub allowed_ips : Option String
  pub persistent_keepalive : ℕ

-- The network with what the runtime adds to it.
pub record VpnNetworkRead : Type 0 where
  pub network : VpnNetwork
  pub server_public_key : Option String
  pub runtime_enabled : Bool
  pub network_route : String

-- The peer with the configuration that is shown once.
pub record VpnPeerEnrollment : Type 0 where
  pub peer : VpnPeer
  pub client_config : Option String

-- `except (OSError, SubprocessError): raise HTTPException(503, ...)`
abbrev pub handle_os {ℓ} : {A : Type ℓ} → Outcome A → Outcome A
handle_os (raised os_error) = raised (http 503 "WireGuard apply failed")
handle_os r = r

-- `a or b` for an optional text
abbrev pub or_else : Option String → String → String
or_else none b = b
or_else (some a) b = if is_empty a then b else a

module _ (o : Outside) (settings : Settings) where
  abbrev pub has_server_key : Bool
  has_server_key = not (is_empty settings.wireguard_private_key)

  unfoldable pub network_response : VpnNetwork → Handler VpnNetworkRead
  network_response network = do
    server_public_key ←
        if has_server_key
        then (do key ← lift (public_key o settings.wireguard_private_key); pure (some key))
        else pure none
    route ← lift (network_text o network.address_cidr)
    pure (record {
      network = network;
      server_public_key = server_public_key;
      runtime_enabled = settings.wireguard_apply;
      network_route = route;
    })

  unfoldable pub sync_vpn : VpnNetwork → Handler (Unit {0})
  sync_vpn network = if not has_server_key then pure tt else do
    peers ←
        select_all Kind.peers (λ q. q.tenant_id == network.tenant_id && q.network_id == network.id)
    config ← lift (render_server_config o network peers settings.wireguard_private_key)
    reraise handle_os (apply_config o config settings)

  unfoldable pub get_vpn_network : String → Handler VpnNetwork
  get_vpn_network tenant_id =
      select_or (http 404 "VPN network not configured") Kind.networks
        (λ n. n.tenant_id == tenant_id)

  module _ (p : Principal) where
    -- The row to write: the old one, or a new one.
    unfoldable pub own_network : Handler (Option VpnNetwork)
    own_network = select_first Kind.networks (λ n. n.tenant_id == p.tenant_id)

    unfoldable pub new_network : VpnNetworkCreate → String → Handler VpnNetwork
    new_network body address_cidr = do
      at ← now o
      id ← new_id o
      created ← now o
      let network : VpnNetwork = record {
        id = id;
        tenant_id = p.tenant_id;
        name = strip body.name;
        address_cidr = address_cidr;
        endpoint = strip body.endpoint;
        listen_port = body.listen_port;
        dns = strip_or_none body.dns;
        enabled = true;
        created_at = created;
        updated_at = at;
      }
      insert Kind.networks network
      pure network

    unfoldable pub changed_network : VpnNetworkCreate → String → VpnNetwork → Handler VpnNetwork
    changed_network body address_cidr network = do
      at ← now o
      let changed : VpnNetwork = record network {
        name = strip body.name;
        address_cidr = address_cidr;
        endpoint = strip body.endpoint;
        listen_port = body.listen_port;
        dns = strip_or_none body.dns;
        updated_at = at;
      }
      save Kind.networks changed
      pure changed

    abbrev pub checked_cidr : String → Outcome String
    checked_cidr cidr = elim (o.ip_interface cidr) [
      | none ↦ raised (http 422 "invalid VPN interface address")
      | some interface ↦ returned (o.str_interface interface)
    ]

    unfoldable pub configure_vpn_network : VpnNetworkCreate → Handler VpnNetworkRead
    configure_vpn_network body = do
      require_role p ("tenant_admin" ∷ [])
      address_cidr ← lift (checked_cidr body.address_cidr)
      found ← own_network
      network ← on_option found (new_network body address_cidr) (changed_network body address_cidr)
      audit o p "vpn.network.configured" "vpn_network" network.id []
      sync_vpn network
      commit
      network_response network

    unfoldable pub read_vpn_network : Handler VpnNetworkRead
    read_vpn_network = do network ← get_vpn_network p.tenant_id; network_response network

    unfoldable pub list_vpn_peers : Handler (List VpnPeer)
    list_vpn_peers = do
      require_role p ("tenant_admin" ∷ "support" ∷ [])
      found ← select_all Kind.peers (λ q. q.tenant_id == p.tenant_id)
      pure (sort_by (λ a b. ltb a.created_at b.created_at) found)

    -- `validate_key(body.public_key) if body.public_key else generated_public`
    abbrev pub peer_key : Option String → String → Outcome String
    peer_key none generated = returned generated
    peer_key (some key) generated = if is_empty key then returned generated else validate_key o key

    unfoldable pub create_vpn_peer : VpnPeerCreate → Handler VpnPeerEnrollment
    create_vpn_peer body = do
      require_role p ("tenant_admin" ∷ [])
      network ← get_vpn_network p.tenant_id
      address ← lift (unprocessable (address_belongs o network.address_cidr body.address))
      wanted ←
          lift
            (unprocessable (routes_or_network o (or_else body.allowed_ips "") network.address_cidr))
      allowed_ips ← lift (unprocessable (normalize_allowed_ips o wanted))
      (client_private, generated_public) ← reraise unprocessable (generate_keypair o)
      peer_public ← lift (unprocessable (peer_key body.public_key generated_public))
      id ← new_id o
      created ← now o
      let peer : VpnPeer = record {
        id = id;
        tenant_id = p.tenant_id;
        network_id = network.id;
        name = strip body.name;
        public_key = peer_public;
        address = address;
        allowed_ips = allowed_ips;
        persistent_keepalive = body.persistent_keepalive;
        enabled = true;
        created_at = created;
        revoked_at = none;
      }
      except_integrity (insert Kind.peers peer)
          (do rollback; raise (http 409 "peer key or address already exists"))
      audit o p "vpn.peer.created" "vpn_peer" id (("address", text address) ∷ [])
      sync_vpn network
      commit
      config ←
          if is_none body.public_key && has_server_key
          then (do
            server_public ← lift (public_key o settings.wireguard_private_key)
            config ←
                lift
                  (render_client_config o network client_private address server_public allowed_ips)
            pure (some config))
          else pure none
      pure (record { peer = peer; client_config = config })

    unfoldable pub select_peer : String → Handler VpnPeer
    select_peer peer_id =
        select_or (http 404 "VPN peer not found") Kind.peers
          (λ q. q.tenant_id == p.tenant_id && q.id == peer_id)

    unfoldable pub update_vpn_peer_routes : String → String → Handler VpnPeer
    update_vpn_peer_routes peer_id routes = do
      require_role p ("tenant_admin" ∷ [])
      peer ← select_peer peer_id
      allowed_ips ← lift (unprocessable (normalize_allowed_ips o routes))
      let changed : VpnPeer = record peer { allowed_ips = allowed_ips }
      save Kind.peers changed
      audit o p "vpn.peer.routes.updated" "vpn_peer" peer.id
          (("allowed_ips", text allowed_ips) ∷ [])
      network ← get_vpn_network p.tenant_id
      sync_vpn network
      commit
      pure changed

    unfoldable pub revoke_vpn_peer : String → Handler (Unit {0})
    revoke_vpn_peer peer_id = do
      require_role p ("tenant_admin" ∷ [])
      peer ← select_peer peer_id
      at ← now o
      save Kind.peers (record peer { enabled = false; revoked_at = some at })
      audit o p "vpn.peer.revoked" "vpn_peer" peer.id []
      network ← get_vpn_network p.tenant_id
      sync_vpn network
      commit
