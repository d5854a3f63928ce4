-- ===== src/Wireguard/Config.antt =====
-- Key pairs and the texts of configurations: `generate_keypair`, `render_server_config`,
-- `render_client_config` and `apply_config` of src/g_one/wireguard.py.
use Prim.Native.String.{◌++◌}
use project_g_one.Prelude.{String, not, List, [], ◌∷◌, Option, none, some, nat_eq, if◌then◌else◌}
use mathlib.Core.List.{◌++◌ as ◌+++◌}
use project_g_one.Text.{is_empty}
use project_g_one.Text.Lines.{join, str}
use project_g_one.Outside.{Outside, Interface}
use project_g_one.Settings.{Settings}
use project_g_one.Models.{VpnNetwork, VpnPeer}
use project_g_one.Session.{
  Outcome, returned, raised, value_error, os_error, Handler, ◌>>=◌, ◌>>◌, pure, lift, read,
  raise_if, log_applied,
}
use project_g_one.Wireguard.Curve.{validate_key, public_key}

-- `f"{interface.network}"` stands in the two commands of an IPv4 server.
abbrev post_up : String → String
post_up network =
    "PostUp = iptables -A FORWARD -i %i -j ACCEPT; "
    ++ "iptables -A FORWARD -o %i -m conntrack --ctstate RELATED,ESTABLISHED -j ACCEPT; "
    ++ "iptables -t nat -A POSTROUTING -s " ++ network ++ " -j MASQUERADE"

abbrev post_down : String → String
post_down network =
    "PostDown = iptables -D FORWARD -i %i -j ACCEPT; "
    ++ "iptables -D FORWARD -o %i -m conntrack --ctstate RELATED,ESTABLISHED -j ACCEPT; "
    ++ "iptables -t nat -D POSTROUTING -s " ++ network ++ " -j MASQUERADE"

-- The section of one peer.
unfoldable pub peer_lines : VpnPeer → List String
unfolding str
peer_lines peer =
    ""
    ∷ "[Peer]"
    ∷ ("# " ++ peer.name)
    ∷ ("PublicKey = " ++ peer.public_key)
    ∷ ("AllowedIPs = " ++ peer.address)
    ∷ (if nat_eq peer.persistent_keepalive 0
        then []
        else ("PersistentKeepalive = " ++ str peer.persistent_keepalive) ∷ [])

-- The sections of the peers that are enabled.
unfoldable pub peers_lines : List VpnPeer → List String
unfolding peer_lines
peers_lines [] = []
peers_lines (peer ∷ peers) =
    let rest = peers_lines peers in if peer.enabled then peer_lines peer +++ rest else rest

abbrev pub dns_lines : Option String → List String
dns_lines none = []
dns_lines (some dns) = if is_empty dns then [] else ("DNS = " ++ dns) ∷ []

abbrev pub and_then : {A B : Type 0} → Outcome A → (A → Outcome B) → Outcome B
and_then (returned a) f = f a
and_then (raised e) f = raised e

module _ (o : Outside) where
  unfoldable pub interface_lines : VpnNetwork → Interface → String → List String
  unfolding str
  interface_lines network interface private_key =
      "[Interface]"
      ∷ ("PrivateKey = " ++ private_key)
      ∷ ("Address = " ++ network.address_cidr)
      ∷ ("ListenPort = " ++ str network.listen_port)
      ∷ (if nat_eq interface.version 4
          then post_up (o.str_network interface) ∷ post_down (o.str_network interface) ∷ []
          else [])

  abbrev pub server_text : VpnNetwork → List VpnPeer → String → Option Interface → Outcome String
  server_text network peers private_key none =
      raised (value_error (o.interface_error network.address_cidr))
  server_text network peers private_key (some interface) =
      returned
        (join "\n" (interface_lines network interface private_key +++ peers_lines peers) ++ "\n")

  unfoldable pub render_server_config : VpnNetwork → List VpnPeer → String → Outcome String
  unfolding validate_key interface_lines peers_lines join
  render_server_config network peers private_key =
      and_then (validate_key o private_key)
        λ _. server_text network peers private_key (o.ip_interface network.address_cidr)

  abbrev pub interface_text : String → Option Interface → Outcome String
  interface_text cidr none = raised (value_error (o.interface_error cidr))
  interface_text cidr (some interface) = returned (o.str_network interface)

  -- `ipaddress.ip_interface(cidr).network` as a text
  unfoldable pub network_text : String → Outcome String
  network_text cidr = interface_text cidr (o.ip_interface cidr)

  unfoldable pub client_text : VpnNetwork → String → String → String → String → String
  unfolding str join is_empty
  client_text network private_key address server_public_key vpn_routes =
      join "\n" (
        ("[Interface]" ∷ ("PrivateKey = " ++ private_key) ∷ ("Address = " ++ address) ∷ [])
        +++ dns_lines network.dns
        +++ (""
            ∷ "[Peer]"
            ∷ ("PublicKey = " ++ server_public_key)
            ∷ ("Endpoint = " ++ network.endpoint ++ ":" ++ str network.listen_port)
            ∷ ("AllowedIPs = " ++ vpn_routes)
            ∷ "PersistentKeepalive = 25"
            ∷ []))
      ++ "\n"

  -- `allowed_ips or str(ipaddress.ip_interface(network.address_cidr).network)`
  unfoldable pub routes_or_network : String → String → Outcome String
  unfolding network_text is_empty
  routes_or_network allowed_ips cidr =
      if is_empty allowed_ips then network_text cidr else returned allowed_ips

  unfoldable pub render_client_config :
      VpnNetwork → String → String → String → String → Outcome String
  unfolding client_text routes_or_network
  render_client_config network private_key address server_public_key allowed_ips =
      and_then (routes_or_network allowed_ips network.address_cidr) λ vpn_routes.
        returned (client_text network private_key address server_public_key vpn_routes)

  -- A fresh private key and its public key.
  unfoldable pub generate_keypair : Handler (String × String)
  generate_keypair = do
    raw ← read o.token_bytes
    let private = o.b64encode raw
    public ← lift (public_key o private)
    pure (private, public)

  -- The file is written and `wg-quick` restarted, unless the settings say that nothing is applied.
  unfoldable pub apply_config : String → Settings → Handler (Unit {0})
  apply_config config settings =
      if not settings.wireguard_apply
      then pure tt
      else do log_applied config; success ← read o.wg_quick; raise_if (not success) os_error
