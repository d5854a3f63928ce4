-- ===== src/Wireguard/Enabled.antt =====
-- Who stands in the server's configuration: `render_server_config` of src/g_one/wireguard.py.
use project_g_one.Prelude.{
  ◌≡◌, refl, ap, String, Option, none, some, List, [], ◌∷◌, arith, where_true,
}
use project_g_one.Outside.{Outside, Interface}
use project_g_one.Models.{VpnNetwork, VpnPeer}
use project_g_one.Session.{Outcome, returned}
use project_g_one.Text.Lines.{join}
use project_g_one.Wireguard.Curve.{validate_key}
use Prim.Native.String.{◌++◌}
use mathlib.Core.List.{◌++◌ as ◌+++◌}
use project_g_one.Wireguard.Config.{
  peers_lines, and_then, interface_lines, server_text, render_server_config,
}

-- The peers that are enabled.
abbrev pub enabled_peers : List VpnPeer → List VpnPeer
enabled_peers = where_true (λ peer. peer.enabled)

peers_lines-enabled_peers :
    (peers : List VpnPeer) → peers_lines (enabled_peers peers) ≡ peers_lines peers
unfolding peers_lines
peers_lines-enabled_peers [] = refl
peers_lines-enabled_peers (peer ∷ peers) = ground (arith, peers_lines-enabled_peers peers)

server_text-enabled_peers :
    (o : Outside) (network : VpnNetwork) (peers : List VpnPeer) (private_key : String)
    (found : Option Interface)
    → server_text o network (enabled_peers peers) private_key found
      ≡ server_text o network peers private_key found
unfolding interface_lines join
server_text-enabled_peers o network peers private_key none = refl
server_text-enabled_peers o network peers private_key (some interface) =
    ap
      (λ (lines : List String).
        returned (join "\n" (interface_lines o network interface private_key +++ lines) ++ "\n"))
      (peers_lines-enabled_peers peers)

-- The server's configuration is that of the enabled peers alone: what a disabled peer holds does
-- not change it.
pub render_server_config-enabled_peers :
    (o : Outside) (network : VpnNetwork) (peers : List VpnPeer) (private_key : String)
    → render_server_config o network (enabled_peers peers) private_key
      ≡ render_server_config o network peers private_key
unfolding render_server_config
render_server_config-enabled_peers o network peers private_key =
    ap (λ (text : Outcome String). and_then (validate_key o private_key) (λ _. text))
      (server_text-enabled_peers o network peers private_key (o.ip_interface network.address_cidr))
