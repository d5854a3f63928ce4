-- ===== src/Startup.antt =====
-- What src/g_one/main.py does to the runtime before the server answers: `restore_wireguard`.
use project_g_one.Prelude.{
  ◌≡◌, refl, ap, Bool, true, not, ◌&&◌, ◌||◌, Option, some, List, [], ◌∷◌, ◌==◌, ltb, sort_by,
  find_first, where_true, if◌then◌else◌, arith, all, Bool-cases, inl, inr,
}
use project_g_one.Outside.{Outside}
use project_g_one.Settings.{Settings}
use project_g_one.Models.{VpnNetwork, VpnPeer}
use project_g_one.Models.Tables.{Kind, Database}
use project_g_one.Session.{Handler, ◌>>=◌, pure, lift, select_all, on_option, start, reraise, World}
use project_g_one.Wireguard.Config.{render_server_config, apply_config}
use project_g_one.Api.Vpn.{has_server_key, sync_vpn, handle_os}

-- `select(VpnNetwork).order_by(VpnNetwork.updated_at.desc()).limit(1)`
unfoldable pub newest_network : List VpnNetwork → Option VpnNetwork
newest_network networks =
    find_first (λ n. true) (sort_by (λ a b. ltb b.updated_at a.updated_at) networks)

module _ (o : Outside) (settings : Settings) where
  unfoldable pub restore_network : VpnNetwork → Handler (Unit {0})
  restore_network network = do
    peers ← select_all Kind.peers (λ q. q.network_id == network.id)
    config ← lift (render_server_config o network peers settings.wireguard_private_key)
    apply_config o config settings

  unfoldable pub restore_wireguard : Handler (Unit {0})
  restore_wireguard = if not (has_server_key o settings) then pure tt else do
    networks ← select_all Kind.networks (λ n. true)
    on_option (newest_network networks) (pure tt) restore_network

-- `FOREIGN KEY (tenant_id, network_id)`, for the peers of one network
abbrev pub is_own_peer : VpnNetwork → VpnPeer → Bool
is_own_peer n q = not (q.network_id == n.id) || q.tenant_id == n.tenant_id

own_peers :
    (n : VpnNetwork) (qs : List VpnPeer)
    → all (is_own_peer n) qs ≡ true
    → where_true (λ (q : VpnPeer). q.network_id == n.id) qs
      ≡ where_true (λ (q : VpnPeer). q.tenant_id == n.tenant_id && q.network_id == n.id) qs
own_peers n [] h = refl
own_peers n (q ∷ qs) h = let rest = own_peers n qs (ground (arith, h)) in ground (arith, rest, h)

every_row : (ns : List VpnNetwork) → where_true (λ (n : VpnNetwork). true) ns ≡ ns
every_row [] = refl
every_row (n ∷ ns) = ap (λ rest. n ∷ rest) (every_row ns)

module _ (o : Outside) (settings : Settings) where
  applied_alike :
      (n : VpnNetwork) (w : World) (peers : List VpnPeer)
      → ((lift (render_server_config o n peers settings.wireguard_private_key) >>= λ config.
            apply_config o config settings)
          w).1.applied
        ≡ ((lift (render_server_config o n peers settings.wireguard_private_key) >>= λ config.
              reraise handle_os (apply_config o config settings))
            w).1.applied
  unfolding ◌>>=◌ lift reraise pure
  applied_alike n w peers = ground (arith)

  -- After a restart the runtime gets what `sync_vpn` gives it for the network that changed last,
  -- where the foreign key of its peers holds.
  pub restore_wireguard-sync_vpn :
      (n : VpnNetwork) (db : Database)
      → newest_network (db.rows Kind.networks) ≡ some n
      → all (is_own_peer n) (db.rows Kind.peers) ≡ true
      → (restore_wireguard o settings (start db)).1.applied
        ≡ (sync_vpn o settings n (start db)).1.applied
  unfolding restore_wireguard restore_network sync_vpn start ◌>>=◌ select_all lift reraise pure
  restore_wireguard-sync_vpn n db newest own = elim (Bool-cases (has_server_key o settings)) [
    | inl key ↦
        rw (key, every_row (db.rows Kind.networks), newest, own_peers n (db.rows Kind.peers) own)
          (applied_alike n (start db) _)
    | inr key ↦ rw key refl
  ]
