-- ===== src/Api/Selects.antt =====
-- The named queries of the handlers, with what they say of the row that they find: rules for
-- invariants of any kind.
use project_g_one.Prelude.{String, true, ◌≡◌, ◌==◌, ◌&&◌, Option, none, some}
use project_g_one.Outside.{Outside}
use project_g_one.Settings.{Settings}
use project_g_one.Models.{SupportRequest, FileServer, ClientDeploymentProfile, VpnNetwork, VpnPeer}
use project_g_one.Models.Tables.{Kind, Database}
use project_g_one.Auth.{Principal}
use project_g_one.Session.{Handler, ◌>>=◌, select_first, select_or}
use project_g_one.Session.Keeps.{
  Keeps, Keeps-bind-select_or, Keeps-bind-select_first, Keeps-select_first, Keeps-select_or,
}
use project_g_one.Api.Support.{get_support_request, target_device}
use project_g_one.Api.Files.{select_file_server}
use project_g_one.Api.Deployments.{select_profile}
use project_g_one.Api.Vpn.{select_peer, get_vpn_network, own_network}
use project_g_one.Api.Client.{active_user}

module _ {ℓ} {P : Database → Database → Type ℓ} (o : Outside) (p : Principal) where
  pub Keeps-target_device : (request : SupportRequest) → Keeps P (target_device o p request)
  unfolding target_device select_first
  Keeps-target_device request = record { at = λ w h. h }

module _ {ℓ} {B : Type 0} {P : Database → Database → Type ℓ} (o : Outside) (p : Principal) where
  pub Keeps-bind-get_support_request :
      (id : String) (f : SupportRequest → Handler B)
      → ((r : SupportRequest) → (r.tenant_id == p.tenant_id && r.id == id) ≡ true → Keeps P (f r))
      → Keeps P (get_support_request o p id >>= f)
  unfolding get_support_request
  Keeps-bind-get_support_request id f kf = Keeps-bind-select_or Kind.support_requests _ _ f kf

  pub Keeps-bind-select_file_server :
      (id : String) (f : FileServer → Handler B)
      → ((r : FileServer)
          → (r.tenant_id == p.tenant_id && (r.id == id && r.enabled)) ≡ true
          → Keeps P (f r))
      → Keeps P (select_file_server o p id >>= f)
  unfolding select_file_server
  Keeps-bind-select_file_server id f kf = Keeps-bind-select_or Kind.file_servers _ _ f kf

  pub Keeps-bind-select_profile :
      (id : String) (f : ClientDeploymentProfile → Handler B)
      → ((r : ClientDeploymentProfile)
          → (r.tenant_id == p.tenant_id && (r.id == id && r.enabled)) ≡ true
          → Keeps P (f r))
      → Keeps P (select_profile o p id >>= f)
  unfolding select_profile
  Keeps-bind-select_profile id f kf = Keeps-bind-select_or Kind.profiles _ _ f kf

module _ {ℓ} {B : Type 0} {P : Database → Database → Type ℓ} (o : Outside) (settings : Settings)
    (p : Principal) where
  pub Keeps-bind-select_peer :
      (id : String) (f : VpnPeer → Handler B)
      → ((r : VpnPeer) → (r.tenant_id == p.tenant_id && r.id == id) ≡ true → Keeps P (f r))
      → Keeps P (select_peer o settings p id >>= f)
  unfolding select_peer
  Keeps-bind-select_peer id f kf = Keeps-bind-select_or Kind.peers _ _ f kf

  pub Keeps-bind-own_network :
      (f : Option VpnNetwork → Handler B)
      → Keeps P (f none)
      → ((r : VpnNetwork) → (r.tenant_id == p.tenant_id) ≡ true → Keeps P (f (some r)))
      → Keeps P (own_network o settings p >>= f)
  unfolding own_network
  Keeps-bind-own_network f kn kf = Keeps-bind-select_first Kind.networks _ f kn kf

module _ {ℓ} {P : Database → Database → Type ℓ} (o : Outside) (settings : Settings) where
  pub Keeps-get_vpn_network : (tenant_id : String) → Keeps P (get_vpn_network o settings tenant_id)
  unfolding get_vpn_network select_or
  Keeps-get_vpn_network tenant_id = record { at = λ w h. h }

module _ {ℓ} {P : Database → Database → Type ℓ} (o : Outside) (settings : Settings)
    (p : Principal) where
  pub Keeps-active_user : Keeps P (active_user o settings p)
  unfolding active_user select_first
  Keeps-active_user = record { at = λ w h. h }

-- The queries as steps whose row does not matter.
module _ {ℓ} {P : Database → Database → Type ℓ} where
  pub Keeps-get_support_request :
      (o : Outside) (p : Principal) (id : String) → Keeps P (get_support_request o p id)
  unfolding get_support_request select_or
  Keeps-get_support_request o p id = record { at = λ w h. h }

  pub Keeps-select_file_server :
      (o : Outside) (p : Principal) (id : String) → Keeps P (select_file_server o p id)
  unfolding select_file_server select_or
  Keeps-select_file_server o p id = record { at = λ w h. h }

  pub Keeps-select_profile :
      (o : Outside) (p : Principal) (id : String) → Keeps P (select_profile o p id)
  unfolding select_profile select_or
  Keeps-select_profile o p id = record { at = λ w h. h }

  pub Keeps-select_peer :
      (o : Outside) (settings : Settings) (p : Principal) (id : String)
      → Keeps P (select_peer o settings p id)
  unfolding select_peer select_or
  Keeps-select_peer o settings p id = record { at = λ w h. h }

  pub Keeps-own_network :
      (o : Outside) (settings : Settings) (p : Principal) → Keeps P (own_network o settings p)
  unfolding own_network select_first
  Keeps-own_network o settings p = record { at = λ w h. h }

pub ruleset select_rules = (
  Keeps-target_device, Keeps-bind-get_support_request, Keeps-bind-select_file_server,
  Keeps-bind-select_profile, Keeps-bind-select_peer, Keeps-bind-own_network, Keeps-get_vpn_network,
  Keeps-active_user,
)

pub ruleset query_rules = (
  Keeps-select_or, Keeps-select_first, Keeps-get_support_request, Keeps-select_file_server,
  Keeps-select_profile, Keeps-select_peer, Keeps-own_network, Keeps-target_device,
  Keeps-get_vpn_network, Keeps-active_user,
)
