-- ===== src/Wireguard/Routes.antt =====
-- Client routes and addresses: `normalize_allowed_ips` and `address_belongs` of
-- src/g_one/wireguard.py.
use project_g_one.Prelude.{
  ℕ, ◌-◌, ◌/◌, ◌^◌, String, Bool, not, ◌&&◌, ◌||◌, List, [], ◌∷◌, Option, none, some, ltb, nat_eq,
  if◌then◌else◌, length,
}
use mathlib.Core.Option
use project_g_one.Text.Lines.{split_on, stripped, from_keys, join}
use project_g_one.Outside.{Outside, Interface}
use project_g_one.Session.{Outcome, returned, raised, value_error}

-- The number of bits of an address.
abbrev pub bits : Interface → ℕ
bits i = if nat_eq i.version 4 then 32 else 128

-- `ip in interface.network`
unfoldable pub in_network : Interface → Interface → Bool
in_network i network =
    nat_eq i.version network.version
    && nat_eq (i.ip / 2 ^ (bits network - network.prefix_length))
        (network.ip / 2 ^ (bits network - network.prefix_length))

-- `interface.ip == other.ip`
unfoldable pub same_ip : Interface → Interface → Bool
same_ip i j = nat_eq i.version j.version && nat_eq i.ip j.ip

-- A list with one more item, if both are there.
abbrev pub cons_some : Option String → Option (List String) → Option (List String)
cons_some (some r) (some rs) = some (r ∷ rs)
cons_some (some r) none = none
cons_some none rs = none

abbrev pub join_routes : Option (List String) → Outcome String
join_routes none = raised (value_error "routes must be valid IPv4 or IPv6 CIDR values")
join_routes (some normalized) = returned (join ", " (from_keys normalized))

module _ (o : Outside) where
  abbrev pub belongs : String → String → Option Interface → Option Interface → Outcome String
  belongs network_cidr address none _ = raised (value_error (o.interface_error network_cidr))
  belongs network_cidr address (some network) none =
      raised (value_error (o.interface_error address))
  belongs network_cidr address (some network) (some interface) =
      if not (in_network interface network) || same_ip interface network
      then raised (value_error "peer address must be an unused host in the VPN network")
      else returned (o.str_interface interface)

  -- `[str(ipaddress.ip_network(route, strict=False)) for route in routes]`
  unfoldable pub networks : List String → Option (List String)
  networks [] = some []
  networks (r ∷ rs) = cons_some (Option.map o.str_network (o.ip_network r)) (networks rs)

  -- Validate and normalize a comma-separated WireGuard client route list.
  unfoldable pub normalize_allowed_ips : String → Outcome String
  unfolding networks
  normalize_allowed_ips value =
      let routes = stripped (split_on 44 value) in
      if nat_eq (length routes) 0
      then raised (value_error "at least one route is required")
      else if ltb 32 (length routes)
      then raised (value_error "no more than 32 routes are allowed")
      else join_routes (networks routes)

  unfoldable pub address_belongs : String → String → Outcome String
  unfolding in_network same_ip
  address_belongs network_cidr address =
      belongs network_cidr address (o.ip_interface network_cidr) (o.ip_interface address)
