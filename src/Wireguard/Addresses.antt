-- ===== src/Wireguard/Addresses.antt =====
-- Which addresses a peer may have: `address_belongs` of src/g_one/wireguard.py.
use project_g_one.Prelude.{
  ◌≡◌, ◌≢◌, refl, sym, ◌∙◌, ap, ℕ, zero, suc, ◌+◌, ◌-◌, ◌*◌, ◌/◌, ◌%◌, ◌^◌, ◌≤◌, ◌<◌, String, true,
  false, Option, none, some, arith,
}
use mathlib.Core.Path.{subst}
use native.Mathlib.Nat.{pow-suc, div-add-mod', mod-lt}
use project_g_one.Outside.{Outside, Interface}
use project_g_one.Session.{returned}
use project_g_one.Wireguard.Routes.{bits, in_network, same_ip, address_belongs}

-- The number of addresses of the network of an interface, and the first of them.
abbrev pub network_size : Interface → ℕ
network_size network = 2 ^ (bits network - network.prefix_length)

abbrev pub first_address : Interface → ℕ
first_address network = network.ip / network_size network * network_size network

-- The address is in the network's range, and it is not the address of the server.
abbrev pub IsFreeHost : Outside → String → String → Type 0
IsFreeHost o cidr address =
    (network : Interface) × (interface : Interface) × (o.ip_interface cidr ≡ some network)
    × (o.ip_interface address ≡ some interface)
    × (interface.version ≡ network.version)
    × (first_address network ≤ interface.ip)
    × (interface.ip < first_address network + network_size network)
    × (interface.ip ≢ network.ip)

power_positive : (n : ℕ) → 0 < 2 ^ n
power_positive zero = omega arith
power_positive (suc n) =
    let positive = power_positive n in
    let doubled : 0 < 2 ^ n * 2 = omega arith in
    subst (λ (x : ℕ). 0 < x) (sym (pow-suc 2 n)) doubled

inside_range :
    (interface network : Interface)
    → in_network interface network ≡ true
    → (interface.version ≡ network.version)
      × (interface.ip / network_size network ≡ network.ip / network_size network)
unfolding in_network
inside_range interface network h = (ground (arith), ground (arith))

other_address :
    (interface network : Interface)
    → interface.version ≡ network.version
    → same_ip interface network ≡ false
    → interface.ip ≢ network.ip
unfolding same_ip
other_address interface network same h = ground (arith)

block_bounds : (a b s : ℕ) → 0 < s → a / s ≡ b / s → (b / s * s ≤ a) × (a < b / s * s + s)
block_bounds a b s positive same =
    let split : b / s * s + a % s ≡ a =
      ap (λ (q : ℕ). q * s + a % s) (sym same) ∙ div-add-mod' a s in
    let small : a % s < s = mod-lt a positive in (omega arith, omega arith)

-- An address that is accepted reads as one between the first and the last address of the server's
-- network, of the same version, and other than the server's own.
pub address_belongs-IsFreeHost :
    (o : Outside) (cidr address reply : String)
    → address_belongs o cidr address ≡ returned reply
    → IsFreeHost o cidr address
unfolding address_belongs
address_belongs-IsFreeHost o cidr address reply h =
    free (o.ip_interface cidr) refl (o.ip_interface address) refl
  where
    free :
        (x : Option Interface)
        → o.ip_interface cidr ≡ x
        → (y : Option Interface) → o.ip_interface address ≡ y
        → IsFreeHost o cidr address
    free none ex y ey = ground (arith)
    free (some network) ex none ey = ground (arith)
    free (some network) ex (some interface) ey =
        let inside : in_network interface network ≡ true = ground (arith) in
        let other : same_ip interface network ≡ false = ground (arith) in
        let (version, block) = inside_range interface network inside in
        let (low, high) =
          block_bounds interface.ip network.ip (network_size network) (power_positive _) block in
        (
          network,
          interface,
          ex,
          ey,
          version,
          low,
          high,
          other_address interface network version other,
        )
