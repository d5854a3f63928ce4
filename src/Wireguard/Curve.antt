-- ===== src/Wireguard/Curve.antt =====
-- X25519 as `public_key` of src/g_one/wireguard.py computes it: keys, the Montgomery ladder with its
-- deferred swaps, and the inverse by a power.
use project_g_one.Prelude.{
  ◌≡◌, refl, ℕ, zero, suc, ◌+◌, ◌-◌, ◌*◌, ◌/◌, ◌%◌, ◌^◌, String, List, [], ◌∷◌, Option, none, some,
  nat_eq, if◌then◌else◌, length,
}
use project_g_one.Outside.{Outside}
use project_g_one.Session.{Outcome, returned, raised, value_error}

abbrev pub p : ℕ
p = 2 ^ 255 - 19

-- The variables of the loop. `swap` is 0 or 1.
pub record Ladder : Type 0 where
  pub x_2 : ℕ
  pub z_2 : ℕ
  pub x_3 : ℕ
  pub z_3 : ℕ
  pub swap : ℕ

-- `(a - b) % p` on Python's integers
unfoldable pub sub_mod : ℕ → ℕ → ℕ
sub_mod a b = (a % p + (p - b % p)) % p

-- `if swap: x_2, x_3, z_2, z_3 = x_3, x_2, z_3, z_2`
unfoldable pub exchange : Ladder → Ladder
exchange s =
    if nat_eq s.swap 0 then s else record s { x_2 = s.x_3; z_2 = s.z_3; x_3 = s.x_2; z_3 = s.z_2 }

-- The arithmetic of one round.
unfoldable pub ladder_step : ℕ → Ladder → Ladder
unfolding sub_mod
ladder_step x_1 s =
    let a = (s.x_2 + s.z_2) % p in
    let aa = (s.x_2 + s.z_2) ^ 2 % p in
    let b = sub_mod s.x_2 s.z_2 in
    let bb = sub_mod s.x_2 s.z_2 ^ 2 % p in
    let e = sub_mod aa bb in
    let c = (s.x_3 + s.z_3) % p in
    let d = sub_mod s.x_3 s.z_3 in
    let da = d * a % p in
    let cb = c * b % p in
    record s {
      x_2 = aa * bb % p;
      z_2 = e * (aa + 121665 * e) % p;
      x_3 = (da + cb) ^ 2 % p;
      z_3 = x_1 * (sub_mod da cb ^ 2) % p;
    }

-- `value >> position & 1`
unfoldable pub bit_at : ℕ → ℕ → ℕ
bit_at value position = value / 2 ^ position % 2

-- `swap ^= bit` on bits
unfoldable pub xor_bit : ℕ → ℕ → ℕ
xor_bit a b = (a + b) % 2

-- One round: `swap ^= bit`, the exchange, `swap = bit`, the arithmetic.
unfoldable pub round : ℕ → ℕ → Ladder → Ladder
unfolding exchange ladder_step xor_bit
round x_1 bit s =
    ladder_step x_1 (record (exchange (record s { swap = xor_bit s.swap bit })) { swap = bit })

-- `for position in range(n - 1, -1, -1)`
unfoldable pub rounds : ℕ → ℕ → ℕ → Ladder → Ladder
unfolding round bit_at
rounds x_1 value zero s = s
rounds x_1 value (suc n) s = rounds x_1 value n (round x_1 (bit_at value n) s)

abbrev pub ladder_start : ℕ → Ladder
ladder_start x_1 = record { x_2 = 1; z_2 = 0; x_3 = x_1; z_3 = 1; swap = 0 }

-- `pow(base, exponent, modulus)` by squaring, with fuel for the bits of the exponent
unfoldable pub pow_mod : ℕ → ℕ → ℕ → ℕ → ℕ
pow_mod zero base exponent modulus = 1 % modulus
pow_mod (suc fuel) base exponent modulus =
    let half = pow_mod fuel (base * base % modulus) (exponent / 2) modulus in
    if nat_eq exponent 0
    then 1 % modulus
    else if nat_eq (exponent % 2) 0
    then half
    else base * half % modulus

-- The x-coordinate after the last round.
unfoldable pub ladder_result : Ladder → ℕ
unfolding exchange pow_mod
ladder_result s = let t = exchange s in t.x_2 * pow_mod 255 t.z_2 (p - 2) p % p

unfoldable pub multiply_base : ℕ → ℕ
unfolding rounds ladder_result
multiply_base value = ladder_result (rounds 9 value 255 (ladder_start 9))

-- `int.from_bytes(bytes, "little")` and `value.to_bytes(n, "little")`
unfoldable pub from_bytes : List ℕ → ℕ
from_bytes [] = 0
from_bytes (b ∷ bs) = b + 256 * from_bytes bs

unfoldable pub to_bytes : ℕ → ℕ → List ℕ
to_bytes zero value = []
to_bytes (suc n) value = value % 256 ∷ to_bytes n (value / 256)

-- `scalar[0] &= 248`, `scalar[31] &= 127`, `scalar[31] |= 64` on a byte
unfoldable pub clamp_low : ℕ → ℕ
clamp_low b = b / 8 * 8

unfoldable pub clamp_high : ℕ → ℕ
clamp_high b = b % 64 + 64

unfoldable pub clamp_last : ℕ → List ℕ → List ℕ
unfolding clamp_high
clamp_last n [] = []
clamp_last zero (b ∷ bs) = clamp_high b ∷ bs
clamp_last (suc n) (b ∷ bs) = b ∷ clamp_last n bs

unfoldable pub clamp : List ℕ → List ℕ
unfolding clamp_low clamp_last
clamp [] = []
clamp (b ∷ bs) = clamp_low b ∷ clamp_last 30 bs

module _ (o : Outside) where
  -- The bytes of a valid key.
  abbrev pub check_length : Option (List ℕ) → Outcome (List ℕ)
  check_length none = raised (value_error "WireGuard key must be valid base64")
  check_length (some raw) =
      if nat_eq (length raw) 32
      then returned raw
      else raised (value_error "WireGuard key must contain 32 bytes")

  abbrev pub when_valid : {A : Type 0} → Outcome (List ℕ) → (List ℕ → A) → Outcome A
  when_valid (returned raw) f = returned (f raw)
  when_valid (raised e) f = raised e

  unfoldable pub validate_key : String → Outcome String
  validate_key value = when_valid (check_length (o.b64decode value)) (λ _. value)

  unfoldable pub public_key : String → Outcome String
  unfolding multiply_base from_bytes to_bytes clamp
  public_key private_key =
      when_valid (check_length (o.b64decode private_key))
        λ raw. o.b64encode (to_bytes 32 (multiply_base (from_bytes (clamp raw))))

-- The keys of the first party of RFC 7748, section 6.1, as numbers.
abbrev first_private : ℕ
first_private = 0x2a2cb91da5fb77b12a99c0eb872f4cdf4566b25172c1163c7da518730a6d0777

abbrev first_public : ℕ
first_public = 0x6a4e9baa8ea9a4ebf41a38260d3abf0d5af73eb4dc7d8b7454a7308909f02085

rfc_7748 : multiply_base (from_bytes (clamp (to_bytes 32 first_private))) ≡ first_public
unfolding multiply_base from_bytes clamp to_bytes
rfc_7748 = refl
