-- ===== src/Wireguard/Power.antt =====
-- The inverse of `public_key` of src/g_one/wireguard.py: `pow(z_2, p - 2, p)`.
use project_g_one.Prelude.{
  ◌≡◌, ◌≢◌, sym, ◌∙◌, ap, ℕ, zero, suc, ◌+◌, ◌-◌, ◌*◌, ◌/◌, ◌%◌, ◌^◌, ◌<◌, arith,
}
use mathlib.Core.Path.{subst}
use native.Mathlib.Nat.{pow-zero, pow-suc, mul_comm, mul_assoc, add-mul-mod_self_left, div-add-mod'}
use project_g_one.Wireguard.Curve.{
  Ladder, p, pow_mod, ladder_result, ladder_start, rounds, multiply_base, exchange,
}
use project_g_one.Wireguard.Ladder.{off, settled, plain_rounds, rounds-settled}

quotient_times : (q m r b : ℕ) → (q * m + r) * b ≡ r * b + m * (q * b)
quotient_times q m r b = omega arith

mul-mod : (a b m : ℕ) → a * b % m ≡ a % m * b % m
mul-mod a b m =
    ap (λ (x : ℕ). x * b % m) (sym (div-add-mod' a m))
    ∙ ap (λ (x : ℕ). x % m) (quotient_times (a / m) m (a % m) b)
    ∙ add-mul-mod_self_left (a % m * b) m (a / m * b)

-- A factor may be reduced first.
mul-mod_right_lem : (a b m : ℕ) → a * b % m ≡ a * (b % m) % m
mul-mod_right_lem a b m =
    ap (λ (x : ℕ). x % m) (mul_comm a b)
    ∙ mul-mod b a m
    ∙ ap (λ (x : ℕ). x % m) (mul_comm (b % m) a)

-- So may the base of a power.
pow-mod_lem : (a m n : ℕ) → a ^ n % m ≡ (a % m) ^ n % m
pow-mod_lem a m zero = ap (λ (x : ℕ). x % m) (pow-zero a ∙ sym (pow-zero (a % m)))
pow-mod_lem a m (suc n) =
    ap (λ (x : ℕ). x % m) (pow-suc a n)
    ∙ mul-mod (a ^ n) a m
    ∙ ap (λ (x : ℕ). x * a % m) (pow-mod_lem a m n)
    ∙ sym (mul-mod ((a % m) ^ n) a m)
    ∙ mul-mod_right_lem ((a % m) ^ n) a m
    ∙ ap (λ (x : ℕ). x % m) (sym (pow-suc (a % m) n))

square-pow : (a n : ℕ) → (a * a) ^ n ≡ a ^ (2 * n)
square-pow a zero = pow-zero (a * a) ∙ sym (pow-zero a) ∙ ap (λ (x : ℕ). a ^ x) (omega arith)
square-pow a (suc n) =
    pow-suc (a * a) n
    ∙ ap (λ (x : ℕ). x * (a * a)) (square-pow a n)
    ∙ sym (mul_assoc (a ^ (2 * n)) a a)
    ∙ ap (λ (x : ℕ). x * a) (sym (pow-suc a (2 * n)))
    ∙ sym (pow-suc a (suc (2 * n)))
    ∙ ap (λ (x : ℕ). a ^ x) (omega arith)

power_empty : (b e m : ℕ) → e ≡ 0 → 1 % m ≡ b ^ e % m
power_empty b e m h = ap (λ (x : ℕ). x % m) (sym (ap (λ (x : ℕ). b ^ x) h ∙ pow-zero b))

power_even : (b e m : ℕ) → e % 2 ≡ 0 → b ^ (2 * (e / 2)) % m ≡ b ^ e % m
power_even b e m h = ap (λ (x : ℕ). b ^ x % m) (omega arith)

power_odd : (b e m : ℕ) → e % 2 ≢ 0 → b * (b ^ (2 * (e / 2)) % m) % m ≡ b ^ e % m
power_odd b e m h =
    sym (mul-mod_right_lem b (b ^ (2 * (e / 2))) m)
    ∙ ap (λ (x : ℕ). x % m) (mul_comm b (b ^ (2 * (e / 2))) ∙ sym (pow-suc b (2 * (e / 2))))
    ∙ ap (λ (x : ℕ). b ^ x % m) (omega arith)

pow_mod-suc :
    (fuel b e m : ℕ)
    → pow_mod fuel (b * b % m) (e / 2) m ≡ b ^ (2 * (e / 2)) % m
    → pow_mod (suc fuel) b e m ≡ b ^ e % m
unfolding pow_mod
pow_mod-suc fuel b e m half =
    ground (arith, power_empty b e m, power_even b e m, power_odd b e m, half)

half_bound : (e n : ℕ) → e < 2 ^ suc n → e / 2 < 2 ^ n
half_bound e n h = let h' : e < 2 ^ n * 2 = subst (λ (x : ℕ). e < x) (pow-suc 2 n) h in omega arith

-- Squaring computes the power, where the fuel covers the bits of the exponent.
pow_mod-power :
    (fuel base exponent modulus : ℕ)
    → exponent < 2 ^ fuel
    → pow_mod fuel base exponent modulus ≡ base ^ exponent % modulus
unfolding pow_mod
pow_mod-power zero base exponent modulus h = power_empty base exponent modulus (omega arith)
pow_mod-power (suc fuel) base exponent modulus h = pow_mod-suc fuel base exponent modulus (
    pow_mod-power fuel (base * base % modulus) (exponent / 2) modulus (half_bound exponent fuel h)
    ∙ sym (pow-mod_lem (base * base) modulus (exponent / 2))
    ∙ ap (λ (x : ℕ). x % modulus) (square-pow base (exponent / 2)))

-- The quotient of the coordinates, with the inverse as a power.
abbrev pub quotient : Ladder → ℕ
quotient s = s.x_2 * (s.z_2 ^ (p - 2) % p) % p

result-settled : (s : Ladder) → ladder_result s ≡ quotient (settled s)
unfolding ladder_result settled
result-settled s =
    ap (λ (x : ℕ). (exchange s).x_2 * x % p)
      (pow_mod-power 255 (exchange s).z_2 (p - 2) p (omega arith))

-- For every scalar, the x-coordinate that `public_key` encodes is the quotient of the coordinates
-- of the ladder that exchanges before and after every round.
pub multiply_base-plain :
    (value : ℕ) → multiply_base value ≡ quotient (plain_rounds 9 value 255 (ladder_start 9))
unfolding multiply_base settled
multiply_base-plain value =
    result-settled (rounds 9 value 255 (ladder_start 9))
    ∙ ap quotient (rounds-settled 9 value 255 (ladder_start 9) off)
