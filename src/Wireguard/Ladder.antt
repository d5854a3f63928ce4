-- ===== src/Wireguard/Ladder.antt =====
-- The loop of `public_key` of src/g_one/wireguard.py against the ladder of RFC 7748 in its plain form:
-- each round exchanges by its own bit, before and after the arithmetic.
use project_g_one.Prelude.{◌≡◌, refl, ◌∙◌, ap, ℕ, zero, suc, ◌%◌, ◌<◌, nat_eq, if◌then◌else◌, arith}
use project_g_one.Wireguard.Curve.{Ladder, ladder_step, round, rounds, bit_at, exchange}

-- A number that is 0 or 1.
pub data IsBit : ℕ → Type 0 where
  off : IsBit 0
  on : IsBit 1

mod-IsBit : (n : ℕ) → IsBit (n % 2)
mod-IsBit n = at (n % 2) (omega arith)
  where
    at : (b : ℕ) → b < 2 → IsBit b
    at zero _ = off
    at (suc zero) _ = on
    at (suc (suc b)) h = let no : ⊥ = omega arith in elim no [ ]

-- The exchange by one bit.
unfoldable pub exchange_by : ℕ → Ladder → Ladder
exchange_by bit s =
    if nat_eq bit 0 then s else record s { x_2 = s.x_3; z_2 = s.z_3; x_3 = s.x_2; z_3 = s.z_2 }

unfoldable pub plain_round : ℕ → ℕ → Ladder → Ladder
unfolding exchange_by ladder_step
plain_round x_1 bit s = exchange_by bit (ladder_step x_1 (exchange_by bit s))

unfoldable pub plain_rounds : ℕ → ℕ → ℕ → Ladder → Ladder
unfolding plain_round bit_at
plain_rounds x_1 value zero s = s
plain_rounds x_1 value (suc n) s = plain_rounds x_1 value n (plain_round x_1 (bit_at value n) s)

-- The state with the exchange that is still to be made.
unfoldable pub settled : Ladder → Ladder
unfolding exchange
settled s = record (exchange s) { swap = 0 }

round-settled :
    (x_1 bit b x_2 z_2 x_3 z_3 : ℕ)
    → IsBit bit
    → IsBit b
    → (let s : Ladder = record { x_2 = x_2; z_2 = z_2; x_3 = x_3; z_3 = z_3; swap = b } in
        settled (round x_1 bit s) ≡ plain_round x_1 bit (settled s))
unfolding settled round plain_round
round-settled x_1 _ _ x_2 z_2 x_3 z_3 off off = refl
round-settled x_1 _ _ x_2 z_2 x_3 z_3 off on = refl
round-settled x_1 _ _ x_2 z_2 x_3 z_3 on off = refl
round-settled x_1 _ _ x_2 z_2 x_3 z_3 on on = refl

pub rounds-settled :
    (x_1 value n : ℕ) (s : Ladder)
    → IsBit s.swap
    → settled (rounds x_1 value n s) ≡ plain_rounds x_1 value n (settled s)
unfolding rounds plain_rounds round exchange ladder_step bit_at
rounds-settled x_1 value zero s bit = refl
rounds-settled x_1 value (suc n) s bit =
    rounds-settled x_1 value n (round x_1 (bit_at value n) s) (mod-IsBit _)
    ∙ ap (plain_rounds x_1 value n)
        (round-settled x_1 (bit_at value n) s.swap s.x_2 s.z_2 s.x_3 s.z_3 (mod-IsBit _) bit)
