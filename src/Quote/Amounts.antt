-- ===== src/Quote/Amounts.antt =====
-- The arithmetic of a quote's amounts, infra/api/quote.ts, and what a chain of its checks says.
use boundless_stock.Prelude.{ℕ, ◌+◌, ◌-◌, ◌*◌, ◌/◌, ◌%◌, ◌^◌, ◌≤◌, ◌<◌, ◌≡◌, sym, arith, ok}
use native.Mathlib.Nat.{mul-le-mul_left, mod-lt, one-le-pow}
use boundless_stock.Prelude.Int.{ℤ, pos, negsuc, sub_ℕ, ◌+ℤ◌}
use boundless_stock.Quote.{
  Quote, unit, fee_of, floor_to, remainder, min_amount_out, parse_bps, Given, absent, integer,
  other,
}

-- The amounts of the fees, of what is traded and of the dust.
abbrev pub IsSplit : Quote → Type 0
IsSplit q = pos q.amount_in ≡ pos (q.partner_fee + q.platform_fee) +ℤ (q.traded +ℤ q.dust)

pub floor-remainder : (q : ℕ) (n : ℤ) → floor_to q n +ℤ remainder q n ≡ n
unfolding ◌+ℤ◌
floor-remainder q (pos n) = ground arith
floor-remainder q (negsuc n) = ground arith

pub net-back : (amount fees : ℕ) → pos fees +ℤ sub_ℕ amount fees ≡ pos amount
unfolding ◌+ℤ◌
net-back amount fees = ground arith

pub net-split :
    (q amount fees : ℕ)
    → pos amount ≡ pos fees +ℤ (floor_to q (sub_ℕ amount fees) +ℤ remainder q (sub_ℕ amount fees))
net-split q amount fees = rw (floor-remainder q (sub_ℕ amount fees)) (sym (net-back amount fees))

-- What the mirror is told to accept: what slippage leaves, less than a unit of the bridge under it.
abbrev pub IsLeast : ℕ → Quote → Type 0
IsLeast out_mirror q =
    (q.min_out ≤ q.expected_out)
    × (q.min_out * 10_000 ≤ q.expected_out * (10_000 - q.slippage))
    × (q.expected_out * (10_000 - q.slippage) < (q.min_out + 10 ^ (out_mirror - 6)) * 10_000)

pub least_cut :
    (expected kept q : ℕ)
    → 0 < q
    → kept ≤ expected * 10_000
    → (kept / 10_000 - kept / 10_000 % q ≤ expected)
      × ((kept / 10_000 - kept / 10_000 % q) * 10_000 ≤ kept)
      × (kept < (kept / 10_000 - kept / 10_000 % q + q) * 10_000)
least_cut expected kept q h bound =
    (omega arith, omega arith, omega (arith, mod-lt (kept / 10_000) h))

pub least-within :
    (expected slippage q : ℕ)
    → 0 < q
    → (min_amount_out expected slippage q ≤ expected)
      × (min_amount_out expected slippage q * 10_000 ≤ expected * (10_000 - slippage))
      × (expected * (10_000 - slippage) < (min_amount_out expected slippage q + q) * 10_000)
least-within expected slippage q h =
    least_cut expected (expected * (10_000 - slippage)) q h (mul-le-mul_left expected (omega arith))

pub fee_of-le : (amount bps most : ℕ) → bps ≤ most → fee_of amount bps * 10_000 ≤ amount * most
fee_of-le amount bps most h = omega (arith, mul-le-mul_left amount h)

pub unit-ok : (dec q : ℕ) → unit dec ≡ ok q → q ≡ 10 ^ (dec - 6)
unit-ok dec q p = ground arith

pub unit-pos : (dec q : ℕ) → unit dec ≡ ok q → 0 < q
unit-pos dec q p = rw (unit-ok dec q p) (one-le-pow (dec - 6) 10 (omega arith))

pub least-unit :
    (dec expected slippage q : ℕ)
    → unit dec ≡ ok q
    → (min_amount_out expected slippage q ≤ expected)
      × (min_amount_out expected slippage q * 10_000 ≤ expected * (10_000 - slippage))
      × (expected * (10_000 - slippage)
          < (min_amount_out expected slippage q + 10 ^ (dec - 6)) * 10_000)
least-unit dec expected slippage q p =
    rw (sym (unit-ok dec q p)) (least-within expected slippage q (unit-pos dec q p))

pub parse_bps-ok :
    (g : Given) (most fallback n : ℕ)
    → fallback ≤ most
    → parse_bps g most fallback ≡ ok n
    → n ≤ most
parse_bps-ok absent most fallback n h p = ground arith
parse_bps-ok (integer (pos k)) most fallback n h p = ground arith
parse_bps-ok (integer (negsuc k)) most fallback n h p = ground arith
parse_bps-ok other most fallback n h p = ground arith
