-- ===== src/Quote/Priced.antt =====
-- What an order is priced at: steps 1 to 4 of `quote` in infra/api/quote.ts.
use native.Mathlib.Nat.{div-add-mod', mod-lt, mul-div_cancel, mul-le-mul_right, one-le-pow}
use boundless_stock.Prelude.{
  ℕ, zero, suc, ◌+◌, ◌-◌, ◌*◌, ◌/◌, ◌^◌, ◌≤◌, ◌<◌, ◌≡◌, refl, sym, ap, arith, Bool, true, false,
  Option, some, ok,
}
use boundless_stock.Prelude.Int.{ℤ, pos, sub_ℕ}
use boundless_stock.Quote.{
  Side, Quote, Decimals, price, unit, fee_of, floor_to, remainder, min_amount_out, is_zero, rescale,
}
use boundless_stock.Quote.Amounts.{IsSplit, net-split, IsLeast, least-within}

-- The bridge's unit in an asset of so many decimals.
abbrev pub unit_of : ℕ → ℕ
unit_of dec = 10 ^ (dec - 6)

-- What is asked of the decimals and of the amount for an order to be priced.
abbrev pub IsServed : Decimals → ℕ → ℕ → ℕ → Type 0
IsServed dec amount bps platform =
    (6 ≤ dec.in_mirror)
    × (6 ≤ dec.in_home)
    × (6 ≤ dec.out_home)
    × (6 ≤ dec.out_mirror)
    × (amount * bps / 10_000 + amount * platform / 10_000 + unit_of dec.in_mirror ≤ amount)

-- The price of an order: a fee is the whole part of its share; what the fees leave is traded in whole
-- units of the bridge, `units` of them; the home market is asked for as many units at home, and
-- answers `out`; of that, `units_out` whole units are expected on the mirror; and the messaging fee
-- is that of the traded and the least amount.
pub record IsPriceOf (home_swap : Side → ℤ → Option ℕ) (messaging : Side → ℤ → ℕ → Option ℕ)
    (side : Side) (dec : Decimals) (amount bps platform slippage : ℕ) (q : Quote) : Type 0 where
  pub units : ℕ
  pub out : ℕ
  pub units_out : ℕ
  pub partner_share :
      (q.partner_fee * 10_000 ≤ amount * bps) × (amount * bps < (q.partner_fee + 1) * 10_000)
  pub platform_share :
      (q.platform_fee * 10_000 ≤ amount * platform)
      × (amount * platform < (q.platform_fee + 1) * 10_000)
  pub some_left : 0 < units
  pub traded_is : q.traded ≡ pos (units * unit_of dec.in_mirror)
  pub not_more : q.partner_fee + q.platform_fee + units * unit_of dec.in_mirror ≤ amount
  pub not_less :
      amount
      < q.partner_fee + q.platform_fee + units * unit_of dec.in_mirror + unit_of dec.in_mirror
  pub adds_up : IsSplit q
  pub swapped : home_swap side (pos (units * unit_of dec.in_home)) ≡ some out
  pub expected_is : q.expected_out ≡ units_out * unit_of dec.out_mirror
  pub out_covers :
      (units_out * unit_of dec.out_home ≤ out)
      × (out < units_out * unit_of dec.out_home + unit_of dec.out_home)
  pub least_is : IsLeast dec.out_mirror q
  pub messaging_is : messaging side q.traded q.min_out ≡ some q.messaging_fee
  pub side_is : q.side ≡ side
  pub amount_is : q.amount_in ≡ amount
  pub slippage_is : q.slippage ≡ slippage

unit-answers : (dec : ℕ) → 6 ≤ dec → unit dec ≡ ok (unit_of dec)
unit-answers dec h = ground arith

unit_pos : (dec : ℕ) → 0 < unit_of dec
unit_pos dec = one-le-pow (dec - 6) 10 (omega arith)

-- A number is so many whole units and less than one.
in_units : (n q : ℕ) → 0 < q → (n / q * q ≤ n) × (n < n / q * q + q)
in_units n q h = omega (arith, div-add-mod' n q, mod-lt n h)

some_units : (n q : ℕ) → 0 < q → q ≤ n → 0 < n / q
some_units n q h enough = none_or_some (n / q) (in_units n q h).1 enough
  where
    none_or_some : (k : ℕ) → n < k * q + q → q ≤ n → 0 < k
    none_or_some zero below enough = omega arith
    none_or_some (suc k) below enough = omega arith

floor_to-units :
    (q amount fees : ℕ)
    → 0 < q
    → fees ≤ amount
    → floor_to q (sub_ℕ amount fees) ≡ pos ((amount - fees) / q * q)
floor_to-units q amount fees h enough =
    let net : sub_ℕ amount fees ≡ pos (amount - fees) = ground arith in
    rw net (ap pos (omega (arith, div-add-mod' (amount - fees) q)))

is_zero-units : (k q : ℕ) → 0 < k → 0 < q → is_zero (pos (k * q)) ≡ false
is_zero-units k q some_left h =
    let one_le : 1 ≤ k = omega arith in
    let bigger : 1 * q ≤ k * q = mul-le-mul_right q one_le in
    let positive : 0 < k * q = omega arith in ground arith

rescale-units : (k q h : ℕ) → 0 < q → rescale q h (pos (k * q)) ≡ pos (k * h)
rescale-units k q h p = ap (λ n. pos (n * h)) (mul-div_cancel k p)

module _ (home_swap : Side → ℤ → Option ℕ) (market : Bool)
    (messaging : Side → ℤ → ℕ → Option ℕ) where
  -- An order is priced, and at the right amounts, where the four decimals are at least the shared
  -- ones, the fees leave at least one unit of the bridge, and the home swap, the home market and the
  -- messaging fee can be read: each fee is the whole part of its share; the most whole units that the
  -- fees leave are traded, and the rest is dust; as many units are swapped at home, and as many whole
  -- ones as that pays out are expected; the least output is within one unit under what slippage
  -- leaves of them; and the messaging fee is that of the traded and the least amount.
  pub price-answers :
      (side : Side) (dec : Decimals) (amount bps platform slippage : ℕ)
      → IsServed dec amount bps platform
      → market ≡ true
      → ((n : ℤ) → (out : ℕ) × (home_swap side n ≡ some out))
      → ((n : ℤ) (least : ℕ) → (fee : ℕ) × (messaging side n least ≡ some fee))
      → (q : Quote) × (price home_swap market messaging side dec amount bps platform slippage
          ≡ ok q)
        × IsPriceOf home_swap messaging side dec amount bps platform slippage q
  unfolding price
  price-answers side dec amount bps platform slippage (a, b, c, d, left) open_market swaps asks =
      let q_in = unit_of dec.in_mirror in
      let fees = fee_of amount bps + fee_of amount platform in
      let units = (amount - fees) / q_in in
      let enough : q_in ≤ amount - fees = omega arith in
      let positive = unit_pos dec.in_mirror in
      let some_left = some_units (amount - fees) q_in positive enough in
      let within = in_units (amount - fees) q_in positive in
      let floored = floor_to-units q_in amount fees positive (omega arith) in
      let (out, swap) = swaps (pos (units * unit_of dec.in_home)) in
      let q_out = unit_of dec.out_mirror in
      let expected = out / unit_of dec.out_home * q_out in
      let (fee, asked) = asks (pos (units * q_in)) (min_amount_out expected slippage q_out) in
      (
        record {
          side = side;
          amount_in = amount;
          partner_fee = fee_of amount bps;
          platform_fee = fee_of amount platform;
          traded = pos (units * q_in);
          dust = remainder q_in (sub_ℕ amount fees);
          expected_out = expected;
          min_out = min_amount_out expected slippage q_out;
          slippage = slippage;
          messaging_fee = fee;
        },
        rw
            (
              unit-answers dec.in_mirror a,
              floored,
              is_zero-units units q_in some_left positive,
              unit-answers dec.in_home b,
              rescale-units units q_in (unit_of dec.in_home) positive,
              swap,
              unit-answers dec.out_home c,
              unit-answers dec.out_mirror d,
              open_market,
              asked,
            )
            refl,
        record {
          units = units;
          out = out;
          units_out = out / unit_of dec.out_home;
          partner_share = (omega arith, omega arith);
          platform_share = (omega arith, omega arith);
          some_left = some_left;
          traded_is = refl;
          not_more = omega (arith, within.0);
          not_less = omega (arith, within.1);
          adds_up = rw (sym floored) (net-split q_in amount fees);
          swapped = swap;
          expected_is = refl;
          out_covers = in_units out (unit_of dec.out_home) (unit_pos dec.out_home);
          least_is = least-within expected slippage q_out (unit_pos dec.out_mirror);
          messaging_is = asked;
          side_is = refl;
          amount_is = refl;
          slippage_is = refl;
        },
      )
