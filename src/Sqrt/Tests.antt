-- ===== src/Sqrt/Tests.antt =====
-- Roots and a pool's opening price.
use boundless_stock.Prelude.{ℕ, ◌+◌, ◌*◌, ◌^◌, ◌≤◌, ◌<◌, ◌≡◌, refl, true, ok, err, arith}
use boundless_stock.Prelude.Int.{pos, negsuc}
use boundless_stock.Sqrt.{
  sqrt_big_int, sqrt_of_negative, encode_sqrt_price_x96, price_to_sqrt_price_x96, Price,
}
use boundless_stock.Sqrt.Floor.{IsRoot, sqrt_big_int-IsRoot, encode_sqrt_price_x96-floor}

root_of_35 : sqrt_big_int (pos 35) ≡ ok 5
unfolding sqrt_big_int boundless_stock.Sqrt.newton
root_of_35 = refl

negative : sqrt_big_int (negsuc 0) ≡ err sqrt_of_negative
unfolding sqrt_big_int
negative = refl

sqrt_big_int-IsRoot_example : (s : ℕ) × ((sqrt_big_int (pos 35) ≡ ok s) × IsRoot 35 s)
sqrt_big_int-IsRoot_example = sqrt_big_int-IsRoot 35

-- Four quote units to one base unit, at no decimals: 2 * 2^96.
two : price_to_sqrt_price_x96 (record { digits = pos 40; places = 1 }) true 0 0 ≡ ok (2 * 2 ^ 96)
unfolding price_to_sqrt_price_x96 encode_sqrt_price_x96 sqrt_big_int boundless_stock.Sqrt.newton
two = refl

encode_sqrt_price_x96-floor_example :
    (s : ℕ) × ((encode_sqrt_price_x96 (pos 4) (pos 1) ≡ ok s)
      × ((s * s * 1 ≤ 4 * 2 ^ 192) × (4 * 2 ^ 192 < (s + 1) * (s + 1) * 1)))
encode_sqrt_price_x96-floor_example = encode_sqrt_price_x96-floor 4 1 (omega arith)
