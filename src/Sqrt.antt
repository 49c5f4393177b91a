-- ===== src/Sqrt.antt =====
-- The integer square root and the pool prices made from it: infra/lib/uniswap.ts. The loop runs on
-- fuel; the price's text is taken as its digits without the point and the number of its places.
pub mod Floor
mod Tests
use boundless_stock.Prelude.{
  ℕ, zero, suc, ◌+◌, ◌-◌, ◌*◌, ◌/◌, ◌^◌, Bool, true, false, Option, none, some, ltb, if◌then◌else◌,
  Result, ok, err, ◌>>=◌,
}
use boundless_stock.Prelude.Int.{ℤ, pos, negsuc, sub_ℕ}

pub data PriceError : Type 0 where
  sqrt_of_negative amount0_is_zero out_of_fuel : PriceError

-- `while (y < x) { x = y; y = (x + value / x) / 2n; }`; `none` is the end of the fuel.
pub newton : ℕ → ℕ → ℕ → ℕ → Option ℕ
newton zero value x y = if ltb y x then none else some x
newton (suc fuel) value x y =
    let rest = newton fuel value y ((y + value / y) / 2) in if ltb y x then rest else some x

abbrev pub returned : Option ℕ → Result PriceError ℕ
returned none = err out_of_fuel
returned (some x) = ok x

pub sqrt_big_int : ℤ → Result PriceError ℕ
sqrt_big_int (pos value) =
    if ltb value 2 then ok value else returned (newton value value value ((value + 1) / 2))
sqrt_big_int (negsuc n) = err sqrt_of_negative

-- `a / b` of bigints, towards zero, for b ≠ 0.
abbrev pub div : ℤ → ℤ → ℤ
div (pos a) (pos b) = pos (a / b)
div (pos a) (negsuc b) = sub_ℕ 0 (a / suc b)
div (negsuc a) (pos b) = sub_ℕ 0 (suc a / b)
div (negsuc a) (negsuc b) = pos (suc a / suc b)

-- `a << 192n`
abbrev pub shifted : ℤ → ℤ
shifted (pos a) = pos (a * 2 ^ 192)
shifted (negsuc a) = sub_ℕ 0 (suc a * 2 ^ 192)

pub encode_sqrt_price_x96 : ℤ → ℤ → Result PriceError ℕ
encode_sqrt_price_x96 amount1 (pos zero) = err amount0_is_zero
encode_sqrt_price_x96 amount1 (pos (suc n)) = sqrt_big_int (div (shifted amount1) (pos (suc n)))
encode_sqrt_price_x96 amount1 (negsuc n) = sqrt_big_int (div (shifted amount1) (negsuc n))

abbrev pub scaled : ℤ → ℕ → ℤ
scaled (pos a) k = pos (a * k)
scaled (negsuc a) k = sub_ℕ 0 (suc a * k)

-- A price "12.5" is 125 with one place.
pub record Price : Type 0 where
  pub digits : ℤ
  pub places : ℕ

-- The quote's raw amount that one base unit is worth.
abbrev pub quote_amount : Price → ℕ → ℤ
quote_amount p quote_decimals = div (scaled p.digits (10 ^ quote_decimals)) (pos (10 ^ p.places))

-- `base_first` is whether the base token's address is the lower one.
pub price_to_sqrt_price_x96 : Price → Bool → ℕ → ℕ → Result PriceError ℕ
price_to_sqrt_price_x96 p true base_decimals quote_decimals =
    encode_sqrt_price_x96 (quote_amount p quote_decimals) (pos (10 ^ base_decimals))
price_to_sqrt_price_x96 p false base_decimals quote_decimals =
    encode_sqrt_price_x96 (pos (10 ^ base_decimals)) (quote_amount p quote_decimals)
