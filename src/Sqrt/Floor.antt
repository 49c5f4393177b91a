-- ===== src/Sqrt/Floor.antt =====
-- Newton's method ends and gives the floor of the root: `sqrtBigInt` of infra/lib/uniswap.ts.
use native.Mathlib.Nat.{div_self, mul-div-le, mul-le-mul, mul-le-mul_left}
use boundless_stock.Prelude.{
  ℕ, zero, suc, ◌+◌, ◌-◌, ◌*◌, ◌/◌, ◌^◌, ◌≤◌, ◌<◌, ◌≡◌, sym, subst, ap, ◌∙◌, ◌⊎◌, inl, inr, arith,
  some, ok,
}
use boundless_stock.Prelude.Int.{pos}
use boundless_stock.Sqrt.{newton, sqrt_big_int, returned, encode_sqrt_price_x96}

four_products : (a d : ℕ) → 4 * (a * (a + d)) ≤ (a + (a + d)) * (a + (a + d))
four_products a d = omega arith

lt_or_le : (a b : ℕ) → (a < b) ⊎ (b ≤ a)
lt_or_le a b = ground arith

ordered : (a b : ℕ) → a ≤ b → 4 * (a * b) ≤ (a + b) * (a + b)
ordered a b h =
    let sum : a + (b - a) ≡ b = omega arith in
    subst (λ c. 4 * (a * c) ≤ (a + c) * (a + c)) sum (four_products a (b - a))

am_gm : (a b : ℕ) → 4 * (a * b) ≤ (a + b) * (a + b)
am_gm a b = elim (lt_or_le a b) [
  | inl h ↦ ordered a b (omega arith)
  | inr h ↦ omega (arith, ordered b a h)
]

above_product : (v x q : ℕ) → v < x * (q + 1) → v < ((x + q) / 2 + 1) * ((x + q) / 2 + 1)
above_product v x q h =
    let wide : x + (q + 1) ≤ 2 * ((x + q) / 2 + 1) = omega arith in
    omega (arith, am_gm x (q + 1), mul-le-mul wide wide)

quotient_above : (v x : ℕ) → 0 < x → v < x * (v / x + 1)
quotient_above v x h = omega arith

-- One step of Newton's method lands at the root or above it.
above : (v x : ℕ) → 0 < x → v < ((x + v / x) / 2 + 1) * ((x + v / x) / 2 + 1)
above v x h = above_product v x (v / x) (quotient_above v x h)

passed : (v x : ℕ) → x ≤ (x + v / x) / 2 → x ≤ v / x
passed v x stop = omega arith

below : (v x : ℕ) → 0 < x → x ≤ (x + v / x) / 2 → x * x ≤ v
below v x h stop = omega (arith, mul-le-mul_left x (passed v x stop), mul-div-le v x)

-- `s` is the floor of the square root of `v`.
abbrev pub IsRoot : ℕ → ℕ → Type 0
IsRoot v s = (s * s ≤ v) × (v < (s + 1) * (s + 1))

root_pos : (v y : ℕ) → 0 < v → v < (y + 1) * (y + 1) → 0 < y
root_pos v zero w h = omega arith
root_pos v (suc y) w h = omega arith

newton_on : (fuel v x y : ℕ) → y < x → newton (suc fuel) v x y ≡ newton fuel v y ((y + v / y) / 2)
unfolding newton
newton_on fuel v x y h = ground arith

newton_stop : (fuel v x y : ℕ) → x ≤ y → newton (suc fuel) v x y ≡ some x
unfolding newton
newton_stop fuel v x y h = ground arith

newton-IsRoot :
    (fuel v x : ℕ)
    → 0 < v
    → 0 < x
    → v < (x + 1) * (x + 1)
    → x ≤ fuel
    → (s : ℕ) × ((newton fuel v x ((x + v / x) / 2) ≡ some s) × IsRoot v s)
newton-IsRoot zero v x w h top enough = ground arith
newton-IsRoot (suc fuel) v x w h top enough =
    let y = (x + v / x) / 2 in
    elim (lt_or_le y x) [
      | inl less ↦
          let (s, (found, root)) =
            newton-IsRoot fuel v y w (root_pos v y w (above v x h)) (above v x h) (omega arith) in
          (s, (newton_on fuel v x y less ∙ found, root))
      | inr stop ↦ (x, (newton_stop fuel v x y stop, (below v x h stop, top)))
    ]

small-IsRoot : (v : ℕ) → v < 2 → IsRoot v v
small-IsRoot zero h = (omega arith, omega arith)
small-IsRoot (suc zero) h = (omega arith, omega arith)
small-IsRoot (suc (suc v)) h = ground arith

large_loop : (v : ℕ) → 2 ≤ v → sqrt_big_int (pos v) ≡ returned (newton v v v ((v + 1) / 2))
unfolding sqrt_big_int
large_loop v h = ground arith

self_quotient : (v : ℕ) → 2 ≤ v → v / v ≡ 1
self_quotient v h = div_self (omega arith)

-- The root of a number at least 0 is found, within the fuel, and is the floor of the square root.
pub sqrt_big_int-IsRoot : (v : ℕ) → (s : ℕ) × ((sqrt_big_int (pos v) ≡ ok s) × IsRoot v s)
unfolding sqrt_big_int
sqrt_big_int-IsRoot v = elim (lt_or_le v 2) [
  | inl small ↦ (v, (ground arith, small-IsRoot v small))
  | inr large ↦
      let (s, (found, root)) =
        newton-IsRoot v v v (omega arith) (omega arith) (omega (arith, mul-le-mul_left v large))
          (omega arith) in
      (
        s,
        (
          large_loop v large
              ∙ (ap (λ q. returned (newton v v v ((v + q) / 2))) (sym (self_quotient v large))
                  ∙ ap returned found),
          root,
        ),
      )
]

lt_succ : (a b : ℕ) → a < b → a + 1 ≤ b
lt_succ a b h = omega arith

scaled_low : (w r n : ℕ) → r ≤ w / suc n → r * suc n ≤ w
scaled_low w r n h = omega (arith, mul-le-mul_left (suc n) h, mul-div-le w (suc n))

scaled_high : (w r n : ℕ) → w / suc n < r → w < r * suc n
scaled_high w r n h =
    omega (arith, quotient_above w (suc n) (omega arith), mul-le-mul_left (suc n) (lt_succ _ r h))

-- Of positive amounts the price sqrt(amount1 / amount0) * 2^96 is found, and is the largest s with
-- s^2 * amount0 at most amount1 * 2^192.
pub encode_sqrt_price_x96-floor :
    (a1 a0 : ℕ)
    → 0 < a0
    → (s : ℕ) × ((encode_sqrt_price_x96 (pos a1) (pos a0) ≡ ok s)
        × ((s * s * a0 ≤ a1 * 2 ^ 192) × (a1 * 2 ^ 192 < (s + 1) * (s + 1) * a0)))
unfolding encode_sqrt_price_x96
encode_sqrt_price_x96-floor a1 (suc n) h =
    let (s, (found, (low, high))) = sqrt_big_int-IsRoot (a1 * 2 ^ 192 / suc n) in
    (s, (found, (scaled_low _ _ n low, scaled_high _ _ n high)))
encode_sqrt_price_x96-floor a1 zero h = ground arith
