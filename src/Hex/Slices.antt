-- ===== src/Hex/Slices.antt =====
-- How a slice of a concatenation is found.
use boundless_stock.Prelude.{
  ℕ, suc, ◌+◌, ◌-◌, ◌≡◌, [], ◌∷◌, ◌++◌, arith, length, drop, take-append, drop-append,
}
use boundless_stock.Hex.{Hex, slice}

pub drop_behind : (i : ℕ) (p s : Hex) → drop (length p + i) (p ++ s) ≡ drop i s
drop_behind i [] s = let e : 0 + i ≡ i = omega arith in rw e
drop_behind i (x ∷ p) s =
    let e : suc (length p) + i ≡ suc (length p + i) = omega arith in rw e (drop_behind i p s)

-- Behind a prefix, a slice is a slice of what follows.
pub slice_behind :
    (i j : ℕ) (p s : Hex) → slice (length p + i) (length p + j) (p ++ s) ≡ slice i j s
unfolding slice
slice_behind i j p s =
    let e : length p + j - (length p + i) ≡ j - i = omega arith in rw (e, drop_behind i p s)

-- The middle of three parts.
pub slice_mid :
    (i j : ℕ) (p m s : Hex) → length p ≡ i → i + length m ≡ j → slice i j (p ++ (m ++ s)) ≡ m
unfolding slice
slice_mid i j p m s e f =
    let d : j - i ≡ length m = omega arith in rw (d, ← e, drop-append p (m ++ s), take-append m s)
