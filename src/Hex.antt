-- ===== src/Hex.antt =====
-- Hex strings as infra/lib/options.ts and infra/relayer.ts cut and parse them: a string is the
-- list of its digits (each by its value, 0 to 15), without the leading "0x".
pub mod Digits
pub mod Slices
use boundless_stock.Prelude.{
  ℕ, zero, suc, ◌+◌, ◌-◌, ◌*◌, ◌/◌, ◌%◌, Option, none, some, List, [], ◌∷◌, ◌++◌, ◌==◌,
  if◌then◌else◌, length, take, drop, replicate,
}

abbrev pub Hex : Type 0
Hex = List ℕ

-- `v.toString(16)`, on fuel; `to_string` gives enough.
pub digits : ℕ → ℕ → Hex
digits zero v = []
digits (suc fuel) v =
    let high = digits fuel (v / 16) in if v / 16 == 0 then v ∷ [] else high ++ (v % 16 ∷ [])

pub to_string : ℕ → Hex
to_string v = digits (suc v) v

-- `s.padStart(n, "0")`
pub pad_start : ℕ → Hex → Hex
pad_start n s = replicate (n - length s) 0 ++ s

-- `hex(v, bytes)`
pub hex : ℕ → ℕ → Hex
hex v bytes = pad_start (bytes * 2) (to_string v)

-- `s.slice(start, end)`, for 0 ≤ start
unfoldable pub slice : ℕ → ℕ → Hex → Hex
slice start end s = take (end - start) (drop start s)

-- The number that a string of digits stands for, read from the left.
pub value_from : ℕ → Hex → ℕ
value_from acc [] = acc
value_from acc (d ∷ ds) = value_from (acc * 16 + d) ds

-- `parseInt(s, 16)`, which is NaN on the empty string, and `BigInt("0x" + s)`, which throws there.
pub parse : Hex → Option ℕ
parse [] = none
parse (d ∷ ds) = some (value_from 0 (d ∷ ds))
