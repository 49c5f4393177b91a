-- ===== src/Hex/Digits.antt =====
-- `hex` writes exactly the digits asked for, and `parse` reads them back.
use native.Mathlib.Nat.{pow-suc}
use boundless_stock.Prelude.{
  ℕ, zero, suc, ◌+◌, ◌-◌, ◌*◌, ◌/◌, ◌%◌, ◌^◌, ◌<◌, ◌≤◌, ◌≡◌, refl, ap, ◌∙◌, inl, inr, some, [], ◌∷◌,
  ◌++◌, append_assoc, arith, ◌==◌, ==_iff, Bool-cases, length, replicate, length-append,
  length-replicate,
}
use boundless_stock.Hex.{Hex, digits, to_string, pad_start, hex, value_from, parse}

-- The lowest `n` digits of `v`, high digit first.
pub fixed : ℕ → ℕ → Hex
fixed zero v = []
fixed (suc n) v = fixed n (v / 16) ++ (v % 16 ∷ [])

pub length-fixed : (n v : ℕ) → length (fixed n v) ≡ n
unfolding fixed
length-fixed zero v = refl
length-fixed (suc n) v =
    omega (arith, length-append {0} (fixed n (v / 16)) (v % 16 ∷ []), length-fixed n (v / 16))

replicate-snoc : (n : ℕ) → ◌++◌ {A = ℕ} (replicate n 0) (0 ∷ []) ≡ 0 ∷ replicate n 0
replicate-snoc zero = refl
replicate-snoc (suc n) = ap (λ l. 0 ∷ l) (replicate-snoc n)

fixed-zero : (n : ℕ) → fixed n 0 ≡ replicate n 0
unfolding fixed
fixed-zero zero = refl
fixed-zero (suc n) = rw (fixed-zero n) (replicate-snoc n)

div_lt : (n v : ℕ) → v < 16 ^ suc n → v / 16 < 16 ^ n
div_lt n v h = omega (arith, pow-suc 16 n)

pad_single :
    (n v : ℕ) → v / 16 ≡ 0 → replicate (suc n - 1) 0 ++ (v ∷ []) ≡ fixed n (v / 16) ++ (v % 16 ∷ [])
pad_single n v e =
    let low : v % 16 ≡ v = omega arith in
    let rest : suc n - 1 ≡ n = omega arith in rw (e, low, rest, fixed-zero n)

pad_more :
    (n d : ℕ) (s : Hex)
    → replicate (suc n - length (s ++ (d ∷ []))) 0 ++ (s ++ (d ∷ [])) ≡ pad_start n s ++ (d ∷ [])
unfolding pad_start
pad_more n d s =
    let fewer : suc n - length (s ++ (d ∷ [])) ≡ n - length s =
      omega (arith, length-append {0} s (d ∷ [])) in
    rw (fewer, append_assoc)

pad_digits :
    (fuel n v : ℕ) → v < fuel → v < 16 ^ suc n → pad_start (suc n) (digits fuel v) ≡ fixed (suc n) v
unfolding digits fixed
pad_digits zero n v h b = absurd (omega arith)
pad_digits (suc fuel) zero v h b =
    let e : v / 16 ≡ 0 = omega arith in
    rw ((==_iff (v / 16) 0).1 e) (unfold pad_start in pad_single zero v e)
pad_digits (suc fuel) (suc n) v h b = elim (Bool-cases (v / 16 == 0)) [
  | inl e ↦ rw e (unfold pad_start in pad_single (suc n) v ((==_iff (v / 16) 0).0 e))
  | inr e ↦
      rw (e, ← pad_digits fuel n (v / 16) (ground arith) (div_lt (suc n) v b))
        (unfold pad_start in pad_more (suc n) (v % 16) (digits fuel (v / 16)))
]

value_from-snoc :
    (acc : ℕ) (s : Hex) (d : ℕ) → value_from acc (s ++ (d ∷ [])) ≡ value_from acc s * 16 + d
unfolding value_from
value_from-snoc acc [] d = refl
value_from-snoc acc (x ∷ s) d = value_from-snoc (acc * 16 + x) s d

value_from-fixed : (n v : ℕ) → v < 16 ^ n → value_from 0 (fixed n v) ≡ v
unfolding fixed
value_from-fixed zero v h = unfold value_from in omega arith
value_from-fixed (suc n) v h =
    value_from-snoc 0 (fixed n (v / 16)) (v % 16)
    ∙ omega (arith, value_from-fixed n (v / 16) (div_lt n v h))

-- A number below 16 ^ n is written with exactly n digits, for an even n above 0.
pub hex-eq-fixed :
    (bytes v : ℕ) → 0 < bytes → v < 16 ^ (bytes * 2) → hex v bytes ≡ fixed (bytes * 2) v
unfolding hex to_string
hex-eq-fixed bytes v h b =
    let e : bytes * 2 ≡ suc (bytes * 2 - 1) = omega arith in
    rw e (pad_digits (suc v) (bytes * 2 - 1) v (omega arith) (rw (← e) b))

pub length-hex : (bytes v : ℕ) → 0 < bytes → v < 16 ^ (bytes * 2) → length (hex v bytes) ≡ bytes * 2
length-hex bytes v h b = rw (hex-eq-fixed bytes v h b) (length-fixed (bytes * 2) v)

parse_value : (s : Hex) → 0 < length s → parse s ≡ some (value_from 0 s)
unfolding parse
parse_value [] h = absurd (omega arith)
parse_value (d ∷ s) h = refl

pub parse-hex : (bytes v : ℕ) → 0 < bytes → v < 16 ^ (bytes * 2) → parse (hex v bytes) ≡ some v
parse-hex bytes v h b = rw (hex-eq-fixed bytes v h b) (
    parse_value (fixed (bytes * 2) v) (omega (arith, length-fixed (bytes * 2) v))
    ∙ ap (λ n. some n) (value_from-fixed (bytes * 2) v b))

pub length-pad_start : (n : ℕ) (s : Hex) → length s ≤ n → length (pad_start n s) ≡ n
unfolding pad_start
length-pad_start n s h = omega (
  arith,
  length-append {0} (replicate (n - length s) 0) s,
  length-replicate {0} {A = ℕ} (n - length s) 0,
)

-- The byte and word constants that the builder writes out.
pub hex-one : hex 1 1 ≡ 0 ∷ 1 ∷ []
unfolding hex to_string digits pad_start
hex-one = refl

pub hex-two : hex 2 1 ≡ 0 ∷ 2 ∷ []
unfolding hex to_string digits pad_start
hex-two = refl

pub hex-three : hex 3 1 ≡ 0 ∷ 3 ∷ []
unfolding hex to_string digits pad_start
hex-three = refl

pub hex-type_3 : hex 3 2 ≡ 0 ∷ 0 ∷ 0 ∷ 3 ∷ []
unfolding hex to_string digits pad_start
hex-type_3 = refl
