-- ===== src/Live/Printed.antt =====
-- How amounts are printed.
use boundless_stock.Prelude.{
  ℕ, zero, suc, ◌+◌, ◌-◌, ◌*◌, ◌^◌, ◌/◌, ◌%◌, ◌<◌, ◌≤◌, ◌≡◌, ◌↔◌, refl, sym, ap, ◌∙◌, inl, inr,
  arith, Bool, true, false, [], ◌∷◌, ◌++◌, length, length-append, length-replicate, length-drop,
  take-drop, replicate, take, drop, ltb, ltb→le, ◌==◌, ==_iff, Bool-cases,
}
use native.Mathlib.Nat.{pow-succ', add-mul, mul_assoc}
use boundless_stock.Prelude.Int.{ℤ}
use boundless_stock.Quote.{decimal, all_digits}
use boundless_stock.Sdk.{Text, digits_from, digits, pad_start, drop_last}
use boundless_stock.Live.{drop_zeros, point, minus, magnitude, format}

decimal-append : (n : ℕ) (s t : Text) → decimal n (s ++ t) ≡ decimal (decimal n s) t
decimal-append n [] t = refl
decimal-append n (c ∷ s) t = decimal-append (n * 10 + (c - b'0')) s t

scaled_digit : (a b l : ℕ) → (a * 10 + b) * 10 ^ l ≡ a * 10 ^ suc l + b * 10 ^ l
scaled_digit a b l = rw (add-mul (a * 10) b (10 ^ l), mul_assoc a 10 (10 ^ l), pow-succ' 10 l) refl

decimal_shift : (n : ℕ) (s : Text) → decimal n s ≡ n * 10 ^ length s + decimal 0 s
decimal_shift n [] = omega arith
decimal_shift n (c ∷ s) = omega (
  arith,
  decimal_shift (n * 10 + (c - 48)) s,
  decimal_shift (0 + (c - 48)) s,
  scaled_digit n (c - 48) (length s),
)

decimal_zeros : (k : ℕ) → decimal 0 (replicate k b'0') ≡ 0
decimal_zeros zero = refl
decimal_zeros (suc k) = decimal_zeros k

pub decimal-digits_from : (fuel n : ℕ) → n < fuel → decimal 0 (digits_from fuel n) ≡ n
unfolding digits_from
decimal-digits_from zero n h = omega arith
decimal-digits_from (suc fuel) n h = elim (Bool-cases (ltb n 10)) [
  | inl small ↦ rw small (omega arith)
  | inr large ↦
      rw
        (
          large,
          decimal-append 0 (digits_from fuel (n / 10)) ((b'0' + n % 10) ∷ []),
          decimal-digits_from fuel (n / 10) (omega (arith, ltb→le n 10 large)),
        )
        (omega arith)
]

all_digits-append :
    (s t : Text) → (all_digits (s ++ t) ≡ true) ↔ ((all_digits s ≡ true) × (all_digits t ≡ true))
all_digits-append [] t = ground arith
all_digits-append (c ∷ s) t = ground (arith, all_digits-append s t)

all_digits_zeros : (k : ℕ) → all_digits (replicate k b'0') ≡ true
all_digits_zeros zero = refl
all_digits_zeros (suc k) = all_digits_zeros k

pub all_digits-digits_from : (fuel n : ℕ) → all_digits (digits_from fuel n) ≡ true
unfolding digits_from
all_digits-digits_from zero n = refl
all_digits-digits_from (suc fuel) n = elim (Bool-cases (ltb n 10)) [
  | inl small ↦ rw small (ground arith)
  | inr large ↦ rw large (
      (all_digits-append (digits_from fuel (n / 10)) ((b'0' + n % 10) ∷ [])).1
        (all_digits-digits_from fuel (n / 10), ground arith))
]

-- A text is what is left without its last zeros, and zeros.
abbrev IsTrimmed : Text → Text → Type 0
IsTrimmed s z = (k : ℕ) × (s ≡ z ++ replicate k b'0')

trim_one :
    (b : Bool) (c k : ℕ) (s z : Text)
    → (b ≡ true → c ≡ b'0')
    → s ≡ z ++ replicate k b'0'
    → IsTrimmed (c ∷ s) (drop_last b c z)
trim_one true c k s [] zero_is e =
    (suc k, ap (λ l. c ∷ l) e ∙ ap (λ x. x ∷ replicate k b'0') (zero_is refl))
trim_one true c k s (d ∷ z) zero_is e = (k, ap (λ l. c ∷ l) e)
trim_one false c k s z zero_is e = (k, ap (λ l. c ∷ l) e)

drop_zeros-IsTrimmed : (s : Text) → IsTrimmed s (drop_zeros s)
unfolding drop_zeros
drop_zeros-IsTrimmed [] = (0, refl)
drop_zeros-IsTrimmed (c ∷ s) =
    let (k, e) = drop_zeros-IsTrimmed s in
    trim_one (c == b'0') c k s (drop_zeros s) (==_iff c b'0').0 e

-- The digits of a number, at least as many as asked for.
padded :
    (n v : ℕ)
    → (n ≤ length (pad_start n (digits v)))
      × (all_digits (pad_start n (digits v)) ≡ true)
      × (decimal 0 (pad_start n (digits v)) ≡ v)
unfolding digits
padded n v =
    let s = digits_from (suc v) v in
    let zeros : Text = replicate (n - length s) b'0' in
    (
      omega (arith, length-append zeros s, length-replicate {A = ℕ} (n - length s) b'0'),
      (all_digits-append zeros s).1
          (all_digits_zeros (n - length s), all_digits-digits_from (suc v) v),
      decimal-append 0 zeros s
          ∙ ap (λ m. decimal m s) (decimal_zeros (n - length s))
          ∙ decimal-digits_from (suc v) v (omega arith),
    )

-- The whole part and the fraction of a text, with zeros that were left out.
value_of_parts :
    (w z : Text) (k : ℕ)
    → decimal 0 (w ++ (z ++ replicate k b'0'))
      ≡ decimal 0 w * 10 ^ (length z + k) + decimal 0 z * 10 ^ k
value_of_parts w z k =
    let zeros = replicate {A = ℕ} k b'0' in
    let size : length (z ++ zeros) ≡ length z + k =
      omega (arith, length-append z zeros, length-replicate {A = ℕ} k b'0') in
    let fraction : decimal 0 (z ++ zeros) ≡ decimal 0 z * 10 ^ k =
      decimal-append 0 z zeros
      ∙ decimal_shift (decimal 0 z) zeros
      ∙ rw (length-replicate {A = ℕ} k b'0', decimal_zeros k) (omega arith) in
    decimal-append 0 w (z ++ zeros)
    ∙ decimal_shift (decimal 0 w) (z ++ zeros)
    ∙ rw (size, fraction) refl

-- An amount is printed as digits with a point before the last of them, for any number of decimals: the
-- whole part is not empty, the fraction has no more digits than there are decimals, and with the zeros
-- that are left out the digits are those of the amount; its sign stands before it.
pub format-decimal :
    (decimals : ℕ) (v : ℤ)
    → (w : Text) × (z : Text) × (k : ℕ) × (format decimals v ≡ minus v (w ++ point z))
      × (all_digits (w ++ z) ≡ true)
      × (0 < length w)
      × (length z + k ≡ decimals)
      × (decimal 0 w * 10 ^ decimals + decimal 0 z * 10 ^ k ≡ magnitude v)
unfolding format
format-decimal decimals v =
    let s = pad_start (decimals + 1) (digits (magnitude v)) in
    let p = padded (decimals + 1) (magnitude v) in
    let w = take (length s - decimals) s in
    let f = drop (length s - decimals) s in
    let z = drop_zeros f in
    let (k, e) = drop_zeros-IsTrimmed f in
    let split : s ≡ w ++ f = take-drop (length s - decimals) s in
    let whole : s ≡ w ++ (z ++ replicate k b'0') = split ∙ ap (λ l. w ++ l) e in
    let size_f : length f ≡ decimals = omega (arith, length-drop (length s - decimals) s, p.0) in
    let size_w : 0 < length w = omega (arith, ap length split, length-append w f, size_f, p.0) in
    let size_z : length z + k ≡ decimals = omega (
      arith,
      ap length e,
      length-append z (replicate k b'0'),
      length-replicate {A = ℕ} k b'0',
      size_f,
    ) in
    let parts : all_digits (w ++ (z ++ replicate k b'0')) ≡ true =
      sym (ap all_digits whole) ∙ p.1 in
    let digits_w = (all_digits-append w (z ++ replicate k b'0')).0 parts in
    let digits_z = (all_digits-append z (replicate k b'0')).0 digits_w.1 in
    (
      w,
      z,
      k,
      refl,
      (all_digits-append w z).1 (digits_w.0, digits_z.0),
      size_w,
      size_z,
      ap (λ d. decimal 0 w * 10 ^ d + decimal 0 z * 10 ^ k) (sym size_z)
          ∙ sym (value_of_parts w z k)
          ∙ sym (ap (decimal 0) whole)
          ∙ p.2,
    )
