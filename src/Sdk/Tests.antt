-- ===== src/Sdk/Tests.antt =====
-- A signature with a digest that stands in for HMAC-SHA256, checked in time and too late.
use boundless_stock.Prelude.{
  ℕ, zero, suc, ◌+◌, ◌-◌, ◌*◌, ◌/◌, ◌%◌, ◌<◌, ◌++◌, ap, ltb, ltb→le, Bool-cases, inl, inr, ◌≤◌, ◌≡◌,
  ◌↔◌, refl, arith, true, Option, some, [], ◌∷◌, ok, err,
}
use boundless_stock.Prelude.Int.{ℤ, pos}
use boundless_stock.Sdk.{
  Text, digits_from, digits, print_int, trim_start, trim_end, split, find_part, parts_of, hex_bytes,
  distance, mac, sign_webhook, check_webhook, outside_tolerance,
}
use boundless_stock.Sdk.Verified.{Primitives, is_lower_hex, check_webhook-sign_webhook}

-- Whether the secret's characters add up to more than the message's, and to less.
abbrev sum : Text → ℕ
sum [] = 0
sum (c ∷ s) = c + sum s

abbrev hex_digit : ℕ → ℕ
hex_digit zero = b'0'
hex_digit (suc n) = b'a'

abbrev hmac : Text → Text → Text
hmac secret message =
    hex_digit (sum secret - sum message) ∷ hex_digit (sum message - sum secret) ∷ []

value : ℕ → Text → ℕ
value n [] = n
value n (c ∷ s) = value (n * 10 + (c - b'0')) s

number : Text → Option ℤ
number s = some (pos (value 0 s))

value-append : (n c : ℕ) (s : Text) → value n (s ++ (c ∷ [])) ≡ value n s * 10 + (c - b'0')
unfolding value
value-append n c [] = refl
value-append n c (d ∷ s) = value-append (n * 10 + (d - b'0')) c s

value-digits : (fuel n : ℕ) → n < fuel → value 0 (digits_from fuel n) ≡ n
unfolding digits_from value
value-digits zero n h = omega arith
value-digits (suc fuel) n h = elim (Bool-cases (ltb n 10)) [
  | inl e ↦ rw e (omega arith)
  | inr e ↦
      rw
        (
          e,
          value-append 0 (b'0' + n % 10) (digits_from fuel (n / 10)),
          value-digits fuel (n / 10) (omega (arith, ltb→le n 10 e)),
        )
        (omega arith)
]

number-digits : (n : ℕ) → number (digits n) ≡ some (pos n)
unfolding number digits
number-digits n = ap (λ v. some (pos v)) (value-digits (suc n) n (omega arith))

is_lower_hex-hex_digit : (n : ℕ) → is_lower_hex (hex_digit n) ≡ true
is_lower_hex-hex_digit zero = refl
is_lower_hex-hex_digit (suc n) = refl

primitives : Primitives hmac number
primitives = record {
  full = λ s m. ground arith;
  is_hex =
      λ s m. (is_lower_hex-hex_digit (sum s - sum m), (is_lower_hex-hex_digit (sum m - sum s), tt));
  reads = number-digits;
}

abbrev body : Text
body = b'{' ∷ b'}' ∷ []

abbrev other_body : Text
other_body = b'[' ∷ b']' ∷ []

abbrev secret : Text
secret = b'k' ∷ b'e' ∷ b'y' ∷ []

accepted :
    check_webhook hmac number 310 body (some (sign_webhook hmac number body secret 17)) secret 300
    ≡ ok tt
unfolding check_webhook sign_webhook digits digits_from print_int trim_start trim_end split
    find_part parts_of hex_bytes number value
accepted = refl

too_late :
    check_webhook hmac number 318 body (some (sign_webhook hmac number body secret 17)) secret 300
    ≡ err outside_tolerance
unfolding check_webhook sign_webhook digits digits_from print_int trim_start trim_end split
    find_part parts_of hex_bytes number value
too_late = refl

check_webhook-sign_webhook_example :
    (check_webhook hmac number 310 body
        (some (sign_webhook hmac number other_body secret 17))
        secret
        300
      ≡ ok tt)
    ↔ ((distance 310 (pos 17) ≤ 300)
        × (hex_bytes (mac hmac number secret (pos 17) other_body)
            ≡ hex_bytes (mac hmac number secret (pos 17) body)))
check_webhook-sign_webhook_example =
    check_webhook-sign_webhook hmac number primitives 310 body secret other_body secret 17 300
