-- ===== src/Sdk/Verified.antt =====
-- Which signatures are accepted: `signWebhook` and `verifyWebhook` of packages/sdk/src/webhook.ts.
use boundless_stock.Prelude.{
  ℕ, ◌≤◌, ==_iff, ◌≡◌, ◌≢◌, ◌↔◌, refl, arith, ltb, leb, not, ◌&&◌, ◌||◌, Bool, true, false, Option,
  some, [], ◌∷◌, All, ok, ◌>>=◌, throw_if,
}
use boundless_stock.Prelude.Int.{ℤ, pos}
use boundless_stock.Sdk.{
  Text, digits, same_text, hex_bytes, distance, not_blank, find_part, mac, sign_webhook,
  check_webhook, outside_tolerance, wrong_signature,
}
use boundless_stock.Sdk.Header.{IsPlain, digits-IsPlain, parts_of-signed}

-- A lower-case hex digit.
abbrev pub is_lower_hex : ℕ → Bool
is_lower_hex c = (leb b'0' c && leb c b'9') || (leb b'a' c && leb c b'f')

is_lower_hex-IsPlain : (c : ℕ) → is_lower_hex c ≡ true → IsPlain c
is_lower_hex-IsPlain c h = (ground arith, ground arith, ground arith)

hex-IsPlain : (s : Text) → All (λ c. is_lower_hex c ≡ true) s → All IsPlain s
hex-IsPlain [] h = tt
hex-IsPlain (c ∷ s) h = (is_lower_hex-IsPlain c h.0, hex-IsPlain s h.1)

same_text_iff : (s t : Text) → (same_text s t ≡ true) ↔ (s ≡ t)
same_text_iff [] [] = ground arith
same_text_iff [] (d ∷ t) = ground arith
same_text_iff (c ∷ s) [] = ground arith
same_text_iff (c ∷ s) (d ∷ t) = ground (arith, ==_iff c d, same_text_iff s t)

-- HMAC-SHA256 in hex is not empty, and `Number` reads back a number in decimal.
pub record Primitives (hmac : Text → Text → Text) (number : Text → Option ℤ) : Type 0 where
  pub full : (secret message : Text) → hmac secret message ≢ []
  pub is_hex : (secret message : Text) → All (λ c. is_lower_hex c ≡ true) (hmac secret message)
  pub reads : (n : ℕ) → number (digits n) ≡ some (pos n)

module _ (hmac : Text → Text → Text) (number : Text → Option ℤ) (h : Primitives hmac number) where
  not_blank-full : (s : Text) → s ≢ [] → not_blank (some s) ≡ some s
  not_blank-full [] ne = ground arith
  not_blank-full (c ∷ s) ne = refl

  checks_iff :
      (late wrong : Bool)
      → ((throw_if late outside_tolerance >>= λ _. throw_if wrong wrong_signature) ≡ ok tt)
        ↔ ((late ≡ false) × (wrong ≡ false))
  checks_iff true wrong = ground arith
  checks_iff false true = ground arith
  checks_iff false false = ground arith

  ltb_iff : (a b : ℕ) → (ltb a b ≡ false) ↔ (b ≤ a)
  ltb_iff a b = ground arith

  not-false : (b : Bool) → (not b ≡ false) ↔ (b ≡ true)
  not-false b = ground arith

  checked_iff :
      (now t tolerance : ℕ) (a b : Text)
      → ((throw_if (ltb tolerance (distance now (pos t))) outside_tolerance >>= λ _.
            throw_if (not (same_text (hex_bytes a) (hex_bytes b))) wrong_signature)
          ≡ ok tt)
        ↔ ((distance now (pos t) ≤ tolerance) × (hex_bytes a ≡ hex_bytes b))
  checked_iff now t tolerance a b =
      let checks =
        checks_iff (ltb tolerance (distance now (pos t)))
          (not (same_text (hex_bytes a) (hex_bytes b))) in
      let in_time = ltb_iff tolerance (distance now (pos t)) in
      let same = same_text_iff (hex_bytes a) (hex_bytes b) in
      let right = not-false (same_text (hex_bytes a) (hex_bytes b)) in
      (
        λ e. (in_time.0 (checks.0 e).0, same.0 (right.0 (checks.0 e).1)),
        λ (d, e). checks.1 (in_time.1 d, right.1 (same.1 e)),
      )

  -- A webhook signed with a secret at a time is accepted for a body under a secret exactly where the
  -- time is within the tolerance of the clock, and the bytes of the two HMACs at that time agree.
  pub check_webhook-sign_webhook :
      (now : ℕ) (body secret signed_body signed_secret : Text) (t tolerance : ℕ)
      → (check_webhook hmac number now body
            (some (sign_webhook hmac number signed_body signed_secret t))
            secret
            tolerance
          ≡ ok tt)
        ↔ ((distance now (pos t) ≤ tolerance)
            × (hex_bytes (mac hmac number signed_secret (pos t) signed_body)
                ≡ hex_bytes (mac hmac number secret (pos t) body)))
  unfolding check_webhook sign_webhook find_part
  check_webhook-sign_webhook now body secret signed_body signed_secret t tolerance =
      rw
        (
          parts_of-signed (digits t) (mac hmac number signed_secret (pos t) signed_body)
              (digits-IsPlain t)
              (hex-IsPlain (mac hmac number signed_secret (pos t) signed_body)
                (h.is_hex signed_secret _)),
          h.reads t,
          not_blank-full (mac hmac number signed_secret (pos t) signed_body)
              (h.full signed_secret _),
        )
        (checked_iff now t tolerance (mac hmac number signed_secret (pos t) signed_body)
          (mac hmac number secret (pos t) body))
