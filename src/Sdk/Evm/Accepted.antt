-- ===== src/Sdk/Evm/Accepted.antt =====
-- That the API accepts what the SDK authorizes.
use boundless_stock.Prelude.{
  ℕ, suc, ◌+◌, ◌/◌, ◌<◌, ◌≡◌, ◌≢◌, refl, inr, arith, Bool, true, false, Option, none, some, [], ◌∷◌,
  ◌++◌, either, ok, ltb,
}
use boundless_stock.Quote.{decimal, all_digits}
use boundless_stock.Orders.Build.Data.{PartnerOrder, EvmMirror, order_via}
use boundless_stock.Orders.Build.{auth_of, is_number, is_hex, via}
use boundless_stock.Orders.Build.Signed.{check_authorization_iff}
use boundless_stock.Sdk.{Text, digits_from, digits}
use boundless_stock.Sdk.Evm.{EvmOrderToAuthorize, or_given, message_of, authorize_evm_order}
use boundless_stock.Live.Printed.{all_digits-digits_from, decimal-digits_from}

digit_is-number : (s : Text) → s ≢ [] → all_digits s ≡ true → is_number s ≡ true
digit_is-number [] h k = ground arith
digit_is-number (c ∷ s) h k = k

either-ne-nil : (b : Bool) (x y : Text) → x ≢ [] → y ≢ [] → either b x y ≢ []
either-ne-nil true x y h k = k
either-ne-nil false x y h k = h

append-ne-nil : (s : Text) (c : ℕ) → s ++ (c ∷ []) ≢ []
append-ne-nil [] c = ground arith
append-ne-nil (d ∷ s) c = ground arith

digits-is_number : (n : ℕ) → is_number (digits n) ≡ true
unfolding digits digits_from
digits-is_number n =
    digit_is-number (digits_from (suc n) n)
      (either-ne-nil (ltb n 10) _ _ (append-ne-nil (digits_from n (n / 10)) _) (ground arith))
      (all_digits-digits_from (suc n) n)

decimal-digits : (n : ℕ) → decimal 0 (digits n) ≡ n
unfolding digits
decimal-digits n = decimal-digits_from (suc n) n (omega arith)

abbrev pub IsNumeral : Option Text → Type 0
IsNumeral none = Unit
IsNumeral (some s) = is_number s ≡ true

or_given-is_number :
    (n : ℕ) (o : Option Text) → IsNumeral o → is_number (or_given (digits n) o) ≡ true
or_given-is_number n none h = digits-is_number n
or_given-is_number n (some s) h = h

module _ (m : EvmMirror) (now : ℕ) (sign : PartnerOrder → Text) (t random : ℕ)
    (o : EvmOrderToAuthorize) where
  -- The order as it is signed.
  abbrev pub signed_order : PartnerOrder
  signed_order =
      message_of o (or_given (digits random) o.nonce)
        (or_given (digits (t / 1000 + 600)) o.deadline)

  -- The mirror knows the signer of the order's partner, a key and not a contract, who made a signature
  -- in hex of this order's hash.
  abbrev pub IsKnownSigner : Type 0
  IsKnownSigner =
      (signer : ℕ) × (digest : ℕ) × (m.signer_of o.partner_id ≡ ok signer)
      × (m.has_code signer ≡ ok false)
      × (m.hash_order signed_order ≡ ok digest)
      × (m.recover digest (sign signed_order) ≡ some signer)
      × (is_hex (sign signed_order) ≡ true)

  -- An order that its partner's registered signer authorizes with the SDK, with a nonce that is unused
  -- and a deadline that is ahead, each given as a number in decimal or not at all, passes the API's
  -- checks: the user is handed that order with that authorization.
  pub authorize_evm_order-via :
      IsNumeral o.nonce
      → IsNumeral o.deadline
      → IsKnownSigner
      → m.nonce_used o.partner_id signed_order.nonce ≡ ok false
      → now < signed_order.deadline
      → via m now o.user o.side o.amount_in o.min_amount_out o.partner_id o.fee_bps
          (some (authorize_evm_order sign t random o))
        ≡ ok (
            order_via o.side o.amount_in o.min_amount_out
              (auth_of m now signed_order (sign signed_order)))
  unfolding authorize_evm_order
  authorize_evm_order-via n d (signer, digest, known, key, hashed, own, hex) unused ahead =
      let authorized =
        (check_authorization_iff m now signed_order (sign signed_order)).1
          (ahead, unused, (signer, (known, inr (key, (digest, (hashed, own)))))) in
      rw
        (
          or_given-is_number random o.nonce n,
          or_given-is_number (t / 1000 + 600) o.deadline d,
          hex,
          authorized,
        )
        refl
