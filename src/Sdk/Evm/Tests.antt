-- ===== src/Sdk/Evm/Tests.antt =====
-- An order with a random nonce and the usual deadline.
use boundless_stock.Prelude.{◌≡◌, refl, arith, false, none, some, [], ◌∷◌, ok, err, nat_eq}
use boundless_stock.Prelude.Int.{pos}
use boundless_stock.Quote.{buy}
use boundless_stock.Orders.Build.Data.{EvmMirror, PartnerOrder, order_via}
use boundless_stock.Orders.Build.{auth_of, via}
use boundless_stock.Sdk.{Text}
use boundless_stock.Sdk.Evm.{EvmOrderToAuthorize, no_event, authorize_evm_order, order_id_from_logs}
use boundless_stock.Sdk.Evm.Accepted.{signed_order, authorize_evm_order-via}

abbrev order : EvmOrderToAuthorize
order = record {
  user = 1;
  side = buy;
  amount_in = 900;
  min_amount_out = 800;
  partner_id = 9;
  fee_bps = 25;
  nonce = none;
  deadline = some (b'8' ∷ b'0' ∷ []);
}

abbrev mirror : EvmMirror
mirror = record {
  request = 10;
  quote_asset = 11;
  stock = 12;
  nonce_used = λ partner nonce. ok false;
  signer_of = λ partner. ok 7;
  has_code = λ signer. ok false;
  hash_order = λ o. ok 55;
  quote_trade = λ side amount least. ok (pos 5);
  allowance = λ asset user spender. ok 0;
  recover = λ digest signature. some 7;
}

abbrev sign : PartnerOrder → Text
sign o = b'0' ∷ b'x' ∷ b'a' ∷ []

not_found : order_id_from_logs (record { address = 3; request_id = none } ∷ []) 3 ≡ err no_event
unfolding order_id_from_logs
not_found = refl

authorize_evm_order-via_example :
    via mirror 70 1 buy 900 800 9 25 (some (authorize_evm_order sign 20000 17 order))
    ≡ ok (
        order_via buy 900 800 (
          auth_of mirror 70 (signed_order mirror 70 sign 20000 17 order) (b'0' ∷ b'x' ∷ b'a' ∷ [])))
authorize_evm_order-via_example =
    authorize_evm_order-via mirror 70 sign 20000 17 order tt refl
      (7, 55, refl, refl, refl, refl, refl) refl (omega arith)
