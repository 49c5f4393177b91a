-- ===== src/Orders/Follow/Tests.antt =====
-- A stranded order that has been recovered.
use Prim.Native.String.{String}
use boundless_stock.Prelude.{ℕ, ◌≡◌, refl, true, false, some, [], ◌∷◌, ok}
use boundless_stock.History.Records.{RawRequest}
use boundless_stock.Orders.Follow.{
  FollowedMirror, Order, Read, recovered, to_order, get_order, read_order, next_step,
}

abbrev request : RawRequest
request = record {
  user = "0xAB";
  direction = 0;
  amount_in = 100;
  min_amount_out = 95;
  amount_out = 97;
  created_at = 5;
  settled_at = 6;
  status = 4;
  failure_reason = 0;
  lz_nonce = 3;
}

abbrev mirror : FollowedMirror
mirror = record {
  next_request_id = ok 13;
  get_request = λ id. ok (some (request, ("usd", "stock")));
  get_fees =
      λ id. ok (some (record { partner_id = 8; state = 2; partner_fee = 1; platform_fee = 1 }));
}

abbrev held : ℕ → Read String
held id = ok "0"

abbrev followed_order : Order
followed_order =
    record (to_order 12 (request, ("usd", "stock"))
      (some (record { partner_id = 8; state = 2; partner_fee = 1; platform_fee = 1 }))) {
        stranded_held = some "0";
      }

follow :
    get_order false
      (some (record { mirror = true; has_request = true }))
      mirror
      held
      (b'1' ∷ b'2' ∷ [])
    ≡ ok (followed_order, recovered false)
unfolding get_order read_order next_step
follow = refl
