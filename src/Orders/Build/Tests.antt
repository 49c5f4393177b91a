-- ===== src/Orders/Build/Tests.antt =====
-- A partner's order on a mirror whose contracts are 10, 20 and 30.
use boundless_stock.Prelude.{◌≡◌, ◌↔◌, refl, false, none, some, List, [], ◌∷◌, All, ok, err}
use boundless_stock.Prelude.Int.{pos}
use boundless_stock.Quote.{buy}
use boundless_stock.Orders.Build.Data.{
  EvmMirror, PartnerOrder, Authorization, Transaction, authorization_expired, approve, order_via,
}
use boundless_stock.Orders.Build.{check_authorization, build_evm, order_of, auth_of}
use boundless_stock.Orders.Build.Signed.{
  IsAuthorized, IsOwnTransaction, Terms, check_authorization_iff, build_evm-IsOwn,
}

-- The partner's signer is 77; every order hashes to 5, and the signature recovers 77.
abbrev mirror : EvmMirror
mirror = record {
  request = 10;
  quote_asset = 20;
  stock = 30;
  nonce_used = λ partner nonce. ok false;
  signer_of = λ partner. ok 77;
  has_code = λ a. ok false;
  hash_order = λ o. ok 5;
  quote_trade = λ side amount least. ok (pos 9);
  allowance = λ token owner spender. ok 99;
  recover = λ digest signature. some 77;
}

abbrev authorization : Authorization
authorization = record {
  nonce = b'4' ∷ [];
  deadline = b'9' ∷ b'0' ∷ [];
  signature = b'0' ∷ b'x' ∷ b'a' ∷ [];
}

abbrev signed : PartnerOrder
signed = order_of mirror 60 1 buy 100 95 8 25 authorization

-- The allowance is one short.
abbrev built : List Transaction
built =
    record { to = 20; call = approve 10 100; value = pos 0 }
    ∷ record {
      to = 10;
      call = order_via buy 100 95 (auth_of mirror 60 signed authorization.signature);
      value = pos 9;
    }
    ∷ []

run_build : build_evm mirror 60 (some 1) buy 100 95 (some 8) 25 (some authorization) none ≡ ok built
unfolding build_evm check_authorization
run_build = refl

too_late :
    build_evm mirror 90 (some 1) buy 100 95 (some 8) 25 (some authorization) none
    ≡ err authorization_expired
unfolding build_evm check_authorization
too_late = refl

check_authorization_iff_example :
    (check_authorization mirror 60 signed authorization.signature ≡ ok tt)
    ↔ IsAuthorized mirror 60 signed authorization.signature
check_authorization_iff_example = check_authorization_iff mirror 60 signed authorization.signature

abbrev asked : Terms
asked = record { user = some 1; side = buy; amount = 100; least = 95; partner = some 8; fee = 25 }

build_evm-IsOwn_example : All (IsOwnTransaction mirror 60 asked) built
build_evm-IsOwn_example = build_evm-IsOwn mirror 60 asked (some authorization) none built run_build
