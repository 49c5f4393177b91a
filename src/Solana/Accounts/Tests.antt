-- ===== src/Solana/Accounts/Tests.antt =====
-- A pending request's account, and one of a partner.
use boundless_stock.Prelude.{◌≡◌, refl, arith, replicate, ok}
use boundless_stock.Prelude.Int.{pos, negsuc}
use boundless_stock.Prelude.Bytes.{bytes_of, concat}
use boundless_stock.Solana.Accounts.{read_request}
use boundless_stock.Solana.Accounts.Layout.{
  RequestAccount, request_fields, request_of, read_request-fields,
}
use boundless_stock.Solana.Tests.{number_keys}

abbrev pending : RequestAccount
pending = record {
  disc = replicate 8 9;
  user = bytes_of 32 1;
  direction = 1;
  tokens = replicate 64 3;
  amount_in = 900;
  min_amount_out = 800;
  amount_out = 0;
  created_at = pos 1700000000;
  settled_at = negsuc 4;
  status = 1;
  failure_reason = 0;
  bump = 254;
  lz_nonce = 12;
}

read_request-fields_example :
    read_request number_keys (concat (request_fields pending)) ≡ ok (request_of 1 pending)
read_request-fields_example =
    read_request-fields number_keys pending 1
      (
        refl,
        refl,
        omega arith,
        omega arith,
        omega arith,
        (omega arith, omega arith),
        (omega arith, omega arith),
        omega arith,
      )
      (refl, refl)
