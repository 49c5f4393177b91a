-- ===== src/Solana/Table/Tests.antt =====
-- The table of a client's orders.
use boundless_stock.Prelude.{
  ℕ, ◌≤◌, ◌≡◌, refl, false, some, List, [], ◌∷◌, map, length, All, ok, err, nat_eq,
}
use boundless_stock.Prelude.Bytes.{read_le, write_le, write_be}
use boundless_stock.Sdk.{hex_bytes}
use boundless_stock.Solana.{Instruction, meta}
use boundless_stock.Solana.Accounts.{read_next_request_id, read_next_nonce}
use boundless_stock.Solana.Orders.{
  next_request_id, next_outbound_nonce, encode_params, build_open, partner_instructions,
}
use boundless_stock.Solana.Table.{
  TableProgram, add_all, table_addresses, slices, slices_from, order_addresses, create_table,
}
use boundless_stock.Solana.Table.Extended.{joined}
use boundless_stock.Solana.Table.Sent.{IsForOrders, create_table-sent}
use boundless_stock.Solana.Tests.{number_keys, client, net}

abbrev program : TableProgram ℕ ℕ
program = record {
  create = ok (record { program_id = 70; keys = []; data' = [] }, 71);
  extend = λ table keys. record {
    program_id = 70;
    keys = map (λ k. meta number_keys k false false) keys;
    data' = [];
  };
  get_table = λ key. ok (some key);
}

abbrev sent : List (Instruction ℕ)
unfolding order_addresses partner_instructions build_open next_request_id next_outbound_nonce
    encode_params read_le write_le write_be read_next_request_id read_next_nonce hex_bytes add_all
    table_addresses slices slices_from
sent = elim (create_table number_keys client net program 1 2) [ ok r ↦ r.1 | err e ↦ [] ]

sent_is : create_table number_keys client net program 1 2 ≡ ok (71, sent)
unfolding order_addresses partner_instructions build_open next_request_id next_outbound_nonce
    encode_params read_le write_le write_be read_next_request_id read_next_nonce hex_bytes add_all
    table_addresses slices slices_from
sent_is = refl

create_table-sent_example :
    (create : Instruction ℕ) × (key : ℕ) × (parts : List (List ℕ)) × (program.create
      ≡ ok (create, key))
    × (sent ≡ create ∷ map (program.extend key) parts)
    × All (λ part. length part ≤ 20) parts
    × IsForOrders number_keys client net program 1 2 (joined parts)
create_table-sent_example = create_table-sent number_keys client net program 1 2 71 sent sent_is
