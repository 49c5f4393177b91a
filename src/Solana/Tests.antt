-- ===== src/Solana/Tests.antt =====
-- Keys that are numbers, and a client over them.
use boundless_stock.Prelude.{
  ℕ, ◌+◌, true, none, some, [], ◌∷◌, replicate, length, ok, if◌then◌else◌, ◌==◌, nat_eq,
}
use boundless_stock.Prelude.Bytes.{bytes_of, little_endian, concat}
use boundless_stock.Solana.{Web3, meta}
use boundless_stock.Solana.Client.{Asset, Client, Net}

abbrev pub number_keys : Web3 ℕ
number_keys = record {
  public_key = λ bytes. ok (little_endian bytes);
  parse_key = λ text. ok (length text);
  to_buffer = bytes_of 32;
  find_address = λ seeds program. 1000 + length (concat seeds) + program;
  hash_of = λ name. bytes_of 32 77;
  text_bytes = λ text. 1 ∷ [];
  unit_limit = λ n. 2 ∷ bytes_of 4 n;
  default_key = 0;
  system_program = 60;
  ata_program = 40;
  token_program = 61;
  token_2022_program = 62;
  compute_budget_program = 50;
}

abbrev pub asset_at : ℕ → Asset ℕ
asset_at mint = record {
  mint = mint;
  oft_store = mint + 1;
  escrow = mint + 2;
  token_program = none;
  peers = (7, b'0' ∷ b'x' ∷ []) ∷ [];
}

abbrev pub client : Client ℕ
client = record {
  store = 20;
  program = 30;
  base = asset_at 100;
  quote = asset_at 200;
  home_eid = 7;
  home_relay = b'0' ∷ b'x' ∷ [];
  endpoint_program = 31;
  oft_program = 32;
}

abbrev pub net : Net ℕ
net = record {
  account_info = λ key. ok (if key == 20 then some (replicate 244 0) else none);
  quote_send = λ p. ok 5000;
  send_accounts = λ p. ok (meta number_keys 20 true true ∷ meta number_keys 1 true true ∷ []);
}
