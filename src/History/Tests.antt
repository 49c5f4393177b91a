-- ===== src/History/Tests.antt =====
-- The history's theorems at concrete inputs.
use boundless_stock.Prelude.{ℕ, ◌+◌, refl, true, none, some, [], ◌∷◌, Has}
use boundless_stock.History.{EvmMirror, Chains, History, sync_history}
use boundless_stock.History.Records.{HistoryRecord, RawRequest, buy, evm, live, key_test, filled}
use boundless_stock.History.Sorted.{IsDistinct, IsNewestFirst}
use boundless_stock.History.Final.{sync_history-IsDistinct, sync_history-keeps_final}

abbrev pub raw : ℕ → RawRequest
raw id = record {
  user = "0xabc";
  direction = 0;
  amount_in = 100;
  min_amount_out = 90;
  amount_out = 95;
  created_at = 1_000 + id;
  settled_at = 0;
  status = 1;
  failure_reason = 0;
  lz_nonce = id;
}

abbrev base_mirror : EvmMirror
base_mirror = record {
  key = "base";
  name = "Base";
  configured = true;
  next_request_id = some 3;
  get_request = λ id. some (raw id);
  get_fees = λ id. some 7;
}

abbrev chains : Chains
chains = record {
  format_units = λ n d. "1";
  key_le = λ a b. true;
  symbols = record { base = "tAAPL"; quote = "USDC" };
  base_dec = 18;
  quote_dec = 6;
  evm_mirrors = base_mirror ∷ [];
  solana_mirrors = [];
  home_key = "home";
  stranded_held = λ r. none;
}

-- An order that was filled before.
abbrev settled : HistoryRecord
settled = record {
  key = ("base", 1);
  chain_key = "base";
  chain_name = "Base";
  vm = evm;
  id = 1;
  user = "0xabc";
  direction = buy;
  token_in = "USDC";
  token_out = "tAAPL";
  amount_in = "100";
  min_amount_out = "90";
  amount_out = "95";
  status = filled;
  failure_reason = 0;
  lz_nonce = 1;
  created_at = 1_001;
  settled_at = 1_100;
  stranded_held = none;
  partner_id = none;
}

abbrev stored : History
stored = record {
  deployment = "localnet";
  instance_id = some "2026";
  records = settled ∷ [];
  unreachable = [];
}

sync_history-IsDistinct_example :
    IsDistinct (sync_history chains "localnet" "2026" stored).records
    × IsNewestFirst (sync_history chains "localnet" "2026" stored).records
sync_history-IsDistinct_example = sync_history-IsDistinct chains "localnet" "2026" stored

sync_history-keeps_final_example :
    Has settled (sync_history chains "localnet" "2026" stored).records
unfolding live
sync_history-keeps_final_example =
    sync_history-keeps_final chains "localnet" "2026" stored ("base", 1) settled
      (unfold key_test in refl) refl
