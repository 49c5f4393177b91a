-- ===== src/Config/Tests.antt =====
-- A deployment with an EVM home and a Solana mirror.
use boundless_stock.Prelude.{◌≡◌, refl, none, some, [], ◌∷◌, ok, err, Option, if◌then◌else◌}
use boundless_stock.Prelude.Int.{ℤ, pos}
use boundless_stock.Quote.{decimal, all_digits}
use boundless_stock.Config.{
  ChainConfig, DeploymentConfig, TokenConfig, SvmConfig, Text, undefined, given, Number, whole, evm,
  svm, load_config, duplicate_eid, supply_overflows, below_shared,
}
use boundless_stock.Config.Checked.{IsConfig, load_config-IsConfig}

abbrev home : ChainConfig
home = record {
  key = "base";
  name = "Base";
  eid = some 30184;
  rpc_url = "http://localhost";
  vm = none;
  chain_id = given 8453;
  svm_config = none;
}

abbrev mirror : ChainConfig
mirror = record {
  key = "solana";
  name = "Solana";
  eid = some 30168;
  rpc_url = "http://localhost";
  vm = some svm;
  chain_id = undefined;
  svm_config = some (record {
    endpoint_program_id = "76y7";
    base_decimals = none;
    quote_decimals = some (whole 6);
  });
}

-- A million of each, at 18 decimals on an EVM chain.
abbrev token : TokenConfig
token = record {
  decimals = whole 18;
  initial_supply = b'1' ∷ b'0' ∷ b'0' ∷ b'0' ∷ b'0' ∷ b'0' ∷ b'0' ∷ b'.' ∷ b'5' ∷ [];
}

-- `BigInt` of digits; other texts it reads are not used here.
abbrev digits_only : Text → Option ℤ
digits_only s = if all_digits s then some (pos (decimal 0 s)) else none

abbrev config : DeploymentConfig
config = record {
  name = "local";
  home_chain = home;
  mirror_chains = mirror ∷ [];
  token = token;
  quote_asset = token;
}

loaded : load_config digits_only config ≡ ok config
unfolding load_config boundless_stock.Config.validate_chain boundless_stock.Config.validate_decimals
loaded = refl

same_eid :
    load_config digits_only
      (record config { mirror_chains = record mirror { eid = some 30184 } ∷ [] })
    ≡ err duplicate_eid
unfolding load_config boundless_stock.Config.validate_chain boundless_stock.Config.validate_decimals
same_eid = refl

load_config-IsConfig_example : IsConfig digits_only config
load_config-IsConfig_example = load_config-IsConfig digits_only config config loaded
