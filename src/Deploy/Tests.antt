-- ===== src/Deploy/Tests.antt =====
-- Two mirrors, of which one has_contract its stock already; and a home chain with an existing token.
use Prim.Native.String.{String}
use text.Mathlib.Text.{◌==◌ as str_eq}
use text.Mathlib.TextEquality.{eq_iff}
use boundless_stock.Prelude.{
  ◌≡◌, refl, arith, Bool, true, false, ◌&&◌, ◌||◌, none, some, List, [], ◌∷◌, ok, err, ok-same,
}
use boundless_stock.Manifest.{
  ChainDeployment, Manifest, mirror, record_step, set_contract, step_ok, mirrors,
}
use boundless_stock.Deploy.{
  existing_without_code, Construction, token, adapter, tokenized_stock, omni_token, TokenSpec, Net,
  DeploymentConfig, endpoint_of, deploy_mirror, deploy_mirrors, deploy_mirror_tokens,
  deploy_home_asset,
}
use boundless_stock.Deploy.Placed.{SteadyNet}
use boundless_stock.Deploy.Again.{deploy_mirror_tokens-again}

-- The contracts with code, newest first.
abbrev World : Type 0
World = List (String × String)

abbrev has_contract : String → String → World → Bool
has_contract c a [] = false
has_contract c a ((d, b) ∷ w) = (str_eq c d && str_eq a b) || has_contract c a w

abbrev address_of : Construction → String
address_of (token tokenized_stock spec endpoint supply) = "0x5"
address_of (token omni_token spec endpoint supply) = "0x6"
address_of (adapter underlying endpoint) = "0x7"

abbrev net : Net World
net = record {
  has_code = λ c a w. ok (has_contract c a w);
  deploy = λ c k w. ok (address_of k, (c, address_of k) ∷ w);
  total_supply = λ c a w. ok 0;
  decimals = λ c a w. ok 18;
  read_shared_decimals = λ c a w. ok 6;
  symbol = λ c a w. ok "AAPL";
}

address_of-full : (k : Construction) → str_eq (address_of k) "" ≡ false
address_of-full (token tokenized_stock spec endpoint supply) = refl
address_of-full (token omni_token spec endpoint supply) = refl
address_of-full (adapter underlying endpoint) = refl

has-more :
    (c d b a : String) (w : World)
    → has_contract d b w ≡ true
    → has_contract d b ((c, a) ∷ w) ≡ true
has-more c d b a w q = ground arith

has-deployed :
    (c : String) (k : Construction) (a : String) (w w' : World)
    → net.deploy c k w ≡ ok (a, w')
    → (str_eq a "" ≡ false) × (has_contract c a w' ≡ true)
has-deployed c k a w w' p =
    ok-same (λ (x : String × World). (str_eq x.0 "" ≡ false) × (has_contract c x.0 x.1 ≡ true))
      (address_of k, (c, address_of k) ∷ w) (a, w')
      (address_of-full k, ground (arith, eq_iff c c, eq_iff (address_of k) (address_of k))) p

has-stays :
    (c d b : String) (k : Construction) (a : String) (w w' : World)
    → net.deploy c k w ≡ ok (a, w')
    → has_contract d b w ≡ true
    → has_contract d b w' ≡ true
has-stays c d b k a w w' p q =
    ok-same (λ (x : String × World). has_contract d b x.1 ≡ true)
      (address_of k, (c, address_of k) ∷ w) (a, w') (has-more c d b (address_of k) w q) p

abbrev steady : SteadyNet net
steady = record {
  code_at = has_contract;
  supply_at = λ c a w. 0;
  answers = λ c a w. refl;
  supply_answers = λ c a w. refl;
  deployed = has-deployed;
  stays = has-stays;
}

abbrev spec : TokenSpec
spec = record {
  name = "Apple";
  symbol = "AAPL";
  decimals = 18;
  initial_supply = 1000;
  existing_token = some "0x9";
}

abbrev config : DeploymentConfig
config = record {
  token = spec;
  quote_asset = spec;
  home_key = "base";
  mirror_keys = "arc" ∷ "amoy" ∷ [];
}

abbrev chain : String → List (String × String) → String × ChainDeployment
chain key contracts = (
  key,
  record {
    key = key;
    eid = 2;
    role = mirror;
    lz_endpoint = "0xe";
    local_message_lib = none;
    contracts = contracts;
  },
)

abbrev before : Manifest
before = record {
  home_chain_key = "base";
  chains = chain "arc" (("TokenizedStock", "0x8") ∷ []) ∷ chain "amoy" [] ∷ [];
  peers = [];
  steps = [];
}

abbrev contracts : String → List (String × String)
contracts base =
    ("TokenizedStock", base)
    ∷ ("QuoteAsset", "0x6")
    ∷ ("TokenizedStockOft", base)
    ∷ ("QuoteAssetOft", "0x6")
    ∷ []

abbrev after : Manifest
after = record before {
  chains = chain "arc" (contracts "0x8") ∷ chain "amoy" (contracts "0x5") ∷ [];
  steps =
      record { module_name = "02-mirrors"; status = step_ok; recorded_at = 5; detail = mirrors 2 }
      ∷ [];
}

abbrev world : World
world = ("amoy", "0x6") ∷ ("amoy", "0x5") ∷ ("arc", "0x6") ∷ ("arc", "0x8") ∷ []

first_run : deploy_mirror_tokens net config 5 before (("arc", "0x8") ∷ []) ≡ ok (after, world)
unfolding deploy_mirror_tokens deploy_mirrors deploy_mirror endpoint_of set_contract record_step
first_run = refl

no_code :
    deploy_home_asset net "base" "0xe" spec tokenized_stock "TokenizedStock" "TokenizedStockOft"
      before []
    ≡ err existing_without_code
unfolding deploy_home_asset
no_code = refl

deploy_mirror_tokens-again_example :
    deploy_mirror_tokens net config 9 after world
    ≡ ok (record_step "02-mirrors" step_ok (mirrors 2) 9 after, world)
deploy_mirror_tokens-again_example =
    deploy_mirror_tokens-again net steady config 5 9 before after (("arc", "0x8") ∷ []) world
      ((λ (e : ◌≡◌ {A = String} "arc" "amoy"). ground (arith, eq_iff "arc" "amoy"), tt), (tt, tt))
      first_run
