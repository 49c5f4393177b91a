-- ===== src/Deploy.antt =====
-- Deploying a deployment's tokens: `reuse` of infra/lib/reuse.ts, `endpointOf` of
-- infra/modules/00-endpoints.ts, `deployHomeToken` of infra/modules/01-token.ts and
-- `deployMirrorTokens` of infra/modules/02-mirrors.ts. The chains are an argument; a call may throw.
pub mod Recorded
pub mod Placed
pub mod Again
mod Tests
use Prim.Native.String.{String}
use text.Mathlib.Text.{◌==◌ as str_eq}
use boundless_stock.Prelude.{
  ℕ, ◌+◌, ◌==◌, ◌&&◌, not, Bool, true, false, Option, none, some, List, [], ◌∷◌, ◌++◌,
  if◌then◌else◌, Result, ok, err, ◌>>=◌, throw_if, or_else, lookup, length, string_eq,
}
use boundless_stock.Manifest.{
  ManifestError, ChainDeployment, Manifest, step_ok, mirrors, assets, contract_of, not_empty,
  set_contract, record_step,
}

pub data DeployError : Type 0 where
  no_endpoint : String → DeployError
  of_manifest : ManifestError → DeployError
  existing_without_code decimals_differ non_zero_supply call_threw : DeployError

pub data Artifact : Type 0 where
  tokenized_stock omni_token : Artifact

pub record TokenSpec : Type 0 where
  pub name : String
  pub symbol : String
  pub decimals : ℕ
  pub initial_supply : ℕ
  pub existing_token : Option String

-- A contract's constructor and its arguments, but for the deployer, which the chain knows.
pub data Construction : Type 0 where
  token : Artifact → TokenSpec → String → ℕ → Construction
  adapter : String → String → Construction

-- The calls on a chain, given by its key.
pub record Net (World : Type 0) : Type 0 where
  pub has_code : String → String → World → Result DeployError Bool
  pub deploy : String → Construction → World → Result DeployError (String × World)
  pub total_supply : String → String → World → Result DeployError ℕ
  pub decimals : String → String → World → Result DeployError ℕ
  pub read_shared_decimals : String → String → World → Result DeployError ℕ
  pub symbol : String → String → World → Result DeployError String

pub record DeploymentConfig : Type 0 where
  pub token : TokenSpec
  pub quote_asset : TokenSpec
  pub home_key : String
  pub mirror_keys : List String

abbrev pub from_manifest : {A : Type 0} → Result ManifestError A → Result DeployError A
from_manifest (ok a) = ok a
from_manifest (err e) = err (of_manifest e)

abbrev pub endpoint_in : Option ChainDeployment → Option String
endpoint_in none = none
endpoint_in (some c) = not_empty (some c.lz_endpoint)

unfoldable pub endpoint_of : Manifest → String → Result DeployError String
endpoint_of m key = or_else (no_endpoint key) (endpoint_in (lookup key m.chains))

module _ {World : Type 0} (net : Net World) where
  abbrev pub if_code : String → Bool → Option String
  if_code a true = some a
  if_code a false = none

  abbrev pub reuse_address : String → Option String → World → Result DeployError (Option String)
  reuse_address chain none w = ok none
  reuse_address chain (some a) w = net.has_code chain a w >>= λ b. ok (if_code a b)

  -- The recorded address, where there is code at it.
  abbrev pub reuse : Manifest → String → String → World → Result DeployError (Option String)
  reuse m chain name w = reuse_address chain (contract_of (lookup chain m.chains) name) w

  -- `existing ?? await deploy(...)`
  abbrev pub or_deploy :
      String → Construction → Option String → World → Result DeployError (String × World)
  or_deploy chain c (some a) w = ok (a, w)
  or_deploy chain c none w = net.deploy chain c w

  abbrev pub is_some : Option String → Bool
  is_some none = false
  is_some (some a) = true

  -- Only a token of this run is asserted to be empty.
  abbrev pub check_empty : String → String → Option String → World → Result DeployError (Unit {0})
  check_empty chain a existing w = net.total_supply chain a w >>= λ supply.
      throw_if (not (is_some existing) && not (supply == 0)) non_zero_supply

  abbrev pub set_all : String → String → String → Manifest → Result DeployError Manifest
  set_all key base quote m = from_manifest (set_contract key "TokenizedStock" base m) >>= λ m.
      from_manifest (set_contract key "QuoteAsset" quote m) >>= λ m.
      from_manifest (set_contract key "TokenizedStockOft" base m) >>= λ m.
      from_manifest (set_contract key "QuoteAssetOft" quote m)

  pub deploy_mirror :
      DeploymentConfig → String → Manifest → World → Result DeployError (Manifest × World)
  deploy_mirror cfg key m w = endpoint_of m key >>= λ endpoint.
      reuse m key "TokenizedStock" w >>= λ existing_base.
      or_deploy key (token tokenized_stock cfg.token endpoint 0) existing_base w >>= λ (base, w).
      reuse m key "QuoteAsset" w >>= λ existing_quote.
      or_deploy key (token omni_token cfg.quote_asset endpoint 0) existing_quote w >>= λ (quote, w).
      check_empty key base existing_base w >>= λ _.
      check_empty key quote existing_quote w >>= λ _. set_all key base quote m >>= λ m. ok (m, w)

  pub deploy_mirrors :
      DeploymentConfig → List String → Manifest → World → Result DeployError (Manifest × World)
  deploy_mirrors cfg [] m w = ok (m, w)
  deploy_mirrors cfg (key ∷ keys) m w =
      deploy_mirror cfg key m w >>= λ (m, w). deploy_mirrors cfg keys m w

  -- `now` is the time of the step.
  pub deploy_mirror_tokens :
      DeploymentConfig → ℕ → Manifest → World → Result DeployError (Manifest × World)
  deploy_mirror_tokens cfg now m w = deploy_mirrors cfg cfg.mirror_keys m w >>= λ (m, w).
      ok (record_step "02-mirrors" step_ok (mirrors (length cfg.mirror_keys)) now m, w)

  abbrev pub set_both :
      String → String → String → String → String → Manifest → Result DeployError Manifest
  set_both key token_key oft_key underlying oft m =
      from_manifest (set_contract key token_key underlying m) >>= λ m.
      from_manifest (set_contract key oft_key oft m)

  -- With the token's address and its OFT's; an existing token is adapted, else one is launched.
  abbrev pub home_asset :
      String
      → String
      → TokenSpec
      → Artifact
      → String
      → String
      → Option String
      → Manifest
      → World
      → Result DeployError ((String × String) × (Manifest × World))
  home_asset home endpoint spec artifact token_key oft_key (some underlying) m w =
      net.has_code home underlying w >>= λ code. throw_if (not code) existing_without_code >>= λ _.
      net.decimals home underlying w >>= λ decimals.
      throw_if (not (decimals == spec.decimals)) decimals_differ >>= λ _.
      reuse m home oft_key w >>= λ existing.
      or_deploy home (adapter underlying endpoint) existing w >>= λ (oft, w).
      set_both home token_key oft_key underlying oft m >>= λ m. ok ((underlying, oft), (m, w))
  home_asset home endpoint spec artifact token_key oft_key none m w =
      reuse m home token_key w >>= λ existing.
      or_deploy home (token artifact spec endpoint spec.initial_supply) existing w >>= λ (a, w).
      set_both home token_key oft_key a a m >>= λ m. ok ((a, a), (m, w))

  pub deploy_home_asset :
      String
      → String
      → TokenSpec
      → Artifact
      → String
      → String
      → Manifest
      → World
      → Result DeployError ((String × String) × (Manifest × World))
  deploy_home_asset home endpoint spec artifact token_key oft_key m w =
      home_asset home endpoint spec artifact token_key oft_key (not_empty spec.existing_token) m w

  -- What is read back at the end is only printed, but a read may throw.
  abbrev pub read_back : String → String → String → World → Result DeployError (ℕ × ℕ)
  read_back home a oft w = net.total_supply home a w >>= λ supply. net.symbol home a w >>= λ _.
      net.read_shared_decimals home oft w >>= λ shared. ok (supply, shared)

  pub deploy_home_token :
      DeploymentConfig
      → ℕ
      → Manifest
      → World
      → Result DeployError ((String × String) × (Manifest × World))
  deploy_home_token cfg now m w = endpoint_of m cfg.home_key >>= λ endpoint.
      deploy_home_asset cfg.home_key endpoint cfg.token tokenized_stock "TokenizedStock"
        "TokenizedStockOft" m w
      >>= λ ((base, oft), (m, w)).
          deploy_home_asset cfg.home_key endpoint cfg.quote_asset omni_token "QuoteAsset"
            "QuoteAssetOft" m w
          >>= λ ((quote, _), (m, w)). read_back cfg.home_key base oft w >>= λ _. ok (
            (base, quote),
            (
              record_step "01-token" step_ok
                  (assets cfg.token.symbol cfg.quote_asset.symbol cfg.home_key
                    (is_some (not_empty cfg.token.existing_token)))
                  now m,
              w,
            ),
          )
