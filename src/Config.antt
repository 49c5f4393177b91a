-- ===== src/Config.antt =====
-- The checks of a deployment's configuration: `loadConfig` and `validateChain` of
-- infra/lib/config.ts and `validateDecimals` of infra/lib/decimals.ts, on the parsed file with its
-- variables replaced. A text field that is missing is the empty text, which the checks treat alike.
pub mod Checked
mod Tests
use Prim.Native.String.{String}
use text.Mathlib.Text.{◌==◌ as str_eq}
use boundless_stock.Prelude.{
  ℕ, ◌-◌, ◌*◌, ◌^◌, ◌==◌, Bool, true, false, not, ◌&&◌, ◌||◌, Option, none, some, List, [], ◌∷◌,
  map, leb, ltb, if◌then◌else◌, Result, ok, err, ◌>>=◌, ◌>>◌, throw_if, Eq, nat_eq, string_eq,
}
use boundless_stock.Prelude.Int.{ℤ, pos, negsuc}

pub data ConfigError : Type 0 where
  missing_field unknown_vm missing_chain_id missing_program chain_id_on_svm : ConfigError
  missing_name no_mirrors duplicate_eid duplicate_key below_shared supply_overflows bad_supply :
      ConfigError

-- A number: whole, between n and n + 1, or below zero.
pub data Number : Type 0 where
  whole : ℕ → Number
  fraction : ℕ → Number
  below_zero : Number

pub data VmName : Type 0 where
  evm svm other_vm : VmName

-- A number of the file that may be absent, and may be null.
pub data Field : Type 0 where
  undefined null : Field
  given : ℕ → Field

-- `svm` of a chain: its program and the decimals that it sets.
pub record SvmConfig : Type 0 where
  pub endpoint_program_id : String
  pub base_decimals : Option Number
  pub quote_decimals : Option Number

pub record ChainConfig : Type 0 where
  pub key : String
  pub name : String
  pub eid : Option ℕ
  pub rpc_url : String
  pub vm : Option VmName
  pub chain_id : Field
  pub svm_config : Option SvmConfig

-- A text, as its characters.
abbrev pub Text : Type 0
Text = List ℕ

pub record TokenConfig : Type 0 where
  pub decimals : Number
  pub initial_supply : Text

pub record DeploymentConfig : Type 0 where
  pub name : String
  pub home_chain : ChainConfig
  pub mirror_chains : List ChainConfig
  pub token : TokenConfig
  pub quote_asset : TokenConfig

abbrev pub is_empty : String → Bool
is_empty s = str_eq s ""

abbrev pub is_absent {ℓ} : {A : Type ℓ} → Option A → Bool
is_absent none = true
is_absent (some a) = false

abbrev pub is_undefined : Field → Bool
is_undefined undefined = true
is_undefined null = false
is_undefined (given n) = false

-- `undefined` or `null`.
abbrev pub is_nullish : Field → Bool
is_nullish undefined = true
is_nullish null = true
is_nullish (given n) = false

abbrev pub vm_of : ChainConfig → VmName
vm_of c = elim c.vm [ none ↦ evm | some v ↦ v ]

abbrev pub lacks_program : Option SvmConfig → Bool
lacks_program none = true
lacks_program (some s) = is_empty s.endpoint_program_id

abbrev pub check_vm : VmName → ChainConfig → Result ConfigError (Unit {0})
check_vm evm c = throw_if (is_nullish c.chain_id) missing_chain_id
check_vm svm c =
    throw_if (lacks_program c.svm_config) missing_program
    >> throw_if (not (is_undefined c.chain_id)) chain_id_on_svm
check_vm other_vm c = err unknown_vm

pub validate_chain : ChainConfig → Result ConfigError (Unit {0})
validate_chain c =
    throw_if (is_empty c.key || is_empty c.name || is_absent c.eid || is_empty c.rpc_url)
      missing_field
    >> check_vm (vm_of c) c

abbrev pub each {ℓ} :
    {A : Type ℓ} → (A → Result ConfigError (Unit {0})) → List A → Result ConfigError (Unit {0})
each f [] = ok tt
each f (x ∷ xs) = f x >> each f xs

pub data AssetSide : Type 0 where
  base_side quote_side : AssetSide

abbrev pub asset_of : DeploymentConfig → AssetSide → TokenConfig
asset_of cfg base_side = cfg.token
asset_of cfg quote_side = cfg.quote_asset

abbrev pub svm_default_max_decimals : ℕ
svm_default_max_decimals = 9

-- `Math.min(configured, SVM_DEFAULT_MAX_DECIMALS)`
abbrev pub capped : Number → Number
capped (whole n) =
    if leb n svm_default_max_decimals then whole n else whole svm_default_max_decimals
capped (fraction n) =
    if ltb n svm_default_max_decimals then fraction n else whole svm_default_max_decimals
capped below_zero = below_zero

abbrev pub set_decimals : AssetSide → Option SvmConfig → Option Number
set_decimals side none = none
set_decimals base_side (some s) = s.base_decimals
set_decimals quote_side (some s) = s.quote_decimals

abbrev pub or_capped : Option Number → Number → Number
or_capped none n = capped n
or_capped (some d) n = d

abbrev pub decimals_on : VmName → DeploymentConfig → ChainConfig → AssetSide → Number
decimals_on evm cfg c side = (asset_of cfg side).decimals
decimals_on other_vm cfg c side = (asset_of cfg side).decimals
decimals_on svm cfg c side = or_capped (set_decimals side c.svm_config) (asset_of cfg side).decimals

abbrev pub local_decimals : DeploymentConfig → ChainConfig → AssetSide → Number
local_decimals cfg c side = decimals_on (vm_of c) cfg c side

abbrev pub u64_max : ℕ
u64_max = 2 ^ 64 - 1

abbrev pub overflows : ℤ → ℕ → Bool
overflows (pos n) dec = ltb u64_max (n * 10 ^ dec)
overflows (negsuc n) dec = false

abbrev pub check_supply : VmName → Option ℤ → ℕ → Result ConfigError (Unit {0})
check_supply evm supply dec = ok tt
check_supply other_vm supply dec = ok tt
check_supply svm none dec = err bad_supply
check_supply svm (some n) dec = throw_if (overflows n dec) supply_overflows

abbrev pub check_decimals : VmName → Option ℤ → Number → Result ConfigError (Unit {0})
check_decimals vm supply (whole n) = throw_if (ltb n 6) below_shared >> check_supply vm supply n
check_decimals vm supply (fraction n) = err below_shared
check_decimals vm supply below_zero = err below_shared

-- `text.split(".")[0]`
abbrev pub before_point : Text → Text
before_point [] = []
before_point (c ∷ s) = if c == b'.' then [] else c ∷ before_point s

-- `big_int` is `BigInt` of a text; `none` is its SyntaxError.
module _ (big_int : Text → Option ℤ) where
  abbrev pub validate_side :
      DeploymentConfig → ChainConfig → AssetSide → Result ConfigError (Unit {0})
  validate_side cfg c side =
      check_decimals (vm_of c) (big_int (before_point (asset_of cfg side).initial_supply))
        (local_decimals cfg c side)

  pub validate_decimals : DeploymentConfig → List ChainConfig → Result ConfigError (Unit {0})
  validate_decimals cfg chains =
      each (λ c. validate_side cfg c base_side >> validate_side cfg c quote_side) chains

module _ {A : Type 0} ⦃e : Eq A⦄ where
  abbrev pub is_among : A → List A → Bool
  is_among a [] = false
  is_among a (x ∷ xs) = if e.beq a x then true else is_among a xs

  -- The loops on `eids` and `keys`; a key is not empty there, so `if (seen)` asks whether it is set.
  abbrev pub all_new : ConfigError → List A → List A → Result ConfigError (Unit {0})
  all_new x seen [] = ok tt
  all_new x seen (a ∷ more) = throw_if (is_among a seen) x >> all_new x (a ∷ seen) more

abbrev pub eid_of : ChainConfig → ℕ
eid_of c = elim c.eid [ none ↦ 0 | some n ↦ n ]

abbrev pub all_chains : DeploymentConfig → List ChainConfig
all_chains cfg = cfg.home_chain ∷ cfg.mirror_chains

abbrev pub is_nil : List ChainConfig → Bool
is_nil [] = true
is_nil (c ∷ cs) = false

pub load_config : (Text → Option ℤ) → DeploymentConfig → Result ConfigError DeploymentConfig
load_config big_int cfg =
    (throw_if (is_empty cfg.name) missing_name
      >> validate_chain cfg.home_chain
      >> throw_if (is_nil cfg.mirror_chains) no_mirrors
      >> each validate_chain cfg.mirror_chains
      >> all_new duplicate_eid [] (map eid_of (all_chains cfg))
      >> validate_decimals big_int cfg (all_chains cfg)
      >> all_new duplicate_key [] (map (λ c. c.key) (all_chains cfg)))
    >>= λ _. ok cfg
