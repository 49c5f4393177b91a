-- ===== src/Partners.antt =====
-- Applying a deployment's partner configuration to its mirrors: `applyPartners` of
-- infra/lib/partners.ts. The mirrors' calls are an argument; keys are texts, and a call with a text
-- that is no key throws.
pub mod Closed
mod Tests
use Prim.Native.String.{String}
use text.Mathlib.Text.{◌==◌ as str_eq}
use boundless_stock.Prelude.{
  ℕ, Bool, true, false, ◌&&◌, not, Option, none, some, List, [], ◌∷◌, ◌++◌, map, lookup, string_eq,
  if◌then◌else◌, Dict,
}
use boundless_stock.Manifest.{Manifest, ChainDeployment, Role, home, mirror, not_empty}

-- What a partner has on one kind of chain.
pub record PartnerKeys : Type 0 where
  pub signer : String
  pub fee_recipient : String

pub record Partner : Type 0 where
  pub id : ℕ
  pub max_fee_bps : ℕ
  pub active : Option Bool
  pub evm : Option PartnerKeys
  pub svm : Option PartnerKeys

pub record PlatformFee : Type 0 where
  pub bps : ℕ
  pub evm : Option String
  pub svm : Option String

pub record PartnersConfig : Type 0 where
  pub partners : Option (List Partner)
  pub platform_fee : Option PlatformFee
  pub required : Option Bool

-- A mirror: an EVM chain with its SwapRequest contract, or a Solana client.
pub data Target : Type 0 where
  evm_mirror : String → String → Target
  svm_mirror : String → Target

pub record PartnerSettings : Type 0 where
  pub signer : String
  pub fee_recipient : String
  pub max_fee_bps : ℕ
  pub active : Bool

-- The calls `setPartner`, `setPlatformFee` and `setPartnerRequired`.
pub data Call : Type 0 where
  set_partner : ℕ → PartnerSettings → Call
  set_platform_fee : ℕ → String → Call
  set_partner_required : Bool → Call

-- The world after some calls, and whether one of them threw.
abbrev pub Run : Type 0 → Type 0
Run World = World × Bool

abbrev pub then_run : {World : Type 0} → Run World → (World → Run World) → Run World
then_run (w, true) f = (w, true)
then_run (w, false) f = f w

abbrev pub or_true : Option Bool → Bool
or_true none = true
or_true (some b) = b

abbrev pub or_false : Option Bool → Bool
or_false none = false
or_false (some b) = b

abbrev pub or_list : Option (List Partner) → List Partner
or_list none = []
or_list (some ps) = ps

abbrev pub or_text : Option String → String → String
or_text none s = s
or_text (some t) s = t

abbrev pub keys_on : Target → Partner → Option PartnerKeys
keys_on (evm_mirror key request) p = p.evm
keys_on (svm_mirror key) p = p.svm

-- `PublicKey.default` is 32 ones in base 58; its recipient's text is taken where it is not empty.
abbrev pub recipient_on : Target → PlatformFee → String
recipient_on (evm_mirror key request) f = or_text f.evm "0x0000000000000000000000000000000000000000"
recipient_on (svm_mirror key) f = or_text (not_empty f.svm) "11111111111111111111111111111111"

abbrev pub settings_of : Partner → PartnerKeys → PartnerSettings
settings_of p k = record {
  signer = k.signer;
  fee_recipient = k.fee_recipient;
  max_fee_bps = p.max_fee_bps;
  active = or_true p.active;
}

abbrev pub target_if : Role → Bool → Option String → String → List Target → List Target
target_if mirror true (some request) key ts = evm_mirror key request ∷ ts
target_if _ _ _ key ts = ts

-- The manifest's mirrors that have a client and a SwapRequest contract.
pub evm_targets : (String → Bool) → Dict String ChainDeployment → List Target
evm_targets has [] = []
evm_targets has ((key, c) ∷ cs) =
    target_if c.role (has key) (not_empty (lookup "SwapRequest" c.contracts)) key
      (evm_targets has cs)

module _ {World : Type 0} (call : Target → Call → World → Run World) where
  abbrev pub set_one : Target → Partner → Option PartnerKeys → World → Run World
  set_one t p none w = (w, false)
  set_one t p (some k) w = call t (set_partner p.id (settings_of p k)) w

  pub set_partners : Target → List Partner → World → Run World
  set_partners t [] w = (w, false)
  set_partners t (p ∷ ps) w = then_run (set_one t p (keys_on t p) w) (set_partners t ps)

  abbrev pub set_fee : Target → Option PlatformFee → World → Run World
  set_fee t none w = (w, false)
  set_fee t (some f) w = call t (set_platform_fee f.bps (recipient_on t f)) w

  -- One mirror: its partners, the platform fee, and at last whether partners are required.
  pub apply_to : PartnersConfig → Target → World → Run World
  apply_to cfg t w = then_run (set_partners t (or_list cfg.partners) w) λ w.
      then_run (set_fee t cfg.platform_fee w)
        λ w. call t (set_partner_required (or_false cfg.required)) w

  pub apply_all : PartnersConfig → List Target → World → Run World
  apply_all cfg [] w = (w, false)
  apply_all cfg (t ∷ ts) w = then_run (apply_to cfg t w) (apply_all cfg ts)

  -- The EVM mirrors in the manifest's order, then the Solana clients; nothing without a configuration.
  pub apply_partners :
      Option PartnersConfig → (String → Bool) → Manifest → List String → World → Run World
  apply_partners none has m solana w = (w, false)
  apply_partners (some cfg) has m solana w =
      apply_all cfg (evm_targets has m.chains ++ map svm_mirror solana) w
