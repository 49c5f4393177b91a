-- ===== src/Manifest.antt =====
-- The manifest of a deployment and the operations on it: infra/lib/manifest.ts, with the types of
-- infra/lib/types.ts. Reading and writing the file are not here; of a record those fields are kept
-- that the operations and their callers use.
pub mod Links
use Prim.Native.String.{String}
use text.Mathlib.Text.{◌==◌ as str_eq}
use boundless_stock.Prelude.{
  ℕ, ◌-◌, ◌==◌, ◌&&◌, Bool, true, false, Option, none, some, List, [], ◌∷◌, ◌++◌, if◌then◌else◌,
  Result, ok, err, ◌>>=◌, Dict, lookup, insert, from_list_onto, length, string_eq, or_else,
}

pub data ManifestError : Type 0 where
  no_chain no_contract : String → ManifestError

pub data Kind : Type 0 where
  oft relay : Kind

pub data Role : Type 0 where
  home mirror : Role

pub data StepStatus : Type 0 where
  step_ok step_failed : StepStatus

pub record PeerRecord : Type 0 where
  pub kind : Kind
  pub label : String
  pub from_chain : String
  pub to_chain : String
  pub to_eid : ℕ
  pub expected : String
  pub actual : String
  pub verified : Bool
  pub tx_hash : Option String

pub record ChainDeployment : Type 0 where
  pub key : String
  pub eid : ℕ
  pub role : Role
  pub lz_endpoint : String
  pub local_message_lib : Option String
  pub contracts : Dict String String

-- The sentence of a step: links verified of those wired, the number of mirrors, or the two assets' symbols
-- with the home chain and whether an existing token is adapted.
pub data Detail : Type 0 where
  verified_of : ℕ → ℕ → Detail
  mirrors : ℕ → Detail
  assets : String → String → String → Bool → Detail

pub record Step : Type 0 where
  pub module_name : String
  pub status : StepStatus
  pub recorded_at : ℕ
  pub detail : Detail

pub record Manifest : Type 0 where
  pub home_chain_key : String
  pub chains : Dict String ChainDeployment
  pub peers : List PeerRecord
  pub steps : List Step

pub empty_manifest : String → Manifest
empty_manifest key = record { home_chain_key = key; chains = []; peers = []; steps = [] }

-- `now` is the time of the call.
unfoldable pub record_step : String → StepStatus → Detail → ℕ → Manifest → Manifest
record_step name status detail now m = record m {
  steps =
      m.steps
      ++ (record { module_name = name; status = status; recorded_at = now; detail = detail } ∷ []);
}

-- `a || b` for texts.
abbrev pub or_text : String → String → String
or_text a b = if str_eq a "" then b else a

abbrev pub or_some : Option String → Option String → Option String
or_some none old = old
or_some (some s) old = if str_eq s "" then old else some s

abbrev pub merge : ChainDeployment → ChainDeployment → ChainDeployment
merge existing chain = record existing {
  contracts = from_list_onto existing.contracts chain.contracts;
  lz_endpoint = or_text chain.lz_endpoint existing.lz_endpoint;
  local_message_lib = or_some chain.local_message_lib existing.local_message_lib;
}

abbrev pub merged : Option ChainDeployment → ChainDeployment → ChainDeployment
merged none chain = chain
merged (some existing) chain = merge existing chain

pub upsert_chain : ChainDeployment → Manifest → Manifest
upsert_chain chain m = record m {
  chains = insert chain.key (merged (lookup chain.key m.chains) chain) m.chains;
}

unfoldable pub set_contract : String → String → String → Manifest → Result ManifestError Manifest
set_contract key name address m = or_else (no_chain key) (lookup key m.chains) >>= λ c.
    ok (record m {
      chains = insert key (record c { contracts = insert name address c.contracts }) m.chains;
    })

-- `m.chains[key]?.contracts[name]`, where an empty text counts as none.
abbrev pub not_empty : Option String → Option String
not_empty none = none
not_empty (some s) = if str_eq s "" then none else some s

abbrev pub contract_of : Option ChainDeployment → String → Option String
contract_of none name = none
contract_of (some c) name = not_empty (lookup name c.contracts)

pub get_contract : String → String → Manifest → Result ManifestError String
get_contract key name m = or_else (no_contract name) (contract_of (lookup key m.chains) name)

-- The same label, chain and endpoint id.
abbrev pub same_link : PeerRecord → PeerRecord → Bool
same_link p r = str_eq p.label r.label && (str_eq p.from_chain r.from_chain && p.to_eid == r.to_eid)

-- The first record of the link is replaced, or the record is pushed.
unfoldable pub upsert : PeerRecord → List PeerRecord → List PeerRecord
upsert r [] = r ∷ []
upsert r (p ∷ ps) = if same_link p r then r ∷ ps else p ∷ upsert r ps

unfoldable pub upsert_peer : PeerRecord → Manifest → Manifest
upsert_peer r m = record m { peers = upsert r m.peers }

abbrev pub unverified : List PeerRecord → List PeerRecord
unverified [] = []
unverified (p ∷ ps) = if p.verified then unverified ps else p ∷ unverified ps

pub record PeerSummary : Type 0 where
  pub total : ℕ
  pub verified : ℕ
  pub failed : List PeerRecord

pub peer_summary : Manifest → PeerSummary
peer_summary m = record {
  total = length m.peers;
  verified = length m.peers - length (unverified m.peers);
  failed = unverified m.peers;
}
