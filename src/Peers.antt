-- ===== src/Peers.antt =====
-- Wiring the peers of a deployment's contracts and auditing them: infra/modules/03-peers.ts. The chains,
-- `toLowerCase` and `toBytes32`, which is `pad` of an address that `getAddress` of viem accepts, are
-- arguments; a call may throw.
pub mod Pairs
pub mod Linked
pub mod Wired
pub mod Kept
pub mod Audited
mod Tests
use Prim.Native.String.{String, len, ◌++◌ as append}
use text.Mathlib.Text.{◌==◌ as str_eq}
use boundless_stock.Prelude.{
  ℕ, ◌+◌, ◌==◌, ◌&&◌, not, Bool, true, false, Option, none, some, List, [], ◌∷◌, ◌++◌,
  if◌then◌else◌, Result, ok, err, ◌>>=◌, lookup, length, string_eq, or_else,
}
use boundless_stock.Manifest.{
  Kind, oft, relay, Role, home, mirror, StepStatus, step_ok, step_failed, verified_of, PeerRecord,
  ChainDeployment, Manifest, record_step, upsert_peer, contract_of, not_empty,
}

pub data PeerError : Type 0 where
  no_hub_key : PeerError
  hub_not_listed : String → PeerError
  call_threw : PeerError

pub data Vm : Type 0 where
  evm svm : Vm

pub record PeerNode : Type 0 where
  pub chain_key : String
  pub eid : ℕ
  pub address : String
  pub vm : Vm

pub data Topology : Type 0 where
  mesh star : Topology

-- `chains` with its calls: whether it has a chain, and the `peers` and `setPeer` of a contract on one.
pub record Chains (World : Type 0) : Type 0 where
  pub has : String → Bool
  pub peers : String → String → ℕ → World → Result PeerError String
  pub set_peer : String → String → ℕ → String → World → Result PeerError (String × World)

abbrev pub PairsOf : Type 0
PairsOf = List (PeerNode × PeerNode)

abbrev pub pair_if : Bool → PeerNode × PeerNode → PairsOf → PairsOf
pair_if true p ps = p ∷ ps
pair_if false p ps = ps

unfoldable pub pairs_from : PeerNode → List PeerNode → PairsOf
pairs_from a [] = []
pairs_from a (b ∷ bs) = pair_if (not (str_eq a.chain_key b.chain_key)) (a, b) (pairs_from a bs)

unfoldable pub mesh_pairs : List PeerNode → List PeerNode → PairsOf
mesh_pairs [] nodes = []
mesh_pairs (a ∷ as') nodes = pairs_from a nodes ++ mesh_pairs as' nodes

unfoldable pub find_hub : String → List PeerNode → Option PeerNode
find_hub key [] = none
find_hub key (n ∷ ns) = if str_eq n.chain_key key then some n else find_hub key ns

abbrev pub both_if : Bool → PeerNode → PeerNode → PairsOf → PairsOf
both_if true hub spoke ps = (hub, spoke) ∷ (spoke, hub) ∷ ps
both_if false hub spoke ps = ps

unfoldable pub star_pairs : String → PeerNode → List PeerNode → PairsOf
star_pairs key hub [] = []
star_pairs key hub (n ∷ ns) = both_if (not (str_eq n.chain_key key)) hub n (star_pairs key hub ns)

unfoldable pub build_pairs : Topology → Option String → List PeerNode → Result PeerError PairsOf
build_pairs mesh hub_key nodes = ok (mesh_pairs nodes nodes)
build_pairs star hub_key nodes = or_else no_hub_key (not_empty hub_key) >>= λ key.
    or_else (hub_not_listed key) (find_hub key nodes) >>= λ hub. ok (star_pairs key hub nodes)

abbrev pub one_evm : Vm → ℕ
one_evm evm = 1
one_evm svm = 0

abbrev pub evm_pairs : PairsOf → ℕ
evm_pairs [] = 0
evm_pairs ((from, to) ∷ ps) = one_evm from.vm + evm_pairs ps

pub record Wiring (World : Type 0) : Type 0 where
  pub world : World
  pub manifest : Manifest
  pub verified : ℕ
  pub failures : List PeerRecord

pub record WireReport : Type 0 where
  pub wired : ℕ
  pub verified : ℕ
  pub failures : List PeerRecord

abbrev pub source_relay_name : Option ChainDeployment → String
source_relay_name none = "SwapRequest"
source_relay_name (some c) = elim c.role [ home ↦ "SwapRelay" | mirror ↦ "SwapRequest" ]

abbrev pub contract_name : Manifest → PeerRecord → String
contract_name m p = elim p.kind [
  | oft ↦ p.label
  | relay ↦ source_relay_name (lookup p.from_chain m.chains)
]

pub record Audit : Type 0 where
  pub is_ok : Bool
  pub checked : ℕ
  pub broken : List PeerRecord

abbrev pub is_none_broken : List PeerRecord → Bool
is_none_broken [] = true
is_none_broken (p ∷ ps) = false

module _ {World : Type 0} (lower : String → String) (to_bytes32 : String → Result PeerError String)
    (net : Chains World) where
  abbrev pub same_hex : String → String → Bool
  same_hex a b = str_eq (lower a) (lower b)

  abbrev pub expected_of : PeerNode → Result PeerError String
  expected_of to = if len to.address == 66 then ok (lower to.address) else to_bytes32 to.address

  -- No write where the peer is there already; else the receipt's transaction.
  abbrev pub write_unless :
      Bool → PeerNode → PeerNode → String → World → Result PeerError (Option String × World)
  write_unless true from to expected w = ok (none, w)
  write_unless false from to expected w =
      net.set_peer from.chain_key from.address to.eid expected w >>= λ (tx, w). ok (some tx, w)

  abbrev pub peer_record :
      Kind → String → PeerNode → PeerNode → String → String → Option String → PeerRecord
  peer_record kind label from to expected actual tx = record {
    kind = kind;
    label = label;
    from_chain = from.chain_key;
    to_chain = to.chain_key;
    to_eid = to.eid;
    expected = expected;
    actual = actual;
    verified = same_hex actual expected;
    tx_hash = tx;
  }

  abbrev pub noted : PeerRecord → Wiring World → Wiring World
  noted r s = record s {
    manifest = upsert_peer r s.manifest;
    verified = (if r.verified then s.verified + 1 else s.verified);
    failures = (if r.verified then s.failures else s.failures ++ (r ∷ []));
  }

  pub wire_one :
      Kind → String → PeerNode → PeerNode → Wiring World → Result PeerError (Wiring World)
  wire_one kind label from to s = expected_of to >>= λ expected.
      net.peers from.chain_key from.address to.eid s.world >>= λ current.
      write_unless (same_hex current expected) from to expected s.world >>= λ (tx, w).
      net.peers from.chain_key from.address to.eid w >>= λ actual.
      ok (noted (peer_record kind label from to expected actual tx) (record s { world = w }))

  abbrev pub wire_from :
      Vm → Kind → String → PeerNode → PeerNode → Wiring World → Result PeerError (Wiring World)
  wire_from svm kind label from to s = ok s
  wire_from evm kind label from to s = wire_one kind label from to s

  pub wire_pairs : Kind → String → PairsOf → Wiring World → Result PeerError (Wiring World)
  wire_pairs kind label [] s = ok s
  wire_pairs kind label ((from, to) ∷ ps) s =
      wire_from from.vm kind label from to s >>= wire_pairs kind label ps

  abbrev pub step_status : List PeerRecord → StepStatus
  step_status [] = step_ok
  step_status (r ∷ rs) = step_failed

  -- `now` is the time at the end.
  pub wire_peers :
      Kind
      → String
      → List PeerNode
      → Topology
      → Option String
      → ℕ
      → Manifest
      → World
      → Result PeerError (WireReport × (Manifest × World))
  wire_peers kind label nodes topology hub_key now m w =
      build_pairs topology hub_key nodes >>= λ pairs.
      wire_pairs kind label pairs (record { world = w; manifest = m; verified = 0; failures = [] })
      >>= λ s. ok (
        record { wired = evm_pairs pairs; verified = s.verified; failures = s.failures },
        (
          record_step (append "03-peers:" label) (step_status s.failures)
              (verified_of s.verified (evm_pairs pairs)) now s.manifest,
          s.world,
        ),
      )

  abbrev pub broken_if : Bool → PeerRecord → List PeerRecord → List PeerRecord
  broken_if true p ps = ps
  broken_if false p ps = p ∷ ps

  abbrev pub check_link : Option String → PeerRecord → World → Result PeerError (List PeerRecord)
  check_link none p w = ok (record p { verified = false; actual = "missing contract" } ∷ [])
  check_link (some address) p w = net.peers p.from_chain address p.to_eid w >>= λ actual.
      ok
        (broken_if (same_hex actual p.expected) (record p { verified = false; actual = actual }) [])

  abbrev pub check_if : Bool → Manifest → PeerRecord → World → Result PeerError (List PeerRecord)
  check_if false m p w = ok []
  check_if true m p w =
      check_link (contract_of (lookup p.from_chain m.chains) (contract_name m p)) p w

  pub broken_links : Manifest → World → List PeerRecord → Result PeerError (List PeerRecord)
  broken_links m w [] = ok []
  broken_links m w (p ∷ ps) = check_if (net.has p.from_chain) m p w >>= λ here.
      broken_links m w ps >>= λ rest. ok (here ++ rest)

  pub audit_peers : Manifest → World → Result PeerError Audit
  audit_peers m w = broken_links m w m.peers >>= λ broken.
      ok (record { is_ok = is_none_broken broken; checked = length m.peers; broken = broken })
