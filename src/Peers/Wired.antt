-- ===== src/Peers/Wired.antt =====
-- What wiring leaves on the chains and in the manifest: `wirePeers` of infra/modules/03-peers.ts.
use Prim.Native.String.{String, ◌++◌ as append}
use boundless_stock.Prelude.{
  ℕ, ◌+◌, ◌≡◌, inl, inr, refl, ap, subst, ◌∙◌, arith, Option, List, [], ◌∷◌, Has, Result, ok,
}
use boundless_stock.Manifest.{Kind, Manifest, record_step, verified_of}
use boundless_stock.Peers.{
  PeerError, Vm, evm, svm, PeerNode, PairsOf, Topology, Chains, Wiring, expected_of, wire_from,
  wire_pairs, wire_peers, evm_pairs, one_evm, build_pairs, step_status,
}
use boundless_stock.Peers.Pairs.{IsLinked, IsLinked-Has, build_pairs_iff}
use boundless_stock.Peers.Linked.{
  HonestChains, IsRight, IsCompatible, world_of-IsRight, wired_world-keeps, wired_one,
  wire_one-wired, recorded-verified,
}

-- No two nodes share an endpoint id.
abbrev pub AreDistinct : List PeerNode → Type 0
AreDistinct nodes = (a b : PeerNode) → Has a nodes → Has b nodes → a.eid ≡ b.eid → a ≡ b

module _ {World : Type 0} (lower : String → String) (to_bytes32 : String → Result PeerError String)
    (net : Chains World) (h : HonestChains net) (expect : PeerNode → String) where
  -- The pairs agree on what each place expects.
  abbrev AreCompatible : PairsOf → Type 0
  AreCompatible ps =
      (c d a b : PeerNode)
      → Has (c, d) ps
      → Has (a, b) ps
      → IsCompatible lower to_bytes32 net h expect c d a b

  abbrev wired_from : Vm → Kind → String → PeerNode → PeerNode → Wiring World → Wiring World
  wired_from svm kind label a b s = s
  wired_from evm kind label a b s = wired_one lower to_bytes32 net h expect kind label a b s

  wire_from-wired :
      (vm : Vm) (kind : Kind) (label : String) (a b : PeerNode) (s : Wiring World)
      → expected_of lower to_bytes32 net b ≡ ok (expect b)
      → wire_from lower to_bytes32 net vm kind label a b s ≡ ok (wired_from vm kind label a b s)
  wire_from-wired svm kind label a b s fits = refl
  wire_from-wired evm kind label a b s fits =
      wire_one-wired lower to_bytes32 net h expect kind label a b s fits

  abbrev wired_all : Kind → String → PairsOf → Wiring World → Wiring World
  wired_all kind label [] s = s
  wired_all kind label ((a, b) ∷ ps) s = wired_all kind label ps (wired_from a.vm kind label a b s)

  wire_pairs-wired :
      (kind : Kind) (label : String) (ps : PairsOf) (s : Wiring World)
      → ((a b : PeerNode) → Has (a, b) ps → expected_of lower to_bytes32 net b ≡ ok (expect b))
      → wire_pairs lower to_bytes32 net kind label ps s ≡ ok (wired_all kind label ps s)
  unfolding wire_pairs
  wire_pairs-wired kind label [] s fits = refl
  wire_pairs-wired kind label ((a, b) ∷ ps) s fits =
      rw (wire_from-wired a.vm kind label a b s (fits a b (inl refl))) (
        wire_pairs-wired kind label ps (wired_from a.vm kind label a b s)
          λ c d has. fits c d (inr has))

  wired_from-keeps :
      (vm : Vm) (kind : Kind) (label : String) (a b c d : PeerNode) (s : Wiring World)
      → IsCompatible lower to_bytes32 net h expect c d a b
      → IsRight lower to_bytes32 net h expect c d s.world
      → IsRight lower to_bytes32 net h expect c d (wired_from vm kind label a b s).world
  wired_from-keeps svm kind label a b c d s fits right = right
  wired_from-keeps evm kind label a b c d s fits right =
      wired_world-keeps lower to_bytes32 net h expect _ a b c d s.world fits right

  wired_all-keeps :
      (kind : Kind) (label : String) (ps : PairsOf) (c d : PeerNode) (s : Wiring World)
      → ((a b : PeerNode) → Has (a, b) ps → IsCompatible lower to_bytes32 net h expect c d a b)
      → IsRight lower to_bytes32 net h expect c d s.world
      → IsRight lower to_bytes32 net h expect c d (wired_all kind label ps s).world
  wired_all-keeps kind label [] c d s fits right = right
  wired_all-keeps kind label ((a, b) ∷ ps) c d s fits right =
      wired_all-keeps kind label ps c d (wired_from a.vm kind label a b s)
        (λ e f has. fits e f (inr has))
        (wired_from-keeps a.vm kind label a b c d s (fits a b (inl refl)) right)

  wired_from-IsRight :
      (vm : Vm) (kind : Kind) (label : String) (a b : PeerNode) (s : Wiring World)
      → vm ≡ evm
      → IsRight lower to_bytes32 net h expect a b (wired_from vm kind label a b s).world
  wired_from-IsRight svm kind label a b s p = ground arith
  wired_from-IsRight evm kind label a b s p =
      world_of-IsRight lower to_bytes32 net h expect a b s.world

  wired_all-IsRight :
      (kind : Kind) (label : String) (ps : PairsOf) (s : Wiring World)
      → AreCompatible ps
      → (a b : PeerNode) → Has (a, b) ps
      → a.vm ≡ evm
      → IsRight lower to_bytes32 net h expect a b (wired_all kind label ps s).world
  wired_all-IsRight kind label [] s fits a b has is_evm = elim has [ ]
  wired_all-IsRight kind label ((c, d) ∷ ps) s fits a b (inr has) is_evm =
      wired_all-IsRight kind label ps (wired_from c.vm kind label c d s)
        (λ e f g i p q. fits e f g i (inr p) (inr q)) a b has is_evm
  wired_all-IsRight kind label ((c, d) ∷ ps) s fits a b (inl same) is_evm =
      wired_all-keeps kind label ps a b (wired_from c.vm kind label c d s)
        (λ e f has. fits a b e f (inl same) (inr has))
        (subst
          (λ (x : PeerNode × PeerNode).
            x.0.vm ≡ evm
            → IsRight lower to_bytes32 net h expect x.0 x.1
                (wired_from c.vm kind label c d s).world)
          same (λ v. wired_from-IsRight c.vm kind label c d s v) is_evm)

  wired_from-failures :
      (vm : Vm) (kind : Kind) (label : String) (a b : PeerNode) (s : Wiring World)
      → (wired_from vm kind label a b s).failures ≡ s.failures
  wired_from-failures svm kind label a b s = refl
  wired_from-failures evm kind label a b s =
      rw (recorded-verified lower to_bytes32 net h expect kind label a b s.world) refl

  wired_all-failures :
      (kind : Kind) (label : String) (ps : PairsOf) (s : Wiring World)
      → (wired_all kind label ps s).failures ≡ s.failures
  wired_all-failures kind label [] s = refl
  wired_all-failures kind label ((a, b) ∷ ps) s =
      wired_all-failures kind label ps (wired_from a.vm kind label a b s)
      ∙ wired_from-failures a.vm kind label a b s

  wired_from-verified :
      (vm : Vm) (kind : Kind) (label : String) (a b : PeerNode) (s : Wiring World)
      → (wired_from vm kind label a b s).verified ≡ one_evm vm + s.verified
  wired_from-verified svm kind label a b s = omega arith
  wired_from-verified evm kind label a b s =
      rw (recorded-verified lower to_bytes32 net h expect kind label a b s.world) (omega arith)

  wired_all-verified :
      (kind : Kind) (label : String) (ps : PairsOf) (s : Wiring World)
      → (wired_all kind label ps s).verified ≡ evm_pairs ps + s.verified
  wired_all-verified kind label [] s = omega arith
  wired_all-verified kind label ((a, b) ∷ ps) s = omega (
    arith,
    wired_all-verified kind label ps (wired_from a.vm kind label a b s),
    wired_from-verified a.vm kind label a b s,
  )

  Has-compatible :
      (nodes : List PeerNode) (ps : PairsOf)
      → AreDistinct nodes
      → ((a b : PeerNode) → Has (a, b) ps → Has b nodes)
      → AreCompatible ps
  Has-compatible nodes ps distinct within c d a b p q _ _ same =
      ap expect (distinct d b (within c d p) (within a b q) same)

  -- On chains where calls answer, a peer that is set is there and others stay, with nodes whose
  -- own addresses have a 32-byte form and whose endpoint ids differ: wiring any topology whose pairs are
  -- built ends, without failures, with every link from an EVM node verified and counted, and each
  -- of those links reads on its chain as the peer that is expected there.
  pub wire_peers-wired :
      (kind : Kind) (label : String) (nodes : List PeerNode) (topology : Topology)
      (hub_key : Option String) (pairs : PairsOf) (now : ℕ) (m : Manifest) (w : World)
      → ((b : PeerNode) → Has b nodes → expected_of lower to_bytes32 net b ≡ ok (expect b))
      → AreDistinct nodes
      → build_pairs topology hub_key nodes ≡ ok pairs
      → (m' : Manifest) × ((w' : World) × ((wire_peers lower to_bytes32 net kind label nodes
                topology hub_key now m w
              ≡ ok (
                record { wired = evm_pairs pairs; verified = evm_pairs pairs; failures = [] },
                (m', w'),
              ))
            × ((a b : PeerNode)
                → IsLinked topology hub_key nodes a b
                → a.vm ≡ evm
                → IsRight lower to_bytes32 net h expect a b w')))
  unfolding wire_peers
  wire_peers-wired kind label nodes topology hub_key pairs now m w fits distinct built =
      let start : Wiring World = record { world = w; manifest = m; verified = 0; failures = [] } in
      let s = wired_all kind label pairs start in
      let all : s.verified ≡ evm_pairs pairs =
        omega (arith, wired_all-verified kind label pairs start) in
      let none_failed : s.failures ≡ [] = wired_all-failures kind label pairs start in
      let m' =
        record_step (append "03-peers:" label) (step_status lower to_bytes32 net s.failures)
          (verified_of s.verified (evm_pairs pairs)) now s.manifest in
      let within : (a b : PeerNode) → Has (a, b) pairs → Has b nodes = λ a b has.
        (IsLinked-Has topology hub_key nodes a b
          ((build_pairs_iff topology hub_key nodes pairs a b built).0 has)).1 in
      (
        m',
        (
          s.world,
          (
            rw (built, wire_pairs-wired kind label pairs start λ a b has. fits b (within a b has))
                (λ i. ok (
                  record { wired = evm_pairs pairs; verified = all i; failures = none_failed i },
                  (m', s.world),
                )),
            λ a b linked is_evm.
                wired_all-IsRight kind label pairs start
                  (Has-compatible nodes pairs distinct within) a b
                  ((build_pairs_iff topology hub_key nodes pairs a b built).1 linked) is_evm,
          ),
        ),
      )
