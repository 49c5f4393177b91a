-- ===== src/Peers/Kept.antt =====
-- What wiring keeps in the manifest: `wirePeers` of infra/modules/03-peers.ts.
use Prim.Native.String.{String}
use text.Mathlib.Text.{◌==◌ as str_eq}
use text.Mathlib.TextEquality.{eq_iff}
use boundless_stock.Prelude.{
  ℕ, ◌+◌, ◌≡◌, inl, inr, refl, sym, subst, ◌∙◌, arith, Bool, Bool-cases, true, false, Option, some,
  List, [], ◌∷◌, ◌++◌, Has, length, length-append, string_eq, bind-ok, ok-same, ok-injective,
  Result, ok, if◌then◌else◌, ◌==◌, ◌&&◌,
}
use boundless_stock.Manifest.{Kind, Manifest, PeerRecord, record_step, upsert, upsert_peer}
use boundless_stock.Manifest.Links.{find_link, IsKeyed, find_link-upsert, upsert-IsKeyed}
use boundless_stock.Peers.{
  PeerError, Vm, evm, svm, PeerNode, PairsOf, Topology, Chains, Wiring, WireReport, same_hex,
  expected_of, write_unless, peer_record, noted, wire_one, wire_from, wire_pairs, wire_peers,
  evm_pairs, one_evm, build_pairs,
}

-- The manifest has a record of the link.
abbrev pub IsRecorded : String → PeerNode → PeerNode → List PeerRecord → Type 0
IsRecorded label a b ps = (r : PeerRecord) × (find_link label a.chain_key b.eid ps ≡ some r)

module _ {World : Type 0} (lower : String → String) (to_bytes32 : String → Result PeerError String)
    (net : Chains World) where
  abbrev accounted : Wiring World → ℕ
  accounted s = s.verified + length s.failures

  -- A state in which the link of a pair has been noted.
  abbrev IsNoted : String → PeerNode → PeerNode → Wiring World → Wiring World → Type 0
  IsNoted label a b s s' =
      (r : PeerRecord) × ((s'.manifest.peers ≡ upsert r s.manifest.peers)
        × ((accounted s' ≡ 1 + accounted s)
            × ((r.label ≡ label) × ((r.from_chain ≡ a.chain_key) × (r.to_eid ≡ b.eid)))))

  counted_once :
      (b : Bool) (v : ℕ) (fs : List PeerRecord) (r : PeerRecord)
      → (if b then v + 1 else v) + length (if b then fs else fs ++ (r ∷ [])) ≡ 1 + (v + length fs)
  counted_once true v fs r = omega arith
  counted_once false v fs r = omega (arith, length-append fs (r ∷ []))

  accounted-noted :
      (r : PeerRecord) (s : Wiring World)
      → accounted (noted lower to_bytes32 net r s) ≡ 1 + accounted s
  accounted-noted r s = counted_once r.verified s.verified s.failures r

  wire_one-IsNoted :
      (kind : Kind) (label : String) (a b : PeerNode) (s s' : Wiring World)
      → wire_one lower to_bytes32 net kind label a b s ≡ ok s'
      → IsNoted label a b s s'
  unfolding wire_one upsert_peer
  wire_one-IsNoted kind label a b s s' p = bind-ok (expected_of lower to_bytes32 net b) p λ e _ p.
      bind-ok (net.peers a.chain_key a.address b.eid s.world) p λ current _ p.
        bind-ok
          (write_unless lower to_bytes32 net (same_hex lower to_bytes32 net current e) a b e
            s.world)
          p
          λ written _ p. bind-ok (net.peers a.chain_key a.address b.eid written.1) p λ actual _ p.
            let r = peer_record lower to_bytes32 net kind label a b e actual written.0 in
            ok-same (IsNoted label a b s)
              (noted lower to_bytes32 net r (record s { world = written.1 })) s'
              (
                r,
                (refl, (accounted-noted r (record s { world = written.1 }), (refl, (refl, refl)))),
              )
              p

  IsRecorded-upsert :
      (label : String) (a b : PeerNode) (r : PeerRecord) (ps : List PeerRecord)
      → IsRecorded label a b ps
      → IsRecorded label a b (upsert r ps)
  IsRecorded-upsert label a b r ps (q, found) =
      elim (Bool-cases
        (str_eq r.label label && (str_eq r.from_chain a.chain_key && r.to_eid == b.eid))) [
          | inl e ↦ (r, find_link-upsert r label a.chain_key b.eid ps ∙ rw e refl)
          | inr e ↦ (q, find_link-upsert r label a.chain_key b.eid ps ∙ (rw e found))
        ]

  -- What stays from one list of records to another.
  abbrev Keeps : String → List PeerRecord → List PeerRecord → Type 0
  Keeps label ps ps' =
      (IsKeyed ps → IsKeyed ps')
      × ((c d : PeerNode) → IsRecorded label c d ps → IsRecorded label c d ps')

  Keeps-trans :
      (label : String) (ps qs rs : List PeerRecord)
      → Keeps label ps qs
      → Keeps label qs rs
      → Keeps label ps rs
  Keeps-trans label ps qs rs h k = (λ x. k.0 (h.0 x), λ c d x. k.1 c d (h.1 c d x))

  upsert-found :
      (label : String) (a b : PeerNode) (r : PeerRecord) (ps : List PeerRecord)
      → r.label ≡ label
      → r.from_chain ≡ a.chain_key
      → r.to_eid ≡ b.eid
      → IsRecorded label a b (upsert r ps)
  upsert-found label a b r ps l c e = (
    r,
    find_link-upsert r label a.chain_key b.eid ps
        ∙ ground (arith, eq_iff r.label label, eq_iff r.from_chain a.chain_key),
  )

  -- What wiring a link has kept.
  abbrev HasWired : Vm → String → PeerNode → PeerNode → Wiring World → Wiring World → Type 0
  HasWired vm label a b s s' =
      Keeps label s.manifest.peers s'.manifest.peers
      × (accounted s' ≡ one_evm vm + accounted s)
      × (vm ≡ evm → IsRecorded label a b s'.manifest.peers)

  wire_from-HasWired :
      (vm : Vm) (kind : Kind) (label : String) (a b : PeerNode) (s s' : Wiring World)
      → wire_from lower to_bytes32 net vm kind label a b s ≡ ok s'
      → HasWired vm label a b s s'
  wire_from-HasWired svm kind label a b s s' p =
      ok-same (HasWired svm label a b s) s s' ((λ x. x, λ c d x. x), omega arith, λ v. ground arith)
        p
  wire_from-HasWired evm kind label a b s s' p =
      let (r, (same, (count, (l, (c, e))))) = wire_one-IsNoted kind label a b s s' p in
      (
        subst (Keeps label s.manifest.peers) (sym same) (
          upsert-IsKeyed r s.manifest.peers,
          λ c d x. IsRecorded-upsert label c d r s.manifest.peers x,
        ),
        count,
        λ v.
            subst (IsRecorded label a b) (sym same)
              (upsert-found label a b r s.manifest.peers l c e),
      )

  abbrev HasWiredAll : String → PairsOf → Wiring World → Wiring World → Type 0
  HasWiredAll label ps s s' =
      Keeps label s.manifest.peers s'.manifest.peers
      × (accounted s' ≡ evm_pairs ps + accounted s)
      × ((a b : PeerNode) → Has (a, b) ps → a.vm ≡ evm → IsRecorded label a b s'.manifest.peers)

  wire_pairs-HasWired :
      (kind : Kind) (label : String) (ps : PairsOf) (s s' : Wiring World)
      → wire_pairs lower to_bytes32 net kind label ps s ≡ ok s'
      → HasWiredAll label ps s s'
  unfolding wire_pairs
  wire_pairs-HasWired kind label [] s s' p =
      ok-same (HasWiredAll label [] s) s s'
        ((λ x. x, λ c d x. x), omega arith, λ a b has v. elim has [ ]) p
  wire_pairs-HasWired kind label ((a, b) ∷ ps) s s' p =
      bind-ok (wire_from lower to_bytes32 net a.vm kind label a b s) p λ t first p.
        let one = wire_from-HasWired a.vm kind label a b s t first in
        let rest = wire_pairs-HasWired kind label ps t s' p in
        (
          Keeps-trans label s.manifest.peers t.manifest.peers s'.manifest.peers one.0 rest.0,
          omega (arith, one.1, rest.1),
          λ c d has v. elim has [
            | inl same ↦ rest.0.1 c d (
                subst
                  (λ (x : PeerNode × PeerNode).
                    x.0.vm ≡ evm → IsRecorded label x.0 x.1 t.manifest.peers)
                  same (one.2) v)
            | inr later ↦ rest.2 c d later v
          ],
        )

  -- However the chains answer: where wiring ends, the verified and the failed links are together all
  -- those from EVM nodes; the manifest has a record of each of these; and it has at most one record
  -- of a link, where it had so before.
  pub wire_peers-kept :
      (kind : Kind) (label : String) (nodes : List PeerNode) (topology : Topology)
      (hub_key : Option String) (pairs : PairsOf) (now : ℕ) (m m' : Manifest) (w w' : World)
      (r : WireReport)
      → build_pairs topology hub_key nodes ≡ ok pairs
      → wire_peers lower to_bytes32 net kind label nodes topology hub_key now m w ≡ ok (r, (m', w'))
      → (r.verified + length r.failures ≡ r.wired)
        × ((a b : PeerNode) → Has (a, b) pairs → a.vm ≡ evm → IsRecorded label a b m'.peers)
        × (IsKeyed m.peers → IsKeyed m'.peers)
  unfolding wire_peers record_step
  wire_peers-kept kind label nodes topology hub_key pairs now m m' w w' r built p =
      let start : Wiring World = record { world = w; manifest = m; verified = 0; failures = [] } in
      bind-ok (build_pairs topology hub_key nodes) p λ qs built' p.
        bind-ok (wire_pairs lower to_bytes32 net kind label qs start) p λ s wired p.
          let (keeps, count, recorded) = wire_pairs-HasWired kind label qs start s wired in
          ok-same
            (λ (x : WireReport × (Manifest × World)).
              (x.0.verified + length x.0.failures ≡ x.0.wired)
              × ((a b : PeerNode)
                  → Has (a, b) pairs
                  → a.vm ≡ evm
                  → IsRecorded label a b x.1.0.peers)
              × (IsKeyed m.peers → IsKeyed x.1.0.peers))
            _ (r, (m', w'))
            (
              omega (arith, count),
              λ a b has v.
                  recorded a b (subst (Has (a, b)) (ok-injective (sym built ∙ built')) has) v,
              keeps.0,
            )
            p
