-- ===== src/Peers/Tests.antt =====
-- Three chains wired as a star, on chains that keep their peers and on chains that do not.
use Prim.Native.String.{String}
use text.Mathlib.Text.{◌==◌ as str_eq}
use boundless_stock.Prelude.{
  ℕ, ◌+◌, ◌≡◌, ◌↔◌, ◌==◌, ◌&&◌, refl, arith, Bool, true, false, Option, none, some, List, [], ◌∷◌,
  All, Has, length, Result, ok, if◌then◌else◌, err, inl, inr, subst,
}
use boundless_stock.Manifest.{
  Manifest, PeerRecord, relay, step_failed, verified_of, upsert, upsert_peer, record_step,
}
use boundless_stock.Manifest.Links.{IsKeyed}
use boundless_stock.Peers.{
  PeerError, call_threw, expected_of, evm_pairs, evm, svm, PeerNode, PairsOf, star, Chains, Audit,
  wire_one, wire_pairs, wire_peers, audit_peers, build_pairs, find_hub, star_pairs,
}
use boundless_stock.Peers.Pairs.{IsLinked}
use boundless_stock.Peers.Linked.{HonestChains, IsRight}
use boundless_stock.Peers.Wired.{AreDistinct, wire_peers-wired}
use boundless_stock.Peers.Kept.{IsRecorded, wire_peers-kept}
use boundless_stock.Peers.Audited.{IsSound, audit_peers_iff}

abbrev lower : String → String
lower s = s

abbrev to_bytes32 : String → Result PeerError String
to_bytes32 s = ok s

abbrev World : Type 0
World = String → String → ℕ → String

abbrev set : String → String → ℕ → String → World → World
set c a e v w c' a' e' = if str_eq c c' && (str_eq a a' && e == e') then v else w c' a' e'

abbrev keeping : Chains World
keeping = record {
  has = λ c. true;
  peers = λ c a e w. ok (w c a e);
  set_peer = λ c a e v w. ok ("tx", set c a e v w);
}

abbrev honest : HonestChains keeping
honest = record {
  peer_at = λ c a e w. w c a e;
  receipt = λ c a e v w. "tx";
  after = set;
  reads = λ c a e w. refl;
  writes = λ c a e v w. refl;
  at_after = λ c a c' a' e e' v w. refl;
}

-- Every peer reads "0xa" whatever is set; the world counts the writes.
abbrev stubborn : Chains ℕ
stubborn = record {
  has = λ c. true;
  peers = λ c a e w. ok "0xa";
  set_peer = λ c a e v w. ok ("tx", w + 1);
}

abbrev hub : PeerNode
hub = record { chain_key = "base"; eid = 1; address = "0xa"; vm = evm }

abbrev spoke : PeerNode
spoke = record { chain_key = "arc"; eid = 2; address = "0xb"; vm = evm }

abbrev solana : PeerNode
solana = record { chain_key = "solana"; eid = 3; address = "0xc"; vm = svm }

abbrev nodes : List PeerNode
nodes = hub ∷ spoke ∷ solana ∷ []

abbrev star_links : PairsOf
star_links = (hub, spoke) ∷ (spoke, hub) ∷ (hub, solana) ∷ (solana, hub) ∷ []

built : build_pairs star (some "base") nodes ≡ ok star_links
unfolding build_pairs find_hub star_pairs
built = refl

abbrev empty : Manifest
empty = record { home_chain_key = "base"; chains = []; peers = []; steps = [] }

abbrev base_relay : String
base_relay = "0x52908400098527886e0f7030069857d2e4169ee7"

abbrev arc_relay : String
arc_relay = "0xde709f2102306220921060314715629080e2fb77"

-- The 32 bytes of the two relays' addresses; any other text is no address.
abbrev padded : String → Result PeerError String
padded s =
    if str_eq s base_relay
    then ok "0x00000000000000000000000052908400098527886e0f7030069857d2e4169ee7"
    else if str_eq s arc_relay
    then ok "0x000000000000000000000000de709f2102306220921060314715629080e2fb77"
    else err call_threw

abbrev or_same : String → Result PeerError String → String
or_same s (ok t) = t
or_same s (err e) = s

-- A Solana store is 32 bytes already.
abbrev expect : PeerNode → String
expect b = or_same b.address (padded b.address)

abbrev relays : List PeerNode
relays =
    record { chain_key = "base"; eid = 1; address = base_relay; vm = evm }
    ∷ record { chain_key = "arc"; eid = 2; address = arc_relay; vm = evm }
    ∷ record {
      chain_key = "solana";
      eid = 3;
      address = "0x6a0c1f7b1d1f3a9e9d7c5b3a190817f6e5d4c3b2a190807f6e5d4c3b2a190807";
      vm = svm;
    }
    ∷ []

relay_links : PairsOf
unfolding build_pairs star_pairs find_hub
relay_links = elim (build_pairs star (some "base") relays) [ ok ps ↦ ps | err e ↦ [] ]

relays_built : build_pairs star (some "base") relays ≡ ok relay_links
unfolding build_pairs star_pairs find_hub relay_links
relays_built = refl

relays-AreDistinct : AreDistinct relays
relays-AreDistinct a b p q same = ground arith

relays_fit : (b : PeerNode) → Has b relays → expected_of lower padded keeping b ≡ ok (expect b)
relays_fit b (inl p) = subst (λ x. expected_of lower padded keeping x ≡ ok (expect x)) p refl
relays_fit b (inr (inl p)) = subst (λ x. expected_of lower padded keeping x ≡ ok (expect x)) p refl
relays_fit b (inr (inr (inl p))) =
    subst (λ x. expected_of lower padded keeping x ≡ ok (expect x)) p refl
relays_fit b (inr (inr (inr p))) = elim p [ ]

wire_peers-wired_example :
    (m' : Manifest) × ((w' : World) × ((wire_peers lower padded keeping relay "SwapRequest" relays
            star
            (some "base")
            5
            empty
            (λ c a e. "0x0")
          ≡ ok (
            record {
              wired = evm_pairs relay_links;
              verified = evm_pairs relay_links;
              failures = [];
            },
            (m', w'),
          ))
        × ((a b : PeerNode)
            → IsLinked star (some "base") relays a b
            → a.vm ≡ evm
            → IsRight lower padded keeping honest expect a b w')))
wire_peers-wired_example =
    wire_peers-wired lower padded keeping honest expect relay "SwapRequest" relays star
      (some "base") relay_links 5 empty (λ c a e. "0x0") relays_fit relays-AreDistinct relays_built

abbrev link : String → String → ℕ → String → Bool → Option String → PeerRecord
link from to eid expected verified tx = record {
  kind = relay;
  label = "SwapRequest";
  from_chain = from;
  to_chain = to;
  to_eid = eid;
  expected = expected;
  actual = "0xa";
  verified = verified;
  tx_hash = tx;
}

abbrev failed : List PeerRecord
failed =
    link "base" "arc" 2 "0xb" false (some "tx")
    ∷ link "base" "solana" 3 "0xc" false (some "tx")
    ∷ []

abbrev wired : Manifest
wired = record {
  home_chain_key = "base";
  chains = [];
  peers =
      link "base" "arc" 2 "0xb" false (some "tx")
      ∷ link "arc" "base" 1 "0xa" true none
      ∷ link "base" "solana" 3 "0xc" false (some "tx")
      ∷ [];
  steps =
      record {
        module_name = "03-peers:SwapRequest";
        status = step_failed;
        recorded_at = 5;
        detail = verified_of 1 3;
      }
      ∷ [];
}

stubborn_run :
    wire_peers lower to_bytes32 stubborn relay "SwapRequest" nodes star (some "base") 5 empty 0
    ≡ ok (record { wired = 3; verified = 1; failures = failed }, (wired, 2))
unfolding wire_peers wire_pairs wire_one build_pairs find_hub star_pairs upsert_peer upsert
    record_step
stubborn_run = refl

wire_peers-kept_example :
    (1 + length failed ≡ 3)
    × ((a b : PeerNode)
        → Has (a, b) star_links
        → a.vm ≡ evm
        → IsRecorded "SwapRequest" a b wired.peers)
    × (IsKeyed [] → IsKeyed wired.peers)
wire_peers-kept_example =
    wire_peers-kept lower to_bytes32 stubborn relay "SwapRequest" nodes star (some "base")
      star_links 5 empty wired 0 2 (record { wired = 3; verified = 1; failures = failed }) built
      stubborn_run

audit_peers_iff_example :
    (a : Audit) × ((audit_peers lower to_bytes32 keeping wired (λ c a e. "0xa") ≡ ok a)
      × ((a.is_ok ≡ true)
          ↔ All (IsSound lower to_bytes32 keeping honest wired (λ c a e. "0xa")) wired.peers))
audit_peers_iff_example = audit_peers_iff lower to_bytes32 keeping honest wired (λ c a e. "0xa")
