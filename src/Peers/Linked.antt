-- ===== src/Peers/Linked.antt =====
-- Wiring one link on chains that answer: `wirePeers` of infra/modules/03-peers.ts.
use Prim.Native.String.{String}
use text.Mathlib.Text.{◌==◌ as str_eq}
use text.Mathlib.TextEquality.{eq_iff}
use boundless_stock.Prelude.{
  ℕ, ◌≡◌, inl, inr, refl, sym, ap, ◌∙◌, arith, Bool, Bool-cases, true, false, Option, none, some,
  Result, ok, if◌then◌else◌, ◌==◌, ◌&&◌,
}
use boundless_stock.Manifest.{Kind, PeerRecord}
use boundless_stock.Peers.{
  PeerError, PeerNode, Chains, Wiring, same_hex, expected_of, write_unless, peer_record, noted,
  wire_one,
}

-- Chains on which a call answers, a peer that is set is there, and every other one stays.
pub record HonestChains {World : Type 0} (net : Chains World) : Type 0 where
  pub peer_at : String → String → ℕ → World → String
  pub receipt : String → String → ℕ → String → World → String
  pub after : String → String → ℕ → String → World → World
  pub reads : (c a : String) (e : ℕ) (w : World) → net.peers c a e w ≡ ok (peer_at c a e w)
  pub writes :
      (c a : String) (e : ℕ) (v : String) (w : World)
      → net.set_peer c a e v w ≡ ok (receipt c a e v w, after c a e v w)
  pub at_after :
      (c a c' a' : String) (e e' : ℕ) (v : String) (w : World)
      → peer_at c' a' e' (after c a e v w)
        ≡ (if str_eq c c' && (str_eq a a' && e == e') then v else peer_at c' a' e' w)

module _ {World : Type 0} (lower : String → String) (to_bytes32 : String → Result PeerError String)
    (net : Chains World) (h : HonestChains net) (expect : PeerNode → String) where
  -- The peer of a link reads as what is expected there, up to the case of its digits.
  abbrev pub IsRight : PeerNode → PeerNode → World → Type 0
  IsRight a b w = lower (h.peer_at a.chain_key a.address b.eid w) ≡ lower (expect b)

  -- A link that shares its place with none of the pairs, or expects the same there.
  abbrev pub IsCompatible : PeerNode → PeerNode → PeerNode → PeerNode → Type 0
  IsCompatible c d a b =
      c.chain_key ≡ a.chain_key → c.address ≡ a.address → d.eid ≡ b.eid → expect d ≡ expect b

  place_iff :
      (a b c d : PeerNode)
      → (str_eq a.chain_key c.chain_key && (str_eq a.address c.address && b.eid == d.eid)) ≡ true
      → (c.chain_key ≡ a.chain_key) × (c.address ≡ a.address) × (d.eid ≡ b.eid)
  place_iff a b c d e = ground (arith, eq_iff a.chain_key c.chain_key, eq_iff a.address c.address)

  -- The world after a link is wired.
  abbrev pub wired_world : Bool → PeerNode → PeerNode → World → World
  wired_world true a b w = w
  wired_world false a b w = h.after a.chain_key a.address b.eid (expect b) w

  abbrev pub world_of : PeerNode → PeerNode → World → World
  world_of a b w =
      wired_world
        (same_hex lower to_bytes32 net (h.peer_at a.chain_key a.address b.eid w) (expect b)) a b w

  after-IsRight :
      (a b : PeerNode) (w : World)
      → h.peer_at a.chain_key a.address b.eid (wired_world false a b w) ≡ expect b
  after-IsRight a b w = ground (
    arith,
    h.at_after a.chain_key a.address a.chain_key a.address b.eid b.eid (expect b) w,
    eq_iff a.chain_key a.chain_key,
    eq_iff a.address a.address,
  )

  pub world_of-IsRight : (a b : PeerNode) (w : World) → IsRight a b (world_of a b w)
  world_of-IsRight a b w =
      elim (Bool-cases
        (same_hex lower to_bytes32 net (h.peer_at a.chain_key a.address b.eid w) (expect b))) [
          | inl e ↦ rw e ((eq_iff _ _).0 e)
          | inr e ↦ rw e (ap lower (after-IsRight a b w))
        ]

  pub wired_world-keeps :
      (same : Bool) (a b c d : PeerNode) (w : World)
      → IsCompatible c d a b
      → IsRight c d w
      → IsRight c d (wired_world same a b w)
  wired_world-keeps true a b c d w fits right = right
  wired_world-keeps false a b c d w fits right =
      elim (Bool-cases
        (str_eq a.chain_key c.chain_key && (str_eq a.address c.address && b.eid == d.eid))) [
          | inl e ↦
              let place = place_iff a b c d e in
              ap lower (
                h.at_after a.chain_key a.address c.chain_key c.address b.eid d.eid (expect b) w
                ∙ rw e (sym (fits place.0 place.1 place.2)))
          | inr e ↦
              ap lower (
                h.at_after a.chain_key a.address c.chain_key c.address b.eid d.eid (expect b) w
                ∙ rw e refl)
              ∙ right
        ]

  abbrev pub tx_of : Bool → PeerNode → PeerNode → World → Option String
  tx_of true a b w = none
  tx_of false a b w = some (h.receipt a.chain_key a.address b.eid (expect b) w)

  write_unless-wired :
      (same : Bool) (a b : PeerNode) (w : World)
      → write_unless lower to_bytes32 net same a b (expect b) w
        ≡ ok (tx_of same a b w, wired_world same a b w)
  write_unless-wired true a b w = refl
  write_unless-wired false a b w = rw (h.writes a.chain_key a.address b.eid (expect b) w) refl

  abbrev pub recorded : Kind → String → PeerNode → PeerNode → World → PeerRecord
  recorded kind label a b w =
      peer_record lower to_bytes32 net kind label a b (expect b)
        (h.peer_at a.chain_key a.address b.eid (world_of a b w))
        (tx_of (same_hex lower to_bytes32 net (h.peer_at a.chain_key a.address b.eid w) (expect b))
          a b w)

  abbrev pub wired_one : Kind → String → PeerNode → PeerNode → Wiring World → Wiring World
  wired_one kind label a b s =
      noted lower to_bytes32 net (recorded kind label a b s.world)
        (record s { world = world_of a b s.world })

  pub wire_one-wired :
      (kind : Kind) (label : String) (a b : PeerNode) (s : Wiring World)
      → expected_of lower to_bytes32 net b ≡ ok (expect b)
      → wire_one lower to_bytes32 net kind label a b s ≡ ok (wired_one kind label a b s)
  unfolding wire_one
  wire_one-wired kind label a b s fits =
      rw
        (
          fits,
          h.reads a.chain_key a.address b.eid s.world,
          write_unless-wired
              (same_hex lower to_bytes32 net (h.peer_at a.chain_key a.address b.eid s.world)
                (expect b))
              a b s.world,
          h.reads a.chain_key a.address b.eid (world_of a b s.world),
        )
        refl

  pub recorded-verified :
      (kind : Kind) (label : String) (a b : PeerNode) (w : World)
      → (recorded kind label a b w).verified ≡ true
  recorded-verified kind label a b w = (eq_iff _ _).1 (world_of-IsRight a b w)
