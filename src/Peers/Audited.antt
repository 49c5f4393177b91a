-- ===== src/Peers/Audited.antt =====
-- What an audit of the peers finds: `auditPeers` of infra/modules/03-peers.ts.
use Prim.Native.String.{String}
use text.Mathlib.TextEquality.{eq_iff}
use boundless_stock.Prelude.{
  ◌≡◌, ◌↔◌, refl, sym, subst, arith, Bool, true, false, Option, none, some, some-injective, length,
  List, [], ◌∷◌, ◌++◌, All, lookup, string_eq, Result, ok,
}
use boundless_stock.Manifest.{Manifest, PeerRecord, contract_of}
use boundless_stock.Peers.{
  PeerError, Chains, same_hex, contract_name, check_link, check_if, broken_if, broken_links,
  audit_peers, Audit, is_none_broken,
}
use boundless_stock.Peers.Linked.{HonestChains}

module _ {World : Type 0} (lower : String → String) (to_bytes32 : String → Result PeerError String)
    (net : Chains World) (h : HonestChains net) where
  -- A recorded link from a chain that is known: the manifest has the contract, and it reads there as
  -- what was expected, up to the case of its digits.
  abbrev pub IsSound : Manifest → World → PeerRecord → Type 0
  IsSound m w p =
      net.has p.from_chain ≡ true
      → (address : String) × ((contract_of (lookup p.from_chain m.chains) (contract_name m p)
            ≡ some address)
          × (lower (h.peer_at p.from_chain address p.to_eid w) ≡ lower p.expected))

  -- A check that answers, and finds nothing exactly where the link is sound.
  abbrev IsChecked : Type 0 → Result PeerError (List PeerRecord) → Type 0
  IsChecked P r = (found : List PeerRecord) × ((r ≡ ok found) × ((found ≡ []) ↔ P))

  -- With the contract's address as it was found.
  abbrev IsSoundAt : Option String → World → PeerRecord → Type 0
  IsSoundAt o w p =
      (address : String) × ((o ≡ some address)
        × (lower (h.peer_at p.from_chain address p.to_eid w) ≡ lower p.expected))

  broken_if_iff :
      (same : Bool) (p : PeerRecord)
      → (broken_if lower to_bytes32 net same p [] ≡ []) ↔ (same ≡ true)
  broken_if_iff true p = ground arith
  broken_if_iff false p = ground arith

  check_link-IsChecked :
      (o : Option String) (w : World) (p : PeerRecord)
      → IsChecked (IsSoundAt o w p) (check_link lower to_bytes32 net o p w)
  check_link-IsChecked none w p = (
    record p { verified = false; actual = "missing contract" } ∷ [],
    (refl, (λ e. ground arith, λ (a, (e, r)). ground arith)),
  )
  check_link-IsChecked (some a) w p =
      let actual = h.peer_at p.from_chain a p.to_eid w in
      let found =
        broken_if_iff (same_hex lower to_bytes32 net actual p.expected)
          (record p { verified = false; actual = actual }) in
      let same = eq_iff (lower actual) (lower p.expected) in
      (
        broken_if lower to_bytes32 net (same_hex lower to_bytes32 net actual p.expected)
            (record p { verified = false; actual = actual }) [],
        (
          rw (h.reads p.from_chain a p.to_eid w) refl,
          (
            λ e. (a, (refl, same.0 (found.0 e))),
            λ (b, (e, r)). found.1 (
                same.1 (
                  subst (λ x. lower (h.peer_at p.from_chain x p.to_eid w) ≡ lower p.expected)
                    (sym (some-injective e)) r)),
          ),
        ),
      )

  check_if-IsChecked :
      (m : Manifest) (w : World) (p : PeerRecord)
      → IsChecked (IsSound m w p) (check_if lower to_bytes32 net (net.has p.from_chain) m p w)
  check_if-IsChecked m w p =
      let o = contract_of (lookup p.from_chain m.chains) (contract_name m p) in
      elim (net.has p.from_chain)
        as (λ k. IsChecked (k ≡ true → IsSoundAt o w p) (check_if lower to_bytes32 net k m p w)) [
          | false ↦ ([], (refl, (λ e k. ground arith, λ x. refl)))
          | true ↦
              let (found, (same, iff)) = check_link-IsChecked o w p in
              (found, (same, (λ e k. iff.0 e, λ x. iff.1 (x refl))))
        ]

  append_nil_iff : (xs ys : List PeerRecord) → (xs ++ ys ≡ []) ↔ ((xs ≡ []) × (ys ≡ []))
  append_nil_iff [] ys = ground arith
  append_nil_iff (x ∷ xs) ys = ground arith

  broken_links-IsChecked :
      (m : Manifest) (w : World) (ps : List PeerRecord)
      → IsChecked (All (IsSound m w) ps) (broken_links lower to_bytes32 net m w ps)
  unfolding broken_links
  broken_links-IsChecked m w [] = ([], (refl, (λ e. tt, λ e. refl)))
  broken_links-IsChecked m w (p ∷ ps) =
      let (here, (same, here_iff)) = check_if-IsChecked m w p in
      let (rest, (same', rest_iff)) = broken_links-IsChecked m w ps in
      let both = append_nil_iff here rest in
      (
        here ++ rest,
        (
          rw (same, same') refl,
          (
            λ e. (here_iff.0 (both.0 e).0, rest_iff.0 (both.0 e).1),
            λ (x, y). both.1 (here_iff.1 x, rest_iff.1 y),
          ),
        ),
      )

  is_none_broken_iff : (ps : List PeerRecord) → (is_none_broken ps ≡ true) ↔ (ps ≡ [])
  is_none_broken_iff [] = ground arith
  is_none_broken_iff (p ∷ ps) = ground arith

  -- On chains where calls answer, an audit ends, and it says ok exactly where every recorded link
  -- from a chain that is known has its contract in the manifest and reads on the chain as the peer
  -- that was expected.
  pub audit_peers_iff :
      (m : Manifest) (w : World)
      → (a : Audit) × ((audit_peers lower to_bytes32 net m w ≡ ok a)
          × ((a.is_ok ≡ true) ↔ All (IsSound m w) m.peers))
  unfolding audit_peers
  audit_peers_iff m w =
      let (broken, (same, iff)) = broken_links-IsChecked m w m.peers in
      let nothing = is_none_broken_iff broken in
      (
        record { is_ok = is_none_broken broken; checked = length m.peers; broken = broken },
        (rw same refl, (λ e. iff.0 (nothing.0 e), λ x. nothing.1 (iff.1 x))),
      )
