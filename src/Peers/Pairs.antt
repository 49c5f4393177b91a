-- ===== src/Peers/Pairs.antt =====
-- Which links a topology has: `buildPairs` of infra/modules/03-peers.ts.
use Prim.Native.String.{String}
use text.Mathlib.Text.{◌==◌ as str_eq}
use text.Mathlib.TextEquality.{eq_iff}
use boundless_stock.Prelude.{
  ◌≡◌, ◌≢◌, ◌↔◌, ◌⊎◌, inl, inr, refl, sym, ap, subst, ◌∙◌, some-injective, arith, Bool-cases,
  Option, none, some, List, [], ◌∷◌, ◌++◌, Has, bind-ok, ok-same, or_else, or_else-ok, ok,
}
use boundless_stock.Manifest.{not_empty}
use boundless_stock.Peers.{
  PeerNode, PairsOf, Topology, mesh, star, pairs_from, mesh_pairs, find_hub, star_pairs,
  build_pairs, no_hub_key, hub_not_listed,
}

abbrev pub IsMeshed : List PeerNode → PeerNode → PeerNode → Type 0
IsMeshed nodes a b = Has a nodes × Has b nodes × (a.chain_key ≢ b.chain_key)

-- Between the hub, the first node of the key, and a node of another key.
abbrev pub IsSpoke : Option String → List PeerNode → PeerNode → PeerNode → Type 0
IsSpoke hub_key nodes hub b =
    (key : String) × ((hub_key ≡ some key)
      × ((find_hub key nodes ≡ some hub) × (Has b nodes × (b.chain_key ≢ key))))

abbrev pub IsLinked : Topology → Option String → List PeerNode → PeerNode → PeerNode → Type 0
IsLinked mesh hub_key nodes a b = IsMeshed nodes a b
IsLinked star hub_key nodes a b = IsSpoke hub_key nodes a b ⊎ IsSpoke hub_key nodes b a

Has-append : {A : Type 0} (x : A) (xs ys : List A) → Has x (xs ++ ys) ↔ (Has x xs ⊎ Has x ys)
Has-append x [] ys = ground arith
Has-append x (y ∷ xs) ys = ground (arith, Has-append x xs ys)

pairs_from_iff :
    (a b c : PeerNode) (ns : List PeerNode)
    → Has (b, c) (pairs_from a ns) ↔ ((a ≡ b) × Has c ns × (a.chain_key ≢ c.chain_key))
unfolding pairs_from
pairs_from_iff a b c [] = ground arith
pairs_from_iff a b c (n ∷ ns) = elim (Bool-cases (str_eq a.chain_key n.chain_key)) [
  | inl same ↦ ground (arith, same, pairs_from_iff a b c ns, eq_iff a.chain_key n.chain_key)
  | inr other ↦ ground (arith, other, pairs_from_iff a b c ns, eq_iff a.chain_key n.chain_key)
]

mesh_pairs_iff :
    (as' nodes : List PeerNode) (b c : PeerNode)
    → Has (b, c) (mesh_pairs as' nodes) ↔ (Has b as' × Has c nodes × (b.chain_key ≢ c.chain_key))
unfolding mesh_pairs
mesh_pairs_iff [] nodes b c = ground arith
mesh_pairs_iff (a ∷ as') nodes b c = ground (
  arith,
  Has-append (b, c) (pairs_from a nodes) (mesh_pairs as' nodes),
  pairs_from_iff a b c nodes,
  mesh_pairs_iff as' nodes b c,
)

star_pairs_iff :
    (key : String) (hub : PeerNode) (ns : List PeerNode) (a b : PeerNode)
    → Has (a, b) (star_pairs key hub ns) ↔ (
        ((hub ≡ a) × Has b ns × (b.chain_key ≢ key)) ⊎ ((hub ≡ b) × Has a ns × (a.chain_key ≢ key)))
unfolding star_pairs
star_pairs_iff key hub [] a b = ground arith
star_pairs_iff key hub (n ∷ ns) a b = elim (Bool-cases (str_eq n.chain_key key)) [
  | inl same ↦ ground (arith, same, star_pairs_iff key hub ns a b, eq_iff n.chain_key key)
  | inr other ↦ ground (arith, other, star_pairs_iff key hub ns a b, eq_iff n.chain_key key)
]

not_empty-some : (o : Option String) (s : String) → not_empty o ≡ some s → o ≡ some s
not_empty-some none s p = ground arith
not_empty-some (some t) s p = elim (Bool-cases (str_eq t "")) [
  | inl e ↦ ground (arith, e)
  | inr e ↦ sym (rw e refl) ∙ p
]

IsSpoke-iff :
    (hub_key : Option String) (key : String) (nodes : List PeerNode) (hub a b : PeerNode)
    → hub_key ≡ some key
    → find_hub key nodes ≡ some hub
    → ((hub ≡ a) × Has b nodes × (b.chain_key ≢ key)) ↔ IsSpoke hub_key nodes a b
IsSpoke-iff hub_key key nodes hub a b given found = (
  λ (h, has, ne). (key, (given, (found ∙ ap some h, (has, ne)))),
  λ (k, (given', (found', (has, ne)))).
      let same : k ≡ key = some-injective (sym given' ∙ given) in
      (
        some-injective (sym found ∙ subst (λ x. find_hub x nodes ≡ some a) same found'),
        has,
        subst (λ x. b.chain_key ≢ x) same ne,
      ),
)

star_pairs-IsLinked :
    (hub_key : Option String) (key : String) (nodes : List PeerNode) (hub a b : PeerNode)
    → hub_key ≡ some key
    → find_hub key nodes ≡ some hub
    → Has (a, b) (star_pairs key hub nodes) ↔ IsLinked star hub_key nodes a b
star_pairs-IsLinked hub_key key nodes hub a b given found =
    let out = IsSpoke-iff hub_key key nodes hub a b given found in
    let back = IsSpoke-iff hub_key key nodes hub b a given found in
    let pairs = star_pairs_iff key hub nodes a b in
    (
      λ h. elim (pairs.0 h) [ inl x ↦ inl (out.0 x) | inr x ↦ inr (back.0 x) ],
      λ h. pairs.1 (elim h [ inl x ↦ inl (out.1 x) | inr x ↦ inr (back.1 x) ]),
    )

-- Where the pairs of a topology are built: in a mesh they are those of two listed nodes of different
-- chains, each way; in a star those between the hub, which is the first listed node of the hub's
-- chain, and each listed node of another chain, each way.
pub build_pairs_iff :
    (topology : Topology) (hub_key : Option String) (nodes : List PeerNode) (pairs : PairsOf)
    (a b : PeerNode)
    → build_pairs topology hub_key nodes ≡ ok pairs
    → Has (a, b) pairs ↔ IsLinked topology hub_key nodes a b
unfolding build_pairs
build_pairs_iff mesh hub_key nodes pairs a b p =
    ok-same (λ ps. Has (a, b) ps ↔ IsMeshed nodes a b) (mesh_pairs nodes nodes) pairs
      (mesh_pairs_iff nodes nodes a b) p
build_pairs_iff star hub_key nodes pairs a b p =
    bind-ok (or_else no_hub_key (not_empty hub_key)) p λ key given p.
      bind-ok (or_else (hub_not_listed key) (find_hub key nodes)) p λ hub found p.
        ok-same (λ ps. Has (a, b) ps ↔ IsLinked star hub_key nodes a b) (star_pairs key hub nodes)
          pairs
          (star_pairs-IsLinked hub_key key nodes hub a b
            (not_empty-some hub_key key (or_else-ok no_hub_key _ key given))
            (or_else-ok (hub_not_listed key) _ hub found))
          p

find_hub-Has :
    (key : String) (nodes : List PeerNode) (hub : PeerNode)
    → find_hub key nodes ≡ some hub
    → Has hub nodes
unfolding find_hub
find_hub-Has key [] hub p = ground arith
find_hub-Has key (n ∷ ns) hub p = elim (Bool-cases (str_eq n.chain_key key)) [
  | inl e ↦ inl (some-injective (sym (rw e refl) ∙ p))
  | inr e ↦ inr (find_hub-Has key ns hub (sym (rw e refl) ∙ p))
]

-- Both ends of a link are listed.
pub IsLinked-Has :
    (topology : Topology) (hub_key : Option String) (nodes : List PeerNode) (a b : PeerNode)
    → IsLinked topology hub_key nodes a b
    → Has a nodes × Has b nodes
IsLinked-Has mesh hub_key nodes a b (x, y, ne) = (x, y)
IsLinked-Has star hub_key nodes a b (inl (key, (given, (found, (has, ne))))) =
    (find_hub-Has key nodes a found, has)
IsLinked-Has star hub_key nodes a b (inr (key, (given, (found, (has, ne))))) =
    (has, find_hub-Has key nodes b found)
