-- ===== src/Deploy/Recorded.antt =====
-- Contracts set in a manifest by infra/modules/02-mirrors.ts, with `setContract` of infra/lib/manifest.ts.
use Prim.Native.String.{String}
use boundless_stock.Prelude.{
  ◌≡◌, ◌≢◌, refl, ap, ◌∙◌, some, ok, lookup, insert, insert_same, lookup-insert_self,
  lookup-insert_ne, lookup-insert, string_eq,
}
use boundless_stock.Manifest.{ChainDeployment, Manifest, set_contract}
use boundless_stock.Deploy.{Net, set_all}

abbrev pub add : String → String → ChainDeployment → ChainDeployment
add name a c = record c { contracts = insert name a c.contracts }

abbrev pub add_to : String → String → String → ChainDeployment → Manifest → Manifest
add_to key name a c m = record m { chains = insert key (add name a c) m.chains }

set_contract-add_to :
    (key name a : String) (c : ChainDeployment) (m : Manifest)
    → lookup key m.chains ≡ some c
    → set_contract key name a m ≡ ok (add_to key name a c m)
unfolding set_contract
set_contract-add_to key name a c m found = rw found refl

pub add_to-found :
    (key name a : String) (c : ChainDeployment) (m : Manifest)
    → lookup key (add_to key name a c m).chains ≡ some (add name a c)
add_to-found key name a c m = lookup-insert_self key (add name a c) m.chains

add_same :
    (name a : String) (c : ChainDeployment) → lookup name c.contracts ≡ some a → add name a c ≡ c
add_same name a c p = λ i. record c { contracts = insert_same name a c.contracts p i }

add_to-same :
    (key name a : String) (c : ChainDeployment) (m : Manifest)
    → lookup key m.chains ≡ some c
    → lookup name c.contracts ≡ some a
    → add_to key name a c m ≡ m
add_to-same key name a c m found p = λ i. record m {
  chains =
      ((ap (λ x. insert key x m.chains) (add_same name a c p)) ∙ insert_same key c m.chains found)
        i;
}

-- The chain of a manifest after the four contracts are set.
abbrev pub chain_with : String → String → ChainDeployment → ChainDeployment
chain_with base quote c =
    add "QuoteAssetOft" quote
      (add "TokenizedStockOft" base (add "QuoteAsset" quote (add "TokenizedStock" base c)))

abbrev pub manifest_with : String → String → String → ChainDeployment → Manifest → Manifest
manifest_with key base quote c m =
    let c1 = add "TokenizedStock" base c in
    let c2 = add "QuoteAsset" quote c1 in
    let c3 = add "TokenizedStockOft" base c2 in
    add_to key "QuoteAssetOft" quote c3 (
      add_to key "TokenizedStockOft" base c2
        (add_to key "QuoteAsset" quote c1 (add_to key "TokenizedStock" base c m)))

pub set_all-with :
    {World : Type 0} (net : Net World) (key base quote : String) (c : ChainDeployment)
    (m : Manifest)
    → lookup key m.chains ≡ some c
    → set_all net key base quote m ≡ ok (manifest_with key base quote c m)
set_all-with net key base quote c m found =
    let c1 = add "TokenizedStock" base c in
    let m1 = add_to key "TokenizedStock" base c m in
    let c2 = add "QuoteAsset" quote c1 in
    let m2 = add_to key "QuoteAsset" quote c1 m1 in
    let c3 = add "TokenizedStockOft" base c2 in
    let m3 = add_to key "TokenizedStockOft" base c2 m2 in
    rw
      (
        set_contract-add_to key "TokenizedStock" base c m found,
        set_contract-add_to key "QuoteAsset" quote c1 m1
            (add_to-found key "TokenizedStock" base c m),
        set_contract-add_to key "TokenizedStockOft" base c2 m2
            (add_to-found key "QuoteAsset" quote c1 m1),
        set_contract-add_to key "QuoteAssetOft" quote c3 m3
            (add_to-found key "TokenizedStockOft" base c2 m2),
      )
      refl

pub manifest_with-found :
    (key base quote : String) (c : ChainDeployment) (m : Manifest)
    → lookup key (manifest_with key base quote c m).chains ≡ some (chain_with base quote c)
manifest_with-found key base quote c m =
    let c1 = add "TokenizedStock" base c in
    let c2 = add "QuoteAsset" quote c1 in
    add_to-found key "QuoteAssetOft" quote (add "TokenizedStockOft" base c2) (
      add_to key "TokenizedStockOft" base c2
        (add_to key "QuoteAsset" quote c1 (add_to key "TokenizedStock" base c m)))

add_to-others :
    (key other name a : String) (c : ChainDeployment) (m : Manifest)
    → key ≢ other
    → lookup other (add_to key name a c m).chains ≡ lookup other m.chains
add_to-others key other name a c m ne = lookup-insert_ne key other (add name a c) m.chains ne

pub manifest_with-others :
    (key other base quote : String) (c : ChainDeployment) (m : Manifest)
    → key ≢ other
    → lookup other (manifest_with key base quote c m).chains ≡ lookup other m.chains
manifest_with-others key other base quote c m ne =
    let c1 = add "TokenizedStock" base c in
    let m1 = add_to key "TokenizedStock" base c m in
    let c2 = add "QuoteAsset" quote c1 in
    let m2 = add_to key "QuoteAsset" quote c1 m1 in
    let c3 = add "TokenizedStockOft" base c2 in
    add_to-others key other "QuoteAssetOft" quote c3 (add_to key "TokenizedStockOft" base c2 m2) ne
    ∙ add_to-others key other "TokenizedStockOft" base c2 m2 ne
    ∙ add_to-others key other "QuoteAsset" quote c1 m1 ne
    ∙ add_to-others key other "TokenizedStock" base c m ne

-- A chain on which both tokens are deployed and recorded.
abbrev pub HasTokens : String → String → ChainDeployment → Type 0
HasTokens base quote c =
    (lookup "TokenizedStock" c.contracts ≡ some base)
    × (lookup "QuoteAsset" c.contracts ≡ some quote)
    × (lookup "TokenizedStockOft" c.contracts ≡ some base)
    × (lookup "QuoteAssetOft" c.contracts ≡ some quote)

pub chain_with-HasTokens :
    (base quote : String) (c : ChainDeployment) → HasTokens base quote (chain_with base quote c)
chain_with-HasTokens base quote c = (
  simp lookup-insert refl,
  simp lookup-insert refl,
  simp lookup-insert refl,
  simp lookup-insert refl,
)

-- The last contracts to be set, from the one that is set last.
abbrev last_one : String → String → ChainDeployment → Manifest → Manifest
last_one key quote c m = add_to key "QuoteAssetOft" quote c m

abbrev last_two : String → String → String → ChainDeployment → Manifest → Manifest
last_two key base quote c m =
    last_one key quote (add "TokenizedStockOft" base c) (add_to key "TokenizedStockOft" base c m)

abbrev last_three : String → String → String → ChainDeployment → Manifest → Manifest
last_three key base quote c m =
    last_two key base quote (add "QuoteAsset" quote c) (add_to key "QuoteAsset" quote c m)

pub manifest_with-same :
    (key base quote : String) (c : ChainDeployment) (m : Manifest)
    → lookup key m.chains ≡ some c
    → HasTokens base quote c
    → manifest_with key base quote c m ≡ m
manifest_with-same key base quote c m found (b, q, bo, qo) =
    (λ i.
      last_three key base quote (add_same "TokenizedStock" base c b i)
        (add_to-same key "TokenizedStock" base c m found b i))
    ∙ (λ i.
        last_two key base quote (add_same "QuoteAsset" quote c q i)
          (add_to-same key "QuoteAsset" quote c m found q i))
    ∙ (λ i.
        last_one key quote (add_same "TokenizedStockOft" base c bo i)
          (add_to-same key "TokenizedStockOft" base c m found bo i))
    ∙ add_to-same key "QuoteAssetOft" quote c m found qo
