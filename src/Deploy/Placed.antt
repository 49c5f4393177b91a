-- ===== src/Deploy/Placed.antt =====
-- Addresses that are reused or deployed: infra/lib/reuse.ts, and `?? await deploy` of
-- infra/modules/02-mirrors.ts.
use Prim.Native.String.{String}
use text.Mathlib.Text.{◌==◌ as str_eq}
use boundless_stock.Prelude.{
  ℕ, ◌≡◌, inl, inr, refl, sym, subst, ◌∙◌, arith, Bool, Bool-cases, true, false, Option, none, some,
  some-injective, ok, bind-ok, ok-same, ok-injective, or_else-ok, Option-cases, lookup, string_eq,
}
use boundless_stock.Manifest.{ChainDeployment, Manifest, contract_of, not_empty}
use boundless_stock.Deploy.{
  Construction, Net, endpoint_in, endpoint_of, no_endpoint, if_code, reuse_address, reuse,
  or_deploy, check_empty,
}

-- Chains that answer, on which what is deployed has an address and code, and code stays.
pub record SteadyNet {World : Type 0} (net : Net World) : Type 0 where
  pub code_at : String → String → World → Bool
  pub supply_at : String → String → World → ℕ
  pub answers : (c a : String) (w : World) → net.has_code c a w ≡ ok (code_at c a w)
  pub supply_answers : (c a : String) (w : World) → net.total_supply c a w ≡ ok (supply_at c a w)
  pub deployed :
      (c : String) (k : Construction) (a : String) (w w' : World)
      → net.deploy c k w ≡ ok (a, w')
      → (str_eq a "" ≡ false) × (code_at c a w' ≡ true)
  pub stays :
      (c d b : String) (k : Construction) (a : String) (w w' : World)
      → net.deploy c k w ≡ ok (a, w')
      → code_at d b w ≡ true
      → code_at d b w' ≡ true

module _ {World : Type 0} (net : Net World) (h : SteadyNet net) where
  pub endpoint_of-found :
      (m : Manifest) (key endpoint : String) (c : ChainDeployment)
      → lookup key m.chains ≡ some c
      → endpoint_in (some c) ≡ some endpoint
      → endpoint_of m key ≡ ok endpoint
  unfolding endpoint_of
  endpoint_of-found m key endpoint c found ended = rw (found, ended) refl

  pub reuse-found :
      (m : Manifest) (key name a : String) (c : ChainDeployment) (w : World)
      → lookup key m.chains ≡ some c
      → lookup name c.contracts ≡ some a
      → str_eq a "" ≡ false
      → h.code_at key a w ≡ true
      → reuse net m key name w ≡ ok (some a)
  reuse-found m key name a c w found p ne code = rw (found, p, ne, h.answers key a w, code) refl

  pub check_empty-existing : (key a : String) (w : World) → check_empty net key a (some a) w ≡ ok tt
  check_empty-existing key a w = rw (h.supply_answers key a w) refl

  -- An address that is reused or deployed: what is known of it, and of the code elsewhere.
  abbrev pub IsPlaced : String → World → String × World → Type 0
  IsPlaced key w r =
      (str_eq r.0 "" ≡ false)
      × (h.code_at key r.0 r.1 ≡ true)
      × ((d b : String) → h.code_at d b w ≡ true → h.code_at d b r.1 ≡ true)

  abbrev pub IsReused : String → World → Option String → Type 0
  IsReused key w r = (a : String) → r ≡ some a → (str_eq a "" ≡ false) × (h.code_at key a w ≡ true)

  not_empty-full : (o : Option String) (a : String) → not_empty o ≡ some a → str_eq a "" ≡ false
  not_empty-full none a p = ground arith
  not_empty-full (some s) a p = elim (Bool-cases (str_eq s "")) [
    | inl e ↦ ground (arith, e)
    | inr e ↦ subst (λ x. str_eq x "" ≡ false) (some-injective (sym (rw e refl) ∙ p)) e
  ]

  if_code-IsReused :
      (key s : String) (b : Bool) (w : World)
      → str_eq s "" ≡ false
      → h.code_at key s w ≡ b
      → IsReused key w (if_code net s b)
  if_code-IsReused key s false w full code a e = ground arith
  if_code-IsReused key s true w full code a e =
      subst (λ x. (str_eq x "" ≡ false) × (h.code_at key x w ≡ true)) (some-injective e)
        (full, code)

  contract_of-full :
      (c : Option ChainDeployment) (name a : String)
      → contract_of c name ≡ some a
      → str_eq a "" ≡ false
  contract_of-full none name a p = ground arith
  contract_of-full (some c) name a p = not_empty-full (lookup name c.contracts) a p

  reuse_address-IsReused :
      (key : String) (o r : Option String) (w : World)
      → ((a : String) → o ≡ some a → str_eq a "" ≡ false)
      → reuse_address net key o w ≡ ok r
      → IsReused key w r
  reuse_address-IsReused key none r w full p =
      ok-same (IsReused key w) none r (λ a e. ground arith) p
  reuse_address-IsReused key (some s) r w full p = bind-ok (net.has_code key s w) p λ b read p.
      ok-same (IsReused key w) (if_code net s b) r
        (if_code-IsReused key s b w (full s refl) (ok-injective (sym (h.answers key s w) ∙ read))) p

  pub reuse-IsReused :
      (m : Manifest) (key name : String) (r : Option String) (w : World)
      → reuse net m key name w ≡ ok r
      → IsReused key w r
  reuse-IsReused m key name r w p =
      reuse_address-IsReused key (contract_of (lookup key m.chains) name) r w
        (contract_of-full (lookup key m.chains) name) p

  pub or_deploy-IsPlaced :
      (key : String) (k : Construction) (o : Option String) (w : World) (r : String × World)
      → IsReused key w o
      → or_deploy net key k o w ≡ ok r
      → IsPlaced key w r
  or_deploy-IsPlaced key k (some a) w r reused p =
      ok-same (IsPlaced key w) (a, w) r ((reused a refl).0, (reused a refl).1, λ d b c. c) p
  or_deploy-IsPlaced key k none w r reused p =
      let (full, code) = h.deployed key k r.0 w r.1 p in
      (full, code, λ d b c. h.stays key d b k r.0 w r.1 p c)

  pub endpoint_of-chain :
      (m : Manifest) (key endpoint : String)
      → endpoint_of m key ≡ ok endpoint
      → (c : ChainDeployment) × ((lookup key m.chains ≡ some c)
          × (endpoint_in (some c) ≡ some endpoint))
  unfolding endpoint_of
  endpoint_of-chain m key endpoint p = elim (Option-cases (lookup key m.chains)) [
    | inl missing ↦
        ground (arith, or_else-ok (no_endpoint key) none endpoint (sym (rw missing refl) ∙ p))
    | inr (c, found) ↦ (
      c,
      (
        found,
        or_else-ok (no_endpoint key) (endpoint_in (some c)) endpoint (sym (rw found refl) ∙ p),
      ),
    )
  ]
