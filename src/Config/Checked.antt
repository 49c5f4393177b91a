-- ===== src/Config/Checked.antt =====
-- What a configuration that `loadConfig` of infra/lib/config.ts lets pass keeps to.
use boundless_stock.Prelude.{
  throw_if-ok, ◌*◌, ◌^◌, ◌≤◌, ◌≡◌, refl, sym, subst, arith, Bool, true, false, not, ◌||◌, Option,
  none, some, List, [], ◌∷◌, map, All, Has, inl, inr, Result, ok, err, ◌>>◌, throw_if, Eq, nat_eq,
  string_eq,
}
use boundless_stock.Prelude.Int.{ℤ, pos, negsuc, pos_part}
use boundless_stock.Config.{
  ConfigError, Number, whole, fraction, below_zero, VmName, evm, svm, other_vm, ChainConfig,
  DeploymentConfig, is_empty, is_absent, Text, is_nullish, is_undefined, before_point, vm_of,
  lacks_program, check_vm, validate_chain, each, base_side, quote_side, local_decimals,
  check_decimals, validate_side, validate_decimals, is_among, all_new, eid_of, all_chains, is_nil,
  load_config, u64_max, missing_field, missing_program, chain_id_on_svm, duplicate_eid,
  duplicate_key, no_mirrors,
}

-- No value stands twice.
abbrev pub IsDistinct : {A : Type 0} → List A → Type 0
IsDistinct [] = Unit
IsDistinct (x ∷ xs) = (¬ Has x xs) × IsDistinct xs

-- A chain with the fields that its VM asks for.
abbrev pub IsForVm : VmName → ChainConfig → Type 0
IsForVm evm c = is_nullish c.chain_id ≡ false
IsForVm svm c = (lacks_program c.svm_config ≡ false) × (is_undefined c.chain_id ≡ true)
IsForVm other_vm c = ⊥

abbrev pub IsChain : ChainConfig → Type 0
IsChain c =
    (is_empty c.key ≡ false)
    × (is_empty c.name ≡ false)
    × (is_absent c.eid ≡ false)
    × (is_empty c.rpc_url ≡ false)
    × IsForVm (vm_of c) c

-- Whole decimals of at least six, and on Solana a supply whose whole part a u64 holds.
abbrev pub Fits : VmName → Option ℤ → Number → Type 0
Fits vm supply (fraction n) = ⊥
Fits vm supply below_zero = ⊥
Fits evm supply (whole n) = 6 ≤ n
Fits other_vm supply (whole n) = 6 ≤ n
Fits svm none (whole n) = ⊥
Fits svm (some s) (whole n) = (6 ≤ n) × (pos_part s * 10 ^ n ≤ u64_max)

abbrev pub IsPrecise : (Text → Option ℤ) → DeploymentConfig → ChainConfig → Type 0
IsPrecise big_int cfg c =
    Fits (vm_of c) (big_int (before_point cfg.token.initial_supply))
      (local_decimals cfg c base_side)
    × Fits (vm_of c) (big_int (before_point cfg.quote_asset.initial_supply))
        (local_decimals cfg c quote_side)

abbrev pub IsConfig : (Text → Option ℤ) → DeploymentConfig → Type 0
IsConfig big_int cfg =
    (is_nil cfg.mirror_chains ≡ false)
    × All IsChain (all_chains cfg)
    × IsDistinct (map eid_of (all_chains cfg))
    × All (IsPrecise big_int cfg) (all_chains cfg)
    × IsDistinct (map (λ c. c.key) (all_chains cfg))

then-ok {κ} :
    {B : Type κ} (m : Result ConfigError (Unit {κ})) (k : Result ConfigError B) (b : B)
    → (m >> k) ≡ ok b
    → (m ≡ ok tt) × (k ≡ ok b)
then-ok (ok tt) k b p = (refl, p)
then-ok (err e) k b p = ground arith

not-false : (b : Bool) → not b ≡ false → b ≡ true
not-false true p = refl
not-false false p = ground arith

true_false : {B : Type 0} (b : Bool) → b ≡ true → b ≡ false → B
true_false b t f = ground arith

All-Has : {A : Type 0} (P : A → Type 0) (a : A) (xs : List A) → All P xs → Has a xs → P a
All-Has P a [] all h = elim h [ ]
All-Has P a (x ∷ xs) all (inl same) = subst P same (all.0)
All-Has P a (x ∷ xs) all (inr later) = All-Has P a xs (all.1) later

All-weaken :
    {A : Type 0} (P Q : A → Type 0) → ((a : A) → P a → Q a) → (xs : List A) → All P xs → All Q xs
All-weaken P Q f [] all = tt
All-weaken P Q f (x ∷ xs) all = (f x (all.0), All-weaken P Q f xs (all.1))

each-All :
    {A : Type 0} (P : A → Type 0) (f : A → Result ConfigError (Unit {0}))
    → ((a : A) → f a ≡ ok tt → P a)
    → (xs : List A) → each f xs ≡ ok tt
    → All P xs
each-All P f h [] p = tt
each-All P f h (x ∷ xs) p =
    let (first, rest) = then-ok (f x) (each f xs) tt p in (h x first, each-All P f h xs rest)

module _ {A : Type 0} ⦃e : Eq A⦄ where
  Has-among : (a : A) (xs : List A) → Has a xs → is_among a xs ≡ true
  Has-among a [] h = elim h [ ]
  Has-among a (x ∷ xs) (inl same) = rw ((e.beq_iff a x).1 (sym same)) refl
  Has-among a (x ∷ xs) (inr later) = ground (arith, Has-among a xs later)

  all_new-IsDistinct :
      (x : ConfigError) (seen xs : List A)
      → all_new x seen xs ≡ ok tt
      → All (λ a. ¬ Has a seen) xs × IsDistinct xs
  all_new-IsDistinct x seen [] p = (tt, tt)
  all_new-IsDistinct x seen (a ∷ xs) p =
      let (new_one, rest) = then-ok (throw_if (is_among a seen) x) (all_new x (a ∷ seen) xs) tt p in
      let (fresh, distinct) = all_new-IsDistinct x (a ∷ seen) xs rest in
      (
        (
          λ h. true_false (is_among a seen) (Has-among a seen h) (throw_if-ok _ x tt new_one),
          All-weaken (λ b. ¬ Has b (a ∷ seen)) (λ b. ¬ Has b seen)
              (λ b not_there h. not_there (inr h)) xs fresh,
        ),
        (λ h. All-Has (λ b. ¬ Has b (a ∷ seen)) a xs fresh h (inl refl), distinct),
      )

check_vm-IsForVm : (v : VmName) (c : ChainConfig) → check_vm v c ≡ ok tt → IsForVm v c
check_vm-IsForVm evm c p = throw_if-ok _ _ tt p
check_vm-IsForVm svm c p =
    let (first, rest) = then-ok _ _ tt p in
    (throw_if-ok _ missing_program tt first, not-false _ (throw_if-ok _ chain_id_on_svm tt rest))
check_vm-IsForVm other_vm c p = ground arith

check_decimals-Fits :
    (v : VmName) (supply : Option ℤ) (n : Number)
    → check_decimals v supply n ≡ ok tt
    → Fits v supply n
check_decimals-Fits v supply (fraction n) p = ground arith
check_decimals-Fits v supply below_zero p = ground arith
check_decimals-Fits evm supply (whole n) p = ground arith
check_decimals-Fits other_vm supply (whole n) p = ground arith
check_decimals-Fits svm none (whole n) p = ground arith
check_decimals-Fits svm (some (pos s)) (whole n) p = ground arith
check_decimals-Fits svm (some (negsuc s)) (whole n) p = ground arith

missing_any :
    (a b c d : Bool)
    → (a || b || c || d) ≡ false
    → (a ≡ false) × (b ≡ false) × (c ≡ false) × (d ≡ false)
missing_any a b c d p = ground arith

validate_chain-IsChain : (c : ChainConfig) → validate_chain c ≡ ok tt → IsChain c
unfolding validate_chain
validate_chain-IsChain c p =
    let (fields, vm) = then-ok _ _ tt p in
    let (k, n, e, r) = missing_any _ _ _ _ (throw_if-ok _ missing_field tt fields) in
    (k, n, e, r, check_vm-IsForVm (vm_of c) c vm)

validate_decimals-All :
    (big_int : Text → Option ℤ) (cfg : DeploymentConfig) (cs : List ChainConfig)
    → validate_decimals big_int cfg cs ≡ ok tt
    → All (IsPrecise big_int cfg) cs
unfolding validate_decimals
validate_decimals-All big_int cfg cs p =
    each-All (IsPrecise big_int cfg) _
      (λ c q.
        let (base_ok, quote_ok) =
          then-ok (validate_side big_int cfg c base_side) (validate_side big_int cfg c quote_side)
            tt q in
        (check_decimals-Fits _ _ _ base_ok, check_decimals-Fits _ _ _ quote_ok))
      cs p

-- A configuration that is loaded has a mirror chain, complete chains, distinct endpoint ids and
-- distinct keys, and on every chain whole decimals of at least six for both assets, which on Solana
-- let a u64 hold the whole part of the supply (what stands before its point).
pub load_config-IsConfig :
    (big_int : Text → Option ℤ) (cfg loaded : DeploymentConfig)
    → load_config big_int cfg ≡ ok loaded
    → IsConfig big_int cfg
unfolding load_config
load_config-IsConfig big_int cfg loaded p =
    let (to_keys, _) = then-ok _ _ loaded p in
    let (to_decimals, keys) = then-ok _ _ tt to_keys in
    let (to_eids, decimals) = then-ok _ _ tt to_decimals in
    let (to_mirrors, eids) = then-ok _ _ tt to_eids in
    let (to_some, mirrors) = then-ok _ _ tt to_mirrors in
    let (to_home, some_mirror) = then-ok _ _ tt to_some in
    let (_, home) = then-ok _ _ tt to_home in
    (
      throw_if-ok _ no_mirrors tt some_mirror,
      (
        validate_chain-IsChain cfg.home_chain home,
        each-All IsChain validate_chain validate_chain-IsChain cfg.mirror_chains mirrors,
      ),
      (all_new-IsDistinct duplicate_eid [] (map eid_of (all_chains cfg)) eids).1,
      validate_decimals-All big_int cfg (all_chains cfg) decimals,
      (all_new-IsDistinct duplicate_key [] (map (λ c. c.key) (all_chains cfg)) keys).1,
    )
