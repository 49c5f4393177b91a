-- ===== src/Partners/Closed.antt =====
-- When a mirror is closed to orders without a partner: `applyPartners` of infra/lib/partners.ts.
use boundless_stock.Prelude.{
  ℕ, ◌≡◌, ◌⊎◌, inl, inr, refl, sym, subst, ◌∙◌, arith, Bool, true, false, Option, none, some, List,
  [], ◌∷◌, ◌++◌, map, Has,
}
use Prim.Native.String.{String}
use boundless_stock.Manifest.{Manifest}
use boundless_stock.Partners.{
  Partner, PartnerKeys, PartnerSettings, PartnersConfig, PlatformFee, Target, Call, Run,
  set_partner, set_platform_fee, set_partner_required, then_run, keys_on, settings_of, or_list,
  or_false, set_one, recipient_on, set_partners, set_fee, apply_to, apply_all, apply_partners,
  evm_targets, svm_mirror,
}

-- What mirrors keep: a partner that was set is there, none is ever removed, and whether partners are
-- required changes by its own call on that mirror only. A call may throw or not.
pub record Mirrors {World : Type 0} (call : Target → Call → World → Run World) : Type 0 where
  pub required_at : Target → World → Bool
  pub partner_at : Target → ℕ → World → Option PartnerSettings
  pub set_there :
      (t : Target) (id : ℕ) (s : PartnerSettings) (w : World)
      → (call t (set_partner id s) w).1 ≡ false
      → partner_at t id (call t (set_partner id s) w).0 ≡ some s
  pub still_there :
      (t u : Target) (c : Call) (id : ℕ) (s : PartnerSettings) (w : World)
      → partner_at u id w ≡ some s
      → (s' : PartnerSettings) × (partner_at u id (call t c w).0 ≡ some s')
  pub partner_keeps :
      (t u : Target) (id : ℕ) (s : PartnerSettings) (w : World)
      → required_at u (call t (set_partner id s) w).0 ≡ required_at u w
  pub fee_keeps :
      (t u : Target) (bps : ℕ) (to : String) (w : World)
      → required_at u (call t (set_platform_fee bps to) w).0 ≡ required_at u w
  pub required_there :
      (t u : Target) (b : Bool) (w : World)
      → (required_at u (call t (set_partner_required b) w).0 ≡ required_at u w) ⊎ (t ≡ u)

then_run_cases :
    {World : Type 0} (r : Run World) (f : World → Run World)
    → ((r.1 ≡ true) × (then_run r f ≡ r)) ⊎ ((r.1 ≡ false) × (then_run r f ≡ f r.0))
then_run_cases (w, true) f = inl (refl, refl)
then_run_cases (w, false) f = inr (refl, refl)

module _ {World : Type 0} (call : Target → Call → World → Run World) (h : Mirrors call) where
  -- Every partner of the list with keys for the mirror's kind of chain is registered on it.
  abbrev pub AreRegistered : Target → List Partner → World → Type 0
  AreRegistered t ps w =
      (p : Partner) (k : PartnerKeys)
      → Has p ps
      → keys_on t p ≡ some k
      → (s : PartnerSettings) × (h.partner_at t p.id w ≡ some s)

  -- From a world to a later one: nothing is unregistered.
  abbrev IsLater : World → World → Type 0
  IsLater w w' =
      (t : Target) (id : ℕ) (s : PartnerSettings)
      → h.partner_at t id w ≡ some s
      → (s' : PartnerSettings) × (h.partner_at t id w' ≡ some s')

  IsLater-trans : (u v w : World) → IsLater u v → IsLater v w → IsLater u w
  IsLater-trans u v w a b t id s p = let (s', q) = a t id s p in b t id s' q

  -- What every part of the program does to all mirrors.
  abbrev IsHarmless : World → World → Type 0
  IsHarmless w w' = IsLater w w' × ((u : Target) → h.required_at u w' ≡ h.required_at u w)

  IsHarmless-refl : (w : World) → IsHarmless w w
  IsHarmless-refl w = (λ t id s p. (s, p), λ u. refl)

  IsHarmless-trans : (u v w : World) → IsHarmless u v → IsHarmless v w → IsHarmless u w
  IsHarmless-trans u v w a b = (IsLater-trans u v w a.0 b.0, λ t. b.1 t ∙ a.1 t)

  -- Setting a list of partners: what it has done where no call threw.
  abbrev IsSetTo : Target → List Partner → World → Run World → Type 0
  IsSetTo t ps w r = IsHarmless w r.0 × (r.1 ≡ false → AreRegistered t ps r.0)

  abbrev IsSetOne : Target → Partner → Option PartnerKeys → World → Run World → Type 0
  IsSetOne t p keys w r =
      IsHarmless w r.0
      × (r.1 ≡ false
          → (k : PartnerKeys) → keys ≡ some k
          → (s : PartnerSettings) × (h.partner_at t p.id r.0 ≡ some s))

  set_one-IsSetOne :
      (t : Target) (p : Partner) (keys : Option PartnerKeys) (w : World)
      → IsSetOne t p keys w (set_one call t p keys w)
  set_one-IsSetOne t p none w = (IsHarmless-refl w, λ fine k e. ground arith)
  set_one-IsSetOne t p (some k) w = (
    (
      λ u id s q. h.still_there t u (set_partner p.id (settings_of p k)) id s w q,
      λ u. h.partner_keeps t u p.id (settings_of p k) w,
    ),
    λ fine k' e. (settings_of p k, h.set_there t p.id (settings_of p k) w fine),
  )

  AreRegistered-∷ :
      (t : Target) (p : Partner) (ps : List Partner) (w w' : World)
      → ((k : PartnerKeys)
          → keys_on t p ≡ some k
          → (s : PartnerSettings) × (h.partner_at t p.id w ≡ some s))
      → IsLater w w'
      → AreRegistered t ps w'
      → AreRegistered t (p ∷ ps) w'
  AreRegistered-∷ t p ps w w' here later rest q k (inr has) e = rest q k has e
  AreRegistered-∷ t p ps w w' here later rest q k (inl same) e =
      let (s, there) = here k (subst (λ x. keys_on t x ≡ some k) (sym same) e) in
      subst (λ (x : Partner). (s : PartnerSettings) × (h.partner_at t x.id w' ≡ some s)) same
        (later t p.id s there)

  set_partners-IsSetTo :
      (t : Target) (ps : List Partner) (w : World) → IsSetTo t ps w (set_partners call t ps w)
  unfolding set_partners
  set_partners-IsSetTo t [] w = (IsHarmless-refl w, λ fine p k has e. elim has [ ])
  set_partners-IsSetTo t (p ∷ ps) w =
      let r = set_one call t p (keys_on t p) w in
      let one = set_one-IsSetOne t p (keys_on t p) w in
      elim (then_run_cases r (set_partners call t ps)) [
        | inl (threw, same) ↦
            subst (IsSetTo t (p ∷ ps) w) (sym same) (one.0, λ fine. ground (arith, threw, fine))
        | inr (fine, same) ↦
            let rest = set_partners-IsSetTo t ps r.0 in
            subst (IsSetTo t (p ∷ ps) w) (sym same) (
              IsHarmless-trans w r.0 (set_partners call t ps r.0).0 one.0 rest.0,
              λ f.
                  AreRegistered-∷ t p ps r.0 (set_partners call t ps r.0).0 (one.1 fine) rest.0.0
                    (rest.1 f),
            )
      ]

  set_fee-IsHarmless :
      (t : Target) (f : Option PlatformFee) (w : World) → IsHarmless w (set_fee call t f w).0
  set_fee-IsHarmless t none w = IsHarmless-refl w
  set_fee-IsHarmless t (some f) w = (
    λ u id s q. h.still_there t u (set_platform_fee f.bps (recipient_on t f)) id s w q,
    λ u. h.fee_keeps t u f.bps (recipient_on t f) w,
  )

  -- A mirror is as open as before, or has its partners.
  abbrev pub IsOpenOrReady : List Partner → World → World → Type 0
  IsOpenOrReady ps w w' =
      (u : Target) → (h.required_at u w' ≡ h.required_at u w) ⊎ AreRegistered u ps w'

  abbrev IsApplied : List Partner → World → World → Type 0
  IsApplied ps w w' = IsLater w w' × IsOpenOrReady ps w w'

  IsHarmless-IsApplied : (ps : List Partner) (w w' : World) → IsHarmless w w' → IsApplied ps w w'
  IsHarmless-IsApplied ps w w' x = (x.0, λ u. inl (x.1 u))

  AreRegistered-later :
      (t : Target) (ps : List Partner) (w w' : World)
      → IsLater w w'
      → AreRegistered t ps w
      → AreRegistered t ps w'
  AreRegistered-later t ps w w' later all p k has e =
      let (s, there) = all p k has e in later t p.id s there

  IsApplied-trans :
      (ps : List Partner) (u v w : World) → IsApplied ps u v → IsApplied ps v w → IsApplied ps u w
  IsApplied-trans ps u v w a b = (
    IsLater-trans u v w a.0 b.0,
    λ t. elim (b.1 t) [
      | inr ready ↦ inr ready
      | inl same ↦ elim (a.1 t) [
        | inl before ↦ inl (same ∙ before)
        | inr ready ↦ inr (AreRegistered-later t ps v w b.0 ready)
      ]
    ],
  )

  -- The last call, on a mirror that has its partners.
  require-IsApplied :
      (ps : List Partner) (t : Target) (b : Bool) (w : World)
      → AreRegistered t ps w
      → IsApplied ps w (call t (set_partner_required b) w).0
  require-IsApplied ps t b w ready =
      let later : IsLater w (call t (set_partner_required b) w).0 =
        λ u id s q. h.still_there t u (set_partner_required b) id s w q in
      (
        later,
        λ u. elim (h.required_there t u b w) [
          | inl same ↦ inl same
          | inr here ↦ inr (
              subst (λ x. AreRegistered x ps (call t (set_partner_required b) w).0) here
                (AreRegistered-later t ps w (call t (set_partner_required b) w).0 later ready))
        ],
      )

  apply_to-IsApplied :
      (cfg : PartnersConfig) (t : Target) (w : World)
      → IsApplied (or_list cfg.partners) w (apply_to call cfg t w).0
  unfolding apply_to
  apply_to-IsApplied cfg t w =
      let ps = or_list cfg.partners in
      let P = λ (r : Run World). IsApplied ps w r.0 in
      let require = λ (w : World). call t (set_partner_required (or_false cfg.required)) w in
      let go = λ (w : World). then_run (set_fee call t cfg.platform_fee w) require in
      let r = set_partners call t ps w in
      let set = set_partners-IsSetTo t ps w in
      let f = set_fee call t cfg.platform_fee r.0 in
      let paid = set_fee-IsHarmless t cfg.platform_fee r.0 in
      let both = IsHarmless-trans w r.0 f.0 set.0 paid in
      elim (then_run_cases r go) [
        | inl (threw, same) ↦ subst P (sym same) (IsHarmless-IsApplied ps w r.0 set.0)
        | inr (fine, same) ↦ subst P (sym same) (elim (then_run_cases f require) [
          | inl (threw, same') ↦ subst P (sym same') (IsHarmless-IsApplied ps w f.0 both)
          | inr (fine', same') ↦ subst P (sym same') (
              IsApplied-trans ps w f.0 (require f.0).0 (IsHarmless-IsApplied ps w f.0 both) (
                require-IsApplied ps t (or_false cfg.required) f.0
                  (AreRegistered-later t ps r.0 f.0 paid.0 (set.1 fine))))
        ])
      ]

  apply_all-IsApplied :
      (cfg : PartnersConfig) (ts : List Target) (w : World)
      → IsApplied (or_list cfg.partners) w (apply_all call cfg ts w).0
  unfolding apply_all
  apply_all-IsApplied cfg [] w = IsHarmless-IsApplied (or_list cfg.partners) w w (IsHarmless-refl w)
  apply_all-IsApplied cfg (t ∷ ts) w =
      let ps = or_list cfg.partners in
      let r = apply_to call cfg t w in
      elim (then_run_cases r (apply_all call cfg ts)) [
        | inl (threw, same) ↦
            subst (λ (r : Run World). IsApplied ps w r.0) (sym same) (apply_to-IsApplied cfg t w)
        | inr (fine, same) ↦
            subst (λ (r : Run World). IsApplied ps w r.0) (sym same)
              (IsApplied-trans ps w r.0 (apply_all call cfg ts r.0).0 (apply_to-IsApplied cfg t w)
                (apply_all-IsApplied cfg ts r.0))
      ]

  -- Whichever call throws, if any: after applying a configuration each mirror either requires
  -- partners exactly if it did before, or has every partner of the configuration that has keys for
  -- its kind of chain.
  pub apply_partners-IsOpenOrReady :
      (cfg : PartnersConfig) (has : String → Bool) (m : Manifest) (solana : List String) (w : World)
      → IsOpenOrReady (or_list cfg.partners) w (apply_partners call (some cfg) has m solana w).0
  unfolding apply_partners
  apply_partners-IsOpenOrReady cfg has m solana w =
      (apply_all-IsApplied cfg (evm_targets has m.chains ++ map svm_mirror solana) w).1
