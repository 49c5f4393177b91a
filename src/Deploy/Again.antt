-- ===== src/Deploy/Again.antt =====
-- A second run of a deployment: infra/modules/02-mirrors.ts with infra/lib/reuse.ts.
use Prim.Native.String.{String}
use text.Mathlib.Text.{◌==◌ as str_eq}
use boundless_stock.Prelude.{
  ℕ, ◌≡◌, ◌≢◌, refl, sym, ap, ◌∙◌, true, false, some, List, [], ◌∷◌, ok, bind-ok, ok-same,
  ok-injective, lookup, string_eq, All, length,
}
use boundless_stock.Manifest.{ChainDeployment, Manifest, record_step, step_ok, mirrors}
use boundless_stock.Deploy.{
  tokenized_stock, omni_token, token, Net, DeploymentConfig, endpoint_in, endpoint_of, reuse,
  or_deploy, check_empty, set_all, deploy_mirror, deploy_mirrors, deploy_mirror_tokens,
}
use boundless_stock.Deploy.Recorded.{
  HasTokens, chain_with, chain_with-HasTokens, manifest_with, manifest_with-found,
  manifest_with-others, manifest_with-same, set_all-with,
}
use boundless_stock.Deploy.Placed.{
  SteadyNet, endpoint_of-found, reuse-found, check_empty-existing, IsPlaced, reuse-IsReused,
  or_deploy-IsPlaced, endpoint_of-chain,
}

-- No key of a list stands in it again.
abbrev pub AreDistinct : List String → Type 0
AreDistinct [] = Unit
AreDistinct (k ∷ ks) = All (λ j. k ≢ j) ks × AreDistinct ks

module _ {World : Type 0} (net : Net World) (h : SteadyNet net) where
  abbrev IsReady : String → Manifest → World → Type 0
  IsReady key m w =
      (c : ChainDeployment) × ((lookup key m.chains ≡ some c)
        × ((endpoint : String) × ((endpoint_in (some c) ≡ some endpoint)
              × ((base : String) × ((quote : String) × (HasTokens base quote c
                      × (str_eq base "" ≡ false)
                      × (str_eq quote "" ≡ false)
                      × (h.code_at key base w ≡ true)
                      × (h.code_at key quote w ≡ true)))))))

  deploy_mirror-again :
      (cfg : DeploymentConfig) (key : String) (m : Manifest) (w : World)
      → IsReady key m w
      → deploy_mirror net cfg key m w ≡ ok (m, w)
  unfolding deploy_mirror endpoint_of
  deploy_mirror-again cfg key m w
        (c, (found, (endpoint, (ended, (base, (quote, ((b, q, bo, qo), nb, nq, cb, cq))))))) =
      rw
        (
          endpoint_of-found net h m key endpoint c found ended,
          reuse-found net h m key "TokenizedStock" base c w found b nb cb,
          reuse-found net h m key "QuoteAsset" quote c w found q nq cq,
          check_empty-existing net h key base w,
          check_empty-existing net h key quote w,
          set_all-with net key base quote c m found,
        )
        (ap (λ (x : Manifest). ok (x, w))
          (manifest_with-same key base quote c m found (b, q, bo, qo)))

  IsReady-later :
      (key : String) (m m' : Manifest) (w w' : World)
      → lookup key m'.chains ≡ lookup key m.chains
      → ((d b : String) → h.code_at d b w ≡ true → h.code_at d b w' ≡ true)
      → IsReady key m w
      → IsReady key m' w'
  IsReady-later key m m' w w' same stay
        (c, (found, (endpoint, (ended, (base, (quote, (has, nb, nq, cb, cq))))))) =
      (
        c,
        (
          same ∙ found,
          (endpoint, (ended, (base, (quote, (has, nb, nq, stay key base cb, stay key quote cq))))),
        ),
      )

  -- What deploying on a mirror has done: it is ready, and others stay so.
  abbrev IsDone : String → Manifest → World → Manifest × World → Type 0
  IsDone key m w r =
      IsReady key r.0 r.1
      × ((other : String) → key ≢ other → IsReady other m w → IsReady other r.0 r.1)

  manifest_with-IsDone :
      (key endpoint : String) (c : ChainDeployment) (m : Manifest) (w : World)
      (b q : String × World)
      → lookup key m.chains ≡ some c
      → endpoint_in (some c) ≡ some endpoint
      → IsPlaced net h key w b
      → IsPlaced net h key b.1 q
      → IsDone key m w (manifest_with key b.0 q.0 c m, q.1)
  manifest_with-IsDone key endpoint c m w b q found in_chain base quote = (
    (
      chain_with b.0 q.0 c,
      (
        manifest_with-found key b.0 q.0 c m,
        (
          endpoint,
          (
            in_chain,
            (
              b.0,
              (
                q.0,
                (chain_with-HasTokens b.0 q.0 c, base.0, quote.0, quote.2 key b.0 base.1, quote.1),
              ),
            ),
          ),
        ),
      ),
    ),
    λ other ne ready.
        IsReady-later other m (manifest_with key b.0 q.0 c m) w q.1
          (manifest_with-others key other b.0 q.0 c m ne)
          (λ d a code. quote.2 d a (base.2 d a code)) ready,
  )

  deploy_mirror-IsDone :
      (cfg : DeploymentConfig) (key : String) (m : Manifest) (w : World) (r : Manifest × World)
      → deploy_mirror net cfg key m w ≡ ok r
      → IsDone key m w r
  unfolding deploy_mirror
  deploy_mirror-IsDone cfg key m w r p = bind-ok (endpoint_of m key) p λ endpoint ended p.
      let (c, (found, in_chain)) = endpoint_of-chain net h m key endpoint ended in
      bind-ok (reuse net m key "TokenizedStock" w) p λ old_base reused_base p.
        bind-ok (or_deploy net key (token tokenized_stock cfg.token endpoint 0) old_base w) p
          λ b placed_base p.
            bind-ok (reuse net m key "QuoteAsset" b.1) p λ old_quote reused_quote p.
              bind-ok
                (or_deploy net key (token omni_token cfg.quote_asset endpoint 0) old_quote b.1) p
                λ q placed_quote p. bind-ok (check_empty net key b.0 old_base q.1) p λ _ _ p.
                  bind-ok (check_empty net key q.0 old_quote q.1) p λ _ _ p.
                    bind-ok (set_all net key b.0 q.0 m) p λ m' set p.
                      let base =
                        or_deploy-IsPlaced net h key _ old_base w b
                          (reuse-IsReused net h m key "TokenizedStock" old_base w reused_base)
                          placed_base in
                      let quote =
                        or_deploy-IsPlaced net h key _ old_quote b.1 q
                          (reuse-IsReused net h m key "QuoteAsset" old_quote b.1 reused_quote)
                          placed_quote in
                      ok-same (IsDone key m w) (manifest_with key b.0 q.0 c m, q.1) r
                        (manifest_with-IsDone key endpoint c m w b q found in_chain base quote)
                        (ap (λ (x : Manifest). ok (x, q.1))
                            (ok-injective (sym (set_all-with net key b.0 q.0 c m found) ∙ set))
                          ∙ p)

  -- One key is ready, and stays so while others are deployed.
  deploy_mirrors-keeps :
      (cfg : DeploymentConfig) (key : String) (keys : List String) (m : Manifest) (w : World)
      (r : Manifest × World)
      → All (λ j. key ≢ j) keys
      → IsReady key m w
      → deploy_mirrors net cfg keys m w ≡ ok r
      → IsReady key r.0 r.1
  unfolding deploy_mirrors
  deploy_mirrors-keeps cfg key [] m w r ne ready p =
      ok-same (λ (x : Manifest × World). IsReady key x.0 x.1) (m, w) r ready p
  deploy_mirrors-keeps cfg key (k ∷ ks) m w r ne ready p =
      bind-ok (deploy_mirror net cfg k m w) p λ s one p.
        deploy_mirrors-keeps cfg key ks s.0 s.1 r ne.1
          ((deploy_mirror-IsDone cfg k m w s one).1 key (λ e. ne.0 (sym e)) ready) p

  deploy_mirrors-IsReady :
      (cfg : DeploymentConfig) (keys : List String) (m : Manifest) (w : World)
      (r : Manifest × World)
      → AreDistinct keys
      → deploy_mirrors net cfg keys m w ≡ ok r
      → All (λ key. IsReady key r.0 r.1) keys
  unfolding deploy_mirrors
  deploy_mirrors-IsReady cfg [] m w r distinct p = tt
  deploy_mirrors-IsReady cfg (k ∷ ks) m w r distinct p =
      bind-ok (deploy_mirror net cfg k m w) p λ s one p. (
        deploy_mirrors-keeps cfg k ks s.0 s.1 r distinct.0 (deploy_mirror-IsDone cfg k m w s one).0
            p,
        deploy_mirrors-IsReady cfg ks s.0 s.1 r distinct.1 p,
      )

  deploy_mirrors-again :
      (cfg : DeploymentConfig) (keys : List String) (m : Manifest) (w : World)
      → All (λ key. IsReady key m w) keys
      → deploy_mirrors net cfg keys m w ≡ ok (m, w)
  unfolding deploy_mirrors
  deploy_mirrors-again cfg [] m w ready = refl
  deploy_mirrors-again cfg (k ∷ ks) m w ready =
      rw (deploy_mirror-again cfg k m w ready.0) (deploy_mirrors-again cfg ks m w ready.1)

  -- On chains that answer and keep the code of what is deployed, with no mirror listed twice: after a
  -- run that ended, a later run over the manifest it left ends, deploys nothing, and changes nothing
  -- of the manifest but its trail of steps.
  pub deploy_mirror_tokens-again :
      (cfg : DeploymentConfig) (now later : ℕ) (m m' : Manifest) (w w' : World)
      → AreDistinct cfg.mirror_keys
      → deploy_mirror_tokens net cfg now m w ≡ ok (m', w')
      → deploy_mirror_tokens net cfg later m' w'
        ≡ ok (record_step "02-mirrors" step_ok (mirrors (length cfg.mirror_keys)) later m', w')
  unfolding deploy_mirror_tokens record_step
  deploy_mirror_tokens-again cfg now later m m' w w' distinct p =
      bind-ok (deploy_mirrors net cfg cfg.mirror_keys m w) p λ r run p.
        ok-same
          (λ (x : Manifest × World).
            deploy_mirror_tokens net cfg later x.0 x.1
            ≡ ok (
              record_step "02-mirrors" step_ok (mirrors (length cfg.mirror_keys)) later x.0,
              x.1,
            ))
          (record_step "02-mirrors" step_ok (mirrors (length cfg.mirror_keys)) now r.0, r.1)
          (m', w')
          (rw
            (deploy_mirrors-again cfg cfg.mirror_keys
              (record_step "02-mirrors" step_ok (mirrors (length cfg.mirror_keys)) now r.0) r.1
              (deploy_mirrors-IsReady cfg cfg.mirror_keys m w r distinct run))
            refl)
          p
