-- ===== src/Quote/Split.antt =====
-- What a quote's amounts add up to: `quote` of infra/api/quote.ts.
use boundless_stock.Prelude.{
  bind-ok, ok-same, throw_if-ok, ℕ, ◌+◌, ◌*◌, ◌/◌, ◌≤◌, ◌≡◌, refl, sym, subst, ◌∙◌, arith, Bool,
  true, false, Option, none, some, ok, throw_if, not, ◌&&◌,
}
use boundless_stock.Prelude.Int.{ℤ, sub_ℕ}
use boundless_stock.Quote.{
  Side, Quote, QuoteRequest, MirrorReads, Decimals, AssetDecimals, Partner, active_max,
  decimals_for, price, quote, unit, fee_of, floor_to, min_amount_out, parse_bps, partner_bps,
  exceeds, is_zero, rescale, or_throw, amount_too_small, no_market, market_unread, messaging_failed,
  is_mirror, parse_amount, mirror_terms, is_none, platform_bps, invalid_side, partner_required,
  fee_too_high, Given,
}
use boundless_stock.Quote.Amounts.{IsSplit, net-split, IsLeast, fee_of-le, least-unit, parse_bps-ok}

-- What a priced order says of its request.
abbrev IsPriced : Side → Decimals → ℕ → ℕ → ℕ → Quote → Type 0
IsPriced side dec amount bps slippage q =
    IsSplit q
    × IsLeast dec.out_mirror q
    × (q.amount_in ≡ amount)
    × (q.partner_fee ≡ fee_of amount bps)
    × (q.slippage ≡ slippage)
    × (q.side ≡ side)

partner_bps-ok : (id : Option ℕ) (g : Given) (n : ℕ) → partner_bps id g ≡ ok n → n ≤ 300
partner_bps-ok none g n p = ground arith
partner_bps-ok (some id) g n p = parse_bps-ok g 300 0 n (omega arith) p

-- What every quote of `quote` keeps to.
abbrev pub IsSound : AssetDecimals → AssetDecimals → Quote → Type 0
IsSound at_mirror at_home q =
    IsSplit q
    × IsLeast ((decimals_for q.side at_mirror at_home).out_mirror) q
    × (q.partner_fee * 10_000 ≤ q.amount_in * 300)
    × (q.slippage ≤ 5_000)

priced-IsSound :
    (at_mirror at_home : AssetDecimals) (side : Side) (amount bps slippage : ℕ) (q : Quote)
    → bps ≤ 300
    → slippage ≤ 5_000
    → IsPriced side (decimals_for side at_mirror at_home) amount bps slippage q
    → IsSound at_mirror at_home q
priced-IsSound at_mirror at_home side amount bps slippage q b s
      (split, least, amount_eq, fee_eq, slip_eq, side_eq) =
    (
      split,
      subst (λ x. IsLeast ((decimals_for x at_mirror at_home).out_mirror) q) (sym side_eq) least,
      rw (fee_eq, amount_eq) (fee_of-le amount bps 300 b),
      rw slip_eq s,
    )

-- Who may order, and what the fee may be: without a partner only where none is required and at no
-- partner's fee, with a partner only an active one and up to its ceiling.
abbrev pub IsPartnerOf : Quote → Option Partner → Type 0
IsPartnerOf q none = ⊥
IsPartnerOf q (some p) = (p.active ≡ true) × (q.partner_fee * 10_000 ≤ q.amount_in * p.max_fee_bps)

abbrev pub IsAllowed : Option ℕ → MirrorReads → Quote → Type 0
IsAllowed none mirror q = (mirror.partner_required ≡ false) × (q.partner_fee ≡ 0)
IsAllowed (some id) mirror q = IsPartnerOf q (mirror.partner id)

active_max-ok :
    (o : Partner) (most : ℕ)
    → active_max (some o) ≡ ok most
    → (o.active ≡ true) × (most ≡ o.max_fee_bps)
active_max-ok o most a = ground arith

active-IsPartnerOf :
    (o : Option Partner) (most amount bps : ℕ) (q : Quote)
    → active_max o ≡ ok most
    → bps ≤ most
    → q.amount_in ≡ amount
    → q.partner_fee ≡ fee_of amount bps
    → IsPartnerOf q o
active-IsPartnerOf none most amount bps q a h p f = ground arith
active-IsPartnerOf (some o) most amount bps q a h p f =
    let (active, most_eq) = active_max-ok o most a in
    (active, rw (f, p) (fee_of-le amount bps o.max_fee_bps (rw (sym most_eq) h)))

drop_and : (b : Bool) → (b && true) ≡ false → b ≡ false
drop_and true h = h
drop_and false h = refl

zero_fee : (amount : ℕ) → fee_of amount 0 ≡ 0
zero_fee amount = omega arith

within : (bps top : ℕ) → exceeds bps (some top) ≡ false → bps ≤ top
within bps top h = ground arith

guards-IsAllowed :
    (id : Option ℕ) (g : Given) (mirror : MirrorReads) (bps amount : ℕ) (most : Option ℕ)
    (q : Quote)
    → partner_bps id g ≡ ok bps
    → mirror_terms mirror id ≡ ok most
    → (mirror.partner_required && is_none id) ≡ false
    → exceeds bps most ≡ false
    → q.amount_in ≡ amount
    → q.partner_fee ≡ fee_of amount bps
    → IsAllowed id mirror q
guards-IsAllowed none g mirror bps amount most q b t required above p f = (
  drop_and mirror.partner_required required,
  f ∙ ok-same (λ n. fee_of amount n ≡ 0) 0 bps (zero_fee amount) b,
)
guards-IsAllowed (some id) g mirror bps amount most q b t required above p f =
    bind-ok (active_max (mirror.partner id)) t (λ top top_ok same.
      active-IsPartnerOf (mirror.partner id) top amount bps q top_ok
        (ok-same (λ o. exceeds bps o ≡ false → bps ≤ top) (some top) most (within bps top) same
          above)
        p f)

module _ (home_swap : Side → ℤ → Option ℕ) (market : Bool)
    (messaging : Side → ℤ → ℕ → Option ℕ) where
  price-IsPriced :
      (side : Side) (dec : Decimals) (amount bps platform slippage : ℕ) (q : Quote)
      → price home_swap market messaging side dec amount bps platform slippage ≡ ok q
      → IsPriced side dec amount bps slippage q
  unfolding price
  price-IsPriced side dec amount bps platform slippage q p =
      let traded : ℕ → ℤ =
        λ q_in. floor_to q_in (sub_ℕ amount (fee_of amount bps + fee_of amount platform)) in
      let expected : ℕ → ℕ → ℕ → ℕ = λ out h_out q_out. out / h_out * q_out in
      bind-ok (unit dec.in_mirror) p (λ q_in in_ok p.
        bind-ok (throw_if (is_zero (traded q_in)) amount_too_small) p (λ _ _ p.
          bind-ok (unit dec.in_home) p (λ h_in _ p.
            bind-ok (or_throw no_market (home_swap side (rescale q_in h_in (traded q_in)))) p
              (λ out _ p. bind-ok (unit dec.out_home) p (λ h_out _ p.
                bind-ok (unit dec.out_mirror) p (λ q_out out_ok p.
                  bind-ok (throw_if (not market) market_unread) p (λ _ _ p.
                    bind-ok
                      (or_throw messaging_failed (
                        messaging side (traded q_in)
                          (min_amount_out (expected out h_out q_out) slippage q_out)))
                      p
                      (λ fee _ p.
                        ok-same (IsPriced side dec amount bps slippage) _ q
                          (
                            net-split q_in amount (fee_of amount bps + fee_of amount platform),
                            least-unit dec.out_mirror (expected out h_out q_out) slippage q_out
                                out_ok,
                            refl,
                            refl,
                            refl,
                            refl,
                          )
                          p))))))))

  quote-keeps :
      (req : QuoteRequest) (mirror : MirrorReads) (at_mirror at_home : AssetDecimals) (q : Quote)
      → quote home_swap market messaging req mirror at_mirror at_home ≡ ok q
      → IsSound at_mirror at_home q × IsAllowed req.partner_id mirror q
  unfolding quote
  quote-keeps req mirror at_mirror at_home q p =
      bind-ok (or_throw invalid_side req.side) p (λ side _ p.
        bind-ok (is_mirror req.solana req.entry) p (λ vm _ p.
          bind-ok (parse_amount req.amount_in) p (λ amount _ p.
            bind-ok (parse_bps req.slippage_bps 5_000 50) p (λ slippage slip_ok p.
              bind-ok (partner_bps req.partner_id req.partner_fee_bps) p (λ bps bps_ok p.
                bind-ok (mirror_terms mirror req.partner_id) p (λ most most_ok p.
                  bind-ok
                    (throw_if (mirror.partner_required && is_none req.partner_id) partner_required)
                    p
                    (λ u1 required p.
                      bind-ok (throw_if (exceeds bps most) fee_too_high) p (λ u2 above p.
                        let priced =
                          price-IsPriced side (decimals_for side at_mirror at_home) amount bps
                            (platform_bps vm req.partner_id mirror.platform_fee_bps) slippage q p in
                        (
                          priced-IsSound at_mirror at_home side amount bps slippage q
                              (partner_bps-ok req.partner_id req.partner_fee_bps bps bps_ok)
                              (parse_bps-ok req.slippage_bps 5_000 50 slippage (omega arith)
                                slip_ok)
                              priced,
                          guards-IsAllowed req.partner_id req.partner_fee_bps mirror bps amount most
                              q bps_ok most_ok (throw_if-ok _ _ u1 required)
                              (throw_if-ok _ _ u2 above) (priced.2) (priced.3),
                        )))))))))

  -- The fees, the traded amount and the dust of a quote add up to the amount in, as integers; its
  -- least amount out is at most the expected one and what slippage leaves of it, and less than one
  -- unit of the bridge's precision under that; the partner's fee is at most 3 % and slippage at most 50 %.
  pub quote-IsSound :
      (req : QuoteRequest) (mirror : MirrorReads) (at_mirror at_home : AssetDecimals) (q : Quote)
      → quote home_swap market messaging req mirror at_mirror at_home ≡ ok q
      → IsSound at_mirror at_home q
  quote-IsSound req mirror at_mirror at_home q p = (quote-keeps req mirror at_mirror at_home q p).0

  -- A quote without a partner is for a mirror that requires none and has no partner's fee; one with
  -- a partner names an active partner of the mirror and its fee is within that partner's ceiling.
  pub quote-IsAllowed :
      (req : QuoteRequest) (mirror : MirrorReads) (at_mirror at_home : AssetDecimals) (q : Quote)
      → quote home_swap market messaging req mirror at_mirror at_home ≡ ok q
      → IsAllowed req.partner_id mirror q
  quote-IsAllowed req mirror at_mirror at_home q p =
      (quote-keeps req mirror at_mirror at_home q p).1
