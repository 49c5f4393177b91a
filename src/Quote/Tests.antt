-- ===== src/Quote/Tests.antt =====
-- A purchase through a partner on an EVM mirror whose home market pays at par.
use boundless_stock.Prelude.{ℕ, ◌≡◌, refl, arith, true, false, Option, some, [], ◌∷◌, ok, err}
use boundless_stock.Prelude.Int.{ℤ, pos, pos_part}
use boundless_stock.Quote.{
  Side, buy, QuoteRequest, Quote, QuoteError, amount_too_small, MirrorReads, Partner, AssetDecimals,
  ChainEntry, Decimals, price, quote, absent, integer, Given,
}
use boundless_stock.Quote.Priced.{IsPriceOf, price-answers}
use boundless_stock.Quote.Split.{IsSound, IsAllowed, quote-IsSound, quote-IsAllowed}

abbrev mirror : MirrorReads
mirror = record {
  partner_required = true;
  platform_fee_bps = 10;
  partner = λ id. some (record { max_fee_bps = 50; active = true });
}

abbrev at_par : Side → ℤ → Option ℕ
at_par side n = some (pos_part n)

abbrev one_wei : Side → ℤ → ℕ → Option ℕ
one_wei side n least = some 1

-- 5_000_007 units at seven decimals, half a percent to partner 1.
abbrev request : QuoteRequest
request = record {
  side = some buy;
  solana = false;
  entry = some (record { mirror = true; has_request = true });
  amount_in = some (b'5' ∷ b'0' ∷ b'0' ∷ b'0' ∷ b'0' ∷ b'0' ∷ b'7' ∷ []);
  slippage_bps = absent;
  partner_id = some 1;
  partner_fee_bps = integer (pos 50);
}

abbrev seven : AssetDecimals
seven = record { base = 7; quoted = 7 }

abbrev answer : Quote
answer = record {
  side = buy;
  amount_in = 5_000_007;
  partner_fee = 25_000;
  platform_fee = 5_000;
  traded = pos 4_970_000;
  dust = pos 7;
  expected_out = 4_970_000;
  min_out = 4_945_150;
  slippage = 50;
  messaging_fee = 1;
}

answered : quote at_par true one_wei request mirror seven seven ≡ ok answer
unfolding quote price boundless_stock.Quote.parse_amount
answered = refl

abbrev sevens : Decimals
sevens = record { in_mirror = 7; out_mirror = 7; in_home = 7; out_home = 7 }

price-answers_example :
    (q : Quote) × (price at_par true one_wei buy sevens 5_000_007 50 10 50 ≡ ok q)
    × IsPriceOf at_par one_wei buy sevens 5_000_007 50 10 50 q
price-answers_example =
    price-answers at_par true one_wei buy sevens 5_000_007 50 10 50
      (omega arith, omega arith, omega arith, omega arith, omega arith) refl
      (λ n. (pos_part n, refl)) (λ n least. (1, refl))

dust_only :
    quote at_par true one_wei (record request { amount_in = some (b'9' ∷ []) }) mirror seven seven
    ≡ err amount_too_small
unfolding quote price boundless_stock.Quote.parse_amount
dust_only = refl

quote-IsSound_example : IsSound seven seven answer
quote-IsSound_example = quote-IsSound at_par true one_wei request mirror seven seven answer answered

quote-IsAllowed_example : IsAllowed (some 1) mirror answer
quote-IsAllowed_example =
    quote-IsAllowed at_par true one_wei request mirror seven seven answer answered
