-- ===== src/Quote.antt =====
-- Quotes for orders, infra/api/quote.ts with the request parsing of infra/api/context.ts. What the
-- chains answer (terms of the mirror, the home swap, the messaging fee) is an argument. The prices
-- in the answer are floating point and left out.
pub mod Amounts
pub mod Split
pub mod Priced
mod Tests
use boundless_stock.Prelude.{
  ℕ, zero, suc, ◌+◌, ◌-◌, ◌*◌, ◌/◌, ◌%◌, ◌^◌, Bool, true, false, not, ◌&&◌, ◌||◌, Option, none,
  some, List, [], ◌∷◌, leb, ltb, ◌==◌, if◌then◌else◌, Result, ok, err, ◌>>=◌, ◌>>◌, throw_if,
}
use boundless_stock.Prelude.Int.{ℤ, pos, negsuc, sub_ℕ}

pub data QuoteError : Type 0 where
  invalid_side unknown_chain invalid_amount invalid_bps unknown_partner partner_required :
      QuoteError
  fee_too_high amount_too_small no_market range_error market_unread messaging_failed : QuoteError

pub data Vm : Type 0 where
  evm svm : Vm

pub data Side : Type 0 where
  buy sell : Side

-- A number of a request: absent, an integer, or any other value.
pub data Given : Type 0 where
  absent : Given
  integer : ℤ → Given
  other : Given

-- A chain of the manifest: whether its role is "mirror", and whether it has a SwapRequest.
pub record ChainEntry : Type 0 where
  pub mirror : Bool
  pub has_request : Bool

-- `solana` is `ctx.solana.has(chain)`.
abbrev pub is_mirror : Bool → Option ChainEntry → Result QuoteError Vm
is_mirror true c = ok svm
is_mirror false none = err unknown_chain
is_mirror false (some c) = if c.mirror && c.has_request then ok evm else err unknown_chain

abbrev pub all_digits : List ℕ → Bool
all_digits [] = true
all_digits (c ∷ s) = (leb b'0' c && leb c b'9') && all_digits s

abbrev pub decimal : ℕ → List ℕ → ℕ
decimal n [] = n
decimal n (c ∷ s) = decimal (n * 10 + (c - b'0')) s

abbrev pub positive : ℕ → Result QuoteError ℕ
positive n = throw_if (n == 0) invalid_amount >> ok n

-- `none` is a value that is not a string.
pub parse_amount : Option (List ℕ) → Result QuoteError ℕ
parse_amount none = err invalid_amount
parse_amount (some []) = err invalid_amount
parse_amount (some (c ∷ s)) =
    throw_if (not (all_digits (c ∷ s))) invalid_amount >> positive (decimal 0 (c ∷ s))

abbrev pub parse_bps : Given → ℕ → ℕ → Result QuoteError ℕ
parse_bps absent most fallback = ok fallback
parse_bps (integer (pos n)) most fallback = throw_if (ltb most n) invalid_bps >> ok n
parse_bps (integer (negsuc n)) most fallback = err invalid_bps
parse_bps other most fallback = err invalid_bps

-- A partner on the mirror: its fee ceiling and whether it is active.
pub record Partner : Type 0 where
  pub max_fee_bps : ℕ
  pub active : Bool

-- What the mirror's program answers; `partner` is its register.
pub record MirrorReads : Type 0 where
  pub partner_required : Bool
  pub platform_fee_bps : ℕ
  pub partner : ℕ → Option Partner

abbrev pub active_max : Option Partner → Result QuoteError ℕ
active_max none = err unknown_partner
active_max (some p) = throw_if (not p.active) unknown_partner >> ok p.max_fee_bps

-- The fee ceiling in `mirrorTerms`, where a partner was named.
abbrev pub mirror_terms : MirrorReads → Option ℕ → Result QuoteError (Option ℕ)
mirror_terms m none = ok none
mirror_terms m (some id) = active_max (m.partner id) >>= λ most. ok (some most)

-- Decimals of input and output, on the mirror and at home.
pub record Decimals : Type 0 where
  pub in_mirror : ℕ
  pub out_mirror : ℕ
  pub in_home : ℕ
  pub out_home : ℕ

-- The decimals of the stock and of its quote asset on one chain.
pub record AssetDecimals : Type 0 where
  pub base : ℕ
  pub quoted : ℕ

-- A purchase pays the quote asset in and takes the stock out.
abbrev pub decimals_for : Side → AssetDecimals → AssetDecimals → Decimals
decimals_for buy m h = record {
  in_mirror = m.quoted;
  out_mirror = m.base;
  in_home = h.quoted;
  out_home = h.base;
}
decimals_for sell m h = record {
  in_mirror = m.base;
  out_mirror = m.quoted;
  in_home = h.base;
  out_home = h.quoted;
}

abbrev pub shared_decimals : ℕ
shared_decimals = 6

-- `pow10(dec - SHARED_DECIMALS)`; a power below zero is a RangeError.
abbrev pub unit : ℕ → Result QuoteError ℕ
unit dec = throw_if (ltb dec shared_decimals) range_error >> ok (10 ^ (dec - shared_decimals))

pub record QuoteRequest : Type 0 where
  pub side : Option Side
  pub solana : Bool
  pub entry : Option ChainEntry
  pub amount_in : Option (List ℕ)
  pub slippage_bps : Given
  pub partner_id : Option ℕ
  pub partner_fee_bps : Given

pub record Quote : Type 0 where
  pub side : Side
  pub amount_in : ℕ
  pub partner_fee : ℕ
  pub platform_fee : ℕ
  pub traded : ℤ
  pub dust : ℤ
  pub expected_out : ℕ
  pub min_out : ℕ
  pub slippage : ℕ
  pub messaging_fee : ℕ

-- n / q * h, each way from zero.
abbrev pub rescale : ℕ → ℕ → ℤ → ℤ
rescale q h (pos n) = pos (n / q * h)
rescale q h (negsuc n) = sub_ℕ 0 (suc n / q * h)

-- n % q, with the sign of n.
abbrev pub remainder : ℕ → ℤ → ℤ
remainder q (pos n) = pos (n % q)
remainder q (negsuc n) = sub_ℕ 0 (suc n % q)

-- n - n % q
abbrev pub floor_to : ℕ → ℤ → ℤ
floor_to q (pos n) = pos (n - n % q)
floor_to q (negsuc n) = sub_ℕ 0 (suc n - suc n % q)

abbrev pub is_zero : ℤ → Bool
is_zero (pos n) = n == 0
is_zero (negsuc n) = false

abbrev pub fee_of : ℕ → ℕ → ℕ
fee_of amount bps = amount * bps / 10_000

-- `minAmountOut`: what slippage leaves of `expected`, at the bridge's precision.
abbrev pub min_amount_out : ℕ → ℕ → ℕ → ℕ
min_amount_out expected slippage q =
    let floor = expected * (10_000 - slippage) / 10_000 in floor - floor % q

abbrev pub or_throw : {A : Type 0} → QuoteError → Option A → Result QuoteError A
or_throw e none = err e
or_throw e (some a) = ok a

abbrev pub platform_bps : Vm → Option ℕ → ℕ → ℕ
platform_bps evm id bps = bps
platform_bps svm none bps = 0
platform_bps svm (some id) bps = bps

abbrev pub partner_bps : Option ℕ → Given → Result QuoteError ℕ
partner_bps none g = ok 0
partner_bps (some id) g = parse_bps g 300 0

abbrev pub is_none : Option ℕ → Bool
is_none none = true
is_none (some n) = false

abbrev pub exceeds : ℕ → Option ℕ → Bool
exceeds bps none = false
exceeds bps (some most) = ltb most bps

-- `none` from a call is its exception; `market` is whether the home market could be read.
module _ (home_swap : Side → ℤ → Option ℕ) (market : Bool)
    (messaging : Side → ℤ → ℕ → Option ℕ) where
  -- Steps 1 to 4, with the fees in basis points.
  pub price : Side → Decimals → ℕ → ℕ → ℕ → ℕ → Result QuoteError Quote
  price side dec amount partner_bps platform_bps slippage =
      let partner_fee = fee_of amount partner_bps in
      let platform_fee = fee_of amount platform_bps in
      let net = sub_ℕ amount (partner_fee + platform_fee) in
      unit dec.in_mirror >>= λ q_in.
      let traded = floor_to q_in net in
      throw_if (is_zero traded) amount_too_small >>= λ _. unit dec.in_home >>= λ h_in.
      or_throw no_market (home_swap side (rescale q_in h_in traded)) >>= λ home_out.
      unit dec.out_home >>= λ h_out. unit dec.out_mirror >>= λ q_out.
      let expected = home_out / h_out * q_out in
      let least = min_amount_out expected slippage q_out in
      throw_if (not market) market_unread >>= λ _.
      or_throw messaging_failed (messaging side traded least) >>= λ fee. ok (record {
        side = side;
        amount_in = amount;
        partner_fee = partner_fee;
        platform_fee = platform_fee;
        traded = traded;
        dust = remainder q_in net;
        expected_out = expected;
        min_out = least;
        slippage = slippage;
        messaging_fee = fee;
      })

  pub quote : QuoteRequest → MirrorReads → AssetDecimals → AssetDecimals → Result QuoteError Quote
  quote req mirror at_mirror at_home = or_throw invalid_side req.side >>= λ side.
      is_mirror req.solana req.entry >>= λ vm. parse_amount req.amount_in >>= λ amount.
      parse_bps req.slippage_bps 5_000 50 >>= λ slippage.
      partner_bps req.partner_id req.partner_fee_bps >>= λ bps.
      mirror_terms mirror req.partner_id >>= λ most.
      throw_if (mirror.partner_required && is_none req.partner_id) partner_required >>= λ _.
      throw_if (exceeds bps most) fee_too_high >>= λ _.
      price side (decimals_for side at_mirror at_home) amount bps
        (platform_bps vm req.partner_id mirror.platform_fee_bps) slippage
