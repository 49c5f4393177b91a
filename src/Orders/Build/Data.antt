-- ===== src/Orders/Build/Data.antt =====
-- The requests and answers of `buildOrder` of infra/api/orders.ts, and what a mirror answers.
use boundless_stock.Prelude.{ℕ, Bool, Option, List, Result, ok, err}
use boundless_stock.Prelude.Int.{ℤ}
use boundless_stock.Quote.{QuoteError, Side, Given, ChainEntry}

pub data OrderError : Type 0 where
  refused : QuoteError → OrderError
  invalid_user authorization_required invalid_authorization authorization_expired nonce_used
        thrown :
      OrderError

abbrev pub lift {ℓ} : {A : Type ℓ} → Result QuoteError A → Result OrderError A
lift (ok a) = ok a
lift (err e) = err (refused e)

abbrev pub Text : Type 0
Text = List ℕ

pub record Authorization : Type 0 where
  pub nonce : Text
  pub deadline : Text
  pub signature : Text

-- `user` is the address that the text gives; `messaging_fee` the number that its text gives.
pub record BuildOrderRequest : Type 0 where
  pub side : Option Side
  pub solana : Bool
  pub entry : Option ChainEntry
  pub user : Option ℕ
  pub amount_in : Option Text
  pub min_amount_out : Option Text
  pub partner_id : Option ℕ
  pub partner_fee_bps : Given
  pub authorization : Option Authorization
  pub messaging_fee : Option (Option ℤ)

pub record PartnerAuth : Type 0 where
  pub partner_id : ℕ
  pub fee_bps : ℕ
  pub nonce : ℕ
  pub deadline : ℕ
  pub signature : Text

-- The calldata of the three kinds of calls, before viem encodes it.
pub data CallData : Type 0 where
  approve : ℕ → ℕ → CallData
  order : Side → ℕ → ℕ → CallData
  order_via : Side → ℕ → ℕ → PartnerAuth → CallData

pub record Transaction : Type 0 where
  pub to : ℕ
  pub call : CallData
  pub value : ℤ

-- What a partner signs: user, side, amounts, partner, fee, nonce and deadline.
pub record PartnerOrder : Type 0 where
  pub user : ℕ
  pub side : Side
  pub amount_in : ℕ
  pub min_amount_out : ℕ
  pub partner_id : ℕ
  pub fee_bps : ℕ
  pub nonce : ℕ
  pub deadline : ℕ

-- A mirror's contracts and answers; `recover` is `recoverAddress`, `none` where it throws.
pub record EvmMirror : Type 0 where
  pub request : ℕ
  pub quote_asset : ℕ
  pub stock : ℕ
  pub nonce_used : ℕ → ℕ → Result OrderError Bool
  pub signer_of : ℕ → Result OrderError ℕ
  pub has_code : ℕ → Result OrderError Bool
  pub hash_order : PartnerOrder → Result OrderError ℕ
  pub quote_trade : Side → ℕ → ℕ → Result OrderError ℤ
  pub allowance : ℕ → ℕ → ℕ → Result OrderError ℕ
  pub recover : ℕ → Text → Option ℕ
