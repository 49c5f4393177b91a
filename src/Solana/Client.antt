-- ===== src/Solana/Client.antt =====
-- The class `SolanaSwapClient` of infra/solana/client.ts as its methods read it: the deployment's record,
-- the arguments of LayerZero's OFT SDK, and what the node and that SDK answer.
use boundless_stock.Prelude.{ℕ, Option, List, Result}
use boundless_stock.Prelude.Bytes.{Bytes}
use boundless_stock.Quote.{Side, buy, sell}
use boundless_stock.Solana.{SolanaError, AccountMeta}

-- `None` of an `enum` apart: Buy is 0, Sell is 1.
abbrev pub direction_of : Side → ℕ
direction_of buy = 0
direction_of sell = 1

-- What the deployment's file records of an asset; a peer's address is a text.
pub record Asset (Key : Type 0) : Type 0 where
  pub mint : Key
  pub oft_store : Key
  pub escrow : Key
  pub token_program : Option Key
  pub peers : List (ℕ × List ℕ)

pub record Client (Key : Type 0) : Type 0 where
  pub store : Key
  pub program : Key
  pub base : Asset Key
  pub quote : Asset Key
  pub home_eid : ℕ
  pub home_relay : List ℕ
  pub endpoint_program : Key
  pub oft_program : Key

-- The arguments of the SDK's `oft.quote` and `oft.send`.
pub record SendParams (Key : Type 0) : Type 0 where
  pub payer : Key
  pub token_mint : Key
  pub token_escrow : Key
  pub token_source : Option Key
  pub dst_eid : ℕ
  pub to : Bytes
  pub amount_ld : ℕ
  pub min_amount_ld : ℕ
  pub options : Bytes
  pub compose_msg : Option Bytes
  pub native_fee : Option ℕ
  pub oft : Key
  pub token : Option Key

pub record Net (Key : Type 0) : Type 0 where
  pub account_info : Key → Result SolanaError (Option Bytes)
  pub quote_send : SendParams Key → Result SolanaError ℕ
  pub send_accounts : SendParams Key → Result SolanaError (List (AccountMeta Key))
