-- ===== src/Sdk/Evm.antt =====
-- A partner's approval of an order on an EVM mirror, packages/sdk/src/evm.ts: `authorizeEvmOrder`, and
-- `orderIdFromLogs`. Typed-data signing, random bytes and the event's decoder are arguments.
pub mod Accepted
mod Tests
use boundless_stock.Prelude.{
  ℕ, ◌+◌, ◌/◌, Bool, true, false, Option, none, some, List, [], ◌∷◌, ◌==◌, if◌then◌else◌, Result,
  ok, err,
}
use boundless_stock.Quote.{Side, decimal}
use boundless_stock.Orders.Build.Data.{Authorization, PartnerOrder}
use boundless_stock.Sdk.{Text, digits}

-- The amounts are the numbers that their texts give.
pub record EvmOrderToAuthorize : Type 0 where
  pub user : ℕ
  pub side : Side
  pub amount_in : ℕ
  pub min_amount_out : ℕ
  pub partner_id : ℕ
  pub fee_bps : ℕ
  pub nonce : Option Text
  pub deadline : Option Text

abbrev pub or_given : Text → Option Text → Text
or_given t none = t
or_given t (some s) = s

-- The message that is signed; `nonce` and `deadline` are numbers in decimal.
abbrev pub message_of : EvmOrderToAuthorize → Text → Text → PartnerOrder
message_of o nonce deadline = record {
  user = o.user;
  side = o.side;
  amount_in = o.amount_in;
  min_amount_out = o.min_amount_out;
  partner_id = o.partner_id;
  fee_bps = o.fee_bps;
  nonce = decimal 0 nonce;
  deadline = decimal 0 deadline;
}

-- `now` is in milliseconds, `random` the number of sixteen random bytes.
pub authorize_evm_order : (PartnerOrder → Text) → ℕ → ℕ → EvmOrderToAuthorize → Authorization
authorize_evm_order sign now random o =
    let nonce = or_given (digits random) o.nonce in
    let deadline = or_given (digits (now / 1000 + 600)) o.deadline in
    record { nonce = nonce; deadline = deadline; signature = sign (message_of o nonce deadline) }

-- A log's address and what the decoder gives of it, nothing for another event.
pub record Log : Type 0 where
  pub address : ℕ
  pub request_id : Option ℕ

pub data LogError : Type 0 where
  no_event : LogError

abbrev pub found_or : Result LogError ℕ → Option ℕ → Result LogError ℕ
found_or rest none = rest
found_or rest (some id) = ok id

pub order_id_from_logs : List Log → ℕ → Result LogError ℕ
order_id_from_logs [] request = err no_event
order_id_from_logs (l ∷ ls) request =
    let rest = order_id_from_logs ls request in
    if l.address == request then found_or rest l.request_id else rest
