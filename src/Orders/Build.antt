-- ===== src/Orders/Build.antt =====
-- `buildOrder` of infra/api/orders.ts. Addresses and hashes are numbers. What the mirror answers, and
-- viem's `isAddress`, `recoverAddress` and `BigInt` of a text, are arguments; a read may throw.
pub mod Data
pub mod Signed
mod Tests
use boundless_stock.Prelude.{
  ℕ, ◌+◌, ◌∷◌, ◌++◌, Bool, true, false, not, ◌&&◌, ◌||◌, Option, none, some, List, [], leb, ltb,
  ◌==◌, if◌then◌else◌, Result, ok, err, ◌>>=◌, ◌>>◌, throw_if, or_else,
}
use boundless_stock.Prelude.Int.{ℤ, pos}
use boundless_stock.Quote.{
  QuoteError, invalid_side, partner_required, fee_too_high, Vm, evm, svm, Side, buy, sell, Given,
  ChainEntry, is_mirror, all_digits, decimal, parse_amount, partner_bps, MirrorReads, mirror_terms,
  is_none, exceeds,
}
use boundless_stock.Orders.Build.Data.{
  Authorization, BuildOrderRequest, CallData, EvmMirror, OrderError, PartnerAuth, PartnerOrder,
  Text, Transaction, approve, authorization_expired, authorization_required, invalid_authorization,
  invalid_user, lift, nonce_used, order, order_via, refused, thrown,
}

-- `/^[0-9]+$/`
abbrev pub is_number : Text → Bool
is_number [] = false
is_number (c ∷ s) = all_digits (c ∷ s)

abbrev pub is_hex_digit : ℕ → Bool
is_hex_digit c = leb b'0' c && leb c b'9' || (leb b'a' c && leb c b'f' || leb b'A' c && leb c b'F')

abbrev pub all_hex : Text → Bool
all_hex [] = true
all_hex (c ∷ s) = is_hex_digit c && all_hex s

-- `/^0x[0-9a-fA-F]+$/`
abbrev pub is_hex : Text → Bool
is_hex (z ∷ x ∷ c ∷ s) = z == b'0' && x == b'x' && all_hex (c ∷ s)
is_hex _ = false

abbrev pub recovers : Option ℕ → ℕ → Bool
recovers none signer = false
recovers (some a) signer = a == signer

module _ (m : EvmMirror) (now : ℕ) where
  -- A signer with code, an ERC-1271 contract, is left to the contract.
  abbrev pub check_signature : Bool → PartnerOrder → Text → ℕ → Result OrderError (Unit {0})
  check_signature true o signature signer = ok tt
  check_signature false o signature signer = m.hash_order o >>= λ digest.
      throw_if (not (recovers (m.recover digest signature) signer)) invalid_authorization

  -- The checks of a partner's authorization, with its numbers.
  pub check_authorization : PartnerOrder → Text → Result OrderError (Unit {0})
  check_authorization o signature = throw_if (leb o.deadline now) authorization_expired >>= λ _.
      m.nonce_used o.partner_id o.nonce >>= λ used. throw_if used nonce_used >>= λ _.
      m.signer_of o.partner_id >>= λ signer.
      m.has_code signer >>= λ code. check_signature code o signature signer

  abbrev pub is_malformed : Authorization → Bool
  is_malformed a = not (is_number a.nonce) || not (is_number a.deadline) || not (is_hex a.signature)

  abbrev pub order_of : ℕ → Side → ℕ → ℕ → ℕ → ℕ → Authorization → PartnerOrder
  order_of user side amount least partner fee a = record {
    user = user;
    side = side;
    amount_in = amount;
    min_amount_out = least;
    partner_id = partner;
    fee_bps = fee;
    nonce = decimal 0 a.nonce;
    deadline = decimal 0 a.deadline;
  }

  abbrev pub auth_of : PartnerOrder → Text → PartnerAuth
  auth_of o signature = record {
    partner_id = o.partner_id;
    fee_bps = o.fee_bps;
    nonce = o.nonce;
    deadline = o.deadline;
    signature = signature;
  }

  abbrev pub via : ℕ → Side → ℕ → ℕ → ℕ → ℕ → Option Authorization → Result OrderError CallData
  via user side amount least partner fee none = err authorization_required
  via user side amount least partner fee (some a) =
      throw_if (is_malformed a) invalid_authorization >>= λ _.
      check_authorization (order_of user side amount least partner fee a) a.signature >>= λ _. ok (
        order_via side amount least
          (auth_of (order_of user side amount least partner fee a) a.signature))

  abbrev pub order_call :
      ℕ → Side → ℕ → ℕ → Option ℕ → ℕ → Option Authorization → Result OrderError CallData
  order_call user side amount least none fee a = ok (order side amount least)
  order_call user side amount least (some partner) fee a = via user side amount least partner fee a

  abbrev pub fee_value : Option (Option ℤ) → Side → ℕ → ℕ → Result OrderError ℤ
  fee_value none side amount least = m.quote_trade side amount least
  fee_value (some fee) side amount least = or_else thrown fee

  abbrev pub token_in : Side → ℕ
  token_in buy = m.quote_asset
  token_in sell = m.stock

  -- The approval, where the allowance is short, and the order.
  abbrev pub transactions : ℕ → Side → ℕ → CallData → ℤ → List Transaction
  transactions allowance side amount data' value =
      (if ltb allowance amount
        then record { to = token_in side; call = approve m.request amount; value = pos 0 } ∷ []
        else [])
      ++ (record { to = m.request; call = data'; value = value } ∷ [])

  pub build_evm :
      Option ℕ
      → Side
      → ℕ
      → ℕ
      → Option ℕ
      → ℕ
      → Option Authorization
      → Option (Option ℤ)
      → Result OrderError (List Transaction)
  build_evm user side amount least partner fee a messaging = or_else invalid_user user >>= λ user.
      order_call user side amount least partner fee a >>= λ call.
      fee_value messaging side amount least >>= λ value.
      m.allowance (token_in side) user m.request >>= λ allowance.
      ok (transactions allowance side amount call value)

-- The Solana client: a partner's signer, and the unsigned transactions it builds.
pub record SolanaMirror (Built : Type 0) : Type 0 where
  pub get_partner : ℕ → Result OrderError (Option ℕ)
  pub build_partner_order : ℕ → ℕ → ℕ → ℕ → Side → ℕ → ℕ → Result OrderError Built
  pub build_open_order : ℕ → Side → ℕ → ℕ → Result OrderError Built

pub data BuiltOrder (Built : Type 0) : Type 0 where
  evm_order : List Transaction → BuiltOrder Built
  solana_order : Built → ℕ → Option ℕ → BuiltOrder Built

module _ {Built : Type 0} (sol : SolanaMirror Built) where
  -- With the user and, for a partner's order, the partner as signers.
  abbrev pub solana_call : ℕ → Side → ℕ → ℕ → Option ℕ → ℕ → Result OrderError (BuiltOrder Built)
  solana_call user side amount least none fee =
      sol.build_open_order user side amount least >>= λ b. ok (solana_order b user none)
  solana_call user side amount least (some partner) fee =
      sol.get_partner partner >>= or_else thrown >>= λ signer.
      sol.build_partner_order user signer partner fee side amount least >>= λ b.
      ok (solana_order b user (some signer))

  pub build_solana : Option ℕ → Side → ℕ → ℕ → Option ℕ → ℕ → Result OrderError (BuiltOrder Built)
  build_solana user side amount least partner fee =
      or_else invalid_user user >>= λ user. solana_call user side amount least partner fee

  abbrev pub build_on :
      EvmMirror
      → ℕ
      → Vm
      → BuildOrderRequest
      → Side
      → ℕ
      → ℕ
      → ℕ
      → Result OrderError (BuiltOrder Built)
  build_on m now evm req side amount least fee =
      build_evm m now req.user side amount least req.partner_id fee req.authorization
        req.messaging_fee
      >>= λ ts. ok (evm_order ts)
  build_on m now svm req side amount least fee =
      build_solana req.user side amount least req.partner_id fee

  -- `none` for `invalid_side`; the terms of the mirror are those that a quote reads.
  pub build_order :
      EvmMirror → ℕ → MirrorReads → BuildOrderRequest → Result OrderError (BuiltOrder Built)
  build_order m now mirror req = or_else (refused invalid_side) req.side >>= λ side.
      lift (is_mirror req.solana req.entry) >>= λ vm.
      lift (parse_amount req.amount_in) >>= λ amount.
      lift (parse_amount req.min_amount_out) >>= λ least.
      lift (partner_bps req.partner_id req.partner_fee_bps) >>= λ fee.
      lift (mirror_terms mirror req.partner_id) >>= λ most.
      throw_if (mirror.partner_required && is_none req.partner_id) (refused partner_required)
      >>= λ _. throw_if (exceeds fee most) (refused fee_too_high) >>= λ _.
          build_on m now vm req side amount least fee
