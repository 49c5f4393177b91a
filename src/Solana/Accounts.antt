-- ===== src/Solana/Accounts.antt =====
-- The accounts that the class `SolanaSwapClient` of infra/solana/client.ts reads: what `getRequest`,
-- `getPartner`, `getFeeEscrow`, `partnerSettings`, `nextRequestId`, `sharedDecimals` and
-- `nextOutboundNonce` make of the bytes of an account, and the addresses that they read.
pub mod Layout
pub mod Terms
mod Tests
use boundless_stock.Prelude.{
  ℕ, ◌+◌, ◌-◌, ◌*◌, ◌^◌, Bool, true, false, Option, none, some, List, [], ◌∷◌, ltb, ◌==◌,
  if◌then◌else◌, Result, ok, err, ◌>>=◌,
}
use boundless_stock.Prelude.Int.{ℤ, pos, sub_ℕ}
use boundless_stock.Prelude.Bytes.{Bytes, subarray, byte_at, read_le, write_be}
use boundless_stock.Solana.{SolanaError, out_of_range, Web3}

-- `direction`, `status` and `failure_reason` are bytes, undefined past the account's end.
pub record Request (Key : Type 0) : Type 0 where
  pub user : Key
  pub direction : Option ℕ
  pub amount_in : ℕ
  pub min_amount_out : ℕ
  pub amount_out : ℕ
  pub created_at : ℤ
  pub settled_at : ℤ
  pub status : Option ℕ
  pub failure_reason : Option ℕ
  pub lz_nonce : ℕ

pub record PartnerTerms (Key : Type 0) : Type 0 where
  pub signer : Key
  pub fee_recipient : Key
  pub max_fee_bps : ℕ
  pub active : Bool

pub record FeeEscrow (Key : Type 0) : Type 0 where
  pub partner_id : ℕ
  pub user : Key
  pub mint : Key
  pub partner_recipient : Key
  pub platform_recipient : Key
  pub partner_fee : ℕ
  pub platform_fee : ℕ
  pub state : Option ℕ

pub record PartnerSettings (Key : Type 0) : Type 0 where
  pub partner_required : Bool
  pub platform_fee_bps : ℕ
  pub platform_fee_recipient : Key

abbrev pub is_one : Option ℕ → Bool
is_one none = false
is_one (some b) = b == 1

-- `x ? 1 : 0`
abbrev pub flag : Bool → ℕ
flag true = 1
flag false = 0

-- A 64-bit number in two's complement.
abbrev pub signed : ℕ → ℤ
signed v = if ltb v (2 ^ 63) then pos v else sub_ℕ v (2 ^ 64)

abbrev pub u64_at : Bytes → ℕ → Result SolanaError ℕ
u64_at d at = read_le out_of_range 8 d at

-- An account that is not there is null.
abbrev pub if_account :
    {A : Type 0} → (Bytes → Result SolanaError A) → Option Bytes → Result SolanaError (Option A)
if_account read none = ok none
if_account read (some d) = read d >>= λ a. ok (some a)

module _ {Key : Type 0} (web3 : Web3 Key) where
  abbrev pub key_at : Bytes → ℕ → Result SolanaError Key
  key_at d at = web3.public_key (subarray at (at + 32) d)

  pub read_request : Bytes → Result SolanaError (Request Key)
  read_request d = key_at d 8 >>= λ user. u64_at d 105 >>= λ amount_in.
      u64_at d 113 >>= λ min_amount_out. u64_at d 121 >>= λ amount_out. u64_at d 129 >>= λ created.
      u64_at d 137 >>= λ settled. u64_at d 148 >>= λ nonce. ok (record {
        user = user;
        direction = byte_at 40 d;
        amount_in = amount_in;
        min_amount_out = min_amount_out;
        amount_out = amount_out;
        created_at = signed created;
        settled_at = signed settled;
        status = byte_at 145 d;
        failure_reason = byte_at 146 d;
        lz_nonce = nonce;
      })

  pub read_partner : Bytes → Result SolanaError (PartnerTerms Key)
  read_partner d = key_at d 12 >>= λ signer. key_at d 44 >>= λ recipient.
      read_le out_of_range 2 d 76 >>= λ most. ok (record {
        signer = signer;
        fee_recipient = recipient;
        max_fee_bps = most;
        active = is_one (byte_at 78 d);
      })

  pub read_fee_escrow : Bytes → Result SolanaError (FeeEscrow Key)
  read_fee_escrow d = read_le out_of_range 4 d 16 >>= λ partner. key_at d 20 >>= λ user.
      key_at d 52 >>= λ mint. key_at d 84 >>= λ to_partner. key_at d 116 >>= λ to_platform.
      u64_at d 148 >>= λ partner_fee. u64_at d 156 >>= λ platform_fee. ok (record {
        partner_id = partner;
        user = user;
        mint = mint;
        partner_recipient = to_partner;
        platform_recipient = to_platform;
        partner_fee = partner_fee;
        platform_fee = platform_fee;
        state = byte_at 164 d;
      })

  abbrev pub settings_at : ℕ
  settings_at = 8 + 32 + 4 + 32 * 6 + 8 + 1 + 1 + 32

  pub read_partner_settings : Bytes → Result SolanaError (PartnerSettings Key)
  read_partner_settings d = read_le out_of_range 2 d (settings_at + 1) >>= λ bps.
      key_at d (settings_at + 3) >>= λ recipient. ok (record {
        partner_required = is_one (byte_at settings_at d);
        platform_fee_bps = bps;
        platform_fee_recipient = recipient;
      })

unfoldable pub read_next_request_id : Bytes → Result SolanaError ℕ
read_next_request_id d = u64_at d (8 + 32 + 4 + 32 * 6)

pub read_shared_decimals : Bytes → Option ℕ
read_shared_decimals d = byte_at (8 + 32 + 4 + 32 * 6 + 8 + 1) d

-- One more than the nonce recorded, which is zero without an account.
unfoldable pub read_next_nonce : Option Bytes → Result SolanaError ℕ
read_next_nonce none = ok 1
read_next_nonce (some d) = u64_at d 9 >>= λ n. ok (n + 1)

-- The addresses of the program's accounts.
module _ {Key : Type 0} (web3 : Web3 Key) (program : Key) where
  abbrev pub request_address : ℕ → Result SolanaError Key
  request_address id = write_be out_of_range 8 id >>= λ b.
      ok (web3.find_address (web3.text_bytes "Request" ∷ b ∷ []) program)

  abbrev pub fee_escrow_address : ℕ → Result SolanaError Key
  fee_escrow_address id = write_be out_of_range 8 id >>= λ b.
      ok (web3.find_address (web3.text_bytes "Fee" ∷ b ∷ []) program)

  abbrev pub partner_address : ℕ → Result SolanaError Key
  partner_address id = write_be out_of_range 4 id >>= λ b.
      ok (web3.find_address (web3.text_bytes "Partner" ∷ b ∷ []) program)

  abbrev pub nonce_index_address : Key → ℕ → Result SolanaError Key
  nonce_index_address store nonce = write_be out_of_range 8 nonce >>= λ b.
      ok (web3.find_address (web3.text_bytes "Nonce" ∷ web3.to_buffer store ∷ b ∷ []) program)

  abbrev pub fee_vault : Key
  fee_vault = web3.find_address (web3.text_bytes "FeeVault" ∷ []) program

-- The calls that read them: `account_info` is `getAccountInfo`.
module _ {Key : Type 0} (web3 : Web3 Key) (program : Key)
    (account_info : Key → Result SolanaError (Option Bytes)) where
  abbrev pub account_at : Result SolanaError Key → Result SolanaError (Option Bytes)
  account_at address = address >>= account_info

  pub get_request : ℕ → Result SolanaError (Option (Request Key))
  get_request id = account_at (request_address web3 program id) >>= if_account (read_request web3)

  pub get_partner : ℕ → Result SolanaError (Option (PartnerTerms Key))
  get_partner id = account_at (partner_address web3 program id) >>= if_account (read_partner web3)

  pub get_fee_escrow : ℕ → Result SolanaError (Option (FeeEscrow Key))
  get_fee_escrow id =
      account_at (fee_escrow_address web3 program id) >>= if_account (read_fee_escrow web3)
