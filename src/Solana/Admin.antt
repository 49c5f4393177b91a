-- ===== src/Solana/Admin.antt =====
-- The admin's calls and the release of fees, infra/solana/client.ts: `setPartner`,
-- `setPartnerRequired`, `setPlatformFee` and `settleFees`, each up to the instructions of its transaction.
pub mod Kept
mod Tests
use Prim.Native.String.{String}
use boundless_stock.Prelude.{
  ℕ, Bool, true, false, Option, none, some, List, [], ◌∷◌, ◌++◌, map, Result, ok, err, ◌>>=◌,
  or_else, either, Eq,
}
use boundless_stock.Prelude.Bytes.{Bytes, concat, write_le}
use boundless_stock.Solana.{
  SolanaError, out_of_range, no_fee_escrow, AccountMeta, Instruction, Web3, discriminator, meta,
  ata_of, create_ata_idempotent,
}
use boundless_stock.Solana.Accounts.{
  PartnerTerms, FeeEscrow, flag, request_address, fee_escrow_address, partner_address, fee_vault,
  get_fee_escrow,
}
use boundless_stock.Solana.Client.{Client, Net}
use boundless_stock.Solana.Orders.{program_for_mint}

abbrev pub is_there : Option Bytes → Bool
is_there none = false
is_there (some d) = true

module _ {Key : Type 0} ⦃e : Eq Key⦄ (web3 : Web3 Key) (c : Client Key) where
  -- The terms as the program stores them.
  pub encode_terms : PartnerTerms Key → Result SolanaError Bytes
  encode_terms t = write_le out_of_range 2 t.max_fee_bps >>= λ most. ok (
      concat (
        web3.to_buffer t.signer
        ∷ web3.to_buffer t.fee_recipient
        ∷ most
        ∷ (flag t.active ∷ [])
        ∷ []))

  abbrev pub update_partner : Key → Key → Bytes → Instruction Key
  update_partner admin partner encoded = record {
    program_id = c.program;
    keys =
        meta web3 admin true false
        ∷ meta web3 c.store false false
        ∷ meta web3 partner false true
        ∷ [];
    data' = concat (discriminator web3 "update_partner" ∷ encoded ∷ []);
  }

  abbrev pub register_partner : Key → Key → Bytes → Bytes → Instruction Key
  register_partner admin partner id encoded = record {
    program_id = c.program;
    keys =
        meta web3 admin true true
        ∷ meta web3 c.store false false
        ∷ meta web3 partner false true
        ∷ meta web3 web3.system_program false false
        ∷ [];
    data' = concat (discriminator web3 "register_partner" ∷ id ∷ encoded ∷ []);
  }

  -- An id that has an account is updated.
  pub set_partner : Net Key → Key → ℕ → PartnerTerms Key → Result SolanaError (Instruction Key)
  set_partner net admin partner_id terms = partner_address web3 c.program partner_id >>= λ partner.
      net.account_info partner >>= λ info. encode_terms terms >>= λ encoded.
      write_le out_of_range 4 partner_id >>= λ id. ok (
        either (is_there info) (register_partner admin partner id encoded)
          (update_partner admin partner encoded))

  abbrev pub admin_ix : Key → String → Bytes → Instruction Key
  admin_ix admin name args = record {
    program_id = c.program;
    keys = meta web3 admin true false ∷ meta web3 c.store false true ∷ [];
    data' = concat (discriminator web3 name ∷ args ∷ []);
  }

  pub set_partner_required : Key → Bool → Instruction Key
  set_partner_required admin required = admin_ix admin "set_partner_required" (flag required ∷ [])

  pub set_platform_fee : Key → ℕ → Key → Result SolanaError (Instruction Key)
  set_platform_fee admin bps recipient = write_le out_of_range 2 bps >>= λ b.
      ok (admin_ix admin "set_platform_fee" (concat (b ∷ web3.to_buffer recipient ∷ [])))

  -- The zero key is never paid, so it gets no account.
  pub create_accounts : Key → Key → Key → List Key → List (Instruction Key)
  create_accounts payer mint program [] = []
  create_accounts payer mint program (r ∷ rs) =
      either (e.beq r web3.default_key)
        (create_ata_idempotent web3 payer r mint program ∷ create_accounts payer mint program rs)
        (create_accounts payer mint program rs)

  abbrev pub recipients_of : FeeEscrow Key → List Key
  recipients_of f = f.partner_recipient ∷ f.platform_recipient ∷ f.user ∷ []

  abbrev pub settle_keys : Key → Key → FeeEscrow Key → Key → List (AccountMeta Key)
  settle_keys request escrow f program =
      let vault = fee_vault web3 c.program in
      meta web3 request false false
        ∷ meta web3 escrow false true
        ∷ meta web3 vault false false
        ∷ meta web3 f.mint false false
        ∷ meta web3 (ata_of web3 vault f.mint program) false true
        ∷ map (λ r. meta web3 (ata_of web3 r f.mint program) false true) (recipients_of f)
      ++ (meta web3 program false false ∷ [])

  pub settle_fees : Net Key → Key → ℕ → Result SolanaError (List (Instruction Key))
  settle_fees net payer id = get_fee_escrow web3 c.program net.account_info id >>= λ found.
      or_else no_fee_escrow found >>= λ f. request_address web3 c.program id >>= λ request.
      fee_escrow_address web3 c.program id >>= λ escrow.
      let program = program_for_mint web3 c net f.mint in
      ok (
        create_accounts payer f.mint program (recipients_of f)
        ++ (record {
          program_id = c.program;
          keys = settle_keys request escrow f program;
          data' = discriminator web3 "settle_fees";
        }
            ∷ []))
