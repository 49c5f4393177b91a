-- ===== src/Solana.antt =====
-- What the Solana side of the code stands on: a public key is a key of any type with a decided
-- equality (`equals`), and what @solana/web3.js, the RPC node and SHA-256 do is a record.
pub mod Accounts
pub mod Client
pub mod Orders
pub mod Decode
pub mod Admin
pub mod Table
pub mod Mint
mod Tests
use Prim.Native.String.{String}
use boundless_stock.Prelude.{
  ℕ, Bool, true, false, Option, none, some, List, [], ◌∷◌, take, Result, ok, err,
}
use boundless_stock.Prelude.Bytes.{Bytes}

pub data SolanaError : Type 0 where
  thrown out_of_range no_fee_escrow : SolanaError

-- `pubkey`, `isSigner` and `isWritable` of an account that an instruction names.
pub record AccountMeta (Key : Type 0) : Type 0 where
  pub pubkey : Key
  pub is_signer : Bool
  pub is_writable : Bool

pub record Instruction (Key : Type 0) : Type 0 where
  pub program_id : Key
  pub keys : List (AccountMeta Key)
  pub data' : Bytes

-- The package's operations and constants. `public_key` and `parse_key` are `new PublicKey` of bytes and of a
-- text; `hash_of n` is the SHA-256 of "global:" and `n`; `text_bytes`
-- is `Buffer.from` of a text; `unit_limit` the data of
-- `setComputeUnitLimit`; `find_address` is the first part of `findProgramAddressSync`.
pub record Web3 (Key : Type 0) : Type 0 where
  pub public_key : Bytes → Result SolanaError Key
  pub parse_key : List ℕ → Result SolanaError Key
  pub to_buffer : Key → Bytes
  pub find_address : List Bytes → Key → Key
  pub hash_of : String → Bytes
  pub text_bytes : String → Bytes
  pub unit_limit : ℕ → Bytes
  pub default_key : Key
  pub system_program : Key
  pub ata_program : Key
  pub token_program : Key
  pub token_2022_program : Key
  pub compute_budget_program : Key

module _ {Key : Type 0} (web3 : Web3 Key) where
  -- The first eight bytes.
  abbrev pub discriminator : String → Bytes
  discriminator name = take 8 (web3.hash_of name)

  abbrev pub meta : Key → Bool → Bool → AccountMeta Key
  meta key signer writable = record { pubkey = key; is_signer = signer; is_writable = writable }

  abbrev pub ata_of : Key → Key → Key → Key
  ata_of owner mint program =
      web3.find_address (web3.to_buffer owner ∷ web3.to_buffer program ∷ web3.to_buffer mint ∷ [])
        web3.ata_program

  abbrev pub create_ata_idempotent : Key → Key → Key → Key → Instruction Key
  create_ata_idempotent payer owner mint program = record {
    program_id = web3.ata_program;
    keys =
        meta payer true true
        ∷ meta (ata_of owner mint program) false true
        ∷ meta owner false false
        ∷ meta mint false false
        ∷ meta web3.system_program false false
        ∷ meta program false false
        ∷ [];
    data' = 1 ∷ [];
  }
