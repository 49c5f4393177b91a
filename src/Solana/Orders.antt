-- ===== src/Solana/Orders.antt =====
-- The orders that infra/solana/client.ts builds: `buildOpen` with what it derives, the instructions of
-- an order with and without a partner. What the node answers and LayerZero's OFT SDK are the record
-- `Net`; compiling a transaction, and sending it, is the package's.
pub mod Compiled
pub mod Built
mod Tests
use boundless_stock.Prelude.{
  ℕ, ◌+◌, ◌-◌, Bool, true, false, ◌&&◌, Option, none, some, List, [], ◌∷◌, ◌++◌, map, length,
  replicate, drop, ◌==◌, if◌then◌else◌, Result, ok, err, ◌>>=◌, or_else, Eq,
}
use boundless_stock.Prelude.Bytes.{Bytes, concat, write_le, write_be}
use boundless_stock.Quote.{Side, buy, sell}
use boundless_stock.Orders.Build.{all_hex}
use boundless_stock.Sdk.{hex_bytes, pad_start}
use boundless_stock.Solana.{
  SolanaError, thrown, out_of_range, AccountMeta, Instruction, Web3, discriminator, meta, ata_of,
  create_ata_idempotent,
}
use boundless_stock.Solana.Client.{direction_of, Asset, Client, SendParams, Net}
use boundless_stock.Solana.Accounts.{
  read_next_request_id, read_next_nonce, request_address, fee_escrow_address, partner_address,
  nonce_index_address, fee_vault,
}

-- `undefined` where no peer is on the chain.
abbrev pub find_peer : ℕ → List (ℕ × List ℕ) → Option (List ℕ)
find_peer eid [] = none
find_peer eid ((remote, address) ∷ ps) = if remote == eid then some address else find_peer eid ps

abbrev pub is_hex_address : List ℕ → Bool
is_hex_address (z ∷ x ∷ s) = z == b'0' && x == b'x' && all_hex s
is_hex_address _ = false

pub record Opening (Key : Type 0) : Type 0 where
  pub request_id : ℕ
  pub native_fee : ℕ
  pub token_in : Key
  pub token_program : Key
  pub params : Bytes
  pub base_keys : List (AccountMeta Key)
  pub remaining : List (AccountMeta Key)

pub record BuiltInstructions (Key : Type 0) : Type 0 where
  pub instructions : List (Instruction Key)
  pub request_id : ℕ
  pub native_fee : ℕ

unfoldable pub encode_params : Side → ℕ → ℕ → Bytes → ℕ → Result SolanaError Bytes
encode_params side amount least options fee = write_le out_of_range 4 (length options) >>= λ len.
    write_le out_of_range 8 amount >>= λ amount. write_le out_of_range 8 least >>= λ least.
    write_le out_of_range 8 fee >>= λ fee. write_le out_of_range 8 0 >>= λ lz_token_fee.
    ok
      (concat ((direction_of side ∷ []) ∷ amount ∷ least ∷ len ∷ options ∷ fee ∷ lz_token_fee ∷ []))

module _ {Key : Type 0} ⦃e : Eq Key⦄ (web3 : Web3 Key) where
  abbrev pub program_of : Asset Key → Key
  program_of a = elim (a.token_program) [ none ↦ web3.token_program | some p ↦ p ]

  abbrev pub to_bytes32 : List ℕ → Result SolanaError Bytes
  to_bytes32 address =
      if is_hex_address address
      then ok (hex_bytes (pad_start 64 (drop 2 address)))
      else (web3.parse_key address >>= λ key. ok (web3.to_buffer key))

  -- The accounts of the SDK's send: the first is the store, and of the others the user signs.
  abbrev pub user_signs : Key → AccountMeta Key → AccountMeta Key
  user_signs user k = record k { is_signer = e.beq k.pubkey user }

  abbrev pub remaining_of : Key → Key → List (AccountMeta Key) → List (AccountMeta Key)
  remaining_of store user [] = []
  remaining_of store user (k ∷ ks) = meta web3 store false k.is_writable ∷ map (user_signs user) ks

  module _ (c : Client Key) (net : Net Key) where
    abbrev pub asset_in : Side → Asset Key
    asset_in buy = c.quote
    asset_in sell = c.base

    abbrev pub asset_out : Side → Asset Key
    asset_out buy = c.base
    asset_out sell = c.quote

    abbrev pub program_for_mint : Key → Key
    program_for_mint mint = program_of (if e.beq mint c.base.mint then c.base else c.quote)

    unfoldable pub next_request_id : Result SolanaError ℕ
    next_request_id = net.account_info c.store >>= or_else thrown >>= read_next_request_id

    unfoldable pub next_outbound_nonce : Key → Bytes → Result SolanaError ℕ
    next_outbound_nonce store home_oft = write_be out_of_range 4 c.home_eid >>= λ eid.
        net.account_info (
          web3.find_address (web3.text_bytes "Nonce" ∷ web3.to_buffer store ∷ eid ∷ home_oft ∷ [])
            c.endpoint_program)
        >>= read_next_nonce

    -- As the fee is quoted; the send names the fee, the source and the token's program besides.
    abbrev pub quoted : Key → Asset Key → Bytes → ℕ → Bytes → SendParams Key
    quoted user asset to amount options = record {
      payer = user;
      token_mint = asset.mint;
      token_escrow = asset.escrow;
      token_source = none;
      dst_eid = c.home_eid;
      to = to;
      amount_ld = amount;
      min_amount_ld = 0;
      options = options;
      compose_msg = some (replicate 128 0);
      native_fee = none;
      oft = c.oft_program;
      token = none;
    }

    abbrev pub sent : Key → Asset Key → Bytes → ℕ → Bytes → Key → Key → ℕ → SendParams Key
    sent user asset to amount options source program fee =
        record (quoted user asset to amount options) {
          token_source = some source;
          min_amount_ld = amount;
          compose_msg = none;
          native_fee = some fee;
          token = some program;
        }

    unfoldable pub build_open : Key → Side → ℕ → ℕ → List ℕ → Result SolanaError (Opening Key)
    build_open user side amount least options =
        let asset = asset_in side in
        let mint_in = asset.mint in
        let program = program_for_mint mint_in in
        let escrow = ata_of web3 c.store mint_in program in
        let bytes = hex_bytes (drop 2 options) in
        next_request_id >>= λ id. or_else thrown (find_peer c.home_eid asset.peers) >>= λ peer.
        next_outbound_nonce asset.oft_store (hex_bytes (drop 2 peer)) >>= λ nonce.
        nonce_index_address web3 c.program asset.oft_store nonce >>= λ index.
        to_bytes32 c.home_relay >>= λ relay.
        net.quote_send (quoted user asset relay amount bytes) >>= λ fee.
        net.send_accounts (sent user asset relay amount bytes escrow program fee) >>= λ accounts.
        encode_params side amount least bytes fee >>= λ params.
        request_address web3 c.program id >>= λ request. ok (record {
          request_id = id;
          native_fee = fee;
          token_in = mint_in;
          token_program = program;
          params = params;
          base_keys =
              meta web3 user true true
              ∷ meta web3 c.store false true
              ∷ meta web3 request false true
              ∷ meta web3 index false true
              ∷ meta web3 mint_in false false
              ∷ meta web3 (asset_out side).mint false false
              ∷ meta web3 (ata_of web3 user mint_in program) false true
              ∷ meta web3 escrow false true
              ∷ meta web3 c.oft_program false false
              ∷ meta web3 program false false
              ∷ meta web3 web3.system_program false false
              ∷ [];
          remaining = remaining_of c.store user accounts;
        })

    -- `ComputeBudgetProgram.setComputeUnitLimit`, whose data the package makes, comes first.
    abbrev pub set_limit : Instruction Key
    set_limit = record {
      program_id = web3.compute_budget_program;
      keys = [];
      data' = web3.unit_limit 1400000;
    }

    abbrev pub open_instructions : Key → Opening Key → List (Instruction Key)
    open_instructions user o =
        set_limit
        ∷ create_ata_idempotent web3 user c.store o.token_in o.token_program
        ∷ record {
          program_id = c.program;
          keys = o.base_keys ++ o.remaining;
          data' = concat (discriminator web3 "open_request" ∷ o.params ∷ []);
        }
        ∷ []

    pub open_order : Key → Side → ℕ → ℕ → List ℕ → Result SolanaError (BuiltInstructions Key)
    open_order user side amount least options = build_open user side amount least options >>= λ o.
        ok (record {
          instructions = open_instructions user o;
          request_id = o.request_id;
          native_fee = o.native_fee;
        })

    abbrev pub partner_keys : Key → Opening Key → Key → Key → List (AccountMeta Key)
    partner_keys signer o partner escrow =
        o.base_keys
        ++ (meta web3 signer true false
            ∷ meta web3 partner false false
            ∷ meta web3 escrow false true
            ∷ meta web3 (ata_of web3 (fee_vault web3 c.program) o.token_in o.token_program) false
                true
            ∷ meta web3 web3.system_program false false
            ∷ o.remaining)

    unfoldable pub partner_instructions :
        Key → Key → ℕ → ℕ → Side → ℕ → ℕ → List ℕ → Result SolanaError (BuiltInstructions Key)
    partner_instructions user signer partner bps side amount least options =
        build_open user side amount least options >>= λ o. write_le out_of_range 2 bps >>= λ fee.
        partner_address web3 c.program partner >>= λ account.
        fee_escrow_address web3 c.program o.request_id >>= λ escrow. ok (record {
          instructions =
              set_limit
              ∷ create_ata_idempotent web3 user c.store o.token_in o.token_program
              ∷ create_ata_idempotent web3 user (fee_vault web3 c.program) o.token_in
                  o.token_program
              ∷ record {
                program_id = c.program;
                keys = partner_keys signer o account escrow;
                data' =
                    concat (discriminator web3 "open_request_via_partner" ∷ o.params ∷ fee ∷ []);
              }
              ∷ [];
          request_id = o.request_id;
          native_fee = o.native_fee;
        })

    pub quote_messaging_fee : Key → Side → ℕ → List ℕ → Result SolanaError ℕ
    quote_messaging_fee user side amount options =
        build_open user side amount 1 options >>= λ o. ok o.native_fee
