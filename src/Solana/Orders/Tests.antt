-- ===== src/Solana/Orders/Tests.antt =====
-- A sell order through a partner, built, compiled and approved.
use boundless_stock.Prelude.{
  ℕ, ◌≡◌, ◌↔◌, refl, arith, true, some, List, [], ◌∷◌, map, All, Has, Bool, not, ◌&&◌, ◌||◌, ok,
  err, ◌==◌, if◌then◌else◌, nat_eq,
}
use boundless_stock.Prelude.Int.{pos}
use boundless_stock.Prelude.Bytes.{read_le, write_le, write_be}
use boundless_stock.Quote.{sell}
use boundless_stock.Sdk.{hex_bytes}
use boundless_stock.Solana.{AccountMeta, Instruction}
use boundless_stock.Solana.Accounts.{read_next_request_id, read_next_nonce}
use boundless_stock.Solana.Orders.{
  BuiltInstructions, next_request_id, next_outbound_nonce, encode_params, build_open,
  partner_instructions,
}
use boundless_stock.Solana.Orders.Compiled.{IsMessageOf, IsSignedFor}
use boundless_stock.Solana.Orders.Built.{disc, approving, partner_instructions-approved}
use boundless_stock.Solana.Decode.{Message, authorize_solana_order}
use boundless_stock.Solana.Decode.Authorized.{IsApproval, authorize_solana_order_iff}
use boundless_stock.Solana.Table.{member}
use boundless_stock.Solana.Table.Extended.{member_iff}
use boundless_stock.Solana.Tests.{number_keys, client, net}

abbrev none_built : BuiltInstructions ℕ
none_built = record { instructions = []; request_id = 0; native_fee = 0 }

abbrev built : BuiltInstructions ℕ
unfolding partner_instructions build_open next_request_id next_outbound_nonce encode_params read_le
    write_le write_be read_next_request_id read_next_nonce hex_bytes
built =
    elim (partner_instructions number_keys client net 1 2 9 25 sell 900 800
      (b'0' ∷ b'x' ∷ b'0' ∷ b'3' ∷ [])) [ ok b ↦ b | err e ↦ none_built ]

abbrev index_of : ℕ → ℕ
index_of program = if program == 50 then 2 else if program == 40 then 3 else 4

abbrev compile : List (Instruction ℕ) → Message ℕ
compile ixs = record {
  static_keys = 1 ∷ 2 ∷ 50 ∷ 40 ∷ 30 ∷ [];
  required = 2;
  compiled = map (λ ix. (index_of ix.program_id, ix.data')) ixs;
}

built_is :
    partner_instructions number_keys client net 1 2 9 25 sell 900 800
      (b'0' ∷ b'x' ∷ b'0' ∷ b'3' ∷ [])
    ≡ ok built
unfolding partner_instructions build_open next_request_id next_outbound_nonce encode_params read_le
    write_le write_be read_next_request_id read_next_nonce hex_bytes
built_is = refl

-- A test of who signs, and that it tells.
abbrev sign : List ℕ → List (AccountMeta ℕ) → Bool
sign signers [] = true
sign signers (k ∷ ks) = (not k.is_signer || member k.pubkey signers) && sign signers ks

abbrev all_sign : List ℕ → List (Instruction ℕ) → Bool
all_sign signers [] = true
all_sign signers (ix ∷ ixs) = sign signers ix.keys && all_sign signers ixs

sign-All :
    (signers : List ℕ) (ks : List (AccountMeta ℕ))
    → sign signers ks ≡ true
    → All (λ k. k.is_signer ≡ true → Has k.pubkey signers) ks
sign-All signers [] h = tt
sign-All signers (k ∷ ks) h = ground (arith, member_iff k.pubkey signers, sign-All signers ks)

all_sign-IsSignedFor :
    (signers : List ℕ) (ixs : List (Instruction ℕ))
    → all_sign signers ixs ≡ true
    → All (IsSignedFor signers) ixs
all_sign-IsSignedFor signers [] h = tt
all_sign-IsSignedFor signers (ix ∷ ixs) h =
    let first : sign signers ix.keys ≡ true = ground arith in
    let later : all_sign signers ixs ≡ true = ground arith in
    (sign-All signers ix.keys first, all_sign-IsSignedFor signers ixs later)

compiled : IsMessageOf 1 built.instructions (compile built.instructions)
unfolding partner_instructions build_open next_request_id next_outbound_nonce encode_params read_le
    write_le write_be read_next_request_id read_next_nonce hex_bytes
compiled = (
  refl,
  (refl, refl, (refl, refl, (refl, refl, (refl, refl, tt)))),
  all_sign-IsSignedFor (1 ∷ 2 ∷ []) built.instructions refl,
)

partner_instructions-approved_example :
    authorize_solana_order
      (disc number_keys client net)
      (λ m. true)
      (compile built.instructions)
      2
      (approving 30 1 sell 900 (some (some (pos 750))) 25)
    ≡ ok true
partner_instructions-approved_example =
    partner_instructions-approved number_keys client net (λ m. true) (compile built.instructions) 1
      2 9 25 sell 900 800 (b'0' ∷ b'x' ∷ b'0' ∷ b'3' ∷ []) (some (some (pos 750))) built refl
      (omega arith) (omega arith) built_is compiled (omega arith)

authorize_solana_order_iff_example :
    (authorize_solana_order
        (disc number_keys client net)
        (λ m. true)
        (compile built.instructions)
        2
        (approving 30 1 sell 900 (some (some (pos 750))) 25)
      ≡ ok true)
    ↔ IsApproval
        (disc number_keys client net)
        (compile built.instructions)
        2
        (approving 30 1 sell 900 (some (some (pos 750))) 25)
authorize_solana_order_iff_example =
    authorize_solana_order_iff (disc number_keys client net) (λ m. true)
      (compile built.instructions) 2 (approving 30 1 sell 900 (some (some (pos 750))) 25) refl
