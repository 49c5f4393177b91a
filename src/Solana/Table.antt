-- ===== src/Solana/Table.antt =====
-- `lookupTable` of infra/solana/client.ts: the addresses that sample orders name, and the transactions
-- that record them. Waiting for the next slot and the file's writing are left out. The lookup table
-- program's instructions are the package's, and a Set is its elements in insertion order.
pub mod Extended
pub mod Sample
pub mod Sent
mod Tests
use boundless_stock.Prelude.{
  ℕ, zero, suc, Bool, true, false, not, ◌&&◌, ◌||◌, Option, none, some, List, [], ◌∷◌, ◌++◌, map,
  length, take, drop, Result, ok, err, ◌>>=◌, or_else, either, Eq,
}
use boundless_stock.Quote.{Side, buy, sell}
use boundless_stock.Solana.{SolanaError, thrown, AccountMeta, Instruction, Web3, ata_of}
use boundless_stock.Solana.Accounts.{request_address, fee_escrow_address, partner_address}
use boundless_stock.Solana.Client.{Asset, Client, Net}
use boundless_stock.Solana.Orders.{BuiltInstructions, program_of, partner_instructions}

-- `createLookupTable` gives the instruction and the table's key.
pub record TableProgram (Key Table : Type 0) : Type 0 where
  pub create : Result SolanaError (Instruction Key × Key)
  pub extend : Key → List Key → Instruction Key
  pub get_table : Key → Result SolanaError (Option Table)

module _ {Key : Type 0} ⦃e : Eq Key⦄ where
  abbrev pub member : Key → List Key → Bool
  member k [] = false
  member k (j ∷ js) = e.beq j k || member k js

  -- `set.add(k)`
  abbrev pub add : Key → List Key → List Key
  add k set = either (member k set) (set ++ (k ∷ [])) set

  unfoldable pub add_all : List Key → List Key → List Key
  add_all [] set = set
  add_all (k ∷ ks) set = add_all ks (add k set)

  abbrev pub unsigned_keys : List (AccountMeta Key) → List Key
  unsigned_keys [] = []
  unsigned_keys (k ∷ ks) = either k.is_signer (k.pubkey ∷ unsigned_keys ks) (unsigned_keys ks)

  -- The programs and accounts that instructions name without a signature.
  abbrev pub named_keys : List (Instruction Key) → List Key
  named_keys [] = []
  named_keys (i ∷ is) = (i.program_id ∷ unsigned_keys i.keys) ++ named_keys is

  abbrev pub last_of : List (Instruction Key) → Option (Instruction Key)
  last_of [] = none
  last_of (i ∷ []) = some i
  last_of (i ∷ j ∷ is) = last_of (j ∷ is)

  abbrev pub fourth : List (AccountMeta Key) → Option Key
  fourth (a ∷ b ∷ c ∷ d ∷ ks) = some d.pubkey
  fourth _ = none

  -- Those of `keys` that are not of one order, and not the user.
  unfoldable pub table_addresses : List Key → Key → List Key → List Key
  table_addresses per_order user [] = []
  table_addresses per_order user (k ∷ ks) =
      either (member k per_order || e.beq k user) (k ∷ table_addresses per_order user ks)
        (table_addresses per_order user ks)

-- `addresses.slice(i, i + 20)` for i = 0, 20, …; there are no more slices than addresses.
unfoldable pub slices_from : {A : Type 0} → ℕ → List A → List (List A)
slices_from zero xs = []
slices_from (suc fuel) [] = []
slices_from (suc fuel) (x ∷ xs) = take 20 (x ∷ xs) ∷ slices_from fuel (drop 20 (x ∷ xs))

unfoldable pub slices : {A : Type 0} → List A → List (List A)
slices xs = slices_from (length xs) xs

module _ {Key Table : Type 0} ⦃e : Eq Key⦄ (web3 : Web3 Key) (c : Client Key) (net : Net Key)
    (tables : TableProgram Key Table) (user sample_partner : Key) where
  -- The keys of one sample order: those of that order alone, and all that it names.
  abbrev pub sample : Side → Result SolanaError (List Key × List Key)
  sample side =
      partner_instructions web3 c net user sample_partner 1 0 side 1000000 1 (b'0' ∷ b'x' ∷ [])
      >>= λ b. request_address web3 c.program b.request_id >>= λ request.
          fee_escrow_address web3 c.program b.request_id >>= λ escrow.
          partner_address web3 c.program 1 >>= λ partner.
          or_else thrown (last_of b.instructions) >>= λ main.
          or_else thrown (fourth main.keys) >>= λ nonce.
          ok (request ∷ escrow ∷ partner ∷ nonce ∷ [], named_keys b.instructions)

  abbrev pub user_accounts : List Key
  user_accounts =
      ata_of web3 user c.base.mint (program_of web3 c.base)
      ∷ ata_of web3 user c.quote.mint (program_of web3 c.quote)
      ∷ []

  pub order_addresses : Result SolanaError (List Key)
  order_addresses = sample buy >>= λ (buy_own, buy_named). sample sell >>= λ (sell_own, sell_named).
      ok (
        table_addresses (buy_own ++ (sell_own ++ user_accounts)) user
          (add_all sell_named (add_all buy_named [])))

  -- The table, and the instructions that are sent, each in a transaction of its own.
  abbrev pub create_table : Result SolanaError (Table × List (Instruction Key))
  create_table = order_addresses >>= λ addresses. tables.create >>= λ (create, key).
      tables.get_table key >>= λ found. or_else thrown found >>= λ table.
      ok (table, create ∷ map (tables.extend key) (slices addresses))

  abbrev pub or_create : Option Table → Result SolanaError (Table × List (Instruction Key))
  or_create (some table) = ok (table, [])
  or_create none = create_table

  abbrev pub find_recorded : Option Key → Result SolanaError (Option Table)
  find_recorded none = ok none
  find_recorded (some key) = tables.get_table key

  -- `cached` is the field `lut`, `recorded` the address in the record's file.
  pub lookup_table : Option Table → Option Key → Result SolanaError (Table × List (Instruction Key))
  lookup_table (some table) recorded = ok (table, [])
  lookup_table none recorded = find_recorded recorded >>= or_create
