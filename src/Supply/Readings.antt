-- ===== src/Supply/Readings.antt =====
-- What `measureSupply` of infra/lib/omnisupply.ts reads of each chain, with `solanaOftFlow`.
use Prim.Native.String.{String}
use boundless_stock.Prelude.{
  ℕ, zero, suc, ◌+◌, ◌*◌, ◌^◌, Bool, true, false, Option, none, some, [], ◌∷◌, length, take, drop,
  ltb, ◌==◌, if◌then◌else◌, Result, ok, ◌>>=◌, ◌>>◌, throw_if,
}
use boundless_stock.Prelude.Bytes.{Bytes, little_endian, subarray, same_bytes}

pub data SupplyError : Type 0 where
  thrown : SupplyError

-- `data[o] === 1`; out of range it is undefined.
abbrev pub is_one_at : ℕ → Bytes → Bool
is_one_at o [] = false
is_one_at zero (b ∷ bs) = b == 1
is_one_at (suc o) (b ∷ bs) = is_one_at o bs

abbrev pub skip_option : Bytes → ℕ → ℕ
skip_option bytes o = if is_one_at o bytes then o + 33 else o + 1

-- `data.readBigUInt64LE(at)`
abbrev pub read_u64 : Bytes → ℕ → Result SupplyError ℕ
read_u64 bytes at =
    throw_if (ltb (length bytes) (at + 8)) thrown >> ok (little_endian (take 8 (drop at bytes)))

abbrev pub read_u128 : Bytes → ℕ → Result SupplyError ℕ
read_u128 bytes at =
    read_u64 bytes at >>= λ low. read_u64 bytes (at + 8) >>= λ high. ok (low + high * 2 ^ 64)

-- The counters of a Solana OFT store: out and in.
unfoldable pub solana_oft_flow : Bytes → Result SupplyError (ℕ × ℕ)
solana_oft_flow bytes =
    let o = skip_option bytes (skip_option bytes 157) in
    read_u128 bytes o >>= λ out. read_u128 bytes (o + 16) >>= λ back. ok (out, back)

-- The Whirlpool's vault for a mint.
pub vault_of : Bytes → Bytes → Bytes
vault_of mint bytes =
    if same_bytes (subarray 101 133 bytes) mint
    then subarray 133 165 bytes
    else subarray 213 245 bytes

-- One asset on one chain, as read: `locked` for an adapter, `pool` where a pool holds some.
pub record Reading : Type 0 where
  pub key : String
  pub home : Bool
  pub solana : Bool
  pub decimals : ℕ
  pub raw : ℕ
  pub locked : Option ℕ
  pub pool : Option ℕ
  pub bridged_out : ℕ
  pub bridged_in : ℕ

abbrev pub Read : Type 0
Read = Result SupplyError ℕ

-- A chain of the manifest: the contracts that it records for the asset, and its answers.
pub record EvmChain : Type 0 where
  pub key : String
  pub home : Bool
  pub connected : Bool
  pub token : Option ℕ
  pub oft : Option ℕ
  pub total_supply : ℕ → Read
  pub balance_of : ℕ → ℕ → Read
  pub bridged_out : ℕ → Read
  pub bridged_in : ℕ → Read

abbrev pub or_token : Option ℕ → ℕ → ℕ
or_token none token = token
or_token (some oft) token = oft

abbrev pub if_some : Option ℕ → (ℕ → Read) → Result SupplyError (Option ℕ)
if_some none f = ok none
if_some (some a) f = f a >>= λ n. ok (some n)

-- The holder whose balance backs the other chains: the adapter, where the OFT is not the token.
abbrev pub adapter_of : ℕ → ℕ → Option ℕ
adapter_of token oft = if oft == token then none else some oft

-- `pool` is the manifest's pool where its address starts with "0x".
abbrev pub pool_at : Bool → Option ℕ → Option ℕ
pool_at home pool = if home then pool else none

pub read_token : ℕ → Option ℕ → EvmChain → ℕ → Result SupplyError Reading
read_token decimals pool c token =
    let oft = or_token c.oft token in
    c.total_supply token >>= λ raw.
    if_some (adapter_of token oft) (c.balance_of token) >>= λ locked.
    if_some (pool_at c.home pool) (c.balance_of token) >>= λ held. c.bridged_out oft >>= λ out.
    c.bridged_in oft >>= λ back. ok (record {
      key = c.key;
      home = c.home;
      solana = false;
      decimals = decimals;
      raw = raw;
      locked = locked;
      pool = held;
      bridged_out = out;
      bridged_in = back;
    })

abbrev pub found {ℓ} : {A : Type ℓ} → Result SupplyError A → Result SupplyError (Option A)
found r = r >>= λ a. ok (some a)

-- `none` is `continue`.
abbrev pub read_evm : ℕ → Option ℕ → EvmChain → Result SupplyError (Option Reading)
read_evm decimals pool c =
    if c.connected
    then elim c.token [ none ↦ ok none | some token ↦ found (read_token decimals pool c token) ]
    else ok none

-- A Solana chain's deployment file for the asset, and what the chain answers: the mint's supply and
-- decimals, the balance of a token account, the data of the pool and of the OFT store.
pub record SolanaAsset : Type 0 where
  pub mint : Bytes
  pub adapt : Bool
  pub escrow : Bytes
  pub token_supply : Result SupplyError (ℕ × ℕ)
  pub account_balance : Bytes → Read
  pub pool_data : Option (Result SupplyError Bytes)
  pub store_data : Result SupplyError Bytes

abbrev pub escrowed : Bool → Read → Result SupplyError (Option ℕ)
escrowed true balance = balance >>= λ n. ok (some n)
escrowed false balance = ok none

abbrev pub pooled : SolanaAsset → Option (Result SupplyError Bytes) → Result SupplyError (Option ℕ)
pooled a none = ok none
pooled a (some pool) =
    pool >>= λ bytes. a.account_balance (vault_of a.mint bytes) >>= λ n. ok (some n)

pub read_asset : String → Bool → SolanaAsset → Result SupplyError Reading
read_asset key home a = a.token_supply >>= λ supply.
    escrowed a.adapt (a.account_balance a.escrow) >>= λ locked. pooled a a.pool_data >>= λ pool.
    a.store_data >>= solana_oft_flow >>= λ flow. ok (record {
      key = key;
      home = home;
      solana = true;
      decimals = supply.1;
      raw = supply.0;
      locked = locked;
      pool = pool;
      bridged_out = flow.0;
      bridged_in = flow.1;
    })

-- A Solana chain of the configuration; `file` is its deployment file, where there is one.
pub record SolanaChain : Type 0 where
  pub key : String
  pub home : Bool
  pub file : Option SolanaAsset

abbrev pub read_solana : SolanaChain → Result SupplyError (Option Reading)
read_solana c = elim c.file [ none ↦ ok none | some a ↦ found (read_asset c.key c.home a) ]
