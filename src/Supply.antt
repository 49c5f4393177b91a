-- ===== src/Supply.antt =====
-- Where an asset's units are, infra/lib/omnisupply.ts. An address is its number, so comparing two
-- lower-cased texts compares numbers. What a chain answers is a field, and reading it may throw; which
-- of several errors comes first is left out.
pub mod Readings
pub mod Store
pub mod Conserved
pub mod Tests
use Prim.Native.String.{String}
use boundless_stock.Prelude.{
  ℕ, zero, suc, ◌+◌, ◌-◌, ◌*◌, ◌^◌, max, Bool, true, false, not, ◌&&◌, Option, none, some, List, [],
  ◌∷◌, ◌++◌, map, length, take, drop, ltb, ◌==◌, if◌then◌else◌, Result, ok, err, ◌>>=◌, ◌>>◌,
  throw_if, or_else,
}
use boundless_stock.Prelude.Int.{ℤ, pos, negsuc, sub_ℕ, ◌+ℤ◌}
use boundless_stock.Prelude.Bytes.{Bytes, little_endian, subarray, same_bytes}
use boundless_stock.Supply.Readings.{
  EvmChain, Read, Reading, SolanaAsset, SolanaChain, SupplyError, adapter_of, escrowed, found,
  if_some, is_one_at, or_token, pool_at, pooled, read_asset, read_evm, read_solana, read_token,
  read_u128, read_u64, skip_option, solana_oft_flow, thrown, vault_of,
}

pub record SupplyRow : Type 0 where
  pub key : String
  pub home : Bool
  pub solana : Bool
  pub supply : ℤ
  pub pool : Option ℕ
  pub locked : Option ℕ

pub record Tally : Type 0 where
  pub rows : List SupplyRow
  pub flow_out : ℕ
  pub flow_in : ℕ
  pub expected : ℤ
  pub adapted : Bool

-- `10n ** BigInt(dec - from)`; a power below zero is a RangeError.
abbrev pub scale : ℕ → ℕ → Result SupplyError ℕ
scale dec from = throw_if (ltb dec from) thrown >> ok (10 ^ (dec - from))

-- supply less what is locked, times the scale
abbrev pub supply_of : ℕ → ℕ → Option ℕ → ℤ
supply_of k raw none = pos (raw * k)
supply_of k raw (some locked) = sub_ℕ (raw * k) (locked * k)

abbrev pub expected_of : ℕ → ℕ → Option ℕ → ℤ → ℤ
expected_of k raw none expected = expected
expected_of k raw (some locked) expected = pos (raw * k)

abbrev pub is_some : Option ℕ → Bool
is_some none = false
is_some (some n) = true

abbrev pub times : ℕ → Option ℕ → Option ℕ
times k none = none
times k (some n) = some (n * k)

-- The rest of a chain's round of the loop, at its scale.
abbrev pub add_reading : Reading → Tally → ℕ → Tally
add_reading r t k = record {
  rows =
      t.rows
      ++ (record {
        key = r.key;
        home = r.home;
        solana = r.solana;
        supply = supply_of k r.raw r.locked;
        pool = times k r.pool;
        locked = times k r.locked;
      }
          ∷ []);
  flow_out = t.flow_out + r.bridged_out * k;
  flow_in = t.flow_in + r.bridged_in * k;
  expected = expected_of k r.raw r.locked t.expected;
  adapted = if is_some r.locked then true else t.adapted;
}

pub tally_one : ℕ → Option Reading → Tally → Result SupplyError Tally
tally_one dec none t = ok t
tally_one dec (some r) t = scale dec r.decimals >>= λ k. ok (add_reading r t k)

-- The two loops, over the chains' readings.
pub tally : ℕ → List (Result SupplyError (Option Reading)) → Tally → Result SupplyError Tally
tally dec [] t = ok t
tally dec (r ∷ rs) t = r >>= λ o. tally_one dec o t >>= tally dec rs

pub record AssetSupply : Type 0 where
  pub decimals : ℕ
  pub rows : List SupplyRow
  pub total : ℤ
  pub in_flight : ℤ
  pub expected : ℤ
  pub adapted : Bool

abbrev pub total_of : List SupplyRow → ℤ
total_of [] = pos 0
total_of (r ∷ rs) = r.supply +ℤ total_of rs

abbrev pub summary : ℕ → Tally → AssetSupply
summary dec t = record {
  decimals = dec;
  rows = t.rows;
  total = total_of t.rows;
  in_flight = sub_ℕ t.flow_out t.flow_in;
  expected = t.expected;
  adapted = t.adapted;
}

-- `Math.max(meta.decimals, ..)`
abbrev pub finest : ℕ → List ℕ → ℕ
finest d [] = d
finest d (n ∷ ns) = max n (finest d ns)

-- One asset: its decimals and those on the Solana chains, and `parseUnits(initialSupply, dec)`.
pub measure_asset :
    ℕ
    → List ℕ
    → (ℕ → Result SupplyError ℤ)
    → Option ℕ
    → List EvmChain
    → List SolanaChain
    → Result SupplyError AssetSupply
measure_asset decimals solana_decimals genesis pool evm solana =
    let dec = finest decimals solana_decimals in
    genesis dec >>= λ expected.
    tally dec (map (read_evm decimals pool) evm ++ map read_solana solana)
      (record { rows = []; flow_out = 0; flow_in = 0; expected = expected; adapted = false })
    >>= λ t. ok (summary dec t)
