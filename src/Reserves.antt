-- ===== src/Reserves.antt =====
-- Proof of reserves, infra/api/reserves.ts, on the supply that Supply measures. Amounts stay in the
-- asset's smallest unit; writing them as decimal texts is left out.
pub mod Backed
mod Tests
use Prim.Native.String.{String}
use boundless_stock.Prelude.{
  ℕ, suc, ◌*◌, ◌/◌, Bool, true, false, not, Option, none, some, List, [], ◌∷◌, map, ◌==◌,
  if◌then◌else◌, Result, ok, err, ◌>>=◌,
}
use boundless_stock.Prelude.Int.{ℤ, pos, negsuc, sub_ℕ, ◌+ℤ◌, ◌*ℤ◌, ltb_ℤ}
use boundless_stock.Sqrt.{div}
use boundless_stock.Supply.Readings.{SupplyError}
use boundless_stock.Supply.{SupplyRow, AssetSupply}

-- `tokensPerShare` in millionths, rounded; `shares` is `parseUnits(r.shares, decimals)`.
pub record ReserveSource : Type 0 where
  pub shares : ℕ → Result SupplyError ℤ
  pub millionths_per_share : Option ℤ

pub record Backing : Type 0 where
  pub backed : ℤ
  pub coverage_bps : ℤ
  pub fully_backed : Bool

pub record ChainSupply : Type 0 where
  pub key : String
  pub home : Bool
  pub solana : Bool
  pub supply : ℤ

pub record ReservesReport : Type 0 where
  pub issued : ℤ
  pub in_transit : ℤ
  pub chains : List ChainSupply
  pub reconciled : Bool
  pub reserves : Option Backing

abbrev pub equal : ℤ → ℤ → Bool
equal (pos a) (pos b) = a == b
equal (pos a) (negsuc b) = false
equal (negsuc a) (pos b) = false
equal (negsuc a) (negsuc b) = a == b

abbrev pub per_share : Option ℤ → ℤ
per_share none = pos 1_000_000
per_share (some m) = m

abbrev pub coverage : ℤ → ℤ → ℤ
coverage backed issued = if equal issued (pos 0) then pos 0 else div (backed *ℤ pos 10_000) issued

abbrev pub backing_of : ℤ → ℤ → Backing
backing_of backed issued = record {
  backed = backed;
  coverage_bps = coverage backed issued;
  fully_backed = not (ltb_ℤ backed issued);
}

pub backing : ReserveSource → ℕ → ℤ → Result SupplyError Backing
backing r dec issued = r.shares dec >>= λ shares.
    ok (backing_of (div (shares *ℤ per_share r.millionths_per_share) (pos 1_000_000)) issued)

abbrev pub backing_if : Option ReserveSource → ℕ → ℤ → Result SupplyError (Option Backing)
backing_if none dec issued = ok none
backing_if (some r) dec issued = backing r dec issued >>= λ b. ok (some b)

abbrev pub chain_supply : SupplyRow → ChainSupply
chain_supply r = record { key = r.key; home = r.home; solana = r.solana; supply = r.supply }

pub reserves : Option ReserveSource → AssetSupply → Result SupplyError ReservesReport
reserves r s =
    let issued = s.total +ℤ s.in_flight in
    backing_if r s.decimals issued >>= λ b. ok (record {
      issued = issued;
      in_transit = s.in_flight;
      chains = map chain_supply s.rows;
      reconciled = equal issued s.expected;
      reserves = b;
    })
