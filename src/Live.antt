-- ===== src/Live.antt =====
-- What apps/web/src/lib/live.ts makes of the chains' state: amounts as text, the caches in front of the
-- reads, which local deployments are current, and the operator's view.
pub mod Printed
pub mod Operations
mod Tests
use Prim.Native.String.{String}
use boundless_stock.Prelude.{
  ℕ, zero, suc, ◌+◌, ◌-◌, Bool, true, false, not, ◌&&◌, Option, none, some, List, [], ◌∷◌, ◌++◌,
  map, length, take, drop, ltb, leb, ◌==◌, Dict, lookup, insert, string_eq, either, if◌then◌else◌,
  max, Result, ok, err,
}
use boundless_stock.Prelude.Int.{ℤ, pos, negsuc, pos_part, neg_part}
use boundless_stock.Sdk.{Text, digits, pad_start, drop_last}

-- `s.replace(/0+$/, "")`
unfoldable pub drop_zeros : Text → Text
drop_zeros [] = []
drop_zeros (c ∷ s) = drop_last (c == b'0') c (drop_zeros s)

abbrev pub point : Text → Text
point [] = []
point (c ∷ s) = b'.' ∷ c ∷ s

abbrev pub minus : ℤ → Text → Text
minus (pos n) s = s
minus (negsuc n) s = b'-' ∷ s

abbrev pub magnitude : ℤ → ℕ
magnitude v = pos_part v + neg_part v

-- A number of the smallest units, with the point before the last `decimals` digits.
pub format : ℕ → ℤ → Text
format decimals v =
    let s = pad_start (decimals + 1) (digits (magnitude v)) in
    minus v (take (length s - decimals) s ++ point (drop_zeros (drop (length s - decimals) s)))

pub data Availability : Type 0 where
  live : Availability
  no_config not_running : Availability
  unreachable : String → Availability

-- Local chains are current only if the deployment is not older than their start; `none` for a file that
-- is not there, and for a date that does not parse, which is never less.
abbrev pub is_older : Option ℕ → ℕ → Bool
is_older none start = false
is_older (some t) start = ltb t start

abbrev pub with_solana : Bool → Option ℕ → Option ℕ → ℕ → Availability
with_solana false solana updated start = if is_older updated start then not_running else live
with_solana true none updated start = not_running
with_solana true (some t) updated start =
    if is_older updated (max start t) then not_running else live

abbrev pub with_evm : Option ℕ → Bool → Option ℕ → Option ℕ → Availability
with_evm none has_solana solana updated = not_running
with_evm (some start) has_solana solana updated = with_solana has_solana solana updated start

-- Whether the manifest's environment is local, whether a chain is Solana's, when the two kinds of
-- chains were started, and when the manifest was written.
pub current_on_local_chains : Bool → Bool → Option ℕ → Option ℕ → Option ℕ → Availability
current_on_local_chains false has_solana evm solana updated = live
current_on_local_chains true has_solana evm solana updated = with_evm evm has_solana solana updated

-- A manifest and a configuration, where both are found, and what reading the chains gives.
pub record Context (Value : Type 0) : Type 0 where
  pub has_manifest : Bool
  pub has_config : Bool
  pub current : Availability
  pub read : Result String Value

abbrev pub availability_of : {Value : Type 0} → Context Value → Availability
availability_of c = if c.has_manifest && c.has_config then c.current else no_config

abbrev pub is_live : Availability → Bool
is_live live = true
is_live _ = false

-- What was read, or else what is stored, with why it could not be read.
abbrev pub read_or : {Value : Type 0} → Value → Result String Value → Availability × Value
read_or stored (ok v) = (live, v)
read_or stored (err reason) = (unreachable reason, stored)

-- `readRequests` with the stored history, and `readLive` with nothing.
pub read_view : {Value : Type 0} → Context Value → Value → Availability × Value
read_view c stored =
    if is_live (availability_of c) then read_or stored c.read else (availability_of c, stored)

-- When each name was read, and what.
abbrev pub Cache : Type 0 → Type 0
Cache Value = Dict String (ℕ × Value)

module _ {Value : Type 0} where
  abbrev pub is_fresh : ℕ → ℕ → Option (ℕ × Value) → Bool
  is_fresh ttl now none = false
  is_fresh ttl now (some (at, v)) = ltb now (at + ttl)

  abbrev pub cached_or : Value → Option (ℕ × Value) → Value
  cached_or read none = read
  cached_or read (some (at, v)) = v

  -- `getLive` and `getRequests`: the time of the look-up and of the entry, the name, and what a read
  -- begun now gives.
  pub get_cached : ℕ → ℕ → ℕ → String → Value → Cache Value → Value × Cache Value
  get_cached ttl now after name read cache =
      if is_fresh ttl now (lookup name cache)
      then (cached_or read (lookup name cache), cache)
      else (read, insert name (after, read) cache)
