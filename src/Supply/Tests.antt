-- ===== src/Supply/Tests.antt =====
-- A launched asset on two chains with different decimals, of which ten whole units move.
use Prim.Native.String.{String}
use boundless_stock.Prelude.{
  ℕ, ◌≡◌, ◌^◌, refl, arith, true, false, none, some, List, [], ◌∷◌, replicate, ok,
}
use boundless_stock.Prelude.Int.{pos, ◌+ℤ◌}
use boundless_stock.Supply.Readings.{Reading, solana_oft_flow}
use boundless_stock.Supply.{Tally, tally, summary, measure_asset}
use boundless_stock.Supply.Conserved.{
  burn, mint, here, there, done, next, Transfers, Entry, supply-Transfers,
}
use boundless_stock.Supply.Store.{store_bytes, solana_oft_flow-store_bytes}

abbrev pub reading : String → ℕ → ℕ → ℕ → ℕ → Reading
reading key decimals raw out back = record {
  key = key;
  home = true;
  solana = false;
  decimals = decimals;
  raw = raw;
  locked = none;
  pool = none;
  bridged_out = out;
  bridged_in = back;
}

-- In the smallest units: 100 at seven decimals, 5 at six.
abbrev pub before : List Entry
before = ok (some (reading "base" 7 100 0 0)) ∷ ok (some (reading "solana" 6 5 0 0)) ∷ ok none ∷ []

abbrev pub after : List Entry
after = ok (some (reading "base" 7 60 40 0)) ∷ ok (some (reading "solana" 6 9 0 4)) ∷ ok none ∷ []

abbrev pub moves : Transfers before after
moves =
    next
      (here (ok (some (reading "solana" 6 5 0 0)) ∷ ok none ∷ [])
        (burn (reading "base" 7 60 0 0) 40 refl))
      (next
        (there (ok (some (reading "base" 7 60 40 0)))
          (here (ok none ∷ []) (mint (reading "solana" 6 5 0 0) 4 refl)))
        (done after))

abbrev pub start : Tally
start = record { rows = []; flow_out = 0; flow_in = 0; expected = pos 150; adapted = false }

abbrev pub reckoned : Tally
reckoned = record {
  rows =
      record {
        key = "base";
        home = true;
        solana = false;
        supply = pos 100;
        pool = none;
        locked = none;
      }
      ∷ record {
        key = "solana";
        home = true;
        solana = false;
        supply = pos 50;
        pool = none;
        locked = none;
      }
      ∷ [];
  flow_out = 0;
  flow_in = 0;
  expected = pos 150;
  adapted = false;
}

pub measured : tally 7 before start ≡ ok reckoned
unfolding tally boundless_stock.Supply.tally_one
measured = refl

supply-Transfers_example :
    (w : Tally) × ((tally 7 after start ≡ ok w)
      × (((summary 7 reckoned).total +ℤ (summary 7 reckoned).in_flight
            ≡ (summary 7 w).total +ℤ (summary 7 w).in_flight)
          × (pos 150 ≡ (summary 7 w).expected)))
supply-Transfers_example = supply-Transfers 7 before after start reckoned moves measured

abbrev key : List ℕ
key = replicate 32 7

solana_oft_flow-store_bytes_example :
    solana_oft_flow (store_bytes (replicate 157 0) (some key) none 1_000_000 (2 ^ 70) [])
    ≡ ok (1_000_000, 2 ^ 70)
solana_oft_flow-store_bytes_example =
    solana_oft_flow-store_bytes (replicate 157 0) (some key) none 1_000_000 (2 ^ 70) [] refl refl tt
      (omega arith) (omega arith)
