-- ===== src/Reserves/Tests.antt =====
-- Reports on the supply of the two chains: 150 units against 200 shares.
use boundless_stock.Prelude.{
  ℕ, ◌≡◌, ◌↔◌, refl, Bool, true, false, Option, none, some, List, [], ◌∷◌, Result, ok, err,
}
use boundless_stock.Prelude.Int.{ℤ, pos, ◌≤ℤ◌}
use boundless_stock.Supply.{Tally, tally, summary}
use boundless_stock.Supply.Tests.{before, after, moves, start, reckoned, measured}
use boundless_stock.Reserves.{ReserveSource, Backing, ReservesReport, backing, reserves}
use boundless_stock.Reserves.Backed.{SameVerdict, reserves-Transfers}

abbrev shares : ReserveSource
shares = record { shares = λ dec. ok (pos 200); millionths_per_share = none }

abbrev covered : Backing
covered = record { backed = pos 200; coverage_bps = pos 13_333; fully_backed = true }

backing_150 : backing shares 7 (pos 150) ≡ ok covered
unfolding backing boundless_stock.Prelude.Int.◌*ℤ◌
backing_150 = refl

-- Nothing issued: the coverage is 0, and the report still says fully backed.
nothing_issued :
    backing shares 7 (pos 0)
    ≡ ok (record { backed = pos 200; coverage_bps = pos 0; fully_backed = true })
unfolding backing boundless_stock.Prelude.Int.◌*ℤ◌
nothing_issued = refl

abbrev report : ReservesReport
report = record {
  issued = pos 150;
  in_transit = pos 0;
  chains =
      record { key = "base"; home = true; solana = false; supply = pos 100 }
      ∷ record { key = "solana"; home = true; solana = false; supply = pos 50 }
      ∷ [];
  reconciled = true;
  reserves = some covered;
}

reported : reserves (some shares) (summary 7 reckoned) ≡ ok report
unfolding reserves backing boundless_stock.Prelude.Int.◌*ℤ◌ boundless_stock.Prelude.Int.◌+ℤ◌
reported = refl

reserves-Transfers_example :
    (w : Tally) × ((tally 7 after start ≡ ok w)
      × ((b : ReservesReport) × ((reserves (some shares) (summary 7 w) ≡ ok b)
            × SameVerdict report b)))
reserves-Transfers_example =
    reserves-Transfers (some shares) 7 before after start reckoned report moves measured reported
