-- ===== src/Reserves/Backed.antt =====
-- What the verdicts of infra/api/reserves.ts mean.
use boundless_stock.Prelude.{
  ℕ, suc, ◌+◌, ◌*◌, ◌/◌, ◌≤◌, ◌<◌, ◌≡◌, ◌↔◌, ◌⊎◌, inl, inr, refl, sym, arith, true, Option, List,
  map, ok, bind-ok, ok-same,
}
use native.Mathlib.Nat.{mul-div-le, mul-le-mul_left}
use boundless_stock.Prelude.Int.{ℤ, pos, negsuc, ◌+ℤ◌, ◌*ℤ◌, ◌≤ℤ◌}
use boundless_stock.Supply.{Tally, tally, summary}
use boundless_stock.Supply.Conserved.{Transfers, Entry, supply-Transfers}
use boundless_stock.Reserves.{
  ReserveSource, Backing, ReservesReport, equal, backing_of, backing, backing_if, chain_supply,
  reserves,
}

lt_or_le : (a b : ℕ) → (a < b) ⊎ (b ≤ a)
lt_or_le a b = ground arith

next_le : (a b : ℕ) → a < b → a + 1 ≤ b
next_le a b h = omega arith

quotient_above : (v n : ℕ) → v < suc n * (v / suc n + 1)
quotient_above v n = omega arith

full_quotient : (b n q : ℕ) → suc n * q ≤ b * 10_000 → 10_000 ≤ q → suc n ≤ b
full_quotient b n q h full = omega (arith, h, mul-le-mul_left (suc n) full)

quotient_full : (b n q : ℕ) → b * 10_000 < suc n * (q + 1) → suc n ≤ b → 10_000 ≤ q
quotient_full b n q h full = elim (lt_or_le q 10_000) [
  | inl small ↦ omega (arith, h, mul-le-mul_left (suc n) (next_le q 10_000 small))
  | inr large ↦ large
]

quotient_iff : (b n : ℕ) → (10_000 ≤ b * 10_000 / suc n) ↔ (suc n ≤ b)
quotient_iff b n = (
  full_quotient b n (b * 10_000 / suc n) (mul-div-le (b * 10_000) (suc n)),
  quotient_full b n (b * 10_000 / suc n) (quotient_above (b * 10_000) n),
)

pos_scaled : (b : ℕ) → pos b *ℤ pos 10_000 ≡ pos (b * 10_000)
unfolding ◌*ℤ◌
pos_scaled b = ground arith

negsuc_scaled : (b : ℕ) → negsuc b *ℤ pos 10_000 ≡ negsuc (b * 10_000 + 9_999)
unfolding ◌*ℤ◌
negsuc_scaled b = ground arith

fully_iff :
    (backed : ℤ) (n : ℕ)
    → ((backing_of backed (pos (suc n))).fully_backed ≡ true)
      ↔ (pos 10_000 ≤ℤ (backing_of backed (pos (suc n))).coverage_bps)
fully_iff (pos b) n = rw (pos_scaled b) (ground (arith, quotient_iff b n))
fully_iff (negsuc b) n = rw (negsuc_scaled b) (ground arith)

-- Of a positive supply, the report says that it is fully backed exactly where its coverage is at
-- least 10000 basis points.
pub backing-fully_backed_iff :
    (r : ReserveSource) (dec n : ℕ) (b : Backing)
    → backing r dec (pos (suc n)) ≡ ok b
    → (b.fully_backed ≡ true) ↔ (pos 10_000 ≤ℤ b.coverage_bps)
unfolding backing
backing-fully_backed_iff r dec n b p = bind-ok (r.shares dec) p λ shares _ p.
    ok-same (λ b. (b.fully_backed ≡ true) ↔ (pos 10_000 ≤ℤ b.coverage_bps)) _ b (fully_iff _ n) p

abbrev pub SameVerdict : ReservesReport → ReservesReport → Type 0
SameVerdict a b = (a.issued ≡ b.issued) × (a.reconciled ≡ b.reconciled) × (a.reserves ≡ b.reserves)

-- Transfers between the chains, finished or not, change neither what a report says is issued nor
-- whether it is reconciled and backed.
pub reserves-Transfers :
    (r : Option ReserveSource) (dec : ℕ) (rs us : List Entry) (t v : Tally) (a : ReservesReport)
    → Transfers rs us
    → tally dec rs t ≡ ok v
    → reserves r (summary dec v) ≡ ok a
    → (w : Tally) × ((tally dec us t ≡ ok w)
        × ((b : ReservesReport) × ((reserves r (summary dec w) ≡ ok b) × SameVerdict a b)))
unfolding reserves
reserves-Transfers r dec rs us t v a ms p q =
    let (w, (measured, (issued, expected))) = supply-Transfers dec rs us t v ms p in
    (
      w,
      (
        measured,
        bind-ok (backing_if r dec ((summary dec v).total +ℤ (summary dec v).in_flight)) q
            λ b found q.
              ok-same
                (λ a.
                  (c : ReservesReport) × ((reserves r (summary dec w) ≡ ok c) × SameVerdict a c))
                _ a
                ((
                  record {
                    issued = (summary dec w).total +ℤ (summary dec w).in_flight;
                    in_transit = (summary dec w).in_flight;
                    chains = map chain_supply w.rows;
                    reconciled =
                        equal ((summary dec w).total +ℤ (summary dec w).in_flight) w.expected;
                    reserves = b;
                  },
                  (rw (sym issued, found) refl, (issued, rw (issued, expected) refl, refl)),
                ))
                q,
      ),
    )
