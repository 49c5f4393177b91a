-- ===== src/Live/Tests.antt =====
-- A debt of amounts and three orders of a live deployment.
use boundless_stock.Prelude.{
  ℕ, ◌+◌, ◌*◌, ◌^◌, ◌<◌, ◌≡◌, refl, true, none, some, Option, List, [], ◌∷◌, ◌++◌, length, count,
  ◌&&◌, nat_eq, not,
}
use Prim.Native.String.{String}
use boundless_stock.Prelude.Int.{pos, negsuc, ltb_ℤ}
use boundless_stock.History.Records.{
  HistoryRecord, RequestStatus, pending, filled, stranded, evm, buy,
}
use boundless_stock.Quote.{decimal, all_digits}
use boundless_stock.Sdk.{Text, digits_from, digits}
use boundless_stock.Live.{
  point, minus, magnitude, format, drop_zeros, live, not_running, current_on_local_chains,
}
use boundless_stock.Live.Printed.{format-decimal}
use boundless_stock.Live.Operations.{RequestsView, get_operations, is_old}
use boundless_stock.Live.Operations.Ordered.{IsOldestFirst}
use boundless_stock.Live.Operations.Sorted.{count_shown, IsSortedOut, is_open, get_operations-once}

prints : format 3 (negsuc 124) ≡ b'-' ∷ b'0' ∷ b'.' ∷ b'1' ∷ b'2' ∷ b'5' ∷ []
unfolding format digits digits_from drop_zeros
prints = refl

restarted : current_on_local_chains true true (some 5) (some 9) (some 7) ≡ not_running
unfolding current_on_local_chains
restarted = refl

format-decimal_example :
    (w : Text) × (z : Text) × (k : ℕ) × (format 3 (negsuc 124) ≡ minus (negsuc 124) (w ++ point z))
    × (all_digits (w ++ z) ≡ true)
    × (0 < length w)
    × (length z + k ≡ 3)
    × (decimal 0 w * 10 ^ 3 + decimal 0 z * 10 ^ k ≡ magnitude (negsuc 124))
format-decimal_example = format-decimal 3 (negsuc 124)

abbrev record_of : ℕ → RequestStatus → ℕ → Option String → HistoryRecord
record_of id status created held = record {
  key = ("arc", id);
  chain_key = "arc";
  chain_name = "Arc";
  vm = evm;
  id = id;
  user = "0x01";
  direction = buy;
  token_in = "0x02";
  token_out = "0x03";
  amount_in = "5";
  min_amount_out = "4";
  amount_out = "0";
  status = status;
  failure_reason = 0;
  lz_nonce = 1;
  created_at = created;
  settled_at = 0;
  stranded_held = held;
  partner_id = none;
}

abbrev views : List RequestsView
views =
    record {
      deployment = "stock";
      availability = live;
      records =
          record_of 1 pending 900 none
          ∷ record_of 2 filled 100 none
          ∷ record_of 3 stranded 50 (some "0")
          ∷ record_of 4 pending 100 none
          ∷ [];
    }
    ∷ []

get_operations-once_example :
    (count_shown 1000 (λ i. is_open i && is_old i) views
      ≡ count is_old (get_operations 1000 views).waiting
        + count is_old (get_operations 1000 views).held
        + count is_old (get_operations 1000 views).recovered
        + count is_old (get_operations 1000 views).called_off)
    × IsSortedOut (get_operations 1000 views)
    × IsOldestFirst (get_operations 1000 views).waiting
    × (count is_old (get_operations 1000 views).attention
        ≡ count
            (λ i. not (ltb_ℤ i.age_seconds (pos 600)) && is_old i)
            (get_operations 1000 views).waiting)
get_operations-once_example = get_operations-once 1000 views is_old
