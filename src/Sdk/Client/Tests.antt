-- ===== src/Sdk/Client/Tests.antt =====
-- An order that is filled at the fourth poll.
use boundless_stock.Prelude.{
  ℕ, ◌+◌, ◌*◌, ◌≡◌, refl, arith, Bool, false, ltb, none, ok, err, some, [],
}
use boundless_stock.Sdk.Client.{api_error, answer, wait_for_order}
use boundless_stock.Sdk.Client.Waited.{IsFirst, wait_for_order-IsFirst}

abbrev state : ℕ → ℕ
state i = i

abbrev is_waiting : ℕ → Bool
is_waiting n = ltb n 3

abbrev clock : ℕ → ℕ
clock i = 100 + i * 10

refused :
    answer {Json = ℕ}
      (λ s. some 5)
      0
      (λ j. none)
      (record { is_ok = false; status = 429; text = [] })
    ≡ err (api_error 429 "http_error" none)
unfolding answer
refused = refl

wait_for_order-IsFirst_example :
    (k : ℕ) × (wait_for_order (λ j. ok (state j)) is_waiting clock 100 50 ≡ ok (state k))
    × IsFirst state is_waiting clock 150 0 k
wait_for_order-IsFirst_example =
    wait_for_order-IsFirst state is_waiting clock 100 50 (λ j. omega arith) (omega arith)
