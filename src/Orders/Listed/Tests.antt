-- ===== src/Orders/Listed/Tests.antt =====
-- Two chains' orders in a history, of which a user's newest is listed.
use Prim.Native.String.{String}
use boundless_stock.Prelude.{ℕ, ◌≡◌, refl, none, some, List, [], ◌∷◌, max, take, Result, ok}
use boundless_stock.History.Records.{HistoryRecord, Vm, evm, buy, filled, pending, RequestStatus}
use boundless_stock.Orders.Build.Data.{OrderError}
use boundless_stock.Orders.Listed.{Tokens, OrderQuery, list_orders, limit_of}
use boundless_stock.Orders.Listed.Asked.{list_orders-asked, orders_for, asked}

abbrev lower : String → String
lower s = s

abbrev parse_units : String → ℕ → Result OrderError ℕ
parse_units s n = ok n

abbrev terms : String → Vm → Result OrderError Tokens
terms c vm = ok (record {
  base = record { address = "stock"; decimals = 18 };
  quote = record { address = "usd"; decimals = 6 };
})

abbrev chain_vm : String → Vm
chain_vm c = evm

abbrev record_of : String → ℕ → String → RequestStatus → HistoryRecord
record_of chain id user status = record {
  key = (chain, id);
  chain_key = chain;
  chain_name = chain;
  vm = evm;
  id = id;
  user = user;
  direction = buy;
  token_in = "usd";
  token_out = "stock";
  amount_in = "1";
  min_amount_out = "2";
  amount_out = "3";
  status = status;
  failure_reason = 0;
  lz_nonce = 0;
  created_at = 5;
  settled_at = 6;
  stranded_held = none;
  partner_id = none;
}

abbrev history : List HistoryRecord
history =
    record_of "arc" 7 "0xAB" filled
    ∷ record_of "base" 3 "0xAB" pending
    ∷ record_of "arc" 6 "0xCD" filled
    ∷ record_of "arc" 5 "0xAB" filled
    ∷ []

abbrev query : OrderQuery
query = record { user = "0xAB"; chain = some "arc"; status = some "filled"; limit = some 2 }

-- The second on the chain of another, and the third of another user, are passed over.
asked_orders :
    asked lower parse_units terms chain_vm query history
    ≡ record_of "arc" 7 "0xAB" filled ∷ record_of "arc" 5 "0xAB" filled ∷ []
unfolding boundless_stock.Orders.Listed.matches
asked_orders = refl

list_orders-asked_example :
    list_orders lower parse_units terms history query
    ≡ orders_for lower parse_units terms chain_vm
        (take (max 1 2) (asked lower parse_units terms chain_vm query history))
list_orders-asked_example =
    list_orders-asked lower parse_units terms chain_vm query history
      (refl, (refl, (refl, (refl, tt))))
