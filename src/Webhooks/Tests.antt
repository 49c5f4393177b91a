-- ===== src/Webhooks/Tests.antt =====
-- A webhook pass at concrete inputs.
use boundless_stock.Prelude.{
  ℕ, ◌+◌, ◌≡◌, refl, Bool, true, none, some, List, [], ◌∷◌, ◌++◌, length, nat_eq,
}
use boundless_stock.History.Records.{HistoryRecord, RequestStatus, evm, buy, key_test, key_eq}
use boundless_stock.History.Sorted.{IsDistinct, has_key}
use boundless_stock.Webhooks.Events.{
  World, State, Event, OrderState, Webhook, refused, http, state_of, event_of, same_state,
  order_filled, filled,
}
use boundless_stock.Webhooks.{
  Detection, hooks, detect, detect_for, announce, deliver, deliver_one, finish, new_delivery,
  after_post, attempt, sign_and_post,
}
use boundless_stock.Webhooks.Conserved.{finish-events, events_of, delivered_from}
use boundless_stock.Webhooks.Detect.{ids, announced, detect-outbox}

abbrev hook : Webhook
hook = record { url = "https://p.example"; secret_env = "P_SECRET" }

-- Orders are numbers here; the partner answers 503 to every POST.
abbrev world : World ℕ
world = record {
  deployment = "localnet";
  instance_id = "2026";
  stamp = "s";
  partners = record { id = 7; webhook = some hook } ∷ [];
  get_order = λ chain id. some id;
  now = λ k. "t";
  check = λ i. 10_000;
  after = λ i. 10_500;
  env = λ name. some "secret";
  post = λ i url secret event. refused (http 503);
}

abbrev order_in : RequestStatus → ℕ → HistoryRecord
order_in status id = record {
  key = ("base", id);
  chain_key = "base";
  chain_name = "Base";
  vm = evm;
  id = id;
  user = "0xabc";
  direction = buy;
  token_in = "USDC";
  token_out = "tAAPL";
  amount_in = "100";
  min_amount_out = "90";
  amount_out = "95";
  status = status;
  failure_reason = 0;
  lz_nonce = 1;
  created_at = 1_001;
  settled_at = 1_100;
  stranded_held = none;
  partner_id = some 7;
}

abbrev orders : List HistoryRecord
orders = order_in RequestStatus.filled 1 ∷ order_in RequestStatus.pending 2 ∷ []

abbrev nothing_seen : Detection ℕ
nothing_seen = record { seen = []; outbox = []; queued = 0 }

abbrev queued_one : Detection ℕ
queued_one = record {
  seen = (("base", 1), filled) ∷ (("base", 2), OrderState.pending) ∷ [];
  outbox = new_delivery world (order_in RequestStatus.filled 1) 7 order_filled 1 ∷ [];
  queued = 1;
}

detect-orders : detect world orders nothing_seen ≡ some queued_one
unfolding detect detect_for announce hooks state_of event_of same_state key_test
detect-orders = refl

orders-IsDistinct : IsDistinct orders
unfolding has_key key_test
orders-IsDistinct = (refl, (refl, tt))

detect-outbox_example : ids world queued_one.outbox ≡ ids world [] ++ announced world [] orders
detect-outbox_example = detect-outbox world orders nothing_seen orders-IsDistinct detect-orders

abbrev empty_state : State ℕ
empty_state = record { instance_id = some "2026"; seen = []; outbox = []; dead = [] }

abbrev every : Event ℕ → Bool
every e = true

finish-events_example :
    (events_of every (finish world empty_state queued_one).0.outbox
        + events_of every (finish world empty_state queued_one).0.dead
        + events_of every (delivered_from world empty_state queued_one).sent
      ≡ events_of every [] + events_of every queued_one.outbox)
    × ((finish world empty_state queued_one).1.delivered
        ≡ length (delivered_from world empty_state queued_one).sent)
finish-events_example = finish-events world every empty_state queued_one

-- The refused delivery waits five seconds from the failure, with one attempt counted.
waits : (finish world empty_state queued_one).1 ≡ record { queued = 1; delivered = 0; failed = 1 }
unfolding finish deliver deliver_one attempt sign_and_post after_post hooks
waits = refl

abbrev stuck_order : HistoryRecord
stuck_order = order_in RequestStatus.stranded 3
