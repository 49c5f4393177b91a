-- ===== src/Webhooks.antt =====
-- Webhook deliveries of infra/webhooks.ts: one pass detects which orders changed their state, queues
-- an event for each, and attempts every delivery that is due.
-- An order's details, the clock, the environment and the partner's replies are arguments.
pub mod Events
pub mod Conserved
pub mod Attempts
pub mod Detect
mod Tests
use Prim.Native.String.{String}
use text.Mathlib.Text.{◌==◌ as str_eq}
use boundless_stock.Prelude.{
  ℕ, zero, suc, ◌+◌, ◌-◌, ◌*◌, ◌^◌, Bool, true, false, not, ◌&&◌, Option, none, some, List, [], ◌∷◌,
  ◌++◌, ltb, leb, if◌then◌else◌, Dict, lookup, insert, from_list_onto, nat_eq, length,
}
use boundless_stock.History.{same_instance}
use boundless_stock.History.Records.{HistoryRecord, RequestStatus, Key, key_eq}
use boundless_stock.Webhooks.Events.{
  Delivery, Event, EventId, EventType, Failure, OrderState, PartnerConfig, Reply, State, Webhook,
  World, accepted, base_delay_ms, cancelled, event_of, filled, holds, http, max_attempts,
  no_webhook, order_cancelled, order_filled, order_recovered, order_refunded, order_stranded,
  pending, recovered, refunded, refused, same_state, secret_not_set, state_of, stranded, threw,
}

-- The partners that have a webhook, by id.
abbrev pub hook_entries : List PartnerConfig → List (ℕ × Webhook)
hook_entries [] = []
hook_entries (p ∷ ps) = elim p.webhook [
  | none ↦ hook_entries ps
  | some w ↦ (p.id, w) ∷ hook_entries ps
]

pub hooks : List PartnerConfig → Dict ℕ Webhook
hooks ps = from_list_onto [] (hook_entries ps)

pub record Detection (Order : Type 0) : Type 0 where
  pub seen : Dict Key OrderState
  pub outbox : List (Delivery Order)
  pub queued : ℕ

abbrev pub was_seen_as : Option OrderState → OrderState → Bool
was_seen_as none now = false
was_seen_as (some s) now = same_state s now

module _ {Order : Type 0} (w : World Order) where
  abbrev pub new_delivery : HistoryRecord → ℕ → EventType → Order → Delivery Order
  new_delivery r partner type order = record {
    event = record {
      id = record { deployment = w.deployment; stamp = w.stamp; key = r.key; state = state_of r };
      type = type;
      created_at = w.now r.key;
      order = order;
    };
    partner_id = partner;
    attempts = 0;
    next_attempt_at = 0;
    last_error = none;
  }

  -- A state that was not seen before: it is noted, and announced if there is something to announce.
  pub announce :
      HistoryRecord
      → ℕ
      → Option EventType
      → Option Order
      → Detection Order
      → Option (Detection Order)
  announce r partner none order d = some (record d { seen = insert r.key (state_of r) d.seen })
  announce r partner (some type) none d = none
  announce r partner (some type) (some order) d = some (record {
    seen = insert r.key (state_of r) d.seen;
    outbox = d.outbox ++ (new_delivery r partner type order ∷ []);
    queued = d.queued + 1;
  })

  pub detect_for : HistoryRecord → Option ℕ → Detection Order → Option (Detection Order)
  detect_for r none d = some d
  detect_for r (some partner) d = elim (lookup partner (hooks w.partners)) [
    | none ↦ some d
    | some hook ↦
        if was_seen_as (lookup r.key d.seen) (state_of r)
        then some d
        else announce r partner (event_of (state_of r)) (w.get_order r.chain_key r.id) d
  ]

  pub detect : List HistoryRecord → Detection Order → Option (Detection Order)
  detect [] d = some d
  detect (r ∷ rs) d = elim (detect_for r r.partner_id d) [ none ↦ none | some d' ↦ detect rs d' ]

-- What the delivery loop has done so far; `sent` lists the deliveries that it logs as accepted.
pub record Delivered (Order : Type 0) : Type 0 where
  pub remaining : List (Delivery Order)
  pub dead : List (Delivery Order)
  pub sent : List (Delivery Order)
  pub failed : ℕ

abbrev pub is_empty_text : String → Bool
is_empty_text s = str_eq s ""

module _ {Order : Type 0} (w : World Order) where
  -- A delivery that can never be made.
  abbrev pub drop_dead : Failure → Delivery Order → Delivered Order → Delivered Order
  drop_dead f d acc = record acc {
    dead = acc.dead ++ (record d { last_error = some f } ∷ []);
    failed = acc.failed + 1;
  }

  -- `d` has its attempt counted already.
  pub after_post : ℕ → Delivery Order → Reply → Delivered Order → Delivered Order
  after_post i d accepted acc = record acc { sent = acc.sent ++ (d ∷ []) }
  after_post i d (refused f) acc =
      if leb max_attempts d.attempts then drop_dead f d acc else record acc {
        remaining =
            acc.remaining
            ++ (record d {
              next_attempt_at = w.after i + base_delay_ms * 2 ^ (d.attempts - 1);
              last_error = some f;
            }
                ∷ []);
        failed = acc.failed + 1;
      }

  -- The secret, where the environment has one that is not empty.
  pub sign_and_post :
      ℕ → Delivery Order → Webhook → Option String → Delivered Order → Delivered Order
  sign_and_post i d hook none acc = drop_dead secret_not_set d acc
  sign_and_post i d hook (some secret) acc =
      if is_empty_text secret
      then drop_dead secret_not_set d acc
      else after_post i (record d { attempts = d.attempts + 1 }) (w.post i hook.url secret d.event)
          acc

  pub attempt : ℕ → Delivery Order → Option Webhook → Delivered Order → Delivered Order
  attempt i d none acc = drop_dead no_webhook d acc
  attempt i d (some hook) acc = sign_and_post i d hook (w.env hook.secret_env) acc

  pub deliver_one : ℕ → Delivery Order → Delivered Order → Delivered Order
  deliver_one i d acc =
      if ltb (w.check i) d.next_attempt_at
      then record acc { remaining = acc.remaining ++ (d ∷ []) }
      else attempt i d (lookup d.partner_id (hooks w.partners)) acc

  pub deliver : ℕ → List (Delivery Order) → Delivered Order → Delivered Order
  deliver i [] acc = acc
  deliver i (d ∷ ds) acc = deliver (i + 1) ds (deliver_one i d acc)

  -- The state that a pass works on: of another instance, only what is still owed is kept.
  pub load : State Order → State Order
  load s =
      if same_instance s.instance_id w.instance_id
      then s
      else record s { instance_id = some w.instance_id; seen = [] }

pub record Summary : Type 0 where
  pub queued : ℕ
  pub delivered : ℕ
  pub failed : ℕ

module _ {Order : Type 0} (w : World Order) where
  -- The deliveries of a pass, once its events are queued.
  pub finish : State Order → Detection Order → State Order × Summary
  finish s d =
      let done =
        deliver w 0 d.outbox (record { remaining = []; dead = s.dead; sent = []; failed = 0 }) in
      (
        record s { seen = d.seen; outbox = done.remaining; dead = done.dead },
        record { queued = d.queued; delivered = length done.sent; failed = done.failed },
      )

  -- `webhookPass` over the history that a sync returned; `none` leaves the stored state as it was.
  pub webhook_pass : List HistoryRecord → State Order → Option (State Order × Summary)
  unfolding finish
  webhook_pass records stored =
      let s = load w stored in
      elim (detect w records (record { seen = s.seen; outbox = s.outbox; queued = 0 })) [
        | none ↦ none
        | some d ↦ some (finish s d)
      ]
