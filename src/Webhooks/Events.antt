-- ===== src/Webhooks/Events.antt =====
-- The states, events and deliveries of infra/webhooks.ts, and what a pass finds around it.
use Prim.Native.String.{String}
use text.Mathlib.Text.{◌==◌ as str_eq}
use boundless_stock.Prelude.{
  ℕ, Bool, true, false, not, ◌&&◌, Option, none, some, List, if◌then◌else◌, Dict, nat_eq,
}
use boundless_stock.History.Records.{HistoryRecord, RequestStatus, Key, key_eq}

abbrev pub max_attempts : ℕ
max_attempts = 8

abbrev pub base_delay_ms : ℕ
base_delay_ms = 5_000

-- What `stateOf` returns.
pub data OrderState : Type 0 where
  pending filled refunded stranded cancelled recovered : OrderState

pub data EventType : Type 0 where
  order_filled order_refunded order_stranded order_recovered order_cancelled : EventType

-- `r.strandedHeld && r.strandedHeld !== "0"`: a figure that was never read counts as none held.
abbrev pub holds : Option String → Bool
holds none = false
holds (some s) = not (str_eq s "") && not (str_eq s "0")

unfoldable pub state_of : HistoryRecord → OrderState
state_of r = elim r.status [
  | RequestStatus.pending ↦ pending
  | RequestStatus.filled ↦ filled
  | RequestStatus.refunded ↦ refunded
  | RequestStatus.stranded ↦ if holds r.stranded_held then stranded else recovered
  | RequestStatus.cancelled ↦ cancelled
]

-- The table `EVENT`; a pending order has nothing to announce.
unfoldable pub event_of : OrderState → Option EventType
event_of pending = none
event_of filled = some order_filled
event_of refunded = some order_refunded
event_of stranded = some order_stranded
event_of cancelled = some order_cancelled
event_of recovered = some order_recovered

unfoldable pub same_state : OrderState → OrderState → Bool
same_state pending pending = true
same_state filled filled = true
same_state refunded refunded = true
same_state stranded stranded = true
same_state cancelled cancelled = true
same_state recovered recovered = true
same_state _ _ = false

pub record Webhook : Type 0 where
  pub url : String
  pub secret_env : String

pub record PartnerConfig : Type 0 where
  pub id : ℕ
  pub webhook : Option Webhook

pub data Failure : Type 0 where
  secret_not_set no_webhook : Failure
  http : ℕ → Failure
  threw : String → Failure

-- How a POST ends: a 2xx answer, another answer, or an exception.
pub data Reply : Type 0 where
  accepted : Reply
  refused : Failure → Reply

-- The id's parts: `${cfg.name}:${stamp}:${r.key}:${now}`.
pub record EventId : Type 0 where
  pub deployment : String
  pub stamp : String
  pub key : Key
  pub state : OrderState

pub record Event (Order : Type 0) : Type 0 where
  pub id : EventId
  pub type : EventType
  pub created_at : String
  pub order : Order

pub record Delivery (Order : Type 0) : Type 0 where
  pub event : Event Order
  pub partner_id : ℕ
  pub attempts : ℕ
  pub next_attempt_at : ℕ
  pub last_error : Option Failure

pub record State (Order : Type 0) : Type 0 where
  -- The deployment instance that the state is for.
  pub instance_id : Option String
  -- The last state each order was seen in.
  pub seen : Dict Key OrderState
  pub outbox : List (Delivery Order)
  pub dead : List (Delivery Order)

-- What a pass finds around it. `check i` and `after i` are the clock as it stands when the i-th
-- delivery of the outbox is looked at and when its attempt has failed.
pub record World (Order : Type 0) : Type 0 where
  pub deployment : String
  pub instance_id : String
  pub stamp : String
  pub partners : List PartnerConfig
  -- `none` is a read that throws, which ends the pass.
  pub get_order : String → ℕ → Option Order
  pub now : Key → String
  pub check : ℕ → ℕ
  pub after : ℕ → ℕ
  pub env : String → Option String
  pub post : ℕ → String → String → Event Order → Reply
