-- ===== src/Webhooks/Attempts.antt =====
-- The attempts that deliveries have behind them: infra/webhooks.ts counts each post, and stops at eight.
use Prim.Native.String.{String}
use boundless_stock.Prelude.{
  ℕ, ◌+◌, ◌≤◌, ◌<◌, Bool, true, false, not, ◌&&◌, Option, none, some, List, [], ◌∷◌, All, lookup,
  nat_eq, ltb,
}
use boundless_stock.Webhooks.Events.{World, State, Event, Delivery, Webhook, max_attempts}
use boundless_stock.Webhooks.{Delivered, is_empty_text, hooks}

abbrev pub IsWithinAttempts : {Order : Type 0} → State Order → Type 0
IsWithinAttempts s =
    All (λ d. d.attempts < max_attempts) s.outbox × All (λ d. d.attempts ≤ max_attempts) s.dead

module _ {Order : Type 0} (p : Event Order → Bool) where
  abbrev attempts_if : Bool → ℕ → ℕ
  attempts_if true n = n
  attempts_if false n = 0

  -- The attempts behind the deliveries of the events that pass a test.
  abbrev pub attempts_of : List (Delivery Order) → ℕ
  attempts_of [] = 0
  attempts_of (d ∷ ds) = attempts_if (p d.event) d.attempts + attempts_of ds

module _ {Order : Type 0} (w : World Order) where
  -- The delivery that is i-th in the outbox is posted in the pass: it is due, and its partner has a
  -- webhook whose secret is set.
  abbrev has_secret : Option String → Bool
  has_secret none = false
  has_secret (some s) = not (is_empty_text s)

  abbrev has_hook : Option Webhook → Bool
  has_hook none = false
  has_hook (some hook) = has_secret (w.env hook.secret_env)

  abbrev pub is_posted : ℕ → Delivery Order → Bool
  is_posted i d =
      not (ltb (w.check i) d.next_attempt_at) && has_hook (lookup d.partner_id (hooks w.partners))

  module _ (p : Event Order → Bool) where
    -- How many posts a pass makes of the events that pass a test.
    abbrev pub posts_of : ℕ → List (Delivery Order) → ℕ
    posts_of i [] = 0
    posts_of i (d ∷ ds) = attempts_if p (p d.event && is_posted i d) 1 + posts_of (i + 1) ds

    abbrev total : Delivered Order → ℕ
    total acc = attempts_of p acc.remaining + attempts_of p acc.dead + attempts_of p acc.sent

    abbrev behind : Delivery Order → ℕ
    behind d = attempts_if p (p d.event) d.attempts

    abbrev post_if : Bool → Delivery Order → ℕ
    post_if b d = attempts_if p (p d.event && b) 1

module _ {Order : Type 0} (w : World Order) where
  abbrev IsBounded : Delivered Order → Type 0
  IsBounded acc =
      All (λ (d : Delivery Order). d.attempts < max_attempts) acc.remaining
      × All (λ (d : Delivery Order). d.attempts ≤ max_attempts) acc.dead
