-- ===== src/Webhooks/Conserved.antt =====
-- The delivery loop: nothing is lost and nothing is made up.
use Prim.Native.String.{String}
use boundless_stock.Prelude.{
  ℕ, ◌+◌, ◌≡◌, refl, inl, inr, arith, Bool-cases, Bool, Option, none, some, List, [], ◌∷◌, ◌++◌,
  length, count, count-append, lookup, nat_eq, leb, ltb,
}
use boundless_stock.Webhooks.Events.{
  World, State, Event, Delivery, Webhook, Reply, Failure, accepted, refused, max_attempts,
  no_webhook, secret_not_set,
}
use boundless_stock.Webhooks.{
  Delivered, deliver, deliver_one, attempt, after_post, drop_dead, sign_and_post, is_empty_text,
  hooks, finish, Detection,
}

-- How many deliveries are of the events that pass a test.
abbrev pub events_of : {Order : Type 0} → (Event Order → Bool) → List (Delivery Order) → ℕ
events_of p = count (λ d. p d.event)

-- What the deliveries of a pass end with.
abbrev pub delivered_from :
    {Order : Type 0} → World Order → State Order → Detection Order → Delivered Order
delivered_from w s d =
    deliver w 0 d.outbox (record { remaining = []; dead = s.dead; sent = []; failed = 0 })

module _ {Order : Type 0} (w : World Order) (p : Event Order → Bool) where
  abbrev events : List (Delivery Order) → ℕ
  events = events_of p

  abbrev total : Delivered Order → ℕ
  total acc = events acc.remaining + events acc.dead + events acc.sent

  abbrev one : Delivery Order → ℕ
  one d = events (d ∷ [])

  events-snoc :
      (ds : List (Delivery Order)) (d : Delivery Order)
      → events (ds ++ (d ∷ [])) ≡ events ds + one d
  events-snoc ds d = count-append (λ d. p d.event) ds (d ∷ [])

  drop_dead-total :
      (f : Failure) (d : Delivery Order) (acc : Delivered Order)
      → total (drop_dead w f d acc) ≡ total acc + one d
  drop_dead-total f d acc = omega (arith, events-snoc acc.dead (record d { last_error = some f }))

  after_post-total :
      (i : ℕ) (d : Delivery Order) (r : Reply) (acc : Delivered Order)
      → total (after_post w i d r acc) ≡ total acc + one d
  unfolding after_post
  after_post-total i d accepted acc = omega (arith, events-snoc acc.sent d)
  after_post-total i d (refused f) acc = elim (Bool-cases (leb max_attempts d.attempts)) [
    | inl e ↦ rw e (drop_dead-total f d acc)
    | inr e ↦ rw e (omega (arith, events-snoc acc.remaining))
  ]

  sign_and_post-total :
      (i : ℕ) (d : Delivery Order) (hook : Webhook) (secret : Option String) (acc : Delivered Order)
      → total (sign_and_post w i d hook secret acc) ≡ total acc + one d
  unfolding sign_and_post
  sign_and_post-total i d hook none acc = drop_dead-total secret_not_set d acc
  sign_and_post-total i d hook (some s) acc = elim (Bool-cases (is_empty_text s)) [
    | inl e ↦ rw e (drop_dead-total secret_not_set d acc)
    | inr e ↦ rw e (after_post-total i (record d { attempts = d.attempts + 1 }) _ acc)
  ]

  attempt-total :
      (i : ℕ) (d : Delivery Order) (hook : Option Webhook) (acc : Delivered Order)
      → total (attempt w i d hook acc) ≡ total acc + one d
  unfolding attempt
  attempt-total i d none acc = drop_dead-total no_webhook d acc
  attempt-total i d (some hook) acc = sign_and_post-total i d hook _ acc

  deliver_one-total :
      (i : ℕ) (d : Delivery Order) (acc : Delivered Order)
      → total (deliver_one w i d acc) ≡ total acc + one d
  unfolding deliver_one
  deliver_one-total i d acc = elim (Bool-cases (ltb (w.check i) d.next_attempt_at)) [
    | inl e ↦ rw e (omega (arith, events-snoc acc.remaining d))
    | inr e ↦ rw e (attempt-total i d (lookup d.partner_id (hooks w.partners)) acc)
  ]

  deliver-total :
      (i : ℕ) (ds : List (Delivery Order)) (acc : Delivered Order)
      → total (deliver w i ds acc) ≡ total acc + events ds
  unfolding deliver
  deliver-total i [] acc = omega arith
  deliver-total i (d ∷ ds) acc =
      ground (arith, deliver-total (i + 1) ds (deliver_one w i d acc), deliver_one-total i d acc)

  -- Every delivery in the outbox ends a pass as sent, kept for later, or dead: for any set of events,
  -- as many are there after it as before.
  pub finish-events :
      (s : State Order) (d : Detection Order)
      → (events_of p (finish w s d).0.outbox
            + events_of p (finish w s d).0.dead
            + events_of p (delivered_from w s d).sent
          ≡ events_of p s.dead + events_of p d.outbox)
        × ((finish w s d).1.delivered ≡ length (delivered_from w s d).sent)
  unfolding finish
  finish-events s d = (omega (arith, deliver-total 0 d.outbox _), refl)
