-- ===== src/Webhooks/Detect.antt =====
-- The detection half of a pass: each change of state is announced once, and only changes are.
use boundless_stock.Prelude.{
  ◌≡◌, ◌≢◌, ◌↔◌, refl, ap, ◌∙◌, inl, inr, arith, Option-cases, Bool, true, false, none, some, List,
  [], ◌∷◌, ◌++◌, All, count, map, lookup, insert, lookup-insert_ne, lookup-insert_self, append-nil,
  append_assoc, nat_eq, if◌then◌else◌, Dict,
}
use boundless_stock.History.Records.{HistoryRecord, Key, key_eq}
use boundless_stock.History.Sorted.{IsDistinct, has_key, has_key_iff}
use boundless_stock.Webhooks.Events.{
  World, EventId, Delivery, OrderState, same_state, state_of, event_of,
}
use boundless_stock.Webhooks.{Detection, hooks, was_seen_as, announce, detect_for, detect}

same_state_iff : (a b : OrderState) → (same_state a b ≡ true) ↔ (a ≡ b)
unfolding same_state
same_state_iff a b = ground arith

module _ {Order : Type 0} (w : World Order) where
  -- The order is a partner's that has a webhook.
  abbrev pub is_hooked : HistoryRecord → Bool
  is_hooked r = elim r.partner_id [
    | none ↦ false
    | some p ↦ elim (lookup p (hooks w.partners)) [ none ↦ false | some _ ↦ true ]
  ]

  -- The order's state is not the one last seen.
  abbrev pub is_changed : Dict Key OrderState → HistoryRecord → Bool
  is_changed seen r = if was_seen_as (lookup r.key seen) (state_of r) then false else is_hooked r

  abbrev pub is_announced : Dict Key OrderState → HistoryRecord → Bool
  is_announced seen r =
      if is_changed seen r
      then elim (event_of (state_of r)) [ none ↦ false | some _ ↦ true ]
      else false

  -- One record: what is noted, what is queued.
  detect_for-seen :
      (r : HistoryRecord) (d : Detection Order) {d' : Detection Order}
      → detect_for w r r.partner_id d ≡ some d'
      → d'.seen ≡ (if is_changed d.seen r then insert r.key (state_of r) d.seen else d.seen)
  unfolding detect_for announce
  detect_for-seen r d h = ground arith

  abbrev pub id_of : HistoryRecord → EventId
  id_of r = record { deployment = w.deployment; stamp = w.stamp; key = r.key; state = state_of r }

  abbrev pub ids : List (Delivery Order) → List EventId
  ids ds = map (λ d. d.event.id) ds

  ids-snoc :
      (ds : List (Delivery Order)) (d : Delivery Order)
      → ids (ds ++ (d ∷ [])) ≡ ids ds ++ (d.event.id ∷ [])
  ids-snoc [] d = refl
  ids-snoc (x ∷ ds) d = ap (λ l. x.event.id ∷ l) (ids-snoc ds d)

  detect_for-outbox :
      (r : HistoryRecord) (d : Detection Order) {d' : Detection Order}
      → detect_for w r r.partner_id d ≡ some d'
      → ids d'.outbox ≡ ids d.outbox ++ (if is_announced d.seen r then id_of r ∷ [] else [])
  unfolding detect_for announce
  detect_for-outbox r d h = grind (arith, ids-snoc, append-nil (ids d.outbox))

  -- What there is to announce, judged by what was seen before the pass.
  abbrev pub announced : Dict Key OrderState → List HistoryRecord → List EventId
  announced seen [] = []
  announced seen (r ∷ rs) = (if is_announced seen r then id_of r ∷ [] else []) ++ announced seen rs

  announced-insert :
      (k : Key) (v : OrderState) (seen : Dict Key OrderState) (rs : List HistoryRecord)
      → count (has_key k) rs ≡ 0
      → announced (insert k v seen) rs ≡ announced seen rs
  announced-insert k v seen [] h = refl
  announced-insert k v seen (r ∷ rs) h =
      let ne : k ≢ r.key = λ e. ground (arith, has_key_iff k r, e) in
      rw (lookup-insert_ne k r.key v seen ne, announced-insert k v seen rs (ground arith))

  detect_for-announced :
      (r : HistoryRecord) (rs : List HistoryRecord) (d : Detection Order) {d' : Detection Order}
      → detect_for w r r.partner_id d ≡ some d'
      → count (has_key r.key) rs ≡ 0
      → announced d'.seen rs ≡ announced d.seen rs
  detect_for-announced r rs d {d'} h none_left =
      let e = detect_for-seen r d h in
      ground (arith, e, announced-insert r.key (state_of r) d.seen rs)

  detect_cons :
      (r : HistoryRecord) (rs : List HistoryRecord) (d : Detection Order) {d' : Detection Order}
      → detect w (r ∷ rs) d ≡ some d'
      → (c : Detection Order) × (detect_for w r r.partner_id d ≡ some c) × (detect w rs c ≡ some d')
  unfolding detect
  detect_cons r rs d h = elim (Option-cases (detect_for w r r.partner_id d)) [
    | inl e ↦ cc (rw (e, detect) at h)
    | inr (c, e) ↦ (c, e, rw (e, detect) at h)
  ]

  -- A pass announces exactly the orders of hooked partners whose state is not the one last seen and
  -- has an event, each once, in the order of the history.
  pub detect-outbox :
      (rs : List HistoryRecord) (d : Detection Order) {d' : Detection Order}
      → IsDistinct rs
      → detect w rs d ≡ some d'
      → ids d'.outbox ≡ ids d.outbox ++ announced d.seen rs
  detect-outbox [] d distinct h = unfold detect in rw append-nil (ap ids (ground arith))
  detect-outbox (r ∷ rs) d distinct h =
      let (c, first, rest) = detect_cons r rs d h in
      detect-outbox rs c distinct.1 rest
      ∙ rw (detect_for-outbox r d first, detect_for-announced r rs d first distinct.0)
          (append_assoc (ids d.outbox) (if is_announced d.seen r then id_of r ∷ [] else [])
            (announced d.seen rs))

  detect-seen_other :
      (k : Key) (rs : List HistoryRecord) (d : Detection Order) {d' : Detection Order}
      → count (has_key k) rs ≡ 0
      → detect w rs d ≡ some d'
      → lookup k d'.seen ≡ lookup k d.seen
  detect-seen_other k [] d z h = unfold detect in ground arith
  detect-seen_other k (r ∷ rs) d z h =
      let (c, first, rest) = detect_cons r rs d h in
      let ne : r.key ≢ k = λ e. ground (arith, has_key_iff k r, e) in
      let step = detect_for-seen r d first in
      detect-seen_other k rs c (ground arith) rest
      ∙ ground (arith, step, lookup-insert_ne r.key k (state_of r) d.seen ne)

  abbrev IsIdle : Dict Key OrderState → List HistoryRecord → Type 0
  IsIdle seen rs = All (λ r. is_changed seen r ≡ false) rs

  detect_for-idle :
      (r : HistoryRecord) (d : Detection Order) {d' : Detection Order}
      → detect_for w r r.partner_id d ≡ some d'
      → is_changed d'.seen r ≡ false
  detect_for-idle r d h =
      let step = detect_for-seen r d h in
      ground (
        arith,
        step,
        lookup-insert_self r.key (state_of r) d.seen,
        same_state_iff (state_of r) (state_of r),
      )

  detect-IsIdle :
      (rs : List HistoryRecord) (d : Detection Order) {d' : Detection Order}
      → IsDistinct rs
      → detect w rs d ≡ some d'
      → IsIdle d'.seen rs
  detect-IsIdle [] d distinct h = tt
  detect-IsIdle (r ∷ rs) d distinct h =
      let (c, first, rest) = detect_cons r rs d h in
      (
        rw (detect-seen_other r.key rs c distinct.0 rest) (detect_for-idle r d first),
        detect-IsIdle rs c distinct.1 rest,
      )

  detect_for-unchanged :
      (r : HistoryRecord) (d : Detection Order)
      → is_changed d.seen r ≡ false
      → detect_for w r r.partner_id d ≡ some d
  unfolding detect_for
  detect_for-unchanged r d h = ground arith

  detect-unchanged :
      (rs : List HistoryRecord) (d : Detection Order) → IsIdle d.seen rs → detect w rs d ≡ some d
  unfolding detect
  detect-unchanged [] d h = refl
  detect-unchanged (r ∷ rs) d h =
      rw (detect_for-unchanged r d h.0, detect) (detect-unchanged rs d h.1)

  -- What a pass has noted it does not announce again: over the same history a later pass notes and
  -- queues nothing, whatever the outbox is by then.
  pub detect_again :
      (rs : List HistoryRecord) (d e : Detection Order) {d' : Detection Order}
      → IsDistinct rs
      → detect w rs d ≡ some d'
      → e.seen ≡ d'.seen
      → detect w rs e ≡ some e
  detect_again rs d e distinct h same =
      detect-unchanged rs e (rw same (detect-IsIdle rs d distinct h))
