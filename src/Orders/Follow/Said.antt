-- ===== src/Orders/Follow/Said.antt =====
-- What the API says of an order: `getOrder` of infra/api/orders.ts.
use Prim.Native.String.{String}
use text.Mathlib.TextEquality.{eq_iff}
use boundless_stock.Prelude.{
  ℕ, ◌≡◌, ◌⊎◌, inl, inr, refl, sym, ap, subst, ◌∙◌, arith, Bool, Bool-cases, true, false, not,
  Option, some, ok, throw_if, bind-ok, ok-same,
}
use boundless_stock.Quote.{Vm, ChainEntry, is_mirror, decimal}
use boundless_stock.History.Records.{RequestStatus, pending, filled, refunded, stranded, cancelled}
use boundless_stock.Orders.Build.Data.{lift, Text}
use boundless_stock.Orders.Build.{is_number}
use boundless_stock.Orders.Follow.{
  invalid_id, Order, Next, FollowedMirror, Read, recovered, unsettled_fees, is_holding, step_of,
  next_step, with_held, read_order, get_order, followed,
}

abbrev pub says_recovered : Next → Bool
says_recovered (recovered b) = true
says_recovered _ = false

abbrev pub IsUnheld : (ℕ → Read String) → ℕ → Type 0
IsUnheld held id = (held id ≡ ok "0") ⊎ (held id ≡ ok "")

not_holding : (s : String) → is_holding (some s) ≡ false → (s ≡ "0") ⊎ (s ≡ "")
not_holding s h = ground (arith, eq_iff s "0", eq_iff s "")

-- Only a stranded order of which nothing is held is said to be recovered.
recovered-stranded :
    (st : RequestStatus) (fees : Bool) (o : Order)
    → says_recovered (step_of st fees o) ≡ true
    → (st ≡ stranded) × (is_holding o.stranded_held ≡ false)
recovered-stranded pending fees o r = ground arith
recovered-stranded filled fees o r = ground arith
recovered-stranded refunded fees o r = ground arith
recovered-stranded cancelled fees o r = ground arith
recovered-stranded stranded fees o r = elim (Bool-cases (is_holding o.stranded_held)) [
  | inl e ↦ ground arith
  | inr e ↦ (refl, e)
]

with_held-status :
    (st : RequestStatus) (held : ℕ → Read String) (o p : Order)
    → with_held st held o ≡ ok p
    → p.status ≡ o.status
with_held-status pending held o p w = ok-same (λ (p : Order). p.status ≡ o.status) o p refl w
with_held-status filled held o p w = ok-same (λ (p : Order). p.status ≡ o.status) o p refl w
with_held-status refunded held o p w = ok-same (λ (p : Order). p.status ≡ o.status) o p refl w
with_held-status cancelled held o p w = ok-same (λ (p : Order). p.status ≡ o.status) o p refl w
with_held-status stranded held o p w = bind-ok (held o.id) w λ s _ w.
    ok-same (λ (p : Order). p.status ≡ o.status) (record o { stranded_held = some s }) p refl w

with_held-IsUnheld :
    (held : ℕ → Read String) (o p : Order)
    → with_held stranded held o ≡ ok p
    → is_holding p.stranded_held ≡ false
    → IsUnheld held p.id
with_held-IsUnheld held o p w = bind-ok (held o.id) w λ s read w.
    ok-same (λ (p : Order). is_holding p.stranded_held ≡ false → IsUnheld held p.id)
      (record o { stranded_held = some s }) p
      (λ h. elim (not_holding s h) [ inl e ↦ inl (read ∙ ap ok e) | inr e ↦ inr (read ∙ ap ok e) ])
      w

said :
    (vm : Vm) (held : ℕ → Read String) (o p : Order)
    → with_held o.status held o ≡ ok p
    → says_recovered (next_step p vm) ≡ true
    → IsUnheld held p.id
unfolding next_step
said vm held o p w r =
    let (is_stranded, empty) = recovered-stranded p.status (unsettled_fees vm p) p r in
    with_held-IsUnheld held o p
      (subst (λ st. with_held st held o ≡ ok p)
        (sym (with_held-status o.status held o p w) ∙ is_stranded) w)
      empty

-- The API says that an order was recovered only where the home chain was read and holds nothing of it.
pub get_order-recovered :
    (solana : Bool) (entry : Option ChainEntry) (m : FollowedMirror) (held : ℕ → Read String)
    (id_text : Text) (o : Order) (next : Next)
    → get_order solana entry m held id_text ≡ ok (o, next)
    → says_recovered next ≡ true
    → IsUnheld held o.id
unfolding get_order
get_order-recovered solana entry m held id_text o next p r =
    bind-ok (followed (lift (is_mirror solana entry))) p λ vm _ p.
      bind-ok (throw_if (not (is_number id_text)) invalid_id) p λ _ _ p.
        bind-ok (read_order vm m (decimal 0 id_text)) p λ q _ p.
          bind-ok (with_held q.status held q) p λ q' held_ok p.
            ok-same (λ (a : Order × Next). says_recovered (a.1) ≡ true → IsUnheld held (a.0).id)
              (q', next_step q' vm) (o, next) (said vm held q q' held_ok) p r
