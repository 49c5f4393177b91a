-- ===== src/PartnerApi/Room.antt =====
-- What a caller may still be let through in a minute, as `rateLimit` of
-- apps/web/src/lib/partner-api.ts moves a window on.
use boundless_stock.Prelude.{
  ℕ, ◌+◌, ◌-◌, ◌*◌, ◌≤◌, ◌<◌, ◌≡◌, inl, inr, arith, Bool, true, false, ◌&&◌, Bool-cases, Option,
  none, some, max, leb, leb→le, leb→lt, ltb, if◌then◌else◌, Result, ok, err,
}
use boundless_stock.PartnerApi.{Window, ApiError, rate_limited, next_window, minute}
use boundless_stock.Prelude.Int.{ℤ, sub_ℕ}

abbrev pub is_ok {ℓ κ} : {E : Type ℓ} {A : Type κ} → Result E A → Bool
is_ok (ok a) = true
is_ok (err e) = false

-- Within the minute that begins at `from`.
abbrev pub within : ℕ → ℕ → Bool
within from t = leb from t && ltb t (from + minute)

module _ (rate : ℕ) where
  abbrev pub most : ℕ
  most = max 1 rate

  -- What a caller may still be let through in the minute from `from`, after a request at `now`.
  abbrev pub room : ℕ → ℕ → Option Window → ℕ
  room from now none = 2 * most
  room from now (some w) =
      if ltb now from
      then 2 * most
      else if ltb w.start from
      then 2 * most - w.count
      else if ltb w.start (from + minute)
      then most - w.count
      else 0

  abbrev pub IsWindow : ℕ → Option Window → Type 0
  IsWindow now none = Unit
  IsWindow now (some w) = (w.start ≤ now) × (w.count ≤ most)

  abbrev pub settle : Option Window → Result ApiError (Window × ℤ) → Option Window
  settle w (err x) = w
  settle w (ok (v, left)) = some v

  abbrev pub after : Option Window → ℕ → Option Window
  after w t = settle w (next_window rate t w)

  abbrev pub let_through : ℕ → Option Window → ℕ → ℕ
  let_through from w t = if is_ok (next_window rate t w) && within from t then 1 else 0

  pub wait_room :
      (from now t : ℕ) (w : Option Window)
      → now ≤ t
      → IsWindow now w
      → room from t w ≤ room from now w
  wait_room from now t none h v = omega arith
  wait_room from now t (some w) h v = ground arith

  abbrev pub one_if : ℕ → ℕ → ℕ
  one_if from t = if within from t then 1 else 0

  first_room :
      (from t : ℕ) → one_if from t + room from t (some (record { start = t; count = 1 })) ≤ 2 * most
  first_room from t = ground arith

  renewed_room :
      (from now t : ℕ) (w : Window)
      → now ≤ t
      → IsWindow now (some w)
      → w.start + minute ≤ t
      → one_if from t + room from t (some (record { start = t; count = 1 }))
        ≤ room from now (some w)
  renewed_room from now t w h v old = ground arith

  counted_room :
      (from now t : ℕ) (w : Window)
      → now ≤ t
      → IsWindow now (some w)
      → w.count < rate
      → one_if from t + room from t (some (record w { count = w.count + 1 }))
        ≤ room from now (some w)
  counted_room from now t w h v free = ground arith

  next_renewed :
      (t : ℕ) (w : Window)
      → leb (w.start + minute) t ≡ true
      → next_window rate t (some w) ≡ ok (record { start = t; count = 1 }, sub_ℕ rate 1)
  unfolding next_window
  next_renewed t w h = rw h

  next_refused :
      (t : ℕ) (w : Window)
      → leb (w.start + minute) t ≡ false
      → leb rate w.count ≡ true
      → next_window rate t (some w) ≡ err rate_limited
  unfolding next_window
  next_refused t w h f = rw (h, f)

  next_counted :
      (t : ℕ) (w : Window)
      → leb (w.start + minute) t ≡ false
      → leb rate w.count ≡ false
      → next_window rate t (some w)
        ≡ ok (record w { count = w.count + 1 }, sub_ℕ rate (w.count + 1))
  unfolding next_window
  next_counted t w h f = rw (h, f)

  pub step_room :
      (from now t : ℕ) (w : Option Window)
      → now ≤ t
      → IsWindow now w
      → let_through from w t + room from t (after w t) ≤ room from now w
  step_room from now t none h v = unfold next_window in first_room from t
  step_room from now t (some w) h v = elim (Bool-cases (leb (w.start + minute) t)) [
    | inl old ↦ rw (next_renewed t w old) (renewed_room from now t w h v (leb→le _ _ old))
    | inr young ↦ elim (Bool-cases (leb rate w.count)) [
      | inl full ↦
          rw (next_refused t w young full) (omega (arith, wait_room from now t (some w) h v))
      | inr free ↦
          rw (next_counted t w young free) (counted_room from now t w h v (leb→lt _ _ free))
    ]
  ]

  pub wait_window : (now t : ℕ) (w : Option Window) → now ≤ t → IsWindow now w → IsWindow t w
  wait_window now t none h v = tt
  wait_window now t (some w) h v = ground arith

  pub step_window :
      (now t : ℕ) (w : Option Window) → now ≤ t → IsWindow now w → IsWindow t (after w t)
  unfolding next_window
  step_window now t none h v = ground arith
  step_window now t (some w) h v = ground arith

pub no_more : (a b : ℕ) (x : Bool) → a ≤ b → (if x && false then 1 else 0) + a ≤ b
no_more a b true h = omega arith
no_more a b false h = omega arith
