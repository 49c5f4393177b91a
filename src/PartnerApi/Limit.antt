-- ===== src/PartnerApi/Limit.antt =====
-- How many requests the rate limit lets through.
use boundless_stock.Prelude.{
  subst, ℕ, ◌+◌, ◌*◌, ◌≤◌, ◌≡◌, ◌≢◌, refl, sym, inl, inr, arith, false, ◌&&◌, Bool-cases, List, [],
  ◌∷◌, max, if◌then◌else◌, Result, ok, err, Dict, Eq, lookup, lookup-insert_self, lookup-insert_ne,
}
use boundless_stock.PartnerApi.{Window, ApiError, next_window, rate_limit, put_window}
use boundless_stock.Prelude.Int.{ℤ}
use boundless_stock.PartnerApi.Room.{
  is_ok, within, room, IsWindow, settle, after, wait_room, step_room, step_window, wait_window,
  no_more,
}

module _ {Caller : Type 0} ⦃e : Eq Caller⦄ (rate : ℕ) (caller : Caller) where
  -- The requests of `caller` that are let through within the minute from `from`, in a run.
  abbrev pub count_through : ℕ → Dict Caller Window → List (Caller × ℕ) → ℕ
  count_through from windows [] = 0
  count_through from windows ((c, t) ∷ calls) =
      let r = rate_limit rate c t windows in
      (if is_ok r.0 && (e.beq c caller && within from t) then 1 else 0)
      + count_through from r.1 calls

  -- The clock does not run backwards.
  abbrev pub IsTimed : ℕ → List (Caller × ℕ) → Type 0
  IsTimed now [] = Unit
  IsTimed now ((c, t) ∷ calls) = (now ≤ t) × IsTimed t calls

  put_own :
      (windows : Dict Caller Window) (r : Result ApiError (Window × ℤ))
      → (lookup caller (put_window caller windows r).1 ≡ settle rate (lookup caller windows) r)
        × (is_ok (put_window caller windows r).0 ≡ is_ok r)
  put_own windows (err x) = (refl, refl)
  put_own windows (ok (w, left)) = (lookup-insert_self caller w windows, refl)

  own_call :
      (t : ℕ) (windows : Dict Caller Window)
      → (lookup caller (rate_limit rate caller t windows).1 ≡ after rate (lookup caller windows) t)
        × (is_ok (rate_limit rate caller t windows).0
            ≡ is_ok (next_window rate t (lookup caller windows)))
  unfolding rate_limit
  own_call t windows = put_own windows (next_window rate t (lookup caller windows))

  put_other :
      (c : Caller) (windows : Dict Caller Window) (r : Result ApiError (Window × ℤ))
      → c ≢ caller
      → lookup caller (put_window c windows r).1 ≡ lookup caller windows
  put_other c windows (err x) ne = refl
  put_other c windows (ok (w, left)) ne = lookup-insert_ne c caller w windows ne

  other_call :
      (c : Caller) (t : ℕ) (windows : Dict Caller Window)
      → c ≢ caller
      → lookup caller (rate_limit rate c t windows).1 ≡ lookup caller windows
  unfolding rate_limit
  other_call c t windows ne = put_other c windows _ ne

  abbrev one_through : ℕ → Dict Caller Window → Caller → ℕ → ℕ
  one_through from windows c t =
      if is_ok (rate_limit rate c t windows).0 && (e.beq c caller && within from t) then 1 else 0

  own_room :
      (from now t : ℕ) (windows : Dict Caller Window)
      → now ≤ t
      → IsWindow rate now (lookup caller windows)
      → one_through from windows caller t
          + room rate from t (lookup caller (rate_limit rate caller t windows).1)
        ≤ room rate from now (lookup caller windows)
  own_room from now t windows h v =
      rw ((own_call t windows).0, (own_call t windows).1, (e.beq_iff caller caller).1 refl)
        (step_room rate from now t (lookup caller windows) h v)

  beq-≢ : (c : Caller) → e.beq c caller ≡ false → c ≢ caller
  beq-≢ c ne = ground (arith, e.beq_iff c caller)

  other_room :
      (from now t : ℕ) (c : Caller) (windows : Dict Caller Window)
      → e.beq c caller ≡ false
      → now ≤ t
      → IsWindow rate now (lookup caller windows)
      → one_through from windows c t
          + room rate from t (lookup caller (rate_limit rate c t windows).1)
        ≤ room rate from now (lookup caller windows)
  other_room from now t c windows ne h v =
      rw (other_call c t windows (beq-≢ c ne), ne)
        (no_more _ _ (is_ok (rate_limit rate c t windows).0)
          (wait_room rate from now t (lookup caller windows) h v))

  own_window :
      (now t : ℕ) (windows : Dict Caller Window)
      → now ≤ t
      → IsWindow rate now (lookup caller windows)
      → IsWindow rate t (lookup caller (rate_limit rate caller t windows).1)
  own_window now t windows h v =
      rw ((own_call t windows).0) (step_window rate now t (lookup caller windows) h v)

  -- Whatever the calls, a caller's window and its count stay in order.
  call_step :
      (from now t : ℕ) (c : Caller) (windows : Dict Caller Window)
      → now ≤ t
      → IsWindow rate now (lookup caller windows)
      → (one_through from windows c t
            + room rate from t (lookup caller (rate_limit rate c t windows).1)
          ≤ room rate from now (lookup caller windows))
        × IsWindow rate t (lookup caller (rate_limit rate c t windows).1)
  call_step from now t c windows h v = elim (Bool-cases (e.beq c caller)) [
    | inl same ↦
        subst
          (λ d.
            (one_through from windows d t
                + room rate from t (lookup caller (rate_limit rate d t windows).1)
              ≤ room rate from now (lookup caller windows))
            × IsWindow rate t (lookup caller (rate_limit rate d t windows).1))
          (sym ((e.beq_iff c caller).0 same))
          (own_room from now t windows h v, own_window now t windows h v)
    | inr ne ↦ (
      other_room from now t c windows ne h v,
      rw (other_call c t windows (beq-≢ c ne)) (wait_window rate now t (lookup caller windows) h v),
    )
  ]

  count_through-le :
      (from now : ℕ) (windows : Dict Caller Window) (calls : List (Caller × ℕ))
      → IsTimed now calls
      → IsWindow rate now (lookup caller windows)
      → count_through from windows calls ≤ room rate from now (lookup caller windows)
  count_through-le from now windows [] timed v = omega arith
  count_through-le from now windows ((c, t) ∷ calls) timed v =
      let step = call_step from now t c windows (timed.0) v in
      omega (
        arith,
        step.0,
        count_through-le from t (rate_limit rate c t windows).1 calls (timed.1) (step.1),
      )

  -- From an empty table of windows, with a clock that does not run backwards, at most twice the
  -- larger of 1 and the rate limit of a caller's requests are let through in any one minute,
  -- whichever requests other callers make.
  pub count_through-bound :
      (from : ℕ) (calls : List (Caller × ℕ))
      → IsTimed 0 calls
      → count_through from [] calls ≤ 2 * max 1 rate
  count_through-bound from calls timed = count_through-le from 0 [] calls timed tt
