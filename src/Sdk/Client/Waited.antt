-- ===== src/Sdk/Client/Waited.antt =====
-- That waiting for an order ends, and with what.
use boundless_stock.Prelude.{
  ℕ, zero, suc, ◌+◌, ◌<◌, ◌≤◌, ◌≡◌, refl, sym, subst, ◌∙◌, ◌⊎◌, inl, inr, arith, Bool, true, false,
  ltb, Bool-cases, ok,
}
use boundless_stock.Sdk.Client.{is_done, wait_from, wait_for_order}

module _ {Order : Type 0} (orders : ℕ → Order) (is_pending : Order → Bool) (clock : ℕ → ℕ) where
  -- The i-th answer is the first that is not pending or comes after the deadline.
  abbrev pub IsFirst : ℕ → ℕ → ℕ → Type 0
  IsFirst deadline from i =
      (from ≤ i)
      × ((is_pending (orders i) ≡ false) ⊎ (deadline < clock i))
      × ((j : ℕ) → from ≤ j → j < i → (is_pending (orders j) ≡ true) × (clock j ≤ deadline))

  not_done :
      (deadline i : ℕ)
      → is_done (λ j. ok (orders j)) is_pending clock deadline i (orders i) ≡ false
      → (is_pending (orders i) ≡ true) × (clock i ≤ deadline)
  not_done deadline i h = elim (Bool-cases (is_pending (orders i))) [
    | inl waits ↦
        let here : ltb deadline (clock i) ≡ false = sym (rw (is_done, waits) refl) ∙ h in
        (waits, ground arith)
    | inr ends ↦ let no : true ≡ false = sym (rw (is_done, ends) refl) ∙ h in ground arith
  ]

  done_ends :
      (deadline i : ℕ)
      → is_done (λ j. ok (orders j)) is_pending clock deadline i (orders i) ≡ true
      → (is_pending (orders i) ≡ false) ⊎ (deadline < clock i)
  done_ends deadline i h = elim (Bool-cases (is_pending (orders i))) [
    | inl waits ↦
        let here : ltb deadline (clock i) ≡ true = sym (rw (is_done, waits) refl) ∙ h in
        inr (ground arith)
    | inr ends ↦ inl ends
  ]

  late_is-done :
      (deadline i : ℕ)
      → deadline < clock i
      → is_done (λ j. ok (orders j)) is_pending clock deadline i (orders i) ≡ true
  late_is-done deadline i h = elim (Bool-cases (is_pending (orders i))) [
    | inl waits ↦ rw (is_done, waits) (ground arith)
    | inr ends ↦ rw (is_done, ends) refl
  ]

  wait_from-IsFirst :
      (fuel deadline i : ℕ)
      → ((j : ℕ) → clock j < clock (suc j))
      → deadline < clock i + fuel
      → (k : ℕ) × (wait_from (λ j. ok (orders j)) is_pending clock (suc fuel) deadline i
          ≡ ok (orders k))
        × IsFirst deadline i k
  unfolding wait_from
  wait_from-IsFirst zero deadline i ticks h =
      let done = late_is-done deadline i (omega arith) in
      (
        i,
        rw done refl,
        (
          omega arith,
          done_ends deadline i done,
          λ j from_i below. let no : ⊥ = omega arith in elim no [ ],
        ),
      )
  wait_from-IsFirst (suc fuel) deadline i ticks h =
      elim (Bool-cases (is_done (λ j. ok (orders j)) is_pending clock deadline i (orders i))) [
        | inl done ↦ (
          i,
          rw done refl,
          (
            omega arith,
            done_ends deadline i done,
            λ j from_i below. let no : ⊥ = omega arith in elim no [ ],
          ),
        )
        | inr waits ↦
            let r = wait_from-IsFirst fuel deadline (suc i) ticks (omega (arith, ticks i)) in
            let first = r.2 in
            (
              r.0,
              rw waits r.1,
              (
                omega (arith, first.0),
                first.1,
                λ j from_i below. elim (Bool-cases (ltb i j)) [
                  | inl later ↦ first.2 j (ground arith) below
                  | inr same ↦
                      let here : i ≡ j = ground arith in
                      subst (λ j. (is_pending (orders j) ≡ true) × (clock j ≤ deadline)) here
                        (not_done deadline i waits)
                ],
              ),
            )
      ]

  -- Where every poll is answered, and time passes from each to the next: waiting ends, within its fuel,
  -- with the first answer that is not pending or comes after the deadline, the timeout after the start.
  pub wait_for_order-IsFirst :
      (start timeout : ℕ)
      → ((j : ℕ) → clock j < clock (suc j))
      → start ≤ clock 0
      → (k : ℕ) × (wait_for_order (λ j. ok (orders j)) is_pending clock start timeout
          ≡ ok (orders k))
        × IsFirst (start + timeout) 0 k
  unfolding wait_for_order
  wait_for_order-IsFirst start timeout ticks began =
      wait_from-IsFirst (suc timeout) (start + timeout) 0 ticks (omega arith)
