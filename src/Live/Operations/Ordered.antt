-- ===== src/Live/Operations/Ordered.antt =====
-- The order of the operator's list of waiting orders: the stable sort by age in apps/web/src/lib/live.ts.
use boundless_stock.Prelude.{inl, inr, arith, List, [], ◌∷◌, All, Bool-cases}
use boundless_stock.Prelude.Int.{ℤ, ltb_ℤ, ◌≤ℤ◌}
use boundless_stock.Live.Operations.{OperationsItem, place, sort_by_age}

-- Of the items none is older than one before it.
abbrev pub IsOldestFirst : List OperationsItem → Type 0
IsOldestFirst [] = Unit
IsOldestFirst (i ∷ is) = All (λ j. j.age_seconds ≤ℤ i.age_seconds) is × IsOldestFirst is

place-All :
    (P : OperationsItem → Type 0) (i : OperationsItem) (js : List OperationsItem)
    → P i
    → All P js
    → All P (place i js)
unfolding place
place-All P i [] h k = (h, tt)
place-All P i (j ∷ js) h k = elim (Bool-cases (ltb_ℤ i.age_seconds j.age_seconds)) [
  | inl later ↦ rw later (k.0, place-All P i js h k.1)
  | inr first ↦ rw first (h, k)
]

All_older :
    (a b : ℤ) (js : List OperationsItem)
    → a ≤ℤ b
    → All (λ j. j.age_seconds ≤ℤ a) js
    → All (λ j. j.age_seconds ≤ℤ b) js
All_older a b [] h k = tt
All_older a b (j ∷ js) h k = (omega (arith, k.0), All_older a b js h k.1)

place-IsOldestFirst :
    (i : OperationsItem) (js : List OperationsItem) → IsOldestFirst js → IsOldestFirst (place i js)
unfolding place
place-IsOldestFirst i [] h = (tt, tt)
place-IsOldestFirst i (j ∷ js) h = elim (Bool-cases (ltb_ℤ i.age_seconds j.age_seconds)) [
  | inl later ↦
      let older : i.age_seconds ≤ℤ j.age_seconds = ground arith in
      rw later (
        place-All (λ k. k.age_seconds ≤ℤ j.age_seconds) i js older h.0,
        place-IsOldestFirst i js h.1,
      )
  | inr first ↦
      let older : j.age_seconds ≤ℤ i.age_seconds = ground arith in
      rw first ((older, All_older j.age_seconds i.age_seconds js older h.0), h)
]

pub sort_by_age-IsOldestFirst : (is : List OperationsItem) → IsOldestFirst (sort_by_age is)
unfolding sort_by_age
sort_by_age-IsOldestFirst [] = tt
sort_by_age-IsOldestFirst (i ∷ is) =
    place-IsOldestFirst i (sort_by_age is) (sort_by_age-IsOldestFirst is)

pub sort_by_age-All :
    (P : OperationsItem → Type 0) (is : List OperationsItem) → All P is → All P (sort_by_age is)
unfolding sort_by_age
sort_by_age-All P [] h = tt
sort_by_age-All P (i ∷ is) h = place-All P i (sort_by_age is) h.0 (sort_by_age-All P is h.1)
