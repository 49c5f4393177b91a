-- ===== src/Live/Operations/Sorted.antt =====
-- Where each record of the operator's view stands.
use Prim.Native.String.{String}
use text.Mathlib.TextEquality.{eq_iff}
use boundless_stock.Prelude.{
  ℕ, ◌+◌, ◌≡◌, ◌≢◌, ◌↔◌, refl, inl, inr, arith, Bool, true, false, not, ◌&&◌, Option, none, some,
  List, [], ◌∷◌, ◌++◌, map, count, count-append, All, either, Bool-cases,
}
use boundless_stock.Prelude.Int.{pos, sub_ℕ, ltb_ℤ, ◌≤ℤ◌}
use boundless_stock.History.Records.{pending, filled, refunded, stranded, cancelled}
use boundless_stock.Live.{live, no_config, not_running, unreachable, is_live}
use boundless_stock.Live.Operations.{
  OperationsItem, OperationsView, RequestsView, is_pending, is_held, is_recovered, is_called_off,
  is_old, holds_nothing, filter, place, sort_by_age, item_of, items_of, get_operations,
}
use boundless_stock.Live.Operations.Ordered.{
  IsOldestFirst, sort_by_age-IsOldestFirst, sort_by_age-All,
}

-- The request is neither filled nor refunded.
abbrev pub is_open : OperationsItem → Bool
is_open i = elim (i.entry.status) [ filled ↦ false | refunded ↦ false | _ ↦ true ]

count-filter :
    {A : Type 0} (p q : A → Bool) (xs : List A) → count p (filter q xs) ≡ count (λ x. q x && p x) xs
unfolding filter
count-filter p q [] = refl
count-filter p q (x ∷ xs) = elim (Bool-cases (q x)) [
  | inl here ↦ rw here (ground (arith, count-filter p q xs))
  | inr gone ↦ rw gone (ground (arith, count-filter p q xs))
]

All-filter : {A : Type 0} (q : A → Bool) (xs : List A) → All (λ x. q x ≡ true) (filter q xs)
unfolding filter
All-filter q [] = tt
All-filter q (x ∷ xs) = elim (Bool-cases (q x)) [
  | inl here ↦ rw here (here, All-filter q xs)
  | inr gone ↦ rw gone (All-filter q xs)
]

module _ (p : OperationsItem → Bool) where
  count-place :
      (i : OperationsItem) (js : List OperationsItem) → count p (place i js) ≡ count p (i ∷ js)
  unfolding place
  count-place i [] = refl
  count-place i (j ∷ js) = elim (Bool-cases (ltb_ℤ i.age_seconds j.age_seconds)) [
    | inl later ↦ rw later (ground (arith, count-place i js))
    | inr first ↦ rw first refl
  ]

  count-sort_by_age : (is : List OperationsItem) → count p (sort_by_age is) ≡ count p is
  unfolding sort_by_age
  count-sort_by_age [] = refl
  count-sort_by_age (i ∷ is) = ground (arith, count-place i (sort_by_age is), count-sort_by_age is)

  -- A record is in one of the four lists, if it is open.
  count_once :
      (is : List OperationsItem)
      → count (λ i. is_open i && p i) is
        ≡ count (λ i. is_pending i && p i) is
          + count (λ i. is_held i && p i) is
          + count (λ i. is_recovered i && p i) is
          + count (λ i. is_called_off i && p i) is
  count_once [] = refl
  count_once (i ∷ is) = ground (arith, count_once is)

All-weaken :
    {A : Type 0} (P Q : A → Type 0) (xs : List A) → ((x : A) → P x → Q x) → All P xs → All Q xs
All-weaken P Q [] f h = tt
All-weaken P Q (x ∷ xs) f h = (f x h.0, All-weaken P Q xs f h.1)

-- How many records of live deployments pass a test, each with its age at `now`.
abbrev pub count_shown : ℕ → (OperationsItem → Bool) → List RequestsView → ℕ
count_shown now q [] = 0
count_shown now q (v ∷ vs) =
    elim v.availability [
      | live ↦
          count
            (λ r. q (record {
              entry = r;
              deployment = v.deployment;
              age_seconds = sub_ℕ now r.created_at;
            }))
            v.records
      | _ ↦ 0
    ]
    + count_shown now q vs

count-map :
    {A B : Type 0} (q : B → Bool) (f : A → B) (xs : List A)
    → count q (map f xs) ≡ count (λ x. q (f x)) xs
count-map q f [] = refl
count-map q f (x ∷ xs) = ground (arith, count-map q f xs)

count-items_of :
    (now : ℕ) (q : OperationsItem → Bool) (views : List RequestsView)
    → count q (items_of now views) ≡ count_shown now q views
unfolding items_of
count-items_of now q [] = refl
count-items_of now q (v ∷ vs) =
    let here : List OperationsItem = map (item_of now v.deployment) v.records in
    elim v.availability
      as (λ a.
        count q (either (is_live a) [] here ++ items_of now vs)
        ≡ elim a [ live ↦ count (λ r. q (item_of now v.deployment r)) v.records | _ ↦ 0 ]
          + count_shown now q vs) [
            | live ↦ omega (
              arith,
              count-append q here (items_of now vs),
              count-map q (item_of now v.deployment) v.records,
              count-items_of now q vs,
            )
            | no_config ↦ omega (arith, count-items_of now q vs)
            | not_running ↦ omega (arith, count-items_of now q vs)
            | unreachable s ↦ omega (arith, count-items_of now q vs)
          ]

-- What the lists of the view are for.
abbrev pub IsSortedOut : OperationsView → Type 0
IsSortedOut v =
    All (λ i. i.entry.status ≡ pending) v.waiting
    × All (λ i. (i.entry.status ≡ stranded) × (i.entry.stranded_held ≢ some "0")) v.held
    × All (λ i. (i.entry.status ≡ stranded) × (i.entry.stranded_held ≡ some "0")) v.recovered
    × All (λ i. i.entry.status ≡ cancelled) v.called_off
    × All (λ i. pos 600 ≤ℤ i.age_seconds) v.attention

holds_nothing_iff : (held : Option String) → (holds_nothing held ≡ true) ↔ (held ≡ some "0")
holds_nothing_iff none = ground arith
holds_nothing_iff (some s) = ground (arith, eq_iff s "0")

pending-status : (i : OperationsItem) → is_pending i ≡ true → i.entry.status ≡ pending
pending-status i h = ground arith

held-status :
    (i : OperationsItem)
    → is_held i ≡ true
    → (i.entry.status ≡ stranded) × (i.entry.stranded_held ≢ some "0")
held-status i h = ground (arith, holds_nothing_iff i.entry.stranded_held)

recovered-status :
    (i : OperationsItem)
    → is_recovered i ≡ true
    → (i.entry.status ≡ stranded) × (i.entry.stranded_held ≡ some "0")
recovered-status i h = ground (arith, holds_nothing_iff i.entry.stranded_held)

called_off-status : (i : OperationsItem) → is_called_off i ≡ true → i.entry.status ≡ cancelled
called_off-status i h = ground arith

old-age : (i : OperationsItem) → is_old i ≡ true → pos 600 ≤ℤ i.age_seconds
old-age i h = ground arith

get_operations-IsSortedOut :
    (now : ℕ) (views : List RequestsView) → IsSortedOut (get_operations now views)
unfolding get_operations
get_operations-IsSortedOut now views =
    let items = items_of now views in
    (
      sort_by_age-All _ (filter is_pending items)
          (All-weaken _ _ (filter is_pending items) pending-status (All-filter is_pending items)),
      All-weaken _ _ (filter is_held items) held-status (All-filter is_held items),
      All-weaken _ _ (filter is_recovered items) recovered-status (All-filter is_recovered items),
      All-weaken _ _ (filter is_called_off items) called_off-status
          (All-filter is_called_off items),
      All-weaken _ _ (filter is_old (sort_by_age (filter is_pending items))) old-age
          (All-filter is_old (sort_by_age (filter is_pending items))),
    )

-- An operator sees the records of the live deployments that are neither filled nor refunded, each in
-- one list: for any set of items, as many of the live deployments' records, with their ages, are open as
-- stand in the four lists together; these hold the pending ones, the stranded ones that hold something
-- or were never read, the stranded ones that hold nothing, and the cancelled ones; those that wait are
-- ordered, the oldest first; and of these, attention is asked for just those of at least 600 seconds.
pub get_operations-once :
    (now : ℕ) (views : List RequestsView) (p : OperationsItem → Bool)
    → (count_shown now (λ i. is_open i && p i) views
        ≡ count p (get_operations now views).waiting
          + count p (get_operations now views).held
          + count p (get_operations now views).recovered
          + count p (get_operations now views).called_off)
      × IsSortedOut (get_operations now views)
      × IsOldestFirst (get_operations now views).waiting
      × (count p (get_operations now views).attention
          ≡ count
              (λ i. not (ltb_ℤ i.age_seconds (pos 600)) && p i)
              (get_operations now views).waiting)
unfolding get_operations
get_operations-once now views p =
    let items = items_of now views in
    (
      omega (
        arith,
        count-items_of now (λ i. is_open i && p i) views,
        count_once p items,
        count-sort_by_age p (filter is_pending items),
        count-filter p is_pending items,
        count-filter p is_held items,
        count-filter p is_recovered items,
        count-filter p is_called_off items,
      ),
      get_operations-IsSortedOut now views,
      sort_by_age-IsOldestFirst (filter is_pending items),
      count-filter p is_old (sort_by_age (filter is_pending items)),
    )
