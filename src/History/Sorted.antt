-- ===== src/History/Sorted.antt =====
-- The order of the records in the history, and that no two have one key.
use boundless_stock.Prelude.{
  ◌≤◌, ◌≡◌, refl, ◌∙◌, inl, inr, Bool, true, false, List, [], ◌∷◌, arith, Bool-cases, count, map,
  Has, ◌↔◌, if◌then◌else◌, none, some, IsDict, lookup,
}
use boundless_stock.History.Records.{HistoryRecord, Key, key_test, key_test_iff, key_eq}
use boundless_stock.History.{Book, ahead, place, sort}

unfoldable pub has_key : Key → HistoryRecord → Bool
has_key k r = key_test r.key k

pub has_key_iff : (k : Key) (r : HistoryRecord) → (has_key k r ≡ true) ↔ (r.key ≡ k)
unfolding has_key
has_key_iff k r = key_test_iff r.key k

has_key_comm : (r x : HistoryRecord) → has_key r.key x ≡ has_key x.key r
has_key_comm r x = ground (arith, has_key_iff r.key x, has_key_iff x.key r)

-- No two records have one key.
abbrev pub IsDistinct : List HistoryRecord → Type 0
IsDistinct [] = Unit
IsDistinct (r ∷ rs) = (count (has_key r.key) rs ≡ 0) × IsDistinct rs

-- Newest first.
abbrev pub IsNewestFirst : List HistoryRecord → Type 0
IsNewestFirst [] = Unit
IsNewestFirst (r ∷ []) = Unit
IsNewestFirst (r ∷ x ∷ xs) = (x.created_at ≤ r.created_at) × IsNewestFirst (x ∷ xs)

-- Each entry stands under its record's own key.
abbrev pub IsKeyed : Book → Type 0
IsKeyed [] = Unit
IsKeyed ((k, r) ∷ b) = (r.key ≡ k) × IsKeyed b

abbrev pub values : Book → List HistoryRecord
values b = map (λ e. e.1) b

module _ (key_le : Key → Key → Bool) where
  count-place :
      (p : HistoryRecord → Bool) (r : HistoryRecord) (xs : List HistoryRecord)
      → count p (place key_le r xs) ≡ count p (r ∷ xs)
  unfolding place
  count-place p r [] = refl
  count-place p r (x ∷ xs) = ground (arith, count-place p r xs)

  -- Sorting loses no record and makes none up.
  pub count-sort :
      (p : HistoryRecord → Bool) (rs : List HistoryRecord) → count p (sort key_le rs) ≡ count p rs
  unfolding sort
  count-sort p [] = refl
  count-sort p (r ∷ rs) = ground (arith, count-place p r (sort key_le rs), count-sort p rs)

  place-IsDistinct :
      (r : HistoryRecord) (xs : List HistoryRecord)
      → count (has_key r.key) xs ≡ 0
      → IsDistinct xs
      → IsDistinct (place key_le r xs)
  unfolding place
  place-IsDistinct r [] h d = (refl, tt)
  place-IsDistinct r (x ∷ xs) h d =
      ground (arith, place-IsDistinct r xs, has_key_comm r x, count-place (has_key x.key) r xs)

  place-IsNewestFirst :
      (r : HistoryRecord) (xs : List HistoryRecord)
      → IsNewestFirst xs
      → IsNewestFirst (place key_le r xs)
  unfolding place
  place-IsNewestFirst r [] h = tt
  place-IsNewestFirst r (x ∷ []) h = ground arith
  place-IsNewestFirst r (x ∷ y ∷ xs) h = ground (arith, place-IsNewestFirst r (y ∷ xs) h.1)

  pub sort-IsNewestFirst : (rs : List HistoryRecord) → IsNewestFirst (sort key_le rs)
  unfolding sort
  sort-IsNewestFirst [] = tt
  sort-IsNewestFirst (r ∷ rs) = place-IsNewestFirst r (sort key_le rs) (sort-IsNewestFirst rs)

  pub sort-IsDistinct : (rs : List HistoryRecord) → IsDistinct rs → IsDistinct (sort key_le rs)
  unfolding sort
  sort-IsDistinct [] d = tt
  sort-IsDistinct (r ∷ rs) d =
      place-IsDistinct r (sort key_le rs) (count-sort (has_key r.key) rs ∙ d.0)
        (sort-IsDistinct rs d.1)

count_values :
    (k : Key) (b : Book) → IsKeyed b → lookup k b ≡ none → count (has_key k) (values b) ≡ 0
count_values k [] kd h = refl
count_values k ((j, r) ∷ b) kd h =
    ground (arith, count_values k b kd.1, has_key_iff k r, key_test_iff j k)

pub values-IsDistinct : (b : Book) → IsKeyed b → IsDict b → IsDistinct (values b)
values-IsDistinct [] kd d = tt
values-IsDistinct ((k, r) ∷ b) kd d =
    ground (arith, values-IsDistinct b kd.1 d.1, count_values r.key b kd.1)

-- A record that a key finds is among the values, and stays there when they are sorted.
pub values-Has : (k : Key) (r : HistoryRecord) (b : Book) → lookup k b ≡ some r → Has r (values b)
values-Has k r [] h = cc
values-Has k r ((j, x) ∷ b) h = elim (Bool-cases (key_test j k)) [
  | inl e ↦ inl (ground arith)
  | inr e ↦ inr (values-Has k r b (rw e at h))
]

module _ (key_le : Key → Key → Bool) where
  place-Has :
      (a r : HistoryRecord) (xs : List HistoryRecord) → Has a (r ∷ xs) → Has a (place key_le r xs)
  unfolding place
  place-Has a r [] h = h
  place-Has a r (x ∷ xs) h =
      elim (ahead key_le r x) as (λ t. Has a (if t then r ∷ x ∷ xs else x ∷ place key_le r xs)) [
        | true ↦ h
        | false ↦ behind (place-Has a r xs) h
      ]
    where
      behind :
          (Has a (r ∷ xs) → Has a (place key_le r xs))
          → Has a (r ∷ x ∷ xs)
          → Has a (x ∷ place key_le r xs)
      behind deeper (inl e) = inr (deeper (inl e))
      behind deeper (inr (inl e)) = inl e
      behind deeper (inr (inr i)) = inr (deeper (inr i))

  pub sort-Has : (a : HistoryRecord) (rs : List HistoryRecord) → Has a rs → Has a (sort key_le rs)
  unfolding sort
  sort-Has a [] h = h
  sort-Has a (r ∷ rs) (inl e) = place-Has a r (sort key_le rs) (inl e)
  sort-Has a (r ∷ rs) (inr h) = place-Has a r (sort key_le rs) (inr (sort-Has a rs h))
