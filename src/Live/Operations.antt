-- ===== src/Live/Operations.antt =====
-- `getOperations` of apps/web/src/lib/live.ts: what an operator should look at, over all deployments.
pub mod Ordered
pub mod Sorted
use Prim.Native.String.{String}
use text.Mathlib.Text.{◌==◌ as str_eq}
use boundless_stock.Prelude.{
  ℕ, ◌+◌, ◌*◌, ◌≡◌, refl, sym, ap, ◌∙◌, ◌↔◌, inl, inr, arith, Bool, true, false, not, ◌&&◌, Option,
  none, some, List, [], ◌∷◌, ◌++◌, map, count, count-append, All, either, Bool-cases, if◌then◌else◌,
}
use boundless_stock.Prelude.Int.{ℤ, pos, negsuc, sub_ℕ, pos_part, neg_part, ltb_ℤ, ◌≤ℤ◌}
use boundless_stock.History.Records.{
  HistoryRecord, RequestStatus, pending, filled, refunded, stranded, cancelled,
}
use boundless_stock.Live.{Availability, is_live}

pub record OperationsItem : Type 0 where
  pub entry : HistoryRecord
  pub deployment : String
  pub age_seconds : ℤ

pub record RequestsView : Type 0 where
  pub deployment : String
  pub availability : Availability
  pub records : List HistoryRecord

pub record OperationsView : Type 0 where
  pub waiting : List OperationsItem
  pub attention : List OperationsItem
  pub held : List OperationsItem
  pub recovered : List OperationsItem
  pub called_off : List OperationsItem
  pub deployments : List (String × Availability)

abbrev pub attention_after_s : ℕ
attention_after_s = 10 * 60

abbrev pub is_pending : OperationsItem → Bool
is_pending i = elim (i.entry.status) [ pending ↦ true | _ ↦ false ]

-- `strandedHeld === "0"`, which an absent amount is not.
abbrev pub holds_nothing : Option String → Bool
holds_nothing none = false
holds_nothing (some s) = str_eq s "0"

abbrev pub is_held : OperationsItem → Bool
is_held i = elim (i.entry.status) [
  | stranded ↦ not (holds_nothing i.entry.stranded_held)
  | _ ↦ false
]

abbrev pub is_recovered : OperationsItem → Bool
is_recovered i = elim (i.entry.status) [
  | stranded ↦ holds_nothing i.entry.stranded_held
  | _ ↦ false
]

abbrev pub is_called_off : OperationsItem → Bool
is_called_off i = elim (i.entry.status) [ cancelled ↦ true | _ ↦ false ]

abbrev pub is_old : OperationsItem → Bool
is_old i = not (ltb_ℤ i.age_seconds (pos attention_after_s))

unfoldable pub filter : {A : Type 0} → (A → Bool) → List A → List A
filter p [] = []
filter p (x ∷ xs) = either (p x) (filter p xs) (x ∷ filter p xs)

-- The stable sort by age, the oldest first.
unfoldable pub place : OperationsItem → List OperationsItem → List OperationsItem
place i [] = i ∷ []
place i (j ∷ js) = either (ltb_ℤ i.age_seconds j.age_seconds) (i ∷ j ∷ js) (j ∷ place i js)

unfoldable pub sort_by_age : List OperationsItem → List OperationsItem
sort_by_age [] = []
sort_by_age (i ∷ is) = place i (sort_by_age is)

abbrev pub item_of : ℕ → String → HistoryRecord → OperationsItem
item_of now name r = record { entry = r; deployment = name; age_seconds = sub_ℕ now r.created_at }

-- The records of the deployments that are live.
unfoldable pub items_of : ℕ → List RequestsView → List OperationsItem
items_of now [] = []
items_of now (v ∷ vs) =
    either (is_live v.availability) [] (map (item_of now v.deployment) v.records) ++ items_of now vs

pub get_operations : ℕ → List RequestsView → OperationsView
get_operations now views =
    let items = items_of now views in
    let waiting = sort_by_age (filter is_pending items) in
    record {
      waiting = waiting;
      attention = filter is_old waiting;
      held = filter is_held items;
      recovered = filter is_recovered items;
      called_off = filter is_called_off items;
      deployments = map (λ v. (v.deployment, v.availability)) views;
    }
