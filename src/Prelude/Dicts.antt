-- ===== src/Prelude/Dicts.antt =====
-- A JavaScript Map or object: entries in insertion order; setting a key that is there keeps its place.
use Prim.Native.Nat.{ℕ}
use Prim.Native.String.{String}
use text.Mathlib.Text.{◌==◌ as str_eq}
use text.Mathlib.TextEquality.{eq_iff}
use mathlib.Core.Path.{◌≡◌, refl, sym, ap, ◌∙◌}
use mathlib.Core.Logic.{◌≢◌, ◌↔◌, inl, inr}
use mathlib.Core.Bool.{Bool, true}
use mathlib.Core.Option.{Option, none, some}
use mathlib.Core.List.{List, [], ◌∷◌}
use native.Mathlib.Omega.{arith}
use boundless_stock.Prelude.Tests.{Bool-cases, some-injective, ◌==◌, ==_iff, if◌then◌else◌}

-- `===` on a type of keys.
pub record Eq {ℓ} (A : Type ℓ) : Type ℓ where
  pub beq : A → A → Bool
  pub beq_iff : (a b : A) → (beq a b ≡ true) ↔ (a ≡ b)

instance abbrev pub nat_eq : Eq ℕ
nat_eq = record { beq = ◌==◌; beq_iff = ==_iff }

instance abbrev pub string_eq : Eq String
string_eq = record { beq = str_eq; beq_iff = eq_iff }

abbrev pub Dict {ℓ κ} : Type ℓ → Type κ → Type (ℓ ⊔ κ)
Dict K V = List (K × V)

module _ {ℓ κ} {K : Type ℓ} {V : Type κ} ⦃e : Eq K⦄ where
  -- `m.get(k)`
  abbrev pub lookup : K → Dict K V → Option V
  lookup k [] = none
  lookup k ((j, v) ∷ m) = if e.beq j k then some v else lookup k m

  -- `m.set(k, v)`
  abbrev pub insert : K → V → Dict K V → Dict K V
  insert k v [] = (k, v) ∷ []
  insert k v ((j, w) ∷ m) = if e.beq j k then (j, v) ∷ m else (j, w) ∷ insert k v m

  pub lookup-insert :
      (k j : K) (v : V) (m : Dict K V)
      → lookup j (insert k v m) ≡ (if e.beq k j then some v else lookup j m)
  lookup-insert k j v [] = refl
  lookup-insert k j v ((i, w) ∷ m) =
      ground (arith, e.beq_iff k j, e.beq_iff i k, e.beq_iff i j, lookup-insert k j v m)

  pub lookup-insert_self : (k : K) (v : V) (m : Dict K V) → lookup k (insert k v m) ≡ some v
  lookup-insert_self k v m = ground (arith, lookup-insert k k v m, e.beq_iff k k)

  pub lookup-insert_ne :
      (k j : K) (v : V) (m : Dict K V) → k ≢ j → lookup j (insert k v m) ≡ lookup j m
  lookup-insert_ne k j v m h = ground (arith, lookup-insert k j v m, e.beq_iff k j)

  -- Setting what is there changes nothing.
  pub insert_same : (k : K) (v : V) (m : Dict K V) → lookup k m ≡ some v → insert k v m ≡ m
  insert_same k v [] p = ground arith
  insert_same k v ((j, w) ∷ m) p = elim (Bool-cases (e.beq j k)) [
    | inl here ↦ rw here (ap (λ u. (j, u) ∷ m) (some-injective (sym p ∙ rw here refl)))
    | inr other ↦ rw other (ap (λ l. (j, w) ∷ l) (insert_same k v m (sym (rw other refl) ∙ p)))
  ]

  -- `new Map(entries)`: a later entry of a key overrides.
  abbrev pub from_list_onto : Dict K V → List (K × V) → Dict K V
  from_list_onto m [] = m
  from_list_onto m ((k, v) ∷ es) = from_list_onto (insert k v m) es

  abbrev pub from_list : List (K × V) → Dict K V
  from_list = from_list_onto []

  -- No key stands twice: each entry is the one that its key finds.
  abbrev pub IsDict : Dict K V → Type κ
  IsDict [] = Unit
  IsDict ((k, v) ∷ m) = (lookup k m ≡ none) × IsDict m

  pub insert-IsDict : (k : K) (v : V) (m : Dict K V) → IsDict m → IsDict (insert k v m)
  insert-IsDict k v [] h = (refl, tt)
  insert-IsDict k v ((j, w) ∷ m) h =
      ground (arith, insert-IsDict k v m h.1, lookup-insert k j v m, e.beq_iff j k, e.beq_iff k j)

  pub from_list_onto-IsDict :
      (m : Dict K V) (es : List (K × V)) → IsDict m → IsDict (from_list_onto m es)
  from_list_onto-IsDict m [] h = h
  from_list_onto-IsDict m ((k, v) ∷ es) h =
      from_list_onto-IsDict (insert k v m) es (insert-IsDict k v m h)
