-- ===== src/Solana/Table/Extended.antt =====
-- Which addresses the lookup table holds, and how they are sent.
use boundless_stock.Prelude.{
  ℕ, zero, suc, ◌≤◌, ◌≡◌, ◌≢◌, refl, subst, sym, ap, ◌∙◌, ◌⊎◌, ◌↔◌, inl, inr, arith, true, ◌||◌,
  List, [], ◌∷◌, ◌++◌, length, length-drop, take-drop, take, drop, All, Has, Bool-cases, Eq,
}
use boundless_stock.Solana.Table.{member, add, add_all, table_addresses, slices, slices_from}

-- All the parts, one after the other.
abbrev pub joined : {A : Type 0} → List (List A) → List A
joined [] = []
joined (x ∷ xs) = x ++ joined xs

length-take : {A : Type 0} (k : ℕ) (xs : List A) → length (take k xs) ≤ k
length-take zero xs = omega arith
length-take (suc k) [] = omega arith
length-take (suc k) (x ∷ xs) = omega (arith, length-take k xs)

slices_from-joined :
    {A : Type 0} (fuel : ℕ) (xs : List A)
    → length xs ≤ fuel
    → (joined (slices_from fuel xs) ≡ xs) × All (λ s. length s ≤ 20) (slices_from fuel xs)
unfolding slices_from
slices_from-joined zero [] h = (refl, tt)
slices_from-joined zero (x ∷ xs) h = let no : ⊥ = omega arith in elim no [ ]
slices_from-joined (suc fuel) [] h = (refl, tt)
slices_from-joined (suc fuel) (x ∷ xs) h =
    let r = slices_from-joined fuel (drop 20 (x ∷ xs)) (omega (arith, length-drop 20 (x ∷ xs))) in
    (
      ap (λ l. take 20 (x ∷ xs) ++ l) r.0 ∙ sym (take-drop 20 (x ∷ xs)),
      (length-take 20 (x ∷ xs), r.1),
    )

-- Every address is sent once, in order, in transactions of at most twenty.
pub slices-joined :
    {A : Type 0} (xs : List A) → (joined (slices xs) ≡ xs) × All (λ s. length s ≤ 20) (slices xs)
unfolding slices
slices-joined xs = slices_from-joined (length xs) xs (omega arith)

module _ {Key : Type 0} ⦃e : Eq Key⦄ where
  abbrev pub IsDistinct : List Key → Type 0
  IsDistinct [] = Unit
  IsDistinct (k ∷ ks) = (¬ Has k ks) × IsDistinct ks

  pub member_iff : (k : Key) (ks : List Key) → (member k ks ≡ true) ↔ Has k ks
  member_iff k [] = ground arith
  member_iff k (j ∷ ks) = ground (arith, e.beq_iff j k, member_iff k ks)

  pub Has-append : (k : Key) (xs ys : List Key) → Has k (xs ++ ys) ↔ (Has k xs ⊎ Has k ys)
  Has-append k [] ys = ground arith
  Has-append k (x ∷ xs) ys = ground (arith, Has-append k xs ys)

  Has-add : (k j : Key) (set : List Key) → Has k (add j set) ↔ ((j ≡ k) ⊎ Has k set)
  Has-add k j set = elim (Bool-cases (member j set)) [
    | inl here ↦
        let has = (member_iff j set).0 here in
        let moved : j ≡ k → Has k set = λ p. subst (λ x. Has x set) p has in rw here (ground arith)
    | inr absent ↦ rw absent (ground (arith, Has-append k set (j ∷ [])))
  ]

  append-IsDistinct :
      (j : Key) (set : List Key) → IsDistinct set → ¬ Has j set → IsDistinct (set ++ (j ∷ []))
  append-IsDistinct j [] h absent = (λ x. x, tt)
  append-IsDistinct j (k ∷ ks) h absent =
      let apart : ¬ Has k (ks ++ (j ∷ [])) =
        ground (arith, Has-append k ks (j ∷ []), (λ (p : j ≡ k). absent (inl (sym p)))) in
      (apart, append-IsDistinct j ks h.1 λ x. absent (inr x))

  add-IsDistinct : (j : Key) (set : List Key) → IsDistinct set → IsDistinct (add j set)
  add-IsDistinct j set h = elim (Bool-cases (member j set)) [
    | inl here ↦ rw here h
    | inr absent ↦ rw absent (append-IsDistinct j set h (ground (arith, member_iff j set)))
  ]

  pub add_all-IsDistinct : (js set : List Key) → IsDistinct set → IsDistinct (add_all js set)
  unfolding add_all
  add_all-IsDistinct [] set h = h
  add_all-IsDistinct (j ∷ js) set h = add_all-IsDistinct js (add j set) (add-IsDistinct j set h)

  pub add_all_iff : (k : Key) (js set : List Key) → Has k (add_all js set) ↔ (Has k js ⊎ Has k set)
  unfolding add_all
  add_all_iff k [] set = ground arith
  add_all_iff k (j ∷ js) set = ground (arith, add_all_iff k js (add j set), Has-add k j set)

  pub table_addresses_iff :
      (own : List Key) (user : Key) (ks : List Key) (k : Key)
      → Has k (table_addresses own user ks) ↔ (Has k ks × (¬ Has k own) × (k ≢ user))
  unfolding table_addresses
  table_addresses_iff own user [] k = ground arith
  table_addresses_iff own user (j ∷ ks) k = elim (Bool-cases (member j own || e.beq j user)) [
    | inl skipped ↦
        let out : j ≡ k → ¬ ((¬ Has k own) × (k ≢ user)) = λ p.
          subst (λ x. ¬ ((¬ Has x own) × (x ≢ user))) p
            (ground (arith, member_iff j own, e.beq_iff j user)) in
        rw skipped (ground (arith, table_addresses_iff own user ks k))
    | inr taken ↦
        let fine : (¬ Has j own) × (j ≢ user) =
          ground (arith, member_iff j own, e.beq_iff j user) in
        let moved : j ≡ k → (¬ Has k own) × (k ≢ user) =
          λ p. subst (λ x. (¬ Has x own) × (x ≢ user)) p fine in
        rw taken (ground (arith, table_addresses_iff own user ks k))
  ]

  pub table_addresses-IsDistinct :
      (own : List Key) (user : Key) (ks : List Key)
      → IsDistinct ks
      → IsDistinct (table_addresses own user ks)
  unfolding table_addresses
  table_addresses-IsDistinct own user [] h = tt
  table_addresses-IsDistinct own user (j ∷ ks) h =
      elim (Bool-cases (member j own || e.beq j user)) [
        | inl skipped ↦ rw skipped (table_addresses-IsDistinct own user ks h.1)
        | inr taken ↦ rw taken (
          λ x. h.0 ((table_addresses_iff own user ks j).0 x).0,
          table_addresses-IsDistinct own user ks h.1,
        )
      ]
