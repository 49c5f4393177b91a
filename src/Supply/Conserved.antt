-- ===== src/Supply/Conserved.antt =====
-- Transfers do not change what is issued: the measurement of infra/lib/omnisupply.ts while units
-- leave one chain and land on another.
use boundless_stock.Prelude.{
  ℕ, ◌+◌, ◌*◌, ◌≡◌, refl, sym, ap, ◌∙◌, arith, Option, none, some, List, [], ◌∷◌, ◌++◌, Result, ok,
  bind-ok, ok-same,
}
use boundless_stock.Prelude.Int.{
  ℤ, pos, sub_ℕ, ◌+ℤ◌, +ℤ_assoc, IsDifference, sub_ℕ-IsDifference, +ℤ-IsDifference,
  difference_unique, int_laws,
}
use boundless_stock.Supply.Readings.{SupplyError, Reading}
use boundless_stock.Supply.{
  SupplyRow, Tally, scale, supply_of, expected_of, add_reading, tally_one, tally, total_of, summary,
}

-- One event on one chain, of `x` units: an OFT burns and counts out, or mints and counts in; an
-- adapter locks and counts out, or unlocks and counts in.
infix 40 ◌⟿◌
pub data ◌⟿◌ : Reading → Reading → Type 0 where
  burn :
      (r : Reading) (x : ℕ)
      → r.locked ≡ none
      → record r { raw = r.raw + x } ⟿ record r { bridged_out = r.bridged_out + x }
  mint :
      (r : Reading) (x : ℕ)
      → r.locked ≡ none
      → r ⟿ record r { raw = r.raw + x; bridged_in = r.bridged_in + x }
  lock :
      (r : Reading) (l x : ℕ)
      → record r { locked = some l }
        ⟿ record r { locked = some (l + x); bridged_out = r.bridged_out + x }
  unlock :
      (r : Reading) (l x : ℕ)
      → record r { locked = some (l + x) }
        ⟿ record r { locked = some l; bridged_in = r.bridged_in + x }

abbrev pub Entry : Type 0
Entry = Result SupplyError (Option Reading)

pub data Moved : List Entry → List Entry → Type 0 where
  here : {r r' : Reading} (rs : List Entry) → r ⟿ r' → Moved (ok (some r) ∷ rs) (ok (some r') ∷ rs)
  there : (e : Entry) {rs rs' : List Entry} → Moved rs rs' → Moved (e ∷ rs) (e ∷ rs')

-- Any events in any order.
pub data Transfers : List Entry → List Entry → Type 0 where
  done : (rs : List Entry) → Transfers rs rs
  next : {rs ss us : List Entry} → Moved rs ss → Transfers ss us → Transfers rs us

abbrev issued : Tally → ℤ
issued t = total_of t.rows +ℤ sub_ℕ t.flow_out t.flow_in

abbrev Agree : Tally → Tally → Type 0
Agree t u = (issued t ≡ issued u) × (t.expected ≡ u.expected)

-- What a chain adds to what is issued, at scale k.
abbrev share : ℕ → Reading → ℤ
share k r = supply_of k r.raw r.locked +ℤ sub_ℕ (r.bridged_out * k) (r.bridged_in * k)

zero_sum : (a : ℤ) → a +ℤ pos 0 ≡ pos 0 +ℤ a
zero_sum a = omega int_laws

crossed : (a b c d : ℤ) → a +ℤ b +ℤ (c +ℤ d) ≡ a +ℤ c +ℤ (b +ℤ d)
crossed a b c d = omega int_laws

total_of-snoc :
    (rows : List SupplyRow) (r : SupplyRow)
    → total_of (rows ++ (r ∷ [])) ≡ total_of rows +ℤ r.supply
total_of-snoc [] r = zero_sum r.supply
total_of-snoc (q ∷ rows) r =
    rw (total_of-snoc rows r) (sym (+ℤ_assoc q.supply (total_of rows) r.supply))

flow_sum : (a b c d : ℕ) → sub_ℕ (a + c) (b + d) ≡ sub_ℕ a b +ℤ sub_ℕ c d
flow_sum a b c d =
    difference_unique (sub_ℕ (a + c) (b + d)) (sub_ℕ a b +ℤ sub_ℕ c d) (a + c) (b + d) (a + c)
      (b + d) (sub_ℕ-IsDifference (a + c) (b + d))
      (+ℤ-IsDifference (sub_ℕ a b) (sub_ℕ c d) a b c d (sub_ℕ-IsDifference a b)
        (sub_ℕ-IsDifference c d))
      refl

issued-add_reading :
    (r : Reading) (t : Tally) (k : ℕ) → issued (add_reading r t k) ≡ issued t +ℤ share k r
issued-add_reading r t k =
    rw
      (total_of-snoc t.rows _, flow_sum t.flow_out t.flow_in (r.bridged_out * k) (r.bridged_in * k))
      (crossed (total_of t.rows) _ (sub_ℕ t.flow_out t.flow_in) _)

abbrev locked_amount : Option ℕ → ℕ
locked_amount none = 0
locked_amount (some l) = l

supply-IsDifference :
    (k raw : ℕ) (locked : Option ℕ)
    → IsDifference (supply_of k raw locked) (raw * k) (locked_amount locked * k)
supply-IsDifference k raw none = omega arith
supply-IsDifference k raw (some l) = sub_ℕ-IsDifference (raw * k) (l * k)

share-IsDifference :
    (k : ℕ) (r : Reading)
    → IsDifference
        (share k r)
        (r.raw * k + r.bridged_out * k)
        (locked_amount r.locked * k + r.bridged_in * k)
share-IsDifference k r =
    +ℤ-IsDifference (supply_of k r.raw r.locked) (sub_ℕ (r.bridged_out * k) (r.bridged_in * k)) _ _
      _ _ (supply-IsDifference k r.raw r.locked)
      (sub_ℕ-IsDifference (r.bridged_out * k) (r.bridged_in * k))

share_same :
    (k : ℕ) (r r' : Reading)
    → r.raw * k + r.bridged_out * k + (locked_amount r'.locked * k + r'.bridged_in * k)
      ≡ r'.raw * k + r'.bridged_out * k + (locked_amount r.locked * k + r.bridged_in * k)
    → share k r ≡ share k r'
share_same k r r' e =
    difference_unique (share k r) (share k r') _ _ _ _ (share-IsDifference k r)
      (share-IsDifference k r') e

share-⟿ : (k : ℕ) {r r' : Reading} → r ⟿ r' → share k r ≡ share k r'
share-⟿ k (burn r x n) =
    share_same k (record r { raw = r.raw + x }) (record r { bridged_out = r.bridged_out + x })
      (omega arith)
share-⟿ k (mint r x n) =
    share_same k r (record r { raw = r.raw + x; bridged_in = r.bridged_in + x }) (omega arith)
share-⟿ k (lock r l x) =
    share_same k (record r { locked = some l })
      (record r { locked = some (l + x); bridged_out = r.bridged_out + x }) (omega arith)
share-⟿ k (unlock r l x) =
    share_same k (record r { locked = some (l + x) })
      (record r { locked = some l; bridged_in = r.bridged_in + x }) (omega arith)

expected-⟿ :
    (k : ℕ) (e : ℤ) {r r' : Reading}
    → r ⟿ r'
    → expected_of k r.raw r.locked e ≡ expected_of k r'.raw r'.locked e
expected-⟿ k e (burn r x n) = rw n refl
expected-⟿ k e (mint r x n) = rw n refl
expected-⟿ k e (lock r l x) = refl
expected-⟿ k e (unlock r l x) = refl

decimals-⟿ : {r r' : Reading} → r ⟿ r' → r.decimals ≡ r'.decimals
decimals-⟿ (burn r x n) = refl
decimals-⟿ (mint r x n) = refl
decimals-⟿ (lock r l x) = refl
decimals-⟿ (unlock r l x) = refl

add_reading-Agree :
    (r : Reading) (t u : Tally) (k : ℕ) → Agree t u → Agree (add_reading r t k) (add_reading r u k)
add_reading-Agree r t u k (same, expected) = (
  issued-add_reading r t k ∙ ap (λ z. z +ℤ share k r) same ∙ sym (issued-add_reading r u k),
  ap (expected_of k r.raw r.locked) expected,
)

add_reading-moved :
    {r r' : Reading} (t : Tally) (k : ℕ) → r ⟿ r' → Agree (add_reading r t k) (add_reading r' t k)
add_reading-moved {r = r} {r' = r'} t k m = (
  issued-add_reading r t k
      ∙ ap (λ z. issued t +ℤ z) (share-⟿ k m)
      ∙ sym (issued-add_reading r' t k),
  expected-⟿ k t.expected m,
)

-- The other measurement also ends well, and agrees.
abbrev Matches : Tally → Result SupplyError Tally → Type 0
Matches t m = (u : Tally) × ((m ≡ ok u) × Agree t u)

tally_one-Agree :
    (dec : ℕ) (o : Option Reading) (t u v : Tally)
    → Agree t u
    → tally_one dec o t ≡ ok v
    → Matches v (tally_one dec o u)
unfolding tally_one
tally_one-Agree dec none t u v a p = ok-same (λ w. Matches w (ok u)) t v (u, (refl, a)) p
tally_one-Agree dec (some r) t u v a p = bind-ok (scale dec r.decimals) p λ k found p. rw found (
    ok-same (λ w. Matches w (ok (add_reading r u k))) _ v (_, (refl, add_reading-Agree r t u k a))
      p)

tally-Agree :
    (dec : ℕ) (rs : List Entry) (t u v : Tally)
    → Agree t u
    → tally dec rs t ≡ ok v
    → Matches v (tally dec rs u)
unfolding tally
tally-Agree dec [] t u v a p = ok-same (λ w. Matches w (ok u)) t v (u, (refl, a)) p
tally-Agree dec (r ∷ rs) t u v a p = bind-ok r p λ o read p.
    bind-ok (tally_one dec o t) p λ t' first rest.
      let (u', (one, agree)) = tally_one-Agree dec o t u t' a first in
      rw (read, one) (tally-Agree dec rs t' u' v agree rest)

tally-Moved :
    (dec : ℕ) {rs rs' : List Entry} (t v : Tally)
    → Moved rs rs'
    → tally dec rs t ≡ ok v
    → Matches v (tally dec rs' t)
unfolding tally tally_one
tally-Moved dec t v (here {r = r} {r' = r'} rs m) p =
    bind-ok (tally_one dec (some r) t) p λ t' first rest.
      bind-ok (scale dec r.decimals) first λ k found first.
        let found' : scale dec r'.decimals ≡ ok k = rw (sym (decimals-⟿ m)) found in
        let rest' = ok-same (λ w. tally dec rs w ≡ ok v) t' (add_reading r t k) rest (sym first) in
        rw found' (
          tally-Agree dec rs (add_reading r t k) (add_reading r' t k) v (add_reading-moved t k m)
            rest')
tally-Moved dec t v (there e {rs = rs} m) p = bind-ok e p λ o read p.
    bind-ok (tally_one dec o t) p λ t' first rest. rw (read, first) (tally-Moved dec t' v m rest)

tally-Transfers :
    (dec : ℕ) {rs us : List Entry} (t v : Tally)
    → Transfers rs us
    → tally dec rs t ≡ ok v
    → Matches v (tally dec us t)
tally-Transfers dec t v (done rs) p = (v, (p, (refl, refl)))
tally-Transfers dec t v (next m ms) p =
    let (v', (one, agree)) = tally-Moved dec t v m p in
    let (w, (all, agrees)) = tally-Transfers dec t v' ms one in
    (w, (all, (agree.0 ∙ agrees.0, agree.1 ∙ agrees.1)))

-- Where the supply of a set of chains can be measured, it can be measured after any transfers among
-- them, finished or not: the supply on all chains with what is in flight, and what is expected, are
-- the same integers.
pub supply-Transfers :
    (dec : ℕ) (rs us : List Entry) (t v : Tally)
    → Transfers rs us
    → tally dec rs t ≡ ok v
    → (w : Tally) × ((tally dec us t ≡ ok w)
        × (((summary dec v).total +ℤ (summary dec v).in_flight
              ≡ (summary dec w).total +ℤ (summary dec w).in_flight)
            × ((summary dec v).expected ≡ (summary dec w).expected)))
supply-Transfers dec rs us t v ms p = tally-Transfers dec t v ms p
