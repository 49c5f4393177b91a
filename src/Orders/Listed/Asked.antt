-- ===== src/Orders/Listed/Asked.antt =====
-- Which orders are listed: `listOrders` of infra/api/orders.ts.
use Prim.Native.String.{String}
use boundless_stock.Prelude.{
  ℕ, suc, zero, ◌+◌, ◌-◌, ◌≡◌, inl, inr, refl, sym, ap, subst, ◌∙◌, arith, Bool-cases, true, false,
  Option-cases, some-injective, some, List, [], ◌∷◌, ◌++◌, append_assoc, append-nil, leb, max,
  Result, ok, err, ◌>>=◌, Result-cases, ok-injective, Dict, lookup, insert, lookup-insert, length,
  length-append, take, All, string_eq, either, if◌then◌else◌,
}
use boundless_stock.History.Records.{Vm, HistoryRecord}
use boundless_stock.Orders.Build.Data.{OrderError}
use boundless_stock.Orders.Listed.{
  Tokens, OrderQuery, ListedOrder, limit_of, matches, to_order, collect, kept_terms, take_one,
  list_orders,
}

module _ (lower : String → String) (parse_units : String → ℕ → Result OrderError ℕ)
    (mirror_terms : String → Vm → Result OrderError Tokens) (vm_of : String → Vm) where
  -- A record as an order, with the terms read for it alone.
  abbrev pub order_for : HistoryRecord → Result OrderError ListedOrder
  order_for r = mirror_terms r.chain_key r.vm >>= λ t. to_order lower parse_units mirror_terms r t

  abbrev pub orders_for : List HistoryRecord → Result OrderError (List ListedOrder)
  orders_for [] = ok []
  orders_for (r ∷ rs) = order_for r >>= λ o. orders_for rs >>= λ os. ok (o ∷ os)

  abbrev pub asked : OrderQuery → List HistoryRecord → List HistoryRecord
  asked q [] = []
  asked q (r ∷ rs) =
      either (matches lower parse_units mirror_terms q r) (asked q rs) (r ∷ asked q rs)

  -- A chain's records are all of its virtual machine.
  abbrev pub IsOfVm : HistoryRecord → Type 0
  IsOfVm r = r.vm ≡ vm_of r.chain_key

  ok≢err :
      {A : Type 0} {P : Type 0} {a : A} {e : OrderError}
      → Path (Result OrderError A) (ok a) (err e)
      → P
  ok≢err p = cc

  abbrev AreKept : Dict String Tokens → Type 0
  AreKept terms =
      (c : String) (t : Tokens) → lookup c terms ≡ some t → mirror_terms c (vm_of c) ≡ ok t

  insert-AreKept :
      (terms : Dict String Tokens) (c : String) (t : Tokens)
      → AreKept terms
      → mirror_terms c (vm_of c) ≡ ok t
      → AreKept (insert c t terms)
  insert-AreKept terms c t kept read d u found = elim (Bool-cases (string_eq.beq c d)) [
    | inl same ↦
        subst (λ x. mirror_terms x (vm_of x) ≡ ok u) ((string_eq.beq_iff c d).0 same)
          (read ∙ ap ok (some-injective (sym (lookup-insert c d t terms ∙ rw same refl) ∙ found)))
    | inr other ↦ kept d u (sym (lookup-insert c d t terms ∙ rw other refl) ∙ found)
  ]

  -- The kept terms are those that the mirror says.
  kept_terms-read :
      (r : HistoryRecord) (terms : Dict String Tokens) (t : Tokens)
      → IsOfVm r
      → AreKept terms
      → mirror_terms r.chain_key r.vm ≡ ok t
      → (terms' : Dict String Tokens) × ((kept_terms lower parse_units mirror_terms
              (lookup r.chain_key terms)
              terms
              r
            ≡ ok (t, terms'))
          × AreKept terms')
  kept_terms-read r terms t of_vm kept read = elim (Option-cases (lookup r.chain_key terms)) [
    | inl missing ↦ (
      insert r.chain_key t terms,
      (rw (missing, read) refl, insert-AreKept terms r.chain_key t kept (rw (sym of_vm) read)),
    )
    | inr (u, found) ↦ (
      terms,
      (
        rw found (
            ap (λ x. ok (x, terms))
              (ok-injective (sym (kept r.chain_key u found) ∙ rw (sym of_vm) read))),
        kept,
      ),
    )
  ]

  abbrev after :
      OrderQuery → List ListedOrder → ℕ → List HistoryRecord → Result OrderError (List ListedOrder)
  after q out k rs = orders_for (take k rs) >>= λ os. ok (out ++ os)

  push-after :
      (m : Result OrderError (List ListedOrder)) (out : List ListedOrder) (o : ListedOrder)
      → (m >>= λ os. ok ((out ++ (o ∷ [])) ++ os))
        ≡ ((m >>= λ os. ok (o ∷ os)) >>= λ os. ok (out ++ os))
  push-after (ok os) out o = ap ok (append_assoc out (o ∷ []) os)
  push-after (err e) out o = refl

  enough : (limit n : ℕ) → max 1 limit ≡ n + suc zero → leb limit (n + 1) ≡ true
  enough limit n h = ground arith

  too_few : (limit n k : ℕ) → max 1 limit ≡ n + suc (suc k) → leb limit (n + 1) ≡ false
  too_few limit n k h = ground arith

  room-push :
      (out : List ListedOrder) (o : ListedOrder) (n k : ℕ)
      → n ≡ length out + suc (suc k)
      → n ≡ length (out ++ (o ∷ [])) + suc k
  room-push out o n k h = omega (arith, length-append out (o ∷ []))

  pushed :
      (q : OrderQuery) (rs : List HistoryRecord) (terms : Dict String Tokens)
      (out : List ListedOrder) (o : ListedOrder) (k : ℕ)
      (rest : Dict String Tokens → List ListedOrder → Result OrderError (List ListedOrder))
      → AreKept terms
      → max 1 (limit_of q.limit) ≡ length out + suc k
      → ((terms : Dict String Tokens) (out : List ListedOrder) (k : ℕ)
          → AreKept terms
          → max 1 (limit_of q.limit) ≡ length out + suc k
          → rest terms out ≡ after q out (suc k) rs)
      → (if leb (limit_of q.limit) (length (out ++ (o ∷ [])))
          then ok (out ++ (o ∷ []))
          else rest terms (out ++ (o ∷ [])))
        ≡ ((orders_for (take k rs) >>= λ os. ok (o ∷ os)) >>= λ os. ok (out ++ os))
  pushed q rs terms out o zero rest kept room step =
      rw (length-append out (o ∷ []), enough (limit_of q.limit) (length out) room) refl
  pushed q rs terms out o (suc k) rest kept room step =
      rw (length-append out (o ∷ []), too_few (limit_of q.limit) (length out) k room)
        (step terms (out ++ (o ∷ [])) k kept (room-push out o _ k room)
          ∙ push-after (orders_for (take (suc k) rs)) out o)

  -- A loop body followed by the rest of the loop, where the rest is as claimed.
  take_one-after :
      (q : OrderQuery) (r : HistoryRecord) (rs : List HistoryRecord) (terms : Dict String Tokens)
      (out : List ListedOrder) (k : ℕ)
      (rest : Dict String Tokens → List ListedOrder → Result OrderError (List ListedOrder))
      → IsOfVm r
      → AreKept terms
      → max 1 (limit_of q.limit) ≡ length out + suc k
      → ((terms : Dict String Tokens) (out : List ListedOrder) (k : ℕ)
          → AreKept terms
          → max 1 (limit_of q.limit) ≡ length out + suc k
          → rest terms out ≡ after q out (suc k) rs)
      → take_one lower parse_units mirror_terms q r rest terms out ≡ after q out (suc k) (r ∷ rs)
  take_one-after q r rs terms out k rest of_vm kept room step =
      elim (Result-cases (mirror_terms r.chain_key r.vm)) [
        | inl (t, read) ↦
            let (terms', (same, kept')) = kept_terms-read r terms t of_vm kept read in
            elim (Result-cases (to_order lower parse_units mirror_terms r t)) [
              | inl (o, made) ↦
                  rw (same, read, made) (pushed q rs terms' out o k rest kept' room step)
              | inr (e, bad) ↦ rw (same, read, bad) refl
            ]
        | inr (e, bad) ↦ elim (Option-cases (lookup r.chain_key terms)) [
          | inl missing ↦ rw (missing, bad) refl
          | inr (u, found) ↦ ok≢err {e = e} (sym (kept r.chain_key u found) ∙ rw (sym of_vm) bad)
        ]
      ]

  collect-orders :
      (q : OrderQuery) (rs : List HistoryRecord) (terms : Dict String Tokens)
      (out : List ListedOrder) (k : ℕ)
      → All IsOfVm rs
      → AreKept terms
      → max 1 (limit_of q.limit) ≡ length out + suc k
      → collect lower parse_units mirror_terms q rs terms out ≡ after q out (suc k) (asked q rs)
  unfolding collect
  collect-orders q [] terms out k of_vm kept room = ap ok (sym (append-nil out))
  collect-orders q (r ∷ rs) terms out k of_vm kept room =
      elim (Bool-cases (matches lower parse_units mirror_terms q r)) [
        | inl yes' ↦ rw yes' (
            take_one-after q r (asked q rs) terms out k
              (collect lower parse_units mirror_terms q rs) (of_vm.0) kept room
              (λ terms out k kept room. collect-orders q rs terms out k (of_vm.1) kept room))
        | inr no' ↦ rw no' (collect-orders q rs terms out k (of_vm.1) kept room)
      ]

  bind-same : (m : Result OrderError (List ListedOrder)) → (m >>= λ os. ok os) ≡ m
  bind-same (ok os) = refl
  bind-same (err e) = refl

  nothing_kept : AreKept []
  nothing_kept c t found = ground arith

  -- Where a chain's records are all of its virtual machine: the listed orders are the first that
  -- match the query's user, chain and status, in the history's order, as many as the limit says but
  -- at least one, each with the terms of its own chain; and it throws where making one of those throws.
  pub list_orders-asked :
      (q : OrderQuery) (records : List HistoryRecord)
      → All IsOfVm records
      → list_orders lower parse_units mirror_terms records q
        ≡ orders_for (take (max 1 (limit_of q.limit)) (asked q records))
  unfolding list_orders
  list_orders-asked q records of_vm =
      let e : max 1 (limit_of q.limit) ≡ suc (max 1 (limit_of q.limit) - 1) = omega arith in
      collect-orders q records [] [] (max 1 (limit_of q.limit) - 1) of_vm nothing_kept (omega arith)
      ∙ (rw (sym e) (bind-same (orders_for (take (max 1 (limit_of q.limit)) (asked q records)))))
