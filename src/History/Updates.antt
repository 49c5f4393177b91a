-- ===== src/History/Updates.antt =====
-- What a sync may do to the book of records: set the record of a key whose old record can still
-- change. Both mirror loops do no more than that.
use boundless_stock.Prelude.{
  ℕ, zero, suc, ◌+◌, ◌-◌, ◌≡◌, refl, inl, inr, Bool, true, false, Option, none, some, List, [], ◌∷◌,
  Bool-cases, lookup, insert, if◌then◌else◌,
}
use Prim.Native.String.{String}
use boundless_stock.History.Records.{HistoryRecord, Key, Symbols, key_eq, to_record, RawRequest}
use boundless_stock.History.{
  Book, EvmMirror, SolanaMirror, is_final, evm_round, solana_round, sync_ids, sync_from, store,
  store_present, sync_evm, sync_solana, sync_evms, sync_solanas,
}

pub data Updates (b : Book) : Book → Type 0 where
  same : Updates b b
  set :
      {c : Book} (k : Key) (r : HistoryRecord)
      → Updates b c
      → is_final (lookup k c) ≡ false
      → r.key ≡ k
      → Updates b (insert k r c)

Updates-trans : {a b c : Book} → Updates a b → Updates b c → Updates a c
Updates-trans u same = u
Updates-trans u (set k r v open_ e) = set k r (Updates-trans u v) open_ e

-- A round that throws sets nothing.
abbrev pub RoundUpdates : Book → Option Book → Type 0
RoundUpdates b none = Unit
RoundUpdates b (some c) = Updates b c

if-Updates :
    {b : Book} (c : Bool) (x y : Book × Bool)
    → Updates b x.0
    → Updates b y.0
    → Updates b (if c then x else y).0
if-Updates true x y u v = u
if-Updates false x y u v = v

store-RoundUpdates :
    (k : Key) (make : RawRequest → Option ℕ → HistoryRecord) (q : Option RawRequest)
    (p : Option (Option ℕ)) (b : Book)
    → ((r : RawRequest) (o : Option ℕ) → (make r o).key ≡ k)
    → is_final (lookup k b) ≡ false
    → RoundUpdates b (store k make q p b)
unfolding store
store-RoundUpdates k make none p b keyed open_ = tt
store-RoundUpdates k make (some r) none b keyed open_ = tt
store-RoundUpdates k make (some r) (some o) b keyed open_ = set k (make r o) same open_ (keyed r o)

store_present-RoundUpdates :
    (k : Key) (make : RawRequest → Option ℕ → HistoryRecord) (q : Option (Option RawRequest))
    (p : Option (Option ℕ)) (b : Book)
    → ((r : RawRequest) (o : Option ℕ) → (make r o).key ≡ k)
    → is_final (lookup k b) ≡ false
    → RoundUpdates b (store_present k make q p b)
unfolding store_present
store_present-RoundUpdates k make none p b keyed open_ = tt
store_present-RoundUpdates k make (some none) p b keyed open_ = same
store_present-RoundUpdates k make (some (some r)) p b keyed open_ =
    store-RoundUpdates k make (some r) p b keyed open_

sync_ids-Updates :
    (round : ℕ → Book → Option Book) (n id : ℕ) (b : Book)
    → ((id : ℕ) (c : Book) → RoundUpdates c (round id c))
    → Updates b (sync_ids round n id b).0
unfolding sync_ids
sync_ids-Updates round zero id b h = same
sync_ids-Updates round (suc n) id b h =
    (elim (round id b)
        as (λ o.
          RoundUpdates b o
          → Updates b
              (elim o as (λ _. Book × Bool) [
                | none ↦ (b, true)
                | some c ↦ sync_ids round n (id + 1) c
              ]).0) [
                | none ↦ λ u. same
                | some c ↦ λ u. Updates-trans u (sync_ids-Updates round n (id + 1) c h)
              ])
      (h id b)

sync_from-Updates :
    (round : ℕ → Book → Option Book) (next : Option ℕ) (b : Book)
    → ((id : ℕ) (c : Book) → RoundUpdates c (round id c))
    → Updates b (sync_from round next b).0
unfolding sync_from
sync_from-Updates round none b h = same
sync_from-Updates round (some next) b h = sync_ids-Updates round (next - 1) 1 b h

module _ (format_units : ℕ → ℕ → String) (sym : Symbols) (base_dec quote_dec : ℕ) where
  evm_round-RoundUpdates :
      (m : EvmMirror) (id : ℕ) (b : Book)
      → RoundUpdates b (evm_round format_units sym base_dec quote_dec m id b)
  unfolding evm_round to_record
  evm_round-RoundUpdates m id b = elim (Bool-cases (is_final (lookup (m.key, id) b))) [
    | inl e ↦ rw e same
    | inr e ↦ rw e (store-RoundUpdates (m.key, id) _ (m.get_request id) _ b (λ r o. refl) e)
  ]

  solana_round-RoundUpdates :
      (m : SolanaMirror) (dec : ℕ × ℕ) (id : ℕ) (b : Book)
      → RoundUpdates b (solana_round format_units sym base_dec quote_dec m dec id b)
  unfolding solana_round to_record
  solana_round-RoundUpdates m dec id b = elim (Bool-cases (is_final (lookup (m.key, id) b))) [
    | inl e ↦ rw e same
    | inr e ↦ rw e (store_present-RoundUpdates (m.key, id) _ (m.get_request id) _ b (λ r o. refl) e)
  ]

  sync_evm-Updates :
      (m : EvmMirror) (b : Book) → Updates b (sync_evm format_units sym base_dec quote_dec m b).0
  unfolding sync_evm
  sync_evm-Updates m b =
      if-Updates m.configured _ _
        (sync_from-Updates _ m.next_request_id b (evm_round-RoundUpdates m)) same

  sync_solana-Updates :
      (m : SolanaMirror) (b : Book)
      → Updates b (sync_solana format_units sym base_dec quote_dec m b).0
  unfolding sync_solana
  sync_solana-Updates m b =
      elim m.decimals
        as (λ d.
          Updates b
            (elim d as (λ _. Book × Bool) [
              | none ↦ (b, true)
              | some dec ↦
                  sync_from (solana_round format_units sym base_dec quote_dec m dec)
                    m.next_request_id b
            ]).0) [
              | none ↦ same
              | some dec ↦ sync_from-Updates _ m.next_request_id b (solana_round-RoundUpdates m dec)
            ]

  pub sync_evms-Updates :
      (ms : List EvmMirror) (b : Book) (acc : Book × List String)
      → Updates b acc.0
      → Updates b (sync_evms format_units sym base_dec quote_dec ms acc).0
  unfolding sync_evms
  sync_evms-Updates [] b acc u = u
  sync_evms-Updates (m ∷ ms) b acc u =
      sync_evms-Updates ms b _ (Updates-trans u (sync_evm-Updates m acc.0))

  pub sync_solanas-Updates :
      (ms : List SolanaMirror) (b : Book) (acc : Book × List String)
      → Updates b acc.0
      → Updates b (sync_solanas format_units sym base_dec quote_dec ms acc).0
  unfolding sync_solanas
  sync_solanas-Updates [] b acc u = u
  sync_solanas-Updates (m ∷ ms) b acc u =
      sync_solanas-Updates ms b _ (Updates-trans u (sync_solana-Updates m acc.0))
