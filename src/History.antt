-- ===== src/History.antt =====
-- The trade history of infra/history.ts: every request on every mirror chain, kept by key, synced
-- from the state of the chains. Chain reads are arguments: `none` is a read that throws.
pub mod Records
pub mod Updates
pub mod Final
pub mod Sorted
mod Tests
use Prim.Native.String.{String}
use text.Mathlib.Text.{◌==◌ as str_eq}
use boundless_stock.Prelude.{
  ℕ, zero, suc, ◌+◌, ◌-◌, Bool, true, false, ◌&&◌, ◌||◌, Option, none, some, List, [], ◌∷◌, ◌++◌,
  map, ◌==◌, ltb, if◌then◌else◌, Dict, lookup, insert, from_list,
}
use Records.{
  HistoryRecord, RawRequest, Symbols, Key, key_eq, Vm, evm, svm, live, is_held, to_record,
}

abbrev pub Book : Type 0
Book = Dict Key HistoryRecord

pub record History : Type 0 where
  pub deployment : String
  -- The deployment instance that the records belong to.
  pub instance_id : Option String
  pub records : List HistoryRecord
  pub unreachable : List String

-- An EVM mirror: what the reads of its `SwapRequest` return.
pub record EvmMirror : Type 0 where
  pub key : String
  pub name : String
  -- There is a client for the chain and a SwapRequest in the manifest.
  pub configured : Bool
  pub next_request_id : Option ℕ
  pub get_request : ℕ → Option RawRequest
  -- The partner id of the request's fee escrow.
  pub get_fees : ℕ → Option ℕ

-- A Solana mirror: its mints' decimals and the accounts of `swap_request`, some of them absent.
pub record SolanaMirror : Type 0 where
  pub key : String
  pub name : String
  pub decimals : Option (ℕ × ℕ)
  pub next_request_id : Option ℕ
  pub get_request : ℕ → Option (Option RawRequest)
  pub get_fee_escrow : ℕ → Option (Option ℕ)

-- `prev && !live(prev)`: nothing about the record can change any more.
abbrev pub is_final : Option HistoryRecord → Bool
is_final none = false
is_final (some r) = if live r then false else true

-- `prev?.partnerId ?? read`
abbrev pub partner_or : Option HistoryRecord → Option (Option ℕ) → Option (Option ℕ)
partner_or none read = read
partner_or (some r) read = elim r.partner_id [ none ↦ read | some p ↦ some (some p) ]

-- `evmPartnerOf`
pub evm_partner_of : EvmMirror → ℕ → Option (Option ℕ)
evm_partner_of m id = elim (m.get_fees id) [
  | none ↦ none
  | some p ↦ some (if p == 0 then none else some p)
]

-- The rounds of a loop over ids: a round that throws ends it, and keeps what the ones before set.
pub sync_ids : (ℕ → Book → Option Book) → ℕ → ℕ → Book → Book × Bool
sync_ids round zero id book = (book, false)
sync_ids round (suc n) id book = elim (round id book) [
  | none ↦ (book, true)
  | some book' ↦ sync_ids round n (id + 1) book'
]

-- The loop over the ids 1 to next - 1, once `next` has been read.
pub sync_from : (ℕ → Book → Option Book) → Option ℕ → Book → Book × Bool
unfolding sync_ids
sync_from round none book = (book, true)
sync_from round (some next) book = sync_ids round (next - 1) 1 book

-- `byKey.set(key, …)`, once the request and its partner have been read.
pub store :
    Key
    → (RawRequest → Option ℕ → HistoryRecord)
    → Option RawRequest
    → Option (Option ℕ)
    → Book
    → Option Book
store key make none partner book = none
store key make (some r) none book = none
store key make (some r) (some p) book = some (insert key (make r p) book)

-- The same where the request's account may be absent, which passes over the id.
pub store_present :
    Key
    → (RawRequest → Option ℕ → HistoryRecord)
    → Option (Option RawRequest)
    → Option (Option ℕ)
    → Book
    → Option Book
unfolding store
store_present key make none partner book = none
store_present key make (some none) partner book = some book
store_present key make (some (some r)) partner book = store key make (some r) partner book

module _ (format_units : ℕ → ℕ → String) (sym : Symbols) (base_dec quote_dec : ℕ) where
  pub evm_round : EvmMirror → ℕ → Book → Option Book
  evm_round m id book =
      let key : Key = (m.key, id) in
      let prev = lookup key book in
      let make = λ (r : RawRequest) (p : Option ℕ).
        to_record format_units sym base_dec quote_dec evm m.key m.name id r p prev in
      if is_final prev
      then some book
      else store key make (m.get_request id) (partner_or prev (evm_partner_of m id)) book

  pub solana_round : SolanaMirror → ℕ × ℕ → ℕ → Book → Option Book
  solana_round m dec id book =
      let key : Key = (m.key, id) in
      let prev = lookup key book in
      let make = λ (r : RawRequest) (p : Option ℕ).
        to_record format_units sym dec.0 dec.1 svm m.key m.name id r p prev in
      if is_final prev
      then some book
      else store_present key make (m.get_request id) (partner_or prev (m.get_fee_escrow id)) book

  pub sync_evm : EvmMirror → Book → Book × Bool
  sync_evm m book =
      if m.configured then sync_from (evm_round m) m.next_request_id book else (book, false)

  pub sync_solana : SolanaMirror → Book → Book × Bool
  sync_solana m book = elim m.decimals [
    | none ↦ (book, true)
    | some dec ↦ sync_from (solana_round m dec) m.next_request_id book
  ]

  -- Both loops over mirrors: a mirror that could not be read to the end is listed.
  pub sync_evms : List EvmMirror → Book × List String → Book × List String
  sync_evms [] acc = acc
  sync_evms (m ∷ ms) acc =
      let (book, threw) = sync_evm m acc.0 in
      sync_evms ms (book, if threw then acc.1 ++ (m.key ∷ []) else acc.1)

  pub sync_solanas : List SolanaMirror → Book × List String → Book × List String
  sync_solanas [] acc = acc
  sync_solanas (m ∷ ms) acc =
      let (book, threw) = sync_solana m acc.0 in
      sync_solanas ms (book, if threw then acc.1 ++ (m.key ∷ []) else acc.1)

-- What the home chain still holds, read for each held record in turn until a read throws. The
-- records are the map's own objects, so a figure that was set stays set.
unfoldable pub hold_pass : (HistoryRecord → Option String) → Book → Book × Bool
hold_pass read [] = ([], false)
hold_pass read ((k, r) ∷ book) =
    let rest = hold_pass read book in
    if is_held r
    then elim (read r) [
      | none ↦ ((k, r) ∷ book, true)
      | some held ↦ ((k, record r { stranded_held = some held }) ∷ rest.0, rest.1)
    ]
    else ((k, r) ∷ rest.0, rest.1)

-- `sort((a, b) => b.createdAt - a.createdAt || a.key.localeCompare(b.key))`; `key_le` is
-- `localeCompare(…) <= 0`, which is the runtime's.
module _ (key_le : Key → Key → Bool) where
  abbrev pub ahead : HistoryRecord → HistoryRecord → Bool
  ahead a b = ltb b.created_at a.created_at || (a.created_at == b.created_at && key_le a.key b.key)

  pub place : HistoryRecord → List HistoryRecord → List HistoryRecord
  place r [] = r ∷ []
  place r (x ∷ xs) = if ahead r x then r ∷ x ∷ xs else x ∷ place r xs

  pub sort : List HistoryRecord → List HistoryRecord
  sort [] = []
  sort (r ∷ rs) = place r (sort rs)

-- The mirrors, the home chain and the runtime as one sync finds them.
pub record Chains : Type 0 where
  pub format_units : ℕ → ℕ → String
  pub key_le : Key → Key → Bool
  pub symbols : Symbols
  pub base_dec : ℕ
  pub quote_dec : ℕ
  pub evm_mirrors : List EvmMirror
  pub solana_mirrors : List SolanaMirror
  pub home_key : String
  pub stranded_held : HistoryRecord → Option String

abbrev pub same_instance : Option String → String → Bool
same_instance none i = false
same_instance (some j) i = str_eq j i

-- The records that a sync starts from: none of them if they are of another instance.
abbrev pub start_book : History → String → Book
start_book stored instance_id = from_list (
    map (λ r. (r.key, r))
      (if same_instance stored.instance_id instance_id then stored.records else []))

pub synced_book : Chains → Book → Book × List String
unfolding sync_solanas sync_evms hold_pass
synced_book c book =
    let evms = sync_evms c.format_units c.symbols c.base_dec c.quote_dec c.evm_mirrors (book, []) in
    let mirrors =
      sync_solanas c.format_units c.symbols c.base_dec c.quote_dec c.solana_mirrors evms in
    let held = hold_pass c.stranded_held mirrors.0 in
    (held.0, if held.1 then mirrors.1 ++ (c.home_key ∷ []) else mirrors.1)

pub sync_history : Chains → String → String → History → History
sync_history c name instance_id stored =
    let (book, unreachable) = synced_book c (start_book stored instance_id) in
    record {
      deployment = name;
      instance_id = some instance_id;
      records = sort c.key_le (map (λ e. e.1) book);
      unreachable = unreachable;
    }
