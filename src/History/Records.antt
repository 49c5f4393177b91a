-- ===== src/History/Records.antt =====
-- The records of infra/history.ts and what they are made from.
use Prim.Native.String.{String}
use text.Mathlib.Text.{◌==◌ as str_eq}
use text.Mathlib.TextEquality.{eq_iff}
use native.Mathlib.Omega.{arith}
use boundless_stock.Prelude.{
  ℕ, Bool, true, false, not, ◌&&◌, ◌||◌, Option, none, some, ◌==◌, if◌then◌else◌, ◌≡◌, ◌↔◌, Eq,
}

pub data RequestStatus : Type 0 where
  pending filled refunded stranded cancelled : RequestStatus

pub data Vm : Type 0 where
  evm svm : Vm

pub data Side : Type 0 where
  buy sell : Side

-- The text `<chain>:<id>`. An id is a number, so the text gives both parts back.
abbrev pub Key : Type 0
Key = String × ℕ

unfoldable pub key_test : Key → Key → Bool
key_test a b = str_eq a.0 b.0 && a.1 == b.1

pub key_test_iff : (a b : Key) → (key_test a b ≡ true) ↔ (a ≡ b)
unfolding key_test
key_test_iff a b = ground (arith, eq_iff a.0 b.0)

instance abbrev pub key_eq : Eq Key
key_eq = record { beq = key_test; beq_iff = key_test_iff }

pub record HistoryRecord : Type 0 where
  pub key : Key
  pub chain_key : String
  pub chain_name : String
  pub vm : Vm
  pub id : ℕ
  pub user : String
  pub direction : Side
  pub token_in : String
  pub token_out : String
  pub amount_in : String
  pub min_amount_out : String
  pub amount_out : String
  pub status : RequestStatus
  pub failure_reason : ℕ
  pub lz_nonce : ℕ
  pub created_at : ℕ
  pub settled_at : ℕ
  pub stranded_held : Option String
  pub partner_id : Option ℕ

-- `STATUS[status] ?? "pending"`
abbrev pub status_of : ℕ → RequestStatus
status_of n =
    if n == 2
    then filled
    else if n == 3
    then refunded
    else if n == 4
    then stranded
    else if n == 5
    then cancelled
    else pending

abbrev pub is_pending : RequestStatus → Bool
is_pending pending = true
is_pending _ = false

abbrev pub is_stranded : RequestStatus → Bool
is_stranded stranded = true
is_stranded _ = false

-- `strandedHeld === "0"`
abbrev pub is_zero_text : Option String → Bool
is_zero_text none = false
is_zero_text (some s) = str_eq s "0"

-- Stranded, and not known to be recovered.
unfoldable pub is_held : HistoryRecord → Bool
is_held r = is_stranded r.status && not (is_zero_text r.stranded_held)

-- Whether a record can still change, and so must be read again.
unfoldable pub live : HistoryRecord → Bool
unfolding is_held
live r = is_pending r.status || is_held r

-- A request as a mirror's contract or program returns it.
pub record RawRequest : Type 0 where
  pub user : String
  pub direction : ℕ
  pub amount_in : ℕ
  pub min_amount_out : ℕ
  pub amount_out : ℕ
  pub created_at : ℕ
  pub settled_at : ℕ
  pub status : ℕ
  pub failure_reason : ℕ
  pub lz_nonce : ℕ

-- The two assets' symbols.
pub record Symbols : Type 0 where
  pub base : String
  pub quote : String

-- `format_units` is viem's.
module _ (format_units : ℕ → ℕ → String) where
  -- The record literal of both loops, for decimals of the stock and of the quote asset on the chain.
  unfoldable pub to_record :
      Symbols
      → ℕ
      → ℕ
      → Vm
      → String
      → String
      → ℕ
      → RawRequest
      → Option ℕ
      → Option HistoryRecord
      → HistoryRecord
  to_record sym base_dec quote_dec vm chain_key chain_name id r partner_id prev =
      let is_buy = r.direction == 0 in
      let in_dec = (if is_buy then quote_dec else base_dec) in
      let out_dec = (if is_buy then base_dec else quote_dec) in
      record {
        key = (chain_key, id);
        chain_key = chain_key;
        chain_name = chain_name;
        vm = vm;
        id = id;
        user = r.user;
        direction = if is_buy then buy else sell;
        token_in = if is_buy then sym.quote else sym.base;
        token_out = if is_buy then sym.base else sym.quote;
        amount_in = format_units r.amount_in in_dec;
        min_amount_out = format_units r.min_amount_out out_dec;
        amount_out = format_units r.amount_out out_dec;
        status = status_of r.status;
        failure_reason = r.failure_reason;
        lz_nonce = r.lz_nonce;
        created_at = r.created_at;
        settled_at = r.settled_at;
        stranded_held = elim prev [ none ↦ none | some p ↦ p.stranded_held ];
        partner_id = partner_id;
      }
