-- ===== src/Orders/Listed.antt =====
-- `listOrders` and `toOrder` of infra/api/orders.ts. The history that it filters, what a mirror says of
-- its tokens, viem's `parseUnits` and JavaScript's `toLowerCase` are arguments.
pub mod Asked
mod Tests
use Prim.Native.String.{String}
use text.Mathlib.Text.{◌==◌ as str_eq, starts_with}
use boundless_stock.Prelude.{
  ℕ, Bool, true, false, not, ◌&&◌, ◌||◌, Option, none, some, List, [], ◌∷◌, ◌++◌, leb,
  if◌then◌else◌, Result, ok, err, ◌>>=◌, Dict, lookup, insert, length, string_eq, either,
}
use boundless_stock.History.Records.{
  RequestStatus, pending, filled, refunded, stranded, cancelled, Vm, Side, buy, sell, HistoryRecord,
}
use boundless_stock.Orders.Build.Data.{OrderError}

pub record Token : Type 0 where
  pub address : String
  pub decimals : ℕ

-- The tokens of a mirror's terms.
pub record Tokens : Type 0 where
  pub base : Token
  pub quote : Token

pub record OrderQuery : Type 0 where
  pub user : String
  pub chain : Option String
  pub status : Option String
  pub limit : Option ℕ

pub record ListedOrder : Type 0 where
  pub chain : String
  pub id : ℕ
  pub user : String
  pub side : Side
  pub token_in : String
  pub token_out : String
  pub amount_in : ℕ
  pub min_amount_out : ℕ
  pub amount_out : ℕ
  pub status : RequestStatus
  pub failure_reason : ℕ
  pub created_at : ℕ
  pub settled_at : ℕ
  pub stranded_held : Option String

abbrev pub status_text : RequestStatus → String
status_text pending = "pending"
status_text filled = "filled"
status_text refunded = "refunded"
status_text stranded = "stranded"
status_text cancelled = "cancelled"

abbrev pub token_in : Side → Tokens → Token
token_in buy t = t.quote
token_in sell t = t.base

abbrev pub token_out : Side → Tokens → Token
token_out buy t = t.base
token_out sell t = t.quote

-- `opts.x && value !== opts.x`: an empty text asks for nothing.
abbrev pub differs : Option String → String → Bool
differs none value = false
differs (some asked) value = not (str_eq asked "") && not (str_eq value asked)

abbrev pub limit_of : Option ℕ → ℕ
limit_of none = 100
limit_of (some n) = n

module _ (lower : String → String) (parse_units : String → ℕ → Result OrderError ℕ)
    (mirror_terms : String → Vm → Result OrderError Tokens) where
  abbrev pub same : String → String → Bool
  same a b = if starts_with a "0x" then str_eq (lower a) (lower b) else str_eq a b

  pub matches : OrderQuery → HistoryRecord → Bool
  matches q r =
      same r.user q.user
      && not (differs q.chain r.chain_key)
      && not (differs q.status (status_text r.status))

  pub to_order : HistoryRecord → Tokens → Result OrderError ListedOrder
  to_order r t =
      let into = token_in r.direction t in
      let out = token_out r.direction t in
      parse_units r.amount_in into.decimals >>= λ amount_in.
      parse_units r.min_amount_out out.decimals >>= λ least.
      parse_units r.amount_out out.decimals >>= λ amount_out. ok (record {
        chain = r.chain_key;
        id = r.id;
        user = r.user;
        side = r.direction;
        token_in = into.address;
        token_out = out.address;
        amount_in = amount_in;
        min_amount_out = least;
        amount_out = amount_out;
        status = r.status;
        failure_reason = r.failure_reason;
        created_at = r.created_at;
        settled_at = r.settled_at;
        stranded_held = r.stranded_held;
      })

  -- The terms of a record's chain, read once and kept by the chain's key.
  abbrev pub kept_terms :
      Option Tokens
      → Dict String Tokens
      → HistoryRecord
      → Result OrderError (Tokens × Dict String Tokens)
  kept_terms (some t) terms r = ok (t, terms)
  kept_terms none terms r =
      mirror_terms r.chain_key r.vm >>= λ t. ok (t, insert r.chain_key t terms)

  abbrev pub push : List ListedOrder → ListedOrder → List ListedOrder
  push out o = out ++ (o ∷ [])

  -- The body of the loop for a record that matches, with `terms` and `out`; `rest` goes on with the
  -- loop, which stops once `limit` orders are found.
  abbrev pub take_one :
      OrderQuery
      → HistoryRecord
      → (Dict String Tokens → List ListedOrder → Result OrderError (List ListedOrder))
      → Dict String Tokens
      → List ListedOrder
      → Result OrderError (List ListedOrder)
  take_one q r rest terms out = kept_terms (lookup r.chain_key terms) terms r >>= λ (t, terms).
      to_order r t >>= λ o.
      if leb (limit_of q.limit) (length (push out o))
      then ok (push out o)
      else rest terms (push out o)

  pub collect :
      OrderQuery
      → List HistoryRecord
      → Dict String Tokens
      → List ListedOrder
      → Result OrderError (List ListedOrder)
  collect q [] terms out = ok out
  collect q (r ∷ rs) terms out =
      either (matches q r) (collect q rs terms out) (take_one q r (collect q rs) terms out)

  pub list_orders : List HistoryRecord → OrderQuery → Result OrderError (List ListedOrder)
  list_orders records q = collect q records [] []
