-- ===== src/Orders/Follow.antt =====
-- `getOrder` and `nextStep` of infra/api/orders.ts. What the mirror and the home chain answer are
-- arguments; the sentences of `nextStep` are told apart by what they say.
pub mod Said
mod Tests
use Prim.Native.String.{String}
use text.Mathlib.Text.{◌==◌ as str_eq}
use boundless_stock.Prelude.{
  ℕ, Bool, true, false, not, ◌&&◌, ◌||◌, Option, none, some, List, [], ◌∷◌, leb, ◌==◌,
  if◌then◌else◌, Result, ok, err, ◌>>=◌, ◌>>◌, throw_if, or_else,
}
use boundless_stock.Quote.{Vm, evm, svm, ChainEntry, is_mirror, decimal}
use boundless_stock.History.Records.{
  RequestStatus, pending, filled, refunded, stranded, cancelled, status_of, RawRequest,
}
use boundless_stock.Orders.Build.Data.{OrderError, thrown, lift, Text}
use boundless_stock.Orders.Build.{is_number}

pub data FollowError : Type 0 where
  of_order : OrderError → FollowError
  invalid_id unknown_order unread : FollowError

-- `FEE_STATE[state]`; out of range it is undefined.
pub data FeeState : Type 0 where
  no_fees escrowed paid returned undefined_state : FeeState

abbrev pub fee_state_of : ℕ → FeeState
fee_state_of n =
    if n == 0
    then no_fees
    else if n == 1
    then escrowed
    else if n == 2
    then paid
    else if n == 3
    then returned
    else undefined_state

-- The fees of a request, as the mirror keeps them.
pub record RawFees : Type 0 where
  pub partner_id : ℕ
  pub state : ℕ
  pub partner_fee : ℕ
  pub platform_fee : ℕ

pub record OrderFees : Type 0 where
  pub partner_id : ℕ
  pub partner : ℕ
  pub platform : ℕ
  pub state : FeeState

abbrev pub fees_of : Option RawFees → Option OrderFees
fees_of none = none
fees_of (some f) =
    if f.state == 0
    then none
    else some (record {
      partner_id = f.partner_id;
      partner = f.partner_fee;
      platform = f.platform_fee;
      state = fee_state_of f.state;
    })

pub record Order : Type 0 where
  pub id : ℕ
  pub user : String
  pub is_buy : Bool
  pub token_in : String
  pub token_out : String
  pub amount_in : ℕ
  pub min_amount_out : ℕ
  pub amount_out : ℕ
  pub status : RequestStatus
  pub failure_reason : ℕ
  pub created_at : ℕ
  pub settled_at : ℕ
  pub fees : Option OrderFees
  pub stranded_held : Option String

abbrev pub Read {ℓ} : Type ℓ → Type ℓ
Read A = Result FollowError A

-- A mirror: `next_request_id` for an EVM one; `get_request` gives the request with its two tokens,
-- `none` for an account that is not there; `get_fees` its fees.
pub record FollowedMirror : Type 0 where
  pub next_request_id : Read ℕ
  pub get_request : ℕ → Read (Option (RawRequest × (String × String)))
  pub get_fees : ℕ → Read (Option RawFees)

abbrev pub to_order : ℕ → RawRequest × (String × String) → Option RawFees → Order
to_order id (r, (token_in, token_out)) f = record {
  id = id;
  user = r.user;
  is_buy = r.direction == 0;
  token_in = token_in;
  token_out = token_out;
  amount_in = r.amount_in;
  min_amount_out = r.min_amount_out;
  amount_out = r.amount_out;
  status = status_of r.status;
  failure_reason = r.failure_reason;
  created_at = r.created_at;
  settled_at = r.settled_at;
  fees = fees_of f;
  stranded_held = none;
}

-- The two branches on the VM: an EVM id is compared with the next one, a Solana request may be missing.
abbrev pub check_id : Vm → FollowedMirror → ℕ → Read (Unit {0})
check_id svm m id = ok tt
check_id evm m id = m.next_request_id >>= λ next. throw_if (id == 0 || leb next id) unknown_order

pub read_order : Vm → FollowedMirror → ℕ → Read Order
read_order vm m id = check_id vm m id >>= λ _.
    m.get_request id >>= or_else unknown_order >>= λ r. m.get_fees id >>= λ f. ok (to_order id r f)

-- `FAILURE[reason] || "failed"`
pub data Failure : Type 0 where
  failed slippage pool_error unauthorised_source : Failure

abbrev pub failure_of : ℕ → Failure
failure_of n =
    if n == 1
    then slippage
    else if n == 2
    then pool_error
    else if n == 3
    then unauthorised_source
    else failed

-- The sentence for the user; a Bool says whether it adds that settle_fees releases the fees, and
-- after a refund another whether fees came back too.
pub data Next : Type 0 where
  on_its_way : Next
  delivered : Bool → Next
  came_back : Failure → Bool → Bool → Next
  held_at_home : Bool → Next
  recovered : Bool → Next
  was_cancelled : Bool → Next

abbrev pub is_escrowed : Option OrderFees → Bool
is_escrowed none = false
is_escrowed (some f) = elim f.state [ escrowed ↦ true | _ ↦ false ]

abbrev pub has_fees : Option OrderFees → Bool
has_fees none = false
has_fees (some f) = true

abbrev pub is_settled : RequestStatus → Bool
is_settled pending = false
is_settled _ = true

abbrev pub is_svm : Vm → Bool
is_svm evm = false
is_svm svm = true

abbrev pub unsettled_fees : Vm → Order → Bool
unsettled_fees vm o = is_svm vm && is_escrowed o.fees && is_settled o.status

-- `o.strandedHeld && o.strandedHeld !== "0"`
abbrev pub is_holding : Option String → Bool
is_holding none = false
is_holding (some s) = not (str_eq s "") && not (str_eq s "0")

abbrev pub step_of : RequestStatus → Bool → Order → Next
step_of pending fees o = on_its_way
step_of filled fees o = delivered fees
step_of refunded fees o = came_back (failure_of o.failure_reason) (has_fees o.fees) fees
step_of stranded fees o = if is_holding o.stranded_held then held_at_home fees else recovered fees
step_of cancelled fees o = was_cancelled fees

pub next_step : Order → Vm → Next
next_step o vm = step_of o.status (unsettled_fees vm o) o

-- The order with what is held of it, where it is stranded.
abbrev pub with_held : RequestStatus → (ℕ → Read String) → Order → Read Order
with_held stranded held o = held o.id >>= λ s. ok (record o { stranded_held = some s })
with_held _ held o = ok o

abbrev pub followed : {A : Type 0} → Result OrderError A → Read A
followed (ok a) = ok a
followed (err e) = err (of_order e)

-- `held` is `strandedHeld` of infra/history.ts for this mirror.
pub get_order :
    Bool → Option ChainEntry → FollowedMirror → (ℕ → Read String) → Text → Read (Order × Next)
get_order solana entry m held id_text = followed (lift (is_mirror solana entry)) >>= λ vm.
    throw_if (not (is_number id_text)) invalid_id >>= λ _.
    read_order vm m (decimal 0 id_text) >>= λ o.
    with_held o.status held o >>= λ o. ok (o, next_step o vm)
