-- ===== src/Executor.antt =====
-- LayerZero TYPE_3 executor options: the builder of infra/lib/options.ts and the order options of
-- infra/api/options.ts, and the packet and options parsers of infra/relayer.ts.
pub mod Steps
pub mod Requests
pub mod Wire
pub mod RoundTrip
pub mod Total
pub mod Packet
mod Tests
use boundless_stock.Prelude.{
  ℕ, zero, suc, ◌+◌, ◌*◌, ◌/◌, ◌%◌, Bool, false, Option, none, some, List, [], ◌∷◌, ◌++◌, leb, not,
  ◌==◌, ltb, ◌||◌, if◌then◌else◌, length, drop, Result, ok, err, ◌>>=◌, Dict, insert, nat_eq,
}
use boundless_stock.Hex.{Hex, hex, slice, parse, pad_start}

-- The class `Options`. `none` below is the RangeError of `BigInt` on a size that is no integer.
pub record Options : Type 0 where
  pub parts : List Hex

abbrev pub new : Options
new = record { parts = [] }

abbrev pub type_3 : Hex
type_3 = 0 ∷ 0 ∷ 0 ∷ 3 ∷ []

abbrev pub worker_executor : Hex
worker_executor = 0 ∷ 1 ∷ []

-- A part, once its params have a whole number of bytes.
abbrev pub part : Hex → Hex → Hex
part option_type params =
    worker_executor ++ (hex (1 + length params / 2) 2 ++ (option_type ++ params))

pub push : Hex → Hex → Options → Option Options
push option_type params o =
    if length params % 2 == 0
    then some (record { parts = o.parts ++ (part option_type params ∷ []) })
    else none

pub add_executor_lz_receive : ℕ → ℕ → Options → Option Options
add_executor_lz_receive gas value =
    push (0 ∷ 1 ∷ []) (if value == 0 then hex gas 16 else hex gas 16 ++ hex value 16)

pub add_executor_lz_compose : ℕ → ℕ → ℕ → Options → Option Options
add_executor_lz_compose index gas value =
    let head = hex index 2 ++ hex gas 16 in
    push (0 ∷ 3 ∷ []) (if value == 0 then head else head ++ hex value 16)

-- `receiver` is given by its digits, as `receiver.slice(2)`.
pub add_executor_native_drop : ℕ → Hex → Options → Option Options
add_executor_native_drop amount receiver =
    push (0 ∷ 2 ∷ []) (hex amount 16 ++ pad_start 64 receiver)

abbrev pub concat : List Hex → Hex
concat [] = []
concat (p ∷ ps) = p ++ concat ps

pub build : Options → Hex
build o = type_3 ++ concat o.parts

-- `solanaOrderOptions`: the gas figures of the deployment's relay, the compose value in wei.
pub solana_order_options : ℕ → ℕ → ℕ → Option Hex
solana_order_options receive_gas compose_gas compose_value =
    elim (add_executor_lz_receive receive_gas 0 new) [
      | none ↦ none
      | some o ↦ elim (add_executor_lz_compose 0 compose_gas compose_value o) [
        | none ↦ none
        | some o' ↦ some (build o')
      ]
    ]

pub record ExecutorRequests : Type 0 where
  pub lz_receive_gas : ℕ
  pub lz_receive_value : ℕ
  pub compose_gas : Dict ℕ ℕ
  pub compose_value : Dict ℕ ℕ
  pub native_drop : ℕ

abbrev pub no_requests : ExecutorRequests
no_requests = record {
  lz_receive_gas = 0;
  lz_receive_value = 0;
  compose_gas = [];
  compose_value = [];
  native_drop = 0;
}

-- `syntax_error` is what `BigInt("0x")` throws; `stuck` is no outcome of the program: the loop's
-- fuel ran out.
pub data ParseError : Type 0 where
  syntax_error stuck : ParseError

abbrev pub int_or_throw : Option ℕ → Result ParseError ℕ
int_or_throw none = err syntax_error
int_or_throw (some n) = ok n

abbrev pub big_int : Hex → Result ParseError ℕ
big_int s = int_or_throw (parse s)

-- `parseInt(s, 16) === n`; NaN equals nothing.
abbrev pub is_int : Option ℕ → ℕ → Bool
is_int none n = false
is_int (some m) n = m == n

-- A parsed number where the digits are known to be there.
abbrev pub int_of : Option ℕ → ℕ
int_of none = 0
int_of (some n) = n

abbrev pub grant_receive : Hex → ExecutorRequests → Result ParseError ExecutorRequests
grant_receive params out = big_int (slice 0 32 params) >>= λ gas.
    if leb 64 (length params)
    then (big_int (slice 32 64 params) >>= λ value.
        ok (record out { lz_receive_gas = gas; lz_receive_value = value }))
    else ok (record out { lz_receive_gas = gas })

abbrev pub grant_compose : Hex → ExecutorRequests → Result ParseError ExecutorRequests
grant_compose params out =
    let index = int_of (parse (slice 0 4 params)) in
    big_int (slice 4 36 params) >>= λ gas.
    if leb 68 (length params)
    then (big_int (slice 36 68 params) >>= λ value. ok (record out {
      compose_gas = insert index gas out.compose_gas;
      compose_value = insert index value out.compose_value;
    }))
    else ok (record out { compose_gas = insert index gas out.compose_gas })

abbrev pub grant_drop : Hex → ExecutorRequests → Result ParseError ExecutorRequests
grant_drop params out = big_int (slice 0 32 params) >>= λ amount.
    ok (record out { native_drop = out.native_drop + amount })

-- One option of the executor; the types it does not know are ignored.
pub parse_option : Option ℕ → Hex → ExecutorRequests → Result ParseError ExecutorRequests
parse_option option_type params out =
    if is_int option_type 1
    then grant_receive params out
    else if is_int option_type 3
    then grant_compose params out
    else if is_int option_type 2
    then grant_drop params out
    else ok out

-- One round of the loop at the nibble cursor `cur`: the next cursor, and what the option grants.
pub parse_round : Hex → ℕ → ExecutorRequests → ℕ × Result ParseError ExecutorRequests
parse_round b cur out =
    let worker_id = parse (slice cur (cur + 2) b) in
    let size = int_of (parse (slice (cur + 2) (cur + 6) b)) in
    let body_start = cur + 6 in
    let option_type = parse (slice body_start (body_start + 2) b) in
    let params = slice (body_start + 2) (body_start + size * 2) b in
    (
      body_start + size * 2,
      if is_int worker_id 1 then parse_option option_type params out else ok out,
    )

pub parse_loop : ℕ → Hex → ℕ → ExecutorRequests → Result ParseError ExecutorRequests
parse_loop zero b cur out = err stuck
parse_loop (suc fuel) b cur out =
    let round = parse_round b cur out in
    let rest = (round.1 >>= λ out'. parse_loop fuel b round.0 out') in
    if leb (cur + 6) (length b) then rest else ok out

-- Each round moves the cursor by six digits at least, so a round for each digit is enough.
pub parse_executor_options : Hex → Result ParseError ExecutorRequests
parse_executor_options b =
    if ltb (length b) 4 || not (is_int (parse (slice 0 4 b)) 3)
    then ok no_requests
    else parse_loop (suc (length b)) b 4 no_requests
