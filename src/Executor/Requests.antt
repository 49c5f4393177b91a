-- ===== src/Executor/Requests.antt =====
-- A request to the executor, and how the parser grants it from its params.
use boundless_stock.Prelude.{
  ℕ, ◌+◌, ◌*◌, ◌^◌, ◌≤◌, ◌<◌, ◌≡◌, refl, inl, inr, arith, ◌==◌, Bool-cases, length, ok, Option,
  if◌then◌else◌, ◌++◌, [], some, length-append, append_assoc, append-nil, insert, nat_eq,
}
use boundless_stock.Hex.{Hex, parse, hex, slice, pad_start}
use boundless_stock.Hex.Digits.{length-hex, parse-hex, length-pad_start}
use boundless_stock.Hex.Slices.{slice_mid}
use boundless_stock.Executor.{
  Options, add_executor_lz_receive, add_executor_lz_compose, add_executor_native_drop,
  ExecutorRequests, parse_option, grant_receive, grant_compose,
}

-- A call of the builder.
pub data Request : Type 0 where
  receive : ℕ → ℕ → Request
  compose : ℕ → ℕ → ℕ → Request
  native : ℕ → Hex → Request

unfoldable pub request : Request → Options → Option Options
unfolding add_executor_lz_receive add_executor_lz_compose add_executor_native_drop
request (receive gas value) = add_executor_lz_receive gas value
request (compose index gas value) = add_executor_lz_compose index gas value
request (native amount receiver) = add_executor_native_drop amount receiver

-- Amounts fit uint128, a compose index uint16, and a receiver has 32 bytes at most.
abbrev pub IsInRange : Request → Type 0
IsInRange (receive gas value) = (gas < 2 ^ 128) × (value < 2 ^ 128)
IsInRange (compose index gas value) = (index < 2 ^ 16) × (gas < 2 ^ 128) × (value < 2 ^ 128)
IsInRange (native amount receiver) = (amount < 2 ^ 128) × (length receiver ≤ 64)

-- What a request asks of the executor: a later one of a kind overrides, and a value of 0 is not sent.
abbrev pub granted : Request → ExecutorRequests → ExecutorRequests
granted (receive gas value) out = record out {
  lz_receive_gas = gas;
  lz_receive_value = if value == 0 then out.lz_receive_value else value;
}
granted (compose index gas value) out = record out {
  compose_gas = insert index gas out.compose_gas;
  compose_value = if value == 0 then out.compose_value else insert index value out.compose_value;
}
granted (native amount receiver) out = record out { native_drop = out.native_drop + amount }

abbrev pub params_of : Request → Hex
params_of (receive gas value) = if value == 0 then hex gas 16 else hex gas 16 ++ hex value 16
params_of (compose index gas value) =
    if value == 0 then hex index 2 ++ hex gas 16 else (hex index 2 ++ hex gas 16) ++ hex value 16
params_of (native amount receiver) = hex amount 16 ++ pad_start 64 receiver

abbrev pub kind_of : Request → ℕ
kind_of (receive gas value) = 1
kind_of (compose index gas value) = 3
kind_of (native amount receiver) = 2

abbrev pub half_of : Request → ℕ
half_of (receive gas value) = if value == 0 then 16 else 32
half_of (compose index gas value) = if value == 0 then 18 else 34
half_of (native amount receiver) = 48

length_word : (v : ℕ) → v < 2 ^ 128 → length (hex v 16) ≡ 32
length_word v h = length-hex 16 v (omega arith) h

length_index : (v : ℕ) → v < 2 ^ 16 → length (hex v 2) ≡ 4
length_index v h = length-hex 2 v (omega arith) h

pub length-params_of : (r : Request) → IsInRange r → length (params_of r) ≡ half_of r * 2
length-params_of (receive gas value) h = ground (
  arith,
  length-append {0} (hex gas 16) (hex value 16),
  length_word gas h.0,
  length_word value h.1,
)
length-params_of (compose index gas value) h = ground (
  arith,
  length-append {0} (hex index 2 ++ hex gas 16) (hex value 16),
  length-append {0} (hex index 2) (hex gas 16),
  length_index index h.0,
  length_word gas h.1,
  length_word value h.2,
)
length-params_of (native amount receiver) h = omega (
  arith,
  length-append {0} (hex amount 16) (pad_start 64 receiver),
  length_word amount h.0,
  length-pad_start 64 receiver h.1,
)

read_word :
    (i j : ℕ) (p s : Hex) (v : ℕ)
    → length p ≡ i
    → i + 32 ≡ j
    → v < 2 ^ 128
    → parse (slice i j (p ++ (hex v 16 ++ s))) ≡ some v
read_word i j p s v e f h =
    rw (slice_mid i j p (hex v 16) s e (omega (arith, length_word v h)))
      (parse-hex 16 v (omega arith) h)

read_last :
    (i j : ℕ) (p : Hex) (v : ℕ)
    → length p ≡ i
    → i + 32 ≡ j
    → v < 2 ^ 128
    → parse (slice i j (p ++ hex v 16)) ≡ some v
read_last i j p v e f h = rw append-nil at (read_word i j p [] v e f h)

read_index : (v : ℕ) (s : Hex) → v < 2 ^ 16 → parse (slice 0 4 (hex v 2 ++ s)) ≡ some v
read_index v s h =
    rw (slice_mid 0 4 [] (hex v 2) s refl (omega (arith, length_index v h)))
      (parse-hex 2 v (omega arith) h)

module _ (gas value : ℕ) (out : ExecutorRequests) (g : gas < 2 ^ 128) (v : value < 2 ^ 128) where
  receive_short : grant_receive (hex gas 16) out ≡ ok (record out { lz_receive_gas = gas })
  receive_short =
      let first : parse (slice 0 32 (hex gas 16)) ≡ some gas = read_last 0 32 [] gas refl refl g in
      rw (first, length_word gas g)

  receive_long :
      grant_receive (hex gas 16 ++ hex value 16) out
      ≡ ok (record out { lz_receive_gas = gas; lz_receive_value = value })
  receive_long =
      let first : parse (slice 0 32 (hex gas 16 ++ hex value 16)) ≡ some gas =
        read_word 0 32 [] (hex value 16) gas refl refl g in
      rw (
        first,
        read_last 32 64 (hex gas 16) value (length_word gas g) refl v,
        length-append {0} (hex gas 16) (hex value 16),
        length_word gas g,
        length_word value v,
      )

  module _ (index : ℕ) (x : index < 2 ^ 16) where
    length_head : length (hex index 2 ++ hex gas 16) ≡ 36
    length_head = omega (
      arith,
      length-append {0} (hex index 2) (hex gas 16),
      length_index index x,
      length_word gas g,
    )

    compose_short :
        grant_compose (hex index 2 ++ hex gas 16) out
        ≡ ok (record out { compose_gas = insert index gas out.compose_gas })
    compose_short = rw (
      read_index index (hex gas 16) x,
      read_last 4 36 (hex index 2) gas (length_index index x) refl g,
      length_head,
    )

    compose_long :
        grant_compose ((hex index 2 ++ hex gas 16) ++ hex value 16) out
        ≡ ok (record out {
          compose_gas = insert index gas out.compose_gas;
          compose_value = insert index value out.compose_value;
        })
    compose_long = rw (
      read_last 36 68 (hex index 2 ++ hex gas 16) value length_head refl v,
      length-append {0} (hex index 2 ++ hex gas 16) (hex value 16),
      length_head,
      length_word value v,
      append_assoc (hex index 2) (hex gas 16) (hex value 16),
      read_index index (hex gas 16 ++ hex value 16) x,
      read_word 4 36 (hex index 2) (hex value 16) gas (length_index index x) refl g,
    )

-- The parser grants a request as it stands in its params.
pub parse_option-params_of :
    (r : Request) (out : ExecutorRequests)
    → IsInRange r
    → parse_option (some (kind_of r)) (params_of r) out ≡ ok (granted r out)
unfolding parse_option
parse_option-params_of (receive gas value) out h = elim (Bool-cases (value == 0)) [
  | inl e ↦ rw e (receive_short gas value out h.0 h.1)
  | inr e ↦ rw e (receive_long gas value out h.0 h.1)
]
parse_option-params_of (compose index gas value) out h = elim (Bool-cases (value == 0)) [
  | inl e ↦ rw e (compose_short gas value out h.1 h.2 index h.0)
  | inr e ↦ rw e (compose_long gas value out h.1 h.2 index h.0)
]
parse_option-params_of (native amount receiver) out h =
    let first : parse (slice 0 32 (hex amount 16 ++ pad_start 64 receiver)) ≡ some amount =
      read_word 0 32 [] (pad_start 64 receiver) amount refl refl h.0 in
    rw first
