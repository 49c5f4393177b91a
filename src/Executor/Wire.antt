-- ===== src/Executor/Wire.antt =====
-- The parser on a well-formed options string, of requests and of options of other workers.
use boundless_stock.Prelude.{
  ℕ, zero, suc, ◌+◌, ◌*◌, ◌≤◌, ◌<◌, ◌≡◌, ◌≢◌, refl, ◌∙◌, arith, ◌==◌, ltb, length, ok, false, ◌++◌,
  List, [], ◌∷◌, some, length-append, append_assoc, append-nil, All,
}
use boundless_stock.Hex.{Hex, parse, slice}
use boundless_stock.Hex.Digits.{parse-hex, hex-type_3}
use boundless_stock.Hex.Slices.{slice_mid}
use boundless_stock.Executor.{
  type_3, ExecutorRequests, parse_loop, no_requests, parse_executor_options,
}
use boundless_stock.Executor.Requests.{
  Request, receive, compose, native, IsInRange, granted, params_of, kind_of, half_of,
  length-params_of, parse_option-params_of,
}
use boundless_stock.Executor.Steps.{
  option_wire, parse_loop-option_wire, parse_loop-end, length-option_wire,
}

-- An options string holds requests to the executor and options of other workers.
pub data Item : Type 0 where
  ours : Request → Item
  foreign : ℕ → ℕ → ℕ → Hex → Item

abbrev pub wire_of : Item → Hex
wire_of (ours r) = option_wire 1 (half_of r + 1) (kind_of r) (params_of r)
wire_of (foreign worker kind half params) = option_wire worker (half + 1) kind params

abbrev pub IsWire : Item → Type 0
IsWire (ours r) = IsInRange r
IsWire (foreign worker kind half params) =
    (worker < 256) × (worker ≢ 1) × (kind < 256) × (half + 1 < 65536) × (length params ≡ half * 2)

abbrev pub item_granted : Item → ExecutorRequests → ExecutorRequests
item_granted (ours r) out = granted r out
item_granted (foreign worker kind half params) out = out

abbrev pub all_granted : List Item → ExecutorRequests → ExecutorRequests
all_granted [] out = out
all_granted (i ∷ is) out = all_granted is (item_granted i out)

abbrev pub wires : List Item → Hex
wires [] = []
wires (i ∷ is) = wire_of i ++ wires is

half_fits : (r : Request) → half_of r + 1 < 65536
half_fits (receive gas value) = ground arith
half_fits (compose index gas value) = ground arith
half_fits (native amount receiver) = omega arith

kind_fits : (r : Request) → kind_of r < 256
kind_fits (receive gas value) = omega arith
kind_fits (compose index gas value) = omega arith
kind_fits (native amount receiver) = omega arith

-- A round of the loop on an item grants it and moves behind it.
parse_loop-wire_of :
    (i : Item) (fuel : ℕ) (before after : Hex) (out : ExecutorRequests)
    → IsWire i
    → parse_loop (suc fuel) (before ++ (wire_of i ++ after)) (length before) out
      ≡ parse_loop fuel
          (before ++ (wire_of i ++ after))
          (length (before ++ wire_of i))
          (item_granted i out)
parse_loop-wire_of (ours r) fuel before after out h =
    parse_loop-option_wire 1 (kind_of r) (half_of r) (params_of r) before after out (omega arith)
      (kind_fits r) (half_fits r) (length-params_of r h) fuel
    ∙ rw (parse_option-params_of r out h)
parse_loop-wire_of (foreign worker kind half params) fuel before after out h =
    parse_loop-option_wire worker kind half params before after out h.0 h.2 h.3 h.4 fuel
    ∙ rw (let other : (worker == 1) ≡ false = ground arith in other)

parse_loop-wires :
    (is : List Item) (fuel : ℕ) (before : Hex) (out : ExecutorRequests)
    → All IsWire is
    → length is < fuel
    → parse_loop fuel (before ++ wires is) (length before) out ≡ ok (all_granted is out)
parse_loop-wires is zero before out h f = absurd (omega arith)
parse_loop-wires [] (suc fuel) before out h f = rw append-nil (parse_loop-end fuel before out)
parse_loop-wires (i ∷ is) (suc fuel) before out h f =
    parse_loop-wire_of i fuel before (wires is) out h.0
    ∙ rw (← append_assoc)
        (parse_loop-wires is fuel (before ++ wire_of i) (item_granted i out) h.1 (omega arith))

length-wire_of : (i : Item) → IsWire i → 0 < length (wire_of i)
length-wire_of (ours r) h = omega (
  arith,
  length-option_wire 1 (kind_of r) (half_of r) (params_of r) [] [] no_requests (omega arith)
      (kind_fits r) (half_fits r) (length-params_of r h),
)
length-wire_of (foreign worker kind half params) h =
    omega (arith, length-option_wire worker kind half params [] [] no_requests h.0 h.2 h.3 h.4)

length-wires : (is : List Item) → All IsWire is → length is ≤ length (wires is)
length-wires [] h = omega arith
length-wires (i ∷ is) h =
    omega
      (arith, length-append {0} (wire_of i) (wires is), length-wire_of i h.0, length-wires is h.1)

slice-type_3 : (s : Hex) → slice 0 4 (type_3 ++ s) ≡ type_3
slice-type_3 s = slice_mid 0 4 [] type_3 s refl refl

parse-type_3 : parse type_3 ≡ some 3
parse-type_3 = rw hex-type_3 at (parse-hex 2 3 (omega arith) (omega arith))

-- The parser reads every well-formed options string: each request to the executor is granted in
-- order, and options of other workers are skipped by their size.
pub parse_executor_options-wires :
    (is : List Item)
    → All IsWire is
    → parse_executor_options (type_3 ++ wires is) ≡ ok (all_granted is no_requests)
unfolding parse_executor_options
parse_executor_options-wires is h =
    let long : ltb (length (type_3 ++ wires is)) 4 ≡ false = ground arith in
    rw (long, slice-type_3 (wires is), parse-type_3)
      (parse_loop-wires is (suc (length (type_3 ++ wires is))) type_3 no_requests h
        (omega (arith, length-wires is h)))
