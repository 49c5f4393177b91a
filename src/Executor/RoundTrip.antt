-- ===== src/Executor/RoundTrip.antt =====
-- What the executor reads is what was asked for: the parser after the builder.
use boundless_stock.Prelude.{
  ℕ, ◌+◌, ◌*◌, ◌/◌, ◌%◌, ◌≡◌, refl, sym, ◌∙◌, arith, ◌==◌, ==_iff, length, ok, Option, true, ◌++◌,
  List, [], ◌∷◌, some, none, append_assoc, append-nil, All, map,
}
use boundless_stock.Hex.{Hex, hex}
use boundless_stock.Hex.Digits.{hex-one, hex-two, hex-three}
use boundless_stock.Executor.{
  Options, new, add_executor_lz_receive, add_executor_lz_compose, add_executor_native_drop, build,
  concat, push, no_requests, parse_executor_options,
}
use boundless_stock.Executor.Requests.{
  Request, receive, compose, native, request, IsInRange, params_of, half_of, length-params_of,
}
use boundless_stock.Executor.Wire.{
  ours, wire_of, wires, IsWire, all_granted, parse_executor_options-wires,
}
use boundless_stock.Executor.Steps.{option_wire}

-- The builder's calls in a row.
pub requests : List Request → Options → Option Options
unfolding request
requests [] o = some o
requests (r ∷ rs) o = elim (request r o) [ none ↦ none | some o' ↦ requests rs o' ]

push-part :
    (kind half : ℕ) (params digits : Hex) (o : Options)
    → digits ≡ hex kind 1
    → length params ≡ half * 2
    → push digits params o
      ≡ some (record { parts = o.parts ++ (option_wire 1 (half + 1) kind params ∷ []) })
unfolding push
push-part kind half params digits o d e =
    let whole : (length params % 2 == 0) ≡ true = (==_iff _ _).1 (omega arith) in
    let size : 1 + length params / 2 ≡ half + 1 = omega arith in rw (whole, d, size, hex-one)

request_part :
    (r : Request) (o : Options)
    → IsInRange r
    → request r o ≡ some (record { parts = o.parts ++ (wire_of (ours r) ∷ []) })
unfolding request add_executor_lz_receive add_executor_lz_compose add_executor_native_drop
request_part (receive gas value) o h =
    push-part 1 (half_of (receive gas value)) (params_of (receive gas value)) _ o (sym hex-one)
      (length-params_of (receive gas value) h)
request_part (compose index gas value) o h =
    push-part 3 (half_of (compose index gas value)) (params_of (compose index gas value)) _ o
      (sym hex-three) (length-params_of (compose index gas value) h)
request_part (native amount receiver) o h =
    push-part 2 (half_of (native amount receiver)) (params_of (native amount receiver)) _ o
      (sym hex-two) (length-params_of (native amount receiver) h)

abbrev wire_parts : List Request → List Hex
wire_parts [] = []
wire_parts (r ∷ rs) = wire_of (ours r) ∷ wire_parts rs

requests_parts :
    (rs : List Request) (o : Options)
    → All IsInRange rs
    → requests rs o ≡ some (record { parts = o.parts ++ wire_parts rs })
unfolding requests
requests_parts [] o h = rw append-nil
requests_parts (r ∷ rs) o h =
    rw (request_part r o h.0, requests)
      (requests_parts rs (record { parts = o.parts ++ (wire_of (ours r) ∷ []) }) h.1
        ∙ rw append_assoc)

concat-wire_parts : (rs : List Request) → concat (wire_parts rs) ≡ wires (map ours rs)
concat-wire_parts [] = refl
concat-wire_parts (r ∷ rs) = rw (concat-wire_parts rs)

All-ours : (rs : List Request) → All IsInRange rs → All IsWire (map ours rs)
All-ours [] h = tt
All-ours (r ∷ rs) h = (h.0, All-ours rs h.1)

-- Requests in range never make the builder throw, and the parser reads back exactly what was asked
-- for: the gas and value of each call, in order, and the sum of the drops.
pub parse_executor_options-build :
    (rs : List Request)
    → All IsInRange rs
    → (o : Options) × (requests rs new ≡ some o)
      × (parse_executor_options (build o) ≡ ok (all_granted (map ours rs) no_requests))
unfolding build
parse_executor_options-build rs h = (
  record { parts = wire_parts rs },
  requests_parts rs new h,
  rw (concat-wire_parts rs) (parse_executor_options-wires (map ours rs) (All-ours rs h)),
)
