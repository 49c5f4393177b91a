-- ===== src/Executor/Tests.antt =====
-- Runs of the options builder and of the parsers, and the theorems at concrete inputs.
use boundless_stock.Prelude.{
  ℕ, ◌≡◌, refl, some, List, [], ◌∷◌, ◌++◌, arith, map, ok, replicate, Option,
}
use boundless_stock.Hex.{Hex}
use boundless_stock.Executor.{
  Options, new, build, type_3, parse_executor_options, no_requests, solana_order_options,
}
use boundless_stock.Executor.Requests.{Request, receive, compose, native}
use boundless_stock.Executor.RoundTrip.{requests, parse_executor_options-build}
use boundless_stock.Executor.Wire.{
  Item, ours, foreign, wires, all_granted, parse_executor_options-wires,
}
use boundless_stock.Executor.Packet.{decode_packet, encode_packet, decode_packet-encode_packet}

abbrev asked : List Request
asked = receive 200_000 0 ∷ compose 0 500_000 7 ∷ native 5 (1 ∷ 2 ∷ []) ∷ []

parse_executor_options-build_example :
    (o : Options) × (requests asked new ≡ some o)
    × (parse_executor_options (build o) ≡ ok (all_granted (map ours asked) no_requests))
parse_executor_options-build_example = parse_executor_options-build asked (omega arith)

-- An option of a DVN stands between two of the executor.
abbrev mixed : List Item
mixed = ours (receive 60_000 9) ∷ foreign 2 1 1 (0 ∷ 4 ∷ []) ∷ ours (native 3 []) ∷ []

parse_executor_options-wires_example :
    parse_executor_options (type_3 ++ wires mixed) ≡ ok (all_granted mixed no_requests)
parse_executor_options-wires_example = parse_executor_options-wires mixed (omega arith)

abbrev address : ℕ → Hex
address = replicate 64

decode_packet-encode_packet_example :
    decode_packet (encode_packet 1 7 40161 (address 1) 30101 (address 2) (address 3) (12 ∷ 13 ∷ []))
    ≡ ok (record {
      version = some 1;
      nonce = 7;
      src_eid = some 40161;
      sender = address 1;
      dst_eid = some 30101;
      receiver = address 2;
      guid = address 3;
      message = 12 ∷ 13 ∷ [];
    })
decode_packet-encode_packet_example =
    decode_packet-encode_packet 1 7 40161 30101 (address 1) (address 2) (address 3) (12 ∷ 13 ∷ [])
      (omega arith) (omega arith) (omega arith) (omega arith) refl refl refl

-- The order options of a Solana mirror.
order_options : Option Hex
unfolding solana_order_options
order_options = solana_order_options 200_000 500_000 0
