-- ===== src/Executor/Packet.antt =====
-- `decodePacket` of infra/relayer.ts: the PacketV1 header, cut at its byte offsets.
use boundless_stock.Prelude.{
  ℕ, ◌+◌, ◌*◌, ◌^◌, ◌<◌, ◌≡◌, refl, ◌∙◌, Option, some, Result, ok, ◌>>=◌, ◌++◌, [], length, drop,
  arith,
}
use boundless_stock.Hex.{Hex, hex, slice, parse}
use boundless_stock.Hex.Digits.{length-hex, parse-hex}
use boundless_stock.Hex.Slices.{slice_mid, slice_behind, drop_behind}
use boundless_stock.Executor.{ParseError, big_int}

-- `none` is NaN.
pub record DecodedPacket : Type 0 where
  pub version : Option ℕ
  pub nonce : ℕ
  pub src_eid : Option ℕ
  pub sender : Hex
  pub dst_eid : Option ℕ
  pub receiver : Hex
  pub guid : Hex
  pub message : Hex

-- Bytes `start` to `end` of `b`.
abbrev at : ℕ → ℕ → Hex → Hex
at start end b = slice (start * 2) (end * 2) b

unfoldable pub decode_packet : Hex → Result ParseError DecodedPacket
decode_packet b = big_int (at 1 9 b) >>= λ nonce. ok (record {
  version = parse (at 0 1 b);
  nonce = nonce;
  src_eid = parse (at 9 13 b);
  sender = at 13 45 b;
  dst_eid = parse (at 45 49 b);
  receiver = at 49 81 b;
  guid = at 81 113 b;
  message = drop (113 * 2) b;
})

-- The PacketV1 format that the endpoints emit.
pub encode_packet : ℕ → ℕ → ℕ → Hex → ℕ → Hex → Hex → Hex → Hex
encode_packet version nonce src_eid sender dst_eid receiver guid message =
    hex version 1
    ++ (hex nonce 8
        ++ (hex src_eid 4 ++ (sender ++ (hex dst_eid 4 ++ (receiver ++ (guid ++ message))))))

-- A field at the front, and fields behind one of known length.
first : (k : ℕ) (m s : Hex) → length m ≡ k → slice 0 k (m ++ s) ≡ m
first k m s e = slice_mid 0 k [] m s refl (omega (arith, e))

skip : (k i j : ℕ) (p s : Hex) → length p ≡ k → slice (k + i) (k + j) (p ++ s) ≡ slice i j s
skip k i j p s e = rw (← e) (slice_behind i j p s)

drop_field : (k i : ℕ) (p s : Hex) → length p ≡ k → drop (k + i) (p ++ s) ≡ drop i s
drop_field k i p s e = rw (← e) (drop_behind i p s)

module _ (version nonce src_eid dst_eid : ℕ) (sender receiver guid message : Hex)
    (v : version < 2 ^ 8) (n : nonce < 2 ^ 64) (s : src_eid < 2 ^ 32) (d : dst_eid < 2 ^ 32)
    (ls : length sender ≡ 64) (lr : length receiver ≡ 64) (lg : length guid ≡ 64) where
  abbrev from_guid : Hex
  from_guid = guid ++ message

  abbrev from_receiver : Hex
  from_receiver = receiver ++ from_guid

  abbrev from_dst_eid : Hex
  from_dst_eid = hex dst_eid 4 ++ from_receiver

  abbrev from_sender : Hex
  from_sender = sender ++ from_dst_eid

  abbrev from_src_eid : Hex
  from_src_eid = hex src_eid 4 ++ from_sender

  abbrev from_nonce : Hex
  from_nonce = hex nonce 8 ++ from_src_eid

  abbrev packet : Hex
  packet = hex version 1 ++ from_nonce

  lv : length (hex version 1) ≡ 2
  lv = length-hex 1 version (omega arith) v

  ln : length (hex nonce 8) ≡ 16
  ln = length-hex 8 nonce (omega arith) n

  le : length (hex src_eid 4) ≡ 8
  le = length-hex 4 src_eid (omega arith) s

  ld : length (hex dst_eid 4) ≡ 8
  ld = length-hex 4 dst_eid (omega arith) d

  behind_nonce : (i j : ℕ) → slice (2 + (16 + i)) (2 + (16 + j)) packet ≡ slice i j from_src_eid
  behind_nonce i j =
      skip 2 (16 + i) (16 + j) (hex version 1) from_nonce lv
      ∙ skip 16 i j (hex nonce 8) from_src_eid ln

  behind_sender :
      (i j : ℕ)
      → slice (2 + (16 + (8 + (64 + i)))) (2 + (16 + (8 + (64 + j)))) packet
        ≡ slice i j from_dst_eid
  behind_sender i j =
      behind_nonce (8 + (64 + i)) (8 + (64 + j))
      ∙ skip 8 (64 + i) (64 + j) (hex src_eid 4) from_sender le
      ∙ skip 64 i j sender from_dst_eid ls

  behind_receiver :
      (i j : ℕ)
      → slice
          (2 + (16 + (8 + (64 + (8 + (64 + i))))))
          (2 + (16 + (8 + (64 + (8 + (64 + j))))))
          packet
        ≡ slice i j from_guid
  behind_receiver i j =
      behind_sender (8 + (64 + i)) (8 + (64 + j))
      ∙ skip 8 (64 + i) (64 + j) (hex dst_eid 4) from_receiver ld
      ∙ skip 64 i j receiver from_guid lr

  message_at : drop 226 packet ≡ message
  message_at =
      drop_field 2 224 (hex version 1) from_nonce lv
      ∙ drop_field 16 208 (hex nonce 8) from_src_eid ln
      ∙ drop_field 8 200 (hex src_eid 4) from_sender le
      ∙ drop_field 64 136 sender from_dst_eid ls
      ∙ drop_field 8 128 (hex dst_eid 4) from_receiver ld
      ∙ drop_field 64 64 receiver from_guid lr
      ∙ drop_field 64 0 guid message lg

  -- Decoding undoes the PacketV1 format: every header field and the whole message come back.
  pub decode_packet-encode_packet :
      decode_packet (encode_packet version nonce src_eid sender dst_eid receiver guid message)
      ≡ ok (record {
        version = some version;
        nonce = nonce;
        src_eid = some src_eid;
        sender = sender;
        dst_eid = some dst_eid;
        receiver = receiver;
        guid = guid;
        message = message;
      })
  unfolding decode_packet encode_packet
  decode_packet-encode_packet = rw (
    skip 2 0 16 (hex version 1) from_nonce lv,
    first 16 (hex nonce 8) from_src_eid ln,
    parse-hex 8 nonce (omega arith) n,
    first 2 (hex version 1) from_nonce lv,
    parse-hex 1 version (omega arith) v,
    behind_nonce 0 8,
    first 8 (hex src_eid 4) from_sender le,
    parse-hex 4 src_eid (omega arith) s,
    behind_nonce 8 72,
    skip 8 0 64 (hex src_eid 4) from_sender le,
    first 64 sender from_dst_eid ls,
    behind_sender 0 8,
    first 8 (hex dst_eid 4) from_receiver ld,
    parse-hex 4 dst_eid (omega arith) d,
    behind_sender 8 72,
    skip 8 0 64 (hex dst_eid 4) from_receiver ld,
    first 64 receiver from_guid lr,
    behind_receiver 0 64,
    first 64 guid message lg,
    message_at,
  )
