-- ===== src/Relayer/State.antt =====
-- What the class `Relayer` of infra/relayer.ts keeps, what the chains answer it, and the changes of its
-- fields.
use boundless_stock.Prelude.{
  ℕ, ◌+◌, Bool, true, false, ◌&&◌, Option, none, some, List, [], ◌∷◌, ◌++◌, ltb, ◌==◌,
  if◌then◌else◌, Result, Dict, insert, nat_eq,
}
use boundless_stock.Hex.{Hex}
use boundless_stock.Executor.Packet.{DecodedPacket}

-- A log's id: a packet's is "hash:index", a compose's is "compose:hash:index".
pub data LogId : Type 0 where
  packet_id compose_id : ℕ → ℕ → LogId

abbrev pub same_id : LogId → LogId → Bool
same_id (packet_id h i) (packet_id k j) = h == k && i == j
same_id (packet_id h i) (compose_id k j) = false
same_id (compose_id h i) (packet_id k j) = false
same_id (compose_id h i) (compose_id k j) = h == k && i == j

abbrev pub has : LogId → List LogId → Bool
has i [] = false
has i (j ∷ js) = if same_id i j then true else has i js

abbrev pub delete : LogId → List LogId → List LogId
delete i [] = []
delete i (j ∷ js) = if same_id i j then delete i js else j ∷ delete i js

pub record PacketLog : Type 0 where
  pub hash : ℕ
  pub log_index : ℕ
  pub encoded_payload : Hex
  pub options : Hex

-- A compose in the endpoint's queue: the arguments of `lzCompose` and the value sent with it.
pub record Compose : Type 0 where
  pub eid : ℕ
  pub from : ℕ
  pub to : ℕ
  pub guid : ℕ
  pub index : ℕ
  pub message : Hex
  pub value : ℕ

-- A ComposeSent log; `call` has no value yet.
pub record ComposeLog : Type 0 where
  pub hash : ℕ
  pub log_index : ℕ
  pub call : Compose

-- The fields of the class that its methods change.
pub record Relayer : Type 0 where
  pub cursors : Dict ℕ ℕ
  pub seen : List LogId
  pub failed_composes : List Compose
  pub delivered : ℕ
  pub composed : ℕ
  pub failed : ℕ

pub data Thrown : Type 0 where
  thrown : Thrown

pub record Receipt : Type 0 where
  pub success : Bool
  pub block : Option ℕ

-- What the chains answer; each call may throw and may change the world. `lz_receive` and
-- `lz_compose` take the value and the gas.
pub record Calls (World : Type 0) : Type 0 where
  pub head : ℕ → World → Result Thrown ℕ × World
  pub packet_logs : ℕ → ℕ → ℕ → World → Result Thrown (List PacketLog) × World
  pub validate_packet : ℕ → Hex → World → Result Thrown (Unit {0}) × World
  pub lz_receive : ℕ → DecodedPacket → ℕ → Option ℕ → World → Result Thrown Receipt × World
  pub compose_logs : ℕ → Option ℕ → World → Result Thrown (List ComposeLog) × World
  pub lz_compose : Compose → Option ℕ → World → Result Thrown Receipt × World
  pub solana_deliver : ℕ → Hex → World → Result Thrown ℕ × World
  pub scan_outbound : ℕ → World → Result Thrown (List (Hex × Hex)) × World
  pub evm_eids : List ℕ
  pub solana_eids : List ℕ

abbrev pub executor_overhead : ℕ
executor_overhead = 120_000

abbrev pub or_zero : Option ℕ → ℕ
or_zero none = 0
or_zero (some n) = n

abbrev pub with_overhead : ℕ → Option ℕ
with_overhead gas = if ltb 0 gas then some (gas + executor_overhead) else none

-- The counters and the queue after one `lzCompose`.
abbrev pub after_compose : LogId → Compose → Receipt → Relayer → Relayer
after_compose id c r s = if r.success then record s { composed = s.composed + 1 } else record s {
  failed = s.failed + 1;
  failed_composes = s.failed_composes ++ (c ∷ []);
  seen = delete id s.seen;
}

abbrev pub see : LogId → Relayer → Relayer
see id s = record s { seen = id ∷ s.seen }

abbrev pub count_delivered : ℕ → Relayer → Relayer
count_delivered composes s = record s {
  composed = s.composed + composes;
  delivered = s.delivered + 1;
}

abbrev pub count_failed : Relayer → Relayer
count_failed s = record s { failed = s.failed + 1 }

abbrev pub member : ℕ → List ℕ → Bool
member n [] = false
member n (m ∷ ms) = if n == m then true else member n ms

abbrev pub set_cursor : ℕ → ℕ → Relayer → Relayer
set_cursor eid head s = record s { cursors = insert eid head s.cursors }

-- The counters and the queue after one retried `lzCompose`.
abbrev pub after_retry : Compose → Receipt → Relayer → Relayer
after_retry c r s =
    if r.success
    then record s { composed = s.composed + 1 }
    else record s { failed_composes = s.failed_composes ++ (c ∷ []) }

abbrev pub one_if : Bool → ℕ
one_if true = 1
one_if false = 0
