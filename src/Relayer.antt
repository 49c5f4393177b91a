-- ===== src/Relayer.antt =====
-- The relayer of a local chain set, class `Relayer` of infra/relayer.ts. The chains and the Solana
-- backends stand behind a record of calls on a state of the world; each may throw.
pub mod State
pub mod Kept
pub mod Retry
pub mod Once
mod Tests
use boundless_stock.Prelude.{
  ℕ, zero, suc, ◌+◌, Bool, true, false, not, ◌&&◌, Option, none, some, List, [], ◌∷◌, ◌++◌, length,
  leb, ltb, ◌==◌, if◌then◌else◌, Result, ok, err, Dict, lookup, insert, nat_eq,
}
use boundless_stock.Hex.{Hex}
use boundless_stock.Executor.{ExecutorRequests, ParseError, parse_executor_options}
use boundless_stock.Executor.Packet.{DecodedPacket, decode_packet}
use boundless_stock.Relayer.State.{
  Calls, Compose, ComposeLog, LogId, PacketLog, Receipt, Relayer, Thrown, after_compose,
  after_retry, compose_id, count_delivered, count_failed, delete, executor_overhead, has, member,
  one_if, or_zero, packet_id, same_id, see, set_cursor, thrown, with_overhead,
}

module _ {World : Type 0} (net : Calls World) where
  -- A method: it changes the relayer and the world, and returns or throws.
  abbrev pub Run : Type 0 → Type 0
  Run A = Relayer → World → Result Thrown A × (Relayer × World)

  abbrev pub continue_with :
      {A B : Type 0}
      → (A → Run B)
      → Result Thrown A
      → Relayer
      → World
      → Result Thrown B × (Relayer × World)
  continue_with f (ok a) s w = f a s w
  continue_with f (err e) s w = (err e, (s, w))

  infixl 5 ◌>>>◌
  unfoldable pub ◌>>>◌ : {A B : Type 0} → Run A → (A → Run B) → Run B
  (m >>> f) s w = continue_with f (m s w).0 (m s w).1.0 (m s w).1.1

  abbrev pub return : {A : Type 0} → A → Run A
  return a s w = (ok a, (s, w))

  abbrev pub throw : {A : Type 0} → Run A
  throw s w = (err thrown, (s, w))

  abbrev pub change : (Relayer → Relayer) → Run (Unit {0})
  change f s w = (ok tt, (f s, w))

  abbrev pub call : {A : Type 0} → (World → Result Thrown A × World) → Run A
  call f s w = ((f w).0, (s, (f w).1))

  abbrev pub on_known_compose : Bool → Run (Unit {0}) → Run (Unit {0})
  on_known_compose true m = return tt
  on_known_compose false m = m

  pub execute_one : ℕ → ExecutorRequests → ComposeLog → Run (Unit {0})
  execute_one eid req l s w =
      let id = compose_id l.hash l.log_index in
      let c = record (l.call) {
        eid = eid;
        value = or_zero (lookup (l.call.index) req.compose_value);
      } in
      let gas = with_overhead (or_zero (lookup (l.call.index) req.compose_gas)) in
      on_known_compose (has id s.seen)
        (change (see id) >>> λ _.
          call (net.lz_compose c gas) >>> λ r. change (after_compose id c r))
        s w

  pub execute_logs : ℕ → ExecutorRequests → List ComposeLog → Run (Unit {0})
  execute_logs eid req [] = return tt
  execute_logs eid req (l ∷ ls) = execute_one eid req l >>> λ _. execute_logs eid req ls

  pub execute_composes : ℕ → Option ℕ → ExecutorRequests → Run (Unit {0})
  execute_composes eid block req = call (net.compose_logs eid block) >>> execute_logs eid req

  abbrev pub or_throw : {A : Type 0} → Result ParseError A → Run A
  or_throw (ok a) = return a
  or_throw (err e) = throw

  -- After `lzReceive`: a reverted one is counted, and the call returns.
  abbrev pub after_receive : ℕ → ExecutorRequests → Receipt → Run (Unit {0})
  after_receive eid req r =
      if r.success
      then change (count_delivered 0) >>> (λ _. execute_composes eid r.block req)
      else change count_failed

  abbrev pub deliver_evm : ℕ → Hex → Hex → DecodedPacket → Run (Unit {0})
  deliver_evm eid encoded options packet = or_throw (parse_executor_options options) >>> (λ req.
      call (net.validate_packet eid encoded) >>> (λ _.
        call (
          net.lz_receive eid packet (req.lz_receive_value + req.native_drop)
            (with_overhead req.lz_receive_gas))
        >>> after_receive eid req))

  -- A destination that is not a number (NaN) or that no chain has is an error.
  pub deliver_to : Option ℕ → Hex → Hex → DecodedPacket → Run (Unit {0})
  deliver_to none encoded options packet = throw
  deliver_to (some eid) encoded options packet =
      if member eid net.solana_eids
      then call (net.solana_deliver eid encoded) >>> (λ composes. change (count_delivered composes))
      else if member eid net.evm_eids
      then deliver_evm eid encoded options packet
      else throw

  pub deliver : Hex → Hex → Run (Unit {0})
  deliver encoded options = or_throw (decode_packet encoded) >>> λ packet.
      deliver_to packet.dst_eid encoded options packet

  -- `try { await this.deliver(..); count++ } catch { this.stats.failed++ }`
  abbrev pub counted :
      Result Thrown (Unit {0}) × (Relayer × World) → Result Thrown ℕ × (Relayer × World)
  counted (ok u, (s, w)) = (ok 1, (s, w))
  counted (err e, (s, w)) = (ok 0, (count_failed s, w))

  pub try_deliver : Hex → Hex → Run ℕ
  try_deliver encoded options s w = counted (deliver encoded options s w)

  abbrev pub on_known_packet : Bool → Run ℕ → Run ℕ
  on_known_packet true m = return 0
  on_known_packet false m = m

  pub relay_one : PacketLog → Run ℕ
  relay_one l s w =
      let id = packet_id l.hash l.log_index in
      on_known_packet (has id s.seen)
        (change (see id) >>> λ _. try_deliver l.encoded_payload l.options) s w

  pub relay_logs : List PacketLog → Run ℕ
  relay_logs [] = return 0
  relay_logs (l ∷ ls) = relay_one l >>> λ n. relay_logs ls >>> λ k. return (n + k)

  abbrev pub scan_from : ℕ → ℕ → ℕ → Run ℕ
  scan_from eid cursor head =
      if leb head cursor
      then return 0
      else (call (net.packet_logs eid (cursor + 1) head)
          >>> (λ logs. change (set_cursor eid head) >>> (λ _. relay_logs logs)))

  pub drain_chain : ℕ → Run ℕ
  drain_chain eid s w = (call (net.head eid) >>> scan_from eid (or_zero (lookup eid s.cursors))) s w

  abbrev pub deliver_all : List (Hex × Hex) → Run ℕ
  deliver_all [] = return 0
  deliver_all ((encoded, options) ∷ ps) =
      try_deliver encoded options >>> λ n. deliver_all ps >>> λ k. return (n + k)

  pub drain_solana : ℕ → Run ℕ
  drain_solana eid = call (net.scan_outbound eid) >>> deliver_all

  abbrev pub total : (ℕ → Run ℕ) → List ℕ → Run ℕ
  total f [] = return 0
  total f (e ∷ es) = f e >>> λ n. total f es >>> λ k. return (n + k)

  pub tick : Run ℕ
  tick = total drain_chain net.evm_eids >>> λ n.
      total drain_solana net.solana_eids >>> λ k. return (n + k)

  -- `drain`, with the rounds that are left.
  pub drain : ℕ → Run (Unit {0})
  drain zero = return tt
  drain (suc rounds) =
      let rest = drain rounds in
      tick >>> λ n. if n == 0 then (tick >>> λ k. if k == 0 then return tt else rest) else rest

  -- How many of a queue's composes a retry gets executed.
  pub retry_queue : ℕ → List Compose → Run ℕ
  retry_queue gas [] = return 0
  retry_queue gas (c ∷ cs) = call (net.lz_compose c (some gas)) >>> λ r.
      change (after_retry c r) >>> λ _. retry_queue gas cs >>> λ n. return (one_if r.success + n)

  -- `retried` and `succeeded`; the queue is taken out before the first call.
  pub retry_failed_composes : ℕ → Run (ℕ × ℕ)
  retry_failed_composes gas s w =
      (change (λ s. record s { failed_composes = [] }) >>> (λ _.
          retry_queue gas s.failed_composes >>> (λ n. return (length s.failed_composes, n))))
        s w
