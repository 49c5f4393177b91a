-- ===== src/Relayer/Kept.antt =====
-- What a pass of the relayer keeps, whatever the chains answer: infra/relayer.ts.
use boundless_stock.Prelude.{
  ℕ, zero, suc, Bool, true, false, Option, none, some, List, [], ◌∷◌, leb, ◌==◌, if◌then◌else◌,
  Result, ok, err, nat_eq, lookup,
}
use boundless_stock.Hex.{Hex}
use boundless_stock.Executor.{ExecutorRequests, ParseError, parse_executor_options}
use boundless_stock.Executor.Packet.{DecodedPacket, decode_packet}
use boundless_stock.Relayer.State.{
  LogId, packet_id, compose_id, has, Relayer, Calls, Compose, ComposeLog, PacketLog, Receipt,
  Thrown, after_compose, see, or_zero, count_delivered, count_failed, member, set_cursor,
}
use boundless_stock.Relayer.{
  Run, ◌>>>◌, on_known_compose, execute_one, execute_logs, execute_composes, or_throw,
  after_receive, deliver_evm, deliver_to, deliver, counted, try_deliver, on_known_packet, relay_one,
  relay_logs, drain_chain, deliver_all, drain_solana, total, tick, drain, continue_with,
}

module _ {World : Type 0} (net : Calls World) (P : Relayer → Type 0) where
  -- Every single change of the relayer in a pass keeps `P`.
  pub record Stable : Type 0 where
    pub seeing : (id : LogId) (s : Relayer) → P s → P (see id s)
    pub composing :
        (h i : ℕ) (c : Compose) (r : Receipt) (s : Relayer)
        → P s
        → P (after_compose (compose_id h i) c r s)
    pub delivering : (n : ℕ) (s : Relayer) → P s → P (count_delivered n s)
    pub failing : (s : Relayer) → P s → P (count_failed s)
    pub scanning : (eid head : ℕ) (s : Relayer) → P s → P (set_cursor eid head s)

  abbrev pub Keeps : {A : Type 0} → Run net A → Type 0
  Keeps m = (s : Relayer) (w : World) → P s → P (m s w).1.0

  continue_with-Keeps :
      {A B : Type 0} (f : A → Run net B)
      → ((a : A) → Keeps (f a))
      → (r : Result Thrown A) (s : Relayer) (w : World) → P s
      → P (continue_with net f r s w).1.0
  continue_with-Keeps f kept (ok a) s w p = kept a s w p
  continue_with-Keeps f kept (err e) s w p = p

  pub then-Keeps :
      {A B : Type 0} (m : Run net A) (f : A → Run net B)
      → Keeps m
      → ((a : A) → Keeps (f a))
      → Keeps ((◌>>>◌ net) m f)
  unfolding ◌>>>◌
  then-Keeps m f first rest s w p =
      continue_with-Keeps f rest (m s w).0 (m s w).1.0 (m s w).1.1 (first s w p)

  module _ (stable : Stable) where
    on_known_compose-Keeps :
        (b : Bool) (m : Run net (Unit {0})) → Keeps m → Keeps (on_known_compose net b m)
    on_known_compose-Keeps true m kept s w p = p
    on_known_compose-Keeps false m kept s w p = kept s w p

    execute_one-Keeps :
        (eid : ℕ) (req : ExecutorRequests) (l : ComposeLog) → Keeps (execute_one net eid req l)
    unfolding execute_one
    execute_one-Keeps eid req l s w p =
        on_known_compose-Keeps (has (compose_id l.hash l.log_index) s.seen) _
          (then-Keeps _ _ (λ s w p. stable.seeing _ s p)
            (λ _. then-Keeps _ _ (λ s w p. p) (λ r s w p. stable.composing _ _ _ r s p)))
          s w p

    execute_logs-Keeps :
        (eid : ℕ) (req : ExecutorRequests) (ls : List ComposeLog)
        → Keeps (execute_logs net eid req ls)
    unfolding execute_logs
    execute_logs-Keeps eid req [] = λ s w p. p
    execute_logs-Keeps eid req (l ∷ ls) =
        then-Keeps _ _ (execute_one-Keeps eid req l) (λ _. execute_logs-Keeps eid req ls)

    execute_composes-Keeps :
        (eid : ℕ) (block : Option ℕ) (req : ExecutorRequests)
        → Keeps (execute_composes net eid block req)
    unfolding execute_composes
    execute_composes-Keeps eid block req = then-Keeps _ _ (λ s w p. p) (execute_logs-Keeps eid req)

    if-Keeps :
        {A : Type 0} (b : Bool) (m n : Run net A) → Keeps m → Keeps n → Keeps (if b then m else n)
    if-Keeps true m n kept kept' = kept
    if-Keeps false m n kept kept' = kept'

    after_receive-Keeps :
        (eid : ℕ) (req : ExecutorRequests) (r : Receipt) → Keeps (after_receive net eid req r)
    after_receive-Keeps eid req r =
        if-Keeps r.success _ _
          (then-Keeps _ _ (λ s w p. stable.delivering 0 s p)
            (λ _. execute_composes-Keeps eid r.block req))
          (λ s w p. stable.failing s p)

    or_throw-Keeps : {A : Type 0} (r : Result ParseError A) → Keeps (or_throw net r)
    or_throw-Keeps (ok a) s w p = p
    or_throw-Keeps (err e) s w p = p

    deliver_evm-Keeps :
        (eid : ℕ) (encoded options : Hex) (packet : DecodedPacket)
        → Keeps (deliver_evm net eid encoded options packet)
    deliver_evm-Keeps eid encoded options packet =
        then-Keeps _ _ (or_throw-Keeps (parse_executor_options options)) (λ req.
          then-Keeps _ _ (λ s w p. p)
            (λ _. then-Keeps _ _ (λ s w p. p) (after_receive-Keeps eid req)))

    deliver_to-Keeps :
        (eid : Option ℕ) (encoded options : Hex) (packet : DecodedPacket)
        → Keeps (deliver_to net eid encoded options packet)
    unfolding deliver_to
    deliver_to-Keeps none encoded options packet = λ s w p. p
    deliver_to-Keeps (some eid) encoded options packet =
        if-Keeps (member eid net.solana_eids) _ _
          (then-Keeps _ _ (λ s w p. p) (λ n s w p. stable.delivering n s p))
          (if-Keeps (member eid net.evm_eids) _ _ (deliver_evm-Keeps eid encoded options packet)
            (λ s w p. p))

    deliver-Keeps : (encoded options : Hex) → Keeps (deliver net encoded options)
    unfolding deliver
    deliver-Keeps encoded options =
        then-Keeps _ _ (or_throw-Keeps (decode_packet encoded))
          (λ packet. deliver_to-Keeps packet.dst_eid encoded options packet)

    counted-Keeps :
        (r : Result Thrown (Unit {0}) × (Relayer × World)) → P r.1.0 → P (counted net r).1.0
    counted-Keeps (ok u, (s, w)) p = p
    counted-Keeps (err e, (s, w)) p = stable.failing s p

    pub try_deliver-Keeps : (encoded options : Hex) → Keeps (try_deliver net encoded options)
    unfolding try_deliver
    try_deliver-Keeps encoded options s w p =
        counted-Keeps (deliver net encoded options s w) (deliver-Keeps encoded options s w p)

    on_known_packet-Keeps : (b : Bool) (m : Run net ℕ) → Keeps m → Keeps (on_known_packet net b m)
    on_known_packet-Keeps true m kept s w p = p
    on_known_packet-Keeps false m kept s w p = kept s w p

    pub relay_one-Keeps : (l : PacketLog) → Keeps (relay_one net l)
    unfolding relay_one
    relay_one-Keeps l s w p =
        on_known_packet-Keeps (has (packet_id l.hash l.log_index) s.seen) _
          (then-Keeps _ _ (λ s w p. stable.seeing _ s p)
            (λ _. try_deliver-Keeps l.encoded_payload l.options))
          s w p

    pub relay_logs-Keeps : (ls : List PacketLog) → Keeps (relay_logs net ls)
    unfolding relay_logs
    relay_logs-Keeps [] = λ s w p. p
    relay_logs-Keeps (l ∷ ls) =
        then-Keeps _ _ (relay_one-Keeps l)
          (λ n. then-Keeps _ _ (relay_logs-Keeps ls) (λ k s w p. p))

    drain_chain-Keeps : (eid : ℕ) → Keeps (drain_chain net eid)
    unfolding drain_chain
    drain_chain-Keeps eid s w p =
        then-Keeps _ _ (λ s w p. p)
          (λ head.
            if-Keeps (leb head (or_zero (lookup eid s.cursors))) _ _ (λ s w p. p)
              (then-Keeps _ _ (λ s w p. p)
                (λ logs.
                  then-Keeps _ _ (λ s w p. stable.scanning eid head s p)
                    (λ _. relay_logs-Keeps logs))))
          s w p

    deliver_all-Keeps : (ps : List (Hex × Hex)) → Keeps (deliver_all net ps)
    deliver_all-Keeps [] = λ s w p. p
    deliver_all-Keeps ((encoded, options) ∷ ps) =
        then-Keeps _ _ (try_deliver-Keeps encoded options)
          (λ n. then-Keeps _ _ (deliver_all-Keeps ps) (λ k s w p. p))

    total-Keeps :
        (f : ℕ → Run net ℕ) (es : List ℕ) → ((e : ℕ) → Keeps (f e)) → Keeps (total net f es)
    total-Keeps f [] kept = λ s w p. p
    total-Keeps f (e ∷ es) kept =
        then-Keeps _ _ (kept e) (λ n. then-Keeps _ _ (total-Keeps f es kept) (λ k s w p. p))

    tick-Keeps : Keeps (tick net)
    unfolding tick drain_solana
    tick-Keeps = then-Keeps _ _ (total-Keeps _ net.evm_eids drain_chain-Keeps) (λ n.
        then-Keeps _ _
          (total-Keeps _ net.solana_eids (λ e. then-Keeps _ _ (λ s w p. p) deliver_all-Keeps))
          (λ k s w p. p))

    pub drain-Keeps : (rounds : ℕ) → Keeps (drain net rounds)
    unfolding drain
    drain-Keeps zero = λ s w p. p
    drain-Keeps (suc rounds) = then-Keeps _ _ tick-Keeps (λ n.
        if-Keeps (n == 0) _ _
          (then-Keeps _ _ tick-Keeps (λ k. if-Keeps (k == 0) _ _ (λ s w p. p) (drain-Keeps rounds)))
          (drain-Keeps rounds))
