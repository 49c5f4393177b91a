-- ===== src/Relayer/Once.antt =====
-- A packet that was seen is not delivered again: `drainChain` of infra/relayer.ts.
use boundless_stock.Prelude.{
  ℕ, ◌+◌, ◌≡◌, refl, arith, Bool, true, false, List, [], ◌∷◌, Result, ok, err,
}
use boundless_stock.Relayer.State.{
  LogId, packet_id, compose_id, same_id, has, delete, Relayer, Calls, Compose, PacketLog, Receipt,
  Thrown, after_compose, see,
}
use boundless_stock.Relayer.{
  ◌>>>◌, continue_with, return, change, relay_one, relay_logs, on_known_packet, drain, try_deliver,
  deliver, counted,
}
use boundless_stock.Relayer.Kept.{Stable, drain-Keeps, relay_logs-Keeps, try_deliver-Keeps}

abbrev pub IsSeen : PacketLog → Relayer → Type 0
IsSeen l s = has (packet_id l.hash l.log_index) s.seen ≡ true

has-delete :
    (h i k j : ℕ) (ids : List LogId)
    → has (packet_id h i) ids ≡ true
    → has (packet_id h i) (delete (compose_id k j) ids) ≡ true
has-delete h i k j [] p = p
has-delete h i k j (packet_id a b ∷ ids) p = ground (arith, has-delete h i k j ids)
has-delete h i k j (compose_id a b ∷ ids) p = ground (arith, has-delete h i k j ids)

has-see : (id j : LogId) (ids : List LogId) → has id ids ≡ true → has id (j ∷ ids) ≡ true
has-see id j ids p = ground arith

same_id_self : (h i : ℕ) → same_id (packet_id h i) (packet_id h i) ≡ true
same_id_self h i = ground arith

composing-IsSeen :
    (l : PacketLog) (h i : ℕ) (c : Compose) (r : Receipt) (s : Relayer)
    → IsSeen l s
    → IsSeen l (after_compose (compose_id h i) c r s)
composing-IsSeen l h i c r s p = ground (arith, has-delete l.hash l.log_index h i s.seen)

module _ {World : Type 0} (net : Calls World) where
  IsSeen-stable : (l : PacketLog) → Stable net (IsSeen l)
  IsSeen-stable l = record {
    seeing = λ id s p. has-see (packet_id l.hash l.log_index) id s.seen p;
    composing = λ h i c r s p. composing-IsSeen l h i c r s p;
    delivering = λ n s p. p;
    failing = λ s p. p;
    scanning = λ eid head s p. p;
  }

  -- A packet that was seen stays seen, through any number of rounds and however they end.
  pub drain-IsSeen :
      (l : PacketLog) (rounds : ℕ) (s : Relayer) (w : World)
      → IsSeen l s
      → IsSeen l (drain net rounds s w).1.0
  drain-IsSeen l rounds s w p = drain-Keeps net (IsSeen l) (IsSeen-stable l) rounds s w p

  abbrev pub AllSeen : List PacketLog → Relayer → Type 0
  AllSeen [] s = Unit
  AllSeen (l ∷ ls) s = IsSeen l s × AllSeen ls s

  relay_one-seen :
      (l : PacketLog) (s : Relayer) (w : World) → IsSeen l s → relay_one net l s w ≡ (ok 0, (s, w))
  unfolding relay_one
  relay_one-seen l s w p = rw p refl

  relay_logs-seen :
      (ls : List PacketLog) (s : Relayer) (w : World)
      → AllSeen ls s
      → relay_logs net ls s w ≡ (ok 0, (s, w))
  unfolding relay_logs ◌>>>◌
  relay_logs-seen [] s w p = refl
  relay_logs-seen (l ∷ ls) s w p =
      rw (relay_one-seen l s w (p.0), relay_logs-seen ls s w (p.1)) refl

  sees_if :
      (l : PacketLog) (s : Relayer) (w : World) (b : Bool)
      → has (packet_id l.hash l.log_index) s.seen ≡ b
      → IsSeen l
          (on_known_packet net b
            ((◌>>>◌ net)
              (change net (see (packet_id l.hash l.log_index)))
              (λ _. try_deliver net l.encoded_payload l.options))
            s
            w).1.0
  unfolding ◌>>>◌
  sees_if l s w true p = p
  sees_if l s w false p =
      try_deliver-Keeps net (IsSeen l) (IsSeen-stable l) l.encoded_payload l.options
        (see (packet_id l.hash l.log_index) s) w (rw (same_id_self l.hash l.log_index) refl)

  relay_one-sees : (l : PacketLog) (s : Relayer) (w : World) → IsSeen l (relay_one net l s w).1.0
  unfolding relay_one
  relay_one-sees l s w = sees_if l s w (has (packet_id l.hash l.log_index) s.seen) refl

  counted-ok :
      (r : Result Thrown (Unit {0}) × (Relayer × World)) → (n : ℕ) × ((counted net r).0 ≡ ok n)
  counted-ok (ok u, (s, w)) = (1, refl)
  counted-ok (err e, (s, w)) = (0, refl)

  ok_if :
      (l : PacketLog) (s : Relayer) (w : World) (b : Bool)
      → (n : ℕ) × ((on_known_packet net b
            ((◌>>>◌ net)
              (change net (see (packet_id l.hash l.log_index)))
              (λ _. try_deliver net l.encoded_payload l.options))
            s
            w).0
          ≡ ok n)
  unfolding ◌>>>◌ try_deliver
  ok_if l s w true = (0, refl)
  ok_if l s w false =
      counted-ok (deliver net l.encoded_payload l.options (see (packet_id l.hash l.log_index) s) w)

  relay_one-ok :
      (l : PacketLog) (s : Relayer) (w : World) → (n : ℕ) × ((relay_one net l s w).0 ≡ ok n)
  unfolding relay_one
  relay_one-ok l s w = ok_if l s w (has (packet_id l.hash l.log_index) s.seen)

  end_state :
      (n : ℕ) (r : Result Thrown ℕ) (t : Relayer) (w : World)
      → (continue_with net (λ k. return net (n + k)) r t w).1.0 ≡ t
  end_state n (ok k) t w = refl
  end_state n (err e) t w = refl

  relay_logs-next :
      (l : PacketLog) (ls : List PacketLog) (s : Relayer) (w : World)
      → (relay_logs net (l ∷ ls) s w).1.0
        ≡ (relay_logs net ls (relay_one net l s w).1.0 (relay_one net l s w).1.1).1.0
  unfolding relay_logs ◌>>>◌
  relay_logs-next l ls s w =
      let (n, returned) = relay_one-ok l s w in rw returned (end_state n _ _ _)

  relay_logs-sees :
      (ls : List PacketLog) (s : Relayer) (w : World) → AllSeen ls (relay_logs net ls s w).1.0
  relay_logs-sees [] s w = tt
  relay_logs-sees (l ∷ ls) s w =
      let t = (relay_one net l s w).1.0 in
      let v = (relay_one net l s w).1.1 in
      rw (relay_logs-next l ls s w) (
        relay_logs-Keeps net (IsSeen l) (IsSeen-stable l) ls t v (relay_one-sees l s w),
        relay_logs-sees ls t v,
      )

  -- After a pass over some logs a second pass over the same ones, at any later time, delivers none of
  -- them, and changes neither the relayer nor the chains.
  pub relay_logs-once :
      (ls : List PacketLog) (s : Relayer) (w v : World)
      → relay_logs net ls (relay_logs net ls s w).1.0 v ≡ (ok 0, ((relay_logs net ls s w).1.0, v))
  relay_logs-once ls s w v =
      relay_logs-seen ls (relay_logs net ls s w).1.0 v (relay_logs-sees ls s w)
