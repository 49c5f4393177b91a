-- ===== src/Relayer/Tests.antt =====
-- A network of one EVM chain with two composes waiting, and one that answers nothing.
use boundless_stock.Prelude.{ℕ, ◌+◌, ◌%◌, ◌==◌, ◌≡◌, refl, Bool, none, [], ◌∷◌, length, ok, err}
use boundless_stock.Relayer.State.{Relayer, Calls, Compose, PacketLog, thrown}
use boundless_stock.Relayer.{relay_logs, retry_failed_composes, drain}
use boundless_stock.Relayer.Retry.{
  executed, refused, calls_of, world_after, retry_failed_composes-conserves,
}
use boundless_stock.Relayer.Once.{relay_logs-once}

abbrev log_of : ℕ → PacketLog
log_of n = record { hash = n; log_index = 0; encoded_payload = []; options = [] }

-- Composes with an even message succeed; the world counts the calls.
abbrev even : ℕ → Bool
even n = (n % 2) == 0

abbrev net : Calls ℕ
net = record {
  head = λ eid w. (ok 5, w);
  packet_logs = λ eid a b w. (ok (log_of 1 ∷ log_of 2 ∷ []), w);
  validate_packet = λ eid e w. (ok tt, w);
  lz_receive = λ eid p v g w. (err thrown, w);
  compose_logs = λ eid b w. (ok [], w);
  lz_compose = λ c g w. (ok (record { success = even c.guid; block = none }), w + 1);
  solana_deliver = λ eid e w. (ok 0, w);
  scan_outbound = λ eid w. (ok [], w);
  evm_eids = 1 ∷ [];
  solana_eids = [];
}

abbrev down : Calls ℕ
down = record net { lz_compose = λ c g w. (err thrown, w) }

abbrev waiting : ℕ → Compose
waiting n = record { eid = 1; from = 1; to = 2; guid = n; index = 0; message = []; value = 0 }

abbrev start : Relayer
start = record {
  cursors = [];
  seen = [];
  failed_composes = waiting 1 ∷ waiting 2 ∷ [];
  delivered = 0;
  composed = 0;
  failed = 2;
}

-- Compose 2 is executed, compose 1 waits again.
retried :
    retry_failed_composes net 3_000_000 start 0
    ≡ (ok (2, 1), (record start { failed_composes = waiting 1 ∷ []; composed = 1 }, 2))
unfolding retry_failed_composes boundless_stock.Relayer.retry_queue boundless_stock.Relayer.◌>>>◌
retried = refl

retry_failed_composes-conserves_example : retry_failed_composes net 3_000_000 start 0 ≡ (
  ok (2, length (executed (calls_of net 3_000_000 start.failed_composes 0))),
  (
    record start {
      composed = 0 + length (executed (calls_of net 3_000_000 start.failed_composes 0));
      failed_composes = refused (calls_of net 3_000_000 start.failed_composes 0);
    },
    world_after net 3_000_000 start.failed_composes 0,
  ),
)
retry_failed_composes-conserves_example =
    retry_failed_composes-conserves net 3_000_000 start 0
      (λ c w. (record { success = even c.guid; block = none }, refl))

relay_logs-once_example :
    relay_logs net
      (log_of 1 ∷ log_of 2 ∷ [])
      (relay_logs net (log_of 1 ∷ log_of 2 ∷ []) start 0).1.0
      7
    ≡ (ok 0, ((relay_logs net (log_of 1 ∷ log_of 2 ∷ []) start 0).1.0, 7))
relay_logs-once_example = relay_logs-once net (log_of 1 ∷ log_of 2 ∷ []) start 0 7
