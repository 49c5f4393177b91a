-- ===== src/Relayer/Retry.antt =====
-- The queue of failed composes: `retryFailedComposes` of infra/relayer.ts.
use boundless_stock.Prelude.{
  ℕ, suc, ◌+◌, ◌≤◌, ◌≡◌, refl, inl, inr, arith, Bool, true, false, Bool-cases, some, List, [], ◌∷◌,
  ◌++◌, length, length-append, append_assoc, append-nil, Result, ok, err,
}
use boundless_stock.Relayer.State.{
  LogId, Relayer, Calls, Compose, Receipt, Thrown, thrown, after_compose, one_if, compose_id,
}
use boundless_stock.Relayer.{◌>>>◌, retry_queue, retry_failed_composes, drain}
use boundless_stock.Relayer.Kept.{Stable, drain-Keeps}

-- At least as many failures are counted as composes wait.
abbrev pub IsCounted : Relayer → Type 0
IsCounted s = length s.failed_composes ≤ s.failed

composing-IsCounted :
    (id : LogId) (c : Compose) (r : Receipt) (s : Relayer)
    → IsCounted s
    → IsCounted (after_compose id c r s)
composing-IsCounted id c r s p = ground (arith, length-append s.failed_composes (c ∷ []))

-- The composes whose call succeeded, and those whose call did not.
abbrev pub executed : List (Compose × Bool) → List Compose
executed [] = []
executed ((c, true) ∷ cs) = c ∷ executed cs
executed ((c, false) ∷ cs) = executed cs

abbrev pub refused : List (Compose × Bool) → List Compose
refused [] = []
refused ((c, true) ∷ cs) = refused cs
refused ((c, false) ∷ cs) = c ∷ refused cs

add_zero : (n : ℕ) → n + 0 ≡ n
add_zero n = omega arith

one_first : (n : ℕ) → one_if true + n ≡ suc n
one_first n = omega arith

none_first : (n : ℕ) → one_if false + n ≡ n
none_first n = omega arith

one_more : (n k : ℕ) → n + 1 + k ≡ n + suc k
one_more n k = omega arith

module _ {World : Type 0} (net : Calls World) where
  IsCounted-stable : Stable net IsCounted
  IsCounted-stable = record {
    seeing = λ id s p. p;
    composing = λ h i c r s p. composing-IsCounted (compose_id h i) c r s p;
    delivering = λ n s p. p;
    failing = λ s p. omega arith;
    scanning = λ eid head s p. p;
  }

  -- No pass of the relayer, of any number of rounds and however it ends, leaves more composes
  -- waiting than it has counted failures, where it began so.
  pub drain-IsCounted :
      (rounds : ℕ) (s : Relayer) (w : World) → IsCounted s → IsCounted (drain net rounds s w).1.0
  drain-IsCounted rounds s w p = drain-Keeps net IsCounted IsCounted-stable rounds s w p

  abbrev succeeded : Result Thrown Receipt → Bool
  succeeded (ok r) = r.success
  succeeded (err e) = false

  -- The composes of a queue, called one after the other, with whether each was executed, and the world
  -- that the calls leave.
  abbrev pub calls_of : ℕ → List Compose → World → List (Compose × Bool)
  calls_of gas [] w = []
  calls_of gas (c ∷ cs) w =
      let (answer, w') = net.lz_compose c (some gas) w in (c, succeeded answer) ∷ calls_of gas cs w'

  abbrev pub world_after : ℕ → List Compose → World → World
  world_after gas [] w = w
  world_after gas (c ∷ cs) w = world_after gas cs (net.lz_compose c (some gas) w).1

  -- The relayer after a queue was retried: as many composed, and those that failed waiting, in order.
  abbrev retried : ℕ → List Compose → World → Relayer → Relayer
  retried gas cs w s = record s {
    composed = s.composed + length (executed (calls_of gas cs w));
    failed_composes = s.failed_composes ++ refused (calls_of gas cs w);
  }

  retry_queue-retried :
      (gas : ℕ) (cs : List Compose) (s : Relayer) (w : World)
      → ((c : Compose) (w : World) → (r : Receipt) × ((net.lz_compose c (some gas) w).0 ≡ ok r))
      → retry_queue net gas cs s w
        ≡ (ok (length (executed (calls_of gas cs w))), (retried gas cs w s, world_after gas cs w))
  unfolding retry_queue ◌>>>◌
  retry_queue-retried gas [] s w answers =
      rw (append-nil s.failed_composes, add_zero s.composed) refl
  retry_queue-retried gas (c ∷ cs) s w answers =
      let (r, answered) = answers c w in
      let w' = (net.lz_compose c (some gas) w).1 in
      elim (Bool-cases r.success) [
        | inl e ↦
            rw
              (
                answered,
                e,
                retry_queue-retried gas cs (record s { composed = s.composed + 1 }) w' answers,
                one_more s.composed (length (executed (calls_of gas cs w'))),
                one_first (length (executed (calls_of gas cs w'))),
              )
              refl
        | inr e ↦
            let again = record s { failed_composes = s.failed_composes ++ (c ∷ []) } in
            rw
              (
                answered,
                e,
                retry_queue-retried gas cs again w' answers,
                append_assoc s.failed_composes (c ∷ []) (refused (calls_of gas cs w')),
                none_first (length (executed (calls_of gas cs w'))),
              )
              refl
      ]

  -- Where every call answers, a retry calls each compose of the queue that it took once, in order, and
  -- returns the length of the queue and the number of composes executed; those are counted as composed,
  -- and just those that failed wait again, in the queue's order; nothing else of the relayer changes.
  pub retry_failed_composes-conserves :
      (gas : ℕ) (s : Relayer) (w : World)
      → ((c : Compose) (w : World) → (r : Receipt) × ((net.lz_compose c (some gas) w).0 ≡ ok r))
      → retry_failed_composes net gas s w ≡ (
        ok (length s.failed_composes, length (executed (calls_of gas s.failed_composes w))),
        (
          record s {
            composed = s.composed + length (executed (calls_of gas s.failed_composes w));
            failed_composes = refused (calls_of gas s.failed_composes w);
          },
          world_after gas s.failed_composes w,
        ),
      )
  unfolding retry_failed_composes ◌>>>◌
  retry_failed_composes-conserves gas s w answers =
      rw (retry_queue-retried gas s.failed_composes (record s { failed_composes = [] }) w answers)
        refl

  -- Where the call for the first of the waiting composes throws, the retry throws, and none of them
  -- waits any more.
  pub retry_failed_composes-lost :
      (gas : ℕ) (s : Relayer) (w : World) (c : Compose) (cs : List Compose)
      → s.failed_composes ≡ c ∷ cs
      → (net.lz_compose c (some gas) w).0 ≡ err thrown
      → ((retry_failed_composes net gas s w).0 ≡ err thrown)
        × ((retry_failed_composes net gas s w).1.0.failed_composes ≡ [])
  unfolding retry_failed_composes retry_queue ◌>>>◌
  retry_failed_composes-lost gas s w c cs queue fails = rw (queue, fails) (refl, refl)
