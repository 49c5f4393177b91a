-- ===== src/Solana/Decode/Calls.antt =====
-- The instructions of a message that call a program.
use boundless_stock.Prelude.{
  ℕ, ◌≡◌, refl, sym, ap, ◌∙◌, ◌↔◌, inl, inr, arith, true, Option, none, some, List, [], ◌∷◌, ◌++◌,
  All, Bool-cases, ok, ok-injective, Eq,
}
use boundless_stock.Prelude.Bytes.{Bytes}
use boundless_stock.Solana.Decode.{key_of, one_call, is_key, calls}

first_of : {c d : Bytes} {l : List Bytes} → c ∷ l ≡ d ∷ [] → c ≡ d
first_of p = cc

rest_of : {c d : Bytes} {l : List Bytes} → c ∷ l ≡ d ∷ [] → l ≡ []
rest_of p = cc

pub one_call-ok : (ds : List Bytes) (d : Bytes) → one_call ds ≡ ok d → ds ≡ d ∷ []
one_call-ok [] d p = ground arith
one_call-ok (c ∷ []) d p = ap (λ x. x ∷ []) (ok-injective p)
one_call-ok (c ∷ b ∷ ds) d p = ground arith

module _ {Key : Type 0} ⦃e : Eq Key⦄ where
  -- The instruction calls the program.
  abbrev pub IsCall : List Key → Key → ℕ × Bytes → Type 0
  IsCall keys p ix = key_of (ix.0) keys ≡ some p

  abbrev pub NoCalls : List Key → Key → List (ℕ × Bytes) → Type 0
  NoCalls keys p ixs = All (λ ix. ¬ IsCall keys p ix) ixs

  -- Of the instructions exactly one calls the program, with these data.
  abbrev pub IsOnlyCall : List Key → Key → Bytes → List (ℕ × Bytes) → Type 0
  IsOnlyCall keys p data' ixs =
      (before : List (ℕ × Bytes)) × (i : ℕ) × (after : List (ℕ × Bytes)) × (ixs
        ≡ before ++ ((i, data') ∷ after))
      × NoCalls keys p before
      × (key_of i keys ≡ some p)
      × NoCalls keys p after

  is_key_iff : (k : Option Key) (p : Key) → (is_key k (some p) ≡ true) ↔ (k ≡ some p)
  is_key_iff none p = ground arith
  is_key_iff (some k) p = ground (arith, e.beq_iff k p)

  calls-none :
      (keys : List Key) (p : Key) (ixs : List (ℕ × Bytes))
      → NoCalls keys p ixs
      → calls keys (some p) ixs ≡ []
  unfolding calls
  calls-none keys p [] h = refl
  calls-none keys p ((i, d) ∷ ixs) h =
      ground (arith, is_key_iff (key_of i keys) p, calls-none keys p ixs h.1)

  calls-nil :
      (keys : List Key) (p : Key) (ixs : List (ℕ × Bytes))
      → calls keys (some p) ixs ≡ []
      → NoCalls keys p ixs
  unfolding calls
  calls-nil keys p [] h = tt
  calls-nil keys p ((i, d) ∷ ixs) h =
      ground (arith, is_key_iff (key_of i keys) p, calls-nil keys p ixs)

  pub calls-IsOnlyCall :
      (keys : List Key) (p : Key) (d : Bytes) (ixs : List (ℕ × Bytes))
      → calls keys (some p) ixs ≡ d ∷ []
      → IsOnlyCall keys p d ixs
  unfolding calls
  calls-IsOnlyCall keys p d [] h = ground arith
  calls-IsOnlyCall keys p d ((i, c) ∷ ixs) h = elim (Bool-cases (is_key (key_of i keys) (some p))) [
    | inl here ↦
        let found : c ∷ calls keys (some p) ixs ≡ d ∷ [] = sym (rw here refl) ∙ h in
        let first : (i, c) ∷ ixs ≡ (i, d) ∷ ixs = ap (λ x. (i, x) ∷ ixs) (first_of found) in
        (
          [],
          i,
          ixs,
          first,
          tt,
          (is_key_iff (key_of i keys) p).0 here,
          calls-nil keys p ixs (rest_of found),
        )
    | inr other ↦
        let r = calls-IsOnlyCall keys p d ixs (sym (rw other refl) ∙ h) in
        let no_call : ¬ IsCall keys p (i, c) = ground (arith, is_key_iff (key_of i keys) p) in
        ((i, c) ∷ r.0, r.1, r.2, ap (λ l. (i, c) ∷ l) r.3, (no_call, r.4), r.5, r.6)
  ]

  pub only_call-calls :
      (keys : List Key) (p : Key) (d : Bytes) (before : List (ℕ × Bytes)) (i : ℕ)
      (after : List (ℕ × Bytes))
      → NoCalls keys p before
      → key_of i keys ≡ some p
      → NoCalls keys p after
      → calls keys (some p) (before ++ ((i, d) ∷ after)) ≡ d ∷ []
  unfolding calls
  only_call-calls keys p d [] i after b h a =
      rw ((is_key_iff (key_of i keys) p).1 h, calls-none keys p after a) refl
  only_call-calls keys p d ((j, c) ∷ before) i after b h a =
      ground (arith, is_key_iff (key_of j keys) p, only_call-calls keys p d before i after b.1 h a)

  pub no_program : (keys : List Key) (ixs : List (ℕ × Bytes)) → calls keys none ixs ≡ []
  unfolding calls
  no_program keys [] = refl
  no_program keys ((i, d) ∷ ixs) = ground (arith, no_program keys ixs)
