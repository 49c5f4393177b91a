-- ===== src/Solana/Orders/Compiled.antt =====
-- What compiling a transaction keeps of its instructions.
use boundless_stock.Prelude.{
  ℕ, ◌≡◌, ◌≢◌, sym, ap, ◌∙◌, arith, true, some, List, [], ◌∷◌, ◌++◌, take, All, Has, Eq,
  some-injective,
}
use boundless_stock.Prelude.Bytes.{Bytes}
use boundless_stock.Solana.{Instruction}
use boundless_stock.Solana.Decode.{Message, key_of}
use boundless_stock.Solana.Decode.Calls.{IsCall, IsOnlyCall}

module _ {Key : Type 0} where
  -- A compiled instruction is an instruction: its index is that of the program, its data are the same.
  abbrev pub IsCompiled : List Key → List (ℕ × Bytes) → List (Instruction Key) → Type 0
  IsCompiled keys [] [] = Unit
  IsCompiled keys ((i, d) ∷ cs) (ix ∷ ixs) =
      (key_of i keys ≡ some ix.program_id) × (d ≡ ix.data') × IsCompiled keys cs ixs
  IsCompiled keys _ _ = ⊥

  abbrev pub IsSignedFor : List Key → Instruction Key → Type 0
  IsSignedFor signers ix = All (λ k. k.is_signer ≡ true → Has k.pubkey signers) ix.keys

  -- What compiling does: the payer is the first of the static keys; the programs are among them; and so
  -- are, first, all that must sign.
  abbrev pub IsMessageOf : Key → List (Instruction Key) → Message Key → Type 0
  IsMessageOf payer ixs m =
      (key_of 0 m.static_keys ≡ some payer)
      × IsCompiled m.static_keys m.compiled ixs
      × All (IsSignedFor (take m.required m.static_keys)) ixs

module _ {Key : Type 0} ⦃e : Eq Key⦄ where
  pub compiled-IsOnlyCall :
      (keys : List Key) (p : Key) (ix : Instruction Key) (cs : List (ℕ × Bytes))
      (before : List (Instruction Key))
      → IsCompiled keys cs (before ++ (ix ∷ []))
      → All (λ j. j.program_id ≢ p) before
      → ix.program_id ≡ p
      → IsOnlyCall keys p ix.data' cs
  compiled-IsOnlyCall keys p ix [] [] h others this = ground arith
  compiled-IsOnlyCall keys p ix [] (j ∷ before) h others this = ground arith
  compiled-IsOnlyCall keys p ix ((i, d) ∷ []) [] h others this =
      ([], i, [], ap (λ x. (i, x) ∷ []) h.1, tt, h.0 ∙ ap some this, tt)
  compiled-IsOnlyCall keys p ix ((i, d) ∷ c ∷ cs) [] h others this = ground arith
  compiled-IsOnlyCall keys p ix ((i, d) ∷ cs) (j ∷ before) h others this =
      let r = compiled-IsOnlyCall keys p ix cs before h.2 others.1 this in
      let no_call : ¬ IsCall keys p (i, d) = λ q. others.0 (some-injective (sym (h.0) ∙ q)) in
      ((i, d) ∷ r.0, r.1, r.2, ap (λ l. (i, d) ∷ l) r.3, (no_call, r.4), r.5, r.6)
