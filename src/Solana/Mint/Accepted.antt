-- ===== src/Solana/Mint/Accepted.antt =====
-- Which Token-2022 mints `checkExistingMint` accepts.
use boundless_stock.Prelude.{
  ℕ, zero, suc, ◌<◌, ◌≡◌, refl, sym, ◌∙◌, ◌↔◌, arith, Bool, true, false, not, ◌||◌, Option, none,
  some, List, [], ◌∷◌, ◌++◌, map, length, All, Has, ==_iff, Result, ok, ◌>>=◌, throw_if, Eq,
}
use boundless_stock.Prelude.Bytes.{Bytes, byte_at}
use boundless_stock.Solana.{Web3}
use boundless_stock.Solana.Mint.{
  refused_extensions, wrong_decimals, Account, is_refused, any_refused, is_byte, is_token_program,
  check_existing_mint,
}
use boundless_stock.Solana.Mint.Extensions.{Extension, tlv, IsExtension, IsEnd, mint_extensions-tlv}

-- Transfer fee, default account state, non-transferable, permanent delegate, transfer hook, and
-- confidential transfer fee.
abbrev pub IsRefused : ℕ → Type 0
IsRefused k = Has k (1 ∷ 6 ∷ 9 ∷ 12 ∷ 14 ∷ 16 ∷ [])

is_refused_iff : (k : ℕ) → (is_refused k ≡ true) ↔ IsRefused k
is_refused_iff k =
    ground (arith, ==_iff k 1, ==_iff k 6, ==_iff k 9, ==_iff k 12, ==_iff k 14, ==_iff k 16)

neither_iff :
    {P Q : Type 0} (a b : Bool) → (a ≡ true) ↔ P → (b ≡ false) ↔ Q → (a || b ≡ false) ↔ ((¬ P) × Q)
neither_iff true b p q = ground arith
neither_iff false b p q = ground arith

-- Two checks and a result.
two_checks_iff :
    {E A : Type 0} (a b : Bool) (d f : E) (v : A)
    → (Path (Result E A) (throw_if a d >>= λ _. throw_if b f >>= λ _. ok v) (ok v))
      ↔ ((a ≡ false) × (b ≡ false))
two_checks_iff true b d f v = ground arith
two_checks_iff false true d f v = ground arith
two_checks_iff false false d f v = ground arith

any_refused_iff :
    (xs : List Extension)
    → (any_refused (map (λ x. x.kind) xs) ≡ false) ↔ All (λ x. ¬ IsRefused x.kind) xs
any_refused_iff [] = ground arith
any_refused_iff (x ∷ xs) =
    neither_iff (is_refused x.kind) _ (is_refused_iff x.kind) (any_refused_iff xs)

byte_at-append : (n : ℕ) (a b : Bytes) → n < length a → byte_at n (a ++ b) ≡ byte_at n a
byte_at-append n [] b h = let no : ⊥ = omega arith in elim no [ ]
byte_at-append zero (x ∷ a) b h = refl
byte_at-append (suc n) (x ∷ a) b h = byte_at-append n a b (omega arith)

is_byte_iff : (b : Option ℕ) (n : ℕ) → (not (is_byte b n) ≡ false) ↔ (b ≡ some n)
is_byte_iff none n = ground arith
is_byte_iff (some b) n = ground (arith, ==_iff b n)

passed_iff : {E : Type 0} (b : Bool) (e : E) → (throw_if b e ≡ ok tt) ↔ (b ≡ false)
passed_iff true e = ground arith
passed_iff false e = ground arith

module _ {Key : Type 0} ⦃e : Eq Key⦄ (web3 : Web3 Key) where
  abbrev pub mint_2022 : Bytes → Account Key
  mint_2022 d = record { owner = web3.token_2022_program; data' = d }

  -- A Token-2022 mint of 166 bytes and a list of extensions is accepted exactly where none of them is
  -- of a refused kind and its decimals are those of the configuration.
  pub check_existing_mint_iff :
      (base : Bytes) (xs : List Extension) (rest : Bytes) (decimals : ℕ)
      → length base ≡ 166
      → All IsExtension xs
      → IsEnd rest
      → (check_existing_mint web3 (ok (some (mint_2022 (base ++ (tlv xs ++ rest))))) decimals
          ≡ ok web3.token_2022_program)
        ↔ (All (λ x. ¬ IsRefused x.kind) xs × (byte_at 44 base ≡ some decimals))
  unfolding check_existing_mint
  check_existing_mint_iff base xs rest decimals size h end =
      let d = base ++ (tlv xs ++ rest) in
      let byte : byte_at 44 d ≡ byte_at 44 base =
        byte_at-append 44 base (tlv xs ++ rest) (omega (arith, size)) in
      let mine : e.beq web3.token_2022_program web3.token_2022_program ≡ true =
        (e.beq_iff web3.token_2022_program web3.token_2022_program).1 refl in
      let known : is_token_program web3 web3.token_2022_program ≡ true = ground (arith, mine) in
      let kinds = mint_extensions-tlv base xs rest size h end in
      let refused = any_refused (map (λ x. x.kind) xs) in
      let wrong = not (is_byte (byte_at 44 base) decimals) in
      let short : check_existing_mint web3 (ok (some (mint_2022 d))) decimals ≡ (
          throw_if refused refused_extensions >>= λ _.
          throw_if wrong wrong_decimals >>= λ _. ok web3.token_2022_program) =
        rw (known, mine, kinds, byte) refl in
      let checks =
        two_checks_iff refused wrong refused_extensions wrong_decimals web3.token_2022_program in
      (
        λ p.
            let r = checks.0 (sym short ∙ p) in
            ((any_refused_iff xs).0 r.0, (is_byte_iff (byte_at 44 base) decimals).0 r.1),
        λ (fine, same).
            short
            ∙ checks.1
                ((any_refused_iff xs).1 fine, (is_byte_iff (byte_at 44 base) decimals).1 same),
      )
