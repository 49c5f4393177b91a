-- ===== src/Solana/Mint/Tests.antt =====
-- A mint with two extensions, of which one is refused.
use boundless_stock.Prelude.{
  ◌≡◌, refl, ◌↔◌, inr, arith, some, List, [], ◌∷◌, ◌++◌, replicate, All, ok, nat_eq,
}
use boundless_stock.Prelude.Bytes.{byte_at}
use boundless_stock.Solana.Mint.{check_existing_mint}
use boundless_stock.Solana.Mint.Extensions.{Extension, tlv}
use boundless_stock.Solana.Mint.Accepted.{IsRefused, mint_2022, check_existing_mint_iff}
use boundless_stock.Solana.Tests.{number_keys}

abbrev extensions : List Extension
extensions =
    record { kind = 3; value = replicate 32 8 } ∷ record { kind = 12; value = replicate 32 5 } ∷ []

check_existing_mint_iff_example :
    (check_existing_mint number_keys
        (ok (
          some
            (mint_2022 number_keys (replicate 166 6 ++ (tlv extensions ++ (0 ∷ 0 ∷ 0 ∷ 0 ∷ []))))))
        6
      ≡ ok 62)
    ↔ (All (λ x. ¬ IsRefused x.kind) extensions × (byte_at 44 (replicate 166 6) ≡ some 6))
check_existing_mint_iff_example =
    check_existing_mint_iff number_keys (replicate 166 6) extensions (0 ∷ 0 ∷ 0 ∷ 0 ∷ []) 6 refl
      ((omega arith, omega arith, omega arith), ((omega arith, omega arith, omega arith), tt))
      (inr refl)
