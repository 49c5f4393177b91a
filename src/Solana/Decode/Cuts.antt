-- ===== src/Solana/Decode/Cuts.antt =====
-- The parts of a partner order's data, by their sizes.
use boundless_stock.Prelude.{
  ℕ, ◌+◌, ◌≡◌, refl, sym, ap, ◌∙◌, arith, some, List, [], ◌∷◌, ◌++◌, length, take, drop,
  some-injective,
}
use boundless_stock.Prelude.Bytes.{Bytes, concat, byte_at, drop_split, drop_all}
use boundless_stock.Solana.Accounts.Layout.{byte_at-drop}

pub byte_one : (n : ℕ) (d : Bytes) (c : ℕ) → byte_at n d ≡ some c → take 1 (drop n d) ≡ c ∷ []
byte_one n d c p = one (drop n d) (sym (byte_at-drop n d) ∙ p)
  where
    one : (d : Bytes) → byte_at 0 d ≡ some c → take 1 d ≡ c ∷ []
    one [] p = ground arith
    one (b ∷ d) p = ap (λ x. x ∷ []) (some-injective p)

cut :
    (n k m : ℕ) (d rest : Bytes)
    → n + k ≡ m
    → drop m d ≡ rest
    → drop n d ≡ take k (drop n d) ++ rest
cut n k m d rest next h =
    drop_split n k d ∙ ap (λ l. take k (drop n d) ++ l) (ap (λ j. drop j d) next ∙ h)

-- The parts of the sizes 8, 1, 8, 8, 4, n, 16 and 2.
abbrev pub cuts_of : Bytes → ℕ → List Bytes
cuts_of d n =
    take 8 d
    ∷ take 1 (drop 8 d)
    ∷ take 8 (drop 9 d)
    ∷ take 8 (drop 17 d)
    ∷ take 4 (drop 25 d)
    ∷ take n (drop 29 d)
    ∷ take 16 (drop (29 + n) d)
    ∷ take 2 (drop (45 + n) d)
    ∷ []

pub concat-cuts_of : (d : Bytes) (n : ℕ) → length d ≡ 45 + n + 2 → d ≡ concat (cuts_of d n)
concat-cuts_of d n size = cut 0 8 8 d _ refl (
    cut 8 1 9 d _ refl (
      cut 9 8 17 d _ refl (
        cut 17 8 25 d _ refl (
          cut 25 4 29 d _ refl (
            cut 29 n (29 + n) d _ refl (
              cut (29 + n) 16 (45 + n) d _ (omega arith) (
                cut (45 + n) 2 (45 + n + 2) d _ refl
                  (drop_all (45 + n + 2) d (omega (arith, size))))))))))
