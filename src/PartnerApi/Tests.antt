-- ===== src/PartnerApi/Tests.antt =====
-- Two partners' keys in the environment, and runs of the front door.
use boundless_stock.Prelude.{
  ℕ, ◌+◌, ◌*◌, ◌≤◌, ◌≡◌, refl, ◌⊎◌, inl, inr, arith, true, false, none, some, List, [], ◌∷◌, max,
  Has, ok, err, nat_eq,
}
use boundless_stock.PartnerApi.{
  Text, configured_keys, authenticate, development, name_and_key, invalid_api_key, missing_api_key,
}
use boundless_stock.PartnerApi.Limit.{count_through, count_through-bound}
use boundless_stock.PartnerApi.Keys.{IsKeyOf, authenticate-IsKeyOf}

-- A digest that stands in for SHA-256: the text's number in base 256.
abbrev digest : Text → ℕ
digest [] = 0
digest (c ∷ s) = c + 256 * digest s

-- "ab:x, c:yz"
abbrev keys : Text
keys = b'a' ∷ b'b' ∷ b':' ∷ b'x' ∷ b',' ∷ 32 ∷ b'c' ∷ b':' ∷ b'y' ∷ b'z' ∷ []

abbrev yz : Text
yz = b'y' ∷ b'z' ∷ []

second_key : authenticate digest (some keys) true (some yz) ≡ ok (b'c' ∷ [])
unfolding authenticate configured_keys boundless_stock.PartnerApi.pairs
    boundless_stock.PartnerApi.split_commas boundless_stock.PartnerApi.trim_end
    boundless_stock.PartnerApi.trim_start boundless_stock.PartnerApi.find_key name_and_key
    boundless_stock.PartnerApi.index_of_colon
second_key = refl

wrong_key : authenticate digest (some keys) true (some (b'x' ∷ b'y' ∷ [])) ≡ err invalid_api_key
unfolding authenticate configured_keys boundless_stock.PartnerApi.pairs
    boundless_stock.PartnerApi.split_commas boundless_stock.PartnerApi.trim_end
    boundless_stock.PartnerApi.trim_start boundless_stock.PartnerApi.find_key name_and_key
    boundless_stock.PartnerApi.index_of_colon
wrong_key = refl

no_key : authenticate digest (some keys) true none ≡ err missing_api_key
unfolding authenticate configured_keys boundless_stock.PartnerApi.pairs
    boundless_stock.PartnerApi.split_commas boundless_stock.PartnerApi.trim_end
    boundless_stock.PartnerApi.trim_start
no_key = refl

-- With no colon the name loses the pair's last character.
no_colon : name_and_key yz ≡ (b'y' ∷ [], yz)
unfolding name_and_key boundless_stock.PartnerApi.index_of_colon
no_colon = refl

authenticate-IsKeyOf_example :
    IsKeyOf digest (configured_keys digest (some keys)) (some yz) (b'c' ∷ [])
    ⊎ ((configured_keys digest (some keys) ≡ []) × (true ≡ false) × ((b'c' ∷ []) ≡ development))
authenticate-IsKeyOf_example =
    authenticate-IsKeyOf digest (some keys) true (some yz) (b'c' ∷ []) second_key

Has-yz : Has (b'c' ∷ [], digest yz) (configured_keys digest (some keys))
unfolding configured_keys boundless_stock.PartnerApi.pairs boundless_stock.PartnerApi.split_commas
    boundless_stock.PartnerApi.trim_end boundless_stock.PartnerApi.trim_start name_and_key
    boundless_stock.PartnerApi.index_of_colon
Has-yz = inr (inl refl)

-- Two requests a minute: caller 1 at 59.999 s and around the end of the window, caller 2 between.
abbrev calls : List (ℕ × ℕ)
calls =
    (1, 0) ∷ (1, 59_990) ∷ (1, 59_991) ∷ (2, 59_992) ∷ (1, 60_000) ∷ (1, 60_001) ∷ (1, 60_002) ∷ []

three_through : count_through 2 1 59_000 [] calls ≡ 3
unfolding boundless_stock.PartnerApi.rate_limit boundless_stock.PartnerApi.next_window
three_through = refl

count_through-bound_example : count_through 2 1 59_000 [] calls ≤ 2 * max 1 2
count_through-bound_example = count_through-bound 2 1 59_000 calls (
  omega arith,
  (omega arith, (omega arith, (omega arith, (omega arith, (omega arith, (omega arith, tt)))))),
)
