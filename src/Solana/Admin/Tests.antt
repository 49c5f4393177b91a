-- ===== src/Solana/Admin/Tests.antt =====
-- A partner's terms, sent and read.
use boundless_stock.Prelude.{ℕ, ◌≡◌, refl, true, [], ◌∷◌, ◌++◌, ok, nat_eq}
use boundless_stock.Prelude.Bytes.{Bytes, bytes_of, write_le}
use boundless_stock.Solana.Accounts.{PartnerTerms}
use boundless_stock.Solana.Admin.{encode_terms}
use boundless_stock.Solana.Tests.{number_keys, client}

abbrev terms : PartnerTerms ℕ
terms = record { signer = 2; fee_recipient = 3; max_fee_bps = 300; active = true }

abbrev encoded : Bytes
encoded = bytes_of 32 2 ++ (bytes_of 32 3 ++ (bytes_of 2 300 ++ (1 ∷ [])))

terms_are : encode_terms number_keys client terms ≡ ok encoded
unfolding encode_terms write_le
terms_are = refl
