-- ===== src/Solana/Accounts/Terms.antt =====
-- The accounts of a fee escrow and of a partner as the program lays them out, and that the client
-- reads them.
use boundless_stock.Prelude.{
  ℕ, ◌^◌, ◌<◌, ◌≡◌, refl, arith, Bool, true, false, some, List, [], ◌∷◌, length, take, drop, ok,
}
use boundless_stock.Prelude.Bytes.{
  Bytes, bytes_of, concat, length-bytes_of, little_endian-bytes_of, read_le-field,
}
use boundless_stock.Solana.{out_of_range, Web3}
use boundless_stock.Solana.Accounts.{
  PartnerTerms, FeeEscrow, is_one, flag, read_partner, read_fee_escrow,
}
use boundless_stock.Solana.Accounts.Layout.{place, u64_field, byte_field, key_field, IsKeyOf}

is_one-flag : (b : Bool) → is_one (some (flag b)) ≡ b
is_one-flag true = refl
is_one-flag false = refl

-- The keys are their 32 bytes.
pub record EscrowAccount : Type 0 where
  pub disc : Bytes
  pub request_id : ℕ
  pub partner_id : ℕ
  pub user : Bytes
  pub mint : Bytes
  pub partner_recipient : Bytes
  pub platform_recipient : Bytes
  pub partner_fee : ℕ
  pub platform_fee : ℕ
  pub state : ℕ
  pub bump : ℕ

abbrev pub escrow_fields : EscrowAccount → List Bytes
escrow_fields a =
    a.disc
    ∷ bytes_of 8 a.request_id
    ∷ bytes_of 4 a.partner_id
    ∷ a.user
    ∷ a.mint
    ∷ a.partner_recipient
    ∷ a.platform_recipient
    ∷ bytes_of 8 a.partner_fee
    ∷ bytes_of 8 a.platform_fee
    ∷ (a.state ∷ [])
    ∷ (a.bump ∷ [])
    ∷ []

pub record PartnerAccount : Type 0 where
  pub disc : Bytes
  pub partner_id : ℕ
  pub signer : Bytes
  pub fee_recipient : Bytes
  pub max_fee_bps : ℕ
  pub active : Bool
  pub bump : ℕ

abbrev pub partner_fields : PartnerAccount → List Bytes
partner_fields p =
    p.disc
    ∷ bytes_of 4 p.partner_id
    ∷ p.signer
    ∷ p.fee_recipient
    ∷ bytes_of 2 p.max_fee_bps
    ∷ (flag p.active ∷ [])
    ∷ (p.bump ∷ [])
    ∷ []

module _ {Key : Type 0} (web3 : Web3 Key) where
  -- What the accounts say, for keys of these bytes.
  abbrev pub IsEscrowOf : EscrowAccount → FeeEscrow Key → Type 0
  IsEscrowOf a e =
      (length a.disc ≡ 8)
      × ((a.partner_id < 256 ^ 4) × (e.partner_id ≡ a.partner_id))
      × IsKeyOf web3 a.user e.user
      × IsKeyOf web3 a.mint e.mint
      × IsKeyOf web3 a.partner_recipient e.partner_recipient
      × IsKeyOf web3 a.platform_recipient e.platform_recipient
      × ((a.partner_fee < 256 ^ 8) × (e.partner_fee ≡ a.partner_fee))
      × ((a.platform_fee < 256 ^ 8) × (e.platform_fee ≡ a.platform_fee))
      × (e.state ≡ some a.state)

  abbrev pub IsPartnerOf : PartnerAccount → PartnerTerms Key → Type 0
  IsPartnerOf a p =
      (length a.disc ≡ 8)
      × IsKeyOf web3 a.signer p.signer
      × IsKeyOf web3 a.fee_recipient p.fee_recipient
      × ((a.max_fee_bps < 256 ^ 2) × (p.max_fee_bps ≡ a.max_fee_bps))
      × (p.active ≡ a.active)

  pub read_fee_escrow-fields :
      (a : EscrowAccount) (e : FeeEscrow Key)
      → IsEscrowOf a e
      → read_fee_escrow web3 (concat (escrow_fields a)) ≡ ok e
  unfolding read_fee_escrow
  read_fee_escrow-fields a e h =
      let fs = escrow_fields a in
      rw
        (
          read_le-field (take 2 fs) (bytes_of 4 a.partner_id) (drop 3 fs) 16 4 out_of_range
              (place (take 2 fs) 16 (omega (arith, h.0))) (length-bytes_of 4 a.partner_id),
          little_endian-bytes_of 4 a.partner_id h.1.0,
          key_field web3 (take 3 fs) a.user e.user (drop 4 fs) 20 (omega (arith, h.0)) h.2,
          key_field web3 (take 4 fs) a.mint e.mint (drop 5 fs) 52 (omega (arith, h.0, h.2.0)) h.3,
          key_field web3 (take 5 fs) a.partner_recipient e.partner_recipient (drop 6 fs) 84
              (omega (arith, h.0, h.2.0, h.3.0)) h.4,
          key_field web3 (take 6 fs) a.platform_recipient e.platform_recipient (drop 7 fs) 116
              (omega (arith, h.0, h.2.0, h.3.0, h.4.0)) h.5,
          u64_field (take 7 fs) a.partner_fee (drop 8 fs) 148
              (omega (arith, h.0, h.2.0, h.3.0, h.4.0, h.5.0)) h.6.0,
          u64_field (take 8 fs) a.platform_fee (drop 9 fs) 156
              (omega (arith, h.0, h.2.0, h.3.0, h.4.0, h.5.0)) h.7.0,
          byte_field (take 9 fs) a.state (drop 10 fs) 164
              (omega (arith, h.0, h.2.0, h.3.0, h.4.0, h.5.0)),
        )
        cc

  pub read_partner-fields :
      (a : PartnerAccount) (p : PartnerTerms Key)
      → IsPartnerOf a p
      → read_partner web3 (concat (partner_fields a)) ≡ ok p
  unfolding read_partner
  read_partner-fields a p h =
      let fs = partner_fields a in
      rw
        (
          key_field web3 (take 2 fs) a.signer p.signer (drop 3 fs) 12 (omega (arith, h.0)) h.1,
          key_field web3 (take 3 fs) a.fee_recipient p.fee_recipient (drop 4 fs) 44
              (omega (arith, h.0, h.1.0)) h.2,
          read_le-field (take 4 fs) (bytes_of 2 a.max_fee_bps) (drop 5 fs) 76 2 out_of_range
              (place (take 4 fs) 76 (omega (arith, h.0, h.1.0, h.2.0)))
              (length-bytes_of 2 a.max_fee_bps),
          little_endian-bytes_of 2 a.max_fee_bps h.3.0,
          byte_field (take 5 fs) (flag a.active) (drop 6 fs) 78 (omega (arith, h.0, h.1.0, h.2.0)),
          is_one-flag a.active,
        )
        cc
