-- ===== src/Solana/Admin/Kept.antt =====
-- That the terms the admin sends are those that are read back from the partner's account.
use boundless_stock.Prelude.{
  ℕ, ◌≡◌, refl, sym, ap, ◌∙◌, [], ◌∷◌, append_assoc, append-nil, length, ok, bind-ok, ok-same, Eq,
}
use boundless_stock.Prelude.Bytes.{Bytes, concat, bytes_of, write_le, write_le-is}
use boundless_stock.Solana.{out_of_range, Web3}
use boundless_stock.Solana.Accounts.{PartnerTerms, flag, read_partner}
use boundless_stock.Solana.Accounts.Layout.{IsKeyOf}
use boundless_stock.Solana.Accounts.Terms.{PartnerAccount, partner_fields, read_partner-fields}
use boundless_stock.Solana.Client.{Client}
use boundless_stock.Solana.Admin.{encode_terms}

module _ {Key : Type 0} ⦃e : Eq Key⦄ (web3 : Web3 Key) (c : Client Key) where
  -- Where the two keys are read from their own bytes, and the discriminator has eight: from an account that
  -- holds the terms as they are encoded, after the id and before a last byte, the same terms are read.
  pub read_partner-encode_terms :
      (disc : Bytes) (id bump : ℕ) (t : PartnerTerms Key) (encoded : Bytes)
      → length disc ≡ 8
      → IsKeyOf web3 (web3.to_buffer t.signer) t.signer
      → IsKeyOf web3 (web3.to_buffer t.fee_recipient) t.fee_recipient
      → encode_terms web3 c t ≡ ok encoded
      → read_partner web3 (concat (disc ∷ bytes_of 4 id ∷ encoded ∷ (bump ∷ []) ∷ [])) ≡ ok t
  unfolding encode_terms
  read_partner-encode_terms disc id bump t encoded size signer recipient p =
      bind-ok (write_le out_of_range 2 t.max_fee_bps) p λ most is_most same.
        let most_is = write_le-is out_of_range 2 t.max_fee_bps most is_most in
        let a : PartnerAccount = record {
          disc = disc;
          partner_id = id;
          signer = web3.to_buffer t.signer;
          fee_recipient = web3.to_buffer t.fee_recipient;
          max_fee_bps = t.max_fee_bps;
          active = t.active;
          bump = bump;
        } in
        let flat : concat (
              disc
              ∷ bytes_of 4 id
              ∷ concat (
                  web3.to_buffer t.signer
                  ∷ web3.to_buffer t.fee_recipient
                  ∷ bytes_of 2 t.max_fee_bps
                  ∷ (flag t.active ∷ [])
                  ∷ [])
              ∷ (bump ∷ [])
              ∷ [])
            ≡ concat (partner_fields a) =
          simp (append_assoc, append-nil) refl in
        ok-same
          (λ l. read_partner web3 (concat (disc ∷ bytes_of 4 id ∷ l ∷ (bump ∷ []) ∷ [])) ≡ ok t) _
          encoded
          (rw (sym (most_is.1)) (
            ap (read_partner web3) flat
            ∙ read_partner-fields web3 a t (size, signer, recipient, (most_is.0, refl), refl)))
          same
