-- ===== src/Solana/Orders/Built.antt =====
-- That a partner order as the client builds it is one that the SDK co-signs.
use boundless_stock.Prelude.{
  ℕ, ◌≡◌, ◌≢◌, refl, sym, arith, true, false, some, Option, List, [], ◌∷◌, ◌++◌, length, take, drop,
  or_else, subst, All, Has, ok, bind-ok, ok-same, Eq, append_assoc, append-nil, length-append,
  All-second,
}
use boundless_stock.Prelude.Int.{ℤ, pos}
use boundless_stock.Prelude.Bytes.{Bytes, concat, little_endian, write_le, write_le-ok}
use boundless_stock.Quote.{Side}
use boundless_stock.Solana.{thrown, out_of_range, Instruction, Web3, meta, discriminator}
use boundless_stock.Solana.Accounts.{
  request_address, nonce_index_address, partner_address, fee_escrow_address,
}
use boundless_stock.Sdk.{hex_bytes}
use boundless_stock.Solana.Client.{Client, Net}
use boundless_stock.Solana.Orders.{
  next_request_id, next_outbound_nonce, find_peer, to_bytes32, asset_in, set_limit, Opening,
  BuiltInstructions, encode_params, build_open, partner_instructions,
}
use boundless_stock.Solana.Decode.{Message, Expected, authorize_solana_order}
use boundless_stock.Solana.Decode.Approved.{IsOrderData}
use boundless_stock.Solana.Decode.Authorized.{IsLeast, authorize_solana_order_iff}
use boundless_stock.Solana.Orders.Compiled.{
  IsCompiled, IsSignedFor, IsMessageOf, compiled-IsOnlyCall,
}

encode_params-ok :
    (disc fee_bytes : Bytes) (side : Side) (amount least : ℕ) (options : Bytes) (fee : ℕ)
    (params : Bytes)
    → encode_params side amount least options fee ≡ ok params
    → length fee_bytes ≡ 2
    → IsOrderData disc
        (concat (disc ∷ params ∷ fee_bytes ∷ []))
        side
        amount
        least
        (little_endian fee_bytes)
unfolding encode_params
encode_params-ok disc fee_bytes side amount least options fee params p size =
    bind-ok (write_le out_of_range 4 (length options)) p λ n is_n p.
      bind-ok (write_le out_of_range 8 amount) p λ a is_a p.
        bind-ok (write_le out_of_range 8 least) p λ l is_l p.
          bind-ok (write_le out_of_range 8 fee) p λ f is_f p.
            bind-ok (write_le out_of_range 8 0) p λ t is_t same.
              let n_is = write_le-ok out_of_range 4 (length options) n is_n in
              let a_is = write_le-ok out_of_range 8 amount a is_a in
              let l_is = write_le-ok out_of_range 8 least l is_l in
              let f_is = write_le-ok out_of_range 8 fee f is_f in
              let t_is = write_le-ok out_of_range 8 0 t is_t in
              ok-same
                (λ ps.
                  IsOrderData disc (concat (disc ∷ ps ∷ fee_bytes ∷ [])) side amount least
                    (little_endian fee_bytes))
                _ params
                (
                  record {
                    amount_in = a;
                    min_amount_out = l;
                    options_length = n;
                    options = options;
                    messaging_fees = f ++ t;
                    fee_bps = fee_bytes;
                  },
                  simp (append_assoc, append-nil) refl,
                  a_is.0,
                  l_is.0,
                  n_is.0,
                  sym (n_is.1),
                  omega (arith, length-append f t, f_is.0, t_is.0),
                  size,
                  a_is.1,
                  l_is.1,
                  refl,
                )
                same

-- What a partner approves where an order is to be exactly this one.
abbrev pub approving : {Key : Type 0} → Key → Key → Side → ℕ → Option (Option ℤ) → ℕ → Expected Key
approving program user side amount least bps = record {
  program = some program;
  user = some user;
  side = side;
  amount_in = some (pos amount);
  min_amount_out = least;
  fee_bps = bps;
}

module _ {Key : Type 0} ⦃e : Eq Key⦄ (web3 : Web3 Key) (c : Client Key) (net : Net Key) where
  abbrev pub disc : Bytes
  disc = discriminator web3 "open_request_via_partner"

  build_open-params :
      (user : Key) (side : Side) (amount least : ℕ) (options : List ℕ) (o : Opening Key)
      → build_open web3 c net user side amount least options ≡ ok o
      → encode_params side amount least (hex_bytes (drop 2 options)) o.native_fee ≡ ok o.params
  unfolding build_open
  build_open-params user side amount least options o p =
      bind-ok (next_request_id web3 c net) p λ id _ p.
        bind-ok (or_else thrown (find_peer c.home_eid (asset_in web3 c net side).peers)) p
          λ peer _ p. bind-ok (next_outbound_nonce web3 c net _ _) p λ nonce _ p.
            bind-ok (nonce_index_address web3 c.program _ nonce) p λ index _ p.
              bind-ok (to_bytes32 web3 c.home_relay) p λ relay _ p.
                bind-ok (net.quote_send _) p λ fee _ p.
                  bind-ok (net.send_accounts _) p λ accounts _ p.
                    bind-ok (encode_params side amount least _ fee) p λ params encoded p.
                      bind-ok (request_address web3 c.program id) p λ request _ same.
                        ok-same
                          (λ o.
                            encode_params side amount least (hex_bytes (drop 2 options))
                              o.native_fee
                            ≡ ok o.params)
                          _ o encoded same

  -- The order's instruction: the last of those built, alone after calls of other programs.
  abbrev pub IsLastOrder : Key → Side → ℕ → ℕ → ℕ → List (Instruction Key) → Type 0
  IsLastOrder signer side amount least bps ixs =
      (before : List (Instruction Key)) × (ix : Instruction Key) × (ixs ≡ before ++ (ix ∷ []))
      × All (λ j. j.program_id ≢ c.program) before
      × (ix.program_id ≡ c.program)
      × IsOrderData disc ix.data' side amount least bps
      × ((signers : List Key) → IsSignedFor signers ix → Has signer signers)

  partner_instructions-IsLastOrder :
      (user signer : Key) (partner bps : ℕ) (side : Side) (amount least : ℕ) (options : List ℕ)
      (built : BuiltInstructions Key)
      → web3.compute_budget_program ≢ c.program
      → web3.ata_program ≢ c.program
      → partner_instructions web3 c net user signer partner bps side amount least options ≡ ok built
      → IsLastOrder signer side amount least bps built.instructions
  unfolding partner_instructions
  partner_instructions-IsLastOrder user signer partner bps side amount least options built budget
        ata p =
      bind-ok (build_open web3 c net user side amount least options) p λ o opened p.
        bind-ok (write_le out_of_range 2 bps) p λ fee is_fee p.
          bind-ok (partner_address web3 c.program partner) p λ account _ p.
            bind-ok (fee_escrow_address web3 c.program o.request_id) p λ escrow _ same.
              let fee_is = write_le-ok out_of_range 2 bps fee is_fee in
              let data' =
                encode_params-ok disc fee side amount least (hex_bytes (drop 2 options))
                  o.native_fee o.params (build_open-params user side amount least options o opened)
                  fee_is.0 in
              ok-same (λ b. IsLastOrder signer side amount least bps b.instructions) _ built
                (
                  set_limit web3 c net ∷ _ ∷ _ ∷ [],
                  _,
                  refl,
                  (budget, (ata, (ata, tt))),
                  refl,
                  subst (IsOrderData disc _ side amount least) fee_is.1 data',
                  λ signers h.
                      (All-second (λ k. k.is_signer ≡ true → Has k.pubkey signers) o.base_keys
                          (meta web3 signer true false ∷ _) h).0
                        refl,
                )
                same

  -- Where the discriminator has eight bytes, and the program is neither of those that set a compute limit
  -- and create token accounts: a partner order that is built, for any side, amounts, fee and options,
  -- and compiled for its user, is one that the partner co-signs when asked for that user, side, amount
  -- and fee and at most that least amount out.
  pub partner_instructions-approved :
      {Signed : Type 0} (sign : Message Key → Signed) (m : Message Key) (user signer : Key)
      (partner bps : ℕ) (side : Side) (amount least : ℕ) (options : List ℕ)
      (floor : Option (Option ℤ)) (built : BuiltInstructions Key)
      → length disc ≡ 8
      → web3.compute_budget_program ≢ c.program
      → web3.ata_program ≢ c.program
      → partner_instructions web3 c net user signer partner bps side amount least options ≡ ok built
      → IsMessageOf user built.instructions m
      → IsLeast floor least
      → authorize_solana_order disc sign m signer (approving c.program user side amount floor bps)
        ≡ ok (sign m)
  partner_instructions-approved sign m user signer partner bps side amount least options floor built
        size budget ata is_built compiled above =
      let r =
        partner_instructions-IsLastOrder user signer partner bps side amount least options built
          budget ata is_built in
      let keys = m.static_keys in
      let whole = subst (λ ixs. IsCompiled keys m.compiled ixs) r.2 compiled.1 in
      let signed = subst (λ ixs. All (IsSignedFor (take m.required keys)) ixs) r.2 compiled.2 in
      let only = compiled-IsOnlyCall keys c.program (r.1) m.compiled (r.0) whole r.3 r.4 in
      let signs = r.6 (take m.required keys) (All-second _ (r.0) _ signed).0 in
      (authorize_solana_order_iff disc sign m signer
          (approving c.program user side amount floor bps) size).1
        (
          c.program,
          user,
          (r.1).data',
          amount,
          least,
          refl,
          refl,
          refl,
          above,
          only,
          r.5,
          compiled.0,
          signs,
        )
