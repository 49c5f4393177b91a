-- ===== src/Solana/Decode/Approved.antt =====
-- The data of a partner order, described by its fields, and that `decodePartnerOrder` reads exactly
-- those.
use boundless_stock.Prelude.{
  ℕ, ◌+◌, ◌≡◌, refl, sym, ap, ◌∙◌, ◌↔◌, arith, false, not, Option, none, some, List, [], ◌∷◌,
  length, take, drop, ◌==◌, ==_iff, ok, throw_if, throw_if-ok, bind-ok, ok-same, or_else-ok,
  or_else, Eq,
}
use boundless_stock.Prelude.Bytes.{
  Bytes, concat, little_endian, subarray, same_bytes, same_bytes_iff, byte_at, read_le, read_le-ok,
  read_le-field, length-subfield, length-concat, field,
}
use boundless_stock.Quote.{Side, buy, sell}
use boundless_stock.Solana.Client.{direction_of}
use boundless_stock.Solana.Accounts.Layout.{place, byte_field}
use boundless_stock.Solana.Decode.{
  out_of_range, bad_length, not_a_partner_order, thrown, DecodedOrder, side_of, key_of, decode_data,
}
use boundless_stock.Solana.Decode.Cuts.{byte_one, cuts_of, concat-cuts_of}

-- The fields between the direction and the partner's fee, as bytes.
pub record OrderBytes : Type 0 where
  pub amount_in : Bytes
  pub min_amount_out : Bytes
  pub options_length : Bytes
  pub options : Bytes
  pub messaging_fees : Bytes
  pub fee_bps : Bytes

abbrev pub order_fields : Bytes → Side → OrderBytes → List Bytes
order_fields disc side b =
    disc
    ∷ (direction_of side ∷ [])
    ∷ b.amount_in
    ∷ b.min_amount_out
    ∷ b.options_length
    ∷ b.options
    ∷ b.messaging_fees
    ∷ b.fee_bps
    ∷ []

-- The data are a partner order of this side, amounts and fee, with any options and messaging fee.
abbrev pub IsOrderData : Bytes → Bytes → Side → ℕ → ℕ → ℕ → Type 0
IsOrderData disc data' side amount least fee =
    (b : OrderBytes) × (data' ≡ concat (order_fields disc side b))
    × (length b.amount_in ≡ 8)
    × (length b.min_amount_out ≡ 8)
    × (length b.options_length ≡ 4)
    × (length b.options ≡ little_endian b.options_length)
    × (length b.messaging_fees ≡ 16)
    × (length b.fee_bps ≡ 2)
    × (little_endian b.amount_in ≡ amount)
    × (little_endian b.min_amount_out ≡ least)
    × (little_endian b.fee_bps ≡ fee)

side_of-direction_of : (side : Side) → side_of (some (direction_of side)) ≡ ok side
side_of-direction_of buy = refl
side_of-direction_of sell = refl

side_of-ok : (b : Option ℕ) (side : Side) → side_of b ≡ ok side → b ≡ some (direction_of side)
side_of-ok none side p = ground arith
side_of-ok (some c) side p = ground arith

equal_test : (n m : ℕ) → n ≡ m → not (n == m) ≡ false
equal_test n m h = ground (arith, ==_iff n m)

same_test : (a b : Bytes) → a ≡ b → not (same_bytes a b) ≡ false
same_test a b h = ground (arith, same_bytes_iff a b)

module _ {Key : Type 0} ⦃e : Eq Key⦄ (disc : Bytes) (keys : List Key) where
  -- What the decoder makes of data.
  abbrev pub IsDecoded : Bytes → DecodedOrder Key → Type 0
  IsDecoded data' got =
      IsOrderData disc data' got.side got.amount_in got.min_amount_out got.fee_bps
      × (key_of 0 keys ≡ some got.fee_payer)

  decode_data-ok :
      (d : Bytes) (got : DecodedOrder Key)
      → length disc ≡ 8
      → decode_data disc keys d ≡ ok got
      → IsDecoded d got
  unfolding decode_data
  decode_data-ok d got size p =
      bind-ok (throw_if (not (same_bytes (subarray 0 8 d) disc)) not_a_partner_order) p
        λ _ is_disc p. bind-ok (read_le out_of_range 8 d 9) p λ amount read_amount p.
          bind-ok (read_le out_of_range 8 d 17) p λ least read_least p.
            bind-ok (read_le out_of_range 4 d 25) p λ n read_n p.
              bind-ok (throw_if (not (length d == 45 + n + 2)) bad_length) p λ _ is_length p.
                bind-ok (read_le out_of_range 2 d (45 + n)) p λ fee read_fee p.
                  bind-ok (side_of (byte_at 8 d)) p λ side is_side p.
                    bind-ok (or_else thrown (key_of 0 keys)) p λ payer is_payer same.
                      let whole : length d ≡ 45 + n + 2 =
                        ground
                          (arith, throw_if-ok _ _ _ is_length, ==_iff (length d) (45 + n + 2)) in
                      let starts : take 8 d ≡ disc =
                        ground (arith, throw_if-ok _ _ _ is_disc, same_bytes_iff (take 8 d) disc) in
                      let one =
                        byte_one 8 d (direction_of side) (side_of-ok (byte_at 8 d) side is_side) in
                      let ps = cuts_of d n in
                      let amount_is = read_le-ok out_of_range 8 d 9 amount read_amount in
                      let least_is = read_le-ok out_of_range 8 d 17 least read_least in
                      let n_is = read_le-ok out_of_range 4 d 25 n read_n in
                      let fee_is = read_le-ok out_of_range 2 d (45 + n) fee read_fee in
                      ok-same (IsDecoded d) _ got
                        (
                          (
                            record {
                              amount_in = take 8 (drop 9 d);
                              min_amount_out = take 8 (drop 17 d);
                              options_length = take 4 (drop 25 d);
                              options = take n (drop 29 d);
                              messaging_fees = take 16 (drop (29 + n) d);
                              fee_bps = take 2 (drop (45 + n) d);
                            },
                            concat-cuts_of d n whole
                                ∙ ap (λ x. concat (x ∷ drop 1 ps)) starts
                                ∙ ap (λ x. concat (disc ∷ x ∷ drop 2 ps)) one,
                            length-subfield 9 8 d amount_is.0,
                            length-subfield 17 8 d least_is.0,
                            length-subfield 25 4 d n_is.0,
                            length-subfield 29 n d (omega (arith, whole)) ∙ sym n_is.1,
                            length-subfield (29 + n) 16 d (omega (arith, whole)),
                            length-subfield (45 + n) 2 d fee_is.0,
                            amount_is.1,
                            least_is.1,
                            fee_is.1,
                          ),
                          or_else-ok thrown (key_of 0 keys) payer is_payer,
                        )
                        same

  decode_data-fields :
      (side : Side) (b : OrderBytes) (payer : Key)
      → length disc ≡ 8
      → length b.amount_in ≡ 8
      → length b.min_amount_out ≡ 8
      → length b.options_length ≡ 4
      → length b.options ≡ little_endian b.options_length
      → length b.messaging_fees ≡ 16
      → length b.fee_bps ≡ 2
      → key_of 0 keys ≡ some payer
      → decode_data disc keys (concat (order_fields disc side b))
        ≡ ok (record {
          side = side;
          amount_in = little_endian b.amount_in;
          min_amount_out = little_endian b.min_amount_out;
          fee_bps = little_endian b.fee_bps;
          fee_payer = payer;
        })
  unfolding decode_data
  decode_data-fields side b payer d a l n o m f head =
      let fs = order_fields disc side b in
      let starts : subarray 0 8 (concat fs) ≡ disc = field [] disc (drop 1 fs) 0 8 refl d in
      let whole : length (concat fs) ≡ 45 + little_endian b.options_length + 2 =
        omega (arith, length-concat fs, d, a, l, n, o, m, f) in
      rw
        (
          same_test (subarray 0 8 (concat fs)) disc starts,
          read_le-field (take 2 fs) b.amount_in (drop 3 fs) 9 8 out_of_range
              (place (take 2 fs) 9 (omega (arith, d))) a,
          read_le-field (take 3 fs) b.min_amount_out (drop 4 fs) 17 8 out_of_range
              (place (take 3 fs) 17 (omega (arith, d, a))) l,
          read_le-field (take 4 fs) b.options_length (drop 5 fs) 25 4 out_of_range
              (place (take 4 fs) 25 (omega (arith, d, a, l))) n,
          equal_test (length (concat fs)) (45 + little_endian b.options_length + 2) whole,
          read_le-field (take 7 fs) b.fee_bps [] (45 + little_endian b.options_length) 2
              out_of_range
              (place (take 7 fs) (45 + little_endian b.options_length)
                (omega (arith, d, a, l, n, o, m)))
              f,
          byte_field (take 1 fs) (direction_of side) (drop 2 fs) 8 (omega (arith, d)),
          side_of-direction_of side,
          head,
        )
        refl

  pub decode_data_iff :
      (d : Bytes) (got : DecodedOrder Key)
      → length disc ≡ 8
      → (decode_data disc keys d ≡ ok got) ↔ IsDecoded d got
  decode_data_iff d got size = (
    λ p. decode_data-ok d got size p,
    λ ((b, same, a, l, n, o, m, f, amount, least, fee), head).
        ap (decode_data disc keys) same
        ∙ decode_data-fields got.side b got.fee_payer size a l n o m f head
        ∙ cc,
  )
