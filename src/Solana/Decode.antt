-- ===== src/Solana/Decode.antt =====
-- `decodePartnerOrder` and `authorizeSolanaOrder` of packages/sdk/src/solana.ts, on a deserialized
-- message. A base58 text is the key that it names, and none where it names none; a text given to
-- `BigInt` is the integer that it gives.
pub mod Cuts
pub mod Approved
pub mod Calls
pub mod Authorized
use boundless_stock.Prelude.{
  ℕ, zero, suc, ◌+◌, Bool, true, false, not, ◌||◌, Option, none, some, List, [], ◌∷◌, length, take,
  ltb, ◌==◌, either, if◌then◌else◌, Result, ok, err, ◌>>=◌, throw_if, or_else, Eq,
}
use boundless_stock.Prelude.Int.{ℤ, pos, negsuc, ltb_ℤ}
use boundless_stock.Prelude.Bytes.{Bytes, subarray, same_bytes, byte_at, read_le}
use boundless_stock.Quote.{Side, buy, sell}

pub data ApprovalError : Type 0 where
  not_one_call not_a_partner_order out_of_range bad_length bad_direction thrown user_mismatch
        side_mismatch amount_mismatch fee_mismatch least_mismatch not_a_signer :
      ApprovalError

-- A compiled message: `staticAccountKeys`, `numRequiredSignatures`, and the instructions, each with the
-- index of its program's key and its data.
pub record Message (Key : Type 0) : Type 0 where
  pub static_keys : List Key
  pub required : ℕ
  pub compiled : List (ℕ × Bytes)

pub record DecodedOrder (Key : Type 0) : Type 0 where
  pub side : Side
  pub amount_in : ℕ
  pub min_amount_out : ℕ
  pub fee_bps : ℕ
  pub fee_payer : Key

pub record Expected (Key : Type 0) : Type 0 where
  pub program : Option Key
  pub user : Option Key
  pub side : Side
  pub amount_in : Option ℤ
  pub min_amount_out : Option (Option ℤ)
  pub fee_bps : ℕ

-- `keys[i]`
abbrev pub key_of : {Key : Type 0} → ℕ → List Key → Option Key
key_of i [] = none
key_of zero (k ∷ ks) = some k
key_of (suc i) (k ∷ ks) = key_of i ks

abbrev pub side_of : Option ℕ → Result ApprovalError Side
side_of none = err bad_direction
side_of (some d) = if d == 0 then ok buy else if d == 1 then ok sell else err bad_direction

abbrev pub same_side : Side → Side → Bool
same_side buy buy = true
same_side sell sell = true
same_side _ _ = false

abbrev pub is_amount : ℕ → ℤ → Bool
is_amount n (pos m) = n == m
is_amount n (negsuc m) = false

abbrev pub one_call : List Bytes → Result ApprovalError Bytes
one_call [] = err not_one_call
one_call (d ∷ []) = ok d
one_call (d ∷ c ∷ ds) = err not_one_call

-- `least` is undefined where none was given.
abbrev pub check_least : Option (Option ℤ) → ℕ → Result ApprovalError (Unit {0})
check_least none got = ok tt
check_least (some least) got =
    or_else thrown least >>= λ z. throw_if (ltb_ℤ (pos got) z) least_mismatch

module _ {Key : Type 0} ⦃e : Eq Key⦄ where
  -- No key is the key of a text that names none.
  abbrev pub is_key : Option Key → Option Key → Bool
  is_key (some k) (some j) = e.beq k j
  is_key _ _ = false

  -- The data of the instructions that call the program.
  unfoldable pub calls : List Key → Option Key → List (ℕ × Bytes) → List Bytes
  calls keys program [] = []
  calls keys program ((i, d) ∷ ixs) =
      either (is_key (key_of i keys) program) (calls keys program ixs) (d ∷ calls keys program ixs)

  abbrev pub includes : Key → List Key → Bool
  includes k [] = false
  includes k (j ∷ ks) = e.beq j k || includes k ks

  abbrev pub check_order : DecodedOrder Key → Expected Key → Result ApprovalError (Unit {0})
  check_order got x = or_else thrown x.user >>= λ user.
      throw_if (not (e.beq got.fee_payer user)) user_mismatch >>= λ _.
      throw_if (not (same_side got.side x.side)) side_mismatch >>= λ _.
      or_else thrown x.amount_in >>= λ amount.
      throw_if (not (is_amount got.amount_in amount)) amount_mismatch >>= λ _.
      throw_if (not (got.fee_bps == x.fee_bps)) fee_mismatch >>= λ _.
      check_least x.min_amount_out got.min_amount_out

  -- `disc` is the discriminator of `open_request_via_partner`.
  module _ (disc : Bytes) where
    pub decode_data : List Key → Bytes → Result ApprovalError (DecodedOrder Key)
    decode_data keys data' =
        throw_if (not (same_bytes (subarray 0 8 data') disc)) not_a_partner_order >>= λ _.
        read_le out_of_range 8 data' 9 >>= λ amount_in. read_le out_of_range 8 data' 17 >>= λ least.
        read_le out_of_range 4 data' 25 >>= λ options.
        throw_if (not (length data' == 45 + options + 2)) bad_length >>= λ _.
        read_le out_of_range 2 data' (45 + options) >>= λ fee. side_of (byte_at 8 data') >>= λ side.
        or_else thrown (key_of 0 keys) >>= λ payer. ok (record {
          side = side;
          amount_in = amount_in;
          min_amount_out = least;
          fee_bps = fee;
          fee_payer = payer;
        })

    pub decode_partner_order : Message Key → Option Key → Result ApprovalError (DecodedOrder Key)
    decode_partner_order m program =
        one_call (calls m.static_keys program m.compiled) >>= decode_data m.static_keys

    -- `sign` adds the partner's signature.
    pub authorize_solana_order :
        {Signed : Type 0}
        → (Message Key → Signed)
        → Message Key
        → Key
        → Expected Key
        → Result ApprovalError Signed
    authorize_solana_order sign m partner x = decode_partner_order m x.program >>= λ got.
        check_order got x >>= λ _.
        throw_if (not (includes partner (take m.required m.static_keys))) not_a_signer >>= λ _.
        ok (sign m)
