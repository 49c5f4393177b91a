-- ===== src/Solana/Accounts/Layout.antt =====
-- The accounts as the program lays them out (solana/programs/swap_request/src/state.rs): Borsh, after
-- the eight bytes of Anchor's discriminator; and that the client reads a request's account.
use boundless_stock.Prelude.{
  ℕ, suc, ◌+◌, ◌-◌, ◌^◌, ◌<◌, ◌≤◌, ◌≡◌, refl, sym, ap, ◌∙◌, zero, arith, some, List, [], ◌∷◌, ◌++◌,
  length, take, drop, ok,
}
use boundless_stock.Prelude.Int.{ℤ, pos, negsuc, neg_part, pos_part}
use boundless_stock.Prelude.Bytes.{
  Bytes, bytes_of, concat, total, subarray, byte_at, length-bytes_of, little_endian-bytes_of,
  length-concat, field, read_le-field,
}
use boundless_stock.Solana.{out_of_range, Web3}
use boundless_stock.Solana.Accounts.{Request, signed, u64_at, key_at, read_request}

-- The 64 bits of an i64.
abbrev pub unsigned : ℤ → ℕ
unsigned (pos n) = n
unsigned (negsuc n) = 2 ^ 64 - suc n

abbrev pub IsI64 : ℤ → Type 0
IsI64 z = (pos_part z < 2 ^ 63) × (neg_part z ≤ 2 ^ 63)

signed-unsigned : (z : ℤ) → IsI64 z → signed (unsigned z) ≡ z
signed-unsigned z h = ground arith

unsigned_bound : (z : ℤ) → IsI64 z → unsigned z < 256 ^ 8
unsigned_bound z h = ground arith

pub place : (before : List Bytes) (n : ℕ) → total before ≡ n → length (concat before) ≡ n
place before n here = omega (arith, length-concat before, here)

-- A number of eight bytes after `before`.
pub u64_field :
    (before : List Bytes) (v : ℕ) (after : List Bytes) (n : ℕ)
    → total before ≡ n
    → v < 256 ^ 8
    → u64_at (concat (before ++ (bytes_of 8 v ∷ after))) n ≡ ok v
u64_field before v after n here bound =
    rw
      (
        read_le-field before (bytes_of 8 v) after n 8 out_of_range (place before n here)
            (length-bytes_of 8 v),
        little_endian-bytes_of 8 v bound,
      )
      refl

pub byte_at-drop : (n : ℕ) (d : Bytes) → byte_at n d ≡ byte_at 0 (drop n d)
byte_at-drop zero d = refl
byte_at-drop (suc n) [] = refl
byte_at-drop (suc n) (b ∷ d) = byte_at-drop n d

pub byte_at-take : (d : Bytes) → byte_at 0 (take 1 d) ≡ byte_at 0 d
byte_at-take [] = refl
byte_at-take (b ∷ d) = refl

pub byte_field :
    (before : List Bytes) (b : ℕ) (after : List Bytes) (n : ℕ)
    → total before ≡ n
    → byte_at n (concat (before ++ ((b ∷ []) ∷ after))) ≡ some b
byte_field before b after n here =
    let d = concat (before ++ ((b ∷ []) ∷ after)) in
    byte_at-drop n d
    ∙ sym (byte_at-take (drop n d))
    ∙ ap (byte_at 0) (field before (b ∷ []) after n 1 (place before n here) refl)

module _ {Key : Type 0} (web3 : Web3 Key) where
  -- The bytes are those of a key.
  abbrev pub IsKeyOf : Bytes → Key → Type 0
  IsKeyOf bytes key = (length bytes ≡ 32) × (web3.public_key bytes ≡ ok key)

  pub key_field :
      (before : List Bytes) (bytes : Bytes) (key : Key) (after : List Bytes) (n : ℕ)
      → total before ≡ n
      → IsKeyOf bytes key
      → key_at web3 (concat (before ++ (bytes ∷ after))) n ≡ ok key
  key_field before bytes key after n here h =
      let size : n + 32 - n ≡ 32 = omega arith in
      let found : subarray n (n + 32) (concat (before ++ (bytes ∷ after))) ≡ bytes =
        rw size (field before bytes after n 32 (place before n here) h.0) in
      ap web3.public_key found ∙ h.1

-- `tokens` are the two mints, which the client skips, as it does `bump`.
pub record RequestAccount : Type 0 where
  pub disc : Bytes
  pub user : Bytes
  pub direction : ℕ
  pub tokens : Bytes
  pub amount_in : ℕ
  pub min_amount_out : ℕ
  pub amount_out : ℕ
  pub created_at : ℤ
  pub settled_at : ℤ
  pub status : ℕ
  pub failure_reason : ℕ
  pub bump : ℕ
  pub lz_nonce : ℕ

abbrev pub request_fields : RequestAccount → List Bytes
request_fields r =
    r.disc
    ∷ r.user
    ∷ (r.direction ∷ [])
    ∷ r.tokens
    ∷ bytes_of 8 r.amount_in
    ∷ bytes_of 8 r.min_amount_out
    ∷ bytes_of 8 r.amount_out
    ∷ bytes_of 8 (unsigned r.created_at)
    ∷ bytes_of 8 (unsigned r.settled_at)
    ∷ (r.status ∷ [])
    ∷ (r.failure_reason ∷ [])
    ∷ (r.bump ∷ [])
    ∷ bytes_of 8 r.lz_nonce
    ∷ []

abbrev pub IsRequestAccount : RequestAccount → Type 0
IsRequestAccount r =
    (length r.disc ≡ 8)
    × (length r.tokens ≡ 64)
    × (r.amount_in < 256 ^ 8)
    × (r.min_amount_out < 256 ^ 8)
    × (r.amount_out < 256 ^ 8)
    × IsI64 r.created_at
    × IsI64 r.settled_at
    × (r.lz_nonce < 256 ^ 8)

abbrev pub request_of : {Key : Type 0} → Key → RequestAccount → Request Key
request_of user r = record {
  user = user;
  direction = some r.direction;
  amount_in = r.amount_in;
  min_amount_out = r.min_amount_out;
  amount_out = r.amount_out;
  created_at = r.created_at;
  settled_at = r.settled_at;
  status = some r.status;
  failure_reason = some r.failure_reason;
  lz_nonce = r.lz_nonce;
}

module _ {Key : Type 0} (web3 : Web3 Key) where
  -- Where the discriminator has eight bytes, both mints 64, the user's key is read from its 32 bytes, and
  -- the numbers fit theirs: from a request's account the client reads back the user, the direction, the
  -- amounts, both times, the status with its reason, and the nonce.
  pub read_request-fields :
      (r : RequestAccount) (user : Key)
      → IsRequestAccount r
      → IsKeyOf web3 r.user user
      → read_request web3 (concat (request_fields r)) ≡ ok (request_of user r)
  unfolding read_request
  read_request-fields r user h k =
      let fs = request_fields r in
      let word : (i n v : ℕ)
          → v < 256 ^ 8
          → total (take i fs) ≡ n
          → u64_at (concat (take i fs ++ (bytes_of 8 v ∷ drop (i + 1) fs))) n ≡ ok v =
        λ i n v small here. u64_field (take i fs) v (drop (i + 1) fs) n here small in
      rw
        (
          key_field web3 (take 1 fs) r.user user (drop 2 fs) 8 (omega (arith, h.0)) k,
          word 4 105 r.amount_in h.2 (omega (arith, h.0, k.0, h.1)),
          word 5 113 r.min_amount_out h.3 (omega (arith, h.0, k.0, h.1)),
          word 6 121 r.amount_out h.4 (omega (arith, h.0, k.0, h.1)),
          word 7 129 (unsigned r.created_at) (unsigned_bound r.created_at h.5)
              (omega (arith, h.0, k.0, h.1)),
          word 8 137 (unsigned r.settled_at) (unsigned_bound r.settled_at h.6)
              (omega (arith, h.0, k.0, h.1)),
          word 12 148 r.lz_nonce h.7 (omega (arith, h.0, k.0, h.1)),
          byte_field (take 2 fs) r.direction (drop 3 fs) 40 (omega (arith, h.0, k.0)),
          byte_field (take 9 fs) r.status (drop 10 fs) 145 (omega (arith, h.0, k.0, h.1)),
          byte_field (take 10 fs) r.failure_reason (drop 11 fs) 146 (omega (arith, h.0, k.0, h.1)),
          signed-unsigned r.created_at h.5,
          signed-unsigned r.settled_at h.6,
        )
        refl
