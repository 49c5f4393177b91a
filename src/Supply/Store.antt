-- ===== src/Supply/Store.antt =====
-- The layout of a Solana OFT store, and that `solanaOftFlow` of infra/lib/omnisupply.ts reads it.
use boundless_stock.Prelude.{
  ℕ, ◌+◌, ◌*◌, ◌/◌, ◌%◌, ◌^◌, ◌<◌, ◌≤◌, ◌≡◌, refl, ap, sym, ◌∙◌, arith, Option, none, some, [], ◌∷◌,
  ◌++◌, append_assoc, length, length-append, take, take-append, drop-append, ltb, subst, ok,
  throw_if,
}
use boundless_stock.Prelude.Bytes.{
  Bytes, little_endian, bytes_of, length-bytes_of, little_endian-bytes_of,
}
use boundless_stock.Supply.Readings.{
  is_one_at, skip_option, read_u64, read_u128, solana_oft_flow, thrown,
}

-- A Borsh option of a public key: one byte, and 32 more where there is one.
abbrev pub option_bytes : Option Bytes → Bytes
option_bytes none = 0 ∷ []
option_bytes (some key) = 1 ∷ key

abbrev pub IsKey : Option Bytes → Type 0
IsKey none = Unit
IsKey (some key) = length key ≡ 32

abbrev pub u128_bytes : ℕ → Bytes
u128_bytes v = bytes_of 8 (v % 2 ^ 64) ++ bytes_of 8 (v / 2 ^ 64)

abbrev pub store_bytes : Bytes → Option Bytes → Option Bytes → ℕ → ℕ → Bytes → Bytes
store_bytes header pauser unpauser out back rest =
    header
    ++ (option_bytes pauser
        ++ (option_bytes unpauser ++ (u128_bytes out ++ (u128_bytes back ++ rest))))

is_one_at-append : (xs ys : Bytes) → is_one_at (length xs) (xs ++ ys) ≡ is_one_at 0 ys
is_one_at-append [] ys = refl
is_one_at-append (x ∷ xs) ys = is_one_at-append xs ys

skip_option-option_bytes :
    (before after : Bytes) (o : Option Bytes)
    → IsKey o
    → skip_option (before ++ (option_bytes o ++ after)) (length before)
      ≡ length (before ++ option_bytes o)
skip_option-option_bytes before after none h =
    rw (is_one_at-append before (0 ∷ after)) (omega (arith, length-append before (0 ∷ [])))
skip_option-option_bytes before after (some key) h =
    rw (is_one_at-append before (1 ∷ (key ++ after)))
      (omega (arith, h, length-append before (1 ∷ key)))

in_range : (n m : ℕ) → m ≤ n → throw_if (ltb n m) thrown ≡ ok tt
in_range n m h = ground arith

read_u64-append :
    (before word after : Bytes)
    → length word ≡ 8
    → read_u64 (before ++ (word ++ after)) (length before) ≡ ok (little_endian word)
read_u64-append before word after h =
    let word_first : take 8 (word ++ after) ≡ word =
      subst (λ n. take n (word ++ after) ≡ word) h (take-append word after) in
    let whole : length before + 8 ≤ length (before ++ (word ++ after)) =
      omega (arith, length-append before (word ++ after), length-append word after, h) in
    rw (in_range _ _ whole, drop-append before (word ++ after), word_first) refl

both_words : (v : ℕ) → v < 2 ^ 128 → v % 2 ^ 64 + v / 2 ^ 64 * 2 ^ 64 ≡ v
both_words v h = omega arith

read_word :
    (before after : Bytes) (v : ℕ)
    → v < 256 ^ 8
    → read_u64 (before ++ (bytes_of 8 v ++ after)) (length before) ≡ ok v
read_word before after v h =
    rw
      (
        read_u64-append before (bytes_of 8 v) after (length-bytes_of 8 v),
        little_endian-bytes_of 8 v h,
      )
      refl

-- The same, after eight more bytes.
read_next_word :
    (before low after : Bytes) (v : ℕ)
    → length low ≡ 8
    → v < 256 ^ 8
    → read_u64 (before ++ (low ++ (bytes_of 8 v ++ after))) (length before + 8) ≡ ok v
read_next_word before low after v l h =
    let place : length before + 8 ≡ length (before ++ low) =
      omega (arith, length-append before low, l) in
    rw (place, sym (append_assoc before low (bytes_of 8 v ++ after)))
      (read_word (before ++ low) after v h)

read_u128-bytes :
    (before after : Bytes) (v : ℕ)
    → v < 2 ^ 128
    → read_u128 (before ++ (u128_bytes v ++ after)) (length before) ≡ ok v
read_u128-bytes before after v h =
    let low = bytes_of 8 (v % 2 ^ 64) in
    let high = bytes_of 8 (v / 2 ^ 64) in
    rw (append_assoc low high after) (
      rw
        (
          read_word before (high ++ after) (v % 2 ^ 64) (omega arith),
          read_next_word before low after (v / 2 ^ 64) (length-bytes_of 8 (v % 2 ^ 64))
              (omega arith),
        )
        (ap ok (both_words v h)))

flow_at :
    (store : Bytes) (o out back : ℕ)
    → skip_option store (skip_option store 157) ≡ o
    → read_u128 store o ≡ ok out
    → read_u128 store (o + 16) ≡ ok back
    → solana_oft_flow store ≡ ok (out, back)
unfolding solana_oft_flow
flow_at store o out back p q r = rw (p, q, r) refl

length-u128_bytes : (v : ℕ) → length (u128_bytes v) ≡ 16
length-u128_bytes v = omega (
  arith,
  length-append (bytes_of 8 (v % 2 ^ 64)) (bytes_of 8 (v / 2 ^ 64)),
  length-bytes_of 8 (v % 2 ^ 64),
  length-bytes_of 8 (v / 2 ^ 64),
)

-- The counters are read from every store of the Borsh layout, whichever of the two optional keys are
-- there, for a header of 157 bytes, keys of 32 bytes and counters below 2^128.
pub solana_oft_flow-store_bytes :
    (header : Bytes) (pauser unpauser : Option Bytes) (out back : ℕ) (rest : Bytes)
    → length header ≡ 157
    → IsKey pauser
    → IsKey unpauser
    → out < 2 ^ 128
    → back < 2 ^ 128
    → solana_oft_flow (store_bytes header pauser unpauser out back rest) ≡ ok (out, back)
solana_oft_flow-store_bytes header pauser unpauser out back rest h p u small_out small_back =
    let store = store_bytes header pauser unpauser out back rest in
    let a = header ++ option_bytes pauser in
    let b = a ++ option_bytes unpauser in
    let c = b ++ u128_bytes out in
    let from_back = u128_bytes back ++ rest in
    let from_out = u128_bytes out ++ from_back in
    let as_a : store ≡ a ++ (option_bytes unpauser ++ from_out) =
      sym (append_assoc header (option_bytes pauser) _) in
    let as_b : store ≡ b ++ from_out =
      as_a ∙ sym (append_assoc a (option_bytes unpauser) from_out) in
    let as_c : store ≡ c ++ from_back = as_b ∙ sym (append_assoc b (u128_bytes out) from_back) in
    let first : skip_option store 157 ≡ length a =
      subst (λ n. skip_option store n ≡ length a) h
        (skip_option-option_bytes header (option_bytes unpauser ++ from_out) pauser p) in
    let second : skip_option store (length a) ≡ length b =
      subst (λ l. skip_option l (length a) ≡ length b) (sym as_a)
        (skip_option-option_bytes a from_out unpauser u) in
    let place : length b + 16 ≡ length c =
      omega (arith, length-append b (u128_bytes out), length-u128_bytes out) in
    flow_at store (length b) out back (ap (skip_option store) first ∙ second)
      (subst (λ l. read_u128 l (length b) ≡ ok out) (sym as_b)
        (read_u128-bytes b from_back out small_out))
      (subst (λ l. read_u128 l (length b + 16) ≡ ok back) (sym as_c)
        (subst (λ n. read_u128 (c ++ from_back) n ≡ ok back) (sym place)
          (read_u128-bytes c rest back small_back)))
