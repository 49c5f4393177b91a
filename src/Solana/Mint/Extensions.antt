-- ===== src/Solana/Mint/Extensions.antt =====
-- The extensions of a Token-2022 mint, as a list of types, lengths and values, and which mints are
-- accepted.
use boundless_stock.Prelude.{
  ℕ, zero, suc, ◌+◌, ◌*◌, ◌^◌, ◌≤◌, ◌<◌, ◌≡◌, ◌≢◌, refl, sym, ap, ◌∙◌, ◌⊎◌, inl, inr, arith, Bool,
  true, false, Option, none, some, List, [], ◌∷◌, ◌++◌, map, append_assoc, length, length-append,
  take, drop-append, All, leb, ◌==◌, ==_iff, Bool-cases,
}
use boundless_stock.Prelude.Bytes.{Bytes, bytes_of, little_endian, little_endian-bytes_of}
use boundless_stock.Solana.Mint.{u16_at, push, extension_round, extensions_from, mint_extensions}

pub record Extension : Type 0 where
  pub kind : ℕ
  pub value : Bytes

abbrev pub extension_bytes : Extension → Bytes
extension_bytes x = bytes_of 2 x.kind ++ (bytes_of 2 (length x.value) ++ x.value)

abbrev pub tlv : List Extension → Bytes
tlv [] = []
tlv (x ∷ xs) = extension_bytes x ++ tlv xs

-- A type of two bytes that is not the one that ends the list, and a length of two bytes.
abbrev pub IsExtension : Extension → Type 0
IsExtension x = (x.kind ≢ 0) × (x.kind < 256 ^ 2) × (length x.value < 256 ^ 2)

-- What ends the list: no room for another, or the type 0.
abbrev pub IsEnd : Bytes → Type 0
IsEnd rest = (length rest < 4) ⊎ (take 2 rest ≡ 0 ∷ 0 ∷ [])

push-ne-none : (k : ℕ) (o : Option (List ℕ)) → o ≢ none → push k o ≢ none
push-ne-none k none h = ground arith
push-ne-none k (some ks) h = ground arith

some-ne-none : (ks : List ℕ) → Path (Option (List ℕ)) (some ks) none → ⊥
some-ne-none ks p = ground arith

round-ne-none :
    (room ended : Bool) (k : ℕ) (rest : Option (List ℕ))
    → rest ≢ none
    → extension_round room ended k rest ≢ none
round-ne-none false ended k rest h = some-ne-none []
round-ne-none true true k rest h = some-ne-none []
round-ne-none true false k rest h = push-ne-none k rest h

extensions_from-ne-none :
    (fuel : ℕ) (d : Bytes) (o : ℕ)
    → length d < o + 4 + 4 * fuel
    → extensions_from (suc fuel) d o ≢ none
unfolding extensions_from
extensions_from-ne-none zero d o h =
    let no_room : leb (o + 4) (length d) ≡ false = ground arith in rw no_room (some-ne-none [])
extensions_from-ne-none (suc fuel) d o h =
    round-ne-none (leb (o + 4) (length d)) (u16_at d o == 0) (u16_at d o) _
      (extensions_from-ne-none fuel d (o + (4 + u16_at d (o + 2))) (omega arith))

-- The loop over a mint's extensions ends, within its fuel, on any data.
pub mint_extensions-ne-none : (d : Bytes) → mint_extensions d ≢ none
unfolding mint_extensions
mint_extensions-ne-none d = elim (Bool-cases (leb (length d) 166)) [
  | inl small ↦ rw small (some-ne-none [])
  | inr large ↦ rw large (extensions_from-ne-none (length d) d 166 (omega arith))
]

u16_field :
    (before : Bytes) (v : ℕ) (after : Bytes)
    → v < 256 ^ 2
    → u16_at (before ++ (bytes_of 2 v ++ after)) (length before) ≡ v
u16_field before v after h =
    rw (drop-append before (bytes_of 2 v ++ after)) (little_endian-bytes_of 2 v h)

-- Where two bytes are left, the type that ends a list reads as 0.
end_type : (rest : Bytes) → IsEnd rest → 4 ≤ length rest → little_endian (take 2 rest) ≡ 0
end_type rest (inl short) room = omega arith
end_type rest (inr zeros) room = ap little_endian zeros

extensions_from-tlv :
    (xs : List Extension) (rest before : Bytes) (fuel : ℕ)
    → All IsExtension xs
    → IsEnd rest
    → length xs < fuel
    → extensions_from fuel (before ++ (tlv xs ++ rest)) (length before)
      ≡ some (map (λ x. x.kind) xs)
unfolding extensions_from
extensions_from-tlv xs rest before zero h end enough = let no : ⊥ = omega arith in elim no [ ]
extensions_from-tlv [] rest before (suc fuel) h end enough =
    elim (Bool-cases (leb (length before + 4) (length (before ++ rest)))) [
      | inl room ↦
          let ended : u16_at (before ++ rest) (length before) ≡ 0 =
            rw (drop-append before rest)
              (end_type rest end (ground (arith, length-append before rest))) in
          rw (room, ended) refl
      | inr full ↦ rw full refl
    ]
extensions_from-tlv (x ∷ xs) rest before (suc fuel) h end enough =
    let d = before ++ (tlv (x ∷ xs) ++ rest) in
    let o = length before in
    let size : length (extension_bytes x) ≡ 4 + length x.value = omega arith in
    let tail = tlv xs ++ rest in
    let flat : d ≡ before ++ (extension_bytes x ++ tail) =
      ap (λ l. before ++ l) (append_assoc (extension_bytes x) (tlv xs) rest) in
    let at_kind : u16_at d o ≡ x.kind =
      ap (λ l. u16_at l o) flat
      ∙ u16_field before x.kind (bytes_of 2 (length x.value) ++ (x.value ++ tail)) h.0.1 in
    let with_kind = before ++ bytes_of 2 x.kind in
    let at_length : u16_at d (o + 2) ≡ length x.value =
      ap (λ l. u16_at l (o + 2))
        (flat
          ∙ sym (
              append_assoc before (bytes_of 2 x.kind)
                (bytes_of 2 (length x.value) ++ (x.value ++ tail))))
      ∙ ap (u16_at (with_kind ++ (bytes_of 2 (length x.value) ++ (x.value ++ tail))))
          (sym (length-append before (bytes_of 2 x.kind)))
      ∙ u16_field with_kind (length x.value) (x.value ++ tail) h.0.2 in
    let whole : d ≡ (before ++ extension_bytes x) ++ tail =
      flat ∙ sym (append_assoc before (extension_bytes x) tail) in
    let next : o + (4 + length x.value) ≡ length (before ++ extension_bytes x) =
      omega (arith, length-append before (extension_bytes x), size) in
    let room : leb (o + 4) (length d) ≡ true =
      ground (arith, ap length whole, length-append (before ++ extension_bytes x) tail, next) in
    let not_end : (x.kind == 0) ≡ false = ground (arith, ==_iff x.kind 0, h.0.0) in
    let later : extensions_from fuel d (o + (4 + length x.value)) ≡ some (map (λ x. x.kind) xs) =
      ap (λ l. extensions_from fuel l (o + (4 + length x.value))) whole
      ∙ ap (extensions_from fuel ((before ++ extension_bytes x) ++ tail)) next
      ∙ extensions_from-tlv xs rest (before ++ extension_bytes x) fuel h.1 end (omega arith) in
    rw (room, at_kind, at_length, not_end, later) refl

length-tlv : (xs : List Extension) → length xs ≤ length (tlv xs)
length-tlv [] = omega arith
length-tlv (x ∷ xs) = omega (arith, length-append (extension_bytes x) (tlv xs), length-tlv xs)

no_extension : (xs : List Extension) → length (tlv xs) ≡ 0 → map (λ x. x.kind) xs ≡ []
no_extension [] h = refl
no_extension (x ∷ xs) h = let no : ⊥ = omega (arith, length-tlv (x ∷ xs)) in elim no [ ]

-- A mint's account is 166 bytes, of which the last is the account's type, and its extensions.
pub mint_extensions-tlv :
    (base : Bytes) (xs : List Extension) (rest : Bytes)
    → length base ≡ 166
    → All IsExtension xs
    → IsEnd rest
    → mint_extensions (base ++ (tlv xs ++ rest)) ≡ some (map (λ x. x.kind) xs)
unfolding mint_extensions
mint_extensions-tlv base xs rest size h end =
    let d = base ++ (tlv xs ++ rest) in
    elim (Bool-cases (leb (length d) 166)) [
      | inl small ↦
          let nothing : length (tlv xs) ≡ 0 =
            ground
              (arith, length-append base (tlv xs ++ rest), length-append (tlv xs) rest, size) in
          rw (small, no_extension xs nothing) refl
      | inr large ↦
          let enough : length xs < suc (length d) = omega (
            arith,
            length-tlv xs,
            length-append base (tlv xs ++ rest),
            length-append (tlv xs) rest,
          ) in
          rw large (
            ap (extensions_from (suc (length d)) d) (sym size)
            ∙ extensions_from-tlv xs rest base (suc (length d)) h end enough)
    ]
