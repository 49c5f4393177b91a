-- ===== src/Prelude/Bytes.antt =====
-- Buffers as lists of bytes: numbers of a fixed width, parts, and where the fields of a concatenation
-- stand.
use Prim.Native.Nat.{ℕ, zero, suc, ◌+◌, ◌-◌, ◌*◌, ◌/◌, ◌%◌, ◌^◌, ◌≤◌, ◌<◌}
use native.Mathlib.Nat.{pow-succ'}
use native.Mathlib.Omega.{arith}
use mathlib.Core.Path.{◌≡◌, refl, sym, ap, subst, ◌∙◌}
use mathlib.Core.Bool.{Bool, true, false, ◌&&◌}
use mathlib.Core.Logic.{◌↔◌}
use mathlib.Core.Option.{Option, none, some}
use mathlib.Core.List.{List, [], ◌∷◌, ◌++◌, append_assoc}
use boundless_stock.Prelude.Tests.{ltb, leb, ◌==◌, ==_iff}
use boundless_stock.Prelude.Lists.{
  length, take, drop, length-append, take-append, drop-append, length-drop, take-drop,
}
use boundless_stock.Prelude.Results.{Result, ok, ◌>>◌, throw_if, throw_if-ok, bind-ok, ok-injective}

abbrev pub Bytes : Type 0
Bytes = List ℕ

abbrev pub little_endian : Bytes → ℕ
little_endian [] = 0
little_endian (b ∷ bs) = b + 256 * little_endian bs

-- The bytes of `v`, `n` of them, least first.
abbrev pub bytes_of : ℕ → ℕ → Bytes
bytes_of zero v = []
bytes_of (suc n) v = v % 256 ∷ bytes_of n (v / 256)

-- The same, greatest first.
abbrev pub big_endian_bytes : ℕ → ℕ → Bytes
big_endian_bytes zero v = []
big_endian_bytes (suc n) v = big_endian_bytes n (v / 256) ++ (v % 256 ∷ [])

abbrev pub subarray : ℕ → ℕ → Bytes → Bytes
subarray start end bytes = take (end - start) (drop start bytes)

-- `d[at]`, undefined out of range.
abbrev pub byte_at : ℕ → Bytes → Option ℕ
byte_at at [] = none
byte_at zero (b ∷ bs) = some b
byte_at (suc at) (b ∷ bs) = byte_at at bs

abbrev pub same_bytes : Bytes → Bytes → Bool
same_bytes [] [] = true
same_bytes [] (c ∷ cs) = false
same_bytes (b ∷ bs) [] = false
same_bytes (b ∷ bs) (c ∷ cs) = b == c && same_bytes bs cs

-- `Buffer.concat`
abbrev pub concat : List Bytes → Bytes
concat [] = []
concat (f ∷ fs) = f ++ concat fs

abbrev pub total : List Bytes → ℕ
total [] = 0
total (f ∷ fs) = length f + total fs

module _ {E : Type 0} (e : E) where
  -- `d.readUInt…LE(at)` of `n` bytes, which throws out of range.
  unfoldable pub read_le : ℕ → Bytes → ℕ → Result E ℕ
  read_le n bytes at =
      throw_if (ltb (length bytes) (at + n)) e >> ok (little_endian (take n (drop at bytes)))

  -- `b.writeUInt…LE(v)` on `n` bytes, which throws out of range.
  unfoldable pub write_le : ℕ → ℕ → Result E Bytes
  write_le n v = throw_if (leb (256 ^ n) v) e >> ok (bytes_of n v)

  unfoldable pub write_be : ℕ → ℕ → Result E Bytes
  write_be n v = throw_if (leb (256 ^ n) v) e >> ok (big_endian_bytes n v)

pub length-bytes_of : (n v : ℕ) → length (bytes_of n v) ≡ n
length-bytes_of zero v = refl
length-bytes_of (suc n) v = ap suc (length-bytes_of n (v / 256))

quotient_bound : (n v : ℕ) → v < 256 ^ suc n → v / 256 < 256 ^ n
quotient_bound n v h = omega (arith, pow-succ' 256 n)

pub little_endian-bytes_of : (n v : ℕ) → v < 256 ^ n → little_endian (bytes_of n v) ≡ v
little_endian-bytes_of zero v h = omega arith
little_endian-bytes_of (suc n) v h =
    omega (arith, little_endian-bytes_of n (v / 256) (quotient_bound n v h))

pub same_bytes_iff : (a b : Bytes) → (same_bytes a b ≡ true) ↔ (a ≡ b)
same_bytes_iff [] [] = ground arith
same_bytes_iff [] (c ∷ cs) = ground arith
same_bytes_iff (b ∷ bs) [] = ground arith
same_bytes_iff (b ∷ bs) (c ∷ cs) = ground (arith, ==_iff b c, same_bytes_iff bs cs)

pub concat-append : (fs gs : List Bytes) → concat (fs ++ gs) ≡ concat fs ++ concat gs
concat-append [] gs = refl
concat-append (f ∷ fs) gs = rw (concat-append fs gs) (sym (append_assoc f (concat fs) (concat gs)))

pub length-concat : (fs : List Bytes) → length (concat fs) ≡ total fs
length-concat [] = refl
length-concat (f ∷ fs) = omega (arith, length-append f (concat fs), length-concat fs)

-- The field after `before` is where `before` ends.
module _ (before : List Bytes) (f : Bytes) (after : List Bytes) (n k : ℕ) where
  pub field :
      length (concat before) ≡ n
      → length f ≡ k
      → take k (drop n (concat (before ++ (f ∷ after)))) ≡ f
  field here size =
      rw
        (
          sym here,
          sym size,
          concat-append before (f ∷ after),
          drop-append (concat before) (f ++ concat after),
        )
        (take-append f (concat after))

  pub read_le-field :
      {E : Type 0} (e : E)
      → length (concat before) ≡ n
      → length f ≡ k
      → read_le e k (concat (before ++ (f ∷ after))) n ≡ ok (little_endian f)
  unfolding read_le
  read_le-field e here size =
      let whole : ltb (length (concat (before ++ (f ∷ after)))) (n + k) ≡ false =
        rw (concat-append before (f ∷ after)) (
          ground (
            arith,
            length-append (concat before) (f ++ concat after),
            length-append f (concat after),
            here,
            size,
          )) in
      rw (whole, field here size) refl

drop-nil : (n : ℕ) → drop n (bytes_of 0 0) ≡ []
drop-nil zero = refl
drop-nil (suc n) = refl

drop-drop : (n k : ℕ) (d : Bytes) → drop k (drop n d) ≡ drop (n + k) d
drop-drop zero k d = ap (λ m. drop m d) (omega arith)
drop-drop (suc n) k [] = drop-nil k ∙ sym (drop-nil (suc n + k))
drop-drop (suc n) k (b ∷ d) =
    let next : suc (n + k) ≡ suc n + k = omega arith in
    drop-drop n k d ∙ ap (λ m. drop m (b ∷ d)) next

pub drop_split : (n k : ℕ) (d : Bytes) → drop n d ≡ take k (drop n d) ++ drop (n + k) d
drop_split n k d = take-drop k (drop n d) ∙ ap (λ l. take k (drop n d) ++ l) (drop-drop n k d)

length-take : (k : ℕ) (d : Bytes) → k ≤ length d → length (take k d) ≡ k
length-take zero d h = refl
length-take (suc k) [] h = omega arith
length-take (suc k) (b ∷ d) h = ap suc (length-take k d (omega arith))

pub length-subfield : (n k : ℕ) (d : Bytes) → n + k ≤ length d → length (take k (drop n d)) ≡ k
length-subfield n k d h = length-take k (drop n d) (omega (arith, length-drop n d))

-- A number that was read is that of bytes that are there.
pub read_le-ok :
    {E : Type 0} (e : E) (k : ℕ) (d : Bytes) (n v : ℕ)
    → read_le e k d n ≡ ok v
    → (n + k ≤ length d) × (little_endian (take k (drop n d)) ≡ v)
unfolding read_le
read_le-ok e k d n v p = bind-ok (throw_if (ltb (length d) (n + k)) e) p λ u inside same.
    (ground (arith, throw_if-ok (ltb (length d) (n + k)) e u inside), ok-injective same)

-- A number that was written is in range, and its bytes are what was made of it.
pub write_le-is :
    {E : Type 0} (e : E) (n v : ℕ) (b : Bytes)
    → write_le e n v ≡ ok b
    → (v < 256 ^ n) × (bytes_of n v ≡ b)
unfolding write_le
write_le-is e n v b p =
    bind-ok (throw_if (leb (256 ^ n) v) e) p
      λ u inside same. (ground (arith, throw_if-ok (leb (256 ^ n) v) e u inside), ok-injective same)

pub write_le-ok :
    {E : Type 0} (e : E) (n v : ℕ) (b : Bytes)
    → write_le e n v ≡ ok b
    → (length b ≡ n) × (little_endian b ≡ v)
write_le-ok e n v b p =
    let r = write_le-is e n v b p in
    subst (λ b. (length b ≡ n) × (little_endian b ≡ v)) r.1
      (length-bytes_of n v, little_endian-bytes_of n v r.0)

empty : (d : Bytes) → length d ≡ 0 → d ≡ []
empty [] h = refl
empty (b ∷ d) h = ground arith

pub drop_all : (n : ℕ) (d : Bytes) → length d ≤ n → drop n d ≡ []
drop_all n d h = empty (drop n d) (omega (arith, length-drop n d))
