-- ===== src/Sdk/Header.antt =====
-- What is read from a signature's header: packages/sdk/src/webhook.ts.
use boundless_stock.Prelude.{
  ℕ, zero, suc, ◌+◌, ◌/◌, ◌%◌, ◌==◌, ==_iff, ◌≡◌, refl, ap, arith, ltb, Bool-cases, inl, inr, true,
  false, some, [], ◌∷◌, ◌++◌, All, All-append,
}
use boundless_stock.Sdk.{
  Text, digits_from, digits, is_space, trim_start, trim_end, split, entry_of, parts_of,
}

-- No white space, no comma and no equals sign.
abbrev pub IsPlain : ℕ → Type 0
IsPlain c = (is_space c ≡ false) × ((c == b',') ≡ false) × ((c == b'=') ≡ false)

digit-IsPlain : (n : ℕ) → ltb n 10 ≡ true → IsPlain (b'0' + n)
digit-IsPlain n h = (ground arith, ground arith, ground arith)

last_digit : (n : ℕ) → ltb (n % 10) 10 ≡ true
last_digit n = ground arith

digits_from-IsPlain : (fuel n : ℕ) → All IsPlain (digits_from fuel n)
unfolding digits_from
digits_from-IsPlain zero n = tt
digits_from-IsPlain (suc fuel) n = elim (Bool-cases (ltb n 10)) [
  | inl e ↦ rw e (digit-IsPlain n e, tt)
  | inr e ↦ rw e (
      All-append IsPlain (digits_from fuel (n / 10)) _ (digits_from-IsPlain fuel (n / 10))
        (digit-IsPlain (n % 10) (last_digit n), tt))
]

pub digits-IsPlain : (n : ℕ) → All IsPlain (digits n)
unfolding digits
digits-IsPlain n = digits_from-IsPlain (suc n) n

abbrev Misses : ℕ → Text → Type 0
Misses at s = All (λ c. (c == at) ≡ false) s

split-Misses : (at : ℕ) (s : Text) → Misses at s → split at s ≡ s ∷ []
unfolding split
split-Misses at [] h = refl
split-Misses at (c ∷ s) h = rw (h.0, split-Misses at s h.1) refl

split-append : (at : ℕ) (s r : Text) → Misses at s → split at (s ++ (at ∷ r)) ≡ s ∷ split at r
unfolding split
split-append at [] r h = rw ((==_iff at at).1 refl) refl
split-append at (c ∷ s) r h = rw (h.0, split-append at s r h.1) refl

abbrev HasNoSpace : Text → Type 0
HasNoSpace s = All (λ c. is_space c ≡ false) s

trim_start-same : (s : Text) → HasNoSpace s → trim_start s ≡ s
unfolding trim_start
trim_start-same [] h = refl
trim_start-same (c ∷ s) h = rw (h.0) refl

trim_end-same : (s : Text) → HasNoSpace s → trim_end s ≡ s
unfolding trim_end
trim_end-same [] h = refl
trim_end-same (c ∷ s) h = rw (h.0) (ap (λ t. c ∷ t) (trim_end-same s h.1))

IsPlain-HasNoSpace : (s : Text) → All IsPlain s → HasNoSpace s
IsPlain-HasNoSpace [] h = tt
IsPlain-HasNoSpace (c ∷ s) h = (h.0.0, IsPlain-HasNoSpace s h.1)

IsPlain-Misses_comma : (s : Text) → All IsPlain s → Misses b',' s
IsPlain-Misses_comma [] h = tt
IsPlain-Misses_comma (c ∷ s) h = (h.0.1, IsPlain-Misses_comma s h.1)

IsPlain-Misses_equals : (s : Text) → All IsPlain s → Misses b'=' s
IsPlain-Misses_equals [] h = tt
IsPlain-Misses_equals (c ∷ s) h = (h.0.2, IsPlain-Misses_equals s h.1)

trim-same : (s : Text) → HasNoSpace s → trim_end (trim_start s) ≡ s
trim-same s h = rw (trim_start-same s h) (trim_end-same s h)

entry_of-time :
    (time : Text)
    → All IsPlain time
    → entry_of (split b'=' (trim_end (trim_start (b't' ∷ b'=' ∷ time)))) ≡ (b't' ∷ [], some time)
unfolding split
entry_of-time time p =
    rw
      (
        trim-same (b't' ∷ b'=' ∷ time) (refl, (refl, IsPlain-HasNoSpace time p)),
        split-Misses b'=' time (IsPlain-Misses_equals time p),
      )
      refl

entry_of-mac :
    (mac : Text)
    → All IsPlain mac
    → entry_of (split b'=' (trim_end (trim_start (b'v' ∷ b'1' ∷ b'=' ∷ mac))))
      ≡ (b'v' ∷ b'1' ∷ [], some mac)
unfolding split
entry_of-mac mac p =
    rw
      (
        trim-same (b'v' ∷ b'1' ∷ b'=' ∷ mac) (refl, (refl, (refl, IsPlain-HasNoSpace mac p))),
        split-Misses b'=' mac (IsPlain-Misses_equals mac p),
      )
      refl

-- The two entries of a header that was made by signing.
pub parts_of-signed :
    (time mac : Text)
    → All IsPlain time
    → All IsPlain mac
    → parts_of ((b't' ∷ b'=' ∷ time) ++ (b',' ∷ b'v' ∷ b'1' ∷ b'=' ∷ mac))
      ≡ (b't' ∷ [], some time) ∷ (b'v' ∷ b'1' ∷ [], some mac) ∷ []
unfolding parts_of
parts_of-signed time mac p q =
    rw
      (
        split-append b',' (b't' ∷ b'=' ∷ time) (b'v' ∷ b'1' ∷ b'=' ∷ mac)
            (refl, (refl, IsPlain-Misses_comma time p)),
        split-Misses b',' (b'v' ∷ b'1' ∷ b'=' ∷ mac)
            (refl, (refl, (refl, IsPlain-Misses_comma mac q))),
        entry_of-time time p,
        entry_of-mac mac q,
      )
      refl
