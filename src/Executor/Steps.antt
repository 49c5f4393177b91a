-- ===== src/Executor/Steps.antt =====
-- One round of the parser on an option that is written out whole.
use boundless_stock.Prelude.{
  ℕ, suc, ◌+◌, ◌*◌, ◌≤◌, ◌<◌, ◌≡◌, refl, arith, ◌==◌, le→leb, leb, false, length, ok, Result, ◌>>=◌,
  if◌then◌else◌, ◌++◌, [], some, length-append, append_assoc,
}
use boundless_stock.Hex.{Hex, hex, slice}
use boundless_stock.Hex.Digits.{length-hex, parse-hex}
use boundless_stock.Hex.Slices.{slice_mid, slice_behind}
use boundless_stock.Executor.{ExecutorRequests, ParseError, parse_option, parse_round, parse_loop}

-- The four fields of an option, cut out of the string that they stand in.
module _ (a b c d rest : Hex) (m : ℕ) (la : length a ≡ 2) (lb : length b ≡ 4) (lc : length c ≡ 2)
    (ld : length d ≡ m) where
  abbrev four : Hex
  four = (a ++ (b ++ (c ++ d))) ++ rest

  slice_first : slice 0 2 four ≡ a
  slice_first = simp append_assoc (slice_mid 0 2 [] a (b ++ (c ++ (d ++ rest))) refl (omega arith))

  slice_second : slice 2 6 four ≡ b
  slice_second = simp append_assoc (slice_mid 2 6 a b (c ++ (d ++ rest)) la (omega arith))

  slice_third : slice 6 8 four ≡ c
  slice_third = simp append_assoc (
      simp append_assoc at
        (slice_mid 6 8 (a ++ b) c (d ++ rest) (omega (arith, length-append {0} a b)) (omega arith)))

  slice_fourth : slice 8 (8 + m) four ≡ d
  slice_fourth = simp append_assoc (
      simp append_assoc at (
        slice_mid 8 (8 + m) (a ++ (b ++ c)) d rest
          (omega (arith, length-append {0} a (b ++ c), length-append {0} b c)) (omega arith)))

-- An option on the wire, of any worker.
abbrev pub option_wire : ℕ → ℕ → ℕ → Hex → Hex
option_wire worker size kind params = hex worker 1 ++ (hex size 2 ++ (hex kind 1 ++ params))

abbrev round_of : ℕ → ℕ → Hex → ExecutorRequests → Result ParseError ExecutorRequests
round_of worker kind params out =
    if worker == 1 then parse_option (some kind) params out else ok out

module _ (worker kind half : ℕ) (params before after : Hex) (out : ExecutorRequests)
    (w : worker < 256) (k : kind < 256) (fits : half + 1 < 65536)
    (whole : length params ≡ half * 2) where
  abbrev wire : Hex
  wire = option_wire worker (half + 1) kind params

  length_worker : length (hex worker 1) ≡ 2
  length_worker = length-hex 1 worker (omega arith) (omega arith)

  length_size : length (hex (half + 1) 2) ≡ 4
  length_size = length-hex 2 (half + 1) (omega arith) (omega arith)

  length_kind : length (hex kind 1) ≡ 2
  length_kind = length-hex 1 kind (omega arith) (omega arith)

  pub length-option_wire : length (option_wire worker (half + 1) kind params) ≡ 8 + half * 2
  length-option_wire = omega (
    arith,
    length-append {0} (hex worker 1) (hex (half + 1) 2 ++ (hex kind 1 ++ params)),
    length-append {0} (hex (half + 1) 2) (hex kind 1 ++ params),
    length-append {0} (hex kind 1) params,
    length_worker,
    length_size,
    length_kind,
  )

  cut :
      (i j p q : ℕ) {r : Hex}
      → length before + i ≡ p
      → length before + j ≡ q
      → slice i j (wire ++ after) ≡ r
      → slice p q (before ++ (wire ++ after)) ≡ r
  cut i j p q e f h = rw (← e, ← f, slice_behind i j before (wire ++ after)) h

  worker_at : slice (length before) (length before + 2) (before ++ (wire ++ after)) ≡ hex worker 1
  worker_at = cut 0 2 (length before) (length before + 2) (omega arith) (omega arith) (
      slice_first (hex worker 1) (hex (half + 1) 2) (hex kind 1) params after (half * 2)
        length_worker length_size length_kind whole)

  size_at :
      slice (length before + 2) (length before + 6) (before ++ (wire ++ after)) ≡ hex (half + 1) 2
  size_at = cut 2 6 (length before + 2) (length before + 6) (omega arith) (omega arith) (
      slice_second (hex worker 1) (hex (half + 1) 2) (hex kind 1) params after (half * 2)
        length_worker length_size length_kind whole)

  kind_at :
      slice (length before + 6) (length before + 6 + 2) (before ++ (wire ++ after)) ≡ hex kind 1
  kind_at = cut 6 8 (length before + 6) (length before + 6 + 2) (omega arith) (omega arith) (
      slice_third (hex worker 1) (hex (half + 1) 2) (hex kind 1) params after (half * 2)
        length_worker length_size length_kind whole)

  params_at :
      slice (length before + 6 + 2) (length before + 6 + (half + 1) * 2) (before ++ (wire ++ after))
      ≡ params
  params_at =
      cut 8 (8 + half * 2) (length before + 6 + 2) (length before + 6 + (half + 1) * 2)
        (omega arith) (omega arith)
        (slice_fourth (hex worker 1) (hex (half + 1) 2) (hex kind 1) params after (half * 2)
          length_worker length_size length_kind whole)

  end_at : length before + 6 + (half + 1) * 2 ≡ length (before ++ wire)
  end_at = omega (arith, length-append {0} before wire, length-option_wire)

  pub parse_round-option_wire :
      parse_round
        (before ++ (option_wire worker (half + 1) kind params ++ after))
        (length before)
        out
      ≡ (
        length (before ++ option_wire worker (half + 1) kind params),
        round_of worker kind params out,
      )
  unfolding parse_round
  parse_round-option_wire = rw (
    worker_at,
    size_at,
    kind_at,
    parse-hex 1 worker (omega arith) (omega arith),
    parse-hex 2 (half + 1) (omega arith) (omega arith),
    parse-hex 1 kind (omega arith) (omega arith),
    params_at,
    end_at,
  )

  pub parse_loop-option_wire :
      (fuel : ℕ)
      → parse_loop
          (suc fuel)
          (before ++ (option_wire worker (half + 1) kind params ++ after))
          (length before)
          out
        ≡ (round_of worker kind params out >>= λ out'.
            parse_loop fuel
              (before ++ (option_wire worker (half + 1) kind params ++ after))
              (length (before ++ option_wire worker (half + 1) kind params))
              out')
  unfolding parse_loop
  parse_loop-option_wire fuel =
      let room : length before + 6 ≤ length (before ++ (wire ++ after)) = omega (
        arith,
        length-append {0} before (wire ++ after),
        length-append {0} wire after,
        length-option_wire,
      ) in
      rw (le→leb _ _ room, parse_round-option_wire)

-- At the end of the string the loop returns what it has.
pub parse_loop-end :
    (fuel : ℕ) (b : Hex) (out : ExecutorRequests) → parse_loop (suc fuel) b (length b) out ≡ ok out
unfolding parse_loop
parse_loop-end fuel b out =
    rw (let full : leb (length b + 6) (length b) ≡ false = ground arith in full)
