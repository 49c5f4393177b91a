-- ===== src/Executor/Total.antt =====
-- The parser's loop ends on every input.
use boundless_stock.Prelude.{
  ℕ, zero, suc, ◌+◌, ◌≤◌, ◌<◌, ◌≢◌, refl, inl, inr, arith, leb, leb→le, Bool-cases, length, err, ok,
  Result, ◌>>=◌, Option, Bool, true, false, if◌then◌else◌,
}
use boundless_stock.Hex.{Hex}
use boundless_stock.Executor.{
  ExecutorRequests, ParseError, stuck, syntax_error, parse_option, parse_round, parse_loop,
  parse_executor_options, no_requests,
}

>>=-ne-stuck :
    {A B : Type 0} (r : Result ParseError A) (k : A → Result ParseError B)
    → r ≢ err stuck
    → ((a : A) → k a ≢ err stuck)
    → (r >>= k) ≢ err stuck
>>=-ne-stuck (ok a) k h g = g a
>>=-ne-stuck (err syntax_error) k h g = λ e. cc e
>>=-ne-stuck (err stuck) k h g = λ e. h refl

if-ne-stuck :
    {A : Type 0} (c : Bool) {x y : Result ParseError A}
    → x ≢ err stuck
    → y ≢ err stuck
    → (if c then x else y) ≢ err stuck
if-ne-stuck true hx hy = hx
if-ne-stuck false hx hy = hy

ok-ne-stuck : {A : Type 0} (a : A) → ok a ≢ err stuck
ok-ne-stuck a = λ e. cc e

parse_round-grows :
    (b : Hex) (cur : ℕ) (out : ExecutorRequests) → cur + 6 ≤ (parse_round b cur out).0
unfolding parse_round
parse_round-grows b cur out = omega arith

parse_option-ne-stuck :
    (t : Option ℕ) (p : Hex) (out : ExecutorRequests) → parse_option t p out ≢ err stuck
unfolding parse_option
parse_option-ne-stuck t p out = ground arith

parse_round-ne-stuck :
    (b : Hex) (cur : ℕ) (out : ExecutorRequests) → (parse_round b cur out).1 ≢ err stuck
unfolding parse_round
parse_round-ne-stuck b cur out = if-ne-stuck _ (parse_option-ne-stuck _ _ out) (ok-ne-stuck out)

parse_loop-ne-stuck :
    (fuel : ℕ) (b : Hex) (cur : ℕ) (out : ExecutorRequests)
    → 0 < fuel
    → length b < fuel + cur
    → parse_loop fuel b cur out ≢ err stuck
unfolding parse_loop
parse_loop-ne-stuck zero b cur out pos h = absurd (omega arith)
parse_loop-ne-stuck (suc fuel) b cur out pos h = elim (Bool-cases (leb (cur + 6) (length b))) [
  | inl more ↦ rw more (
      >>=-ne-stuck (parse_round b cur out).1
        (λ out'. parse_loop fuel b (parse_round b cur out).0 out') (parse_round-ne-stuck b cur out)
        (λ out'.
          parse_loop-ne-stuck fuel b (parse_round b cur out).0 out' (omega (arith, leb→le _ _ more))
            (omega (arith, parse_round-grows b cur out))))
  | inr done ↦ rw done (ok-ne-stuck out)
]

-- The parser returns on every options string: its fuel never runs out.
pub parse_executor_options-ne-stuck : (b : Hex) → parse_executor_options b ≢ err stuck
unfolding parse_executor_options
parse_executor_options-ne-stuck b =
    if-ne-stuck _ (ok-ne-stuck no_requests)
      (parse_loop-ne-stuck (suc (length b)) b 4 no_requests (omega arith) (omega arith))
