-- ===== src/Sdk/Client.antt =====
-- The SDK's client, packages/sdk/src/client.ts: `waitForOrder` and the errors of `call`. The i-th poll
-- and the time after it are arguments, as is `JSON.parse`.
pub mod Waited
mod Tests
use Prim.Native.String.{String}
use boundless_stock.Prelude.{
  ℕ, zero, suc, ◌+◌, Bool, true, false, ◌||◌, Option, none, some, List, [], ◌∷◌, ltb, either,
  Result, ok, err, ◌>>=◌, or_else,
}
use boundless_stock.Sdk.{Text}

pub data ClientError : Type 0 where
  stuck not_json : ClientError
  api_error : ℕ → String → Option String → ClientError

-- `error.code` and `error.message` of an answer's body.
pub record ErrorBody : Type 0 where
  pub code : Option String
  pub message : Option String

pub record HttpResponse : Type 0 where
  pub is_ok : Bool
  pub status : ℕ
  pub text : Text

abbrev pub code_or : Option ErrorBody → String
code_or none = "http_error"
code_or (some e) = elim (e.code) [ none ↦ "http_error" | some c ↦ c ]

-- `none` stands for the sentence "HTTP <status>".
abbrev pub message_or : Option ErrorBody → Option String
message_or none = none
message_or (some e) = e.message

module _ {Json : Type 0} (parse : Text → Option Json) (nothing : Json)
    (error_of : Json → Option ErrorBody) where
  -- An empty body is `{}`.
  abbrev pub body_of : Text → Result ClientError Json
  body_of [] = ok nothing
  body_of (c ∷ s) = or_else not_json (parse (c ∷ s))

  pub answer : HttpResponse → Result ClientError Json
  answer res = body_of res.text >>= λ json.
      either res.is_ok
        (err (api_error res.status (code_or (error_of json)) (message_or (error_of json))))
        (ok json)

module _ {Order : Type 0} (poll : ℕ → Result ClientError Order) (is_pending : Order → Bool)
    (clock : ℕ → ℕ) where
  abbrev pub is_done : ℕ → ℕ → Order → Bool
  is_done deadline i o = elim (is_pending o) [ true ↦ ltb deadline (clock i) | false ↦ true ]

  -- The loop from its i-th round on.
  unfoldable pub wait_from : ℕ → ℕ → ℕ → Result ClientError Order
  wait_from zero deadline i = err stuck
  wait_from (suc fuel) deadline i =
      poll i >>= λ o. either (is_done deadline i o) (wait_from fuel deadline (suc i)) (ok o)

  -- Each round takes at least the interval, so that one more than there are milliseconds is fuel enough.
  pub wait_for_order : ℕ → ℕ → Result ClientError Order
  wait_for_order start timeout = wait_from (suc (suc timeout)) (start + timeout) 0
