-- ===== src/Sdk.antt =====
-- Signing and verifying webhooks: packages/sdk/src/webhook.ts. Texts are lists of characters. HMAC-SHA256
-- in hex, JavaScript's `Number` of a text where it is an integer, and `JSON.parse` are arguments.
pub mod Header
pub mod Verified
pub mod Evm
pub mod Client
mod Tests
use boundless_stock.Prelude.{
  ℕ, zero, suc, ◌+◌, ◌-◌, ◌*◌, ◌/◌, ◌%◌, ◌==◌, ◌&&◌, ◌||◌, not, leb, ltb, Bool, true, false, Option,
  none, some, List, [], ◌∷◌, ◌++◌, map, length, replicate, if◌then◌else◌, Result, ok, err, ◌>>=◌,
  throw_if, or_else, either,
}
use boundless_stock.Prelude.Int.{ℤ, pos, negsuc}

abbrev pub Text : Type 0
Text = List ℕ

pub data WebhookError : Type 0 where
  missing_header malformed_header outside_tolerance wrong_signature not_json : WebhookError

-- A number in decimal; its own size is fuel enough, since each digit makes it smaller.
unfoldable pub digits_from : ℕ → ℕ → Text
digits_from zero n = []
digits_from (suc fuel) n =
    either (ltb n 10) (digits_from fuel (n / 10) ++ ((b'0' + n % 10) ∷ [])) ((b'0' + n) ∷ [])

unfoldable pub digits : ℕ → Text
digits n = digits_from (suc n) n

unfoldable pub print_int : ℤ → Text
print_int (pos n) = digits n
print_int (negsuc n) = b'-' ∷ digits (suc n)

-- `s.padStart(n, "0")`
abbrev pub pad_start : ℕ → Text → Text
pad_start n s = replicate (n - length s) b'0' ++ s

-- The white space of `trim` among the first 256 characters.
abbrev pub is_space : ℕ → Bool
is_space c = c == 32 || (leb 9 c && leb c 13 || c == 160)

unfoldable pub trim_start : Text → Text
trim_start [] = []
trim_start (c ∷ s) = either (is_space c) (c ∷ s) (trim_start s)

-- A white space goes where nothing is left after it.
abbrev pub drop_last : Bool → ℕ → Text → Text
drop_last true c [] = []
drop_last true c (d ∷ s) = c ∷ d ∷ s
drop_last false c s = c ∷ s

unfoldable pub trim_end : Text → Text
trim_end [] = []
trim_end (c ∷ s) = drop_last (is_space c) c (trim_end s)

-- `s.split(c)`
abbrev pub put_first : ℕ → List Text → List Text
put_first c [] = (c ∷ []) ∷ []
put_first c (s ∷ ss) = (c ∷ s) ∷ ss

unfoldable pub split : ℕ → Text → List Text
split at [] = [] ∷ []
split at (c ∷ s) = either (c == at) (put_first c (split at s)) ([] ∷ split at s)

-- `p.split("=", 2)` as an entry; without a second piece the value is undefined.
abbrev pub entry_of : List Text → Text × Option Text
entry_of [] = ([], none)
entry_of (k ∷ []) = (k, none)
entry_of (k ∷ v ∷ _) = (k, some v)

abbrev pub same_text : Text → Text → Bool
same_text [] [] = true
same_text (c ∷ s) (d ∷ t) = c == d && same_text s t
same_text _ _ = false

abbrev pub or_later : Option (Option Text) → Bool → Option Text → Option (Option Text)
or_later (some v) b w = some v
or_later none true w = some w
or_later none false w = none

-- Of the entries with a key the last stays.
unfoldable pub find_part : Text → List (Text × Option Text) → Option (Option Text)
find_part k [] = none
find_part k ((j, v) ∷ es) = or_later (find_part k es) (same_text j k) v

abbrev pub part : Option (Option Text) → Option Text
part none = none
part (some v) = v

unfoldable pub parts_of : Text → List (Text × Option Text)
parts_of header = map (λ p. entry_of (split b'=' (trim_end (trim_start p)))) (split b',' header)

-- `Buffer.from(s, "hex")`: it ends at the first pair that is not two hex digits.
abbrev pub hex_value : ℕ → Option ℕ
hex_value c =
    if leb b'0' c && leb c b'9'
    then some (c - b'0')
    else if leb b'a' c && leb c b'f'
    then some (c - 87)
    else if leb b'A' c && leb c b'F'
    then some (c - 55)
    else none

abbrev pub byte_before : Option ℕ → Option ℕ → List ℕ → List ℕ
byte_before (some h) (some l) bs = (h * 16 + l) ∷ bs
byte_before _ _ bs = []

unfoldable pub hex_bytes : Text → List ℕ
hex_bytes [] = []
hex_bytes (c ∷ []) = []
hex_bytes (c ∷ d ∷ s) = byte_before (hex_value c) (hex_value d) (hex_bytes s)

-- `|now - t|`, for a time that is not before 1970.
abbrev pub distance : ℕ → ℤ → ℕ
distance now (pos t) = (now - t) + (t - now)
distance now (negsuc t) = now + suc t

abbrev pub not_blank : Option Text → Option Text
not_blank none = none
not_blank (some []) = none
not_blank (some (c ∷ s)) = some (c ∷ s)

module _ (hmac : Text → Text → Text) (number : Text → Option ℤ) where
  abbrev pub mac : Text → ℤ → Text → Text
  mac secret t body = hmac secret (print_int t ++ (b'.' ∷ body))

  unfoldable pub sign_webhook : Text → Text → ℕ → Text
  sign_webhook body secret t =
      (b't' ∷ b'=' ∷ digits t) ++ (b',' ∷ b'v' ∷ b'1' ∷ b'=' ∷ mac secret (pos t) body)

  abbrev pub number_of : Option Text → Option ℤ
  number_of none = none
  number_of (some s) = number s

  -- Everything up to the parse of the body; `now` is in seconds.
  pub check_webhook : ℕ → Text → Option Text → Text → ℕ → Result WebhookError (Unit {0})
  check_webhook now body header secret tolerance =
      or_else missing_header (not_blank header) >>= λ header.
      or_else malformed_header (number_of (part (find_part (b't' ∷ []) (parts_of header)))) >>= λ t.
      or_else malformed_header (not_blank (part (find_part (b'v' ∷ b'1' ∷ []) (parts_of header))))
      >>= λ v1. throw_if (ltb tolerance (distance now t)) outside_tolerance >>= λ _.
          throw_if (not (same_text (hex_bytes v1) (hex_bytes (mac secret t body)))) wrong_signature

  -- `parse` is `JSON.parse`.
  pub verify_webhook :
      {Event : Type 0}
      → (Text → Option Event)
      → ℕ
      → Text
      → Option Text
      → Text
      → ℕ
      → Result WebhookError Event
  verify_webhook parse now body header secret tolerance =
      check_webhook now body header secret tolerance >>= λ _. or_else not_json (parse body)
