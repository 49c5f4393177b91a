-- ===== src/PartnerApi.antt =====
-- The partner API's front door, apps/web/src/lib/partner-api.ts: API keys, the rate limit, and the
-- order in which a request meets them. A text is the list of its code points; the SHA-256 digest is
-- an argument.
pub mod Room
pub mod Limit
pub mod Keys
mod Tests
use Prim.Native.String.{String}
use boundless_stock.Prelude.{
  ℕ, zero, suc, ◌+◌, ◌-◌, Bool, true, false, not, ◌&&◌, ◌||◌, Option, none, some, List, [], ◌∷◌,
  ◌++◌, leb, ◌==◌, if◌then◌else◌, Result, ok, err, Dict, Eq, lookup, insert, take, drop,
}
use boundless_stock.Prelude.Int.{ℤ, sub_ℕ}

abbrev pub Text : Type 0
Text = List ℕ

-- An error with its HTTP status, by its code.
pub data ApiError : Type 0 where
  api_keys_not_configured missing_api_key invalid_api_key rate_limited : ApiError

abbrev pub status : ApiError → ℕ
status api_keys_not_configured = 503
status missing_api_key = 401
status invalid_api_key = 401
status rate_limited = 429

abbrev pub cons_head : ℕ → List Text → List Text
cons_head c [] = (c ∷ []) ∷ []
cons_head c (t ∷ ts) = (c ∷ t) ∷ ts

-- `s.split(",")`
pub split_commas : Text → List Text
split_commas [] = [] ∷ []
split_commas (c ∷ s) = if c == b',' then [] ∷ split_commas s else cons_head c (split_commas s)

-- The white space of `trim` beyond ASCII: no-break spaces, the spaces of other widths, the line and
-- paragraph separators, and the byte order mark.
abbrev pub is_wide_space : ℕ → Bool
is_wide_space c =
    c == 160
    || (c == 5_760
        || ((leb 8_192 c && leb c 8_202)
            || (c == 8_232
                || (c == 8_233 || (c == 8_239 || (c == 8_287 || (c == 12_288 || c == 65_279)))))))

abbrev pub is_space : ℕ → Bool
is_space c = c == 32 || ((leb 9 c && leb c 13) || is_wide_space c)

pub trim_start : Text → Text
trim_start [] = []
trim_start (c ∷ s) = if is_space c then trim_start s else c ∷ s

abbrev pub all_space : Text → Bool
all_space [] = true
all_space (c ∷ s) = is_space c && all_space s

pub trim_end : Text → Text
trim_end [] = []
trim_end (c ∷ s) = if all_space (c ∷ s) then [] else c ∷ trim_end s

abbrev pub trim : Text → Text
trim s = trim_end (trim_start s)

-- `s.indexOf(":")`; `none` is -1.
pub index_of_colon : Text → Option ℕ
index_of_colon [] = none
index_of_colon (c ∷ s) =
    if c == b':' then some 0 else elim (index_of_colon s) [ none ↦ none | some i ↦ some (i + 1) ]

-- `s.slice(0, -1)`
abbrev pub drop_last : Text → Text
drop_last [] = []
drop_last (c ∷ []) = []
drop_last (c ∷ d ∷ s) = c ∷ drop_last (d ∷ s)

-- One `name:key` pair. With no colon, `slice(0, -1)` is the name and the whole text is the key.
pub name_and_key : Text → Text × Text
name_and_key p = elim (index_of_colon p) [
  | none ↦ (drop_last p, p)
  | some i ↦ (take i p, drop (i + 1) p)
]

pub pairs : List Text → List (Text × Text)
pairs [] = []
pairs (p ∷ ps) = elim (trim p) [ [] ↦ pairs ps | c ∷ s ↦ name_and_key (c ∷ s) ∷ pairs ps ]

abbrev pub development : Text
development = b'd' ∷ b'e' ∷ b'v' ∷ b'e' ∷ b'l' ∷ b'o' ∷ b'p' ∷ b'm' ∷ b'e' ∷ b'n' ∷ b't' ∷ []

abbrev pub found : Option Text → Result ApiError Text
found none = err invalid_api_key
found (some name) = ok name

module _ {Hash : Type 0} ⦃e : Eq Hash⦄ (digest : Text → Hash) where
  abbrev pub with_hashes : List (Text × Text) → List (Text × Hash)
  with_hashes [] = []
  with_hashes ((name, key) ∷ ps) = (name, digest key) ∷ with_hashes ps

  -- `CROSSSTOCK_API_KEYS`, or the empty text where it is not set.
  pub configured_keys : Option Text → List (Text × Hash)
  configured_keys none = with_hashes (pairs (split_commas []))
  configured_keys (some s) = with_hashes (pairs (split_commas s))

  unfoldable pub find_key : Hash → List (Text × Hash) → Option Text
  find_key h [] = none
  find_key h ((name, k) ∷ ks) = if e.beq k h then some name else find_key h ks

  abbrev pub check_key : List (Text × Hash) → Option Text → Result ApiError Text
  check_key keys none = err missing_api_key
  check_key keys (some []) = err missing_api_key
  check_key keys (some (c ∷ s)) = found (find_key (digest (c ∷ s)) keys)

  -- `production` is `NODE_ENV === "production"`, `given` the x-api-key header.
  abbrev pub admit : List (Text × Hash) → Bool → Option Text → Result ApiError Text
  admit [] true given = err api_keys_not_configured
  admit [] false given = ok development
  admit (k ∷ ks) production given = check_key (k ∷ ks) given

  unfoldable pub authenticate : Option Text → Bool → Option Text → Result ApiError Text
  authenticate env production given = admit (configured_keys env) production given

pub record Window : Type 0 where
  pub start : ℕ
  pub count : ℕ

abbrev pub minute : ℕ
minute = 60_000

-- A caller's window after one more request at `now`, and the requests left; or the refusal.
pub next_window : ℕ → ℕ → Option Window → Result ApiError (Window × ℤ)
next_window rate now none = ok (record { start = now; count = 1 }, sub_ℕ rate 1)
next_window rate now (some w) =
    if leb (w.start + minute) now
    then ok (record { start = now; count = 1 }, sub_ℕ rate 1)
    else if leb rate w.count
    then err rate_limited
    else ok (record w { count = w.count + 1 }, sub_ℕ rate (w.count + 1))

module _ {Caller : Type 0} ⦃e : Eq Caller⦄ where
  -- `windows.set(..)` on the branches that let the request through.
  abbrev pub put_window :
      Caller
      → Dict Caller Window
      → Result ApiError (Window × ℤ)
      → Result ApiError ℤ × Dict Caller Window
  put_window caller windows (err x) = (err x, windows)
  put_window caller windows (ok (w, left)) = (ok left, insert caller w windows)

  unfoldable pub rate_limit :
      ℕ → Caller → ℕ → Dict Caller Window → Result ApiError ℤ × Dict Caller Window
  rate_limit rate caller now windows =
      put_window caller windows (next_window rate now (lookup caller windows))

-- How an endpoint ends: a body, an ApiError (its status), or another exception.
pub data Endpoint (A : Type 0) : Type 0 where
  body : A → Endpoint A
  api_error : ℕ → Endpoint A
  crashed : Endpoint A

-- A JSON answer: the HTTP status with the body and the remaining requests, or with an error.
pub data Response (A : Type 0) : Type 0 where
  answered : A → ℤ → Response A
  failed : ℕ → Response A

abbrev pub respond : {A : Type 0} → ℤ → Endpoint A → Response A
respond left (body a) = answered a left
respond left (api_error s) = failed s
respond left crashed = failed 500

module _ {Hash A : Type 0} ⦃e : Eq Hash⦄ ⦃t : Eq Text⦄ (digest : Text → Hash) where
  pub handle :
      ℕ
      → Option Text
      → Bool
      → Option Text
      → ℕ
      → (Text → Endpoint A)
      → Dict Text Window
      → Response A × Dict Text Window
  unfolding rate_limit
  handle rate env production given now fn windows =
      elim (authenticate digest env production given) [
        | err x ↦ (failed (status x), windows)
        | ok caller ↦
            let (verdict, windows') = rate_limit rate caller now windows in
            (
              elim verdict [ err x ↦ failed (status x) | ok left ↦ respond left (fn caller) ],
              windows',
            )
      ]
