-- ===== src/Solana/Mint.antt =====
-- Which mints are adapted: `mintExtensions` and `tokenProgramOfMint` of infra/solana/token.ts, and
-- `checkExistingMint` of infra/solana/setup.ts.
pub mod Extensions
pub mod Accepted
mod Tests
use boundless_stock.Prelude.{
  ℕ, zero, suc, ◌+◌, Bool, true, false, not, ◌&&◌, ◌||◌, Option, none, some, List, [], ◌∷◌, length,
  take, drop, leb, ◌==◌, either, if◌then◌else◌, Result, ok, err, ◌>>=◌, throw_if, or_else, Eq,
}
use boundless_stock.Prelude.Bytes.{Bytes, little_endian, byte_at}
use boundless_stock.Solana.{Web3}

pub data MintError : Type 0 where
  thrown no_mint not_a_token_mint refused_extensions wrong_decimals stuck : MintError

pub record Account (Key : Type 0) : Type 0 where
  pub owner : Key
  pub data' : Bytes

-- `data.readUInt16LE(o)`, in range wherever the loop reads.
abbrev pub u16_at : Bytes → ℕ → ℕ
u16_at d o = little_endian (take 2 (drop o d))

abbrev pub push : ℕ → Option (List ℕ) → Option (List ℕ)
push kind none = none
push kind (some kinds) = some (kind ∷ kinds)

-- One round: whether there is room for an entry, whether its type is 0, its type, and what follows.
abbrev pub extension_round : Bool → Bool → ℕ → Option (List ℕ) → Option (List ℕ)
extension_round false ended kind rest = some []
extension_round true true kind rest = some []
extension_round true false kind rest = push kind rest

-- The loop; `none` where the fuel runs out.
unfoldable pub extensions_from : ℕ → Bytes → ℕ → Option (List ℕ)
extensions_from zero d o = none
extensions_from (suc fuel) d o =
    extension_round (leb (o + 4) (length d)) (u16_at d o == 0) (u16_at d o)
      (extensions_from fuel d (o + (4 + u16_at d (o + 2))))

pub mint_extensions : Bytes → Option (List ℕ)
mint_extensions d = either (leb (length d) 166) (extensions_from (suc (length d)) d 166) (some [])

-- The keys of `REFUSED_EXTENSIONS`.
abbrev pub is_refused : ℕ → Bool
is_refused k = k == 1 || (k == 6 || (k == 9 || (k == 12 || (k == 14 || k == 16))))

abbrev pub any_refused : List ℕ → Bool
any_refused [] = false
any_refused (k ∷ ks) = is_refused k || any_refused ks

abbrev pub is_byte : Option ℕ → ℕ → Bool
is_byte none n = false
is_byte (some b) n = b == n

module _ {Key : Type 0} ⦃e : Eq Key⦄ (web3 : Web3 Key) where
  abbrev pub is_token_program : Key → Bool
  is_token_program owner = e.beq owner web3.token_program || e.beq owner web3.token_2022_program

  pub token_program_of_mint : Result MintError (Option (Account Key)) → Result MintError Key
  token_program_of_mint account_info = account_info >>= or_else no_mint >>= λ info.
      throw_if (not (is_token_program info.owner)) not_a_token_mint >>= λ _. ok info.owner

  abbrev pub check_extensions : Bool → Bytes → Result MintError (Unit {0})
  check_extensions false d = ok tt
  check_extensions true d =
      or_else stuck (mint_extensions d) >>= λ kinds. throw_if (any_refused kinds) refused_extensions

  pub check_existing_mint : Result MintError (Option (Account Key)) → ℕ → Result MintError Key
  check_existing_mint account_info decimals = account_info >>= or_else no_mint >>= λ info.
      throw_if (not (is_token_program info.owner)) not_a_token_mint >>= λ _.
      check_extensions (e.beq info.owner web3.token_2022_program) info.data' >>= λ _.
      throw_if (not (is_byte (byte_at 44 info.data') decimals)) wrong_decimals >>= λ _.
      ok info.owner
