-- ===== src/PartnerApi/Keys.antt =====
-- Who the front door lets in: `authenticate` of apps/web/src/lib/partner-api.ts.
use boundless_stock.Prelude.{
  ℕ, ◌≡◌, refl, ap, ◌⊎◌, inl, inr, arith, Bool, true, false, Option, none, some, List, [], ◌∷◌, ok,
  Eq, Has, Bool-cases,
}
use boundless_stock.PartnerApi.{
  Text, configured_keys, find_key, check_key, admit, found, authenticate, development,
}

module _ {Hash : Type 0} ⦃e : Eq Hash⦄ (digest : Text → Hash) where
  -- What the header may be for `authenticate` to give `name`: the text of a configured key.
  abbrev pub IsKeyOf : List (Text × Hash) → Option Text → Text → Type 0
  IsKeyOf keys none name = ⊥
  IsKeyOf keys (some s) name = Has (name, digest s) keys

  find_key-Has :
      (h : Hash) (keys : List (Text × Hash)) (name : Text)
      → find_key digest h keys ≡ some name
      → Has (name, h) keys
  unfolding find_key
  find_key-Has h [] name p = ground arith
  find_key-Has h ((n, k) ∷ ks) name p = ground (arith, e.beq_iff k h, find_key-Has h ks name)

  found-ok : (o : Option Text) (name : Text) → found o ≡ ok name → o ≡ some name
  found-ok none name p = ground arith
  found-ok (some n) name p = ground arith

  check_key-Has :
      (keys : List (Text × Hash)) (given : Option Text) (name : Text)
      → check_key digest keys given ≡ ok name
      → IsKeyOf keys given name
  check_key-Has keys none name p = ground arith
  check_key-Has keys (some []) name p = ground arith
  check_key-Has keys (some (c ∷ s)) name p = find_key-Has _ keys name (found-ok _ name p)

  admit-IsKeyOf :
      (keys : List (Text × Hash)) (production : Bool) (given : Option Text) (name : Text)
      → admit digest keys production given ≡ ok name
      → IsKeyOf keys given name ⊎ ((keys ≡ []) × (production ≡ false) × (name ≡ development))
  admit-IsKeyOf [] true given name p = ground arith
  admit-IsKeyOf [] false given name p = ground arith
  admit-IsKeyOf (k ∷ ks) production given name p = inl (check_key-Has (k ∷ ks) given name p)

  -- A header is accepted under a name only where that name is configured with the header's digest,
  -- or, with no keys configured and outside production, under the name "development".
  pub authenticate-IsKeyOf :
      (env : Option Text) (production : Bool) (given : Option Text) (name : Text)
      → authenticate digest env production given ≡ ok name
      → IsKeyOf (configured_keys digest env) given name
        ⊎ ((configured_keys digest env ≡ []) × (production ≡ false) × (name ≡ development))
  unfolding authenticate
  authenticate-IsKeyOf env production given name p =
      admit-IsKeyOf (configured_keys digest env) production given name p

  find_key-finds :
      (h : Hash) (keys : List (Text × Hash)) (name : Text)
      → Has (name, h) keys
      → (n : Text) × (find_key digest h keys ≡ some n)
  unfolding find_key
  find_key-finds h [] name x = elim x [ ]
  find_key-finds h ((n, k) ∷ ks) name (inl same) =
      (n, rw ((e.beq_iff k h).1 (ap (λ p. p.1) same)) refl)
  find_key-finds h ((n, k) ∷ ks) name (inr later) = elim (Bool-cases (e.beq k h)) [
    | inl same ↦ (n, rw same refl)
    | inr ne ↦ let (m, found_later) = find_key-finds h ks name later in (m, rw ne found_later)
  ]

  admit-configured :
      (keys : List (Text × Hash)) (production : Bool) (c : ℕ) (s name : Text)
      → Has (name, digest (c ∷ s)) keys
      → (n : Text) × (admit digest keys production (some (c ∷ s)) ≡ ok n)
  admit-configured [] production c s name h = elim h [ ]
  admit-configured (k ∷ ks) production c s name h =
      let (n, finds) = find_key-finds (digest (c ∷ s)) (k ∷ ks) name h in (n, ap found finds)

  -- A header that is the text of a configured key, and not empty, is accepted.
  pub authenticate-configured :
      (env : Option Text) (production : Bool) (c : ℕ) (s name : Text)
      → Has (name, digest (c ∷ s)) (configured_keys digest env)
      → (n : Text) × (authenticate digest env production (some (c ∷ s)) ≡ ok n)
  unfolding authenticate
  authenticate-configured env production c s name h =
      admit-configured (configured_keys digest env) production c s name h
