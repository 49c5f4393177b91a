-- ===== src/Solana/Table/Sample.antt =====
-- What one of the sample orders of `lookupTable` (infra/solana/client.ts) names, and what is its own.
use boundless_stock.Prelude.{
  ◌≡◌, refl, sym, subst, ap, ◌⊎◌, ◌↔◌, inl, inr, arith, false, some, List, [], ◌∷◌, ◌++◌, Has, ok,
  or_else, or_else-ok, bind-ok, ok-same, Eq,
}
use boundless_stock.Quote.{Side}
use boundless_stock.Solana.{thrown, AccountMeta, Instruction, Web3}
use boundless_stock.Solana.Accounts.{request_address, fee_escrow_address, partner_address}
use boundless_stock.Solana.Client.{Client, Net}
use boundless_stock.Solana.Orders.{BuiltInstructions, partner_instructions}
use boundless_stock.Solana.Table.{TableProgram, unsigned_keys, named_keys, last_of, fourth, sample}
use boundless_stock.Solana.Table.Extended.{Has-append}

module _ {Key : Type 0} ⦃e : Eq Key⦄ where
  -- An account that is passed without a signature.
  abbrev pub IsPassed : List (AccountMeta Key) → Key → Type 0
  IsPassed metas k =
      (m : AccountMeta Key) × (Has m metas × ((m.is_signer ≡ false) × (m.pubkey ≡ k)))

  -- A key that an instruction names: as its program, or as an account that does not sign.
  abbrev pub IsNamedBy : List (Instruction Key) → Key → Type 0
  IsNamedBy is k = (i : Instruction Key) × (Has i is × ((i.program_id ≡ k) ⊎ IsPassed i.keys k))

  unsigned_keys-cons :
      (k : Key) (m : AccountMeta Key) (metas : List (AccountMeta Key))
      → Has k (unsigned_keys (m ∷ metas))
        ↔ (((m.is_signer ≡ false) × (m.pubkey ≡ k)) ⊎ Has k (unsigned_keys metas))
  unsigned_keys-cons k m metas = ground arith

  unsigned_keys_iff :
      (k : Key) (metas : List (AccountMeta Key)) → Has k (unsigned_keys metas) ↔ IsPassed metas k
  unsigned_keys_iff k [] = (λ h. elim h [ ], λ (m, (h, s)). elim h [ ])
  unsigned_keys_iff k (m ∷ metas) =
      let (there, back) = unsigned_keys_iff k metas in
      let (split, join) = unsigned_keys-cons k m metas in
      (
        λ h. elim (split h) [
          | inl free ↦ (m, (inl refl, free))
          | inr h ↦ let (n, (has, rest)) = there h in (n, (inr has, rest))
        ],
        λ (n, (has, rest)). join (elim has [
          | inl p ↦
              inl (
                subst (λ (x : AccountMeta Key). (x.is_signer ≡ false) × (x.pubkey ≡ k)) (sym p)
                  rest)
          | inr h ↦ inr (back (n, (h, rest)))
        ]),
      )

  pub named_keys_iff :
      (k : Key) (is : List (Instruction Key)) → Has k (named_keys is) ↔ IsNamedBy is k
  named_keys_iff k [] = (λ h. elim h [ ], λ (i, (h, s)). elim h [ ])
  named_keys_iff k (i ∷ is) =
      let (there, back) = named_keys_iff k is in
      let (passed, listed) = unsigned_keys_iff k i.keys in
      let split = Has-append k (i.program_id ∷ unsigned_keys i.keys) (named_keys is) in
      (
        λ h. elim (split.0 h) [
          | inl (inl same) ↦ (i, (inl refl, inl same))
          | inl (inr h) ↦ (i, (inl refl, inr (passed h)))
          | inr h ↦ let (j, (has, rest)) = there h in (j, (inr has, rest))
        ],
        λ (j, (has, rest)). split.1 (elim has [
          | inl p ↦ inl (
              subst
                (λ (x : Instruction Key).
                  ((x.program_id ≡ k) ⊎ IsPassed x.keys k)
                  → Has k (i.program_id ∷ unsigned_keys i.keys))
                p (λ r. elim r [ inl same ↦ inl same | inr h ↦ inr (listed h) ]) rest)
          | inr h ↦ inr (back (j, (h, rest)))
        ]),
      )

  -- The last of some instructions stands behind all others.
  last_of-append :
      (is : List (Instruction Key)) (main : Instruction Key)
      → last_of is ≡ some main
      → (front : List (Instruction Key)) × (is ≡ front ++ (main ∷ []))
  last_of-append [] main p = ground arith
  last_of-append (i ∷ []) main p = ([], ground arith)
  last_of-append (i ∷ j ∷ is) main p =
      let (front, behind) = last_of-append (j ∷ is) main p in (i ∷ front, ap (λ l. i ∷ l) behind)

  fourth-some :
      (metas : List (AccountMeta Key)) (k : Key)
      → fourth metas ≡ some k
      → (x y z m : AccountMeta Key) × ((rest : List (AccountMeta Key)) × ((metas
              ≡ x ∷ y ∷ z ∷ m ∷ rest)
            × (m.pubkey ≡ k)))
  fourth-some [] k p = ground arith
  fourth-some (x ∷ []) k p = ground arith
  fourth-some (x ∷ y ∷ []) k p = ground arith
  fourth-some (x ∷ y ∷ z ∷ []) k p = ground arith
  fourth-some (x ∷ y ∷ z ∷ m ∷ rest) k p = (x, y, z, m, (rest, (refl, ground arith)))

module _ {Key : Type 0} ⦃e : Eq Key⦄ (web3 : Web3 Key) (c : Client Key) (net : Net Key)
    (user partner : Key) where
  -- A sample order of partner 1, for a million units at no fee, with the accounts that are of it alone:
  -- `nonce` is the fourth account of its last instruction.
  pub record SampleOrder (side : Side) : Type 0 where
    pub built : BuiltInstructions Key
    pub request : Key
    pub escrow : Key
    pub account : Key
    pub nonce : Key
    pub is_built :
        partner_instructions web3 c net user partner 1 0 side 1000000 1 (b'0' ∷ b'x' ∷ [])
        ≡ ok built
    pub is_request : request_address web3 c.program built.request_id ≡ ok request
    pub is_escrow : fee_escrow_address web3 c.program built.request_id ≡ ok escrow
    pub is_account : partner_address web3 c.program 1 ≡ ok account
    pub is_nonce :
        (front : List (Instruction Key)) × ((main : Instruction Key) × ((built.instructions
              ≡ front ++ (main ∷ []))
            × ((x y z m : AccountMeta Key) × ((rest : List (AccountMeta Key)) × ((main.keys
                      ≡ x ∷ y ∷ z ∷ m ∷ rest)
                    × (m.pubkey ≡ nonce))))))

  abbrev pub IsOwnOf : {side : Side} → SampleOrder side → Key → Type 0
  IsOwnOf o k = (o.request ≡ k) ⊎ (o.escrow ≡ k) ⊎ (o.account ≡ k) ⊎ (o.nonce ≡ k)

  -- The keys of a sample: those that are its own, and those that it names.
  abbrev pub IsSample : (side : Side) → List Key × List Key → Type 0
  IsSample side keys =
      (o : SampleOrder side) × ((k : Key) → Has k keys.0 ↔ IsOwnOf o k)
      × ((k : Key) → Has k keys.1 ↔ IsNamedBy o.built.instructions k)

module _ {Key Table : Type 0} ⦃e : Eq Key⦄ (web3 : Web3 Key) (c : Client Key) (net : Net Key)
    (tables : TableProgram Key Table) (user partner : Key) where
  pub sample-SampleOrder :
      (side : Side) (keys : List Key × List Key)
      → sample web3 c net tables user partner side ≡ ok keys
      → IsSample web3 c net user partner side keys
  sample-SampleOrder side keys p =
      bind-ok (partner_instructions web3 c net user partner 1 0 side 1000000 1 (b'0' ∷ b'x' ∷ [])) p
        λ b is_b p. bind-ok (request_address web3 c.program b.request_id) p λ request is_request p.
          bind-ok (fee_escrow_address web3 c.program b.request_id) p λ escrow is_escrow p.
            bind-ok (partner_address web3 c.program 1) p λ account is_account p.
              bind-ok (or_else thrown (last_of b.instructions)) p λ main is_main p.
                bind-ok (or_else thrown (fourth main.keys)) p λ nonce is_fourth same.
                  let (front, behind) =
                    last_of-append b.instructions main (or_else-ok thrown _ main is_main) in
                  ok-same (IsSample web3 c net user partner side)
                    (request ∷ escrow ∷ account ∷ nonce ∷ [], named_keys b.instructions) keys
                    (
                      record {
                        built = b;
                        request = request;
                        escrow = escrow;
                        account = account;
                        nonce = nonce;
                        is_built = is_b;
                        is_request = is_request;
                        is_escrow = is_escrow;
                        is_account = is_account;
                        is_nonce = (
                          front,
                          (
                            main,
                            (
                              behind,
                              fourth-some main.keys nonce (or_else-ok thrown _ nonce is_fourth),
                            ),
                          ),
                        );
                      },
                      λ k. ground arith,
                      λ k. named_keys_iff k b.instructions,
                    )
                    same
