-- ===== src/Solana/Table/Sent.antt =====
-- What a new lookup table is sent.
use boundless_stock.Prelude.{
  ◌≤◌, ◌≡◌, ◌≢◌, ap, ok-injective, ◌⊎◌, ◌↔◌, arith, List, [], ◌∷◌, ◌++◌, map, length, All, Has,
  or_else, ok, bind-ok, ok-same, Eq, subst, sym,
}
use boundless_stock.Quote.{Side, buy, sell}
use boundless_stock.Solana.{thrown, Instruction, Web3, ata_of}
use boundless_stock.Solana.Client.{Client, Net}
use boundless_stock.Solana.Orders.{program_of}
use boundless_stock.Solana.Table.{
  TableProgram, add_all, table_addresses, slices, sample, user_accounts, order_addresses,
  create_table,
}
use boundless_stock.Solana.Table.Extended.{
  joined, slices-joined, IsDistinct, Has-append, add_all_iff, add_all-IsDistinct,
  table_addresses_iff, table_addresses-IsDistinct,
}
use boundless_stock.Solana.Table.Sample.{SampleOrder, IsNamedBy, IsOwnOf, sample-SampleOrder}

module _ {Key Table : Type 0} ⦃e : Eq Key⦄ (web3 : Web3 Key) (c : Client Key) (net : Net Key)
    (tables : TableProgram Key Table) (user partner : Key) where
  abbrev pub SampleOf : Side → Type 0
  SampleOf = SampleOrder web3 c net user partner

  -- A key that one of two sample orders names, and that is of neither of them alone, nor the user's.
  abbrev pub IsLasting : SampleOf buy → SampleOf sell → Key → Type 0
  IsLasting b s k =
      (IsNamedBy b.built.instructions k ⊎ IsNamedBy s.built.instructions k)
      × (¬ IsOwnOf web3 c net user partner b k)
      × (¬ IsOwnOf web3 c net user partner s k)
      × (ata_of web3 user c.base.mint (program_of web3 c.base) ≢ k)
      × (ata_of web3 user c.quote.mint (program_of web3 c.quote) ≢ k)
      × (k ≢ user)

  abbrev pub IsForOrders : List Key → Type 0
  IsForOrders addresses =
      (b : SampleOf buy) × (s : SampleOf sell) × IsDistinct addresses
      × ((k : Key) → Has k addresses ↔ IsLasting b s k)

  order_addresses-IsForOrders :
      (addresses : List Key)
      → order_addresses web3 c net tables user partner ≡ ok addresses
      → IsForOrders addresses
  unfolding order_addresses
  order_addresses-IsForOrders addresses p =
      bind-ok (sample web3 c net tables user partner buy) p λ b is_b p.
        bind-ok (sample web3 c net tables user partner sell) p λ s is_s same.
          let bs = sample-SampleOrder web3 c net tables user partner buy b is_b in
          let ss = sample-SampleOrder web3 c net tables user partner sell s is_s in
          let accounts = user_accounts web3 c net tables user partner in
          let own = b.0 ++ (s.0 ++ accounts) in
          let named = add_all (s.1) (add_all (b.1) []) in
          ok-same IsForOrders (table_addresses own user named) addresses
            (
              bs.0,
              ss.0,
              table_addresses-IsDistinct own user named
                  (add_all-IsDistinct (s.1) _ (add_all-IsDistinct (b.1) [] tt)),
              λ k. ground (
                arith,
                table_addresses_iff own user named k,
                add_all_iff k (s.1) (add_all (b.1) []),
                add_all_iff k (b.1) [],
                Has-append k (b.0) (s.0 ++ accounts),
                Has-append k (s.0) accounts,
                bs.1 k,
                bs.2 k,
                ss.1 k,
                ss.2 k,
              ),
            )
            same

  -- Where a table is made: it is created, and extended by transactions of at most twenty addresses each,
  -- which are, together and each once, the programs and the accounts that do not sign which an
  -- instruction of a sample purchase or of a sample sale names, but for the request, the fee escrow,
  -- the partner's account and the nonce index of either order, the user's two token accounts and the
  -- user.
  pub create_table-sent :
      (table : Table) (sent : List (Instruction Key))
      → create_table web3 c net tables user partner ≡ ok (table, sent)
      → (create : Instruction Key) × (key : Key) × (parts : List (List Key)) × (tables.create
          ≡ ok (create, key))
        × (sent ≡ create ∷ map (tables.extend key) parts)
        × All (λ part. length part ≤ 20) parts
        × IsForOrders (joined parts)
  create_table-sent table sent p =
      bind-ok (order_addresses web3 c net tables user partner) p λ addresses found p.
        bind-ok (tables.create) p λ made is_made p. bind-ok (tables.get_table (made.1)) p λ t _ p.
          bind-ok (or_else thrown t) p λ u _ same.
            let parts = slices-joined addresses in
            (
              made.0,
              made.1,
              slices addresses,
              is_made,
              ap (λ x. x.1) (sym (ok-injective same)),
              parts.1,
              subst IsForOrders (sym (parts.0)) (order_addresses-IsForOrders addresses found),
            )
