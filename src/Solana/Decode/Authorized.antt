-- ===== src/Solana/Decode/Authorized.antt =====
-- What a transaction is where `authorizeSolanaOrder` co-signs it.
use boundless_stock.Prelude.{
  ℕ, ◌≡◌, refl, sym, ap, subst, ◌∙◌, ◌↔◌, arith, Bool, true, not, Option, none, some, List, [], ◌∷◌,
  length, take, Has, ◌==◌, ==_iff, ok, throw_if, throw_if-ok, bind-ok, or_else, or_else-ok, Eq,
}
use boundless_stock.Prelude.Int.{ℤ, pos, ◌≤ℤ◌}
use boundless_stock.Prelude.Bytes.{Bytes}
use boundless_stock.Quote.{Side, buy, sell}
use boundless_stock.Solana.Decode.{
  ApprovalError, thrown, user_mismatch, side_mismatch, amount_mismatch, fee_mismatch, not_a_signer,
  Message, DecodedOrder, Expected, key_of, same_side, is_amount, one_call, check_least, calls,
  includes, decode_partner_order, check_order, authorize_solana_order,
}
use boundless_stock.Solana.Decode.Calls.{
  IsOnlyCall, calls-IsOnlyCall, only_call-calls, no_program, one_call-ok,
}
use boundless_stock.Solana.Decode.Approved.{IsOrderData, IsDecoded, decode_data_iff}

abbrev pub IsLeast : Option (Option ℤ) → ℕ → Type 0
IsLeast none got = Unit
IsLeast (some none) got = ⊥
IsLeast (some (some z)) got = z ≤ℤ pos got

same_side_iff : (a b : Side) → (same_side a b ≡ true) ↔ (a ≡ b)
same_side_iff buy buy = ground arith
same_side_iff buy sell = ground arith
same_side_iff sell buy = ground arith
same_side_iff sell sell = ground arith

is_amount_iff : (n : ℕ) (z : ℤ) → (is_amount n z ≡ true) ↔ (pos n ≡ z)
is_amount_iff n z = ground (arith, ==_iff n)

check_least_iff :
    (least : Option (Option ℤ)) (got : ℕ) → (check_least least got ≡ ok tt) ↔ IsLeast least got
check_least_iff none got = ground arith
check_least_iff (some none) got = ground arith
check_least_iff (some (some z)) got = ground arith

-- A check that did not throw.
given :
    {P : Type 0} (b : Bool) (x : ApprovalError) → throw_if (not b) x ≡ ok tt → (b ≡ true) ↔ P → P
given b x p h = ground (arith, throw_if-ok (not b) x tt p)

passes :
    {P : Type 0} (b : Bool) (x : ApprovalError) → P → (b ≡ true) ↔ P → throw_if (not b) x ≡ ok tt
passes b x p h = rw (h.1 p) refl

module _ {Key : Type 0} ⦃e : Eq Key⦄ where
  -- The decoded order is the one that was approved.
  abbrev pub IsAsked : DecodedOrder Key → Expected Key → Type 0
  IsAsked got x =
      (x.user ≡ some got.fee_payer)
      × (got.side ≡ x.side)
      × (x.amount_in ≡ some (pos got.amount_in))
      × (got.fee_bps ≡ x.fee_bps)
      × IsLeast x.min_amount_out got.min_amount_out

  check_order-ok :
      (got : DecodedOrder Key) (x : Expected Key) → check_order got x ≡ ok tt → IsAsked got x
  check_order-ok got x p = bind-ok (or_else thrown x.user) p λ user is_user p.
      bind-ok (throw_if (not (e.beq got.fee_payer user)) user_mismatch) p λ _ same_user p.
        bind-ok (throw_if (not (same_side got.side x.side)) side_mismatch) p λ _ same p.
          bind-ok (or_else thrown x.amount_in) p λ amount is_it p.
            bind-ok (throw_if (not (is_amount got.amount_in amount)) amount_mismatch) p
              λ _ same_amount p.
                bind-ok (throw_if (not (got.fee_bps == x.fee_bps)) fee_mismatch) p λ _ same_fee p. (
                  or_else-ok thrown x.user user is_user
                      ∙ ap some (sym (given _ _ same_user (e.beq_iff _ _))),
                  given _ _ same (same_side_iff _ _),
                  or_else-ok thrown x.amount_in amount is_it
                      ∙ ap some (sym (given _ _ same_amount (is_amount_iff _ _))),
                  given _ _ same_fee (==_iff _ _),
                  (check_least_iff x.min_amount_out got.min_amount_out).0 p,
                )

  check_order_iff :
      (got : DecodedOrder Key) (x : Expected Key) → (check_order got x ≡ ok tt) ↔ IsAsked got x
  check_order_iff got x = (
    check_order-ok got x,
    λ (u, s, a, f, l).
        rw
          (
            u,
            passes (e.beq got.fee_payer got.fee_payer) user_mismatch refl (e.beq_iff _ _),
            passes (same_side got.side x.side) side_mismatch s (same_side_iff _ _),
            a,
            passes (is_amount got.amount_in (pos got.amount_in)) amount_mismatch refl
                (is_amount_iff _ _),
            passes (got.fee_bps == x.fee_bps) fee_mismatch f (==_iff _ _),
          )
          ((check_least_iff x.min_amount_out got.min_amount_out).1 l),
  )

  includes_iff : (k : Key) (ks : List Key) → (includes k ks ≡ true) ↔ Has k ks
  includes_iff k [] = ground arith
  includes_iff k (j ∷ ks) = ground (arith, e.beq_iff j k, includes_iff k ks)

  -- The transaction's one call of the program is the order that was asked for, paid by its user, and the
  -- partner is among those that must sign.
  abbrev pub IsApproval : Bytes → Message Key → Key → Expected Key → Type 0
  IsApproval disc m partner x =
      (p : Key) × (user : Key) × (data' : Bytes) × (amount : ℕ) × (least : ℕ) × (x.program ≡ some p)
      × (x.user ≡ some user)
      × (x.amount_in ≡ some (pos amount))
      × IsLeast x.min_amount_out least
      × IsOnlyCall m.static_keys p data' m.compiled
      × IsOrderData disc data' x.side amount least x.fee_bps
      × (key_of 0 m.static_keys ≡ some user)
      × Has partner (take m.required m.static_keys)

  decode_partner_order-ok :
      (disc : Bytes) (m : Message Key) (program : Option Key) (got : DecodedOrder Key)
      → length disc ≡ 8
      → decode_partner_order disc m program ≡ ok got
      → (p : Key) × (data' : Bytes) × (program ≡ some p)
        × IsOnlyCall m.static_keys p data' m.compiled
        × IsDecoded disc m.static_keys data' got
  unfolding decode_partner_order
  decode_partner_order-ok disc m none got size p =
      bind-ok (one_call (calls m.static_keys none m.compiled)) p λ d one _.
        let nothing : calls m.static_keys none m.compiled ≡ [] =
          no_program m.static_keys m.compiled in
        let one = one_call-ok (calls m.static_keys none m.compiled) d one in ground arith
  decode_partner_order-ok disc m (some k) got size p =
      bind-ok (one_call (calls m.static_keys (some k) m.compiled)) p λ d one decoded. (
        k,
        d,
        refl,
        calls-IsOnlyCall m.static_keys k d m.compiled (one_call-ok _ d one),
        (decode_data_iff disc m.static_keys d got size).0 decoded,
      )

  module _ {Signed : Type 0} (disc : Bytes) (sign : Message Key → Signed) (m : Message Key)
      (partner : Key) (x : Expected Key) where
    authorize_solana_order-ok :
        (s : Signed)
        → length disc ≡ 8
        → authorize_solana_order disc sign m partner x ≡ ok s
        → IsApproval disc m partner x
    unfolding authorize_solana_order
    authorize_solana_order-ok s size p =
        bind-ok (decode_partner_order disc m x.program) p λ got is_got p.
          bind-ok (check_order got x) p λ _ asked p.
            bind-ok (throw_if (not (includes partner (take m.required m.static_keys))) not_a_signer)
              p
              λ _ signs _.
                let r = decode_partner_order-ok disc m x.program got size is_got in
                let q = check_order-ok got x asked in
                let data' =
                  subst (λ s. IsOrderData disc (r.1) s got.amount_in got.min_amount_out x.fee_bps)
                    q.1
                    (subst (λ f. IsOrderData disc (r.1) got.side got.amount_in got.min_amount_out f)
                      q.3 (r.4).0) in
                (
                  r.0,
                  got.fee_payer,
                  r.1,
                  got.amount_in,
                  got.min_amount_out,
                  r.2,
                  q.0,
                  q.2,
                  q.4,
                  r.3,
                  data',
                  (r.4).1,
                  given _ _ signs (includes_iff partner (take m.required m.static_keys)),
                )

    authorize_solana_order-IsApproval :
        length disc ≡ 8
        → IsApproval disc m partner x
        → authorize_solana_order disc sign m partner x ≡ ok (sign m)
    unfolding authorize_solana_order decode_partner_order
    authorize_solana_order-IsApproval size
          (
            p, user, d, amount, least, program, is_user, is_amount, is_least, only, data', head,
            signs,
          ) =
        let got : DecodedOrder Key = record {
          side = x.side;
          amount_in = amount;
          min_amount_out = least;
          fee_bps = x.fee_bps;
          fee_payer = user;
        } in
        let (before, i, after, split, b, call, a) = only in
        let one : calls m.static_keys x.program m.compiled ≡ d ∷ [] =
          rw (program, split) (only_call-calls m.static_keys p d before i after b call a) in
        rw
          (
            one,
            (decode_data_iff disc m.static_keys d got size).1 (data', head),
            (check_order_iff got x).1 (is_user, refl, is_amount, refl, is_least),
            passes (includes partner (take m.required m.static_keys)) not_a_signer signs
                (includes_iff partner (take m.required m.static_keys)),
          )
          refl

    -- For a discriminator of eight bytes: a transaction is co-signed exactly where one of its
    -- instructions, and no other, calls the program; its data are a partner order of the side, amount and
    -- fee that were asked for, with any options and messaging fee and at least the least amount out, if
    -- one was given; the user pays for it; and the partner is among those that must sign.
    pub authorize_solana_order_iff :
        length disc ≡ 8
        → (authorize_solana_order disc sign m partner x ≡ ok (sign m)) ↔ IsApproval disc m partner x
    authorize_solana_order_iff size =
        (authorize_solana_order-ok (sign m) size, authorize_solana_order-IsApproval size)
