-- ===== src/Orders/Build/Signed.antt =====
-- What a user is given to sign, and when a partner's authorization is accepted: `buildOrder` of
-- infra/api/orders.ts.
use boundless_stock.Prelude.{
  ℕ, ◌<◌, ◌≡◌, ◌↔◌, ◌⊎◌, inl, inr, refl, sym, subst, arith, Bool, Bool-cases, true, false, not,
  Option, none, some, List, leb, ltb, leb→lt, All, ok, ◌>>=◌, throw_if, or_else, or_else-ok,
  bind-ok, ok-same, throw_if-ok,
}
use boundless_stock.Prelude.Int.{ℤ, pos}
use boundless_stock.Quote.{Side, buy, sell}
use boundless_stock.Orders.Build.Data.{
  invalid_user, invalid_authorization, authorization_expired, nonce_used, Text, Authorization,
  CallData, approve, order, order_via, Transaction, PartnerOrder, EvmMirror,
}
use boundless_stock.Orders.Build.{
  recovers, check_signature, check_authorization, is_malformed, order_of, auth_of, via, order_call,
  fee_value, token_in, transactions, build_evm,
}

-- What a user asked for.
pub record Terms : Type 0 where
  pub user : Option ℕ
  pub side : Side
  pub amount : ℕ
  pub least : ℕ
  pub partner : Option ℕ
  pub fee : ℕ

module _ (m : EvmMirror) (now : ℕ) where
  -- The signer is a contract, or the signature over this very order is its own.
  abbrev pub IsSignedBy : PartnerOrder → Text → ℕ → Type 0
  IsSignedBy o signature signer =
      (m.has_code signer ≡ ok true)
      ⊎ ((m.has_code signer ≡ ok false)
          × ((digest : ℕ) × ((m.hash_order o ≡ ok digest)
                × (m.recover digest signature ≡ some signer))))

  -- An order that its partner has authorized and that the mirror will take.
  abbrev pub IsAuthorized : PartnerOrder → Text → Type 0
  IsAuthorized o signature =
      (now < o.deadline)
      × (m.nonce_used o.partner_id o.nonce ≡ ok false)
      × ((signer : ℕ) × ((m.signer_of o.partner_id ≡ ok signer) × IsSignedBy o signature signer))

  recovers_iff : (a : Option ℕ) (signer : ℕ) → (not (recovers a signer) ≡ false) ↔ (a ≡ some signer)
  recovers_iff none signer = ground arith
  recovers_iff (some a) signer = ground arith

  check_signature-IsSignedBy :
      (o : PartnerOrder) (signature : Text) (signer : ℕ) (code : Bool)
      → m.has_code signer ≡ ok code
      → check_signature m now code o signature signer ≡ ok tt
      → IsSignedBy o signature signer
  check_signature-IsSignedBy o signature signer true c p = inl c
  check_signature-IsSignedBy o signature signer false c p =
      bind-ok (m.hash_order o) p λ digest hashed p. inr (
        c,
        (
          digest,
          (
            hashed,
            (recovers_iff (m.recover digest signature) signer).0
                (throw_if-ok _ invalid_authorization tt p),
          ),
        ),
      )

  check_authorization-IsAuthorized :
      (o : PartnerOrder) (signature : Text)
      → check_authorization m now o signature ≡ ok tt
      → IsAuthorized o signature
  unfolding check_authorization
  check_authorization-IsAuthorized o signature p =
      bind-ok (throw_if (leb o.deadline now) authorization_expired) p λ u in_time p.
        bind-ok (m.nonce_used o.partner_id o.nonce) p λ used read p.
          bind-ok (throw_if used nonce_used) p λ u' unused p.
            bind-ok (m.signer_of o.partner_id) p λ signer known p.
              bind-ok (m.has_code signer) p λ code coded p. (
                leb→lt _ _ (throw_if-ok _ authorization_expired u in_time),
                subst (λ b. m.nonce_used o.partner_id o.nonce ≡ ok b)
                    (throw_if-ok used nonce_used u' unused) read,
                (signer, (known, check_signature-IsSignedBy o signature signer code coded p)),
              )

  signed-check :
      (o : PartnerOrder) (signature : Text) (signer : ℕ)
      → IsSignedBy o signature signer
      → (m.has_code signer >>= λ code. check_signature m now code o signature signer) ≡ ok tt
  signed-check o signature signer (inl c) = rw c refl
  signed-check o signature signer (inr (c, (digest, (hashed, own)))) =
      rw (c, hashed, (recovers_iff (m.recover digest signature) signer).1 own) refl

  not_late : (a b : ℕ) → a < b → leb b a ≡ false
  not_late a b h = ground arith

  IsAuthorized-check :
      (o : PartnerOrder) (signature : Text)
      → IsAuthorized o signature
      → check_authorization m now o signature ≡ ok tt
  unfolding check_authorization
  IsAuthorized-check o signature (in_time, unused, (signer, (known, own))) =
      rw (not_late now o.deadline in_time, unused, known) (signed-check o signature signer own)

  -- The checks on a partner's authorization pass exactly where the deadline is ahead, the nonce is
  -- unused, and the partner's registered signer is a contract or has signed this very order.
  pub check_authorization_iff :
      (o : PartnerOrder) (signature : Text)
      → (check_authorization m now o signature ≡ ok tt) ↔ IsAuthorized o signature
  check_authorization_iff o signature =
      (check_authorization-IsAuthorized o signature, IsAuthorized-check o signature)

  -- The token that an order of a side pays in.
  abbrev pub sold : Side → ℕ
  sold s = elim s [ buy ↦ m.quote_asset | sell ↦ m.stock ]

  token_in-sold : (s : Side) → token_in m now s ≡ sold s
  token_in-sold buy = refl
  token_in-sold sell = refl

  -- What a transaction does for the user's order and nothing else.
  abbrev pub IsOwn : Terms → ℕ → CallData → ℤ → Type 0
  IsOwn q to (approve spender n) value =
      (spender ≡ m.request) × (n ≡ q.amount) × (to ≡ sold q.side) × (value ≡ pos 0)
  IsOwn q to (order s n l) value =
      (s ≡ q.side) × (n ≡ q.amount) × (l ≡ q.least) × (to ≡ m.request) × (q.partner ≡ none)
  IsOwn q to (order_via s n l a) value =
      (s ≡ q.side)
      × (n ≡ q.amount)
      × (l ≡ q.least)
      × (to ≡ m.request)
      × ((o : PartnerOrder) × ((a.partner_id ≡ o.partner_id)
            × (a.fee_bps ≡ o.fee_bps)
            × (a.nonce ≡ o.nonce)
            × (a.deadline ≡ o.deadline)
            × (q.user ≡ some o.user)
            × (o.side ≡ q.side)
            × (o.amount_in ≡ q.amount)
            × (o.min_amount_out ≡ q.least)
            × (q.partner ≡ some o.partner_id)
            × (o.fee_bps ≡ q.fee)
            × IsAuthorized o a.signature))

  abbrev pub IsOwnTransaction : Terms → Transaction → Type 0
  IsOwnTransaction q t = IsOwn q t.to t.call t.value

  abbrev terms : ℕ → Side → ℕ → ℕ → Option ℕ → ℕ → Terms
  terms user side amount least partner fee = record {
    user = some user;
    side = side;
    amount = amount;
    least = least;
    partner = partner;
    fee = fee;
  }

  via-IsOwn :
      (user : ℕ) (side : Side) (amount least partner fee : ℕ) (a : Option Authorization)
      (call : CallData) (value : ℤ)
      → via m now user side amount least partner fee a ≡ ok call
      → IsOwn (terms user side amount least (some partner) fee) m.request call value
  via-IsOwn user side amount least partner fee none call value p = ground arith
  via-IsOwn user side amount least partner fee (some a) call value p =
      let o = order_of m now user side amount least partner fee a in
      bind-ok (throw_if (is_malformed m now a) invalid_authorization) p λ _ _ p.
        bind-ok (check_authorization m now o a.signature) p λ u authorized p.
          ok-same (λ c. IsOwn (terms user side amount least (some partner) fee) m.request c value)
            (order_via side amount least (auth_of m now o a.signature)) call
            (
              refl,
              refl,
              refl,
              refl,
              (
                o,
                (
                  refl,
                  refl,
                  refl,
                  refl,
                  refl,
                  refl,
                  refl,
                  refl,
                  refl,
                  refl,
                  check_authorization-IsAuthorized o a.signature authorized,
                ),
              ),
            )
            p

  order_call-IsOwn :
      (user : ℕ) (side : Side) (amount least : ℕ) (partner : Option ℕ) (fee : ℕ)
      (a : Option Authorization) (call : CallData) (value : ℤ)
      → order_call m now user side amount least partner fee a ≡ ok call
      → IsOwn (terms user side amount least partner fee) m.request call value
  order_call-IsOwn user side amount least none fee a call value p =
      ok-same (λ c. IsOwn (terms user side amount least none fee) m.request c value)
        (order side amount least) call (refl, refl, refl, refl, refl) p
  order_call-IsOwn user side amount least (some partner) fee a call value p =
      via-IsOwn user side amount least partner fee a call value p

  transactions-IsOwn :
      (allowance : ℕ) (q : Terms) (call : CallData) (value : ℤ)
      → IsOwn q m.request call value
      → All (IsOwnTransaction q) (transactions m now allowance q.side q.amount call value)
  transactions-IsOwn allowance q call value own = elim (Bool-cases (ltb allowance q.amount)) [
    | inl short ↦ rw short ((refl, refl, token_in-sold q.side, refl), (own, tt))
    | inr enough ↦ rw enough (own, tt)
  ]

  -- Whatever the mirror answers, the transactions that a user is given to sign do the order that was
  -- asked for and nothing else: an approval is of exactly the amount, to the mirror's contract; an
  -- order is of this side, amount and least amount out; it is without a partner only where none was
  -- asked for, and else carries an authorization of this user, side, amounts, partner and fee that
  -- passes its checks.
  pub build_evm-IsOwn :
      (q : Terms) (a : Option Authorization) (messaging : Option (Option ℤ)) (ts : List Transaction)
      → build_evm m now q.user q.side q.amount q.least q.partner q.fee a messaging ≡ ok ts
      → All (IsOwnTransaction q) ts
  unfolding build_evm
  build_evm-IsOwn q a messaging ts p = bind-ok (or_else invalid_user q.user) p λ user known p.
      bind-ok (order_call m now user q.side q.amount q.least q.partner q.fee a) p λ call called p.
        bind-ok (fee_value m now messaging q.side q.amount q.least) p λ value _ p.
          bind-ok (m.allowance (token_in m now q.side) user m.request) p λ allowance _ p.
            ok-same (All (IsOwnTransaction q))
              (transactions m now allowance q.side q.amount call value) ts
              (transactions-IsOwn allowance q call value (
                subst (λ x. IsOwn (record q { user = x }) m.request call value)
                  (sym (or_else-ok invalid_user q.user user known))
                  (order_call-IsOwn user q.side q.amount q.least q.partner q.fee a call value
                    called)))
              p
