-- ===== src/DaoCoin/Checks/Balance.antt =====
-- What `validateTransactorSellingCoinBalance` (routes/dao_coin_exchange.go) weighs against the
-- transactor's balance.
use deso_backend.Base.{
  ℕ, ◌+◌, ◌≤◌, ◌<◌, ◌^◌, ◌≡◌, ◌≢◌, ◌⊎◌, inl, inr, refl, sym, ap, ◌∙◌, true, List, [], ◌∷◌, Bytes,
  bytes_eq, bytes_eq_refl, bytes_eq→eq, Bool-cases, Option, none, some, ok, err, or_fail, passed,
  after_step, value_of_or_fail, arith, ltb, if◌then◌else◌,
}
use deso_backend.Core.{Core, OrderEntry}
use deso_backend.DaoCoin.Types.{
  Error, external, bad_public_key, balance_not_found, insufficient_balance, is_deso,
  deso_coin_identifier_string, operation_type_string_ask, operation_type_string_bid,
}
use deso_backend.DaoCoin.Checks.{
  is_same_pair, add_open_orders, new_order_selling, selling_balance,
  validate_transactor_selling_coin_balance, buying_coin_pkid, or_error,
}
use deso_backend.DaoCoin.Book.{get_pkid_from_public_key_base58_check}
use deso_backend.DaoCoin.Book.Coins.{
  is_deso-eq, is_deso-ne, deso_is_deso, other_is_not_deso, IsPkidOf, pkid-IsPkidOf, IsPkidOf-pkid,
  IsCoinPkid,
}

value_of_or_error :
    {A : Type 0} (o : Option A) (e : Error) {a : A} → or_error o e ≡ ok a → o ≡ some a
value_of_or_error none e h = absurd cc
value_of_or_error (some b) e h = cc h

module _ (c : Core) (buying_pkid selling_pkid : Bytes) where
  abbrev pub IsOfPair : OrderEntry → Type 0
  IsOfPair order =
      (order.buying_dao_coin_creator_pkid ≡ buying_pkid)
      × (order.selling_dao_coin_creator_pkid ≡ selling_pkid)

  -- the base units that the orders of the two coins sell together; other orders do not count
  pub data SellTogether : List OrderEntry → ℕ → Type 0 where
    no_orders : SellTogether [] 0
    one_more :
        (order : OrderEntry) (orders : List OrderEntry) (n total : ℕ)
        → IsOfPair order
        → c.order_base_units_to_sell order ≡ ok n
        → SellTogether orders total
        → SellTogether (order ∷ orders) (n + total)
    other_coins :
        (order : OrderEntry) (orders : List OrderEntry) (total : ℕ)
        → ¬ IsOfPair order
        → SellTogether orders total
        → SellTogether (order ∷ orders) total

  same_pair-IsOfPair :
      (order : OrderEntry) → is_same_pair c buying_pkid selling_pkid order ≡ true → IsOfPair order
  unfolding is_same_pair
  same_pair-IsOfPair order h = (
    sym (bytes_eq→eq buying_pkid order.buying_dao_coin_creator_pkid (ground (arith, h))),
    sym (bytes_eq→eq selling_pkid order.selling_dao_coin_creator_pkid (ground (arith, h))),
  )

  IsOfPair-same_pair :
      (order : OrderEntry) → IsOfPair order → is_same_pair c buying_pkid selling_pkid order ≡ true
  unfolding is_same_pair
  IsOfPair-same_pair order (buys, sells) =
      rw (buys, sells, is_same_pair, bytes_eq_refl buying_pkid, bytes_eq_refl selling_pkid) refl

  add_open_orders-SellTogether :
      (start : ℕ) (orders : List OrderEntry) (total : ℕ)
      → add_open_orders c buying_pkid selling_pkid start orders ≡ ok total
      → (t : ℕ) × SellTogether orders t × (total ≡ start + t)
  unfolding add_open_orders
  add_open_orders-SellTogether start [] total h = (0, no_orders, ground (arith, h))
  add_open_orders-SellTogether start (order ∷ orders) total h =
      elim (Bool-cases (is_same_pair c buying_pkid selling_pkid order)) [
        | inr e ↦
            let (t, sold, sum) =
              add_open_orders-SellTogether start orders total (rw (add_open_orders, e) at h) in
            (
              t,
              other_coins order orders t (λ same. cc (e, IsOfPair-same_pair order same)) sold,
              sum,
            )
        | inl e ↦
            after_step (or_fail (c.order_base_units_to_sell order) external)
              (rw (add_open_orders, e) at h)
              λ n e1 h1. after_step (or_fail (c.safe_add start n) external) h1 λ next e2 h2.
                let (t, sold, sum) = add_open_orders-SellTogether next orders total h2 in
                let units = value_of_or_fail (c.order_base_units_to_sell order) external e1 in
                let added =
                  c.safe_add_lem start n (value_of_or_fail (c.safe_add start n) external e2) in
                (
                  n + t,
                  one_more order orders n t (same_pair-IsOfPair order e) units sold,
                  omega (arith, sum, added),
                )
      ]

  SellTogether-add_open_orders :
      (start : ℕ) (orders : List OrderEntry) (t : ℕ)
      → SellTogether orders t
      → start + t < 2 ^ 256
      → add_open_orders c buying_pkid selling_pkid start orders ≡ ok (start + t)
  unfolding add_open_orders
  SellTogether-add_open_orders start orders t no_orders fits = ap ok (omega arith)
  SellTogether-add_open_orders start orders t (other_coins order rest total other sold) fits =
      elim (Bool-cases (is_same_pair c buying_pkid selling_pkid order)) [
        | inl e ↦ absurd (other (same_pair-IsOfPair order e))
        | inr e ↦ rw (add_open_orders, e) (SellTogether-add_open_orders start rest total sold fits)
      ]
  SellTogether-add_open_orders start orders t (one_more order rest n total same units sold) fits =
      rw
        (
          add_open_orders,
          IsOfPair-same_pair order same,
          units,
          c.safe_add_fits start n (omega (arith, fits)),
        )
        (SellTogether-add_open_orders (start + n) rest total sold (omega (arith, fits))
          ∙ ap ok (omega arith))

module _ (c : Core) (view : c.View) where
  -- the balance of a coin: of DESO, or of the coin of a key
  abbrev pub IsBalance : Bytes → Bytes → ℕ → Type 0
  IsBalance key selling balance =
      ((selling ≡ deso_coin_identifier_string) × (c.get_deso_balance_nanos view key ≡ ok balance))
      ⊎ ((selling ≢ deso_coin_identifier_string)
          × ((coin_key : Bytes) × (c.base58_check_decode selling ≡ ok coin_key)
              × (c.get_balance_entry view key coin_key ≡ some balance)))

  -- an ASK sells its quantity, a BID what deso-core computes from its rate
  abbrev pub SellsNew : Bytes → ℕ → ℕ → ℕ → Type 0
  SellsNew operation_type rate quantity n =
      ((operation_type ≡ operation_type_string_ask) × (n ≡ quantity))
      ⊎ ((operation_type ≡ operation_type_string_bid)
          × (c.compute_base_units_to_sell rate quantity ≡ ok n))

  -- `needed` is what the new order and the transactor's open orders of the same two coins sell
  -- together, and `balance` the transactor's balance of the coin that is sold.
  pub record IsWeighed (transactor buying selling operation_type : Bytes)
      (rate quantity needed balance : ℕ) : Type 0 where
    pub pkid : Bytes
    pub key : Bytes
    pub buying_pkid : Bytes
    pub selling_pkid : Bytes
    pub orders : List OrderEntry
    pub new_selling : ℕ
    pub open_selling : ℕ
    pub is_pkid : IsPkidOf c view transactor pkid
    pub is_key : c.base58_check_decode transactor ≡ ok key
    pub is_buying : IsCoinPkid c view buying buying_pkid
    pub is_selling : IsCoinPkid c view selling selling_pkid
    pub is_balance : IsBalance key selling balance
    pub are_orders : c.get_orders_for_transactor view pkid ≡ ok orders
    pub sells_new : SellsNew operation_type rate quantity new_selling
    pub sell_open : SellTogether c buying_pkid selling_pkid orders open_selling
    pub is_needed : needed ≡ new_selling + open_selling

  -- The balance of the coin that is sold covers what is needed.
  abbrev pub IsCovered : Bytes → Bytes → Bytes → Bytes → ℕ → ℕ → Type 0
  IsCovered transactor buying selling operation_type rate quantity =
      (needed : ℕ) × (balance : ℕ) × IsWeighed transactor buying selling operation_type rate
        quantity needed balance
      × (needed ≤ balance)

  buying-IsCoinPkid :
      (coin pkid : Bytes) → buying_coin_pkid c view coin ≡ ok pkid → IsCoinPkid c view coin pkid
  unfolding buying_coin_pkid
  buying-IsCoinPkid coin pkid h = elim (Bool-cases (is_deso coin)) [
    | inl e ↦ inl (is_deso-eq coin e, ground (arith, e, h))
    | inr e ↦ inr (is_deso-ne coin e, pkid-IsPkidOf c view coin pkid (rw e at h))
  ]

  IsCoinPkid-buying :
      (coin pkid : Bytes) → IsCoinPkid c view coin pkid → buying_coin_pkid c view coin ≡ ok pkid
  unfolding buying_coin_pkid
  IsCoinPkid-buying coin pkid (inl (same, zero)) =
      rw (buying_coin_pkid, deso_is_deso coin same, zero) refl
  IsCoinPkid-buying coin pkid (inr (other, is_pkid)) =
      rw (buying_coin_pkid, other_is_not_deso coin other) (IsPkidOf-pkid c view coin pkid is_pkid)

  new_order-SellsNew :
      (operation_type : Bytes) (rate quantity n : ℕ)
      → new_order_selling c operation_type rate quantity ≡ ok n
      → SellsNew operation_type rate quantity n
  unfolding new_order_selling
  new_order-SellsNew operation_type rate quantity n h =
      elim (Bool-cases (bytes_eq operation_type operation_type_string_ask)) [
        | inl e ↦ inl (bytes_eq→eq operation_type operation_type_string_ask e, ground (arith, e, h))
        | inr e ↦ elim (Bool-cases (bytes_eq operation_type operation_type_string_bid)) [
          | inl f ↦ inr (
            bytes_eq→eq operation_type operation_type_string_bid f,
            value_of_or_fail (c.compute_base_units_to_sell rate quantity) external (rw (e, f) at h),
          )
          | inr f ↦ absurd (cc (rw (e, f) at h))
        ]
      ]

  SellsNew-new_order :
      (operation_type : Bytes) (rate quantity n : ℕ)
      → SellsNew operation_type rate quantity n
      → new_order_selling c operation_type rate quantity ≡ ok n
  unfolding new_order_selling bytes_eq
  SellsNew-new_order operation_type rate quantity n (inl (same, all)) = rw (same, all) refl
  SellsNew-new_order operation_type rate quantity n (inr (same, computed)) =
      rw (same, new_order_selling, computed) refl

  selling-IsBalance :
      (key selling pkid : Bytes) (balance : ℕ)
      → selling_balance c view key selling ≡ ok (pkid, balance)
      → IsCoinPkid c view selling pkid × IsBalance key selling balance
  unfolding selling_balance
  selling-IsBalance key selling pkid balance h = elim (Bool-cases (is_deso selling)) [
    | inl e ↦
        after_step (or_fail (c.get_deso_balance_nanos view key) external)
          (rw (selling_balance, e) at h)
          λ found e1 h1.
            let has = value_of_or_fail (c.get_deso_balance_nanos view key) external e1 in
            (inl (is_deso-eq selling e, cc h1), inl (is_deso-eq selling e, has ∙ ap ok (cc h1)))
    | inr e ↦
        after_step (get_pkid_from_public_key_base58_check c view selling)
          (rw (selling_balance, e) at h)
          λ found e1 h1.
            after_step (or_fail (c.base58_check_decode selling) (λ x. bad_public_key)) h1
              λ coin_key e2 h2.
                after_step (or_error (c.get_balance_entry view key coin_key) balance_not_found) h2
                  λ n e3 h3.
                    let decoded = value_of_or_fail (c.base58_check_decode selling) _ e2 in
                    let has =
                      value_of_or_error (c.get_balance_entry view key coin_key) balance_not_found
                        e3 in
                    (
                      inr (
                        is_deso-ne selling e,
                        pkid-IsPkidOf c view selling pkid (e1 ∙ ap ok (cc h3)),
                      ),
                      inr (is_deso-ne selling e, (coin_key, decoded, has ∙ ap some (cc h3))),
                    )
  ]

  IsBalance-selling :
      (key selling pkid : Bytes) (balance : ℕ)
      → IsCoinPkid c view selling pkid
      → IsBalance key selling balance
      → selling_balance c view key selling ≡ ok (pkid, balance)
  unfolding selling_balance
  IsBalance-selling key selling pkid balance (inl (same, zero)) (inl (same', has)) =
      rw (selling_balance, deso_is_deso selling same, has, zero) refl
  IsBalance-selling key selling pkid balance (inl (same, zero)) (inr (other, has)) =
      absurd (other same)
  IsBalance-selling key selling pkid balance (inr (other, is_pkid)) (inl (same, has)) =
      absurd (other same)
  IsBalance-selling key selling pkid balance (inr (other, is_pkid))
        (inr (other', (coin_key, is_key, has))) =
      rw
        (
          selling_balance,
          other_is_not_deso selling other,
          IsPkidOf-pkid c view selling pkid is_pkid,
          is_key,
          has,
        )
        refl

module _ (c : Core) (view : c.View) (transactor buying selling operation_type : Bytes)
    (rate quantity : ℕ) where
  pub validated-IsCovered :
      validate_transactor_selling_coin_balance c
          (ok view)
          transactor
          buying
          selling
          operation_type
          rate
          quantity
        ≡ ok tt
      → IsCovered c view transactor buying selling operation_type rate quantity
  unfolding validate_transactor_selling_coin_balance
  validated-IsCovered h =
      after_step (get_pkid_from_public_key_base58_check c view transactor) h λ pkid e1 h1.
        after_step (or_fail (c.base58_check_decode transactor) (λ e. bad_public_key)) h1
          λ key e2 h2. after_step (buying_coin_pkid c view buying) h2 λ buying_pkid e3 h3.
            after_step (selling_balance c view key selling) h3 λ sold e4 h4.
              after_step (or_fail (c.get_orders_for_transactor view pkid) external) h4
                λ orders e5 h5.
                  after_step (new_order_selling c operation_type rate quantity) h5 λ n e6 h6.
                    after_step (add_open_orders c buying_pkid sold.0 n orders) h6 λ total e7 h7.
                      let (t, together, sum) =
                        add_open_orders-SellTogether c buying_pkid sold.0 n orders total e7 in
                      let (is_selling, is_balance) =
                        selling-IsBalance c view key selling sold.0 sold.1 e4 in
                      (
                        total,
                        sold.1,
                        record {
                          pkid = pkid;
                          key = key;
                          buying_pkid = buying_pkid;
                          selling_pkid = sold.0;
                          orders = orders;
                          new_selling = n;
                          open_selling = t;
                          is_pkid = pkid-IsPkidOf c view transactor pkid e1;
                          is_key = value_of_or_fail (c.base58_check_decode transactor) _ e2;
                          is_buying = buying-IsCoinPkid c view buying buying_pkid e3;
                          is_selling = is_selling;
                          is_balance = is_balance;
                          are_orders =
                              value_of_or_fail (c.get_orders_for_transactor view pkid) _ e5;
                          sells_new = new_order-SellsNew c view operation_type rate quantity n e6;
                          sell_open = together;
                          is_needed = sum;
                        },
                        ground (arith, passed (ltb sold.1 total) _ h7),
                      )

  -- Let the transactor, and both coins where they are not DESO, be public keys of the right length,
  -- the balance of the coin that is sold be known, DESO's or the transactor's of that coin, and let
  -- deso-core give the transactor's open orders and what each of those that buy and sell exactly
  -- the PKIDs of the two coins sells, DESO having the PKID of zeros. Let an ASK sell its quantity
  -- and a BID what deso-core computes from its rate and quantity, and let all this be less than
  -- 2^256 together. Then the order passes the check where the balance covers it, and is refused as
  -- one with an insufficient balance otherwise.
  pub balance_check_lem :
      (needed balance : ℕ)
      → IsWeighed c view transactor buying selling operation_type rate quantity needed balance
      → needed < 2 ^ 256
      → validate_transactor_selling_coin_balance c
          (ok view)
          transactor
          buying
          selling
          operation_type
          rate
          quantity
        ≡ (if ltb balance needed then err insufficient_balance else ok tt)
  unfolding validate_transactor_selling_coin_balance
  balance_check_lem needed balance w fits =
      let added =
        SellTogether-add_open_orders c w.buying_pkid w.selling_pkid w.new_selling w.orders
          w.open_selling w.sell_open (omega (arith, fits, w.is_needed)) in
      rw
        (
          validate_transactor_selling_coin_balance,
          IsPkidOf-pkid c view transactor w.pkid w.is_pkid,
          w.is_key,
          IsCoinPkid-buying c view buying w.buying_pkid w.is_buying,
          IsBalance-selling c view w.key selling w.selling_pkid balance w.is_selling w.is_balance,
          w.are_orders,
          SellsNew-new_order c view operation_type rate quantity w.new_selling w.sells_new,
          added,
          w.is_needed,
        )
        (ground arith)
