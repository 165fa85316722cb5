-- ===== src/Prices/Reserve.antt =====
-- The reserve price and the fee that an administrator sets (routes/admin_buy_deso.go): kept in the
-- global state, cached in the server, and loaded from the global state when the server starts.
use deso_backend.Base.{
  ℕ, ◌^◌, ◌≤◌, ◌<◌, ◌≡◌, refl, ◌∙◌, ap, true, false, Bytes, bytes_eq, Option, none, some, Result,
  ok, err, panic, arith,
}
use deso_backend.GlobalState.Encoding.{Encoding}
use deso_backend.GlobalState.Prefix.{prefix_byte}
use deso_backend.GlobalState.Keys.Payments.{
  key_for_usd_cents_to_deso_reserve_exchange_rate, key_for_buy_deso_fee_basis_points,
}
use deso_backend.GlobalState.Store.Interface.{Badger, Json, Network}
use deso_backend.GlobalState.Store.Client.{Error, GlobalState, State, has_remote, put, get}
use deso_backend.GlobalState.Store.Local.{get-put}
use deso_backend.Prices.{Prices, get_exchange_deso_price, update_usd_cents_to_deso_exchange_rate}
use deso_backend.Prices.Rate.{update_exchange_rate_lem}

pub data AdminError : Type 0 where
  bad_body : AdminError
  store_failed : Error → AdminError

-- what the two exchanges answered, the greater of the two, and the time, when a price is refreshed
pub record Fetched : Type 0 where
  pub blockchain_price : ℕ
  pub coinbase_price : ℕ
  pub last_trade_price : ℕ
  pub now : ℕ

-- the server has a new reserve price and refreshes its exchange rate
unfoldable pub refresh_with_reserve : ℕ → Fetched → Prices → Result (Unit {0}) Prices
refresh_with_reserve reserve f p =
    update_usd_cents_to_deso_exchange_rate f.blockchain_price f.coinbase_price f.last_trade_price
      f.now (record p { usd_cents_to_deso_reserve_exchange_rate = reserve })

-- `uvarint` is `lib.Uvarint`, with `none` where it reads no bytes.
module _ (en : Encoding) (uvarint : Bytes → Option ℕ) (b : Badger) (j : Json) (n : Network)
    (gs : GlobalState) where
  -- the server's fields and the store behind its global state
  abbrev pub Server : Type 0
  Server = Prices × State b j n

  unfoldable pub set_reserve_exchange_rate :
      Result Bytes ℕ → Fetched → Server → Result AdminError ℕ × Server
  set_reserve_exchange_rate (err e) f s = (err bad_body, s)
  set_reserve_exchange_rate panic f s = (panic, s)
  set_reserve_exchange_rate (ok cents) f (p, store) =
      let (written, store') =
        put b j n gs (key_for_usd_cents_to_deso_reserve_exchange_rate en) (en.uint_to_buf cents)
          store in
      elim written [
        | err e ↦ (err (store_failed e), (p, store'))
        | panic ↦ (panic, (p, store'))
        | ok done ↦ elim (refresh_with_reserve cents f p) [
          | ok p' ↦ (ok cents, (p', store'))
          | err e ↦ (panic, (p, store'))
          | panic ↦ (panic, (p, store'))
        ]
      ]

  unfoldable pub set_buy_deso_fee_basis_points :
      Result Bytes ℕ → Server → Result AdminError ℕ × Server
  set_buy_deso_fee_basis_points (err e) s = (err bad_body, s)
  set_buy_deso_fee_basis_points panic s = (panic, s)
  set_buy_deso_fee_basis_points (ok fee) (p, store) =
      let (written, store') =
        put b j n gs (key_for_buy_deso_fee_basis_points en) (en.uint_to_buf fee) store in
      elim written [
        | err e ↦ (err (store_failed e), (p, store'))
        | panic ↦ (panic, (p, store'))
        | ok done ↦ (ok fee, (record p { buy_deso_fee_basis_points = fee }, store'))
      ]

  -- the number in the store, where there is one that is read
  unfoldable pub stored_number : Result Error (Option Bytes) → Option ℕ
  stored_number (ok (some val)) = uvarint val
  stored_number (ok none) = none
  stored_number (err e) = none
  stored_number panic = none

  unfoldable pub load_reserve_exchange_rate : Prices → State b j n → Prices
  load_reserve_exchange_rate p store =
      elim (stored_number
        (get b j n gs (key_for_usd_cents_to_deso_reserve_exchange_rate en) store).0) [
          | none ↦ p
          | some cents ↦ record p { usd_cents_to_deso_reserve_exchange_rate = cents }
        ]

  unfoldable pub load_buy_deso_fee_basis_points : Prices → State b j n → Prices
  load_buy_deso_fee_basis_points p store =
      elim (stored_number (get b j n gs (key_for_buy_deso_fee_basis_points en) store).0) [
        | none ↦ p
        | some fee ↦ record p { buy_deso_fee_basis_points = fee }
      ]

  -- the two keys differ
  keys_differ :
      bytes_eq
        (key_for_buy_deso_fee_basis_points en)
        (key_for_usd_cents_to_deso_reserve_exchange_rate en)
      ≡ false
  unfolding bytes_eq prefix_byte key_for_usd_cents_to_deso_reserve_exchange_rate
      key_for_buy_deso_fee_basis_points
  keys_differ = refl

  key_is_key :
      (bytes_eq (key_for_buy_deso_fee_basis_points en) (key_for_buy_deso_fee_basis_points en)
        ≡ true)
      × (bytes_eq
            (key_for_usd_cents_to_deso_reserve_exchange_rate en)
            (key_for_usd_cents_to_deso_reserve_exchange_rate en)
          ≡ true)
  unfolding bytes_eq prefix_byte key_for_usd_cents_to_deso_reserve_exchange_rate
      key_for_buy_deso_fee_basis_points
  key_is_key = (refl, refl)

  -- what a handler that answers with its number did
  set_reserve_done :
      (cents : ℕ) (f : Fetched) (p : Prices) (store : State b j n)
      → (set_reserve_exchange_rate (ok cents) f (p, store)).0 ≡ ok cents
      → let key = key_for_usd_cents_to_deso_reserve_exchange_rate en in
        ((put b j n gs key (en.uint_to_buf cents) store).0 ≡ ok tt)
        × ((set_reserve_exchange_rate (ok cents) f (p, store)).1.1
            ≡ (put b j n gs key (en.uint_to_buf cents) store).1)
        × (refresh_with_reserve cents f p
            ≡ ok (set_reserve_exchange_rate (ok cents) f (p, store)).1.0)
  unfolding set_reserve_exchange_rate
  set_reserve_done cents f p store h = ground arith

  set_fee_done :
      (fee : ℕ) (s : Server)
      → (set_buy_deso_fee_basis_points (ok fee) s).0 ≡ ok fee
      → let key = key_for_buy_deso_fee_basis_points en in
        ((put b j n gs key (en.uint_to_buf fee) s.1).0 ≡ ok tt)
        × ((set_buy_deso_fee_basis_points (ok fee) s).1.1
            ≡ (put b j n gs key (en.uint_to_buf fee) s.1).1)
  unfolding set_buy_deso_fee_basis_points
  set_fee_done fee s h = ground arith

  loaded_reserve :
      (fresh : Prices) (store : State b j n) (text : Bytes) {cents : ℕ}
      → (get b j n gs (key_for_usd_cents_to_deso_reserve_exchange_rate en) store).0 ≡ ok (some text)
      → uvarint text ≡ some cents
      → (load_reserve_exchange_rate fresh store).usd_cents_to_deso_reserve_exchange_rate ≡ cents
  unfolding load_reserve_exchange_rate stored_number
  loaded_reserve fresh store text found read =
      rw (load_reserve_exchange_rate, stored_number, found, read) refl

  loaded_fee :
      (fresh : Prices) (store : State b j n) (text : Bytes) {fee : ℕ}
      → (get b j n gs (key_for_buy_deso_fee_basis_points en) store).0 ≡ ok (some text)
      → uvarint text ≡ some fee
      → (load_buy_deso_fee_basis_points fresh store).buy_deso_fee_basis_points ≡ fee
  unfolding load_buy_deso_fee_basis_points stored_number
  loaded_fee fresh store text found read =
      rw (load_buy_deso_fee_basis_points, stored_number, found, read) refl

  reserve_is_sold_at :
      (cents : ℕ) (f : Fetched) (p p' : Prices)
      → refresh_with_reserve cents f p ≡ ok p'
      → cents ≤ get_exchange_deso_price p'
  unfolding refresh_with_reserve
  reserve_is_sold_at cents f p p' h =
      let (s', done, _, _, _, reserve) =
        update_exchange_rate_lem f.blockchain_price f.coinbase_price f.last_trade_price f.now
          (record p { usd_cents_to_deso_reserve_exchange_rate = cents }) in
      let same : s' ≡ p' = cc (done, h) in omega (arith, reserve, ap get_exchange_deso_price same)

  module _ (local : has_remote gs ≡ false)
      (uvarint-uint_to_buf : (k : ℕ) → k < 2 ^ 64 → uvarint (en.uint_to_buf k) ≡ some k) where
    get-put_self :
        (key v : Bytes) (store : State b j n)
        → bytes_eq key key ≡ true
        → (put b j n gs key v store).0 ≡ ok tt
        → (get b j n gs key (put b j n gs key v store).1).0 ≡ ok (some v)
    get-put_self key v store same written =
        ground (arith, get-put b j n gs local key v key store written)

    get-put_other :
        (key v other : Bytes) (store : State b j n)
        → bytes_eq key other ≡ false
        → (put b j n gs key v store).0 ≡ ok tt
        → (get b j n gs other (put b j n gs key v store).1).0 ≡ (get b j n gs other store).0
    get-put_other key v other store differ written =
        ground (arith, get-put b j n gs local key v other store written)

    -- On a local global state, with numbers below 2^64 that Uvarint reads back: after an
    -- administrator sets the reserve price and then the fee, both with success, a server that
    -- starts and loads its settings from the store gets these two numbers, and the price after the
    -- first call is at least the reserve price.
    pub settings_restored :
        (cents fee : ℕ) (f : Fetched) (s : Server) (fresh : Prices)
        → cents < 2 ^ 64
        → fee < 2 ^ 64
        → (set_reserve_exchange_rate (ok cents) f s).0 ≡ ok cents
        → (set_buy_deso_fee_basis_points (ok fee) (set_reserve_exchange_rate (ok cents) f s).1).0
          ≡ ok fee
        → let store =
            (set_buy_deso_fee_basis_points
              (ok fee)
              (set_reserve_exchange_rate (ok cents) f s).1).1.1 in
          ((load_reserve_exchange_rate fresh store).usd_cents_to_deso_reserve_exchange_rate ≡ cents)
          × ((load_buy_deso_fee_basis_points fresh store).buy_deso_fee_basis_points ≡ fee)
          × (cents ≤ get_exchange_deso_price (set_reserve_exchange_rate (ok cents) f s).1.0)
    settings_restored cents fee f (p, store) fresh hc hf set_ok fee_ok =
        let s1 = (set_reserve_exchange_rate (ok cents) f (p, store)).1 in
        let (written, same, refreshed) = set_reserve_done cents f p store set_ok in
        let (fee_written, fee_same) = set_fee_done fee s1 fee_ok in
        (
          loaded_reserve fresh _ (en.uint_to_buf cents)
              (rw fee_same (
                get-put_other _ (en.uint_to_buf fee) _ s1.1 keys_differ fee_written
                ∙ rw same (get-put_self _ (en.uint_to_buf cents) store key_is_key.1 written)))
              (uvarint-uint_to_buf cents hc),
          loaded_fee fresh _ (en.uint_to_buf fee)
              (rw fee_same (get-put_self _ (en.uint_to_buf fee) s1.1 key_is_key.0 fee_written))
              (uvarint-uint_to_buf fee hf),
          reserve_is_sold_at cents f p s1.0 refreshed,
        )
