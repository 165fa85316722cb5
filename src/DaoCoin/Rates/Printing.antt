-- ===== src/DaoCoin/Rates/Printing.antt =====
-- `CalculatePriceStringFromScaledExchangeRate` on the rates that are stored for price strings
-- (routes/dao_coin_exchange.go).
use native.Mathlib.Nat.{
  le-div_iff_mul-le, div-le_of_le-mul, le_of_mul-le-mul_right, mul-le-mul, mul-le-mul_left,
}
use deso_backend.Base.{
  ℕ, ◌+◌, ◌-◌, ◌*◌, ◌/◌, ◌%◌, ◌^◌, ◌≤◌, ◌<◌, ◌≡◌, ◌⊎◌, ◌↔◌, ap, inl, inr, Bool, true, false, Bytes,
  bytes_eq, ok, panic, arith, if◌then◌else◌, ceil_div, ceil_div-IsCeiling,
}
use native.Mathlib.Decide.{dec_le}
use deso_backend.Core.{Core}
use deso_backend.DaoCoin.Types.{
  is_deso, big_div, operation_type_string_ask, operation_type_string_bid,
}
use deso_backend.DaoCoin.Rates.{
  unscale_exchange_rate, scaled_price, calculate_scaled_exchange_rate_from_price_string,
  calculate_price_string_from_scaled_exchange_rate,
}
use deso_backend.DaoCoin.Rates.Ask.{scaling_factor_lem}
use deso_backend.DaoCoin.Rates.Bid.{bid_scaled_exchange_rate_lem}
use deso_backend.DaoCoin.Rates.Crossing.{ask_returned, exact_ask, bid_returned}

-- a base unit rate as a rate between whole coins
abbrev pub coin_rate : Bytes → Bytes → ℕ → ℕ
coin_rate buying selling rate =
    if is_deso buying then rate / 10 ^ 9 else if is_deso selling then rate * 10 ^ 9 else rate

-- dividing by a rate that was rounded up by less than `k` gives a price back, up to `k`
divide_back :
    (m n p k : ℕ)
    → 0 < p
    → n ≤ m * p
    → m * p < n + p * k
    → (n / m ≤ p) × (p * p ≤ n → p ≤ n / m + k)
divide_back m n p k pos covers tight = (
  div-le_of_le-mul m covers,
  λ small. elim (dec_le p k) [ yes h ↦ omega arith | no h ↦ lower small h ],
)
  where
    lower : p * p ≤ n → ¬ (p ≤ k) → p ≤ n / m + k
    lower small h =
        let d : ℕ = p - k in
        let e : p ≡ d + k = omega arith in
        let p_le_m : p ≤ m = le_of_mul-le-mul_right {k = p} (omega (arith, covers)) pos in
        let fits : d * m ≤ n =
          omega (arith, ap (λ (t : ℕ). m * t) e, mul-le-mul_left k p_le_m, tight) in
        omega (arith, (le-div_iff_mul-le {k = m} {x = d} {y = n} (omega (arith, p_le_m))).1 fits)

pos_of_product : (m k : ℕ) → 0 < m * k → 0 < m
pos_of_product m k h = grind arith

-- the rate between whole coins that an ASK's rate stands for, against the price
ask_coin_rate_bounds :
    (deso_bought deso_sold : Bool) (p : ℕ)
    → 0 < p
    → let rate =
        (if deso_bought
          then ceil_div (10 ^ 76) p * 10 ^ 9
          else if deso_sold
          then ceil_div (10 ^ 76) (p * 10 ^ 9)
          else ceil_div (10 ^ 76) p) in
      let m = (if deso_bought then rate / 10 ^ 9 else if deso_sold then rate * 10 ^ 9 else rate) in
      (10 ^ 76 ≤ m * p) × (m * p < 10 ^ 76 + p * 10 ^ 9)
ask_coin_rate_bounds true ds p pos =
    let q = ceil_div (10 ^ 76) p in
    let back : q * 10 ^ 9 / 10 ^ 9 ≡ q = omega arith in
    let ceiling = ceil_div-IsCeiling (10 ^ 76) p pos in
    rw back (omega (arith, ceiling.covers), omega (arith, ceiling.tight))
ask_coin_rate_bounds false true p pos =
    let ceiling = ceil_div-IsCeiling (10 ^ 76) (p * 10 ^ 9) (omega arith) in
    (omega (arith, ceiling.covers), omega (arith, ceiling.tight))
ask_coin_rate_bounds false false p pos =
    let ceiling = ceil_div-IsCeiling (10 ^ 76) p pos in
    (omega (arith, ceiling.covers), omega (arith, ceiling.tight))

module _ (c : Core) (buying selling : Bytes) where
  scaled_price_lem :
      (rate : ℕ) (op : Bytes)
      → scaled_price c buying selling rate op ≡ (
          if bytes_eq op operation_type_string_ask
          then big_div (10 ^ 76) (coin_rate buying selling rate)
          else ok (coin_rate buying selling rate))
  unfolding scaled_price unscale_exchange_rate
  scaled_price_lem rate op = rw (scaling_factor_lem, c.one_e38_lem) (ground arith)

  -- Printing a price panics exactly for an ASK whose rate is zero, or is below 10^9 and buys DESO.
  pub price_string_panics :
      (rate : ℕ) (op : Bytes)
      → (calculate_price_string_from_scaled_exchange_rate c buying selling rate op ≡ panic) ↔ (
          (bytes_eq op operation_type_string_ask ≡ true)
          × ((rate ≡ 0) ⊎ ((is_deso buying ≡ true) × (rate < 10 ^ 9))))
  unfolding calculate_price_string_from_scaled_exchange_rate
  price_string_panics rate op =
      (λ h. ground (arith, scaled_price_lem rate op), λ h. ground (arith, scaled_price_lem rate op))

  -- any other call prints a number
  pub price_string_lem :
      (rate : ℕ) (op : Bytes)
      → (bytes_eq op operation_type_string_ask ≡ true → 0 < coin_rate buying selling rate)
      → calculate_price_string_from_scaled_exchange_rate c buying selling rate op
        ≡ ok (
            c.format_scaled_uint256_as_decimal_string
              (if bytes_eq op operation_type_string_ask
                then 10 ^ 76 / coin_rate buying selling rate
                else coin_rate buying selling rate)
              c.one_e38)
  unfolding calculate_price_string_from_scaled_exchange_rate
  price_string_lem rate op pos = ground (arith, scaled_price_lem rate op)

module _ (c : Core) (buying selling : Bytes) (price : Bytes) {raw : ℕ}
    (parsed : c.calculate_scaled_exchange_rate_from_string price ≡ ok raw) where
  -- The rate stored for a BID prints as the price it was made from, less what is below 10^-29 where
  -- DESO is sold.
  pub bid_round_trip :
      {rate : ℕ}
      → calculate_scaled_exchange_rate_from_price_string c buying selling price c.operation_type_bid
        ≡ ok rate
      → calculate_price_string_from_scaled_exchange_rate c buying selling rate
          operation_type_string_bid
        ≡ ok (
            c.format_scaled_uint256_as_decimal_string
              (if is_deso buying then raw else if is_deso selling then raw - raw % 10 ^ 9 else raw)
              c.one_e38)
  unfolding bytes_eq
  bid_round_trip {rate} stored =
      let (pos, bid) = bid_returned c selling buying price parsed stored in
      rw (price_string_lem c buying selling rate operation_type_string_bid (λ h. cc))
        (ground (arith, bid_scaled_exchange_rate_lem c buying selling raw))

  -- The rate stored for an ASK prints, without a panic, as a price that is at most the one it was
  -- made from and, for a price up to 1, less than it by at most 10^-29.
  pub ask_round_trip :
      {rate : ℕ}
      → calculate_scaled_exchange_rate_from_price_string c buying selling price c.operation_type_ask
        ≡ ok rate
      → (printed : ℕ) × (calculate_price_string_from_scaled_exchange_rate c buying selling rate
            operation_type_string_ask
          ≡ ok (c.format_scaled_uint256_as_decimal_string printed c.one_e38))
        × (printed ≤ raw)
        × ((raw ≤ printed + 10 ^ 9) ⊎ (10 ^ 38 < raw))
  unfolding bytes_eq
  ask_round_trip {rate} stored =
      let (pos, asked) = ask_returned c buying selling price parsed stored in
      let m = coin_rate buying selling rate in
      let bounds : (10 ^ 76 ≤ m * raw) × (m * raw < 10 ^ 76 + raw * 10 ^ 9) =
        rw (exact_ask c buying selling price parsed asked pos)
          (ask_coin_rate_bounds (is_deso buying) (is_deso selling) raw pos) in
      let (below, close) = divide_back m (10 ^ 76) raw (10 ^ 9) pos bounds.0 bounds.1 in
      (
        10 ^ 76 / m,
        price_string_lem c buying selling rate operation_type_string_ask
            (λ h. pos_of_product m raw (omega (arith, bounds.0))),
        below,
        elim (dec_le raw (10 ^ 38)) [
          | yes h ↦ inl (close (mul-le-mul {m₂ = 10 ^ 38} h h))
          | no h ↦ inr (omega arith)
        ],
      )
