-- ===== src/DaoCoin/Rates/Crossing.antt =====
-- An ASK and a BID that `CalculateScaledExchangeRateFromPriceString` makes from one price string
-- (routes/dao_coin_exchange.go).
use deso_backend.Base.{
  ℕ, Bool, ap, refl, ◌+◌, ◌*◌, ◌/◌, ◌%◌, ◌^◌, ◌≤◌, ◌<◌, ◌≡◌, true, false, Bytes, ok, arith,
  if◌then◌else◌, IsCeiling, ceil_div, ceil_div-IsCeiling,
}
use native.Mathlib.Nat.{le_of_mul-le-mul_right, mul-le-mul, mul-le-mul_left}
use deso_backend.Core.{Core}
use deso_backend.DaoCoin.Types.{is_deso}
use deso_backend.DaoCoin.Rates.{
  ask_scaled_exchange_rate, bid_scaled_exchange_rate,
  calculate_scaled_exchange_rate_from_price_string,
}
use deso_backend.DaoCoin.Rates.Ask.{exact_ask_rate, ask_scaled_exchange_rate_lem}
use deso_backend.DaoCoin.Rates.Bid.{bid_scaled_exchange_rate_lem}

-- truncating a price to a multiple of 10^9 loses more than rounding its inverse up gains
truncated_misses :
    (q n p : ℕ) → IsCeiling q n p → 0 < p % 10 ^ 9 → p * p ≤ n → q * 10 ^ 9 * (p / 10 ^ 9) < n
truncated_misses q n p h d small =
    let e : p ≡ 10 ^ 9 * (p / 10 ^ 9) + p % 10 ^ 9 = omega arith in
    let p_le_q : p ≤ q = le_of_mul-le-mul_right {k = p} (omega (arith, h.covers)) (omega arith) in
    omega (arith, ap (λ (t : ℕ). q * t) e, mul-le-mul_left q d, h.tight)

crossing_cases :
    (deso_bought deso_sold : Bool) (p : ℕ)
    → 0 < p
    → (deso_bought ≡ true → deso_sold ≡ false → p % 10 ^ 9 ≡ 0)
    → 10 ^ 76
      ≤ (if deso_bought
          then ceil_div (10 ^ 76) p * 10 ^ 9
          else if deso_sold
          then ceil_div (10 ^ 76) (p * 10 ^ 9)
          else ceil_div (10 ^ 76) p)
        * (if deso_sold then p * 10 ^ 9 else if deso_bought then p / 10 ^ 9 else p)
crossing_cases true true p h whole = ground (arith, (ceil_div-IsCeiling (10 ^ 76) p h).covers)
crossing_cases true false p h whole =
    let q = ceil_div (10 ^ 76) p in
    let e : p / 10 ^ 9 * 10 ^ 9 ≡ p = omega (arith, whole refl refl) in
    omega (arith, (ceil_div-IsCeiling (10 ^ 76) p h).covers, ap (λ (t : ℕ). q * t) e)
crossing_cases false true p h whole =
    omega (arith, (ceil_div-IsCeiling (10 ^ 76) (p * 10 ^ 9) (omega arith)).covers)
crossing_cases false false p h whole = omega (arith, (ceil_div-IsCeiling (10 ^ 76) p h).covers)

module _ (c : Core) (buying selling : Bytes) (price : Bytes) {raw : ℕ}
    (parsed : c.calculate_scaled_exchange_rate_from_string price ≡ ok raw) where
  -- what a rate that is returned was made from
  pub ask_returned :
      {rate : ℕ}
      → calculate_scaled_exchange_rate_from_price_string c buying selling price c.operation_type_ask
        ≡ ok rate
      → (0 < raw) × (ask_scaled_exchange_rate c buying selling raw ≡ ok rate)
  unfolding calculate_scaled_exchange_rate_from_price_string
  ask_returned h = ground arith

  -- the opposite order: it buys what the other sells
  pub bid_returned :
      {rate : ℕ}
      → calculate_scaled_exchange_rate_from_price_string c selling buying price c.operation_type_bid
        ≡ ok rate
      → (0 < raw) × (bid_scaled_exchange_rate c selling buying raw ≡ ok rate)
  unfolding calculate_scaled_exchange_rate_from_price_string
  bid_returned h = ground (arith, c.operation_types_differ)

  pub exact_ask :
      {rate : ℕ}
      → ask_scaled_exchange_rate c buying selling raw ≡ ok rate
      → 0 < raw
      → rate ≡ exact_ask_rate buying selling raw
  exact_ask h pos = ground (arith, ask_scaled_exchange_rate_lem c buying selling raw pos)

  exact_bid :
      {rate : ℕ}
      → bid_scaled_exchange_rate c selling buying raw ≡ ok rate
      → rate
        ≡ (if is_deso selling then raw * 10 ^ 9 else if is_deso buying then raw / 10 ^ 9 else raw)
  exact_bid h = ground (arith, bid_scaled_exchange_rate_lem c selling buying raw)

  -- An ASK and the opposite BID made from one price string cross, so that they can match: the
  -- product of their scaled rates is at least 10^76, that is one. Where the ASK buys DESO with a
  -- coin, the condition is that the parsed price is a multiple of 10^9.
  pub same_price_crosses :
      {a b : ℕ}
      → calculate_scaled_exchange_rate_from_price_string c buying selling price c.operation_type_ask
        ≡ ok a
      → calculate_scaled_exchange_rate_from_price_string c selling buying price c.operation_type_bid
        ≡ ok b
      → (is_deso buying ≡ true → is_deso selling ≡ false → raw % 10 ^ 9 ≡ 0)
      → 10 ^ 76 ≤ a * b
  same_price_crosses {a} {b} sold bought whole =
      let (pos, asked) = ask_returned sold in
      let (_, bid) = bid_returned bought in
      rw (exact_ask asked pos, exact_bid bid)
        (crossing_cases (is_deso buying) (is_deso selling) raw pos whole)

  -- Where the ASK buys DESO with a coin at a parsed price of at most 10^38 that is no multiple of
  -- 10^9, the ASK and the opposite BID made from that price do not cross.
  pub same_price_misses :
      {a b : ℕ}
      → calculate_scaled_exchange_rate_from_price_string c buying selling price c.operation_type_ask
        ≡ ok a
      → calculate_scaled_exchange_rate_from_price_string c selling buying price c.operation_type_bid
        ≡ ok b
      → is_deso buying ≡ true
      → is_deso selling ≡ false
      → 0 < raw % 10 ^ 9
      → raw ≤ 10 ^ 38
      → a * b < 10 ^ 76
  same_price_misses {a} {b} sold bought deso other rest small =
      let (pos, asked) = ask_returned sold in
      let (_, bid) = bid_returned bought in
      rw (exact_ask asked pos, exact_bid bid, deso, other)
        (truncated_misses _ (10 ^ 76) raw (ceil_div-IsCeiling (10 ^ 76) raw pos) rest
          (mul-le-mul {m₂ = 10 ^ 38} small small))
