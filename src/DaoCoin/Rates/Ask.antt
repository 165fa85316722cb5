-- ===== src/DaoCoin/Rates/Ask.antt =====
-- The rate of ASK orders: the branch of `CalculateScaledExchangeRateFromPriceString` that takes
-- the inverse of the price (routes/dao_coin_exchange.go).
use deso_backend.Base.{
  ℕ, ◌*◌, ◌^◌, ◌<◌, ◌≡◌, inl, inr, Bytes, ok, err, arith, ltb, if◌then◌else◌, Bool-cases, ltb→lt,
  ltb-ge, ◌∙◌, ceil_div, ceil_div-ceil_div,
}
use deso_backend.Core.{Core}
use deso_backend.DaoCoin.Types.{overflow, is_deso, get_deso_to_dao_coin_base_units_scaling_factor}
use deso_backend.DaoCoin.Rates.{to_uint256, ask_scaled_exchange_rate}

-- 10^76 / price, rounded up, in base units of the two coins
abbrev pub exact_ask_rate : Bytes → Bytes → ℕ → ℕ
exact_ask_rate buying selling price =
    if is_deso buying
    then ceil_div (10 ^ 76) price * 10 ^ 9
    else if is_deso selling
    then ceil_div (10 ^ 76) (price * 10 ^ 9)
    else ceil_div (10 ^ 76) price

module _ (c : Core) where
  pub scaling_factor_lem : get_deso_to_dao_coin_base_units_scaling_factor c ≡ 10 ^ 9
  unfolding get_deso_to_dao_coin_base_units_scaling_factor
  scaling_factor_lem =
      c.div_lem c.base_units_per_coin c.nanos_per_unit (omega (arith, c.nanos_per_unit_lem))
      ∙ rw (c.base_units_per_coin_lem, c.nanos_per_unit_lem)

  to_uint256_lem :
      (rate : ℕ) → to_uint256 c rate ≡ (if ltb rate (2 ^ 256) then ok rate else err overflow)
  unfolding to_uint256
  to_uint256_lem rate = elim (Bool-cases (ltb rate (2 ^ 256))) [
    | inl fits ↦ rw (fits, c.from_big_fits rate (ltb→lt _ _ fits))
    | inr wraps ↦ rw (wraps, c.from_big_wraps rate (ltb-ge _ _ wraps))
  ]

  -- For a positive price, the rate of an ASK is 10^76 / price rounded up once, after the scale
  -- between nanos and base units is applied, although the code rounds up twice where DESO is sold;
  -- where DESO is bought the rounded quotient is scaled up. The result is an error exactly when
  -- that rate needs more than 256 bits.
  pub ask_scaled_exchange_rate_lem :
      (buying selling : Bytes) (price : ℕ)
      → 0 < price
      → ask_scaled_exchange_rate c buying selling price ≡ (
          let rate = exact_ask_rate buying selling price in
          if ltb rate (2 ^ 256) then ok rate else err overflow)
  unfolding ask_scaled_exchange_rate
  ask_scaled_exchange_rate_lem buying selling price h = ground (
    arith,
    scaling_factor_lem,
    c.one_e38_lem,
    to_uint256_lem (exact_ask_rate buying selling price),
    ceil_div-ceil_div (10 ^ 76) price (10 ^ 9) h (omega arith),
  )
