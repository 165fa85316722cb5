-- ===== src/DaoCoin/Rates/Bid.antt =====
-- The rate of BID orders: the branches of `CalculateScaledExchangeRateFromPriceString` that scale
-- the price itself (routes/dao_coin_exchange.go).
use deso_backend.Base.{
  ℕ, ◌*◌, ◌/◌, ◌^◌, ◌≡◌, inl, inr, Bytes, ok, err, arith, ltb, if◌then◌else◌, Bool-cases, ltb→lt,
  ltb-ge,
}
use deso_backend.Core.{Core}
use deso_backend.DaoCoin.Types.{overflow, rate_too_small, is_deso}
use deso_backend.DaoCoin.Rates.{bid_scaled_exchange_rate}
use deso_backend.DaoCoin.Rates.Ask.{scaling_factor_lem}

module _ (c : Core) where
  mul_overflow_lem :
      (a b : ℕ)
      → (if (c.mul_overflow a b).1 then err overflow else ok (c.mul_overflow a b).0)
        ≡ (if ltb (a * b) (2 ^ 256) then ok (a * b) else err overflow)
  mul_overflow_lem a b = elim (Bool-cases (ltb (a * b) (2 ^ 256))) [
    | inl fits ↦ rw (fits, c.mul_overflow_fits a b (ltb→lt _ _ fits))
    | inr wraps ↦ rw (wraps, c.mul_overflow_wraps a b (ltb-ge _ _ wraps))
  ]

  -- The rate of a BID is the price times 10^9 where DESO is bought, an error exactly when that
  -- needs more than 256 bits; the price divided by 10^9 where DESO is sold, an error exactly when
  -- the price is below 10^9; and else the price.
  pub bid_scaled_exchange_rate_lem :
      (buying selling : Bytes) (price : ℕ)
      → bid_scaled_exchange_rate c buying selling price ≡ (
          if is_deso buying
          then (if ltb (price * 10 ^ 9) (2 ^ 256) then ok (price * 10 ^ 9) else err overflow)
          else if is_deso selling
          then (if ltb price (10 ^ 9) then err rate_too_small else ok (price / 10 ^ 9))
          else ok price)
  unfolding bid_scaled_exchange_rate
  bid_scaled_exchange_rate_lem buying selling price =
      rw scaling_factor_lem
        (ground (arith, mul_overflow_lem price (10 ^ 9), c.div_lem price (10 ^ 9) (omega arith)))
