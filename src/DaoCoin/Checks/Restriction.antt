-- ===== src/DaoCoin/Checks/Restriction.antt =====
-- Who may buy a DAO coin, by `validateDAOCoinOrderTransferRestriction`
-- (routes/dao_coin_exchange.go).
use deso_backend.Base.{
  ℕ, ◌<◌, ◌≡◌, ◌≢◌, ◌⊎◌, inl, inr, true, false, Bytes, bytes_eq→eq, bytes_eq_refl, ◌↔◌, some, ok,
  arith, ◌==◌, Bool-cases, Option-cases, ==-ne,
}
use deso_backend.Core.{Core, ProfileEntry}
use deso_backend.DaoCoin.Types.{is_deso}
use deso_backend.DaoCoin.Checks.{
  check_transfer_restriction, validate_dao_coin_order_transfer_restriction,
}

module _ (c : Core) (view : c.View) (transactor_key coin_key : Bytes) where
  -- the profile allows the transactor to buy its coin
  pub record MayBuy (p : ProfileEntry) : Type 0 where
    pub exists : p.is_deleted ≡ false
    pub owner :
        (p.transfer_restriction_status ≢ c.transfer_restriction_profile_owner_only)
        ⊎ (transactor_key ≡ coin_key)
    pub member :
        (p.transfer_restriction_status ≢ c.transfer_restriction_dao_members_only)
        ⊎ ((b : ℕ) × (c.get_balance_entry view transactor_key coin_key ≡ some b) × (0 < b))

  check_transfer_restriction-MayBuy :
      (p : ProfileEntry)
      → check_transfer_restriction c view transactor_key coin_key p ≡ ok tt
      → MayBuy p
  unfolding check_transfer_restriction
  check_transfer_restriction-MayBuy p h = record {
    exists = ground arith;
    owner =
        elim (Bool-cases
          (p.transfer_restriction_status == c.transfer_restriction_profile_owner_only)) [
            | inl yes_owner ↦ inr (bytes_eq→eq _ _ (ground arith))
            | inr other ↦ inl (==-ne _ _ other)
          ];
    member =
        elim (Bool-cases
          (p.transfer_restriction_status == c.transfer_restriction_dao_members_only)) [
            | inl yes_members ↦
                elim (Option-cases (c.get_balance_entry view transactor_key coin_key)) [
                  | inl missing ↦ absurd (ground arith)
                  | inr (b, e) ↦ inr (b, e, ground arith)
                ]
            | inr other ↦ inl (==-ne _ _ other)
          ];
  }

  MayBuy-check_transfer_restriction :
      (p : ProfileEntry)
      → MayBuy p
      → check_transfer_restriction c view transactor_key coin_key p ≡ ok tt
  unfolding check_transfer_restriction
  MayBuy-check_transfer_restriction p allowed =
      ground (arith, allowed.exists, allowed.owner, allowed.member, bytes_eq_refl transactor_key)

  transfer_restriction_sound :
      (transactor buying : Bytes)
      → c.base58_check_decode transactor ≡ ok transactor_key
      → c.base58_check_decode buying ≡ ok coin_key
      → validate_dao_coin_order_transfer_restriction c (ok view) transactor buying ≡ ok tt
      → (is_deso buying ≡ true)
        ⊎ ((p : ProfileEntry) × (c.get_profile_entry view coin_key ≡ some p) × MayBuy p)
  unfolding validate_dao_coin_order_transfer_restriction
  transfer_restriction_sound transactor buying e1 e2 h = elim (Bool-cases (is_deso buying)) [
    | inl deso ↦ inl deso
    | inr other ↦ elim (Option-cases (c.get_profile_entry view coin_key)) [
      | inl missing ↦ absurd (ground arith)
      | inr (p, e) ↦ inr (p, e, check_transfer_restriction-MayBuy p (ground arith))
    ]
  ]

  transfer_restriction_complete :
      (transactor buying : Bytes)
      → c.base58_check_decode transactor ≡ ok transactor_key
      → c.base58_check_decode buying ≡ ok coin_key
      → (is_deso buying ≡ true)
        ⊎ ((p : ProfileEntry) × (c.get_profile_entry view coin_key ≡ some p) × MayBuy p)
      → validate_dao_coin_order_transfer_restriction c (ok view) transactor buying ≡ ok tt
  unfolding validate_dao_coin_order_transfer_restriction
  transfer_restriction_complete transactor buying e1 e2 (inl deso) = ground arith
  transfer_restriction_complete transactor buying e1 e2 (inr (p, e, allowed)) =
      ground (arith, MayBuy-check_transfer_restriction p allowed)

  -- Where both public keys decode, an order passes the check exactly when it buys DESO, or a coin
  -- whose profile is not deleted, is the transactor's own where only the owner may hold it, and is
  -- one that the transactor holds some of where only members may buy.
  pub transfer_restriction_lem :
      (transactor buying : Bytes)
      → c.base58_check_decode transactor ≡ ok transactor_key
      → c.base58_check_decode buying ≡ ok coin_key
      → (validate_dao_coin_order_transfer_restriction c (ok view) transactor buying ≡ ok tt) ↔ (
          (is_deso buying ≡ true)
          ⊎ ((p : ProfileEntry) × (c.get_profile_entry view coin_key ≡ some p) × MayBuy p))
  transfer_restriction_lem transactor buying e1 e2 = (
    transfer_restriction_sound transactor buying e1 e2,
    transfer_restriction_complete transactor buying e1 e2,
  )
