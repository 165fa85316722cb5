-- ===== src/DaoCoin/Tests/Placing.antt =====
-- What is checked before an order is placed, and its quantity.
use deso_backend.Base.{
  ◌*◌, ◌^◌, ◌≡◌, ◌≢◌, inl, inr, arith, ◌⊎◌, ◌↔◌, refl, true, List, [], ◌∷◌, Bytes, codes, bytes_eq,
  some, ok, err, replicate,
}
use deso_backend.Core.{OrderEntry, ProfileEntry}
use deso_backend.DaoCoin.Types.{
  insufficient_balance, is_deso, operation_type_string_ask, operation_type_string_bid,
}
use deso_backend.DaoCoin.Rates.{validate_non_negative_decimal_string}
use deso_backend.DaoCoin.Quantities.{
  is_coin_to_fill_deso, calculate_quantity_to_fill_as_base_units,
  calculate_quantity_to_fill_as_deso_nanos,
}
use deso_backend.DaoCoin.Checks.{
  validate_transactor_selling_coin_balance, validate_dao_coin_order_transfer_restriction,
}
use deso_backend.DaoCoin.Checks.Balance.{IsWeighed, no_orders, one_more, balance_check_lem}
use deso_backend.DaoCoin.Checks.Restriction.{MayBuy, transfer_restriction_lem}
use deso_backend.DaoCoin.Tests.Model.{core}

abbrev deso : Bytes
deso = codes "DESO"

abbrev coin : Bytes
coin = replicate 33 1

-- an open order that sells 60 of the coin for DESO
abbrev open_order : OrderEntry
open_order = record {
  order_id = codes "open";
  transactor_pkid = coin;
  buying_dao_coin_creator_pkid = replicate 33 0;
  selling_dao_coin_creator_pkid = coin;
  scaled_exchange_rate = 10 ^ 47;
  quantity_to_fill_in_base_units = 60;
  operation_type = 1;
}

abbrev open_orders : List OrderEntry
open_orders = open_order ∷ []

coin_is_not_deso : coin ≢ deso
coin_is_not_deso = cc

open_orders_found : core.get_orders_for_transactor open_orders coin ≡ ok open_orders
unfolding bytes_eq
open_orders_found = refl

-- the new order sells 50 and the open one 60, of a balance of 100
weighed : IsWeighed core open_orders coin deso coin operation_type_string_ask (10 ^ 47) 50 110 100
weighed = record {
  pkid = coin;
  key = coin;
  buying_pkid = replicate 33 0;
  selling_pkid = coin;
  orders = open_orders;
  new_selling = 50;
  open_selling = 60;
  is_pkid = (coin, (refl, refl), refl);
  is_key = refl;
  is_buying = inl (refl, refl);
  is_selling = inr (coin_is_not_deso, (coin, (refl, refl), refl));
  is_balance = inr (coin_is_not_deso, (coin, refl, refl));
  are_orders = open_orders_found;
  sells_new = inl (refl, refl);
  sell_open = one_more open_order [] 60 0 (refl, refl) refl no_orders;
  is_needed = refl;
}

-- a balance of 100 does not cover 50 and 60 together
balance_check_lem_example :
    validate_transactor_selling_coin_balance core
      (ok open_orders)
      coin
      deso
      coin
      operation_type_string_ask
      (10 ^ 47)
      50
    ≡ err insufficient_balance
balance_check_lem_example =
    balance_check_lem core open_orders coin deso coin operation_type_string_ask (10 ^ 47) 50 110 100
      weighed (omega arith)

transfer_restriction_lem_example :
    (validate_dao_coin_order_transfer_restriction core (ok []) coin coin ≡ ok tt) ↔ (
      (is_deso coin ≡ true)
      ⊎ ((p : ProfileEntry) × (core.get_profile_entry [] coin ≡ some p)
          × MayBuy core [] coin coin p))
transfer_restriction_lem_example = transfer_restriction_lem core [] coin coin coin coin refl refl

two_nanos :
    calculate_quantity_to_fill_as_base_units core deso coin operation_type_string_bid (codes "2")
    ≡ ok (2 * 10 ^ 9)
unfolding calculate_quantity_to_fill_as_base_units calculate_quantity_to_fill_as_deso_nanos
    is_coin_to_fill_deso is_deso bytes_eq validate_non_negative_decimal_string
two_nanos = refl
