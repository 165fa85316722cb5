-- ===== src/DaoCoin/Tests/Model.antt =====
-- A small instance of the code that the DAO coin exchange uses: decimal texts, 256-bit products,
-- and a view that is the list of its open orders.
use native.Mathlib.Nat.{mod-eq_of_lt, one-le-pow}
use deso_backend.Base.{
  ℕ, zero, suc, ◌+◌, ◌-◌, ◌*◌, ◌/◌, ◌%◌, ◌^◌, ◌≤◌, ◌<◌, ◌≡◌, refl, Bool, true, false, ◌&&◌, List,
  [], ◌∷◌, ◌++◌, Bytes, codes, bytes_eq, some, Result, ok, err, arith, leb, ltb, if◌then◌else◌,
  length, replicate, ◌==◌, length-append,
}
use deso_backend.Core.{Core, OrderEntry, ProfileEntry}

-- decimal digits, with fuel
unfoldable pub print_fuel : ℕ → ℕ → Bytes
print_fuel zero n = []
print_fuel (suc fuel) n = elim (ltb n 10) [
  | true ↦ (b'0' + n) ∷ []
  | false ↦ print_fuel fuel (n / 10) ++ ((b'0' + n % 10) ∷ [])
]

unfoldable pub print_number : ℕ → Bytes
print_number n = print_fuel (n + 1) n

-- digits behind a point, `k` of them
abbrev value_of_digits : ℕ → Bytes → ℕ
value_of_digits total [] = total
value_of_digits total (d ∷ ds) = value_of_digits (10 * total + (d - b'0')) ds

-- "d" or "d.ddd", scaled by 10^k
abbrev pub parse_scaled : Bytes → ℕ → Result Bytes ℕ
parse_scaled [] k = err (codes "empty")
parse_scaled (d ∷ []) k = ok ((d - b'0') * 10 ^ k)
parse_scaled (d ∷ (point ∷ ds)) k =
    ok ((d - b'0') * 10 ^ k + value_of_digits 0 ds * 10 ^ (k - length ds))

abbrev starts_with_minus : Bytes → Bool
starts_with_minus [] = false
starts_with_minus (x ∷ xs) = x == b'-'

abbrev orders_where : (OrderEntry → Bool) → List OrderEntry → List OrderEntry
orders_where test [] = []
orders_where test (o ∷ os) = let rest = orders_where test os in if test o then o ∷ rest else rest

abbrev pub zero_key : Bytes
zero_key = replicate 33 0

-- members only, as every profile is here
abbrev pub members_profile : ProfileEntry
members_profile = record { is_deleted = false; transfer_restriction_status = 2 }

abbrev pub core : Core
core = record {
  mul_overflow = λ a b. (a * b % 2 ^ 256, leb (2 ^ 256) (a * b));
  from_big = λ a. (a % 2 ^ 256, leb (2 ^ 256) a);
  div = λ a b. if b == 0 then 0 else a / b;
  mul_overflow_fits = λ a b h. ground (arith, mod-eq_of_lt h);
  mul_overflow_wraps = λ a b h. ground arith;
  from_big_fits = λ a h. ground (arith, mod-eq_of_lt h);
  from_big_wraps = λ a h. ground arith;
  div_lem = λ a b h. ground arith;
  nanos_per_unit = 1000000000;
  base_units_per_coin = 10 ^ 18;
  one_e38 = 10 ^ 38;
  nanos_per_unit_lem = refl;
  base_units_per_coin_lem = refl;
  one_e38_lem = refl;
  operation_type_ask = 1;
  operation_type_bid = 2;
  operation_types_differ = omega arith;
  fill_type_good_till_cancelled = 1;
  fill_type_fill_or_kill = 2;
  fill_type_immediate_or_cancel = 3;
  calculate_scaled_exchange_rate_from_string = λ text. parse_scaled text 38;
  format_scaled_uint256_as_decimal_string =
      λ v scale. print_number (v / scale) ++ (b'.' ∷ print_number (v % scale));
  scale_float_format_string_to_uint256 =
      λ text scale. parse_scaled text (if scale == 1000000000 then 9 else 18);
  get_num_digits = λ n. length (print_number n);
  print_big = print_number;
  Float = Bytes;
  parse_float = ok;
  is_negative = starts_with_minus;
  zero_pkid = zero_key;
  base58_check_decode = ok;
  base58_check_encode = λ key. key;
  pub_key_bytes_len_compressed = 33;
  View = List OrderEntry;
  get_pkid_for_public_key = λ view key. key;
  get_public_key_for_pkid = λ view pkid. pkid;
  get_orders_for_pair = λ view buying selling. ok (
      orders_where
        (λ o.
          bytes_eq o.buying_dao_coin_creator_pkid buying
          && bytes_eq o.selling_dao_coin_creator_pkid selling)
        view);
  get_orders_for_transactor =
      λ view pkid. ok (orders_where (λ o. bytes_eq o.transactor_pkid pkid) view);
  get_deso_balance_nanos = λ view key. ok 100;
  get_balance_entry = λ view key coin. some 100;
  get_profile_entry = λ view key. some members_profile;
  compute_base_units_to_sell = λ rate quantity. ok (quantity * rate / 10 ^ 38);
  order_base_units_to_sell = λ o. ok o.quantity_to_fill_in_base_units;
  safe_add = λ a b. if leb (2 ^ 256) (a + b) then err (codes "overflow") else ok (a + b);
  safe_add_lem = λ a b h. ground arith;
  safe_add_fits = λ a b h. ground arith;
  transfer_restriction_profile_owner_only = 1;
  transfer_restriction_dao_members_only = 2;
}

-- a number below 10^k has at most k digits
pub digits_below : (fuel n k : ℕ) → 0 < k → n < 10 ^ k → length (print_fuel fuel n) ≤ k
unfolding print_fuel
digits_below zero n k pos h = omega arith
digits_below (suc fuel) n zero pos h = omega arith
digits_below (suc fuel) n (suc zero) pos h = ground arith
digits_below (suc fuel) n (suc (suc k)) pos h = ground (
  arith,
  digits_below fuel (n / 10) (suc k),
  length-append (print_fuel fuel (n / 10)) ((b'0' + n % 10) ∷ []),
)

-- 10^k has k + 1 digits
pub digits_pow : (fuel k : ℕ) → k < fuel → length (print_fuel fuel (10 ^ k)) ≡ k + 1
unfolding print_fuel
digits_pow zero k h = absurd (omega arith)
digits_pow (suc fuel) zero h = ground arith
digits_pow (suc fuel) (suc k) h = ground (
  arith,
  digits_pow fuel k,
  one-le-pow k 10,
  length-append (print_fuel fuel (10 ^ k)) ((b'0' + 10 ^ suc k % 10) ∷ []),
)

pub lt-pow : (k : ℕ) → k < 10 ^ k
lt-pow zero = omega arith
lt-pow (suc k) = omega (arith, lt-pow k)
