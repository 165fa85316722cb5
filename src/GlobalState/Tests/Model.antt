-- ===== src/GlobalState/Tests/Model.antt =====
-- Small instances of the code that the global state uses: integers as bytes, a database that is an
-- association list, and a text format for requests and responses.
use deso_backend.Base.{
  ℕ, zero, suc, ◌/◌, ◌%◌, ◌^◌, ◌<◌, ◌≡◌, ◌≢◌, refl, ap, List, [], ◌∷◌, ◌++◌, Bytes, codes, bytes_eq,
  bytes_eq_refl, bytes_eq→eq, Option, none, some, Result, ok, err, arith, length, take, drop, ◌+◌,
  ◌==◌, length-take, length-append, subst, sym, false, if◌then◌else◌,
}
use deso_backend.GlobalState.Encoding.{Encoding}
use deso_backend.GlobalState.Store.Interface.{Badger, Codec, Json, Network}

unfoldable pub big_endian : ℕ → Bytes
big_endian n =
    (n / 72057594037927936 % 256)
    ∷ (n / 281474976710656 % 256)
    ∷ (n / 1099511627776 % 256)
    ∷ (n / 4294967296 % 256)
    ∷ (n / 16777216 % 256)
    ∷ (n / 65536 % 256)
    ∷ (n / 256 % 256)
    ∷ (n % 256)
    ∷ []

same_bytes :
    (a b c d e f g h a' b' c' d' e' f' g' h' : ℕ)
    → ◌≡◌ {A = Bytes}
        (a ∷ b ∷ c ∷ d ∷ e ∷ f ∷ g ∷ h ∷ [])
        (a' ∷ b' ∷ c' ∷ d' ∷ e' ∷ f' ∷ g' ∷ h' ∷ [])
    → (a ≡ a') × (b ≡ b') × (c ≡ c') × (d ≡ d') × (e ≡ e') × (f ≡ f') × (g ≡ g') × (h ≡ h')
same_bytes a b c d e f g h a' b' c' d' e' f' g' h' p = (cc, cc, cc, cc, cc, cc, cc, cc)

pub big_endian-injective : (n m : ℕ) → n < 2 ^ 64 → m < 2 ^ 64 → big_endian n ≡ big_endian m → n ≡ m
unfolding big_endian
big_endian-injective n m hn hm e =
    let (a, b, c, d, x, f, g, h) = same_bytes _ _ _ _ _ _ _ _ _ _ _ _ _ _ _ _ e in omega arith

pub big_endian-length : (n : ℕ) → length (big_endian n) ≡ 8
unfolding big_endian
big_endian-length n = refl

abbrev pub encoding : Encoding
encoding = record {
  encode_uint64 = big_endian;
  encode_uint64-length = big_endian-length;
  encode_uint64-injective = big_endian-injective;
  uint_to_buf = λ n. n ∷ [];
  uint_to_buf-injective = λ n m hn hm e. cc;
  to_lower = λ text. text;
  format_e164 = ok;
}

abbrev pub Table : Type 0
Table = List (Bytes × Bytes)

unfoldable pub table_get : Table → Bytes → Option (Result Bytes Bytes)
table_get [] key = none
table_get ((k, v) ∷ rows) key =
    let rest = table_get rows key in if bytes_eq k key then some (ok v) else rest

-- an empty key is refused
unfoldable pub table_set : Table → Bytes → Bytes → Result Bytes Table
table_set rows [] v = err (codes "empty key")
table_set rows (x ∷ key) v = ok ((x ∷ key, v) ∷ rows)

unfoldable pub table_without : Table → Bytes → Table
table_without [] key = []
table_without ((k, v) ∷ rows) key =
    let rest = table_without rows key in if bytes_eq k key then rest else (k, v) ∷ rest

pub get-set_self :
    (rows : Table) (k v : Bytes) {after : Table}
    → table_set rows k v ≡ ok after
    → table_get after k ≡ some (ok v)
unfolding table_get table_set
get-set_self rows [] v h = absurd cc
get-set_self rows (x ∷ k) v h = ground (arith, bytes_eq_refl (x ∷ k))

pub get-set_ne :
    (rows : Table) (j k v : Bytes) {after : Table}
    → j ≢ k
    → table_set rows k v ≡ ok after
    → table_get after j ≡ table_get rows j
unfolding table_get table_set
get-set_ne rows j [] v other h = absurd cc
get-set_ne rows j (x ∷ k) v other h = ground (arith, bytes_eq→eq (x ∷ k) j)

pub get-without_self : (rows : Table) (k : Bytes) → table_get (table_without rows k) k ≡ none
unfolding table_get table_without
get-without_self [] k = refl
get-without_self ((j, v) ∷ rows) k = ground (arith, get-without_self rows k)

pub get-without_ne :
    (rows : Table) (j k : Bytes) → j ≢ k → table_get (table_without rows k) j ≡ table_get rows j
unfolding table_get table_without
get-without_ne [] j k other = refl
get-without_ne ((i, v) ∷ rows) j k other =
    ground (arith, get-without_ne rows j k other, bytes_eq→eq i k, bytes_eq→eq i j)

abbrev pub badger : Badger
badger = record {
  Db = Table;
  get_item = table_get;
  set = table_set;
  delete = λ rows k. ok (table_without rows k);
  paginated = λ rows start valid longest count reverse values. ok ([], []);
  get_item-set_self = get-set_self;
  get_item-set_ne = get-set_ne;
  get_item-delete_self = λ rows k {db'} h. ground (arith, get-without_self rows k);
  get_item-delete_ne = λ rows j k {db'} other h. ground (arith, get-without_ne rows j k other);
}

-- a pair as the lengths of its texts and both texts
unfoldable pub read_pair : Bytes → Result Bytes (Bytes × Bytes)
read_pair [] = err (codes "empty")
read_pair (n ∷ []) = err (codes "cut off")
read_pair (n ∷ m ∷ text) =
    if length text == n + m then ok (take n text, drop n text) else err (codes "cut off")

take-append : (xs ys : Bytes) → take (length xs) (xs ++ ys) ≡ xs
take-append [] ys = refl
take-append (x ∷ xs) ys = ap (λ (t : Bytes). x ∷ t) (take-append xs ys)

drop-append : (xs ys : Bytes) → drop (length xs) (xs ++ ys) ≡ ys
drop-append [] ys = refl
drop-append (x ∷ xs) ys = drop-append xs ys

abbrev pub write_pair : Bytes × Bytes → Bytes
write_pair (k, v) = length k ∷ length v ∷ (k ++ v)

pub read_written_pair :
    (p : Bytes × Bytes) {text : Bytes}
    → ◌≡◌ {A = Result Bytes Bytes} (ok (write_pair p)) (ok text)
    → read_pair text ≡ ok p
unfolding read_pair
read_written_pair (k, v) h = ground (arith, take-append k v, drop-append k v, length-append k v)

pub read_cut_pair :
    (p : Bytes × Bytes) {text : Bytes}
    → ◌≡◌ {A = Result Bytes Bytes} (ok (write_pair p)) (ok text)
    → (n : ℕ) → n < length text
    → (e : Bytes) × (read_pair (take n text) ≡ err e)
unfolding read_pair
read_cut_pair (k, v) {text} h n short =
    let same : write_pair (k, v) ≡ text = cc h in
    subst (λ (t : Bytes). (e : Bytes) × (read_pair (take n t) ≡ err e)) same
      (cut n (subst (λ (t : Bytes). n < length t) (sym same) short))
  where
    cut :
        (n : ℕ)
        → n < length (write_pair (k, v))
        → (e : Bytes) × (read_pair (take n (write_pair (k, v))) ≡ err e)
    cut zero short = (codes "empty", refl)
    cut (suc zero) short = (codes "cut off", refl)
    cut (suc (suc i)) short =
        let has = length-take i (k ++ v) (omega arith) in
        let both = length-append k v in
        let differ : (length (take i (k ++ v)) == length k + length v) ≡ false =
          ground (arith, has, both, short) in
        (codes "cut off", rw differ refl)

abbrev pair_codec : Codec (Bytes × Bytes)
pair_codec = record {
  marshal = λ p. ok (write_pair p);
  unmarshal = read_pair;
  unmarshal-marshal = read_written_pair;
}

abbrev text_codec : Codec Bytes
text_codec = record { marshal = ok; unmarshal = ok; unmarshal-marshal = λ a {text} h. ground arith }

unfoldable pub read_option : Bytes → Result Bytes (Option Bytes)
read_option (suc zero ∷ v) = ok (some v)
read_option other = ok none

abbrev pub write_option : Option Bytes → Bytes
write_option none = []
write_option (some v) = 1 ∷ v

pub read_written_option :
    (o : Option Bytes) {text : Bytes}
    → ◌≡◌ {A = Result Bytes Bytes} (ok (write_option o)) (ok text)
    → read_option text ≡ ok o
unfolding read_option
read_written_option none h = ground arith
read_written_option (some v) h = ground arith

abbrev option_codec : Codec (Option Bytes)
option_codec = record {
  marshal = λ o. ok (write_option o);
  unmarshal = read_option;
  unmarshal-marshal = read_written_option;
}

abbrev unit_codec : Codec (Unit {0})
unit_codec = record {
  marshal = λ u. ok [];
  unmarshal = λ text. ok tt;
  unmarshal-marshal = λ u {text} h. refl;
}

-- a codec for messages that are not sent here
abbrev unused : {A : Type 0} → Codec A
unused = record {
  marshal = λ a. err [];
  unmarshal = λ text. err [];
  unmarshal-marshal = λ a {text} h. absurd cc;
}

pub error_is_none : (e : Bytes) → read_option (0 ∷ e) ≡ ok none
unfolding read_option
error_is_none e = refl

abbrev pub json : Json
json = record {
  put_request = pair_codec;
  put_request-cut = read_cut_pair;
  get_request = text_codec;
  get_response = option_codec;
  batch_get_request = unused;
  batch_get_response = unused;
  delete_request = text_codec;
  seek_request = unused;
  seek_response = unused;
  empty_response = unit_codec;
  error_body = λ e. 0 ∷ e;
  get_response-error_body = error_is_none;
}

-- no other node answers
abbrev pub no_network : Network
no_network = record { World = Unit {0}; post = λ world url body. (none, tt) }
