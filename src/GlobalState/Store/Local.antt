-- ===== src/GlobalState/Store/Local.antt =====
-- `Put`, `Get`, `BatchGet` and `Delete` on a local database (routes/global_state.go).
use deso_backend.Base.{
  ◌≡◌, ◌≢◌, refl, ap, inl, inr, false, List, [], ◌∷◌, map, Bytes, bytes_eq, bytes_eq_refl,
  bytes_eq→eq, Option, none, some, Result, Result-cases, ok, err, panic, arith, if◌then◌else◌,
  Bool-cases, Yields, Yields-value, Yields-bind, value, error, panics, Option-cases,
}
use deso_backend.GlobalState.Store.Interface.{Badger, Json, Network}
use deso_backend.GlobalState.Store.Client.{
  Error, GlobalState, State, has_remote, update, put, get, get_local, batch_get_local, delete_key,
}

bytes_eq-ne : (x y : Bytes) → bytes_eq x y ≡ false → y ≢ x
bytes_eq-ne x y h e = cc (bytes_eq_refl x, ap (bytes_eq x) e)

module _ (b : Badger) (j : Json) (n : Network) where
  get_local-set :
      (key v other : Bytes) (db : b.Db) {db' : b.Db}
      → b.set db key v ≡ ok db'
      → get_local b j n other db'
        ≡ (if bytes_eq key other then ok (some v) else get_local b j n other db)
  unfolding get_local
  get_local-set key v other db h = elim (Bool-cases (bytes_eq key other)) [
    | inl e ↦ ground (arith, bytes_eq→eq key other e, b.get_item-set_self db key v h)
    | inr e ↦ ground (arith, b.get_item-set_ne db other key v (bytes_eq-ne key other e) h)
  ]

  get_local-delete :
      (key other : Bytes) (db : b.Db) {db' : b.Db}
      → b.delete db key ≡ ok db'
      → get_local b j n other db'
        ≡ (if bytes_eq key other then ok none else get_local b j n other db)
  unfolding get_local
  get_local-delete key other db h = elim (Bool-cases (bytes_eq key other)) [
    | inl e ↦ ground (arith, bytes_eq→eq key other e, b.get_item-delete_self db key h)
    | inr e ↦ ground (arith, b.get_item-delete_ne db other key (bytes_eq-ne key other e) h)
  ]

module _ (b : Badger) (j : Json) (n : Network) (gs : GlobalState)
    (here : has_remote gs ≡ false) where
  -- On a local database, a read is a read of the database and changes nothing.
  pub get_is_local :
      (key : Bytes) (s : State b j n) → get b j n gs key s ≡ (get_local b j n key s.0, s)
  unfolding get
  get_is_local key s = rw (get, here) refl

  -- On a local database, after a put that succeeds, the key has the value and every other key reads
  -- as it did before.
  pub get-put :
      (key v other : Bytes) (s : State b j n)
      → (put b j n gs key v s).0 ≡ ok tt
      → (get b j n gs other (put b j n gs key v s).1).0
        ≡ (if bytes_eq key other then ok (some v) else (get b j n gs other s).0)
  unfolding put get update
  get-put key v other s written = elim (Result-cases (b.set s.0 key v)) [
    | inl (db', e) ↦ rw (here, e) (get_local-set b j n key v other s.0 e)
    | inr failed ↦ ground arith
  ]

  -- On a local database, a put that does not succeed changes nothing.
  pub put_failed :
      (key v : Bytes) (s : State b j n)
      → (put b j n gs key v s).0 ≢ ok tt
      → (put b j n gs key v s).1 ≡ s
  unfolding put update
  put_failed key v s failed = ground arith

  -- On a local database, after a deletion that succeeds, the key is missing and every other key
  -- reads as it did before.
  pub get-delete_key :
      (key other : Bytes) (s : State b j n)
      → (delete_key b j n gs key s).0 ≡ ok tt
      → (get b j n gs other (delete_key b j n gs key s).1).0
        ≡ (if bytes_eq key other then ok none else (get b j n gs other s).0)
  unfolding delete_key get update
  get-delete_key key other s deleted = elim (Result-cases (b.delete s.0 key)) [
    | inl (db', e) ↦ rw (here, e) (get_local-delete b j n key other s.0 e)
    | inr failed ↦ ground arith
  ]

  -- On a local database, a deletion that does not succeed changes nothing.
  pub delete_key_failed :
      (key : Bytes) (s : State b j n)
      → (delete_key b j n gs key s).0 ≢ ok tt
      → (delete_key b j n gs key s).1 ≡ s
  unfolding delete_key update
  delete_key_failed key s failed = ground arith

-- a missing key reads as an empty value in a batch
abbrev pub value_or_empty : Result Error (Option Bytes) → Result Error Bytes
value_or_empty (ok none) = ok []
value_or_empty (ok (some v)) = ok v
value_or_empty (err e) = err e
value_or_empty panic = panic

module _ (b : Badger) (j : Json) (n : Network) where
  -- the values are what each key alone reads as
  abbrev AreReadAt : List Bytes → b.Db → List Bytes → Type 0
  AreReadAt keys db values =
      map ok values ≡ map (λ key. value_or_empty (get_local b j n key db)) keys

  batch_get_local-Yields :
      (keys : List Bytes) (db : b.Db) → Yields (AreReadAt keys db) (batch_get_local b j n keys db)
  unfolding batch_get_local get_local
  batch_get_local-Yields [] db = value refl
  batch_get_local-Yields (key ∷ keys) db = elim (Option-cases (b.get_item db key)) [
    | inl e ↦
        rw (batch_get_local, e)
          (Yields-bind (λ values. ok ([] ∷ values)) (batch_get_local-Yields keys db)
            (λ values h. value (cc (e, h))))
    | inr (r, e) ↦ elim (Result-cases r) [
      | inl (v, f) ↦
          rw (batch_get_local, e, f)
            (Yields-bind (λ values. ok (v ∷ values)) (batch_get_local-Yields keys db)
              (λ values h. value (cc (e, f, h))))
      | inr (inl (x, f)) ↦ rw (batch_get_local, e, f) error
      | inr (inr f) ↦ rw (batch_get_local, e, f) panics
    ]
  ]

  -- A batch that is read from the local database holds, in the order of its keys, what each key
  -- alone reads as, with an empty value for a missing key.
  pub batch_get_local-map :
      (keys : List Bytes) (db : b.Db) {values : List Bytes}
      → batch_get_local b j n keys db ≡ ok values
      → map ok values ≡ map (λ key. value_or_empty (get_local b j n key db)) keys
  batch_get_local-map keys db {values} h = Yields-value (batch_get_local-Yields keys db) h
