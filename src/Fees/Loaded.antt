-- ===== src/Fees/Loaded.antt =====
-- The fees that a server loads when it starts on a local database (routes/admin_fees.go, and the
-- start of the server in routes/server.go).
use deso_backend.Base.{
  ℕ, ◌≡◌, inl, inr, refl, sym, ap, ◌∙◌, false, List, [], ◌∷◌, All, Bytes, Option, some, Result,
  Result-cases, ok, arith, Bool-cases, ◌==◌,
}
use deso_backend.GlobalState.Encoding.{Encoding}
use deso_backend.GlobalState.Keys.Payments.{key_transaction_fee_outputs_from_txn_type}
use deso_backend.GlobalState.Store.Interface.{Badger, Json, Network}
use deso_backend.GlobalState.Store.Client.{Error, GlobalState, State, has_remote, get}
use deso_backend.GlobalState.Store.Local.{get_is_local}
use deso_backend.Fees.{Output, FeeLib, set_fees, stored_outputs}
use deso_backend.Fees.Server.{load_fees}
use deso_backend.Fees.Cached.{ReadsAs, Agree}

module _ (fl : FeeLib) (en : Encoding) (b : Badger) (j : Json) (n : Network) (gs : GlobalState)
    (local : has_remote gs ≡ false) where
  load_step :
      (t : ℕ) (types : List ℕ) (fees : ℕ → Option (List Output)) (store : State b j n)
      {outputs : List Output}
      → ReadsAs fl en b j n gs local store t outputs
      → load_fees fl en b j n gs (t ∷ types) fees store
        ≡ load_fees fl en b j n gs types (set_fees t outputs fees) store
  unfolding load_fees
  load_step t types fees store read =
      let same =
        ap (λ (x : Result Error (Option Bytes) × State b j n). x.1)
          (get_is_local b j n gs local (key_transaction_fee_outputs_from_txn_type en t) store) in
      rw (load_fees, read, same) refl

  load_reads :
      (t : ℕ) (types : List ℕ) (fees : ℕ → Option (List Output)) (store : State b j n)
      {loaded : ℕ → Option (List Output)}
      → (load_fees fl en b j n gs (t ∷ types) fees store).0 ≡ ok loaded
      → (outputs : List Output) × ReadsAs fl en b j n gs local store t outputs
  unfolding load_fees
  load_reads t types fees store h =
      elim (Result-cases (
        stored_outputs fl
          (get b j n gs (key_transaction_fee_outputs_from_txn_type en t) store).0)) [
            | inl (os, e) ↦ (os, e)
            | inr (inl (x, e)) ↦ ground (arith, e, h)
            | inr (inr e) ↦ ground (arith, e, h)
          ]

  -- the fees of a type stay as they are read
  load_keeps :
      (u : ℕ) (x : List Output) (types : List ℕ) (fees : ℕ → Option (List Output))
      (store : State b j n) {loaded : ℕ → Option (List Output)}
      → ReadsAs fl en b j n gs local store u x
      → fees u ≡ some x
      → (load_fees fl en b j n gs types fees store).0 ≡ ok loaded
      → loaded u ≡ some x
  unfolding load_fees set_fees
  load_keeps u x [] fees store read here h = cc (here, h)
  load_keeps u x (t ∷ types) fees store read here h =
      let (os, first) = load_reads t types fees store h in
      let step =
        ap (λ (r : Result (Unit {0}) (ℕ → Option (List Output)) × State b j n). r.0)
          (load_step t types fees store first) in
      load_keeps u x types (set_fees t os fees) store read
        (elim (Bool-cases (t == u)) [
          | inl same ↦
              let is : t ≡ u = ground (arith, same) in ground (arith, same, is, first, read)
          | inr differ ↦ ground (arith, differ, here)
        ])
        (sym step ∙ h)

  -- what is loaded from a local database is what is read, and the store is as it was
  pub load_fees-Agree :
      (types : List ℕ) (fees : ℕ → Option (List Output)) (store : State b j n)
      {loaded : ℕ → Option (List Output)}
      → (load_fees fl en b j n gs types fees store).0 ≡ ok loaded
      → ((load_fees fl en b j n gs types fees store).1 ≡ store)
        × Agree fl en b j n gs local types loaded store
  unfolding load_fees set_fees
  load_fees-Agree [] fees store h = (refl, tt)
  load_fees-Agree (t ∷ types) fees store h =
      let (os, first) = load_reads t types fees store h in
      let step = load_step t types fees store first in
      let rest_h =
        sym (ap (λ (r : Result (Unit {0}) (ℕ → Option (List Output)) × State b j n). r.0) step)
        ∙ h in
      let (same, rest) = load_fees-Agree types (set_fees t os fees) store rest_h in
      (
        rw step same,
        (
          (os, load_keeps t os types (set_fees t os fees) store first (ground arith) rest_h, first),
          rest,
        ),
      )

  -- a server that starts when the cached fees agree with the store has the same fees
  pub load_fees_again :
      (types : List ℕ) (fees : ℕ → Option (List Output)) (store : State b j n)
      (cached : ℕ → Option (List Output))
      → Agree fl en b j n gs local types cached store
      → (loaded : ℕ → Option (List Output)) × ((load_fees fl en b j n gs types fees store).0
          ≡ ok loaded)
        × All (λ t. loaded t ≡ cached t) types
  unfolding load_fees set_fees
  load_fees_again [] fees store cached agree = (fees, refl, tt)
  load_fees_again (t ∷ types) fees store cached ((os, here, read), agree) =
      let (loaded, h, same) = load_fees_again types (set_fees t os fees) store cached agree in
      let kept = load_keeps t os types (set_fees t os fees) store read (ground arith) h in
      (loaded, rw (load_step t types fees store read) h, (kept ∙ sym here, same))
