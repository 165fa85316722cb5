-- ===== src/NftDrop/Preserved.antt =====
-- `AdminUpdateNFTDrop` and the drops that a local database holds (routes/admin_nft.go).
use deso_backend.Base.{
  ℕ, ◌+◌, ◌^◌, ◌≤◌, ◌<◌, ◌≡◌, ◌≢◌, ◌⊎◌, inl, inr, refl, sym, ap, subst, false, not, ◌&&◌, [],
  length, Bytes, Result, Result-cases, ok, err, panic, ◌>>=◌, arith, Bool-cases, ltb, ◌==◌,
  if◌then◌else◌, ℤ-cases, pos,
}
use deso_backend.GlobalState.Encoding.{Encoding}
use deso_backend.GlobalState.Store.Interface.{Badger, Json, Network}
use deso_backend.GlobalState.Store.Client.{GlobalState, State, has_remote}
use deso_backend.NftDrop.{
  DropEntry, UpdateRequest, DropError, no_drop, DropCodec, Posts, new_drop_entry,
  updated_drop_entry, get_latest_nft_drop_entry, get_nft_drop_entry, store_drop_entry, apply_update,
  admin_update_nft_drop,
}
use deso_backend.NftDrop.Book.{
  IsDropBook, Stored, new-IsDropBook, kept-IsDropBook, moved-IsDropBook,
}
use deso_backend.NftDrop.Decision.{new_drop_entry_lem, updated_drop_entry_lem}
use deso_backend.NftDrop.Storage.{
  Latest, Held, Held-functional, store_drop_entry_lem, get_nft_drop_entry_lem,
  get_latest_nft_drop_entry_lem,
}

pub pair_eq {ℓ} : {A B : Type ℓ} {p : A × B} {a : A} {b : B} → p.0 ≡ a → p.1 ≡ b → p ≡ (a, b)
pair_eq e f = λ i. (e i, f i)

module _ (dc : DropCodec) (en : Encoding) (b : Badger) (j : Json) (n : Network)
    (gs : GlobalState) where
  -- The request, when it is read, has a number that is at most one above the latest number; both
  -- its numbers are of 64 bits.
  abbrev pub AsksNext : Result Bytes UpdateRequest → State b j n → Type 0
  AsksNext request s =
      (r : UpdateRequest) (number : ℕ) (latest : DropEntry)
      → request ≡ ok r
      → r.drop_number ≡ pos number
      → (get_latest_nft_drop_entry dc en b j n gs s).0 ≡ ok latest
      → (number < 2 ^ 63) × (number ≤ latest.drop_number + 1)

module _ (dc : DropCodec) (en : Encoding) (b : Badger) (j : Json) (n : Network) (gs : GlobalState)
    (local : has_remote gs ≡ false)
    (encodes : (d : DropEntry) → (text : Bytes) × (dc.gob.marshal d ≡ ok text))
    (no_bytes : (d : DropEntry) → dc.gob.unmarshal [] ≢ ok d) where
  abbrev pub DropsOf : b.Db → ℕ → DropEntry → Type 0
  DropsOf db = Held dc en b j n gs local encodes no_bytes db

  -- what is stored keeps the book when every entry that the checks let through does
  store_drop_entry-IsDropBook :
      (now number : ℕ) (entry : Result DropError DropEntry) (s : State b j n)
      → number < 2 ^ 64
      → IsDropBook now (DropsOf s.0)
      → ((d : DropEntry)
          → entry ≡ ok d
          → (After : ℕ → DropEntry → Type 0) → Stored (DropsOf s.0) number d After
          → IsDropBook now After)
      → IsDropBook now (DropsOf (store_drop_entry dc en b j n gs number entry s).1.0)
  store_drop_entry-IsDropBook now number entry s bound book keeps =
      elim (store_drop_entry_lem dc en b j n gs local encodes no_bytes number entry s bound) [
        | inl same ↦ subst (λ (t : State b j n). IsDropBook now (DropsOf t.0)) (sym same) book
        | inr (d, is_ok, stored) ↦
            keeps d is_ok (DropsOf (store_drop_entry dc en b j n gs number entry s).1.0) stored
      ]

  -- an edit of an entry that is held
  updated-IsDropBook :
      (now number tstamp : ℕ) (latest old d : DropEntry) (r : UpdateRequest)
      (view : Result Bytes Posts) (s : State b j n) (After : ℕ → DropEntry → Type 0)
      → IsDropBook now (DropsOf s.0)
      → DropsOf s.0 number old
      → (number ≡ latest.drop_number → (m : ℕ) (e : DropEntry) → DropsOf s.0 m e → m ≤ number)
      → updated_drop_entry dc now latest r number tstamp view old ≡ ok d
      → Stored (DropsOf s.0) number d After
      → IsDropBook now After
  updated-IsDropBook now number tstamp latest old d r view s After book was last is_ok stored =
      let (same_number, time) =
        updated_drop_entry_lem dc now latest r number tstamp view old is_ok in
      let named : d.drop_number ≡ number = cc (same_number, book.filed number old was) in
      elim time [
        | inl same_time ↦ kept-IsDropBook book stored named old was same_time
        | inr (is_last, future) ↦ moved-IsDropBook book stored named old was (last is_last) future
      ]

  -- the branches below the two reads
  pub apply_update_lem :
      (now number tstamp : ℕ) (view : Result Bytes Posts) (r : UpdateRequest) (s : State b j n)
      (latest : DropEntry) (found : Result DropError DropEntry)
      → get_latest_nft_drop_entry dc en b j n gs s ≡ (ok latest, s)
      → get_nft_drop_entry dc en b j n gs number s ≡ (found, s)
      → apply_update dc en b j n gs now view r number tstamp s ≡ (
          if ltb latest.drop_number number
          then store_drop_entry dc en b j n gs number (new_drop_entry now latest tstamp) s
          else if number == latest.drop_number
          then store_drop_entry dc en b j n gs number
              (updated_drop_entry dc now latest r number tstamp view latest)
              s
          else store_drop_entry dc en b j n gs number
              (found >>= updated_drop_entry dc now latest r number tstamp view)
              s)
  unfolding apply_update
  apply_update_lem now number tstamp view r s latest found e1 e2 =
      let e3 = ap (λ (x : Result DropError DropEntry × State b j n). x.1) e1 in
      rw (apply_update, e1, e3, e2) refl

  -- what the reads found
  abbrev IsLatest : b.Db → DropEntry → Type 0
  IsLatest db d =
      ((d ≡ no_drop) × ((m : ℕ) (e : DropEntry) → ¬ DropsOf db m e))
      ⊎ (k : ℕ) × DropsOf db k d × ((m : ℕ) (e : DropEntry) → DropsOf db m e → m ≤ k)

  -- a new drop, when the request is for the next number
  new_drop-IsDropBook :
      (now number tstamp : ℕ) (latest d : DropEntry) (s : State b j n)
      (After : ℕ → DropEntry → Type 0)
      → number < 2 ^ 63
      → IsDropBook now (DropsOf s.0)
      → IsLatest s.0 latest
      → latest.drop_number < number
      → number ≤ latest.drop_number + 1
      → new_drop_entry now latest tstamp ≡ ok d
      → Stored (DropsOf s.0) number d After
      → IsDropBook now After
  new_drop-IsDropBook now number tstamp latest d s After bound book is_latest above next is_ok
        stored =
      let (numbered, dated, past, after) = new_drop_entry_lem now latest tstamp is_ok in
      let named : d.drop_number ≡ number = ground (arith, numbered) in
      elim is_latest [
        | inl (nothing, empty) ↦
            new-IsDropBook book stored named (λ m e held. absurd (empty m e held))
        | inr (k, held_k, last) ↦ new-IsDropBook book stored named (λ m e held.
            let here = book.filed k latest held_k in
            let m_le = last m e held in
            elim (Bool-cases (ltb m k)) [
              | inl before ↦
                  let times = book.dated m k e latest (ground (arith, before)) held held_k in
                  (omega (arith, here, m_le), omega (arith, times.0, dated, after), times.1)
              | inr not_before ↦
                  let same : m ≡ k = ground (arith, not_before, m_le) in
                  let is_latest_e : e ≡ latest =
                    Held-functional dc en b j n gs local encodes no_bytes s.0 k e latest
                      (subst (λ (x : ℕ). DropsOf s.0 x e) same held) held_k in
                  let times = ap (λ (x : DropEntry). x.drop_tstamp_nanos) is_latest_e in
                  (
                    omega (arith, here, m_le),
                    omega (arith, times, dated, after),
                    omega (arith, times, past),
                  )
            ])
      ]

  apply_update-IsDropBook :
      (now number tstamp : ℕ) (view : Result Bytes Posts) (r : UpdateRequest) (s : State b j n)
      (latest : DropEntry) (found : Result DropError DropEntry)
      → 0 < number
      → number < 2 ^ 63
      → IsDropBook now (DropsOf s.0)
      → IsLatest s.0 latest
      → number ≤ latest.drop_number + 1
      → ((d : DropEntry) → found ≡ ok d → DropsOf s.0 number d)
      → get_latest_nft_drop_entry dc en b j n gs s ≡ (ok latest, s)
      → get_nft_drop_entry dc en b j n gs number s ≡ (found, s)
      → IsDropBook now (DropsOf (apply_update dc en b j n gs now view r number tstamp s).1.0)
  apply_update-IsDropBook now number tstamp view r s latest found positive bound book is_latest next
        held e1 e2 =
      let small : number < 2 ^ 64 = omega (arith, bound) in
      rw (apply_update_lem now number tstamp view r s latest found e1 e2)
        (elim (Bool-cases (ltb latest.drop_number number)) [
          | inl above ↦ rw above (
              store_drop_entry-IsDropBook now number (new_drop_entry now latest tstamp) s small book
                (λ d is_ok After stored.
                  new_drop-IsDropBook now number tstamp latest d s After bound book is_latest
                    (ground (arith, above)) next is_ok stored))
          | inr not_above ↦ rw not_above (elim is_latest [
            | inl (nothing, empty) ↦ absurd (ground (arith, nothing, not_above, positive))
            | inr (k, held_k, last) ↦
                let here : latest.drop_number ≡ k = book.filed k latest held_k in
                elim (Bool-cases (number == latest.drop_number)) [
                  | inl same ↦
                      let at_k : k ≡ number = ground (arith, same, here) in
                      rw same (
                        store_drop_entry-IsDropBook now number
                          (updated_drop_entry dc now latest r number tstamp view latest) s small
                          book
                          (λ d is_ok After stored.
                            updated-IsDropBook now number tstamp latest latest d r view s After book
                              (subst (λ (x : ℕ). DropsOf s.0 x latest) at_k held_k)
                              (λ e m entry h. omega (arith, at_k, last m entry h)) is_ok stored))
                  | inr other ↦ rw other (
                      store_drop_entry-IsDropBook now number
                        (found >>= updated_drop_entry dc now latest r number tstamp view) s small
                        book
                        (λ d is_ok After stored. elim (Result-cases found) [
                          | inl (old, e) ↦
                              updated-IsDropBook now number tstamp latest old d r view s After book
                                (held old e) (λ is. absurd (ground (arith, other, is)))
                                (ground (arith, e, is_ok)) stored
                          | inr (inl (x, e)) ↦ ground (arith, e, is_ok)
                          | inr (inr e) ↦ ground (arith, e, is_ok)
                        ]))
                ]
          ])
        ])

  apply_update_failed :
      (now number tstamp : ℕ) (view : Result Bytes Posts) (r : UpdateRequest) (s : State b j n)
      → Latest en b j n s.0
      → ((e : DropError) × ((get_latest_nft_drop_entry dc en b j n gs s).0 ≡ err e))
        ⊎ ((get_latest_nft_drop_entry dc en b j n gs s).0 ≡ panic)
      → (apply_update dc en b j n gs now view r number tstamp s).1 ≡ s
  unfolding apply_update
  apply_update_failed now number tstamp view r s seeks failed =
      let (same, found) =
        get_latest_nft_drop_entry_lem dc en b j n gs local encodes no_bytes s seeks in
      elim failed [ inl (x, e) ↦ rw (apply_update, e) same | inr e ↦ rw (apply_update, e) same ]

  apply_update_served :
      (now number tstamp : ℕ) (view : Result Bytes Posts) (r : UpdateRequest) (s : State b j n)
      (latest : DropEntry)
      → 0 < number
      → number < 2 ^ 63
      → Latest en b j n s.0
      → (get_latest_nft_drop_entry dc en b j n gs s).0 ≡ ok latest
      → number ≤ latest.drop_number + 1
      → IsDropBook now (DropsOf s.0)
      → IsDropBook now (DropsOf (apply_update dc en b j n gs now view r number tstamp s).1.0)
  apply_update_served now number tstamp view r s latest positive bound seeks e next book =
      let (same1, found1) =
        get_latest_nft_drop_entry_lem dc en b j n gs local encodes no_bytes s seeks in
      let (same2, found2) =
        get_nft_drop_entry_lem dc en b j n gs local encodes no_bytes number s
          (omega (arith, bound)) in
      apply_update-IsDropBook now number tstamp view r s latest
        (get_nft_drop_entry dc en b j n gs number s).0 positive bound book (found1 latest e) next
        found2 (pair_eq e same1) (pair_eq refl same2)

  with_asks :
      (now : ℕ) (view : Result Bytes Posts) (s : State b j n) (r : UpdateRequest)
      (number tstamp : ℕ)
      → r.drop_number ≡ pos number
      → (number == 0) ≡ false
      → Latest en b j n s.0
      → AsksNext dc en b j n gs (ok r) s
      → IsDropBook now (DropsOf s.0)
      → IsDropBook now (DropsOf (apply_update dc en b j n gs now view r number tstamp s).1.0)
  with_asks now view s r number tstamp e positive seeks asks book =
      elim (Result-cases (get_latest_nft_drop_entry dc en b j n gs s).0) [
        | inl (latest, is_latest) ↦
            let (small, next) = asks r number latest refl e is_latest in
            apply_update_served now number tstamp view r s latest (ground (arith, positive)) small
              seeks is_latest next book
        | inr failed ↦ rw (apply_update_failed now number tstamp view r s seeks failed) book
      ]

  pub admin_update_nft_drop-IsDropBook :
      (now : ℕ) (view : Result Bytes Posts) (request : Result Bytes UpdateRequest) (s : State b j n)
      → Latest en b j n s.0
      → AsksNext dc en b j n gs request s
      → IsDropBook now (DropsOf s.0)
      → IsDropBook now (DropsOf (admin_update_nft_drop dc en b j n gs now view request s).1.0)
  unfolding admin_update_nft_drop
  admin_update_nft_drop-IsDropBook now view (err e) s seeks asks book = book
  admin_update_nft_drop-IsDropBook now view panic s seeks asks book = book
  admin_update_nft_drop-IsDropBook now view (ok r) s seeks asks book =
      elim (ℤ-cases r.drop_number) [
        | inr (m, e) ↦ rw e book
        | inl (number, e) ↦ elim (ℤ-cases r.drop_tstamp_nanos) [
          | inr (m, f) ↦ rw (e, f) book
          | inl (tstamp, f) ↦
              rw (e, f)
                (elim (Bool-cases (number == 0)) [
                  | inl zero_number ↦ rw zero_number book
                  | inr positive ↦
                      rw positive
                        (elim (Bool-cases (
                          not (length r.nft_hash_hex_to_add == 0)
                          && not (length r.nft_hash_hex_to_remove == 0))) [
                            | inl both ↦ rw both book
                            | inr fine ↦
                                rw fine
                                  (with_asks now view s r number tstamp e positive seeks asks book)
                          ])
                ])
        ]
      ]
