-- ===== src/NftDrop/Book.antt =====
-- The drops that are kept, as a relation between numbers and entries, and what a new drop and an
-- edit do to it (routes/admin_nft.go).
use deso_backend.Base.{ℕ, ◌≤◌, ◌<◌, ◌≡◌, ◌≢◌, ◌⊎◌, inl, inr, ap, arith}
use deso_backend.NftDrop.{DropEntry}

-- Each entry is filed under its own number. The drop times do not fall, and a drop that another
-- follows is not in the future.
pub record IsDropBook (now : ℕ) (Held : ℕ → DropEntry → Type 0) : Type 0 where
  pub filed : (m : ℕ) (d : DropEntry) → Held m d → d.drop_number ≡ m
  pub dated :
      (m l : ℕ) (d e : DropEntry)
      → m < l
      → Held m d
      → Held l e
      → (d.drop_tstamp_nanos ≤ e.drop_tstamp_nanos) × (d.drop_tstamp_nanos ≤ now)

-- time passes
pub IsDropBook-later :
    {now later : ℕ} {Held : ℕ → DropEntry → Type 0}
    → now ≤ later
    → IsDropBook now Held
    → IsDropBook later Held
IsDropBook-later h book = record {
  filed = book.filed;
  dated = λ m l d e lt hd he.
      ((book.dated m l d e lt hd he).0, omega (arith, (book.dated m l d e lt hd he).1));
}

-- an entry is stored: what is held then is the new entry, or was held under another number
abbrev pub Stored : (ℕ → DropEntry → Type 0) → ℕ → DropEntry → (ℕ → DropEntry → Type 0) → Type 0
Stored Held n new After =
    (m : ℕ) (d : DropEntry) → After m d → ((m ≡ n) × (d ≡ new)) ⊎ ((m ≢ n) × Held m d)

-- the new drop is after all others
abbrev pub IsLast : ℕ → (ℕ → DropEntry → Type 0) → ℕ → DropEntry → Type 0
IsLast now Held n new =
    (m : ℕ) (d : DropEntry)
    → Held m d
    → (m < n) × (d.drop_tstamp_nanos ≤ new.drop_tstamp_nanos) × (d.drop_tstamp_nanos ≤ now)

module _ {now : ℕ} {Held : ℕ → DropEntry → Type 0} {n : ℕ} {new : DropEntry}
    {After : ℕ → DropEntry → Type 0} (book : IsDropBook now Held) (stored : Stored Held n new After)
    (named : new.drop_number ≡ n) where
  stored-filed : (m : ℕ) (d : DropEntry) → After m d → d.drop_number ≡ m
  stored-filed m d h = elim (stored m d h) [
    | inl (same, e) ↦ rw (e, same) named
    | inr (other, held) ↦ book.filed m d held
  ]

  pub new-IsDropBook : IsLast now Held n new → IsDropBook now After
  new-IsDropBook last = record {
    filed = stored-filed;
    dated = λ m l d e lt hd he. elim (stored m d hd) [
      | inl (m_is_n, d_is_new) ↦ elim (stored l e he) [
        | inl (l_is_n, e_is_new) ↦ absurd (omega arith)
        | inr (l_ne_n, held_l) ↦ absurd (omega (arith, (last l e held_l).0))
      ]
      | inr (m_ne_n, held_m) ↦ elim (stored l e he) [
        | inl (l_is_n, e_is_new) ↦ (rw e_is_new ((last m d held_m).1), (last m d held_m).2)
        | inr (l_ne_n, held_l) ↦ book.dated m l d e lt held_m held_l
      ]
    ];
  }

  -- an edit that keeps the time of the entry
  pub kept-IsDropBook :
      (old : DropEntry)
      → Held n old
      → new.drop_tstamp_nanos ≡ old.drop_tstamp_nanos
      → IsDropBook now After
  kept-IsDropBook old was same = record {
    filed = stored-filed;
    dated = λ m l d e lt hd he. elim (stored m d hd) [
      | inl (m_is_n, d_is_new) ↦ elim (stored l e he) [
        | inl (l_is_n, e_is_new) ↦ absurd (omega arith)
        | inr (l_ne_n, held_l) ↦
            let after_n = book.dated n l old e (omega arith) was held_l in
            let time = ap (λ (x : DropEntry). x.drop_tstamp_nanos) d_is_new in
            (omega (arith, after_n.0, time), omega (arith, after_n.1, time))
      ]
      | inr (m_ne_n, held_m) ↦ elim (stored l e he) [
        | inl (l_is_n, e_is_new) ↦
            let before_n = book.dated m n d old (omega arith) held_m was in
            let time = ap (λ (x : DropEntry). x.drop_tstamp_nanos) e_is_new in
            (omega (arith, before_n.0, time), before_n.1)
        | inr (l_ne_n, held_l) ↦ book.dated m l d e lt held_m held_l
      ]
    ];
  }

  -- an edit that moves the last drop into the future
  pub moved-IsDropBook :
      (old : DropEntry)
      → Held n old
      → ((m : ℕ) (d : DropEntry) → Held m d → m ≤ n)
      → now < new.drop_tstamp_nanos
      → IsDropBook now After
  moved-IsDropBook old was last future = record {
    filed = stored-filed;
    dated = λ m l d e lt hd he. elim (stored m d hd) [
      | inl (m_is_n, d_is_new) ↦ elim (stored l e he) [
        | inl (l_is_n, e_is_new) ↦ absurd (omega arith)
        | inr (l_ne_n, held_l) ↦ absurd (omega (arith, last l e held_l))
      ]
      | inr (m_ne_n, held_m) ↦ elim (stored l e he) [
        | inl (l_is_n, e_is_new) ↦
            let before_n = book.dated m n d old (omega arith) held_m was in
            let time = ap (λ (x : DropEntry). x.drop_tstamp_nanos) e_is_new in
            (omega (arith, before_n.1, time), before_n.1)
        | inr (l_ne_n, held_l) ↦ book.dated m l d e lt held_m held_l
      ]
    ];
  }
