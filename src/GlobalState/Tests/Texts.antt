-- ===== src/GlobalState/Tests/Texts.antt =====
-- A list of texts as one text.
use deso_backend.Base.{ℕ, ◌+◌, ◌-◌, ◌≡◌, refl, List, [], ◌∷◌, Bytes, arith, ◌==◌, if◌then◌else◌}

-- a byte is written one higher, a text ends in 0
unfoldable pub write_text : Bytes → Bytes → Bytes
write_text [] after = 0 ∷ after
write_text (x ∷ t) after = (x + 1) ∷ write_text t after

unfoldable pub write_texts : List Bytes → Bytes
write_texts [] = []
write_texts (h ∷ texts) = write_text h (write_texts texts)

unfoldable pub onto_first : ℕ → List Bytes → List Bytes
onto_first x [] = []
onto_first x (h ∷ texts) = (x ∷ h) ∷ texts

unfoldable pub read_texts : Bytes → List Bytes
read_texts [] = []
read_texts (x ∷ text) =
    let rest = read_texts text in if x == 0 then [] ∷ rest else onto_first (x - 1) rest

read_text : (h text : Bytes) → read_texts (write_text h text) ≡ h ∷ read_texts text
unfolding write_text read_texts onto_first
read_text [] text = refl
read_text (x ∷ h) text = ground (arith, read_text h text)

pub read_written_texts : (texts : List Bytes) → read_texts (write_texts texts) ≡ texts
unfolding write_texts read_texts
read_written_texts [] = refl
read_written_texts (h ∷ texts) =
    ground (arith, read_text h (write_texts texts), read_written_texts texts)
