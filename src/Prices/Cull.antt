-- ===== src/Prices/Cull.antt =====
-- The in-place loop of `getMaxPriceFromHistoryAndCull` (routes/base.go).
use deso_backend.Base.{
  ℕ, suc, ◌+◌, ◌≡◌, refl, sym, ap, ◌∙◌, inl, inr, List, [], ◌∷◌, ◌++◌, append_assoc, append-nil,
  some, ok, true, false, length, length-append, get_elem?, set, take, ltb, if◌then◌else◌,
  Bool-cases, arith,
}
use deso_backend.Prices.{
  PriceItem, Prices, is_recent, write, cull_loop, get_max_price_from_history_and_cull,
}

-- the items that are in the window
unfoldable pub recent_items : ℕ → ℕ → List PriceItem → List PriceItem
recent_items now lookback [] = []
recent_items now lookback (item ∷ items) =
    let rest = recent_items now lookback items in
    if is_recent now lookback item then item ∷ rest else rest

-- the greatest of a price and the prices of some items
unfoldable pub max_price_from : ℕ → List PriceItem → ℕ
max_price_from m [] = m
max_price_from m (item ∷ items) =
    max_price_from (if ltb m item.last_trade_price then item.last_trade_price else m) items

module _ {A : Type 0} where
  get_elem?-append : (xs ys : List A) (y : A) → get_elem? (xs ++ y ∷ ys) (length xs) ≡ some y
  get_elem?-append [] ys y = refl
  get_elem?-append (x ∷ xs) ys y = get_elem?-append xs ys y

  set-append : (xs ys : List A) (x y : A) → set (xs ++ x ∷ ys) (length xs) y ≡ xs ++ y ∷ ys
  set-append [] ys x y = refl
  set-append (z ∷ xs) ys x y = ap (λ (t : List A). z ∷ t) (set-append xs ys x y)

  take-append : (xs ys : List A) → take (length xs) (xs ++ ys) ≡ xs
  take-append [] ys = refl
  take-append (x ∷ xs) ys = ap (λ (t : List A). x ∷ t) (take-append xs ys)

write_append :
    (kept ys : List PriceItem) (x item : PriceItem)
    → write (kept ++ x ∷ ys) (length kept) item ≡ ok (kept ++ item ∷ ys)
unfolding write
write_append kept ys x item = ground (arith, set-append kept ys x item, length-append kept (x ∷ ys))

-- writing an item that was read over the first of those that were dropped
overwrite :
    (kept junk rest : List PriceItem) (item : PriceItem)
    → (junk' : List PriceItem) × (write (kept ++ (junk ++ item ∷ rest)) (length kept) item
        ≡ ok ((kept ++ item ∷ []) ++ (junk' ++ rest)))
      × (length junk' ≡ length junk)
overwrite kept [] rest item =
    ([], rw (write_append kept rest item item, append_assoc kept (item ∷ []) rest) refl, refl)
overwrite kept (x ∷ junk) rest item = (
  junk ++ item ∷ [],
  rw
      (
        write_append kept (junk ++ item ∷ rest) x item,
        append_assoc kept (item ∷ []) ((junk ++ item ∷ []) ++ rest),
        append_assoc junk (item ∷ []) rest,
      )
      refl,
  omega (arith, length-append junk (item ∷ [])),
)

read_next :
    (kept junk rest : List PriceItem) (item : PriceItem) (index : ℕ)
    → index ≡ length kept + length junk
    → get_elem? (kept ++ (junk ++ item ∷ rest)) index ≡ some item
read_next kept junk rest item index h =
    rw (h, sym (length-append kept junk), sym (append_assoc kept junk (item ∷ rest)))
      (get_elem?-append (kept ++ junk) rest item)

module _ (now lookback : ℕ) where
  step_recent :
      (left index valid_index m : ℕ) (items written : List PriceItem) (item : PriceItem)
      → get_elem? items index ≡ some item
      → is_recent now lookback item ≡ true
      → write items valid_index item ≡ ok written
      → cull_loop now lookback (suc left) index valid_index items m
        ≡ cull_loop now lookback left
            (index + 1)
            (valid_index + 1)
            written
            (if ltb m item.last_trade_price then item.last_trade_price else m)
  unfolding cull_loop
  step_recent left index valid_index m items written item found recent done =
      rw (cull_loop, found, recent, done) refl

  step_old :
      (left index valid_index m : ℕ) (items : List PriceItem) (item : PriceItem)
      → get_elem? items index ≡ some item
      → is_recent now lookback item ≡ false
      → cull_loop now lookback (suc left) index valid_index items m
        ≡ cull_loop now lookback left (index + 1) valid_index items m
  unfolding cull_loop
  step_old left index valid_index m items item found old = rw (cull_loop, found, old) refl

  -- the result of the loop: the recent items behind those that are kept, and their greatest price
  abbrev culled : List PriceItem → List PriceItem → ℕ → List PriceItem → List PriceItem × ℕ × ℕ
  culled kept rest m junk =
      let all = kept ++ recent_items now lookback rest in
      (all ++ junk, length all, max_price_from m (recent_items now lookback rest))

  culled_recent :
      (kept rest junk : List PriceItem) (m : ℕ) (item : PriceItem)
      → is_recent now lookback item ≡ true
      → culled
          (kept ++ item ∷ [])
          rest
          (if ltb m item.last_trade_price then item.last_trade_price else m)
          junk
        ≡ culled kept (item ∷ rest) m junk
  unfolding recent_items max_price_from
  culled_recent kept rest junk m item recent =
      rw (recent, append_assoc kept (item ∷ []) (recent_items now lookback rest)) refl

  culled_old :
      (kept rest junk : List PriceItem) (m : ℕ) (item : PriceItem)
      → is_recent now lookback item ≡ false
      → culled kept rest m junk ≡ culled kept (item ∷ rest) m junk
  unfolding recent_items
  culled_old kept rest junk m item old = rw old refl

  loop_done :
      (kept junk : List PriceItem) (m index valid_index : ℕ)
      → valid_index ≡ length kept
      → cull_loop now lookback 0 index valid_index (kept ++ (junk ++ [])) m
        ≡ ok (culled kept [] m junk)
  unfolding cull_loop recent_items max_price_from
  loop_done kept junk m i v hv = rw (append-nil junk, append-nil kept, hv) refl

  -- the slice is what is kept, what was dropped or copied, and what is still to be read
  cull_loop_lem :
      (kept junk rest : List PriceItem) (m index valid_index : ℕ)
      → index ≡ length kept + length junk
      → valid_index ≡ length kept
      → (junk' : List PriceItem) × (cull_loop now lookback
            (length rest)
            index
            valid_index
            (kept ++ (junk ++ rest))
            m
          ≡ ok (culled kept rest m junk'))
  cull_loop_lem kept junk [] m i v hi hv = (junk, loop_done kept junk m i v hv)
  cull_loop_lem kept junk (item ∷ rest) m i v hi hv =
      elim (Bool-cases (is_recent now lookback item)) [
        | inl recent ↦
            let (junk', written, same) = overwrite kept junk rest item in
            let (left, ih) =
              cull_loop_lem (kept ++ item ∷ []) junk' rest
                (if ltb m item.last_trade_price then item.last_trade_price else m) (i + 1) (v + 1)
                (omega (arith, hi, same, length-append kept (item ∷ [])))
                (omega (arith, hv, length-append kept (item ∷ []))) in
            (
              left,
              step_recent _ i v m _ _ item (read_next kept junk rest item i hi) recent
                    (ap (λ (t : ℕ). write (kept ++ (junk ++ item ∷ rest)) t item) hv ∙ written)
                  ∙ (ih ∙ ap ok (culled_recent kept rest left m item recent)),
            )
        | inr old ↦
            let (left, ih) =
              cull_loop_lem kept (junk ++ item ∷ []) rest m (i + 1) v
                (omega (arith, hi, length-append junk (item ∷ []))) hv in
            (
              left,
              step_old _ i v m _ item (read_next kept junk rest item i hi) old
                  ∙ (shifted (i + 1) v left ih ∙ ap ok (culled_old kept rest left m item old)),
            )
      ]
    where
      shifted :
          (i v : ℕ) (left : List PriceItem)
          → cull_loop now lookback (length rest) i v (kept ++ ((junk ++ item ∷ []) ++ rest)) m
            ≡ ok (culled kept rest m left)
          → cull_loop now lookback (length rest) i v (kept ++ (junk ++ item ∷ rest)) m
            ≡ ok (culled kept rest m left)
      shifted i v left h = rw (sym (append_assoc junk (item ∷ []) rest)) h

  -- what the loop leaves up to `valid_index`
  cull_history :
      (history : List PriceItem)
      → (junk : List PriceItem) × (cull_loop now lookback (length history) 0 0 history 0
          ≡ ok (
            recent_items now lookback history ++ junk,
            length (recent_items now lookback history),
            max_price_from 0 (recent_items now lookback history),
          ))
  cull_history history = cull_loop_lem [] [] history 0 0 0 refl refl

-- Culling the price history in place, with an index to read and an index to write, does not panic:
-- the history that is left is the list of the items in the lookback window, in their order, the
-- result is the greatest of their prices, or 0, and no other field changes.
pub get_max_price_lem :
    (now : ℕ) (s : Prices)
    → let recent = recent_items now s.last_trade_price_lookback s.last_trade_deso_price_history in
      get_max_price_from_history_and_cull now s
      ≡ ok (max_price_from 0 recent, record s { last_trade_deso_price_history = recent })
unfolding get_max_price_from_history_and_cull
get_max_price_lem now s =
    let history = s.last_trade_deso_price_history in
    let recent = recent_items now s.last_trade_price_lookback history in
    let (junk, e) = cull_history now s.last_trade_price_lookback history in
    rw (e, take-append recent junk) refl
