-- ===== src/Base/OrdSet/Size.antt =====
-- How many entries a set holds.
use umay.Base.{◌+◌, ◌≤◌, ◌<◌, List, [], ◌∷◌, length, arith}
use umay.Base.Ord.{Ord}
use umay.Base.OrdSet.{insert, extend, collect}

module _ {ℓ} {K : Type ℓ} ⦃o : Ord K⦄ where
  length-insert :
      (a : K) (s : List K)
      → (0 < length (insert a s))
        × (length s ≤ length (insert a s))
        × (length (insert a s) ≤ length s + 1)
  unfolding insert
  length-insert a [] = ground arith
  length-insert a (x ∷ xs) = ground (arith, length-insert a xs)

  length-extend :
      (s items : List K)
      → (length s ≤ length (extend s items)) × (length (extend s items) ≤ length s + length items)
  unfolding extend
  length-extend s [] = (omega arith, omega arith)
  length-extend s (a ∷ items) =
      let (some_entry, grows, by_one) = length-insert a s in
      let (low, high) = length-extend (insert a s) items in (omega arith, omega arith)

  -- Duplicates are lost, so that the set is at most as long as what is collected.
  pub length-collect : (items : List K) → length (collect items) ≤ length items
  unfolding collect
  length-collect items = omega (arith, (length-extend [] items).1)

  pub length-collect_pos : (a : K) (items : List K) → 0 < length (collect (a ∷ items))
  unfolding collect extend
  length-collect_pos a items =
      omega (arith, (length-insert a []).0, (length-extend (insert a []) items).0)
