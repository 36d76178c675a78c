-- ===== src/Balance/Selection/Algorithm.antt =====
-- The trait `SelectionAlgorithm` of umay/src/balance/selection.rs, with the laws that its users
-- rely on. `rng` answers the draws that a call makes.
use umay.Base.{◌^◌, ◌<◌, ◌≡◌, Option, none, some, List, [], Mem, All, length}
use umay.Balance.Backend.{Backend}
use umay.Balance.Selection.Random.{Rng}

-- What discovery produces: backends of weight 1.
abbrev pub IsUnit : Backend → Type 0
IsUnit b = b.weight ≡ 1

pub record SelectionAlgorithm (S : Type 0) : Type 0 where
  pub select : Rng → S → List Backend → S × Option Backend
  pub select-nil : (rng : Rng) (s : S) → select rng s [] ≡ (s, none)
  pub select-mem :
      (rng : Rng) (s : S) (bs : List Backend) (b : Backend)
      → (select rng s bs).1 ≡ some b
      → Mem b bs
  pub select-total :
      (rng : Rng) (s : S) (bs : List Backend)
      → All IsUnit bs
      → 0 < length bs
      → length bs < 2 ^ 64
      → (b : Backend) × ((select rng s bs).1 ≡ some b)
