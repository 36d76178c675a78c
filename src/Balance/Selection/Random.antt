-- ===== src/Balance/Selection/Random.antt =====
-- `Random` of umay/src/balance/selection.rs. The generator of the crate `rand` is a parameter.
use umay.Base.{ℕ, ◌<◌, Option, none, List, length, get_elem?, ◌==◌, if◌then◌else◌}
use umay.Balance.Backend.{Backend}

-- What `rand::thread_rng().gen_range(0..n)` answers at one call: a number below `n`.
pub record Rng : Type 0 where
  pub gen_range : ℕ → ℕ
  pub gen_range-lt : (n : ℕ) → 0 < n → gen_range n < n

pub data Random : Type 0 where
  random : Random

unfoldable pub select : Rng → Random → List Backend → Random × Option Backend
select rng s backends =
    if length backends == 0
    then (s, none)
    else (s, get_elem? backends (rng.gen_range (length backends)))
