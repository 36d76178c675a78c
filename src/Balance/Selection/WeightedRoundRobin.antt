-- ===== src/Balance/Selection/WeightedRoundRobin.antt =====
-- `WeightedRoundRobin` of umay/src/balance/selection.rs, in the release profile that the Dockerfile
-- builds: the sum of the weights wraps around.
pub mod Laws
use umay.Base.{
  ℕ, zero, ◌+◌, ◌-◌, ◌%◌, ◌^◌, Option, none, some, List, [], ◌∷◌, ltb, ◌==◌, if◌then◌else◌,
}
use umay.Balance.Backend.{Backend}
use umay.Balance.Selection.RoundRobin.{fetch_add}

pub record WeightedRoundRobin : Type 0 where
  pub index : ℕ

unfoldable pub default : WeightedRoundRobin
default = record { index = 0 }

-- `.map(|b| b.weight).sum()`
unfoldable pub sum_from : ℕ → List Backend → ℕ
sum_from acc [] = acc
sum_from acc (b ∷ backends) = sum_from ((acc + b.weight) % 2 ^ 64) backends

unfoldable pub total_weight : List Backend → ℕ
unfolding sum_from
total_weight backends = sum_from 0 backends

-- The `for` loop, which counts `index` down by the weights that it passes.
unfoldable pub walk : ℕ → List Backend → Option Backend
walk index [] = none
walk index (b ∷ backends) = if ltb index b.weight then some b else walk (index - b.weight) backends

unfoldable pub select : WeightedRoundRobin → List Backend → WeightedRoundRobin × Option Backend
unfolding total_weight walk
select s backends =
    let total = total_weight backends in
    if total == 0
    then (s, none)
    else (record { index = fetch_add s.index }, walk (s.index % total) backends)
