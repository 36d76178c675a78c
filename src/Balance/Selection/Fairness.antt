-- ===== src/Balance/Selection/Fairness.antt =====
-- What a run of calls of `select` on one unchanged set of backends yields.
use native.Mathlib.Nat.{mod-eq_of_lt}
use umay.Base.{
  ℕ, zero, suc, ◌+◌, ◌*◌, ◌%◌, ◌^◌, ◌<◌, ◌≡◌, refl, ap, sym, ◌∙◌, Option, some, List, [], ◌∷◌, map,
  All, length, replicate, arith,
}
use umay.Base.OrdMap.{get}
use umay.Balance.Backend.{Backend}
use umay.Balance.Selection.Algorithm.{IsUnit}
use umay.Balance.Selection.Rotation.{turns, rotate, rounds, turns-rounds}
use umay.Balance.Selection.RoundRobin
use umay.Balance.Selection.RoundRobin.{RoundRobin, fetch_add}
use umay.Balance.Selection.WeightedRoundRobin
use umay.Balance.Selection.WeightedRoundRobin.{WeightedRoundRobin, total_weight}
use umay.Balance.Selection.WeightedRoundRobin.Laws.{
  expand, expand_unit, walk-get_elem?, total_weight-length,
}
use umay.Balance.Selection.LeastConnections.{default, select, open_connections, min_from}

-- The answers of `n` calls in a row.
unfoldable pub picks {ℓ} : {S : Type ℓ} → ℕ → (S → S × Option Backend) → S → List (Option Backend)
picks zero select s = []
picks (suc n) select s = let (s', b) = select s in b ∷ picks n select s'

round_robin-turns :
    (n : ℕ) (s : RoundRobin) (bs : List Backend)
    → 0 < length bs
    → picks n (λ t. RoundRobin.select t bs) s ≡ turns n s.index bs
unfolding picks turns RoundRobin.select
round_robin-turns zero s bs pos = refl
round_robin-turns (suc n) s bs pos =
    ground (arith, round_robin-turns n (record { index = fetch_add s.index }) bs)

-- Round robin is fair: while the counter does not reach 2^64, `m` times as many calls as there are
-- backends, of which there is one, go `m` times through all of them in order, from the one where
-- the counter stands.
pub round_robin-rounds :
    (m : ℕ) (s : RoundRobin) (bs : List Backend)
    → 0 < length bs
    → s.index + m * length bs < 2 ^ 64
    → picks (m * length bs) (λ t. RoundRobin.select t bs) s
      ≡ rounds m (map some (rotate (s.index % length bs) bs))
round_robin-rounds m s bs pos room =
    round_robin-turns (m * length bs) s bs pos ∙ turns-rounds m s.index bs pos room

weighted-turns :
    (n : ℕ) (s : WeightedRoundRobin) (bs : List Backend)
    → 0 < total_weight bs
    → total_weight bs ≡ length (expand bs)
    → picks n (λ t. WeightedRoundRobin.select t bs) s ≡ turns n s.index (expand bs)
unfolding picks turns WeightedRoundRobin.select
weighted-turns zero s bs pos e = refl
weighted-turns (suc n) s bs pos e = ground (
  arith,
  weighted-turns n (record { index = fetch_add s.index }) bs,
  walk-get_elem? (s.index % total_weight bs) bs,
)

-- Weighted round robin gives each backend its weight: while neither the sum of the weights, which
-- is positive, nor the counter reaches 2^64, `m` times as many calls as the sum go `m` times
-- through the list that repeats each backend by its weight, in order, from the place where the
-- counter stands.
pub weighted-rounds :
    (m : ℕ) (s : WeightedRoundRobin) (bs : List Backend)
    → 0 < length (expand bs)
    → length (expand bs) < 2 ^ 64
    → s.index + m * length (expand bs) < 2 ^ 64
    → picks (m * length (expand bs)) (λ t. WeightedRoundRobin.select t bs) s
      ≡ rounds m (map some (rotate (s.index % length (expand bs)) (expand bs)))
weighted-rounds m s bs pos small room =
    weighted-turns (m * length (expand bs)) s bs (omega (arith, e)) e
    ∙ turns-rounds m s.index (expand bs) pos room
  where
    e : total_weight bs ≡ length (expand bs)
    e = total_weight-length bs ∙ mod-eq_of_lt small

-- On backends of weight 1, of which there is one and fewer than 2^64, weighted round robin answers
-- as round robin does from the same counter, over any number of calls.
pub weighted-unit :
    (n i : ℕ) (bs : List Backend)
    → All IsUnit bs
    → 0 < length bs
    → length bs < 2 ^ 64
    → picks n (λ t. WeightedRoundRobin.select t bs) (record { index = i })
      ≡ picks n (λ t. RoundRobin.select t bs) (record { index = i })
weighted-unit n i bs unit pos small =
    weighted-turns n (record { index = i }) bs (omega (arith, e))
      (e ∙ sym (ap length (expand_unit bs unit)))
    ∙ ap (turns n i) (expand_unit bs unit)
    ∙ sym (round_robin-turns n (record { index = i }) bs pos)
  where
    e : total_weight bs ≡ length bs
    e =
        total_weight-length bs
        ∙ ap (λ xs. length xs % 2 ^ 64) (expand_unit bs unit)
        ∙ mod-eq_of_lt small

min_from-const :
    (key : Backend → ℕ)
    → ((x y : Backend) → key x ≡ key y)
    → (b : Backend) (bs : List Backend) → min_from key b bs ≡ b
unfolding min_from
min_from-const key same b [] = refl
min_from-const key same b (x ∷ bs) = ground (arith, same x b, min_from-const key same b bs)

default-select : (b : Backend) (bs : List Backend) → select default (b ∷ bs) ≡ (default, some b)
unfolding select default get
default-select b bs =
    ap (λ c. (default, some c))
      (min_from-const (λ x. open_connections default x.addr) (λ x y. refl) b bs)

-- From its initial state, and with no call of `increment`, every call of `select` on a set with an
-- entry answers its first backend.
pub least-default :
    (n : ℕ) (b : Backend) (bs : List Backend)
    → picks n (λ t. select t (b ∷ bs)) default ≡ replicate n (some b)
unfolding picks
least-default zero b bs = refl
least-default (suc n) b bs = rw (default-select b bs) (ap (◌∷◌ (some b)) (least-default n b bs))
