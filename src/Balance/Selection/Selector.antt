-- ===== src/Balance/Selection/Selector.antt =====
-- The implementations of the trait `SelectionAlgorithm`, and `Arc<dyn SelectionAlgorithm>`: one of
-- the four that umay/src/app/server.rs creates.
use mathlib.Core.Path.{subst}
use native.Mathlib.Nat.{mod-lt}
use umay.Base.{
  ◌%◌, ◌^◌, ◌<◌, ◌≡◌, refl, ap, Option, none, some, List, [], ◌∷◌, Mem, All, length, arith,
  get_elem?-some, get_elem?-mem,
}
use umay.Balance.Backend.{Backend}
use umay.Balance.Selection.Algorithm.{SelectionAlgorithm, IsUnit}
use umay.Balance.Selection.Random.{Rng, Random}
use umay.Balance.Selection.Random
use umay.Balance.Selection.RoundRobin
use umay.Balance.Selection.RoundRobin.{RoundRobin}
use umay.Balance.Selection.WeightedRoundRobin
use umay.Balance.Selection.WeightedRoundRobin.{WeightedRoundRobin, total_weight}
use umay.Balance.Selection.WeightedRoundRobin.Laws.{
  expand, expand_unit, expand-mem, walk-get_elem?, total_weight-length,
}
use umay.Balance.Selection.LeastConnections
use umay.Balance.Selection.LeastConnections.{LeastConnections}
use umay.Balance.Selection.LeastConnections.Laws.{select-nil, select-IsFirstMin, IsFirstMin-mem}

module _ (s : RoundRobin) (bs : List Backend) where
  pub round_robin-mem : (b : Backend) → (RoundRobin.select s bs).1 ≡ some b → Mem b bs
  unfolding RoundRobin.select
  round_robin-mem b h = get_elem?-mem bs (s.index % length bs) b (ground arith)

  pub round_robin-total : 0 < length bs → (b : Backend) × ((RoundRobin.select s bs).1 ≡ some b)
  unfolding RoundRobin.select
  round_robin-total pos =
      let (b, e) = get_elem?-some bs (s.index % length bs) (mod-lt s.index pos) in (b, ground arith)

pub round_robin-nil : (s : RoundRobin) → RoundRobin.select s [] ≡ (s, none)
unfolding RoundRobin.select
round_robin-nil s = refl

pub random-nil : (rng : Rng) (s : Random) → Random.select rng s [] ≡ (s, none)
unfolding Random.select
random-nil rng s = refl

pub weighted-nil : (s : WeightedRoundRobin) → WeightedRoundRobin.select s [] ≡ (s, none)
unfolding WeightedRoundRobin.select
weighted-nil s = refl

module _ (rng : Rng) (s : Random) (bs : List Backend) where
  pub random-mem : (b : Backend) → (Random.select rng s bs).1 ≡ some b → Mem b bs
  unfolding Random.select
  random-mem b h = get_elem?-mem bs (rng.gen_range (length bs)) b (ground arith)

  pub random-total : 0 < length bs → (b : Backend) × ((Random.select rng s bs).1 ≡ some b)
  unfolding Random.select
  random-total pos =
      let (b, e) =
        get_elem?-some bs (rng.gen_range (length bs)) (rng.gen_range-lt (length bs) pos) in
      (b, ground arith)

module _ (s : WeightedRoundRobin) (bs : List Backend) where
  pub weighted-mem : (b : Backend) → (WeightedRoundRobin.select s bs).1 ≡ some b → Mem b bs
  unfolding WeightedRoundRobin.select
  weighted-mem b h =
      (expand-mem bs (s.index % total_weight bs) b
        (ground (arith, walk-get_elem? (s.index % total_weight bs) bs))).0

  -- Unless the weights add up to 0, one of them is selected.
  pub weighted-total :
      0 < total_weight bs → (b : Backend) × ((WeightedRoundRobin.select s bs).1 ≡ some b)
  unfolding WeightedRoundRobin.select
  weighted-total pos =
      let (b, e) =
        get_elem?-some (expand bs) (s.index % total_weight bs)
          (omega (arith, mod-lt s.index pos, total_weight-length bs)) in
      (b, ground (arith, walk-get_elem? (s.index % total_weight bs) bs))

  pub unit_total : All IsUnit bs → length bs < 2 ^ 64 → total_weight bs ≡ length bs
  unit_total unit small = omega (arith, total_weight-length bs, ap length (expand_unit bs unit))

  pub weighted_pos : All IsUnit bs → 0 < length bs → length bs < 2 ^ 64 → 0 < total_weight bs
  weighted_pos unit pos small = omega (arith, unit_total unit small)

module _ (s : LeastConnections) where
  pub least-mem :
      (bs : List Backend) (b : Backend) → (LeastConnections.select s bs).1 ≡ some b → Mem b bs
  least-mem [] b h = cc (h, select-nil s)
  least-mem (x ∷ bs) b h =
      let (r, e, m) = select-IsFirstMin s x bs in
      subst (λ c. Mem c (x ∷ bs)) (cc)
        (IsFirstMin-mem (λ y. LeastConnections.open_connections s y.addr) r (x ∷ bs) m)

  pub least-total :
      (bs : List Backend)
      → 0 < length bs
      → (b : Backend) × ((LeastConnections.select s bs).1 ≡ some b)
  least-total [] pos = absurd (omega arith)
  least-total (x ∷ bs) pos =
      let (r, e, _) = select-IsFirstMin s x bs in
      (r, ap (λ (p : LeastConnections × Option Backend). p.1) e)

instance abbrev pub round_robin_algorithm : SelectionAlgorithm RoundRobin
round_robin_algorithm = record {
  select = λ rng. RoundRobin.select;
  select-nil = λ rng. round_robin-nil;
  select-mem = λ rng. round_robin-mem;
  select-total = λ rng s bs unit pos small. round_robin-total s bs pos;
}

instance abbrev pub weighted_algorithm : SelectionAlgorithm WeightedRoundRobin
weighted_algorithm = record {
  select = λ rng. WeightedRoundRobin.select;
  select-nil = λ rng. weighted-nil;
  select-mem = λ rng. weighted-mem;
  select-total = λ rng s bs unit pos small. weighted-total s bs (weighted_pos s bs unit pos small);
}

instance abbrev pub least_algorithm : SelectionAlgorithm LeastConnections
least_algorithm = record {
  select = λ rng. LeastConnections.select;
  select-nil = λ rng. select-nil;
  select-mem = λ rng. least-mem;
  select-total = λ rng s bs unit pos small. least-total s bs pos;
}

instance abbrev pub random_algorithm : SelectionAlgorithm Random
random_algorithm = record {
  select = Random.select;
  select-nil = random-nil;
  select-mem = random-mem;
  select-total = λ rng s bs unit pos small. random-total rng s bs pos;
}

pub data Selector : Type 0 where
  random : Random → Selector
  round_robin : RoundRobin → Selector
  weighted_round_robin : WeightedRoundRobin → Selector
  least_connections : LeastConnections → Selector

-- A call through the trait object.
unfoldable pub select : Rng → Selector → List Backend → Selector × Option Backend
select rng (random s) bs = let (s', b) = Random.select rng s bs in (random s', b)
select rng (round_robin s) bs = let (s', b) = RoundRobin.select s bs in (round_robin s', b)
select rng (weighted_round_robin s) bs =
    let (s', b) = WeightedRoundRobin.select s bs in (weighted_round_robin s', b)
select rng (least_connections s) bs =
    let (s', b) = LeastConnections.select s bs in (least_connections s', b)

pub selector-nil : (rng : Rng) (s : Selector) → select rng s [] ≡ (s, none)
unfolding select
selector-nil rng (random s) = simp random-nil
selector-nil rng (round_robin s) = simp round_robin-nil
selector-nil rng (weighted_round_robin s) = simp weighted-nil
selector-nil rng (least_connections s) = simp select-nil

pub selector-mem :
    (rng : Rng) (s : Selector) (bs : List Backend) (b : Backend)
    → (select rng s bs).1 ≡ some b
    → Mem b bs
unfolding select
selector-mem rng (random s) = random-mem rng s
selector-mem rng (round_robin s) = round_robin-mem s
selector-mem rng (weighted_round_robin s) = weighted-mem s
selector-mem rng (least_connections s) = least-mem s

-- Each of the four algorithms selects a backend from every set of backends of weight 1 that has an
-- entry and fewer than 2^64 of them.
pub selector-total :
    (rng : Rng) (s : Selector) (bs : List Backend)
    → All IsUnit bs
    → 0 < length bs
    → length bs < 2 ^ 64
    → (b : Backend) × ((select rng s bs).1 ≡ some b)
unfolding select
selector-total rng (random s) bs unit pos small = random-total rng s bs pos
selector-total rng (round_robin s) bs unit pos small = round_robin-total s bs pos
selector-total rng (weighted_round_robin s) bs unit pos small =
    weighted-total s bs (weighted_pos s bs unit pos small)
selector-total rng (least_connections s) bs unit pos small = least-total s bs pos

instance abbrev pub selector_algorithm : SelectionAlgorithm Selector
selector_algorithm = record {
  select = select;
  select-nil = selector-nil;
  select-mem = selector-mem;
  select-total = selector-total;
}
