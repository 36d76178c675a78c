-- ===== src/Balance/Selection/WeightedRoundRobin/Laws.antt =====
-- The loop of `WeightedRoundRobin::select` in umay/src/balance/selection.rs, beside the list that
-- repeats each backend by its weight.
use umay.Base.{
  ℕ, zero, suc, ◌+◌, ◌-◌, ◌%◌, ◌^◌, ◌<◌, ◌≡◌, ◌⊎◌, refl, some, List, [], ◌∷◌, ◌++◌, arith, length,
  get_elem?, replicate, length-append, length-replicate, get_elem?-append_left,
  get_elem?-append_right, get_elem?-replicate, Mem, All, inl, inr,
}
use umay.Balance.Backend.{Backend}
use umay.Balance.Selection.WeightedRoundRobin.{sum_from, total_weight, walk}
use mathlib.Core.List.{mem-cons_self, mem-cons_of_mem}

-- Each backend as often as its weight says.
unfoldable pub expand : List Backend → List Backend
expand [] = []
expand (b ∷ backends) = replicate b.weight b ++ expand backends

-- The walk over the weights is a lookup in the list that repeats each backend by its weight, out of
-- range included.
pub walk-get_elem? :
    (i : ℕ) (backends : List Backend) → walk i backends ≡ get_elem? (expand backends) i
unfolding walk expand
walk-get_elem? i [] = refl
walk-get_elem? i (b ∷ bs) = ground (
  arith,
  walk-get_elem? (i - b.weight) bs,
  get_elem?-append_left (replicate b.weight b) (expand bs) i,
  get_elem?-append_right (replicate b.weight b) (expand bs) i,
  get_elem?-replicate b.weight b i,
  length-replicate b.weight b,
)

sum_from-length :
    (acc : ℕ) (backends : List Backend)
    → acc < 2 ^ 64
    → sum_from acc backends ≡ (acc + length (expand backends)) % 2 ^ 64
unfolding sum_from expand
sum_from-length acc [] h = omega arith
sum_from-length acc (b ∷ bs) h = omega (
  arith,
  sum_from-length ((acc + b.weight) % 2 ^ 64) bs (omega arith),
  length-append (replicate b.weight b) (expand bs),
  length-replicate b.weight b,
)

pub total_weight-length :
    (backends : List Backend) → total_weight backends ≡ length (expand backends) % 2 ^ 64
unfolding total_weight
total_weight-length bs = omega (arith, sum_from-length 0 bs (omega arith))

-- What the list repeats is a backend of the set with a positive weight.
mem-replicate_append :
    (n : ℕ) (b : Backend) (xs : List Backend) (i : ℕ) (c : Backend)
    → get_elem? (replicate n b ++ xs) i ≡ some c
    → ((c ≡ b) × (0 < n)) ⊎ ((j : ℕ) × (get_elem? xs j ≡ some c))
mem-replicate_append zero b xs i c e = inr (i, e)
mem-replicate_append (suc n) b xs zero c e = inl (cc, omega arith)
mem-replicate_append (suc n) b xs (suc i) c e = elim (mem-replicate_append n b xs i c e) [
  | inl (same, pos) ↦ inl (same, omega arith)
  | inr rest ↦ inr rest
]

pub expand-mem :
    (backends : List Backend) (i : ℕ) (c : Backend)
    → get_elem? (expand backends) i ≡ some c
    → Mem c backends × (0 < c.weight)
unfolding expand
expand-mem [] i c e = cc
expand-mem (b ∷ bs) i c e = elim (mem-replicate_append b.weight b (expand bs) i c e) [
  | inl (same, pos) ↦ (rw same mem-cons_self, rw same pos)
  | inr (j, f) ↦ let (m, pos) = expand-mem bs j c f in (mem-cons_of_mem b m, pos)
]

-- Where every weight is 1 nothing is repeated.
pub expand_unit :
    (backends : List Backend) → All (λ b. b.weight ≡ 1) backends → expand backends ≡ backends
unfolding expand
expand_unit [] h = refl
expand_unit (b ∷ bs) h = simp (h.0, expand_unit bs h.1)
