-- ===== src/Balance/Selection/LeastConnections/Balance.antt =====
-- `select` of umay/src/balance/selection.rs as it is meant to be used: each answer is counted by
-- `increment`.
use mathlib.Core.Path.{subst}
use umay.Base.{
  ℕ, zero, suc, ◌+◌, ◌^◌, ◌≤◌, ◌<◌, inl, inr, sym, Option, none, some, List, [], ◌∷◌, All, arith,
}
use umay.Net.{socket_ord}
use umay.Balance.Backend.{Backend}
use umay.Balance.Selection.LeastConnections.{
  LeastConnections, default, increment, open_connections, select,
}
use umay.Balance.Selection.LeastConnections.History.{default_closed}
use umay.Balance.Selection.LeastConnections.Laws.{
  IsFirstMin, select-IsFirstMin, open_connections-increment,
}

abbrev pub counted : LeastConnections → Option Backend → LeastConnections
counted s none = s
counted s (some b) = increment b.addr s

-- `n` calls, each counted.
unfoldable pub assign : ℕ → LeastConnections → List Backend → LeastConnections
unfolding select increment
assign zero s bs = s
assign (suc n) s bs = assign n (counted s (select s bs).1) bs

-- The counts of all backends are `m` or one more.
abbrev pub IsLevel : ℕ → LeastConnections → List Backend → Type 0
IsLevel m s bs =
    All (λ (b : Backend). (m ≤ open_connections s b.addr) × (open_connections s b.addr ≤ m + 1)) bs

module _ (key : Backend → ℕ) (r : Backend) where
  IsFirstMin-All : (P : Backend → Type 0) (bs : List Backend) → All P bs → IsFirstMin key r bs → P r
  IsFirstMin-All P [] h k = absurd k
  IsFirstMin-All P (b ∷ bs) h (inl (e, least)) = subst P e h.0
  IsFirstMin-All P (b ∷ bs) h (inr (fewer, rest)) = IsFirstMin-All P bs h.1 rest

  IsFirstMin-le : (bs : List Backend) → IsFirstMin key r bs → All (λ x. key r ≤ key x) bs
  IsFirstMin-le [] k = absurd k
  IsFirstMin-le (b ∷ bs) (inl (e, least)) = (rw e (omega arith), least)
  IsFirstMin-le (b ∷ bs) (inr (fewer, rest)) = (omega arith, IsFirstMin-le bs rest)

increment-IsLevel :
    (m : ℕ) (s : LeastConnections) (r : Backend) (bs : List Backend)
    → m ≤ open_connections s r.addr
    → open_connections s r.addr + 1 < 2 ^ 64
    → IsLevel m s bs
    → All (λ (x : Backend). open_connections s r.addr ≤ open_connections s x.addr) bs
    → IsLevel (open_connections s r.addr) (increment r.addr s) bs
increment-IsLevel m s r [] low room level least = tt
increment-IsLevel m s r (b ∷ bs) low room level least = (
  ground (arith, open_connections-increment s r.addr b.addr, socket_ord.eq_of_cmp b.addr r.addr),
  increment-IsLevel m s r bs low room level.1 least.1,
)

assign-IsLevel_from :
    (n k m : ℕ) (s : LeastConnections) (bs : List Backend)
    → m ≤ k
    → k + n + 1 < 2 ^ 64
    → IsLevel m s bs
    → (j : ℕ) × IsLevel j (assign n s bs) bs
unfolding assign
assign-IsLevel_from zero k m s bs few room level = (m, level)
assign-IsLevel_from (suc n) k m s [] few room level = (m, tt)
assign-IsLevel_from (suc n) k m s (b ∷ bs) few room level =
    let (r, e, first) = select-IsFirstMin s b bs in
    let (low, high) =
      IsFirstMin-All (λ x. open_connections s x.addr) r
        (λ x. (m ≤ open_connections s x.addr) × (open_connections s x.addr ≤ m + 1)) (b ∷ bs) level
        first in
    let next =
      increment-IsLevel m s r (b ∷ bs) low (omega arith) level
        (IsFirstMin-le (λ x. open_connections s x.addr) r (b ∷ bs) first) in
    subst
      (λ (x : LeastConnections × Option Backend).
        (j : ℕ) × IsLevel j (assign n (counted s x.1) (b ∷ bs)) (b ∷ bs))
      (sym e)
      (assign-IsLevel_from n (k + 1) (open_connections s r.addr) (increment r.addr s) (b ∷ bs)
        (omega arith) (omega arith) next)

default-IsLevel : (bs : List Backend) → IsLevel 0 default bs
default-IsLevel [] = tt
default-IsLevel (b ∷ bs) = (
  (omega (arith, default_closed b.addr), omega (arith, default_closed b.addr)),
  default-IsLevel bs,
)

-- Where each selected backend's count is incremented, the load stays balanced: after any number of
-- calls, fewer than 2^64 - 1, on an unchanged set, the counts of any two of its backends differ by
-- at most 1.
pub assign-IsLevel :
    (n : ℕ) (bs : List Backend) → n + 1 < 2 ^ 64 → (m : ℕ) × IsLevel m (assign n default bs) bs
assign-IsLevel n bs room =
    assign-IsLevel_from n 0 0 default bs (omega arith) (omega arith) (default-IsLevel bs)
