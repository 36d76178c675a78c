-- ===== src/Balance/Selection/LeastConnections/Laws.antt =====
-- The methods of `LeastConnections` of umay/src/balance/selection.rs, one call at a time.
use mathlib.Core.List.{mem-cons_self, mem-cons_of_mem}
use umay.Base.{
  ℕ, ◌+◌, ◌%◌, ◌^◌, ◌≤◌, ◌<◌, ◌≡◌, ◌⊎◌, inl, inr, refl, none, some, List, [], ◌∷◌, arith, Mem, All,
  if◌then◌else◌,
}
use umay.Base.OrdSet.{is_eq}
use umay.Base.OrdMap.{get-upsert, get-modify}
use umay.Net.{SocketAddr, socket_ord}
use umay.Balance.Backend.{Backend}
use umay.Balance.Selection.LeastConnections.{
  LeastConnections, increment, decrement, saturating_dec, open_connections, min_from, select,
}

-- `r` is the first of the entries whose key is least.
abbrev pub IsFirstMin : (Backend → ℕ) → Backend → List Backend → Type 0
IsFirstMin key r [] = ⊥
IsFirstMin key r (b ∷ bs) =
    ((b ≡ r) × All (λ x. key r ≤ key x) bs) ⊎ ((key r < key b) × IsFirstMin key r bs)

min_from-le :
    (key : Backend → ℕ) (best : Backend) (bs : List Backend) → key (min_from key best bs) ≤ key best
unfolding min_from
min_from-le key best [] = omega arith
min_from-le key best (b ∷ bs) = ground (arith, min_from-le key best bs, min_from-le key b bs)

min_from-IsFirstMin :
    (key : Backend → ℕ) (best : Backend) (bs : List Backend)
    → IsFirstMin key (min_from key best bs) (best ∷ bs)
unfolding min_from
min_from-IsFirstMin key best [] = inl (refl, tt)
min_from-IsFirstMin key best (b ∷ bs) = ground (
  arith,
  min_from-IsFirstMin key best bs,
  min_from-IsFirstMin key b bs,
  min_from-le key best bs,
  min_from-le key b bs,
)

pub IsFirstMin-mem :
    (key : Backend → ℕ) (r : Backend) (bs : List Backend) → IsFirstMin key r bs → Mem r bs
IsFirstMin-mem key r [] h = absurd h
IsFirstMin-mem key r (b ∷ bs) (inl (e, least)) = rw (← e) mem-cons_self
IsFirstMin-mem key r (b ∷ bs) (inr (fewer, rest)) = mem-cons_of_mem b (IsFirstMin-mem key r bs rest)

pub select-IsFirstMin :
    (s : LeastConnections) (b : Backend) (bs : List Backend)
    → (r : Backend) × (select s (b ∷ bs) ≡ (s, some r))
      × IsFirstMin (λ x. open_connections s x.addr) r (b ∷ bs)
unfolding select
select-IsFirstMin s b bs =
    let key = λ (x : Backend). open_connections s x.addr in
    (min_from key b bs, refl, min_from-IsFirstMin key b bs)

pub select-nil : (s : LeastConnections) → select s [] ≡ (s, none)
unfolding select
select-nil s = refl

pub open_connections-increment :
    (s : LeastConnections) (a j : SocketAddr)
    → open_connections (increment a s) j ≡ (
        if is_eq (socket_ord.cmp j a)
        then (open_connections s a + 1) % 2 ^ 64
        else open_connections s j)
unfolding open_connections increment
open_connections-increment s a j =
    ground (arith, get-upsert a 0 (λ c. (c + 1) % 2 ^ 64) s.connections j)

pub open_connections-decrement :
    (s : LeastConnections) (a j : SocketAddr)
    → open_connections (decrement a s) j ≡ (
        if is_eq (socket_ord.cmp j a)
        then saturating_dec (open_connections s a)
        else open_connections s j)
unfolding open_connections decrement
open_connections-decrement s a j = ground (arith, get-modify a saturating_dec s.connections j)
