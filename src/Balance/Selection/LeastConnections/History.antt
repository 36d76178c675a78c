-- ===== src/Balance/Selection/LeastConnections/History.antt =====
-- Histories of `increment` and `decrement` of umay/src/balance/selection.rs.
use umay.Base.{ℕ, ◌+◌, ◌%◌, ◌^◌, ◌≡◌, refl, ap, ◌<◌, ◌≤◌, ◌-◌, List, [], ◌∷◌, arith, if◌then◌else◌}
use umay.Base.OrdMap.{get}
use umay.Base.OrdSet.{is_eq}
use umay.Net.{SocketAddr, socket_ord}
use umay.Balance.Selection.LeastConnections.{
  LeastConnections, increment, decrement, saturating_dec, open_connections, default,
}
use umay.Balance.Selection.LeastConnections.Laws.{
  open_connections-increment, open_connections-decrement,
}

pub data Event : Type 0 where
  opened closed : SocketAddr → Event

unfoldable pub track : List Event → LeastConnections → LeastConnections
track [] s = s
track (opened a ∷ es) s = track es (increment a s)
track (closed a ∷ es) s = track es (decrement a s)

-- The count of one address, by the events of that address alone.
unfoldable pub tally : SocketAddr → List Event → ℕ → ℕ
tally j [] n = n
tally j (opened a ∷ es) n = tally j es (if is_eq (socket_ord.cmp j a) then (n + 1) % 2 ^ 64 else n)
tally j (closed a ∷ es) n = tally j es (if is_eq (socket_ord.cmp j a) then saturating_dec n else n)

-- Over any history of `increment` and `decrement`, from any state, the count of an address is that
-- of a counter which only the events of that address change.
pub open_connections-track :
    (es : List Event) (s : LeastConnections) (j : SocketAddr)
    → open_connections (track es s) j ≡ tally j es (open_connections s j)
unfolding track tally
open_connections-track [] s j = refl
open_connections-track (opened a ∷ es) s j = ground (
  arith,
  open_connections-track es (increment a s) j,
  open_connections-increment s a j,
  socket_ord.eq_of_cmp j a,
)
open_connections-track (closed a ∷ es) s j = ground (
  arith,
  open_connections-track es (decrement a s) j,
  open_connections-decrement s a j,
  socket_ord.eq_of_cmp j a,
)

abbrev pub opens : SocketAddr → List Event → ℕ
opens j [] = 0
opens j (opened a ∷ es) = (if is_eq (socket_ord.cmp j a) then 1 else 0) + opens j es
opens j (closed a ∷ es) = opens j es

abbrev pub closes : SocketAddr → List Event → ℕ
closes j [] = 0
closes j (opened a ∷ es) = closes j es
closes j (closed a ∷ es) = (if is_eq (socket_ord.cmp j a) then 1 else 0) + closes j es

-- From `n` open connections of `j`, none is closed before it was opened.
abbrev pub IsBalanced : SocketAddr → List Event → ℕ → Type 0
IsBalanced j [] n = Unit
IsBalanced j (opened a ∷ es) n = IsBalanced j es (if is_eq (socket_ord.cmp j a) then n + 1 else n)
IsBalanced j (closed a ∷ es) n =
    ((if is_eq (socket_ord.cmp j a) then 1 else 0) ≤ n)
    × IsBalanced j es (if is_eq (socket_ord.cmp j a) then n - 1 else n)

tally-opens :
    (j : SocketAddr) (es : List Event) (n : ℕ)
    → IsBalanced j es n
    → n + opens j es < 2 ^ 64
    → tally j es n + closes j es ≡ n + opens j es
unfolding tally
tally-opens j [] n h room = refl
tally-opens j (opened a ∷ es) n h room =
    ground (arith, tally-opens j es n, tally-opens j es (n + 1))
tally-opens j (closed a ∷ es) n h room =
    ground (arith, tally-opens j es n, tally-opens j es (n - 1))

pub default_closed : (j : SocketAddr) → open_connections default j ≡ 0
unfolding open_connections default get
default_closed j = refl

-- From the initial state, over a history that closes no connection of an address before it was
-- opened and opens fewer than 2^64 of them, the count of the address with those closed is the
-- number opened.
pub open_connections-default :
    (es : List Event) (j : SocketAddr)
    → IsBalanced j es 0
    → opens j es < 2 ^ 64
    → open_connections (track es default) j + closes j es ≡ opens j es
open_connections-default es j h room = omega (
  arith,
  open_connections-track es default j,
  ap (tally j es) (default_closed j),
  tally-opens j es 0,
)
