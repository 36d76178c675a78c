-- ===== src/Balance/Selection/LeastConnections.antt =====
-- `LeastConnections` of umay/src/balance/selection.rs. `connections` maps an address to the number
-- of its open connections.
pub mod Laws
pub mod History
pub mod Balance
use umay.Base.{ℕ, ◌+◌, ◌-◌, ◌%◌, ◌^◌, Option, none, some, List, [], ◌∷◌, ltb, if◌then◌else◌}
use umay.Base.OrdMap
use umay.Base.OrdMap.{get, upsert, modify}
use umay.Net.{SocketAddr, socket_ord}
use umay.Balance.Backend.{Backend}
use mathlib.Core.Option

pub record LeastConnections : Type 0 where
  pub connections : List (SocketAddr × ℕ)

unfoldable pub default : LeastConnections
default = record { connections = [] }

-- `*new_connections.entry(*addr).or_insert(0) += 1`, in the release profile
unfoldable pub increment : SocketAddr → LeastConnections → LeastConnections
increment addr s = record {
  connections = upsert addr 0 (λ count. (count + 1) % 2 ^ 64) s.connections;
}

-- `if *count > 0 { *count -= 1 }`
abbrev pub saturating_dec : ℕ → ℕ
saturating_dec count = if ltb 0 count then count - 1 else count

unfoldable pub decrement : SocketAddr → LeastConnections → LeastConnections
decrement addr s = record { connections = modify addr saturating_dec s.connections }

-- `connections.get(&b.addr).unwrap_or(&0)`
unfoldable pub open_connections : LeastConnections → SocketAddr → ℕ
open_connections s addr = Option.get_or (get s.connections addr) 0

-- `min_by_key` keeps the first of the least entries.
unfoldable pub min_from : (Backend → ℕ) → Backend → List Backend → Backend
min_from key best [] = best
min_from key best (b ∷ backends) =
    min_from key (if ltb (key b) (key best) then b else best) backends

unfoldable pub min_by_key : (Backend → ℕ) → List Backend → Option Backend
unfolding min_from
min_by_key key [] = none
min_by_key key (b ∷ backends) = some (min_from key b backends)

unfoldable pub select : LeastConnections → List Backend → LeastConnections × Option Backend
unfolding min_by_key open_connections
select s backends = (s, min_by_key (λ b. open_connections s b.addr) backends)
