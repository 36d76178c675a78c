-- ===== src/Balance/Backend.antt =====
-- `Backend` of umay/src/balance/mod.rs, with its derived order: the address first, then the weight.
use umay.Base.{ℕ, ◌≡◌, arith}
use umay.Base.Ord.{Ord, ord_by, nat_ord, pair_ord}
use umay.Net.{SocketAddr, socket_ord}

pub record Backend : Type 0 where
  pub addr : SocketAddr
  pub weight : ℕ

unfoldable pub new : SocketAddr → ℕ → Backend
new addr weight = record { addr = addr; weight = weight }

abbrev pub fields : Backend → SocketAddr × ℕ
fields b = (b.addr, b.weight)

pub fields-injective : (x y : Backend) → fields x ≡ fields y → x ≡ y
fields-injective x y h = ground arith

instance abbrev pub backend_ord : Ord Backend
backend_ord = ord_by fields fields-injective

-- `DefaultHasher` of the standard library, with what the address and a `usize` feed it.
pub record Hasher : Type 1 where
  pub State : Type 0
  pub default : State
  pub hash_addr : SocketAddr → State → State
  pub hash_usize : ℕ → State → State
  pub finish : State → ℕ

-- The derived `Hash` feeds the fields in their order.
unfoldable pub hash_key : Hasher → Backend → ℕ
hash_key hasher b =
    hasher.finish (hasher.hash_usize b.weight (hasher.hash_addr b.addr hasher.default))
