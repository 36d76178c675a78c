-- ===== src/Balance/Selection/ConsistentHashing.antt =====
-- `ConsistentHashing` of umay/src/balance/selection.rs, whose `select` is a `todo!()`.
use umay.Base.{ℕ, Option, List, Outcome, panic}
use umay.Balance.Backend.{Backend}

pub record ConsistentHashing : Type 0 where
  pub virtual_nodes : ℕ

unfoldable pub new : ℕ → ConsistentHashing
new virtual_nodes = record { virtual_nodes = virtual_nodes }

unfoldable pub select : ConsistentHashing → List Backend → Outcome (Option Backend)
select s backends = panic
