-- ===== src/Balance/Selection.antt =====
-- umay/src/balance/selection.rs: the trait `SelectionAlgorithm` and its implementations. The
-- shared counters are atomic, and `rcu` replaces the connection counts atomically, so one call is
-- one step on the algorithm's state.
pub mod RoundRobin
pub mod WeightedRoundRobin
pub mod LeastConnections
pub mod Random
pub mod ConsistentHashing
pub mod Rotation
pub mod Algorithm
pub mod Selector
pub mod Fairness
